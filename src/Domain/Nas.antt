-- ===== src/Domain/Nas.antt =====
-- internal/core/domain/nas.go: the network access server aggregate. A `net.IP` that may be nil is
-- an `Option` of its bytes. The defensive copies of the bytes are values here.
pub mod Life
mod Tests
use nexora_core.Prelude.{
  ℕ, ◌+◌, ◌%◌, ◌^◌, String, Bool, true, false, not, ◌&&◌, ◌||◌, Option, none, some, List, [], ◌∷◌,
  is_empty, ◌==◌, if◌then◌else◌,
}
use nexora_core.Prelude.Int.{ℤ}
use nexora_core.Domain.Errors.{Error, plain, Result, ok, err}

pub record Nas : Type 0 where
  pub id : String
  pub tenant_id : String
  pub identifier : String
  pub short_name : String
  pub ip_address : Option (List ℕ)
  pub secret : String
  pub active : Bool
  pub version : ℕ
  pub created_at : ℤ
  pub updated_at : ℤ

pub record NewNasParams : Type 0 where
  pub id : String
  pub tenant_id : String
  pub identifier : String
  pub short_name : String
  pub ip : Option (List ℕ)
  pub secret : String

abbrev pub same_bytes : List ℕ → List ℕ → Bool
same_bytes [] [] = true
same_bytes (a ∷ as') (b ∷ bs) = a == b && same_bytes as' bs
same_bytes _ _ = false

-- `ip.IsUnspecified()`: 0.0.0.0 in four or sixteen bytes, or the sixteen zeros of IPv6.
unfoldable pub is_unspecified : List ℕ → Bool
is_unspecified ip =
    same_bytes ip (0 ∷ 0 ∷ 0 ∷ 0 ∷ [])
    || (same_bytes ip (0 ∷ 0 ∷ 0 ∷ 0 ∷ 0 ∷ 0 ∷ 0 ∷ 0 ∷ 0 ∷ 0 ∷ 255 ∷ 255 ∷ 0 ∷ 0 ∷ 0 ∷ 0 ∷ [])
        || same_bytes ip (0 ∷ 0 ∷ 0 ∷ 0 ∷ 0 ∷ 0 ∷ 0 ∷ 0 ∷ 0 ∷ 0 ∷ 0 ∷ 0 ∷ 0 ∷ 0 ∷ 0 ∷ 0 ∷ []))

-- `IP == nil || IP.IsUnspecified()`
abbrev pub is_bad_ip : Option (List ℕ) → Bool
is_bad_ip none = true
is_bad_ip (some ip) = is_unspecified ip

pub new_nas : NewNasParams → ℤ → Result Nas
new_nas p now =
    if is_empty p.short_name
    then err (plain "nas short name cannot be empty")
    else if is_bad_ip p.ip
    then err (plain "invalid nas ip address")
    else if is_empty p.secret
    then err (plain "radius secret cannot be empty")
    else ok (record {
      id = p.id;
      tenant_id = p.tenant_id;
      identifier = p.identifier;
      short_name = p.short_name;
      ip_address = p.ip;
      secret = p.secret;
      active = true;
      version = 1;
      created_at = now;
      updated_at = now;
    })

bump_version : ℤ → Nas → Nas
bump_version now n = record n { version = (n.version + 1) % 2 ^ 64; updated_at = now }

pub activate : ℤ → Nas → Nas
unfolding bump_version
activate now n = if n.active then n else bump_version now (record n { active = true })

pub deactivate : ℤ → Nas → Nas
unfolding bump_version
deactivate now n = if not n.active then n else bump_version now (record n { active = false })

pub update_secret : String → ℤ → Nas → Option Error × Nas
unfolding bump_version
update_secret secret now n =
    if is_empty secret
    then (some (plain "secret cannot be empty"), n)
    else (none, bump_version now (record n { secret = secret }))

-- ===== src/Domain/User.antt =====
-- internal/core/domain/Users.go: the user aggregate. Ids, names and hashes are texts; `*time.Time`
-- is an `Option` of nanoseconds, `int` a signed integer, `uint64` a number with its wrap written
-- out. Each call of `clock.Now()` is an argument, in the order of the calls. A method with an
-- `error` result returns it (nil as `none`) beside the user it leaves.
pub mod Life
pub mod Quota
mod Tests
use nexora_core.Prelude.{
  ℕ, ◌+◌, ◌%◌, ◌^◌, String, List, Bool, true, false, not, Option, none, some, ltb, ◌==◌,
  if◌then◌else◌,
}
use nexora_core.Prelude.Int.{ℤ, pos, ltb_ℤ, before, after}
use nexora_core.Domain.Errors.{
  Error, domain, plain, Result, ok, err, err_user_inactive, err_user_expired,
}

pub record User : Type 0 where
  pub id : String
  pub username : String
  pub email : String
  pub password_hash : String
  pub mac : Option (List ℕ)
  pub role : String
  pub tenant_id : String
  pub active : Bool
  pub expired_at : Option ℤ
  pub max_sessions : ℤ
  pub data_quota : ℕ
  pub used_data : ℕ
  pub version : ℕ
  pub created_at : ℤ
  pub updated_at : ℤ
  pub mfa_enabled : Bool

pub record NewUserParams : Type 0 where
  pub id : String
  pub username : String
  pub email : String
  pub password_hash : String
  pub role : String
  pub tenant_id : String
  pub max_sessions : ℤ
  pub data_quota : ℕ

pub new_user : NewUserParams → ℤ → Result User
new_user p now =
    if ltb_ℤ p.max_sessions (pos 0)
    then err (plain "maxSessions cannot be negative")
    else ok (record {
      id = p.id;
      username = p.username;
      email = p.email;
      password_hash = p.password_hash;
      mac = none;
      role = p.role;
      tenant_id = p.tenant_id;
      active = false;
      expired_at = none;
      max_sessions = p.max_sessions;
      data_quota = p.data_quota;
      used_data = 0;
      version = 1;
      created_at = now;
      updated_at = now;
      mfa_enabled = false;
    })

validate_invariants : User → Option Error
validate_invariants u =
    if ltb_ℤ u.max_sessions (pos 0) then some (plain "negative maxSessions") else none

-- A `UserSnapshot` has the fields of a `User`.
unfoldable pub rehydrate_user : User → Result User
unfolding validate_invariants
rehydrate_user s = elim (validate_invariants s) [ none ↦ ok s | some e ↦ err e ]

unfoldable pub is_expired : ℤ → User → Bool
is_expired now u = elim u.expired_at [ none ↦ false | some t ↦ after now t ]

unfoldable pub can_authenticate : ℤ → User → Option Error
unfolding is_expired
can_authenticate now u =
    if not u.active
    then some (domain err_user_inactive)
    else if is_expired now u
    then some (domain err_user_expired)
    else none

bump_version : ℤ → User → User
bump_version now u = record u { version = (u.version + 1) % 2 ^ 64; updated_at = now }

pub activate : ℤ → ℤ → User → Option Error × User
unfolding is_expired bump_version
activate now now' u =
    if u.active
    then (none, u)
    else if is_expired now u
    then (some (domain err_user_expired), u)
    else (none, bump_version now' (record u { active = true }))

unfoldable pub deactivate : ℤ → User → User
unfolding bump_version
deactivate now u = if not u.active then u else bump_version now (record u { active = false })

pub expire : ℤ → ℤ → ℤ → User → Option Error × User
unfolding bump_version
expire at now now' u =
    if before at now
    then (some (plain "expiration date cannot be in the past"), u)
    else (none, bump_version now' (record u { expired_at = some at }))

pub bind_mac : List ℕ → ℤ → User → User
unfolding bump_version
bind_mac mac now u = bump_version now (record u { mac = some mac })

pub consume_data : ℕ → ℤ → User → Option Error × User
unfolding bump_version
consume_data bytes now u =
    if bytes == 0
    then (none, u)
    else if ltb ((u.used_data + bytes) % 2 ^ 64) u.used_data
    then (some (plain "data overflow detected"), u)
    else if ltb u.data_quota ((u.used_data + bytes) % 2 ^ 64)
    then (some (plain "data quota exceeded"), u)
    else (none, bump_version now (record u { used_data = (u.used_data + bytes) % 2 ^ 64 }))

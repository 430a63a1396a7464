-- ===== src/Domain/Values.antt =====
-- internal/core/domain/value_objects.go. A value object over a text is that text. UUIDs, the case and
-- the spaces of a text, MAC addresses and JSON texts are the parameter `Texts`; the two regular
-- expressions are written out as scans of a text. Also FakeClock of internal/core/domain/clock.go.
pub mod Checked
mod Tests
use Prim.Native.Char.{Char, code}
use Prim.Native.String.{len}
use nexora_core.Prelude.{
  ℕ, suc, String, Bool, true, false, not, ◌&&◌, ◌||◌, is_empty, Option, none, some, List, ltb, leb,
  ◌==◌, str_eq, if◌then◌else◌,
}
use nexora_core.Prelude.Int.{ℤ, ◌+ℤ◌}
use nexora_core.Domain.Errors.{
  Error, domain, DomainError, Result, ok, err, err_invalid_tenant_id, err_invalid_user_id,
  err_invalid_email, err_invalid_username, err_invalid_mac, err_invalid_password_hash,
  err_invalid_plan_id, err_invalid_nas_id, err_invalid_session_id,
}

pub record Texts : Type 0 where
  pub is_uuid : String → Bool
  pub lower : String → String
  pub trim_space : String → String
  pub parse_mac : String → Option (List ℕ)
  pub show_mac : List ℕ → String
  pub marshal_text : String → String
  pub unmarshal_text : String → Result String

abbrev pub between : ℕ → ℕ → Char → Bool
between a b c = leb a (code c) && leb (code c) b

abbrev pub is_lower : Char → Bool
is_lower = between 97 122

abbrev pub is_upper : Char → Bool
is_upper = between 65 90

abbrev pub is_digit : Char → Bool
is_digit = between 48 57

abbrev pub is_char : ℕ → Char → Bool
is_char n c = code c == n

-- `[a-zA-Z0-9_-]`
abbrev pub is_name_char : Char → Bool
is_name_char c = is_lower c || (is_upper c || (is_digit c || (is_char 95 c || is_char 45 c)))

abbrev pub all_chars : (Char → Bool) → String → Bool
all_chars f String.[] = true
all_chars f (String.◌∷◌ c s) = f c && all_chars f s

abbrev pub chars : String → ℕ
chars String.[] = 0
chars (String.◌∷◌ c s) = suc (chars s)

-- `^[a-zA-Z0-9_-]{3,32}$`
unfoldable pub matches_username : String → Bool
matches_username v = all_chars is_name_char v && (leb 3 (chars v) && leb (chars v) 32)

-- `[a-z]{2,}` up to the end
abbrev pub is_tld : String → Bool
is_tld v = all_chars is_lower v && leb 2 (chars v)

-- `[a-z0-9.\-]`
abbrev pub is_host_char : Char → Bool
is_host_char c = is_lower c || (is_digit c || (is_char 46 c || is_char 45 c))

-- `[a-z0-9.\-]+\.[a-z]{2,}` up to the end, after some characters of the first part or none.
abbrev pub matches_host : Bool → String → Bool
matches_host some_read String.[] = false
matches_host some_read (String.◌∷◌ c s) =
    (is_char 46 c && (some_read && is_tld s)) || (is_host_char c && matches_host true s)

-- `[a-z0-9._%+\-]`
abbrev pub is_local_char : Char → Bool
is_local_char c = is_host_char c || (is_char 95 c || (is_char 37 c || is_char 43 c))

-- `^[a-z0-9._%+\-]+@[a-z0-9.\-]+\.[a-z]{2,}$`
abbrev pub matches_from : Bool → String → Bool
matches_from some_read String.[] = false
matches_from some_read (String.◌∷◌ c s) =
    (is_char 64 c && (some_read && matches_host false s))
    || (is_local_char c && matches_from true s)

unfoldable pub matches_email : String → Bool
matches_email v = matches_from false v

abbrev pub valid_if : Bool → DomainError → String → Result String
valid_if b e v = if b then ok v else err (domain e)

unfoldable pub new_username : String → Result String
new_username v = valid_if (matches_username v) err_invalid_username v

-- `len` counts bytes.
unfoldable pub new_password_hash : String → Result String
new_password_hash hash = valid_if (not (ltb (len hash) 5)) err_invalid_password_hash hash

unfoldable pub new_plan_id : String → Result String
new_plan_id v = valid_if (not (is_empty v)) err_invalid_plan_id v

unfoldable pub new_nas_id : String → Result String
new_nas_id v = valid_if (not (is_empty v)) err_invalid_nas_id v

unfoldable pub new_session_id : String → Result String
new_session_id v = valid_if (not (is_empty v)) err_invalid_session_id v

module _ (t : Texts) where
  open t use {is_uuid, lower, trim_space, parse_mac, show_mac, marshal_text, unmarshal_text}

  -- `ParseTenantID` is another name of it.
  unfoldable pub new_tenant_id : String → Result String
  new_tenant_id v = valid_if (is_uuid v) err_invalid_tenant_id (lower v)

  unfoldable pub parse_user_id : String → Result String
  parse_user_id v = valid_if (is_uuid v) err_invalid_user_id (lower v)

  -- `IsZero` of both ids
  abbrev pub is_zero_id : String → Bool
  is_zero_id v = is_empty (trim_space v)

  unfoldable pub new_email : String → Result String
  new_email v = let w = trim_space (lower v) in valid_if (matches_email w) err_invalid_email w

  -- The bytes of a MAC address; the zero value has none.
  pub record Mac : Type 0 where
    pub value : Option (List ℕ)

  abbrev pub mac_of : Option (List ℕ) → Result Mac
  mac_of none = err (domain err_invalid_mac)
  mac_of (some bytes) = ok (record { value = some bytes })

  unfoldable pub parse_mac_text : String → Result Mac
  parse_mac_text v = mac_of (parse_mac v)

  -- `MAC.String`
  unfoldable pub mac_text : Mac → String
  mac_text m = elim m.value [ none ↦ "" | some bytes ↦ show_mac bytes ]

  unfoldable pub marshal_mac : Mac → String
  marshal_mac m = marshal_text (mac_text m)

  abbrev pub read_mac : Result String → Result Mac
  read_mac (ok s) = parse_mac_text s
  read_mac (err e) = err e

  unfoldable pub unmarshal_mac : String → Result Mac
  unmarshal_mac text = read_mac (unmarshal_text text)

pub record FakeClock : Type 0 where
  pub current_time : ℤ

abbrev pub new_fake_clock : ℤ → FakeClock
new_fake_clock t = record { current_time = t }

unfoldable pub advance : ℤ → FakeClock → FakeClock
advance d f = record f { current_time = f.current_time +ℤ d }

unfoldable pub set_time : ℤ → FakeClock → FakeClock
set_time t f = record f { current_time = t }

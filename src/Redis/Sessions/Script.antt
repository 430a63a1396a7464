-- ===== src/Redis/Sessions/Script.antt =====
-- internal/adapters/secondary/redis/scripts/update_usage.lua, run atomically by the server, whose
-- commands on hashes are a parameter, and so is the rounding of a number to a double of Lua. A numeric
-- field that holds another text reads as 0, where `tonumber` gives nil; the theorems ask for numbers.
use nexora_core.Prelude.{
  ◌≡◌, ◌^◌, String, Bool, true, false, ◌&&◌, ◌||◌, Option, none, some, [], ◌∷◌, Dict, lookup,
  str_eq, if◌then◌else◌,
}
use nexora_core.Prelude.Int.{ℤ, pos, negsuc, ◌+ℤ◌, ◌-ℤ◌, ltb_ℤ, ◌<ℤ◌, ◌≤ℤ◌}

-- The value of a field of a hash: digits, or another text.
pub data Field : Type 0 where
  number : ℤ → Field
  text : String → Field

pub record SessionRedis : Type 1 where
  pub Store : Type 0
  pub hgetall : String → Store → Dict Field
  pub hset : String → Dict Field → Store → Store
  -- HINCRBY, `none` when the server refuses: no integer, or an overflow
  pub hincrby : String → String → ℤ → Store → Option Store
  -- EXPIRE, in seconds
  pub expire : String → ℤ → Store → Store
  pub del : String → Store → Store
  -- LPUSH and LTRIM of a list of quota violations: the time, the quota and the attempted total
  pub double : ℤ → ℤ
  pub log_violation : ℤ → ℤ → ℤ → Store → Store

abbrev pub or_else : {A : Type 0} → Option A → Option A → Option A
or_else none b = b
or_else (some a) b = some a

abbrev pub number_of : Option Field → ℤ
number_of (some (number n)) = n
number_of _ = pos 0

abbrev pub is_counter : Option Field → Bool
is_counter (some (text t)) = false
is_counter _ = true

-- The integers from 0 to 2 ^ 53, which a double holds exactly and prints without an exponent.
abbrev pub IsSmall : ℤ → Type 0
IsSmall n = (pos 0 ≤ℤ n) × (n ≤ℤ pos (2 ^ 53))

-- What Redis and Lua document of them.
pub record SessionLaws (r : SessionRedis) : Type 0 where
  pub get_hset :
      (k f : String) (fs : Dict Field) (s : r.Store)
      → lookup f (r.hgetall k (r.hset k fs s)) ≡ or_else (lookup f fs) (lookup f (r.hgetall k s))
  pub get_hincrby :
      (k f g : String) (n : ℤ) (s t : r.Store)
      → r.hincrby k f n s ≡ some t
      → lookup g (r.hgetall k t) ≡ (
          if str_eq f g
          then some (number (number_of (lookup f (r.hgetall k s)) +ℤ n))
          else lookup g (r.hgetall k s))
  pub hincrby_answers :
      (k f : String) (n : ℤ) (s : r.Store)
      → is_counter (lookup f (r.hgetall k s)) ≡ true
      → IsSmall n
      → IsSmall (number_of (lookup f (r.hgetall k s)) +ℤ n)
      → (t : r.Store) × (r.hincrby k f n s ≡ some t)
  pub double_exact : (n : ℤ) → IsSmall n → r.double n ≡ n
  pub get_expire :
      (k : String) (d : ℤ) (s : r.Store) → pos 0 <ℤ d → r.hgetall k (r.expire k d s) ≡ r.hgetall k s
  pub get_del : (k : String) (s : r.Store) → r.hgetall k (r.del k s) ≡ []
  pub get_log :
      (k : String) (now quota total : ℤ) (s : r.Store)
      → r.hgetall k (r.log_violation now quota total s) ≡ r.hgetall k s

abbrev pub is_locked_status : Option Field → Bool
is_locked_status (some (text t)) = str_eq t "suspended" || str_eq t "revoked"
is_locked_status _ = false

abbrev pub is_missing : Option Field → Bool
is_missing none = true
is_missing (some f) = false

module _ (r : SessionRedis) where
  open r use {Store, hgetall, hset, hincrby, expire, double, log_violation}

  -- Steps 5 and 6: the increments, and the time to live of the key. A refused increment ends the
  -- script, and what was written before stays.
  abbrev pub mark_usage : String → ℤ → ℤ → ℤ → Store → Store
  mark_usage key now grace expires_at s =
      let t = hset key (("last_update", number now) ∷ ("status", text "active") ∷ []) s in
      if ltb_ℤ (pos 0) expires_at then expire key (expires_at -ℤ now +ℤ grace) t else t

  unfoldable pub record_usage : String → ℤ → ℤ → ℤ → ℤ → ℤ → Store → Option ℤ × Store
  record_usage key in_inc out_inc now grace expires_at s = elim (hincrby key "used_in" in_inc s) [
    | none ↦ (none, s)
    | some t ↦ elim (hincrby key "used_out" out_inc t) [
      | none ↦ (none, t)
      | some u ↦ (some (pos 1), mark_usage key now grace expires_at u)
    ]
  ]

  -- Steps 2 to 6, on the numbers that `tonumber` gave.
  unfoldable pub judge_usage :
      String → Option Field → ℤ → ℤ → ℤ → ℤ → ℤ → ℤ → ℤ → Store → Option ℤ × Store
  judge_usage key status quota expires_at projected in_inc out_inc now grace s =
      if is_missing status
      then (some (negsuc 1), s)
      else if is_locked_status status
      then (some (negsuc 2), s)
      else if ltb_ℤ (pos 0) expires_at && ltb_ℤ expires_at now
      then (some (pos 0), hset key (("status", text "expired") ∷ []) s)
      else if ltb_ℤ (pos 0) quota && ltb_ℤ quota projected
      then (some (negsuc 0), log_violation now quota projected s)
      else record_usage key in_inc out_inc now grace expires_at s

  -- The signals: 1 success, 0 expired, -1 quota exceeded, -2 not found, -3 locked; `none` is an error.
  unfoldable pub update_usage_script : String → ℤ → ℤ → ℤ → ℤ → Store → Option ℤ × Store
  update_usage_script key in_inc out_inc now grace s =
      let session = hgetall key s in
      let used = double (
        double (number_of (lookup "used_in" session))
        +ℤ double (number_of (lookup "used_out" session))) in
      judge_usage key (lookup "status" session) (double (number_of (lookup "quota" session)))
        (double (number_of (lookup "expires_at" session)))
        (double (double (used +ℤ double in_inc) +ℤ double out_inc)) (double in_inc) (double out_inc)
        (double now) (double grace) s

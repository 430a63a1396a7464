-- ===== src/Redis/Protection.antt =====
-- internal/adapters/secondary/redis/auth_protection.go: the counter of failed logins of an
-- identity. The counters of the server are a parameter. No key expires between two round trips of one
-- operation; a key that expires between two operations is an event of Lockout, at any time.
pub mod Lockout
mod Tests
use nexora_core.Prelude.{
  ℕ, ◌+◌, ◌*◌, ◌≡◌, String, Bool, true, false, ◌||◌, Option, none, some, ◌<>◌, leb, ◌==◌, str_eq,
  if◌then◌else◌,
}
use nexora_core.Prelude.Int.{ℤ, pos, ltb_ℤ, leb_ℤ, ◌<ℤ◌}
use nexora_core.Domain.Errors.{Result, ok, err}
use nexora_core.Redis.Client.{Delivery, Action, pure, ignore, ◌>>=◌, ◌>>◌, call, query, send}

-- The commands that the repository sends. `value` is `GET` read as a number; `ttl` is negative
-- for a key without expiry.
pub record Counters : Type 1 where
  pub Store : Type 0
  pub value : String → Store → Option ℕ
  pub ttl : String → Store → ℤ
  pub incr : String → Store → ℕ × Store
  pub expire : String → ℤ → Store → Store
  pub del : String → Store → Store

abbrev pub or_zero : Option ℕ → ℕ
or_zero none = 0
or_zero (some n) = n

-- What Redis documents of them: INCR counts from 0, EXPIRE with a positive time keeps the value,
-- DEL removes the key, and none touches another key.
pub record CounterLaws (c : Counters) : Type 0 where
  pub incr_answer : (k : String) (s : c.Store) → (c.incr k s).0 ≡ or_zero (c.value k s) + 1
  pub incr_value :
      (k j : String) (s : c.Store)
      → c.value j (c.incr k s).1
        ≡ (if str_eq k j then some (or_zero (c.value k s) + 1) else c.value j s)
  pub expire_value :
      (k j : String) (d : ℤ) (s : c.Store) → pos 0 <ℤ d → c.value j (c.expire k d s) ≡ c.value j s
  pub del_value :
      (k j : String) (s : c.Store)
      → c.value j (c.del k s) ≡ (if str_eq k j then none else c.value j s)

pub record AuthProtectionConfig : Type 0 where
  pub max_failed_attempts : ℤ
  pub lock_duration : ℤ
  pub window_duration : ℤ

abbrev pub minute : ℕ
minute = 60 * 1000000000

pub with_defaults : AuthProtectionConfig → AuthProtectionConfig
with_defaults c = record {
  max_failed_attempts =
      if leb_ℤ c.max_failed_attempts (pos 0) then pos 5 else c.max_failed_attempts;
  lock_duration = if leb_ℤ c.lock_duration (pos 0) then pos (15 * minute) else c.lock_duration;
  window_duration =
      if leb_ℤ c.window_duration (pos 0) then pos (60 * minute) else c.window_duration;
}

abbrev pub attempts_key : String → String
attempts_key identity = "auth:attempts:" <> identity

-- `attempts >= int64(max)`
abbrev pub reached : AuthProtectionConfig → ℕ → Bool
reached cfg n = leb_ℤ cfg.max_failed_attempts (pos n)

-- The same for the answer of GET, `redis.Nil` being `none`.
abbrev pub reached_by : AuthProtectionConfig → Option ℕ → Bool
reached_by cfg none = false
reached_by cfg (some n) = reached cfg n

abbrev pub is_none : {A : Type 0} → Option A → Bool
is_none none = true
is_none (some a) = false

-- The operations of a repository with a configuration that has its defaults.
module _ (c : Counters) (cfg : AuthProtectionConfig) where
  open c use {Store, value, ttl, incr, expire, del}

  -- The remaining time of a locked identity.
  lock_left : Delivery → String → Action Store (Bool × ℤ)
  lock_left d key = do
    left ← query d (ttl key)
    pure (true, if ltb_ℤ left (pos 0) then cfg.lock_duration else left)

  pub is_locked : Delivery → Delivery → String → Action Store (Bool × ℤ)
  is_locked d d' identity = do
    attempts ← query d (value (attempts_key identity))
    if reached_by cfg attempts then lock_left d' (attempts_key identity) else pure (false, pos 0)

  -- The two conditional EXPIRE calls after the counter was increased.
  set_expiry : Delivery → Delivery → String → ℕ → ℤ → Action Store (Unit {0})
  set_expiry d d' key n left = do
    if n == 1 || ltb_ℤ left (pos 0)
        then ignore (send d (expire key cfg.window_duration))
        else pure tt
    if reached cfg n then ignore (send d' (expire key cfg.lock_duration)) else pure tt

  pub record_failed_attempt : Delivery → Delivery → Delivery → String → Action Store ℕ
  record_failed_attempt d d' d'' identity = do
    let key = attempts_key identity
    (n, left) ← call d (λ s. let (n, t) = incr key s in ((n, ttl key t), t))
    set_expiry d' d'' key n left
    pure n

  pub clear_attempts : Delivery → Delivery → String → Action Store (Unit {0})
  clear_attempts d d' identity = do
    attempts ← query d (value (attempts_key identity))
    if is_none attempts
        then pure tt
        else if reached_by cfg attempts
        then pure tt
        else send d' (del (attempts_key identity))

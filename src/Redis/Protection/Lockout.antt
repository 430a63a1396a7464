-- ===== src/Redis/Protection/Lockout.antt =====
-- When an identity is locked, by internal/adapters/secondary/redis/auth_protection.go.
use text.Mathlib.TextLemmas.{append_cancel_left}
use nexora_core.Prelude.{
  ℕ, ◌+◌, ◌≡◌, ◌≢◌, ◌↔◌, String, Bool, true, ◌<>◌, str_eq, eq_iff, text-eq, ap, ◌∙◌, ◌==◌, ◌||◌,
  if◌then◌else◌, arith, Option-cases, Bool-cases, inl, inr, refl, List, [], ◌∷◌,
}
use nexora_core.Prelude.Int.{ℤ, pos, ◌<ℤ◌, ◌≤ℤ◌, ltb_ℤ}
use nexora_core.Domain.Errors.{ok}
use nexora_core.Redis.Client.{Delivery, delivered, lost_request, lost_reply, send}
use nexora_core.Redis.Protection.{
  Counters, CounterLaws, AuthProtectionConfig, with_defaults, attempts_key, reached, or_zero,
  record_failed_attempt, set_expiry, clear_attempts,
}

-- A configuration as the constructor leaves it.
pub record IsPositive (cfg : AuthProtectionConfig) : Type 0 where
  pub limit : pos 0 <ℤ cfg.max_failed_attempts
  pub lock : pos 0 <ℤ cfg.lock_duration
  pub window : pos 0 <ℤ cfg.window_duration

with_defaults-IsPositive : (cfg : AuthProtectionConfig) → IsPositive (with_defaults cfg)
unfolding with_defaults
with_defaults-IsPositive cfg = record {
  limit = ground arith;
  lock = ground arith;
  window = ground arith;
}

-- Two identities have one key only if they are one.
attempts_key-eq : (i j : String) → str_eq (attempts_key i) (attempts_key j) ≡ str_eq i j
attempts_key-eq i j = elim (Bool-cases (str_eq i j)) [
  | inl same ↦
      rw same ((eq_iff _ _).1 (ap (λ (x : String). "auth:attempts:" <> x) ((eq_iff i j).0 same)))
  | inr other ↦ elim (Bool-cases (str_eq (attempts_key i) (attempts_key j))) [
    | inl e ↦
        absurd
          (cc (other, (eq_iff i j).1 (append_cancel_left "auth:attempts:" i j ((eq_iff _ _).0 e))))
    | inr d ↦ rw other d
  ]
]

-- What happens to the counter of an identity: a failed attempt, with the outcomes of its two expiry
-- calls, or the server removes the key, whose time to live (the window, or the lock) is over.
pub data Event : Type 0 where
  failed : Delivery → Delivery → Event
  expired : Event

-- The failed attempts since the last expiry, of which there were `n` before.
abbrev pub recent : ℕ → List Event → ℕ
recent n [] = n
recent n (failed d d' ∷ es) = recent (n + 1) es
recent n (expired ∷ es) = recent 0 es

module _ (c : Counters) (laws : CounterLaws c) (raw : AuthProtectionConfig) where
  abbrev cfg : AuthProtectionConfig
  cfg = with_defaults raw

  -- The failed attempts on record for an identity.
  abbrev pub failures : String → c.Store → ℕ
  failures identity s = or_zero (c.value (attempts_key identity) s)

  expire-value :
      (d : Delivery) (k j : String) (t : ℤ) (s : c.Store)
      → pos 0 <ℤ t
      → c.value j (send d (c.expire k t) s).1 ≡ c.value j s
  expire-value delivered k j t s h = laws.expire_value k j t s h
  expire-value (lost_request e) k j t s h = refl
  expire-value (lost_reply e) k j t s h = laws.expire_value k j t s h

  set_expiry-value :
      (d d' : Delivery) (k j : String) (n : ℕ) (left : ℤ) (s : c.Store)
      → c.value j (set_expiry c cfg d d' k n left s).1 ≡ c.value j s
  unfolding set_expiry
  set_expiry-value d d' k j n left s =
      let positive = with_defaults-IsPositive raw in
      let t = (send d (c.expire k cfg.window_duration) s).1 in
      let first = expire-value d k j cfg.window_duration s positive.window in
      elim (Bool-cases (n == 1 || ltb_ℤ left (pos 0))) [
        | inl a ↦ elim (Bool-cases (reached cfg n)) [
          | inl b ↦ rw (a, b) (expire-value d' k j cfg.lock_duration t positive.lock ∙ first)
          | inr b ↦ rw (a, b) first
        ]
        | inr a ↦ elim (Bool-cases (reached cfg n)) [
          | inl b ↦ rw (a, b) (expire-value d' k j cfg.lock_duration s positive.lock)
          | inr b ↦ rw (a, b)
        ]
      ]

  set_expiry-ok :
      (d d' : Delivery) (k : String) (n : ℕ) (left : ℤ) (s : c.Store)
      → (set_expiry c cfg d d' k n left s).0 ≡ ok tt
  unfolding set_expiry
  set_expiry-ok d d' k n left s = ground arith

  -- A failed attempt is counted whatever happens to the two expiry calls: when the first round
  -- trip arrives, the answer is the new number of failures of the identity, and the number of
  -- every other identity stays.
  pub record_failed_attempt_lem :
      (d' d'' : Delivery) (identity other : String) (s : c.Store)
      → ((record_failed_attempt c cfg delivered d' d'' identity s).0 ≡ ok (failures identity s + 1))
        × (failures other (record_failed_attempt c cfg delivered d' d'' identity s).1
            ≡ (if str_eq identity other then failures identity s + 1 else failures other s))
  unfolding record_failed_attempt
  record_failed_attempt_lem d' d'' identity other s =
      let k = attempts_key identity in
      let t = (c.incr k s).1 in
      let n = (c.incr k s).0 in
      ground (
        arith,
        set_expiry-ok d' d'' k n (c.ttl k t) t,
        set_expiry-value d' d'' k (attempts_key other) n (c.ttl k t) t,
        laws.incr_answer k s,
        laws.incr_value k (attempts_key other) s,
        attempts_key-eq identity other,
      )

  -- The counter after such events, in their order.
  pub run_events : List Event → String → c.Store → c.Store
  run_events [] identity s = s
  run_events (failed d d' ∷ es) identity s =
      run_events es identity (record_failed_attempt c cfg delivered d d' identity s).1
  run_events (expired ∷ es) identity s = run_events es identity (c.del (attempts_key identity) s)

  -- What an answer of IsLocked says of the failures on record: locked exactly from the configured
  -- number on, and a remaining time that is not negative.
  abbrev pub Answers : String → c.Store → Bool × ℤ → Type 0
  Answers identity s (b, left) =
      ((b ≡ true) ↔ (cfg.max_failed_attempts ≤ℤ pos (failures identity s))) × (pos 0 ≤ℤ left)

  -- ClearAttempts leaves a locked identity locked, with the whole store as it was; of an identity
  -- that is not locked it removes every failure when its round trips arrive; and it never changes
  -- the failures of another identity.
  clear_attempts_lem :
      (identity other : String) (s : c.Store)
      → (cfg.max_failed_attempts ≤ℤ pos (failures identity s)
          → clear_attempts c cfg delivered delivered identity s ≡ (ok tt, s))
        × (pos (failures identity s) <ℤ cfg.max_failed_attempts
            → failures identity (clear_attempts c cfg delivered delivered identity s).1 ≡ 0)
        × (other ≢ identity
            → failures other (clear_attempts c cfg delivered delivered identity s).1
              ≡ failures other s)
  unfolding clear_attempts
  clear_attempts_lem identity other s =
      let k = attempts_key identity in
      let positive = with_defaults-IsPositive raw in
      elim (Option-cases (c.value k s)) [
        | inl e ↦ rw e ((λ h. refl), (λ h. rw e), (λ h. refl))
        | inr (n, e) ↦ elim (Bool-cases (reached cfg n)) [
          | inl r ↦ rw (e, r) ((λ h. refl), (λ h. ground arith), (λ h. refl))
          | inr r ↦
              rw (e, r)
                (
                  (λ h. ground arith),
                  (λ h. ground (arith, laws.del_value k k s, (eq_iff k k).1 refl)),
                  (λ h. ground (
                    arith,
                    laws.del_value k (attempts_key other) s,
                    attempts_key-eq identity other,
                    text-eq identity other,
                  )),
                )
        ]
      ]

-- ===== src/Web/Limiter/Bounds.antt =====
-- How many requests rate_limit.go lets through in one window.
use nexora_core.Prelude.{
  ℕ, suc, ◌+◌, ◌-◌, ◌≤◌, ◌≡◌, refl, sym, ap, ◌∙◌, String, Bool, true, false, none, some, List, [],
  ◌∷◌, Dict, lookup, lookup-insert, str_eq, eq_iff, if◌then◌else◌, Bool-cases, inl, inr, arith,
}
use nexora_core.Prelude.Int.{ℤ, pos, ltb_ℤ, leb_ℤ}
use nexora_core.Domain.Errors.{Result, ok, err}
use nexora_core.Redis.Client.{Delivery, delivered, lost_request, lost_reply, call, query, send}
use nexora_core.Web.Limiter.{
  LimitRedis, LimitTrips, RateLimiter, count_at, incr, ttl_of, set_window, Verdict, above, renewed,
  verdict, judged, check,
}

-- Does the verdict let the request through?
abbrev pub admits : Verdict → Bool
admits (above ttl) = false
admits v = true

abbrev pub one_if : Bool → ℕ
one_if b = if b then 1 else 0

module _ (rl : RateLimiter) where
  -- Requests in a row, each with the key of its sender: how many are let through with one key.
  unfoldable pub admitted : String → List (LimitTrips × String) → LimitRedis → ℕ
  admitted key [] w = 0
  admitted key ((t, k) ∷ rs) w =
      let (v, w') = check rl t k w in
      let rest = admitted key rs w' in if str_eq k key then one_if (admits v) + rest else rest

  -- The pipeline of every request is answered.
  abbrev pub IsAnswered : List (LimitTrips × String) → Type 0
  IsAnswered [] = Unit
  IsAnswered ((t, k) ∷ rs) = (t.pipe ≡ delivered) × IsAnswered rs

  send-counts :
      (d : Delivery) (k : String) (x : ℤ) (w : LimitRedis)
      → (send d (set_window k x) w).1.counts ≡ w.counts
  unfolding set_window
  send-counts delivered k x w = refl
  send-counts (lost_request m) k x w = refl
  send-counts (lost_reply m) k x w = refl

  renewed-counts :
      (t : LimitTrips) (k : String) (r : Result ℤ) (w : LimitRedis)
      → (renewed rl t k r w).1.counts ≡ w.counts
  unfolding renewed
  renewed-counts t k (err e) w = send-counts t.expire k rl.window w
  renewed-counts t k (ok d) w = elim (Bool-cases (leb_ℤ d (pos 0))) [
    | inl e ↦ rw (renewed, e) (send-counts t.expire k rl.window w)
    | inr e ↦ rw (renewed, e) refl
  ]

  query-state :
      {A : Type 0} (d : Delivery) (f : LimitRedis → A) (w : LimitRedis) → (query d f w).1 ≡ w
  query-state delivered f w = refl
  query-state (lost_request m) f w = refl
  query-state (lost_reply m) f w = refl

  judged-counts :
      (t : LimitTrips) (k : String) (n : ℕ) (w : LimitRedis)
      → (judged rl t k (ok n) w).1.counts ≡ w.counts
  judged-counts t k n w =
      let (found, w₁) = query t.ttl (ttl_of k) w in
      renewed-counts t k found w₁
      ∙ ap (λ (w : LimitRedis). w.counts) (query-state t.ttl (ttl_of k) w)

  admits-verdict : (m n : ℕ) (d : ℤ) → rl.limit ≡ pos m → admits (verdict rl n d) ≡ true → n ≤ m
  unfolding verdict
  admits-verdict m n d e a = elim (Bool-cases (ltb_ℤ rl.limit (pos n))) [
    | inl over ↦ absurd (cc (a, over))
    | inr fits ↦
        let fits' : ltb_ℤ (pos m) (pos n) ≡ false =
          ap (λ (l : ℤ). ltb_ℤ l (pos n)) (sym e) ∙ fits in
        ground arith
  ]

  -- An answered check counts its own key once more, and no other.
  check-counts :
      (t : LimitTrips) (k key : String) (w : LimitRedis)
      → t.pipe ≡ delivered
      → count_at key (check rl t k w).1
        ≡ (if str_eq k key then suc (count_at k w) else count_at key w)
  unfolding check incr
  check-counts t k key w answered =
      let w' : LimitRedis = (incr k w).1 in
      let same : (check rl t k w).1 ≡ (judged rl t k (ok (suc (count_at k w))) w').1 =
        ap (λ (d : Delivery). let (attempts, u) = call d (incr k) w in (judged rl t k attempts u).1)
          answered in
      let counts : (check rl t k w).1.counts ≡ w'.counts =
        ap (λ (u : LimitRedis). u.counts) same ∙ judged-counts t k (suc (count_at k w)) w' in
      let at = λ (m : Dict ℕ). elim (lookup key m) as (λ x. ℕ) [ none ↦ 0 | some n ↦ n ] in
      ap at counts ∙ ground (arith, lookup-insert k key (suc (count_at k w)) w.counts)

  check-admits :
      (t : LimitTrips) (k : String) (m : ℕ) (w : LimitRedis)
      → t.pipe ≡ delivered
      → rl.limit ≡ pos m
      → admits (check rl t k w).0 ≡ true
      → suc (count_at k w) ≤ m
  unfolding check incr
  check-admits t k m w answered e a =
      let n = suc (count_at k w) in
      let w' : LimitRedis = (incr k w).1 in
      let (found, w₁) = query t.ttl (ttl_of k) w' in
      let same : (check rl t k w).0 ≡ verdict rl n (renewed rl t k found w₁).0 =
        ap (λ (d : Delivery). let (attempts, u) = call d (incr k) w in (judged rl t k attempts u).0)
          answered in
      admits-verdict m n (renewed rl t k found w₁).0 e (sym (ap admits same) ∙ a)

  -- Within one window, in any row of requests of any senders whose pipelines are answered, whatever
  -- becomes of the other round trips, the limiter lets through with one key at most its limit less
  -- the requests that the window has counted already, and none when those are as many as the limit.
  pub admitted-bounded :
      (key : String) (m : ℕ) (rs : List (LimitTrips × String)) (w : LimitRedis)
      → rl.limit ≡ pos m
      → IsAnswered rs
      → admitted key rs w ≤ m - count_at key w
  unfolding admitted
  admitted-bounded key m [] w e a = omega arith
  admitted-bounded key m ((t, k) ∷ rs) w e a =
      let (v, w') = check rl t k w in
      let rest = admitted-bounded key m rs w' e a.1 in
      let count = check-counts t k key w a.0 in
      elim (Bool-cases (str_eq k key)) [
        | inr other ↦ rw (admitted, other) (ground (arith, rest, count, other))
        | inl own ↦
            let same : count_at k w ≡ count_at key w =
              ap (λ (i : String). count_at i w) ((eq_iff k key).0 own) in
            elim (Bool-cases (admits v)) [
              | inl passed ↦
                  let fits = check-admits t k m w a.0 e passed in
                  rw (admitted, own, passed) (ground (arith, rest, count, own, fits, same))
              | inr stopped ↦ rw (admitted, own, stopped) (ground (arith, rest, count, own, same))
            ]
      ]

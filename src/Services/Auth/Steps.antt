-- ===== src/Services/Auth/Steps.antt =====
-- Sequences of actions that may fail: what a result says of the steps before it.
use nexora_core.Prelude.{◌≡◌, ◌≢◌, ◌↔◌, ◌⊎◌, inl, inr, refl, sym, ap}
use nexora_core.Domain.Errors.{Error, Result, ok, err}
use nexora_core.Redis.Client.{Action, ◌>>=◌}
use nexora_core.Services.Auth.Login.{or_fail}

pub ok-ne : {B : Type 0} (e : Error) (x : B) → err e ≢ ok x
ok-ne e x h = cc h

module _ {S A B : Type 0} where
  pub bind_ok :
      (m : Action S A) (f : A → Action S B) (s : S) (x : B)
      → ((m >>= f) s).0 ≡ ok x
      → (a : A) × ((m s).0 ≡ ok a) × ((f a (m s).1).0 ≡ ok x)
  bind_ok m f s x h = go (m s).0 refl h
    where
      go :
          (r : Result A)
          → (m s).0 ≡ r
          → (elim r as (λ y. Result B × S) [ ok a ↦ f a (m s).1 | err e ↦ (err e, (m s).1) ]).0
            ≡ ok x
          → (a : A) × ((m s).0 ≡ ok a) × ((f a (m s).1).0 ≡ ok x)
      go (ok a) p q = (a, p, q)
      go (err e) p q = absurd (ok-ne e x q)

module _ {S A B : Type 0} where
  pub bind_err :
      (m : Action S A) (f : A → Action S B) (s : S) (e : Error)
      → ((m >>= f) s).0 ≡ err e
      → (((a : A) → (m s).0 ≢ ok a) × (((m >>= f) s).1 ≡ (m s).1))
        ⊎ ((a : A) × (((m >>= f) s).1 ≡ (f a (m s).1).1) × ((f a (m s).1).0 ≡ err e))
  bind_err m f s e h = go (m s).0 h
    where
      go :
          (r : Result A)
          → let next = elim r as (λ y. Result B × S) [
            | ok a ↦ f a (m s).1
            | err e ↦ (err e, (m s).1)
          ] in
            next.0 ≡ err e
            → (((a : A) → r ≢ ok a) × (next.1 ≡ (m s).1))
              ⊎ ((a : A) × (next.1 ≡ (f a (m s).1).1) × ((f a (m s).1).0 ≡ err e))
      go (ok a) q = inr (a, refl, q)
      go (err d) q = inl (λ a k. ok-ne d a k, refl)

pub or_fail_ok :
    {S B : Type 0} (e : Error) (m : Action S B) (s : S) (x : B)
    → (or_fail e m s).0 ≡ ok x
    → (m s).0 ≡ ok x
or_fail_ok {B = B} e m s x h = go (m s).0 h
  where
    go :
        (r : Result B)
        → (elim r as (λ y. Result B) [ ok y ↦ ok y | err d ↦ err e ]) ≡ ok x
        → r ≡ ok x
    go (ok y) q = q
    go (err d) q = absurd (ok-ne e x q)

-- The error of a step that replaces it, when what follows never fails.
pub bind_or_fail :
    {S A B : Type 0} (d : Error) (m : Action S A) (f : A → Action S B) (s : S) (e : Error)
    → ((a : A) (t : S) → (f a t).0 ≢ err e)
    → ((or_fail d m >>= f) s).0 ≡ err e
    → e ≡ d
bind_or_fail {S = S} {A = A} {B = B} d m f s e never h = go (m s).0 h
  where
    go :
        (r : Result A)
        → (elim (elim r as (λ x. Result A) [ ok a ↦ ok a | err x ↦ err d ]) as (λ x. Result B × S) [
          | ok a ↦ f a (m s).1
          | err x ↦ (err x, (m s).1)
        ]).0
          ≡ err e
        → e ≡ d
    go (ok a) q = absurd (never a (m s).1 q)
    go (err x) q = sym (ap (λ (r : Result B). elim r [ ok y ↦ d | err x ↦ x ]) q)

pub bind_known :
    {S A B : Type 0} (m : Action S A) (f : A → Action S B) (s : S) (a : A)
    → (m s).0 ≡ ok a
    → (m >>= f) s ≡ f a (m s).1
bind_known {S = S} {B = B} m f s a h =
    ap
      (λ (r : Result _). elim r as (λ x. Result B × S) [
        | ok a ↦ f a (m s).1
        | err e ↦ (err e, (m s).1)
      ])
      h

-- When the rest never fails, a sequence succeeds as its first step does.
pub bind_total :
    {S : Type 0} (m : Action S (Unit {0})) (f : Unit {0} → Action S (Unit {0})) (s : S)
    → ((t : S) → (f tt t).0 ≡ ok tt)
    → (((m >>= f) s).0 ≡ ok tt) ↔ ((m s).0 ≡ ok tt)
bind_total {S = S} m f s never = go (m s).0
  where
    go :
        (r : Result (Unit {0}))
        → ((elim r as (λ x. Result (Unit {0}) × S) [
          | ok a ↦ f a (m s).1
          | err e ↦ (err e, (m s).1)
        ]).0
            ≡ ok tt)
          ↔ (r ≡ ok tt)
    go (ok u) = (λ h. refl, λ h. never (m s).1)
    go (err e) = (λ h. absurd (ok-ne e tt h), λ h. absurd (ok-ne e tt h))

-- ===== src/Redis/Client.antt =====
-- Methods over a state that may fail, and the round trips to a Redis server through the go-redis
-- client: the request may be lost, or the reply after the server has run it. The outcome of each
-- round trip is an argument of the operation that makes it, in the order of the calls; the
-- commands themselves are parameters.
use Prim.Native.String.{String}
use nexora_core.Domain.Errors.{Error, plain, Result, ok, err}

abbrev pub Action : Type 0 → Type 0 → Type 0
Action S A = S → Result A × S

module _ {S A : Type 0} where
  abbrev pub pure : A → Action S A
  pure a s = (ok a, s)

  abbrev pub fail : Error → Action S A
  fail e s = (err e, s)

  -- `_ = m` and `_, _ = m`: the error is dropped, what was written stays.
  abbrev pub ignore : Action S A → Action S (Unit {0})
  ignore m s = (ok tt, (m s).1)

  -- The answer and the error as a value.
  abbrev pub attempt : Action S A → Action S (Result A)
  attempt m s = (ok (m s).0, (m s).1)

infixl 5 ◌>>=◌ ◌>>◌
abbrev pub ◌>>=◌ : {S A B : Type 0} → Action S A → (A → Action S B) → Action S B
◌>>=◌ m f s = let (r, t) = m s in elim r [ ok a ↦ f a t | err e ↦ (err e, t) ]

abbrev pub ◌>>◌ : {S A B : Type 0} → Action S A → Action S B → Action S B
m >> k = m >>= λ _. k

pub data Delivery : Type 0 where
  delivered : Delivery
  lost_request lost_reply : String → Delivery

abbrev pub call : {S A : Type 0} → Delivery → (S → A × S) → Action S A
call delivered f s = (ok (f s).0, (f s).1)
call (lost_request m) f s = (err (plain m), s)
call (lost_reply m) f s = (err (plain m), (f s).1)

-- A command that only reads.
abbrev pub query : {S A : Type 0} → Delivery → (S → A) → Action S A
query d f = call d (λ s. (f s, s))

-- A command with no answer.
abbrev pub send : {S : Type 0} → Delivery → (S → S) → Action S (Unit {0})
send d f = call d (λ s. (tt, f s))

-- The result of a pure step.
abbrev pub lift : {S A : Type 0} → Result A → Action S A
lift (ok a) = pure a
lift (err e) = fail e

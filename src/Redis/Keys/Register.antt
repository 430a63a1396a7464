-- ===== src/Redis/Keys/Register.antt =====
-- What the store of jwks_store.go promises, without keys, ciphers and texts: a register for one
-- state and a lock with an owner, over the same deliveries. `view` forgets the representation.
use nexora_core.Prelude.{
  ℕ, suc, ◌≡◌, refl, ap, ◌∙◌, String, Bool, true, false, Option, none, some, List, [], ◌∷◌, lookup,
  lookup-insert_same, lookup-erase_same, str_eq, length, ◌==◌, if◌then◌else◌, Bool-cases,
  Option-cases, inl, inr, ◌⊎◌,
}
use nexora_core.Domain.Errors.{Error, Result, ok, err}
use nexora_core.Redis.Client.{
  Delivery, delivered, lost_request, lost_reply, lift, ◌>>=◌, call, query, send,
}
use nexora_core.Services.Jwks.State.{SharedJwksState}
use nexora_core.Redis.Keys.{
  Bytes, Cipher, Laws, RedisJwksStore, KeyRedis, save_state, read_state, load_state,
  try_acquire_lock, release_script, release_lock,
}
use nexora_core.Redis.Keys.RoundTrip.{as_saved, written}
use nexora_core.Redis.Keys.Lock.{lock_of, set_nx-free, set_nx-taken}

pub record Register : Type 0 where
  pub state : Result (Option SharedJwksState)
  pub owner : Option String

pub data Call : Type 0 where
  save : SharedJwksState → Call
  load : Call
  ask leave : String → Call

pub data Answer : Type 0 where
  saved : Result (Unit {0}) → Answer
  loaded : Result (Option SharedJwksState) → Answer
  asked : Result (Bool × String) → Answer
  left : Result Bool → Answer

pub Result-cases :
    {A : Type 0} (r : Result A) → ((a : A) × (r ≡ ok a)) ⊎ ((e : Error) × (r ≡ err e))
Result-cases (ok a) = inl (a, refl)
Result-cases (err e) = inr (e, refl)

-- The register takes the lock when it is free.
abbrev take_free : String → Option String → Bool × Option String
take_free token none = (true, some token)
take_free token (some t) = (false, some t)

-- Only the owner gives the lock back.
abbrev give_back : String → Option String → Bool × Option String
give_back token none = (false, none)
give_back token (some t) = if str_eq t token then (true, none) else (false, some t)

abbrev answer : {S A : Type 0} → (Result A → Answer) → Result A × S → Answer × S
answer f (r, s) = (f r, s)

unfoldable pub specified : Delivery → Call → Register → Answer × Register
specified d (save s) a = answer saved (send d (λ a. record a { state = ok (some (as_saved s)) }) a)
specified d load a = answer loaded ((query d (λ a. a.state) >>= lift) a)
specified d (ask token) a =
    answer asked
      (call d (λ a. let (b, o) = take_free token a.owner in ((b, token), record a { owner = o })) a)
specified d (leave token) a =
    answer left
      (call d (λ a. let (b, o) = give_back token a.owner in (b, record a { owner = o })) a)

-- A sequence of calls, the first of which has number `n`, and their answers.
abbrev pub run :
    {S : Type 0}
    → (ℕ → Delivery → Call → S → Answer × S)
    → ℕ
    → List (Delivery × Call)
    → S
    → List Answer × S
run step n [] s = ([], s)
run step n ((d, x) ∷ cs) s =
    let (a, t) = step n d x s in let (rest, u) = run step (suc n) cs t in (a ∷ rest, u)

-- The nonces that are read in the n-th call are `nonces n`.
module _ (c : Cipher) (r : RedisJwksStore c) (name : String) (nonces : ℕ → String → Bytes c) where
  unfoldable pub implemented : ℕ → Delivery → Call → KeyRedis c → Answer × KeyRedis c
  implemented n d (save s) w = answer saved (save_state c r (λ kid. ok (nonces n kid)) d s w)
  implemented n d load w = answer loaded (load_state c r d w)
  implemented n d (ask token) w = answer asked (try_acquire_lock c name token d w)
  implemented n d (leave token) w = answer left (release_lock c name token d w)

  -- What the server holds, as the register sees it.
  unfoldable pub view : KeyRedis c → Register
  view w = record { state = read_state c r (lookup r.state_key w.states); owner = lock_of c name w }

  abbrev viewed : Answer × KeyRedis c → Answer × Register
  viewed (x, w) = (x, view w)

  module _ (laws : Laws c)
      (sizes : (n : ℕ) (kid : String) → length (nonces n kid) ≡ c.nonce_size) where
    save-refines :
        (n : ℕ) (d : Delivery) (s : SharedJwksState) (w : KeyRedis c)
        → viewed (implemented n d (save s) w) ≡ specified d (save s) (view w)
    unfolding implemented specified save_state view
    save-refines n delivered s w =
        let (t, e, back) = written c laws (nonces n) (sizes n) r s in
        rw
          (
            implemented,
            specified,
            save_state,
            view,
            e,
            lookup-insert_same r.state_key t w.states,
            back,
          )
          refl
    save-refines n (lost_request m) s w =
        let (t, e, back) = written c laws (nonces n) (sizes n) r s in
        rw (implemented, specified, save_state, view, e) refl
    save-refines n (lost_reply m) s w =
        let (t, e, back) = written c laws (nonces n) (sizes n) r s in
        rw
          (
            implemented,
            specified,
            save_state,
            view,
            e,
            lookup-insert_same r.state_key t w.states,
            back,
          )
          refl

    load-refines :
        (n : ℕ) (d : Delivery) (w : KeyRedis c)
        → viewed (implemented n d load w) ≡ specified d load (view w)
    unfolding implemented specified load_state view
    load-refines n delivered w =
        elim (Result-cases (read_state c r (lookup r.state_key w.states))) [
          | inl (o, e) ↦ rw (e, view, implemented, specified, load_state) (rw e refl)
          | inr (x, e) ↦ rw (e, view, implemented, specified, load_state) (rw e refl)
        ]
    load-refines n (lost_request m) w = refl
    load-refines n (lost_reply m) w = refl

    ask-refines :
        (n : ℕ) (d : Delivery) (token : String) (w : KeyRedis c)
        → viewed (implemented n d (ask token) w) ≡ specified d (ask token) (view w)
    unfolding implemented specified try_acquire_lock view
    ask-refines n (lost_request m) token w = refl
    ask-refines n d token w = elim (Option-cases (lock_of c name w)) [
      | inl e ↦
          rw
            (
              implemented,
              specified,
              try_acquire_lock,
              view,
              set_nx-free c name token w e,
              e,
              lookup-insert_same name token w.locks,
            )
            refl
      | inr (t, e) ↦
          rw (implemented, specified, try_acquire_lock, view, set_nx-taken c name token t w e, e)
            refl
    ]

    release_script-view :
        (token : String) (w : KeyRedis c)
        → let (n, w') = release_script c name token w in
          (let (b, o) = give_back token (lock_of c name w) in
            ((n == 1) ≡ b) × (w'.states ≡ w.states) × (lock_of c name w' ≡ o))
    unfolding release_script
    release_script-view token w = elim (Option-cases (lock_of c name w)) [
      | inl e ↦ rw (e, release_script) (refl, refl, e)
      | inr (t, e) ↦ elim (Bool-cases (str_eq t token)) [
        | inl own ↦ rw (e, release_script, own) (refl, refl, lookup-erase_same name w.locks)
        | inr other ↦ rw (e, release_script, other) (refl, refl, e)
      ]
    ]

    leave-refines :
        (n : ℕ) (d : Delivery) (token : String) (w : KeyRedis c)
        → viewed (implemented n d (leave token) w) ≡ specified d (leave token) (view w)
    unfolding implemented specified release_lock view
    leave-refines n (lost_request m) token w = refl
    leave-refines n delivered token w =
        let (b, s, o) = release_script-view token w in
        rw (implemented, specified, release_lock, view, b, s, o) refl
    leave-refines n (lost_reply m) token w =
        let (b, s, o) = release_script-view token w in
        rw (implemented, specified, release_lock, view, s, o) refl

    refines :
        (n : ℕ) (d : Delivery) (x : Call) (w : KeyRedis c)
        → viewed (implemented n d x w) ≡ specified d x (view w)
    refines n d (save s) w = save-refines n d s w
    refines n d load w = load-refines n d w
    refines n d (ask token) w = ask-refines n d token w
    refines n d (leave token) w = leave-refines n d token w

    abbrev pub viewed_run : List Answer × KeyRedis c → List Answer × Register
    viewed_run (answers, w) = (answers, view w)

    -- The store refines the register: any sequence of saves, loads and calls for the lock, with any
    -- of the calls and answers lost, has the register's answers and ends with the register's
    -- contents, when each nonce has the size that the cipher asks for.
    pub run-refines :
        (n : ℕ) (cs : List (Delivery × Call)) (w : KeyRedis c)
        → viewed_run (run implemented n cs w) ≡ run (λ n. specified) n cs (view w)
    run-refines n [] w = refl
    run-refines n ((d, x) ∷ cs) w =
        let (a, t) = implemented n d x w in
        ap (λ (p : List Answer × Register). (a ∷ p.0, p.1)) (run-refines (suc n) cs t)
        ∙ ap
            (λ (p : Answer × Register).
              let (rest, u) = run (λ n. specified) (suc n) cs p.1 in (p.0 ∷ rest, u))
            (refines n d x w)

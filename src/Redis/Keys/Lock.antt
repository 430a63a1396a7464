-- ===== src/Redis/Keys/Lock.antt =====
-- The distributed lock of jwks_store.go among any number of instances, whose calls interleave in
-- any order, may be lost or lose their answer, while the server may drop the lock when its time is
-- over. An instance asks with a new random token that no other instance holds.
use nexora_core.Prelude.{
  ℕ, ◌≡◌, ◌≢◌, refl, sym, subst, ap, ◌∙◌, String, Bool, true, false, Option, none, some, lookup,
  insert, lookup-insert_same, str_eq, ◌==◌, if◌then◌else◌, Option-cases, inl, inr, arith, eq_iff,
}
use nexora_core.Domain.Errors.{Result, ok, err}
use nexora_core.Redis.Client.{Delivery, delivered, lost_request, lost_reply}
use nexora_core.Redis.Keys.{
  Cipher, KeyRedis, set_nx, try_acquire_lock, release_script, release_lock, expire,
}

abbrev pub update : (ℕ → Option String) → ℕ → Option String → ℕ → Option String
update f i v j = if i == j then v else f j

pub none-some : (t : String) → none ≢ some t
none-some t h = cc h

-- The token that an instance holds after the answer to its request.
abbrev pub held : Result (Bool × String) → Option String
held (ok (true, token)) = some token
held (ok (false, token)) = none
held (err e) = none

module _ (c : Cipher) (name : String) where
  abbrev pub lock_of : KeyRedis c → Option String
  lock_of w = lookup name w.locks

  -- The lock at the server, and the tokens that the instances believe to hold it with.
  pub record System : Type 0 where
    pub world : KeyRedis c
    pub holder : ℕ → Option String

  -- `timed` says whether the time of a lock may be over.
  pub data Step (timed : Bool) (s : System) : System → Type 0 where
    acquire :
        (i : ℕ) (token : String) (d : Delivery)
        → ((j : ℕ) → s.holder j ≢ some token)
        → s.holder i ≡ none
        → Step timed s (record {
          world = (try_acquire_lock c name token d s.world).1;
          holder = update s.holder i (held (try_acquire_lock c name token d s.world).0);
        })
    release :
        (i : ℕ) (token : String) (d : Delivery)
        → s.holder i ≡ some token
        → Step timed s (record {
          world = (release_lock c name token d s.world).1;
          holder = update s.holder i none;
        })
    time_over : timed ≡ true → Step timed s (record s { world = expire c name s.world })

  pub data Reach (timed : Bool) (w : KeyRedis c) : System → Type 0 where
    start : Reach timed w (record { world = w; holder = λ _. none })
    later : {s t : System} → Reach timed w s → Step timed s t → Reach timed w t

  pub set_nx-free :
      (token : String) (w : KeyRedis c)
      → lock_of w ≡ none
      → set_nx c name token w ≡ (true, record w { locks = insert name token w.locks })
  unfolding set_nx
  set_nx-free token w e = rw (e, set_nx) refl

  pub set_nx-taken :
      (token t : String) (w : KeyRedis c) → lock_of w ≡ some t → set_nx c name token w ≡ (false, w)
  unfolding set_nx
  set_nx-taken token t w e = rw (e, set_nx) refl

  -- What the instance holds after the run of `SET NX` at the server.
  abbrev held_by : String → Bool × KeyRedis c → Option String
  held_by token (b, w) = held (ok (b, token))

  -- A request that gets the lock found none, and leaves its own token there.
  pub acquired :
      (token t : String) (d : Delivery) (w : KeyRedis c)
      → let (r, w') = try_acquire_lock c name token d w in
        held r ≡ some t → (t ≡ token) × (lock_of w ≡ none) × (lock_of w' ≡ some t)
  unfolding try_acquire_lock
  acquired token t delivered w h = elim (Option-cases (lock_of w)) [
    | inl e ↦
        let known = set_nx-free token w e in
        let same : some token ≡ some t = sym (ap (held_by token) known) ∙ h in
        let is_token : t ≡ token = cc same in
        (
          is_token,
          e,
          subst (λ (x : String). lookup name (set_nx c name token w).1.locks ≡ some x)
              (sym is_token)
              (ap (λ (p : Bool × KeyRedis c). lock_of p.1) known
                ∙ lookup-insert_same name token w.locks),
        )
    | inr (u, e) ↦ absurd (none-some t (sym (ap (held_by token) (set_nx-taken token u w e)) ∙ h))
  ]
  acquired token t (lost_request m) w h = absurd (none-some t h)
  acquired token t (lost_reply m) w h = absurd (none-some t h)

  -- A lock that is there stays, whoever asks.
  pub try_acquire_lock-kept :
      (token t : String) (d : Delivery) (w : KeyRedis c)
      → lock_of w ≡ some t
      → lock_of (try_acquire_lock c name token d w).1 ≡ some t
  unfolding try_acquire_lock
  try_acquire_lock-kept token t delivered w e =
      ap (λ (p : Bool × KeyRedis c). lock_of p.1) (set_nx-taken token t w e) ∙ e
  try_acquire_lock-kept token t (lost_request m) w e = e
  try_acquire_lock-kept token t (lost_reply m) w e =
      ap (λ (p : Bool × KeyRedis c). lock_of p.1) (set_nx-taken token t w e) ∙ e

  release_script-other :
      (token t : String) (w : KeyRedis c)
      → t ≢ token
      → lock_of w ≡ some t
      → release_script c name token w ≡ (0, w)
  unfolding release_script
  release_script-other token t w ne e =
      let other : str_eq t token ≡ false = ground (arith, eq_iff t token, ne) in
      rw (e, release_script) (rw other refl)

  -- A lock with another token stays, whatever becomes of the request and its answer.
  pub release_lock-other :
      (token t : String) (d : Delivery) (w : KeyRedis c)
      → t ≢ token
      → lock_of w ≡ some t
      → lock_of (release_lock c name token d w).1 ≡ some t
  unfolding release_lock
  release_lock-other token t delivered w ne e =
      ap (λ (p : ℕ × KeyRedis c). lock_of p.1) (release_script-other token t w ne e) ∙ e
  release_lock-other token t (lost_request m) w ne e = e
  release_lock-other token t (lost_reply m) w ne e =
      ap (λ (p : ℕ × KeyRedis c). lock_of p.1) (release_script-other token t w ne e) ∙ e

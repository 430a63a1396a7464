-- ===== src/Services/Jwks/Rotation.antt =====
-- Every operation of jwks_service.go keeps the key that signs verifiable.
use nexora_core.Prelude.{refl, String, Bool, true, false, Option, none, some, if◌then◌else◌}
use nexora_core.Prelude.Int.{ℤ}
use nexora_core.Domain.Errors.{Result, ok, err}
use nexora_core.Redis.Client.{Action, pure, ◌>>=◌}
use nexora_core.Services.Jwks.State.{SharedJwksState}
use nexora_core.Services.Jwks.Service.{
  Crypto, JwksStore, JwksConfig, apply_state, new_service, needs_rotation, is_recently_rotated,
  generate_and_merge_key, prepare_merged_state, Generated, new_state_with_fresh_key,
}
use nexora_core.Services.Jwks.Node.{
  on_store, on_service, lift, holding, wrapping, Node, save_first, apply_or_create, apply_or_lead,
  apply_found, publish, merge_and_publish, with_lock, purged, sync_from_store, rotate_locked,
  attempt_rotation, tick, create_first, bootstrap, has_state,
}
use nexora_core.Services.Jwks.Loading.{Serves, apply_state-Serves}

module _ (y : Crypto) where
  module _ (store : JwksStore) (cfg : JwksConfig) where
    -- An action on a node keeps what its service serves.
    Keeps : {A : Type 0} → Action (Node y store cfg) A → Type 0
    Keeps m = (n : Node y store cfg) → Serves y n.service → Serves y (m n).1.service

    Keeps-bind :
        {A B : Type 0} (m : Action (Node y store cfg) A) (f : A → Action (Node y store cfg) B)
        → Keeps m
        → ((a : A) → Keeps (f a))
        → Keeps (m >>= f)
    unfolding Keeps
    Keeps-bind {A = A} {B = B} m f km kf n h = go (m n) (km n h)
      where
        go :
            (r : Result A × Node y store cfg)
            → Serves y r.1.service
            → Serves y
                (elim r.0 as (λ x. Result B × Node y store cfg) [
                  | ok a ↦ f a r.1
                  | err e ↦ (err e, r.1)
                ]).1.service
        go (ok a, t) k = kf a t k
        go (err e, t) k = k

    Keeps-if :
        {A : Type 0} (b : Bool) (m m' : Action (Node y store cfg) A)
        → Keeps m
        → Keeps m'
        → Keeps (if b then m else m')
    Keeps-if true m m' k k' = k
    Keeps-if false m m' k k' = k'

    Keeps-lift : {A : Type 0} (r : Result A) → Keeps (lift y store cfg r)
    unfolding Keeps
    Keeps-lift (ok a) n h = h
    Keeps-lift (err e) n h = h

    Keeps-on_store : {A : Type 0} (m : Action store.World A) → Keeps (on_store y store cfg m)
    unfolding Keeps
    Keeps-on_store m n h = h

    Keeps-apply_state :
        (state : SharedJwksState) → Keeps (on_service y store cfg (apply_state y state))
    unfolding Keeps
    Keeps-apply_state state n h = apply_state-Serves y state n.service h

    Keeps-apply_found : (state : Option SharedJwksState) → Keeps (apply_found y store cfg state)
    unfolding Keeps
    Keeps-apply_found none n h = h
    Keeps-apply_found (some state) n h = apply_state-Serves y state n.service h

    Keeps-sync_from_store : Keeps (sync_from_store y store cfg)
    unfolding sync_from_store
    Keeps-sync_from_store =
        Keeps-bind (on_store y store cfg store.load_state)
          (λ state. apply_found y store cfg (has_state y store cfg state)) (Keeps-on_store _)
          (λ state. Keeps-apply_found _)

    Keeps-holding :
        {A : Type 0} (token : String) (m : Action (Node y store cfg) A)
        → Keeps m
        → Keeps (holding y store cfg token m)
    unfolding Keeps
    Keeps-holding token m k n h = Keeps-lift (m n).0 _ (k n h)

    Keeps-with_lock :
        {A : Type 0} (m m' : Action (Node y store cfg) A) (lock : Bool × String)
        → Keeps m
        → Keeps m'
        → Keeps (with_lock y store cfg m m' lock)
    Keeps-with_lock m m' lock k k' = Keeps-if lock.0 _ _ (Keeps-holding lock.1 m k) k'

    Keeps-publish : (state : SharedJwksState) → Keeps (publish y store cfg state)
    Keeps-publish state =
        Keeps-bind (on_store y store cfg (store.save_state state))
          (λ u. on_service y store cfg (apply_state y state)) (Keeps-on_store _)
          (λ u. Keeps-apply_state state)

    Keeps-rotate_locked :
        (fresh : Generated y) (now now' now'' : ℤ)
        → Keeps (rotate_locked y store cfg fresh now now' now'')
    unfolding rotate_locked
    Keeps-rotate_locked fresh now now' now'' =
        Keeps-bind (on_store y store cfg store.load_state)
          (λ state.
            if is_recently_rotated y cfg now state
            then pure tt
            else merge_and_publish y store cfg fresh now' now'' state)
          (Keeps-on_store _)
          (λ state. Keeps-if (is_recently_rotated y cfg now state) _ _ (Keeps-lift (ok tt)) (
            Keeps-bind
              (lift y store cfg
                (generate_and_merge_key y fresh now' (prepare_merged_state y state)))
              (λ merged. publish y store cfg (purged y store cfg now'' merged)) (Keeps-lift _)
              (λ merged. Keeps-publish _)))

    Keeps-attempt_rotation :
        (fresh : Generated y) (now now' now'' : ℤ)
        → Keeps (attempt_rotation y store cfg fresh now now' now'')
    unfolding attempt_rotation Keeps
    Keeps-attempt_rotation fresh now now' now'' n h =
        Keeps-bind (on_store y store cfg store.try_acquire_lock)
          (with_lock y store cfg (rotate_locked y store cfg fresh now now' now'') (pure tt))
          (Keeps-on_store store.try_acquire_lock)
          (λ lock.
            Keeps-with_lock _ _ lock (Keeps-rotate_locked fresh now now' now'')
              (Keeps-lift (ok tt)))
          n h

    Keeps-wrapping :
        {A : Type 0} (message : String) (m : Action (Node y store cfg) A)
        → Keeps m
        → Keeps (wrapping y store cfg message m)
    unfolding Keeps
    Keeps-wrapping message m k n h = k n h

    Keeps-save_first : (state : SharedJwksState) → Keeps (save_first y store cfg state)
    Keeps-save_first state =
        Keeps-bind
          (wrapping y store cfg "jwks save initial state: "
            (on_store y store cfg (store.save_state state)))
          (λ u. on_service y store cfg (apply_state y state))
          (Keeps-wrapping _ _ (Keeps-on_store (store.save_state state)))
          (λ u. Keeps-apply_state state)

    Keeps-apply_or_create :
        (fresh : Generated y) (now : ℤ) (found : Option SharedJwksState)
        → Keeps (apply_or_create y store cfg fresh now found)
    Keeps-apply_or_create fresh now (some state) = Keeps-apply_state state
    Keeps-apply_or_create fresh now none =
        Keeps-bind (lift y store cfg (new_state_with_fresh_key y fresh now))
          (save_first y store cfg) (Keeps-lift _) Keeps-save_first

    Keeps-create_first :
        (fresh : Generated y) (now : ℤ) → Keeps (create_first y store cfg fresh now)
    unfolding create_first Keeps
    Keeps-create_first fresh now n h =
        Keeps-apply_or_create fresh now _ _ (Keeps-on_store store.load_state n h)

    Keeps-apply_or_lead :
        (fresh : Generated y) (now : ℤ) (found : Option SharedJwksState)
        → Keeps (apply_or_lead y store cfg fresh now found)
    Keeps-apply_or_lead fresh now (some state) = Keeps-wrapping _ _ (Keeps-apply_state state)
    Keeps-apply_or_lead fresh now none =
        Keeps-bind
          (wrapping y store cfg "jwks acquire lock: " (on_store y store cfg store.try_acquire_lock))
          (with_lock y store cfg (create_first y store cfg fresh now) (sync_from_store y store cfg))
          (Keeps-wrapping _ _ (Keeps-on_store store.try_acquire_lock))
          (λ lock. Keeps-with_lock _ _ lock (Keeps-create_first fresh now) Keeps-sync_from_store)

    -- The bootstrap of an empty service, as leader or not, with any answers of the store, ends
    -- with the public key found under the current kid being that of the private key that signs
    -- (and missing when there is none).
    bootstrap-Serves :
        (fresh : Generated y) (now : ℤ) (world : store.World)
        → Serves y
            (bootstrap y store cfg fresh now
              (record { world = world; service = new_service y })).1.service
    unfolding bootstrap Keeps Serves
    bootstrap-Serves fresh now world =
        Keeps-bind
          (wrapping y store cfg "jwks load state: " (on_store y store cfg store.load_state))
          (λ state. apply_or_lead y store cfg fresh now (has_state y store cfg state))
          (Keeps-wrapping "jwks load state: " (on_store y store cfg store.load_state)
            (Keeps-on_store store.load_state))
          (λ state. Keeps-apply_or_lead fresh now _)
          (record { world = world; service = new_service y }) refl

    -- A tick of the worker, whatever the store answers, whether a fresh key could be made and
    -- whichever save fails, keeps the invariant that the public key found under the current kid
    -- is that of the private key that signs (and is missing when there is none).
    pub tick-Serves :
        (fresh : Generated y) (now₀ now now' now'' : ℤ) (n : Node y store cfg)
        → Serves y n.service
        → Serves y (tick y store cfg fresh now₀ now now' now'' n).1.service
    unfolding tick Keeps
    tick-Serves fresh now₀ now now' now'' n h =
        let n' = (sync_from_store y store cfg n).1 in
        Keeps-if (needs_rotation y cfg now₀ n'.service) _ _
          (Keeps-attempt_rotation fresh now now' now'') (Keeps-lift (ok tt)) n'
          (Keeps-sync_from_store n h)

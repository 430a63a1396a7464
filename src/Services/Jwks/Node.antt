-- ===== src/Services/Jwks/Node.antt =====
-- DistributedJWKSService of internal/core/services/jwks_service.go with its store: the
-- synchronisation, the rotation under the lock, the ticks of the worker and the bootstrap.
use nexora_core.Prelude.{String, Bool, is_empty, Option, none, some, if◌then◌else◌}
use nexora_core.Prelude.Int.{ℤ}
use nexora_core.Domain.Errors.{wrap, Result, ok, err}
use nexora_core.Redis.Client.{Action, pure, fail, ignore, attempt, ◌>>=◌, ◌>>◌}
use nexora_core.Services.Jwks.State.{SharedJwksState, purge_state}
use nexora_core.Services.Jwks.Service.{
  Crypto, JwksStore, JwksConfig, Service, needs_rotation, apply_state, is_recently_rotated,
  prepare_merged_state, Generated, generate_and_merge_key, new_state_with_fresh_key,
}

module _ (y : Crypto) (store : JwksStore) (cfg : JwksConfig) where
  open y use {parse_time, newest_first}
  open store use {World, try_acquire_lock, release_lock, load_state, save_state}

  -- One instance and the store it shares with the others.
  pub record Node : Type 0 where
    pub world : World
    pub service : Service y

  abbrev pub on_store : {A : Type 0} → Action World A → Action Node A
  on_store m n = let (r, w) = m n.world in (r, record n { world = w })

  abbrev pub on_service : {A : Type 0} → Action (Service y) A → Action Node A
  on_service m n = let (r, s) = m n.service in (r, record n { service = s })

  -- `fmt.Errorf` with the error at the end.
  abbrev pub wrapping : {A : Type 0} → String → Action Node A → Action Node A
  wrapping message m n =
      let (r, t) = m n in (elim r [ ok a ↦ ok a | err e ↦ err (wrap message e "") ], t)

  abbrev pub lift : {A : Type 0} → Result A → Action Node A
  lift (ok a) = pure a
  lift (err e) = fail e

  -- A nil state and one without a current kid are the same: nothing to load.
  unfoldable pub has_state : Option SharedJwksState → Option SharedJwksState
  has_state none = none
  has_state (some state) = if is_empty state.current_kid then none else some state

  abbrev pub apply_found : Option SharedJwksState → Action Node (Unit {0})
  apply_found none = pure tt
  apply_found (some state) = on_service (apply_state y state)

  unfoldable pub sync_from_store : Action Node (Unit {0})
  sync_from_store = do state ← on_store load_state; apply_found (has_state state)

  abbrev pub publish : SharedJwksState → Action Node (Unit {0})
  publish purged = do on_store (save_state purged); on_service (apply_state y purged)

  abbrev pub purged : ℤ → SharedJwksState → SharedJwksState
  purged now merged =
      purge_state parse_time newest_first now cfg.retention_period cfg.max_keys merged

  abbrev pub merge_and_publish :
      Generated y → ℤ → ℤ → Option SharedJwksState → Action Node (Unit {0})
  merge_and_publish fresh now' now'' state = do
    merged ← lift (generate_and_merge_key y fresh now' (prepare_merged_state y state))
    publish (purged now'' merged)

  unfoldable pub rotate_locked : Generated y → ℤ → ℤ → ℤ → Action Node (Unit {0})
  rotate_locked fresh now now' now'' = do
    state ← on_store load_state
    if is_recently_rotated y cfg now state
        then pure tt
        else merge_and_publish fresh now' now'' state

  abbrev pub release : {A : Type 0} → String → Result A → Action Node A
  release token r = do ignore (on_store (release_lock token)); lift r

  -- `defer` with the release of the lock.
  abbrev pub holding : {A : Type 0} → String → Action Node A → Action Node A
  holding token m = do r ← attempt m; release token r

  abbrev pub with_lock :
      {A : Type 0} → Action Node A → Action Node A → Bool × String → Action Node A
  with_lock m m' (acquired, token) = if acquired then holding token m else m'

  unfoldable pub attempt_rotation : Generated y → ℤ → ℤ → ℤ → Action Node (Unit {0})
  attempt_rotation fresh now now' now'' = ignore (do
    lock ← on_store try_acquire_lock
    with_lock (rotate_locked fresh now now' now'') (pure tt) lock)

  abbrev pub rotate_if_due : Generated y → ℤ → ℤ → ℤ → Bool → Action Node (Unit {0})
  rotate_if_due fresh now now' now'' due =
      if due then attempt_rotation fresh now now' now'' else pure tt

  -- One tick of the worker.
  unfoldable pub tick : Generated y → ℤ → ℤ → ℤ → ℤ → Action Node (Unit {0})
  tick fresh now₀ now now' now'' n =
      let (r, n') = sync_from_store n in
      rotate_if_due fresh now now' now'' (needs_rotation y cfg now₀ n'.service) n'

  abbrev pub loaded : Result (Option SharedJwksState) → Option SharedJwksState
  loaded (ok state) = has_state state
  loaded (err e) = none

  abbrev pub save_first : SharedJwksState → Action Node (Unit {0})
  save_first state = do
    wrapping "jwks save initial state: " (on_store (save_state state))
    on_service (apply_state y state)

  abbrev pub apply_or_create : Generated y → ℤ → Option SharedJwksState → Action Node (Unit {0})
  apply_or_create fresh now (some state) = on_service (apply_state y state)
  apply_or_create fresh now none = do
    state ← lift (new_state_with_fresh_key y fresh now)
    save_first state

  -- The leader's part of `bootstrap`; an error of the second load is dropped.
  unfoldable pub create_first : Generated y → ℤ → Action Node (Unit {0})
  create_first fresh now = do
    again ← attempt (on_store load_state)
    apply_or_create fresh now (loaded again)

  abbrev pub apply_or_lead : Generated y → ℤ → Option SharedJwksState → Action Node (Unit {0})
  apply_or_lead fresh now (some state) =
      wrapping "jwks apply state: " (on_service (apply_state y state))
  apply_or_lead fresh now none = do
    lock ← wrapping "jwks acquire lock: " (on_store try_acquire_lock)
    with_lock (create_first fresh now) sync_from_store lock

  unfoldable pub bootstrap : Generated y → ℤ → Action Node (Unit {0})
  bootstrap fresh now = do
    state ← wrapping "jwks load state: " (on_store load_state)
    apply_or_lead fresh now (has_state state)

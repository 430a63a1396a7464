-- ===== src/Redis/Keys/Sharing.antt =====
-- The store of jwks_store.go under the key service of jwks_service.go: two instances that share one
-- Redis server, each with its own copy of the keys.
use nexora_core.Prelude.{
  ℕ, ◌≤◌, ◌≡◌, refl, sym, ap, subst, ◌∙◌, String, Bool, false, is_empty, Option, none, some, lookup,
  length, if◌then◌else◌,
}
use nexora_core.Prelude.Int.{ℤ, pos}
use nexora_core.Domain.Errors.{Result, ok}
use nexora_core.Redis.Client.{Delivery, delivered, Action, pure, ◌>>=◌}
use nexora_core.Services.Auth.Steps.{bind_known}
use nexora_core.Services.Jwks.State.{SharedJwksState, entries}
use nexora_core.Services.Jwks.Purge.{Distinct}
use nexora_core.Services.Jwks.Service.{
  Crypto, JwksStore, JwksConfig, Service, apply_state, with_key, prepare_merged_state,
  is_recently_rotated,
}
use nexora_core.Services.Jwks.Node.{
  apply_found, has_state, on_store, on_service, Node, purged, rotate_locked, sync_from_store,
}
use nexora_core.Services.Jwks.Fresh.{apply_state-current, purged-current, rotate_locked-run}
use nexora_core.Redis.Keys.{
  Bytes, Cipher, Laws, RedisJwksStore, KeyRedis, save_state, load_state, try_acquire_lock,
  release_lock,
}
use nexora_core.Redis.Keys.RoundTrip.{as_saved, lookup-with_kid, load_state-save_state}

-- What one instance meets at the server and in its random source.
pub record Trips (c : Cipher) : Type 0 where
  pub load : Delivery
  pub save : Delivery
  pub acquire : Delivery
  pub release : Delivery
  pub token : String
  pub nonces : String → Result (Bytes c)

abbrev without_answer : {S : Type 0} → Bool → Action S (Unit {0})
without_answer b = pure tt

-- The store as the service sees it.
abbrev pub shared_store : (c : Cipher) → RedisJwksStore c → String → Trips c → JwksStore
shared_store c r name t = record {
  World = KeyRedis c;
  try_acquire_lock = try_acquire_lock c name t.token t.acquire;
  release_lock = λ token. release_lock c name token t.release >>= without_answer;
  load_state = load_state c r t.load;
  save_state = save_state c r t.nonces t.save;
}

module _ (y : Crypto) (store : JwksStore) (cfg : JwksConfig) where
  -- A synchronisation that finds a whole state whose current key decodes installs it.
  sync_from_store-installs :
      (n : Node y store cfg) (state : SharedJwksState) (pem : String) (priv : y.PrivateKey)
      → (store.load_state n.world).0 ≡ ok (some state)
      → state.keys ≡ some (entries state.keys)
      → state.created_at ≡ some (entries state.created_at)
      → is_empty state.current_kid ≡ false
      → lookup state.current_kid (entries state.keys) ≡ some pem
      → y.decode pem ≡ some priv
      → let s = (sync_from_store y store cfg n).1.service in
        (s.current ≡ some priv) × (s.current_kid ≡ state.current_kid)
  unfolding sync_from_store has_state
  sync_from_store-installs n state pem priv loaded k t named found decoded =
      let n' : Node y store cfg = record n { world = (store.load_state n.world).1 } in
      let body =
        λ (o : Option SharedJwksState). apply_found y store cfg (has_state y store cfg o) in
      let same : sync_from_store y store cfg n ≡ on_service y store cfg (apply_state y state) n' =
        bind_known (on_store y store cfg store.load_state) body n (some state) loaded
        ∙ ap (λ (b : Bool). apply_found y store cfg (if b then none else some state) n') named in
      subst
        (λ (p : Result (Unit {0}) × Node y store cfg).
          (p.1.service.current ≡ some priv) × (p.1.service.current_kid ≡ state.current_kid))
        (sym same)
        (apply_state-current y state (entries state.keys) (entries state.created_at) pem priv
          n.service k t named found decoded)

module _ (y : Crypto) (cfg : JwksConfig) (c : Cipher) (laws : Laws c) (r : RedisJwksStore c)
    (name : String) (nonces : String → Bytes c)
    (sizes : (kid : String) → length (nonces kid) ≡ c.nonce_size) where
  -- The calls of both instances reach the server and are answered; the random source gives nonces.
  abbrev pub all_delivered : String → Trips c
  all_delivered token = record {
    load = delivered;
    save = delivered;
    acquire = delivered;
    release = delivered;
    token = token;
    nonces = λ kid. ok (nonces kid);
  }

  abbrev pub shared : String → JwksStore
  shared token = shared_store c r name (all_delivered token)

  -- After one instance has rotated under the lock, an instance that synchronises signs with the same
  -- fresh key: both calls reach the server, which held a state that was not recently rotated or no
  -- state, the fresh key has a kid that is not empty and a PEM text that decodes to it, the maximum
  -- of keys is at least one, no key is there twice, and the nonces have the cipher's size.
  pub sync_from_store-rotate_locked :
      (priv : y.PrivateKey) (kid pem token token' : String) (now now' now'' : ℤ) (max : ℕ)
      (n : Node y (shared token) cfg) (state : Option SharedJwksState) (other : Service y)
      → load_state c r delivered n.world ≡ (ok state, n.world)
      → is_recently_rotated y cfg now state ≡ false
      → is_empty kid ≡ false
      → y.encode priv ≡ ok pem
      → y.decode pem ≡ some priv
      → cfg.max_keys ≡ pos max
      → 1 ≤ max
      → Distinct (entries (prepare_merged_state y state).keys)
      → let after = (rotate_locked y (shared token) cfg (ok (priv, kid)) now now' now'' n).1 in
        let m : Node y (shared token') cfg = record { world = after.world; service = other } in
        let s = (sync_from_store y (shared token') cfg m).1.service in
        (s.current ≡ some priv) × (s.current_kid ≡ kid)
  sync_from_store-rotate_locked priv kid pem token token' now now' now'' max n state other loaded
        due named encoded decoded limit positive d =
      let final =
        purged y (shared token) cfg now''
          (with_key y (prepare_merged_state y state) kid now' pem) in
      let (k, t, found, same) =
        purged-current y (shared token) cfg kid pem now' now'' max state limit positive d in
      let before = (load_state c r delivered n.world).1 in
      let (saved, back) = load_state-save_state c laws nonces sizes r final before in
      let w = ((shared token).save_state final before).1 in
      let ran =
        rotate_locked-run y (shared token) cfg priv kid pem now now' now'' n state
          (ap (λ (p : Result (Option SharedJwksState) × KeyRedis c). p.0) loaded) due encoded
          saved in
      let m : KeyRedis c → Node y (shared token') cfg =
        λ w. record { world = w; service = other } in
      let there : lookup final.current_kid (entries (as_saved final).keys) ≡ some pem =
        lookup-with_kid final.current_kid (entries final.keys) (ap is_empty same ∙ named)
        ∙ ap (λ (i : String). lookup i (entries final.keys)) same
        ∙ found in
      let (installed, named_so) =
        sync_from_store-installs y (shared token') cfg (m w) (as_saved final) pem priv
          (ap (λ (p : Result (Option SharedJwksState) × KeyRedis c). p.0) back) refl refl
          (ap is_empty same ∙ named) there decoded in
      subst
        (λ (p : Result (Unit {0}) × Node y (shared token) cfg).
          let s = (sync_from_store y (shared token') cfg (m p.1.world)).1.service in
          (s.current ≡ some priv) × (s.current_kid ≡ kid))
        (sym ran) (installed, named_so ∙ same)

-- ===== src/Services/Jwks/Fresh.antt =====
-- A rotation of jwks_service.go that reaches the store installs its fresh key.
use nexora_core.Prelude.{
  ℕ, ◌≤◌, ◌≡◌, refl, sym, ap, subst, ◌∙◌, String, Bool, false, ◌||◌, is_empty, Option, some, List,
  [], ◌∷◌, Dict, lookup, insert, erase, lookup-insert_same, lookup-erase_same, lookup-erase, str_eq,
  length, if◌then◌else◌, Bool-cases, Option-cases, inl, inr, arith,
}
use nexora_core.Prelude.Int.{ℤ, pos, leb_ℤ}
use nexora_core.Domain.Errors.{Result, ok}
use nexora_core.Redis.Client.{pure, ◌>>=◌}
use nexora_core.Services.Jwks.State.{
  SharedJwksState, entries, Item, purge_state, apply_retention_purge, apply_max_keys_purge,
}
use nexora_core.Services.Jwks.Purge.{Distinct, purge_state-bounded}
use nexora_core.Services.Jwks.Loading.{load_keys-current_kid}
use nexora_core.Services.Auth.Steps.{bind_known}
use nexora_core.Services.Jwks.Service.{
  Crypto, JwksStore, JwksConfig, Service, load_keys, apply_state, install, with_key,
  generate_and_merge_key, prepare_merged_state, is_recently_rotated,
}
use nexora_core.Services.Jwks.Node.{
  Node, on_store, on_service, lift, publish, purged, merge_and_publish, rotate_locked,
}

erase-Distinct : (k : String) (m : Dict String) → Distinct m → Distinct (erase k m)
erase-Distinct k [] d = tt
erase-Distinct k ((j, v) ∷ m) d = elim (Bool-cases (str_eq j k)) [
  | inl e ↦ rw e (erase-Distinct k m d.1)
  | inr e ↦ rw e (ground (arith, lookup-erase k j m, d.0), erase-Distinct k m d.1)
]

insert-Distinct : (k v : String) (m : Dict String) → Distinct m → Distinct (insert k v m)
insert-Distinct k v m d = (lookup-erase_same k m, erase-Distinct k m d)

module _ (parse_time : String → Option ℤ) (newest_first : List Item → List Item) where
  apply_max_keys_purge-some :
      (max : ℤ) (s : SharedJwksState)
      → s.keys ≡ some (entries s.keys)
      → s.created_at ≡ some (entries s.created_at)
      → let s' = apply_max_keys_purge parse_time newest_first max s in
        (s'.keys ≡ some (entries s'.keys)) × (s'.created_at ≡ some (entries s'.created_at))
  unfolding apply_max_keys_purge
  apply_max_keys_purge-some max s k c =
      elim (Bool-cases (leb_ℤ max (pos 0) || leb_ℤ (pos (length (entries s.keys))) max)) [
        | inl few ↦ rw few (k, c)
        | inr many ↦ rw many (refl, refl)
      ]

  -- A purge leaves no nil map.
  purge_state-some :
      (now retention max : ℤ) (s : SharedJwksState)
      → let s' = purge_state parse_time newest_first now retention max s in
        (s'.keys ≡ some (entries s'.keys)) × (s'.created_at ≡ some (entries s'.created_at))
  unfolding purge_state apply_retention_purge
  purge_state-some now retention max s =
      apply_max_keys_purge-some max
        (apply_retention_purge parse_time newest_first now retention
          (record s { keys = some (entries s.keys); created_at = some (entries s.created_at) }))
        refl refl

module _ (y : Crypto) where
  load_keys-current :
      (kid pem : String) (priv : y.PrivateKey) (created keys : Dict String)
      → lookup kid keys ≡ some pem
      → y.decode pem ≡ some priv
      → (load_keys y kid created keys).current ≡ some priv
  unfolding load_keys
  load_keys-current kid pem priv created [] found decoded = cc
  load_keys-current kid pem priv created ((k, p) ∷ m) found decoded =
      elim (Bool-cases (str_eq k kid)) [
        | inl e ↦
            let same : y.decode p ≡ some priv =
              let t : p ≡ pem = ground (arith, found, e) in ap y.decode t ∙ decoded in
            rw (same, load_keys) (rw e refl)
        | inr e ↦
            let rest =
              load_keys-current kid pem priv created m (ground (arith, found, e)) decoded in
            elim (Option-cases (y.decode p)) [
              | inl n ↦ rw (n, load_keys) rest
              | inr (q, n) ↦ rw (n, load_keys) (rw e rest)
            ]
      ]

  install-current :
      (k : Option y.PrivateKey) (priv : y.PrivateKey) (fresh s : Service y)
      → k ≡ some priv
      → (install y k fresh s).1 ≡ fresh
  install-current k priv fresh s e =
      subst (λ (o : Option y.PrivateKey). (install y o fresh s).1 ≡ fresh) (sym e) refl

  -- A state without nil maps whose current key decodes is installed.
  pub apply_state-current :
      (state : SharedJwksState) (keys created : Dict String) (pem : String) (priv : y.PrivateKey)
      (s : Service y)
      → state.keys ≡ some keys
      → state.created_at ≡ some created
      → is_empty state.current_kid ≡ false
      → lookup state.current_kid keys ≡ some pem
      → y.decode pem ≡ some priv
      → let s' = (apply_state y state s).1 in
        (s'.current ≡ some priv) × (s'.current_kid ≡ state.current_kid)
  unfolding apply_state
  apply_state-current state keys created pem priv s k c named found decoded =
      let fresh = load_keys y state.current_kid created keys in
      let current = load_keys-current state.current_kid pem priv created keys found decoded in
      let same : (apply_state y state s).1 ≡ fresh =
        rw (k, c, named) (install-current fresh.current priv fresh s current) in
      (
        ap (λ (t : Service y). t.current) same ∙ current,
        ap (λ (t : Service y). t.current_kid) same
            ∙ load_keys-current_kid y state.current_kid created keys,
      )

  generated_key :
      (priv : y.PrivateKey) (kid pem : String) (now : ℤ) (merged : SharedJwksState)
      → y.encode priv ≡ ok pem
      → generate_and_merge_key y (ok (priv, kid)) now merged ≡ ok (with_key y merged kid now pem)
  unfolding generate_and_merge_key
  generated_key priv kid pem now merged encoded = rw (encoded, generate_and_merge_key) refl

  module _ (store : JwksStore) (cfg : JwksConfig) where
    -- The run of a rotation whose calls succeed: the last thing it does is to apply the final state.
    pub rotate_locked-run :
        (priv : y.PrivateKey) (kid pem : String) (now now' now'' : ℤ) (n : Node y store cfg)
        (state : Option SharedJwksState)
        → (store.load_state n.world).0 ≡ ok state
        → is_recently_rotated y cfg now state ≡ false
        → y.encode priv ≡ ok pem
        → let final =
            purged y store cfg now'' (with_key y (prepare_merged_state y state) kid now' pem) in
          let answer = store.save_state final (store.load_state n.world).1 in
          answer.0 ≡ ok tt
          → rotate_locked y store cfg (ok (priv, kid)) now now' now'' n
            ≡ on_service y store cfg (apply_state y final) (record n { world = answer.1 })
    unfolding rotate_locked
    rotate_locked-run priv kid pem now now' now'' n state loaded due encoded saved =
        let merged = with_key y (prepare_merged_state y state) kid now' pem in
        let n₁ : Node y store cfg = record n { world = (store.load_state n.world).1 } in
        let rest = merge_and_publish y store cfg (ok (priv, kid)) now' now'' in
        let body = λ (found : Option SharedJwksState).
          if is_recently_rotated y cfg now found then pure tt else rest found in
        let generated : generate_and_merge_key y (ok (priv, kid)) now'
              (prepare_merged_state y state)
            ≡ ok merged =
          generated_key priv kid pem now' (prepare_merged_state y state) encoded in
        let publishing =
          λ (m : SharedJwksState). publish y store cfg (purged y store cfg now'' m) in
        bind_known (on_store y store cfg store.load_state) body n state loaded
        ∙ ap (λ (b : Bool). (if b then pure tt else rest state) n₁) due
        ∙ ap (λ (r : Result SharedJwksState). (lift y store cfg r >>= publishing) n₁) generated
        ∙ bind_known (on_store y store cfg (store.save_state (purged y store cfg now'' merged)))
            (λ u. on_service y store cfg (apply_state y (purged y store cfg now'' merged))) n₁ tt
            saved

    -- The state that a rotation publishes: no nil map, and the fresh key is current.
    pub purged-current :
        (kid pem : String) (now' now'' : ℤ) (max : ℕ) (state : Option SharedJwksState)
        → cfg.max_keys ≡ pos max
        → 1 ≤ max
        → Distinct (entries (prepare_merged_state y state).keys)
        → let final =
            purged y store cfg now'' (with_key y (prepare_merged_state y state) kid now' pem) in
          (final.keys ≡ some (entries final.keys))
          × (final.created_at ≡ some (entries final.created_at))
          × (lookup kid (entries final.keys) ≡ some pem)
          × (final.current_kid ≡ kid)
    purged-current kid pem now' now'' max state limit positive d =
        let merged = with_key y (prepare_merged_state y state) kid now' pem in
        let purge =
          λ (m : ℤ). purge_state y.parse_time y.newest_first now'' cfg.retention_period m merged in
        let (k, c) =
          purge_state-some y.parse_time y.newest_first now'' cfg.retention_period cfg.max_keys
            merged in
        let (few, kept, current) =
          purge_state-bounded y.parse_time y.newest_first now'' cfg.retention_period max merged
            positive (insert-Distinct kid pem (entries (prepare_merged_state y state).keys) d) in
        (
          k,
          c,
          subst (λ (m : ℤ). lookup kid (entries (purge m).keys) ≡ some pem) (sym limit)
              (kept ∙ lookup-insert_same kid pem (entries (prepare_merged_state y state).keys)),
          subst (λ (m : ℤ). (purge m).current_kid ≡ kid) (sym limit) current,
        )

    -- A rotation under the lock whose calls succeed makes the fresh key the one that signs: the state
    -- was loaded and is not recently rotated, the fresh key has a kid that is not empty and a PEM
    -- text that decodes to it, the purged state was saved, the maximum of keys is at least one, and
    -- the loaded map of keys has no key twice.
    pub rotate_locked-installs :
        (priv : y.PrivateKey) (kid pem : String) (now now' now'' : ℤ) (max : ℕ)
        (n : Node y store cfg) (state : Option SharedJwksState)
        → (store.load_state n.world).0 ≡ ok state
        → is_recently_rotated y cfg now state ≡ false
        → is_empty kid ≡ false
        → y.encode priv ≡ ok pem
        → y.decode pem ≡ some priv
        → cfg.max_keys ≡ pos max
        → 1 ≤ max
        → Distinct (entries (prepare_merged_state y state).keys)
        → let merged = with_key y (prepare_merged_state y state) kid now' pem in
          (store.save_state (purged y store cfg now'' merged) (store.load_state n.world).1).0
            ≡ ok tt
          → let s = (rotate_locked y store cfg (ok (priv, kid)) now now' now'' n).1.service in
            (s.current ≡ some priv) × (s.current_kid ≡ kid)
    rotate_locked-installs priv kid pem now now' now'' max n state loaded due named encoded decoded
          limit positive d saved =
        let merged = with_key y (prepare_merged_state y state) kid now' pem in
        let final = purged y store cfg now'' merged in
        let (k, c, found, same) = purged-current kid pem now' now'' max state limit positive d in
        let (installed, named_so) =
          apply_state-current final (entries final.keys) (entries final.created_at) pem priv
            n.service k c (ap is_empty same ∙ named)
            (ap (λ (i : String). lookup i (entries final.keys)) same ∙ found) decoded in
        subst
          (λ (r : Result (Unit {0}) × Node y store cfg).
            (r.1.service.current ≡ some priv) × (r.1.service.current_kid ≡ kid))
          (sym (rotate_locked-run priv kid pem now now' now'' n state loaded due encoded saved))
          (installed, named_so ∙ same)

-- ===== src/Services/Jwks/Loading.antt =====
-- What applyState of jwks_service.go leaves in memory: the key that signs can be verified.
use nexora_core.Prelude.{
  ◌≡◌, inl, inr, refl, String, is_empty, Option, none, some, [], ◌∷◌, Dict, lookup, str_eq,
  Bool-cases, Option-cases,
}
use nexora_core.Services.Jwks.State.{SharedJwksState}
use nexora_core.Services.Jwks.Service.{install, Crypto, Service, load_keys, apply_state}

module _ (y : Crypto) where
  abbrev pub verifying : Option y.PrivateKey → Option y.PublicKey
  verifying none = none
  verifying (some k) = some (y.public k)

  -- The public key found under the current kid is that of the key that signs.
  unfoldable pub Serves : Service y → Type 0
  Serves s = lookup s.current_kid s.public_keys ≡ verifying s.current

  load_keys-Serves :
      (kid : String) (created keys : Dict String)
      → lookup kid (load_keys y kid created keys).public_keys
        ≡ verifying (load_keys y kid created keys).current
  unfolding load_keys
  load_keys-Serves kid created [] = refl
  load_keys-Serves kid created ((k, pem) ∷ m) = elim (Option-cases (y.decode pem)) [
    | inl e ↦ rw (e, load_keys) (load_keys-Serves kid created m)
    | inr (priv, e) ↦
        rw (e, load_keys)
          (elim (Bool-cases (str_eq k kid)) [
            | inl h ↦ rw h
            | inr h ↦ rw h (load_keys-Serves kid created m)
          ])
  ]

  pub load_keys-current_kid :
      (kid : String) (created keys : Dict String) → (load_keys y kid created keys).current_kid ≡ kid
  unfolding load_keys
  load_keys-current_kid kid created [] = refl
  load_keys-current_kid kid created ((k, pem) ∷ m) = elim (Option-cases (y.decode pem)) [
    | inl e ↦ rw (e, load_keys) (load_keys-current_kid kid created m)
    | inr (priv, e) ↦ rw (e, load_keys) refl
  ]

  loaded-Serves :
      (kid : String) (created keys : Dict String) → Serves (load_keys y kid created keys)
  unfolding Serves
  loaded-Serves kid created keys =
      rw (load_keys-current_kid kid created keys) (load_keys-Serves kid created keys)

  install-Serves :
      (k : Option y.PrivateKey) (fresh s : Service y)
      → Serves fresh
      → Serves s
      → Serves (install y k fresh s).1
  install-Serves none fresh s new old = old
  install-Serves (some k) fresh s new old = new

  pub apply_state-Serves :
      (state : SharedJwksState) (s : Service y) → Serves s → Serves (apply_state y state s).1
  unfolding apply_state
  apply_state-Serves state s h = elim (Option-cases state.keys) [
    | inl e ↦ rw e h
    | inr (keys, e) ↦ elim (Option-cases state.created_at) [
      | inl f ↦ rw (e, f) h
      | inr (created, f) ↦ elim (Bool-cases (is_empty state.current_kid)) [
        | inl b ↦ rw (e, f, b) h
        | inr b ↦
            rw (e, f, b) (install-Serves _ _ s (loaded-Serves state.current_kid created keys) h)
      ]
    ]
  ]

-- ===== src/Redis/Keys/RoundTrip.antt =====
-- What jwks_store.go saves, it loads.
use nexora_core.Prelude.{
  ◌≡◌, refl, sym, ap, String, false, not, is_empty, some, List, [], ◌∷◌, ◌++◌, Dict, take, drop,
  lookup, lookup-insert_same, str_eq, length, ltb, if◌then◌else◌, Bool-cases, inl, inr, arith,
  eq_iff,
}
use nexora_core.Domain.Errors.{ok}
use nexora_core.Redis.Client.{delivered}
use nexora_core.Services.Jwks.State.{SharedJwksState, entries, keep_if}
use nexora_core.Redis.Keys.{
  Bytes, Cipher, Laws, RedisJwksStore, encrypt_aes_gcm_raw, decrypt_aes_gcm_raw, encrypt_keys,
  decrypt_keys, KeyRedis, encrypted_state, encrypted_data, save_state, read_state, load_state,
}

length-append : {A : Type 0} (a b : List A) → ltb (length (a ++ b)) (length a) ≡ false
length-append [] b = ground arith
length-append (x ∷ a) b = ground (arith, length-append a b)

take-append : {A : Type 0} (a b : List A) → take (length a) (a ++ b) ≡ a
take-append [] [] = refl
take-append [] (x ∷ b) = refl
take-append (x ∷ a) b = ground (arith, take-append a b)

drop-append : {A : Type 0} (a b : List A) → drop (length a) (a ++ b) ≡ b
drop-append [] [] = refl
drop-append [] (x ∷ b) = refl
drop-append (x ∷ a) b = ground (arith, drop-append a b)

-- The entries with a kid.
abbrev pub with_kid : Dict String → Dict String
with_kid = keep_if (λ k. not (is_empty k))

-- What a load returns after the save of a state.
abbrev pub as_saved : SharedJwksState → SharedJwksState
as_saved state = record state {
  keys = some (with_kid (entries state.keys));
  created_at = some (entries state.created_at);
}

pub lookup-with_kid :
    (kid : String) (m : Dict String) → is_empty kid ≡ false → lookup kid (with_kid m) ≡ lookup kid m
unfolding keep_if
lookup-with_kid kid [] named = refl
lookup-with_kid kid ((k, v) ∷ m) named = elim (Bool-cases (is_empty k)) [
  | inl e ↦
      let other : str_eq k kid ≡ false = ground (arith, eq_iff k kid, ap is_empty, e, named) in
      rw (e, other, keep_if) (lookup-with_kid kid m named)
  | inr e ↦ rw (e, keep_if) (ground (arith, lookup-with_kid kid m named))
]

module _ (c : Cipher) (laws : Laws c) where
  open laws use {of_bytes-to_bytes, decode-encode, unseal-seal, unmarshal-marshal}

  -- The text of an encryption.
  abbrev sealed : Bytes c → String → Bytes c → String
  sealed nonce pem key = c.encode (nonce ++ c.seal key nonce (c.to_bytes pem))

  decrypt-sealed :
      (nonce key : Bytes c) (pem : String)
      → length nonce ≡ c.nonce_size
      → decrypt_aes_gcm_raw c (sealed nonce pem key) key ≡ ok (c.to_bytes pem)
  unfolding decrypt_aes_gcm_raw
  decrypt-sealed nonce key pem size =
      let body = c.seal key nonce (c.to_bytes pem) in
      rw
        (
          decrypt_aes_gcm_raw,
          decode-encode (nonce ++ body),
          sym size,
          length-append nonce body,
          take-append nonce body,
          drop-append nonce body,
        )
        (unseal-seal key nonce (c.to_bytes pem) size)

  module _ (nonces : String → Bytes c) (sizes : (kid : String) → length (nonces kid) ≡ c.nonce_size)
      (key : Bytes c) where
    abbrev sealed_keys : Dict String → Dict String
    sealed_keys [] = []
    sealed_keys ((kid, pem) ∷ m) =
        let rest = sealed_keys m in
        if is_empty kid then rest else (kid, sealed (nonces kid) pem key) ∷ rest

    encrypt_keys-sealed :
        (m : Dict String) → encrypt_keys c (λ kid. ok (nonces kid)) key m ≡ ok (sealed_keys m)
    unfolding encrypt_keys encrypt_aes_gcm_raw
    encrypt_keys-sealed [] = refl
    encrypt_keys-sealed ((kid, pem) ∷ m) = elim (Bool-cases (is_empty kid)) [
      | inl e ↦ rw (encrypt_keys, e) (encrypt_keys-sealed m)
      | inr e ↦ rw (encrypt_keys, e, encrypt_aes_gcm_raw, encrypt_keys-sealed m) refl
    ]

    decrypt_keys-sealed : (m : Dict String) → decrypt_keys c key (sealed_keys m) ≡ ok (with_kid m)
    unfolding decrypt_keys keep_if
    decrypt_keys-sealed [] = refl
    decrypt_keys-sealed ((kid, pem) ∷ m) = elim (Bool-cases (is_empty kid)) [
      | inl e ↦ rw (e, keep_if) (decrypt_keys-sealed m)
      | inr e ↦
          rw
            (
              e,
              keep_if,
              decrypt_keys,
              decrypt-sealed (nonces kid) key pem (sizes kid),
              decrypt_keys-sealed m,
              of_bytes-to_bytes pem,
            )
            refl
    ]

  module _ (nonces : String → Bytes c) (sizes : (kid : String) → length (nonces kid) ≡ c.nonce_size)
      (r : RedisJwksStore c) where
    -- The text that a save writes.
    pub written :
        (state : SharedJwksState)
        → (d : c.Data) × (encrypted_data c r (λ kid. ok (nonces kid)) state ≡ ok d)
          × (read_state c r (some d) ≡ ok (some (as_saved state)))
    unfolding encrypted_data read_state
    written state =
        let keys = sealed_keys nonces sizes r.encryption_key (entries state.keys) in
        let (d, marshalled, back) = unmarshal-marshal (encrypted_state c r state keys) in
        (
          d,
          rw
              (
                encrypted_data,
                encrypt_keys-sealed nonces sizes r.encryption_key (entries state.keys),
                marshalled,
              )
              refl,
          rw
              (
                read_state,
                back,
                decrypt_keys-sealed nonces sizes r.encryption_key (entries state.keys),
              )
              refl,
        )

    -- A save whose round trip is delivered succeeds, and a load after it returns the same state, with
    -- the entries of the keys that have a kid, and no nil map.
    pub load_state-save_state :
        (state : SharedJwksState) (w : KeyRedis c)
        → let saved = save_state c r (λ kid. ok (nonces kid)) delivered state w in
          (saved.0 ≡ ok tt)
          × (load_state c r delivered saved.1 ≡ (ok (some (as_saved state)), saved.1))
    unfolding save_state load_state
    load_state-save_state state w =
        let (d, e, back) = written state in
        rw (save_state, load_state, e, lookup-insert_same r.state_key d w.states, back) (refl, refl)

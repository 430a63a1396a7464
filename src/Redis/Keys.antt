-- ===== src/Redis/Keys.antt =====
-- internal/adapters/secondary/redis/jwks_store.go: the shared JWKS state in Redis, its keys
-- encrypted, and the distributed lock. AES-GCM, base64, JSON and the bytes of a text are the
-- parameter `Cipher`. The nonces, the lock's token and the outcomes of the round trips are
-- arguments. The state and the locks are kept apart: their names differ in every configuration of
-- the repository. The time a lock lives is the event `expire`.
pub mod RoundTrip
pub mod Lock
pub mod Exclusion
pub mod Register
pub mod Sharing
mod Tests
use nexora_core.Prelude.{
  ℕ, ◌-◌, ◌≡◌, String, ◌<>◌, Bool, true, false, not, ◌||◌, ◌&&◌, is_empty, Option, none, some, List,
  [], ◌∷◌, ◌++◌, Dict, take, drop, lookup, insert, erase, str_eq, length, ltb, ◌==◌, if◌then◌else◌,
}
use nexora_core.Domain.Errors.{plain, wrap, Result, ok, err}
use nexora_core.Redis.Client.{Delivery, Action, lift, ◌>>=◌, ◌>>◌, call, query, send}
use nexora_core.Services.Jwks.State.{SharedJwksState, entries}

-- `seal` is `gcm.Seal(nil, nonce, plaintext, nil)`, `unseal` is `gcm.Open(nil, nonce, body, nil)`;
-- `Data` are the texts that `json.Marshal` writes.
pub record Cipher : Type 1 where
  pub Byte : Type 0
  pub Data : Type 0
  pub to_bytes : String → List Byte
  pub of_bytes : List Byte → String
  pub nonce_size : ℕ
  pub seal : List Byte → List Byte → List Byte → List Byte
  pub unseal : List Byte → List Byte → List Byte → Result (List Byte)
  pub encode : List Byte → String
  pub decode : String → List Byte
  pub marshal : SharedJwksState → Result Data
  pub unmarshal : Data → Result SharedJwksState

-- What the packages document: each pair of functions is a round trip.
pub record Laws (c : Cipher) : Type 0 where
  pub of_bytes-to_bytes : (s : String) → c.of_bytes (c.to_bytes s) ≡ s
  pub decode-encode : (b : List c.Byte) → c.decode (c.encode b) ≡ b
  pub unseal-seal :
      (key nonce text : List c.Byte)
      → length nonce ≡ c.nonce_size
      → c.unseal key nonce (c.seal key nonce text) ≡ ok text
  pub unmarshal-marshal :
      (s : SharedJwksState) → (d : c.Data) × (c.marshal s ≡ ok d) × (c.unmarshal d ≡ ok s)

abbrev pub Bytes : Cipher → Type 0
Bytes c = List c.Byte

pub record RedisJwksStore (c : Cipher) : Type 0 where
  pub state_key : String
  pub encryption_key : Bytes c

-- The client is there or nil.
unfoldable pub new_redis_jwks_store :
    (c : Cipher) → Bool → String → String → Result (RedisJwksStore c)
new_redis_jwks_store c client state_key secret =
    let key = c.to_bytes secret in
    if not client
    then err (plain "redis client is nil")
    else if is_empty state_key
    then err (plain "stateKey is empty")
    else if not (length key == 16) && (not (length key == 24) && not (length key == 32))
    then err (plain "encryption key must be exactly 16, 24, or 32 bytes for AES")
    else ok (record { state_key = state_key; encryption_key = key })

module _ (c : Cipher) where
  open c use {
    Data, to_bytes, of_bytes, nonce_size, seal, unseal, encode, decode, marshal, unmarshal,
  }

  unfoldable pub encrypt_aes_gcm_raw : Result (Bytes c) → String → Bytes c → Result String
  encrypt_aes_gcm_raw (err e) plaintext key = err e
  encrypt_aes_gcm_raw (ok nonce) plaintext key =
      ok (encode (nonce ++ seal key nonce (to_bytes plaintext)))

  unfoldable pub decrypt_aes_gcm_raw : String → Bytes c → Result (Bytes c)
  decrypt_aes_gcm_raw text key =
      let ciphertext = decode text in
      if ltb (length ciphertext) nonce_size
      then err (plain "ciphertext too short")
      else unseal key (take nonce_size ciphertext) (drop nonce_size ciphertext)

  -- The loop of `SaveState`: a key without a kid is skipped, an error ends it. The nonce that is
  -- read for each kid is an argument.
  unfoldable pub encrypt_keys :
      (String → Result (Bytes c)) → Bytes c → Dict String → Result (Dict String)
  encrypt_keys nonces key [] = ok []
  encrypt_keys nonces key ((kid, pem) ∷ m) =
      let rest = encrypt_keys nonces key m in
      if is_empty kid then rest else elim (encrypt_aes_gcm_raw (nonces kid) pem key) [
        | err e ↦ err (wrap ("failed to encrypt key " <> kid <> ": ") e "")
        | ok enc ↦ elim rest [ err e ↦ err e | ok out ↦ ok ((kid, enc) ∷ out) ]
      ]

  -- The loop of `LoadState`.
  unfoldable pub decrypt_keys : Bytes c → Dict String → Result (Dict String)
  decrypt_keys key [] = ok []
  decrypt_keys key ((kid, enc) ∷ m) =
      let rest = decrypt_keys key m in
      elim (decrypt_aes_gcm_raw enc key) [
        | err e ↦
            err (wrap ("decryption failed for kid " <> kid <> " (check encryption key): ") e "")
        | ok dec ↦ elim rest [ err e ↦ err e | ok out ↦ ok ((kid, of_bytes dec) ∷ out) ]
      ]

  -- The keys of the server that the store uses.
  pub record KeyRedis : Type 0 where
    pub states : Dict Data
    pub locks : Dict String

  module _ (r : RedisJwksStore c) where
    open r use {state_key, encryption_key}

    -- The nil maps are replaced by empty ones.
    abbrev pub encrypted_state : SharedJwksState → Dict String → SharedJwksState
    encrypted_state state keys = record state {
      keys = some keys;
      created_at = some (entries state.created_at);
    }

    unfoldable pub encrypted_data : (String → Result (Bytes c)) → SharedJwksState → Result Data
    encrypted_data nonces state = elim (encrypt_keys nonces encryption_key (entries state.keys)) [
      | err e ↦ err e
      | ok keys ↦ elim (marshal (encrypted_state state keys)) [
        | err e ↦ err (wrap "json marshal failed: " e "")
        | ok text ↦ ok text
      ]
    ]

    unfoldable pub save_state :
        (String → Result (Bytes c)) → Delivery → SharedJwksState → Action KeyRedis (Unit {0})
    save_state nonces d state = do
      text ← lift (encrypted_data nonces state)
      send d (λ w. record w { states = insert state_key text w.states })

    -- The loop writes into the map it ranges over; a nil map has nothing to range over.
    abbrev pub with_decrypted : SharedJwksState → Option (Dict String) → Result SharedJwksState
    with_decrypted state none = ok state
    with_decrypted state (some keys) = elim (decrypt_keys encryption_key keys) [
      | err e ↦ err e
      | ok plain_keys ↦ ok (record state { keys = some plain_keys })
    ]

    unfoldable pub read_state : Option Data → Result (Option SharedJwksState)
    read_state none = ok none
    read_state (some text) = elim (unmarshal text) [
      | err e ↦ err (wrap "json unmarshal failed: " e "")
      | ok state ↦ elim (with_decrypted state state.keys) [
        | err e ↦ err e
        | ok found ↦ ok (some found)
      ]
    ]

    unfoldable pub load_state : Delivery → Action KeyRedis (Option SharedJwksState)
    load_state d = do found ← query d (λ w. lookup state_key w.states); lift (read_state found)

  -- `SET name token NX`
  unfoldable pub set_nx : String → String → KeyRedis → Bool × KeyRedis
  set_nx name token w = elim (lookup name w.locks) [
    | some t ↦ (false, w)
    | none ↦ (true, record w { locks = insert name token w.locks })
  ]

  abbrev pub with_token : String → Bool → Bool × String
  with_token token acquired = (acquired, token)

  unfoldable pub try_acquire_lock : String → String → Delivery → Action KeyRedis (Bool × String)
  try_acquire_lock name token d =
      call d (λ w. let (acquired, t) = set_nx name token w in (with_token token acquired, t))

  -- `luaReleaseLock`
  unfoldable pub release_script : String → String → KeyRedis → ℕ × KeyRedis
  release_script name token w = elim (lookup name w.locks) [
    | none ↦ (0, w)
    | some t ↦ if str_eq t token then (1, record w { locks = erase name w.locks }) else (0, w)
  ]

  unfoldable pub release_lock : String → String → Delivery → Action KeyRedis Bool
  release_lock name token d = call d (λ w. let (n, t) = release_script name token w in (n == 1, t))

  -- The time of a lock is over.
  unfoldable pub expire : String → KeyRedis → KeyRedis
  expire name w = record w { locks = erase name w.locks }

-- ===== src/Services/Jwks/Service.antt =====
-- DistributedJWKSService of internal/core/services/jwks_service.go: the keys in memory, and the
-- operations that load, rotate and publish them. RSA, PEM and RFC 3339 times are the parameter
-- `Crypto`, the shared store of internal/core/ports/jwks.go is the parameter `JwksStore`. A fresh
-- key, the readings of the clock and the ticks of the worker are arguments; log lines are left out.
use nexora_core.Prelude.{
  String, Bool, true, false, ◌||◌, is_empty, Option, none, some, List, [], ◌∷◌, Dict, lookup,
  insert, str_eq, if◌then◌else◌,
}
use nexora_core.Prelude.Int.{ℤ, pos, ltb_ℤ, leb_ℤ, time_sub}
use nexora_core.Domain.Errors.{plain, wrap, Result, ok, err}
use nexora_core.Redis.Client.{Action, fail}
use nexora_core.Services.Jwks.State.{SharedJwksState, entries, text_at, Item}

pub record Crypto : Type 1 where
  pub PrivateKey : Type 0
  pub PublicKey : Type 0
  pub public : PrivateKey → PublicKey
  pub encode : PrivateKey → Result String
  pub decode : String → Option PrivateKey
  pub parse_time : String → Option ℤ
  pub format_time : ℤ → String
  pub newest_first : List Item → List Item

pub record JwksStore : Type 1 where
  pub World : Type 0
  pub try_acquire_lock : Action World (Bool × String)
  pub release_lock : String → Action World (Unit {0})
  pub load_state : Action World (Option SharedJwksState)
  pub save_state : SharedJwksState → Action World (Unit {0})

pub record JwksConfig : Type 0 where
  pub rotation_ttl : ℤ
  pub retention_period : ℤ
  pub max_keys : ℤ

module _ (y : Crypto) where
  open y use {PrivateKey, PublicKey, public, encode, decode, parse_time, format_time, newest_first}

  pub record Service : Type 0 where
    pub current : Option PrivateKey
    pub current_kid : String
    pub public_keys : Dict PublicKey
    pub created_at : Dict ℤ

  -- What `NewDistributedJWKSService` starts from.
  abbrev pub new_service : Service
  new_service = record { current = none; current_kid = ""; public_keys = []; created_at = [] }

  unfoldable pub get_public_key_by_kid : String → Service → Result PublicKey
  get_public_key_by_kid kid s = elim (lookup kid s.public_keys) [
    | none ↦ err (plain "kid unknown")
    | some k ↦ ok k
  ]

  abbrev is_due : ℤ → ℤ → Option ℤ → Bool
  is_due rotation_ttl now none = true
  is_due rotation_ttl now (some t) = leb_ℤ rotation_ttl (time_sub now t)

  -- A missing creation time is the zero time, whose age is past every configured period.
  unfoldable pub needs_rotation : JwksConfig → ℤ → Service → Bool
  needs_rotation cfg now s = elim s.current [
    | none ↦ true
    | some k ↦
        is_empty s.current_kid || is_due cfg.rotation_ttl now (lookup s.current_kid s.created_at)
  ]

  -- The creation time of a decoded key, if its text is there and parses.
  abbrev created_time : String → Dict String → Option ℤ
  created_time kid created = elim (lookup kid created) [
    | none ↦ none
    | some t ↦ if is_empty t then none else parse_time t
  ]

  -- The loop of `applyState`, which skips the keys that do not decode.
  unfoldable pub load_keys : String → Dict String → Dict String → Service
  load_keys kid created [] = record new_service { current_kid = kid }
  load_keys kid created ((k, pem) ∷ m) =
      let rest = load_keys kid created m in
      elim (decode pem) [
        | none ↦ rest
        | some priv ↦ record {
          current = if str_eq k kid then some priv else rest.current;
          current_kid = kid;
          public_keys = (k, public priv) ∷ rest.public_keys;
          created_at = elim (created_time k created) [
            | none ↦ rest.created_at
            | some t ↦ (k, t) ∷ rest.created_at
          ];
        }
      ]

  -- The last guard: a state whose current key does not decode is refused.
  abbrev pub install : Option PrivateKey → Service → Action Service (Unit {0})
  install none fresh = fail (plain "jwks state current key not decodable")
  install (some k) fresh = λ s. (ok tt, fresh)

  abbrev pub install_loaded : Service → Action Service (Unit {0})
  install_loaded fresh = install fresh.current fresh

  unfoldable pub apply_state : SharedJwksState → Action Service (Unit {0})
  apply_state state = elim state.keys [
    | none ↦ fail (plain "invalid jwks state: nil maps")
    | some keys ↦ elim state.created_at [
      | none ↦ fail (plain "invalid jwks state: nil maps")
      | some created ↦
          if is_empty state.current_kid
          then fail (plain "invalid jwks state: empty current kid")
          else install_loaded (load_keys state.current_kid created keys)
    ]
  ]

  abbrev is_recent : JwksConfig → ℤ → Option ℤ → Bool
  is_recent cfg now none = false
  is_recent cfg now (some t) = ltb_ℤ (time_sub now t) cfg.rotation_ttl

  unfoldable pub is_recently_rotated : JwksConfig → ℤ → Option SharedJwksState → Bool
  is_recently_rotated cfg now none = false
  is_recently_rotated cfg now (some state) =
      let created = text_at state.current_kid (entries state.created_at) in
      if is_empty state.current_kid || is_empty created
      then false
      else is_recent cfg now (parse_time created)

  unfoldable pub prepare_merged_state : Option SharedJwksState → SharedJwksState
  prepare_merged_state none = record {
    version = pos 1;
    current_kid = "";
    keys = some [];
    created_at = some [];
  }
  prepare_merged_state (some state) = state

  -- `generateRSAKeyAndKID`: a key and its kid, or an error.
  abbrev pub Generated : Type 0
  Generated = Result (PrivateKey × String)

  abbrev pub with_key : SharedJwksState → String → ℤ → String → SharedJwksState
  with_key merged kid now pem = record merged {
    current_kid = kid;
    keys = some (insert kid pem (entries merged.keys));
    created_at = some (insert kid (format_time now) (entries merged.created_at));
  }

  unfoldable pub generate_and_merge_key : Generated → ℤ → SharedJwksState → Result SharedJwksState
  generate_and_merge_key (err e) now merged = err (wrap "rotation generate failed: " e "")
  generate_and_merge_key (ok (priv, kid)) now merged = elim (encode priv) [
    | ok pem ↦ ok (with_key merged kid now pem)
    | err e ↦ err (wrap "encode pem failed: " e "")
  ]

  unfoldable pub new_state_with_fresh_key : Generated → ℤ → Result SharedJwksState
  new_state_with_fresh_key (err e) now = err e
  new_state_with_fresh_key (ok (priv, kid)) now = elim (encode priv) [
    | ok pem ↦ ok (with_key (prepare_merged_state none) kid now pem)
    | err e ↦ err e
  ]

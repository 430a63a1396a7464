-- ===== src/Redis/Tokens/Repository/Rotation.antt =====
-- What Save and Rotate of refresh_token_repository.go do to a store with the documented commands.
use nexora_core.Prelude.{
  String, ◌≡◌, Option, none, some, eq_iff, refl, arith, ap, Option-cases, inl, inr, ◌<>◌,
}
use nexora_core.Prelude.Int.{ℤ, pos, ◌<ℤ◌, time_sub}
use nexora_core.Domain.Errors.{Result, ok, err, domain, plain, err_replay_detected}
use nexora_core.Redis.Client.{delivered}
use nexora_core.Redis.Tokens.Document.{
  Json, null, text, time, Document, RefreshToken, marshal, unmarshal-marshal,
}
use nexora_core.Redis.Tokens.Script.{
  TokenRedis, TokenLaws, error_reply, to_string, field, revoke_members, rotate_found, rotate_script,
}
use nexora_core.Redis.Tokens.Repository.{
  token_key, family_key, script_error, has_part, save, rotate, finish_rotation, get_by_hash,
}

module _ (r : TokenRedis) (laws : TokenLaws r) (decode_null : Option Json)
    (hash : String → String) where
  -- The document that Save leaves under the key of the secret.
  pub get-save :
      (now : ℤ) (t : RefreshToken) (s : r.Store)
      → pos 0 <ℤ time_sub t.expires_at now
      → (save r decode_null hash delivered now t s).0 ≡ ok tt
        × (r.get (token_key (hash t.token_raw)) (save r decode_null hash delivered now t s).1
            ≡ some (marshal t))
  unfolding save
  get-save now t s live =
      let k = token_key (hash t.token_raw) in
      let ttl = time_sub t.expires_at now in
      let s₁ = r.set k (marshal t) ttl s in
      let s₂ = r.sadd (family_key t.family_id) k s₁ in
      ground (
        arith,
        laws.get_pexpire (family_key t.family_id) k ttl s₂ live,
        laws.get_sadd (family_key t.family_id) k k s₁,
        laws.get_set k k (marshal t) ttl s live,
        (eq_iff k k).1 refl,
      )

  -- A token that Save stored before its expiry is what GetByHash returns for the hash of its
  -- secret, in every field, and GetByHash changes nothing.
  save-get_by_hash :
      (now : ℤ) (t : RefreshToken) (s : r.Store)
      → pos 0 <ℤ time_sub t.expires_at now
      → let s' = (save r decode_null hash delivered now t s).1 in
        get_by_hash r decode_null hash delivered (hash t.token_raw) s' ≡ (ok t, s')
  unfolding get_by_hash
  save-get_by_hash now t s live = rw ((get-save now t s live).1) (rw (unmarshal-marshal t))

  replay_error : script_error "REPLAY_DETECTED" ≡ domain err_replay_detected
  unfolding script_error has_part
  replay_error = refl

  missing_error : script_error "TOKEN_NOT_FOUND" ≡ plain "token not found in redis"
  unfolding script_error has_part
  missing_error = refl

  -- The script on a token that counts as used.
  script_used :
      (old_key new_key : String) (new old : Document) (ttl now : ℤ) (s : r.Store)
      (family used : Json)
      → r.get old_key s ≡ some old
      → field r decode_null "FamilyID" "family_id" old ≡ some family
      → field r decode_null "UsedAt" "used_at" old ≡ some used
      → rotate_script r decode_null old_key new_key new ttl now s ≡ (
        error_reply "REPLAY_DETECTED",
        revoke_members r decode_null ("rt:family:" <> to_string family) s,
      )
  unfolding rotate_script rotate_found
  script_used old_key new_key new old ttl now s family used e f u =
      rw (e, rotate_script) (rw (f, u, rotate_found))

  pub rotate_used :
      (raw old_raw : String) (now now' : ℤ) (s : r.Store) (old : Document) (family used : Json)
      → r.get (token_key (hash old_raw)) s ≡ some old
      → field r decode_null "FamilyID" "family_id" old ≡ some family
      → field r decode_null "UsedAt" "used_at" old ≡ some used
      → rotate r decode_null hash delivered raw now now' old_raw s ≡ (
        err (domain err_replay_detected),
        revoke_members r decode_null ("rt:family:" <> to_string family) s,
      )
  unfolding rotate finish_rotation
  rotate_used raw old_raw now now' s old family used e f u =
      rw (script_used _ _ _ old _ _ s family used e f u) (rw replay_error)

  pub used_field :
      (t : RefreshToken)
      → decode_null ≡ some null
      → (used : Json) × (field r decode_null "UsedAt" "used_at" (marshal t) ≡ some used)
  unfolding marshal
  used_field t documented = elim (Option-cases t.used_at) [
    | inl e ↦ (null, rw (e, documented))
    | inr (at, e) ↦ (time at, rw e)
  ]

  -- Where cjson decodes a JSON null to a value that is not nil, as it documents, every token that
  -- Save stored, also one that was never used, is refused by its first Rotate as a replay.
  pub save-rotate_replay :
      (now : ℤ) (t : RefreshToken) (raw : String) (now' now'' : ℤ) (s : r.Store)
      → decode_null ≡ some null
      → pos 0 <ℤ time_sub t.expires_at now
      → (rotate r decode_null hash delivered raw now' now'' t.token_raw
          (save r decode_null hash delivered now t s).1).0
        ≡ err (domain err_replay_detected)
  unfolding marshal
  save-rotate_replay now t raw now' now'' s documented live =
      let (used, u) = used_field t documented in
      let s' = (save r decode_null hash delivered now t s).1 in
      ap (λ (x : Result RefreshToken × r.Store). x.0)
        (rotate_used raw t.token_raw now' now'' s' (marshal t) (text t.family_id) used
          ((get-save now t s live).1) refl u)

  -- A secret that the store does not know.
  pub rotate_missing :
      (raw old_raw : String) (now now' : ℤ) (s : r.Store)
      → r.get (token_key (hash old_raw)) s ≡ none
      → rotate r decode_null hash delivered raw now now' old_raw s
        ≡ (err (plain "token not found in redis"), s)
  unfolding rotate rotate_script finish_rotation
  rotate_missing raw old_raw now now' s e = rw (e, rotate_script) (rw missing_error)

-- ===== src/Redis/Tokens/Repository/Families.antt =====
-- What becomes of a family of tokens: refresh_token_repository.go keeps it under `family:<id>`,
-- scripts/rotate_token.lua under `rt:family:<id>`.
use nexora_core.Prelude.{
  String, ◌<>◌, ◌≡◌, false, Option, none, some, List, [], ◌∷◌, str_eq, str_eq_comm, refl, arith, ap,
  ◌∙◌, contains, if◌then◌else◌, cons-append-ne,
}
use nexora_core.Prelude.Int.{ℤ, pos, ◌<ℤ◌, time_sub}
use nexora_core.Domain.Errors.{ok, err, domain, err_replay_detected}
use nexora_core.Redis.Client.{delivered}
use nexora_core.Redis.Tokens.Document.{Json, null, text, RefreshToken, marshal, unmarshal-marshal}
use nexora_core.Redis.Tokens.Script.{TokenRedis, TokenLaws, revoke_members, del_members}
use nexora_core.Redis.Tokens.Repository.{token_key, family_key, save, rotate, get_by_hash}
use nexora_core.Redis.Tokens.Repository.Rotation.{get-save, used_field, rotate_used}

family-ne_script_key : (f g : String) → str_eq (family_key f) ("rt:family:" <> g) ≡ false
family-ne_script_key f g = cons-append-ne "f" "r" "amily:" "t:family:" f g (omega arith)

module _ (r : TokenRedis) (laws : TokenLaws r) (decode_null : Option Json)
    (hash : String → String) where
  get-del_members :
      (ks : List String) (j : String) (s : r.Store)
      → r.get j (del_members r decode_null ks s) ≡ (if contains ks j then none else r.get j s)
  unfolding del_members
  get-del_members [] j s = refl
  get-del_members (k ∷ ks) j s = laws.get_del (k ∷ ks) j s

  -- What Save leaves in the set of the script: the family of Go is another key.
  members-save :
      (now : ℤ) (t : RefreshToken) (x : String) (s : r.Store)
      → pos 0 <ℤ time_sub t.expires_at now
      → str_eq (token_key (hash t.token_raw)) ("rt:family:" <> t.family_id) ≡ false
      → contains
          (r.members ("rt:family:" <> t.family_id) (save r decode_null hash delivered now t s).1)
          x
        ≡ contains (r.members ("rt:family:" <> t.family_id) s) x
  unfolding save
  members-save now t x s live apart =
      let fk = "rt:family:" <> t.family_id in
      let k = token_key (hash t.token_raw) in
      let ttl = time_sub t.expires_at now in
      let s₁ = r.set k (marshal t) ttl s in
      let s₂ = r.sadd (family_key t.family_id) k s₁ in
      ground (
        arith,
        live,
        laws.members_pexpire (family_key t.family_id) fk x ttl s₂ live,
        laws.members_sadd (family_key t.family_id) k fk x s₁,
        family-ne_script_key t.family_id t.family_id,
        ap (λ (ms : List String). contains ms x) (laws.members_set k fk (marshal t) ttl s apart),
      )

  -- The replay that the script reports for a token as Save stored it takes nothing away: Rotate
  -- answers that a replay was detected, and GetByHash still finds the token, in every field. Save lists
  -- the token under `family:<id>`, and the script deletes the members of `rt:family:<id>`. This holds
  -- where cjson decodes a JSON null to a value that is not nil, as it documents, for a token that was
  -- not expired when it was saved and was no member of `rt:family:<id>` before; that key is not the key
  -- of the token.
  pub save-rotate_kept :
      (now : ℤ) (t : RefreshToken) (raw : String) (now' now'' : ℤ) (s : r.Store)
      → decode_null ≡ some null
      → pos 0 <ℤ time_sub t.expires_at now
      → contains (r.members ("rt:family:" <> t.family_id) s) (token_key (hash t.token_raw)) ≡ false
      → str_eq (token_key (hash t.token_raw)) ("rt:family:" <> t.family_id) ≡ false
      → let s₁ = (save r decode_null hash delivered now t s).1 in
        let (answer, s₂) = rotate r decode_null hash delivered raw now' now'' t.token_raw s₁ in
        (answer ≡ err (domain err_replay_detected))
        × (get_by_hash r decode_null hash delivered (hash t.token_raw) s₂ ≡ (ok t, s₂))
  unfolding revoke_members get_by_hash marshal
  save-rotate_kept now t raw now' now'' s documented live fresh apart =
      let k = token_key (hash t.token_raw) in
      let fk = "rt:family:" <> t.family_id in
      let s₁ = (save r decode_null hash delivered now t s).1 in
      let ms = r.members fk s₁ in
      let listed : contains ms k ≡ false = members-save now t k s live apart ∙ fresh in
      let survive : r.get k (r.del (fk ∷ []) (del_members r decode_null ms s₁)) ≡ some (marshal t) =
        laws.get_del (fk ∷ []) k (del_members r decode_null ms s₁)
        ∙ rw (str_eq_comm fk k, apart)
            (get-del_members ms k s₁
              ∙ rw listed ((get-save r laws decode_null hash now t s live).1)) in
      let (used, u) = used_field r laws decode_null hash t documented in
      let replay =
        rotate_used r laws decode_null hash raw t.token_raw now' now'' s₁ (marshal t)
          (text t.family_id) used ((get-save r laws decode_null hash now t s live).1) refl u in
      rw replay (refl, rw survive (rw (unmarshal-marshal t)))

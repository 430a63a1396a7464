-- ===== src/Services/Auth/OverRedis/FirstRefresh.antt =====
-- What becomes of the refresh token of a login in the store of refresh_token_repository.go.
use nexora_core.Prelude.{
  ◌≡◌, refl, sym, ap, subst, ◌∙◌, String, true, Option, some, [], ◌∷◌, Bool-cases, inl, inr, arith,
}
use nexora_core.Prelude.Int.{ℤ, pos, ◌<ℤ◌, ◌+ℤ◌, leb_ℤ, time_sub}
use nexora_core.Domain.Errors.{domain, plain, Result, ok, err, is_error, err_replay_detected}
use nexora_core.Domain.User.{User}
use nexora_core.Redis.Client.{Delivery, delivered, Action, pure, ◌>>=◌, ◌>>◌}
use nexora_core.Redis.Tokens.Document.{Json, null, RefreshToken}
use nexora_core.Redis.Tokens.Script.{TokenRedis, TokenLaws}
use nexora_core.Redis.Tokens.Repository.{save, rotate}
use nexora_core.Redis.Tokens.Repository.Rotation.{save-rotate_replay}
use nexora_core.Services.Auth.{
  AuthConfig, AuditContext, TokenPair, Backend, read, words, submit_audit,
}
use nexora_core.Services.Auth.Login.{or_fail, generate_token, family_token, issue_tokens}
use nexora_core.Services.Auth.Tokens.{refresh}
use nexora_core.Services.Auth.Refreshing.{refresh-replay_iff}
use nexora_core.Services.Auth.Steps.{ok-ne, bind_ok, bind_known, or_fail_ok}
use nexora_core.Services.Auth.OverRedis.{TokenTrips, over_redis}

module _ (r : TokenRedis) (laws : TokenLaws r) (decode_null : Option Json)
    (hash : String → String) where
  -- A save that reports success found the token alive.
  save-live :
      (d : Delivery) (now : ℤ) (t : RefreshToken) (s : r.Store)
      → (save r decode_null hash d now t s).0 ≡ ok tt
      → pos 0 <ℤ time_sub t.expires_at now
  unfolding save
  save-live d now t s h = elim (Bool-cases (leb_ℤ (time_sub t.expires_at now) (pos 0))) [
    | inl over ↦ absurd (
        ok-ne (plain "token_repo: token already expired") tt
          (sym (ap (λ (p : Result (Unit {0}) × r.Store). p.0) (expired over)) ∙ h))
    | inr alive ↦ ground arith
  ]
    where
      expired :
          leb_ℤ (time_sub t.expires_at now) (pos 0) ≡ true
          → save r decode_null hash d now t s ≡ (err (plain "token_repo: token already expired"), s)
      expired over = rw (save, over) refl

  module _ (b : Backend) (cfg : AuthConfig) (t : TokenTrips) where
    abbrev backend : Backend
    backend = over_redis r decode_null hash t b

    -- After a save, the service answers a refresh with that secret as a replay.
    refresh-save :
        (now : ℤ) (token : RefreshToken) (ctx : AuditContext) (w : b.World) (s : r.Store)
        → decode_null ≡ some null
        → t.rotate_trip ≡ delivered
        → (save r decode_null hash delivered now token s).0 ≡ ok tt
        → (refresh backend cfg token.token_raw ctx
            (w, (save r decode_null hash delivered now token s).1)).0
          ≡ err (domain err_replay_detected)
    unfolding is_error
    refresh-save now token ctx w s documented arrives saved =
        let s' = (save r decode_null hash delivered now token s).1 in
        let replay =
          save-rotate_replay r laws decode_null hash now token t.new_raw (b.now w).0 t.rotate_time s
            documented (save-live delivered now token s saved) in
        let rotated : (rotate r decode_null hash t.rotate_trip t.new_raw (b.now w).0 t.rotate_time
              token.token_raw s').0
            ≡ err (domain err_replay_detected) =
          ap
            (λ (d : Delivery).
              (rotate r decode_null hash d t.new_raw (b.now w).0 t.rotate_time token.token_raw
                s').0)
            arrives
          ∙ replay in
        (refresh-replay_iff backend cfg token.token_raw ctx (w, s')).1
          (domain err_replay_detected, rotated, refl)

    -- The tokens of a login: the refresh token was saved, and nothing touched the store since.
    issue_tokens-saved :
        (user : User) (session : String) (ctx : AuditContext) (w : b.World) (s : r.Store)
        (pair : TokenPair)
        → (issue_tokens backend cfg user session ctx (w, s)).0 ≡ ok pair
        → (token : RefreshToken) × (token.token_raw ≡ pair.refresh_token)
          × ((save r decode_null hash t.save_trip t.save_time token s).0 ≡ ok tt)
          × ((issue_tokens backend cfg user session ctx (w, s)).1.1
              ≡ (save r decode_null hash t.save_trip t.save_time token s).1)
    unfolding issue_tokens generate_token submit_audit
    issue_tokens-saved user session ctx w s pair h =
        let key = (b.current_private_key w).0 in
        let w₁ = (b.current_private_key w).1 in
        let unsigned = plain "security error: failed to generate access token" in
        let unsaved = plain "infrastructure error: failed to persist refresh token" in
        let signing =
          or_fail unsigned
            (generate_token backend cfg key.0 key.1 "access" user session cfg.access_token_ttl) in
        let audited =
          submit_audit backend user.tenant_id user.id "LOGIN_SUCCESS" "SUCCESS" ctx
            (("session_id", words session) ∷ []) in
        let answer : String → String → Unit {0} → Action backend.World TokenPair = λ access raw u.
          (audited
            >> (read backend.now >>= λ end. pure (record {
              access_token = access;
              refresh_token = raw;
              expires_at = end +ℤ cfg.access_token_ttl;
            }))) in
        let saving : RefreshToken → Action backend.World (Unit {0}) =
          λ token. or_fail unsaved (backend.save_refresh token) in
        let rest : String → Action backend.World TokenPair = λ access.
          (read backend.new_uuid >>= λ raw.
          (read backend.new_uuid >>= λ family.
          (read backend.now >>= λ at.
          (read backend.now >>= λ at'.
          (saving (family_token backend cfg raw family user at at') >>= answer access raw))))) in
        let (access, signed, h₁) = bind_ok signing rest (w₁, s) pair h in
        let w₂ = (b.now w₁).1 in
        let raw = (b.new_uuid w₂).0 in
        let w₃ = (b.new_uuid w₂).1 in
        let family = (b.new_uuid w₃).0 in
        let w₄ = (b.new_uuid w₃).1 in
        let w₅ = (b.now w₄).1 in
        let w₆ = (b.now w₅).1 in
        let token = family_token backend cfg raw family user (b.now w₄).0 (b.now w₅).0 in
        let (u, kept, h₂) = bind_ok (saving token) (answer access raw) (w₆, s) pair h₁ in
        let saved = or_fail_ok unsaved (backend.save_refresh token) (w₆, s) u kept in
        let store = λ (p : Result TokenPair × backend.World). p.1.1 in
        (
          token,
          ap (λ (x : Result TokenPair). elim x [ ok p ↦ p.refresh_token | err e ↦ raw ]) h₂,
          saved,
          ap store (bind_known signing rest (w₁, s) access signed)
              ∙ ap store (bind_known (saving token) (answer access raw) (w₆, s) u kept),
        )

    -- The refresh token that a login hands out is refused by its first refresh: when the tokens of a
    -- login are issued over the Redis repository, with a save that is answered, a refresh with the
    -- refresh token of the answer, whose rotation is answered, reports a replay, if cjson decodes a
    -- JSON null to a value that is not nil, as it documents.
    pub refresh-issue_tokens :
        (user : User) (session : String) (ctx ctx' : AuditContext) (w : b.World) (s : r.Store)
        (pair : TokenPair)
        → decode_null ≡ some null
        → t.save_trip ≡ delivered
        → t.rotate_trip ≡ delivered
        → (issue_tokens backend cfg user session ctx (w, s)).0 ≡ ok pair
        → (refresh backend cfg pair.refresh_token ctx'
            (issue_tokens backend cfg user session ctx (w, s)).1).0
          ≡ err (domain err_replay_detected)
    refresh-issue_tokens user session ctx ctx' w s pair documented kept arrives h =
        let (token, same, saved, store) = issue_tokens-saved user session ctx w s pair h in
        let after = (issue_tokens backend cfg user session ctx (w, s)).1 in
        let to_delivered = λ (d : Delivery). save r decode_null hash d t.save_time token s in
        let replay =
          refresh-save t.save_time token ctx' after.0 s documented arrives
            (ap (λ (d : Delivery). (to_delivered d).0) (sym kept) ∙ saved) in
        let stores : (to_delivered delivered).1 ≡ after.1 =
          ap (λ (d : Delivery). (to_delivered d).1) (sym kept) ∙ sym store in
        subst
          (λ (raw : String).
            (refresh backend cfg raw ctx' after).0 ≡ err (domain err_replay_detected))
          same
          (subst
            (λ (u : r.Store).
              (refresh backend cfg token.token_raw ctx' (after.0, u)).0
              ≡ err (domain err_replay_detected))
            stores replay)

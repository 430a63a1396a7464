-- ===== src/Services/Auth/OverRedis/FirstLogin.antt =====
-- A whole login of auth_service.go over the Redis store of refresh tokens, and the refresh after it.
use nexora_core.Prelude.{
  ◌≡◌, refl, sym, ap, subst, ◌∙◌, String, Bool, true, false, Option, none, some,
}
use nexora_core.Domain.Errors.{domain, plain, Result, ok, err, err_replay_detected}
use nexora_core.Domain.User.{User}
use nexora_core.Redis.Client.{delivered, Action, pure}
use nexora_core.Redis.Tokens.Document.{Json, null}
use nexora_core.Redis.Tokens.Script.{TokenRedis, TokenLaws}
use nexora_core.Services.Auth.{AuthConfig, AuditContext, TokenPair, Backend}
use nexora_core.Services.Auth.Login.{
  LoginRequest, process_security_check, session_for, issue_tokens, or_cleanup, issue_or_roll_back,
  finalize_user_login, emit, login, or_fail,
}
use nexora_core.Services.Auth.Tokens.{refresh}
use nexora_core.Services.Auth.Steps.{ok-ne, bind_ok, bind_known}
use nexora_core.Services.Auth.OverRedis.{TokenTrips, over_redis}
use nexora_core.Services.Auth.OverRedis.FirstRefresh.{refresh-issue_tokens}

module _ (b : Backend) (cfg : AuthConfig) where
  -- The issue of tokens that an action ends with.
  abbrev Issued : User → AuditContext → TokenPair → b.World → Type 0
  Issued user ctx pair after =
      (session : String) × (w : b.World) × ((issue_tokens b cfg user session ctx w).0 ≡ ok pair)
      × (after ≡ (issue_tokens b cfg user session ctx w).1)

  kept :
      (session : String) (x : Result TokenPair) (w : b.World) (pair : TokenPair)
      → (or_cleanup b cfg session x w).0 ≡ ok pair
      → (x ≡ ok pair) × ((or_cleanup b cfg session x w).1 ≡ w)
  kept session (ok p) w pair h = (h, refl)
  kept session (err e) w pair h = absurd (ok-ne e pair h)

  finalize_user_login-Issued :
      (user : User) (ctx : AuditContext) (w : b.World) (pair : TokenPair)
      → (finalize_user_login b cfg user ctx w).0 ≡ ok pair
      → Issued user ctx pair (finalize_user_login b cfg user ctx w).1
  unfolding finalize_user_login
  finalize_user_login-Issued user ctx w pair h =
      let session = (b.new_uuid w).0 in
      let w₁ = (b.new_uuid w).1 in
      let w₂ = (b.now w₁).1 in
      let starting =
        or_fail (plain "infrastructure error: failed to start session")
          (b.start_session (session_for b cfg session user (b.now w₁).0)) in
      let rest : Unit {0} → Action b.World TokenPair =
        λ u. issue_or_roll_back b cfg user ctx session in
      let (u, started, h₁) = bind_ok starting rest w₂ pair h in
      let w₃ = (starting w₂).1 in
      let issued = issue_tokens b cfg user session ctx w₃ in
      let (e, same) = kept session issued.0 issued.1 pair h₁ in
      (
        session,
        w₃,
        e,
        ap (λ (p : Result TokenPair × b.World). p.1) (bind_known starting rest w₂ u started) ∙ same,
      )

  emit-Issued :
      (ctx : AuditContext) (x : User × Bool) (w : b.World) (pair : TokenPair)
      → (emit b cfg ctx x w).0 ≡ ok (some pair, false)
      → (user : User) × Issued user ctx pair (emit b cfg ctx x w).1
  emit-Issued ctx (user, true) w pair h =
      let second_factor : true ≡ false =
        ap (λ (x : Result (Option TokenPair × Bool)). elim x [ ok a ↦ a.1 | err e ↦ true ]) h in
      absurd (cc second_factor)
  emit-Issued ctx (user, false) w pair h =
      let done : TokenPair → Action b.World (Option TokenPair × Bool) =
        λ tokens. pure (some tokens, false) in
      let (tokens, e, h₁) =
        bind_ok (finalize_user_login b cfg user ctx) done w (some pair, false) h in
      let same : tokens ≡ pair =
        ap
          (λ (x : Result (Option TokenPair × Bool)). elim x [
            | ok a ↦ elim a.0 [ none ↦ tokens | some p ↦ p ]
            | err e ↦ tokens
          ])
          h₁ in
      let (session, w', issued, after) =
        finalize_user_login-Issued user ctx w pair (e ∙ ap (λ (p : TokenPair). ok p) same) in
      (
        user,
        (
          session,
          w',
          issued,
          ap (λ (p : Result (Option TokenPair × Bool) × b.World). p.1)
                (bind_known (finalize_user_login b cfg user ctx) done w tokens e)
              ∙ after,
        ),
      )

  login-Issued :
      (req : LoginRequest) (w : b.World) (pair : TokenPair)
      → (login b cfg req w).0 ≡ ok (some pair, false)
      → (user : User) × Issued user req.context pair (login b cfg req w).1
  unfolding login
  login-Issued req w pair h =
      let (x, e, h₁) =
        bind_ok (process_security_check b cfg req) (emit b cfg req.context) w (some pair, false)
          h in
      let (user, (session, w', issued, after)) =
        emit-Issued req.context x (process_security_check b cfg req w).1 pair h₁ in
      (
        user,
        (
          session,
          w',
          issued,
          ap (λ (p : Result (Option TokenPair × Bool) × b.World). p.1)
                (bind_known (process_security_check b cfg req) (emit b cfg req.context) w x e)
              ∙ after,
        ),
      )

module _ (r : TokenRedis) (laws : TokenLaws r) (decode_null : Option Json) (hash : String → String)
    (b : Backend) (cfg : AuthConfig) (t : TokenTrips) where
  -- Whoever logs in cannot refresh: when a login over the Redis repository of refresh tokens answers
  -- tokens, and the calls of the repository are answered, a refresh with the refresh token of that
  -- answer reports a replay, if cjson decodes a JSON null to a value that is not nil, as it documents.
  pub refresh-login :
      (req : LoginRequest) (ctx : AuditContext) (w : b.World) (s : r.Store) (pair : TokenPair)
      → decode_null ≡ some null
      → t.save_trip ≡ delivered
      → t.rotate_trip ≡ delivered
      → let service = over_redis r decode_null hash t b in
        let after = (login service cfg req (w, s)).1 in
        (login service cfg req (w, s)).0 ≡ ok (some pair, false)
        → (refresh service cfg pair.refresh_token ctx after).0 ≡ err (domain err_replay_detected)
  refresh-login req ctx w s pair documented saved arrives h =
      let service = over_redis r decode_null hash t b in
      let (user, (session, w', issued, same)) = login-Issued service cfg req (w, s) pair h in
      subst
        (λ (x : service.World).
          (refresh service cfg pair.refresh_token ctx x).0 ≡ err (domain err_replay_detected))
        (sym same)
        (refresh-issue_tokens r laws decode_null hash b cfg t user session req.context ctx w'.0 w'.1
          pair documented saved arrives issued)

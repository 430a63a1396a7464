-- ===== src/Services/Auth/Tokens.antt =====
-- internal/core/services/auth_service.go: validateToken, Logout, Refresh and CheckIntegrity.
use nexora_core.Prelude.{
  String, ◌<>◌, Bool, true, false, not, is_empty, [], ◌∷◌, str_eq, if◌then◌else◌,
}
use nexora_core.Prelude.Int.{◌+ℤ◌}
use nexora_core.Domain.Errors.{
  Error, domain, wrap, plain, Result, ok, err, is_error, error_text, err_invalid_token,
  err_replay_detected, err_invalid_refresh, err_invalid_credentials,
}
use nexora_core.Domain.User.{User}
use nexora_core.Redis.Client.{Action, pure, fail, ignore, attempt, ◌>>=◌, ◌>>◌}
use nexora_core.Redis.Tokens.Document.{RefreshToken}
use nexora_core.Services.Auth.{
  AuthConfig, AuditContext, words, flag, UserClaims, TokenPair, Backend, read, submit_audit,
}
use nexora_core.Services.Auth.Login.{generate_token, session_for, or_fail}

pub record LogoutRequest : Type 0 where
  pub access_token : String
  pub refresh_token : String
  pub context : AuditContext

abbrev pub system_tenant : String
system_tenant = "00000000-0000-0000-0000-000000000000"

-- `fmt.Errorf("%w: …", domain.ErrInvalidToken, …)`
abbrev pub invalid_token : String → Error
invalid_token reason = wrap "" (domain err_invalid_token) (": " <> reason)

module _ (b : Backend) (cfg : AuthConfig) where
  open b use {
    World, now, new_uuid, show_duration, get_by_id, start_session, terminate_session,
    rotate_refresh, revoke_refresh, user_health, session_health, refresh_health,
    current_private_key, parse_claims,
  }

  -- The checks after the parser.
  unfoldable pub check_claims : String → UserClaims × Bool → Result UserClaims
  check_claims expected (claims, valid) =
      if not valid
      then err (domain err_invalid_token)
      else if str_eq claims.issuer cfg.issuer
      then if str_eq claims.token_type expected
        then ok claims
        else err (
            invalid_token
              ("invalid token type (expected " <> expected <> ", got " <> claims.token_type <> ")"))
      else err (
          invalid_token
            ("invalid issuer (expected " <> cfg.issuer <> ", got " <> claims.issuer <> ")"))

  unfoldable pub validated : String → Result (UserClaims × Bool) → Result UserClaims
  validated expected (ok parsed) = check_claims expected parsed
  validated expected (err e) = err (invalid_token (error_text show_duration e))

  unfoldable pub validate_token : String → String → Action World UserClaims
  validate_token token expected w =
      let (parsed, w') = parse_claims token w in (validated expected parsed, w')

  -- `ValidateAccessToken`
  abbrev pub validate_access_token : String → Action World UserClaims
  validate_access_token token = validate_token token "access"

  -- The first part of `Logout`: what is known of the user, with the session ended.
  unfoldable pub end_session :
      AuditContext → Result UserClaims → Action World (String × String × String)
  end_session ctx (err e) = do
    submit_audit b "" "" "LOGOUT" "WARNING" ctx
        (("reason", words "invalid_or_expired_access_token") ∷ [])
    pure ("", "", "")
  end_session ctx (ok claims) = do
    ignore (terminate_session claims.jti)
    pure (claims.tenant_id, claims.user_id, claims.jti)

  unfoldable pub revoke_given : String → Action World (Unit {0})
  revoke_given token =
      if is_empty token
      then pure tt
      else or_fail (plain "infrastructure error: failed to revoke tokens") (revoke_refresh token)

  abbrev pub revoke_and_audit : LogoutRequest → String × String × String → Action World (Unit {0})
  revoke_and_audit req (tenant, user, session) = do
    revoke_given req.refresh_token
    submit_audit b tenant user "LOGOUT" "SUCCESS" req.context (
        ("session_id", words session)
        ∷ ("refresh_revoked", flag (not (is_empty req.refresh_token)))
        ∷ [])

  unfoldable pub logout : LogoutRequest → Action World (Unit {0})
  logout req = do
    claims ← attempt (validate_token req.access_token "access")
    known ← end_session req.context claims
    revoke_and_audit req known

  -- A rotation that failed: a replay keeps its name, every other error is an invalid token.
  unfoldable pub refuse_as : AuditContext → Error → Bool → Action World TokenPair
  refuse_as ctx e true = do
    submit_audit b system_tenant "" "REFRESH_REPLAY_DETECTED" "WARNING" ctx
        (("reason", words "token_already_used_replay_detected") ∷ [])
    fail (domain err_replay_detected)
  refuse_as ctx e false = do
    submit_audit b system_tenant "" "REFRESH_FAILED" "FAILURE" ctx
        (("reason", words (error_text show_duration e)) ∷ [])
    fail (domain err_invalid_refresh)

  abbrev pub refuse_refresh : AuditContext → Error → Action World TokenPair
  refuse_refresh ctx e = refuse_as ctx e (is_error e err_replay_detected)

  unfoldable pub answer_tokens :
      AuditContext → RefreshToken → User → String → Action World TokenPair
  answer_tokens ctx rec user access = do
    submit_audit b user.tenant_id user.id "REFRESH_SUCCESS" "SUCCESS" ctx
        (("family_id", words rec.family_id) ∷ [])
    end ← read now
    pure (record {
      access_token = access;
      refresh_token = rec.token_raw;
      expires_at = end +ℤ cfg.access_token_ttl;
    })

  abbrev pub unsigned : Error
  unsigned = plain "security error: failed to generate access token"

  abbrev pub sign_and_answer :
      AuditContext → RefreshToken → User → String → b.World → Result TokenPair × b.World
  sign_and_answer ctx rec user session = do
    (key, kid) ← read current_private_key
    access ←
        or_fail unsigned (generate_token b cfg key kid "access" user session cfg.access_token_ttl)
    answer_tokens ctx rec user access

  unfoldable pub renew : AuditContext → RefreshToken → User → Action World TokenPair
  renew ctx rec user = do
    session ← read new_uuid
    t ← read now
    ignore (start_session (session_for b cfg session user t))
    sign_and_answer ctx rec user session

  unfoldable pub after_rotation : AuditContext → Result RefreshToken → Action World TokenPair
  after_rotation ctx (err e) = refuse_refresh ctx e
  after_rotation ctx (ok rec) = do
    user ← or_fail (domain err_invalid_credentials) (get_by_id rec.user_id)
    renew ctx rec user

  unfoldable pub refresh : String → AuditContext → Action World TokenPair
  refresh raw ctx = do
    t ← read now
    rotated ← attempt (rotate_refresh raw t ctx)
    after_rotation ctx rotated

  abbrev prefixed : String → Action World (Unit {0}) → Action World (Unit {0})
  prefixed text m w = let (r, t) = m w in (elim r [ ok a ↦ ok a | err e ↦ err (wrap text e "") ], t)

  unfoldable pub check_integrity : Action World (Unit {0})
  check_integrity = do
    prefixed "user_repository_unreachable: " user_health
    prefixed "session_repository_unreachable: " session_health
    prefixed "refresh_repository_unreachable: " refresh_health

-- ===== src/Services/Auth/Login.antt =====
-- internal/core/services/auth_service.go: Login with its security checks, VerifyMFA, and the
-- session and tokens that end a login.
use nexora_core.Prelude.{
  ℕ, String, ◌<>◌, Bool, true, false, ◌||◌, Option, none, some, [], ◌∷◌, if◌then◌else◌,
}
use nexora_core.Prelude.Int.{ℤ, pos, leb_ℤ, ◌+ℤ◌}
use nexora_core.Domain.Errors.{
  Error, domain, rate_limit, plain, Result, ok, err, err_account_locked, err_invalid_credentials,
  err_invalid_otp,
}
use nexora_core.Domain.Session.{ActiveSession, new_active_session}
use nexora_core.Domain.User.{User, can_authenticate}
use nexora_core.Redis.Client.{Action, pure, fail, ignore, attempt, ◌>>=◌, ◌>>◌}
use nexora_core.Redis.Tokens.Document.{RefreshToken}
use nexora_core.Services.Auth.{
  AuthConfig, AuditContext, words, number, flag, score, TokenPair, Backend, is_risky, whole_seconds,
  read, submit_audit,
}

pub record LoginRequest : Type 0 where
  pub tenant_id : String
  pub username : String
  pub password : String
  pub context : AuditContext

-- The `int64` answer that is 0 with an error.
abbrev or_none_counted : Result ℕ → ℕ
or_none_counted (ok n) = n
or_none_counted (err e) = 0

-- Another error in the place of the one that came.
abbrev pub or_fail : {W A : Type 0} → Error → Action W A → Action W A
or_fail e m w = let (r, t) = m w in (elim r [ ok a ↦ ok a | err x ↦ err e ], t)

module _ (b : Backend) (cfg : AuthConfig) where
  open b use {
    World, Score, Key, now, new_uuid, lower, trim_space, password_matches, get_by_username,
    start_session, terminate_session, is_locked, record_failed_attempt, clear_attempts,
    save_refresh, compute_risk, send_otp, verify_otp, current_private_key, sign,
  }

  abbrev pub refuse_locked : String → AuditContext → Bool × ℤ → Action World (Unit {0})
  refuse_locked tenant ctx (true, remaining) = do
    submit_audit b tenant "" "LOGIN_FAILED" "WARNING" ctx (
        ("reason", words "account_locked")
        ∷ ("retry_after_sec", number (whole_seconds remaining))
        ∷ [])
    fail (rate_limit (domain err_account_locked) remaining)
  refuse_locked tenant ctx (false, remaining) = pure tt

  unfoldable pub enforce_lockout_policy : String → String → AuditContext → Action World (Unit {0})
  enforce_lockout_policy tenant key ctx = do
    lock ← or_fail (plain "infrastructure error: protection check failed") (is_locked key)
    refuse_locked tenant ctx lock

  -- The method returns the error that the caller fails with.
  unfoldable pub handle_auth_failure :
      {A : Type 0} → String → String → String → String → AuditContext → Action World A
  handle_auth_failure tenant key user reason ctx = do
    answer ← attempt (record_failed_attempt key)
    let attempts = pos (or_none_counted answer)
    let metadata = ("reason", words reason) ∷ ("attempts", number attempts) ∷ []
    if leb_ℤ cfg.max_failed_attempts attempts
        then (do
          submit_audit b tenant user "ACCOUNT_LOCKED" "WARNING" ctx metadata
          fail (domain err_account_locked))
        else (do
          submit_audit b tenant user "LOGIN_FAILED" "FAILURE" ctx metadata
          fail (domain err_invalid_credentials))

  abbrev pub bf_key : LoginRequest → String
  bf_key req = req.tenant_id <> ":" <> lower (trim_space req.username)

  -- The end of `processSecurityCheck`: is a second factor required?
  unfoldable pub check_mfa : LoginRequest → User → Score → Action World (User × Bool)
  check_mfa req user risk =
      if user.mfa_enabled || is_risky b risk
      then (do
        ignore (send_otp user "email")
        submit_audit b req.tenant_id user.id "MFA_CHALLENGE_SENT" "SUCCESS" req.context
            (("risk_score", score risk) ∷ ("forced_by_user", flag user.mfa_enabled) ∷ [])
        pure (user, true))
      else pure (user, false)

  unfoldable pub after_password : LoginRequest → User → Action World (User × Bool)
  after_password req user = do
    ignore (clear_attempts (bf_key req))
    risk ← read (compute_risk user req.context)
    check_mfa req user risk

  unfoldable pub by_password : LoginRequest → User → Bool → Action World (User × Bool)
  by_password req user true = after_password req user
  by_password req user false =
      handle_auth_failure req.tenant_id (bf_key req) user.id "invalid_password" req.context

  unfoldable pub check_password : LoginRequest → User → Option Error → Action World (User × Bool)
  check_password req user (some e) = do
    submit_audit b req.tenant_id user.id "LOGIN_FAILED" "FAILURE" req.context
        (("reason", words "account_inactive") ∷ [])
    fail e
  check_password req user none =
      by_password req user (password_matches user.password_hash req.password)

  unfoldable pub check_account : LoginRequest → Result User → Action World (User × Bool)
  check_account req (err e) =
      handle_auth_failure req.tenant_id (bf_key req) "" "user_not_found" req.context
  check_account req (ok user) = do t ← read now; check_password req user (can_authenticate t user)

  unfoldable pub process_security_check : LoginRequest → Action World (User × Bool)
  process_security_check req = do
    enforce_lockout_policy req.tenant_id (bf_key req) req.context
    found ← attempt (get_by_username req.tenant_id req.username)
    check_account req found

  unfoldable pub generate_token :
      Option Key → String → String → User → String → ℤ → Action World String
  generate_token key kid token_type user session duration = do
    t ← read now
    λ w. (
      sign key kid (record {
        jti = session;
        user_id = user.id;
        tenant_id = user.tenant_id;
        role = user.role;
        username = user.username;
        token_type = token_type;
        registered_id = session;
        subject = user.username;
        issuer = cfg.issuer;
        issued_at = t;
        expires_at = t +ℤ duration;
        not_before = t;
      }),
      w,
    )

  -- The session that every login, MFA and refresh opens.
  unfoldable pub session_for : String → User → ℤ → ActiveSession
  session_for session user t =
      new_active_session session user.id cfg.default_client_type none
        (record {
          data_quota = user.data_quota;
          max_upload = 0;
          max_download = 0;
          time_quota = pos 0;
        })
        cfg.access_token_ttl t

  abbrev pub family_token : String → String → User → ℤ → ℤ → RefreshToken
  family_token raw family user t t' = record {
    id = raw;
    family_id = family;
    user_id = user.id;
    tenant_id = user.tenant_id;
    token_hash = "";
    token_raw = raw;
    parent_id = none;
    expires_at = t +ℤ cfg.refresh_token_ttl;
    created_at = t';
    used_at = none;
    revoked_at = none;
  }

  -- The part of `finalizeUserLogin` that the rollback guards.
  unfoldable pub issue_tokens : User → String → AuditContext → Action World TokenPair
  issue_tokens user session ctx = do
    (key, kid) ← read current_private_key
    access ←
        or_fail (plain "security error: failed to generate access token")
          (generate_token key kid "access" user session cfg.access_token_ttl)
    raw ← read new_uuid
    family ← read new_uuid
    t ← read now
    t' ← read now
    or_fail (plain "infrastructure error: failed to persist refresh token")
        (save_refresh (family_token raw family user t t'))
    submit_audit b user.tenant_id user.id "LOGIN_SUCCESS" "SUCCESS" ctx
        (("session_id", words session) ∷ [])
    end ← read now
    pure (record {
      access_token = access;
      refresh_token = raw;
      expires_at = end +ℤ cfg.access_token_ttl;
    })

  -- The deferred `cleanupSessionOnError`.
  abbrev pub or_cleanup : {A : Type 0} → String → Result A → Action World A
  or_cleanup session (ok a) = pure a
  or_cleanup session (err e) = do ignore (terminate_session session); fail e

  abbrev pub issue_or_roll_back : User → AuditContext → String → Action World TokenPair
  issue_or_roll_back user ctx session = do
    issued ← attempt (issue_tokens user session ctx)
    or_cleanup session issued

  abbrev pub start_and_issue : User → AuditContext → String → ℤ → Action World TokenPair
  start_and_issue user ctx session t = do
    or_fail (plain "infrastructure error: failed to start session")
        (start_session (session_for session user t))
    issue_or_roll_back user ctx session

  unfoldable pub finalize_user_login : User → AuditContext → Action World TokenPair
  finalize_user_login user ctx = do
    session ← read new_uuid
    t ← read now
    start_and_issue user ctx session t

  -- `nil, true, nil` when a second factor is required.
  abbrev pub emit : AuditContext → User × Bool → Action World (Option TokenPair × Bool)
  emit ctx (user, true) = pure (none, true)
  emit ctx (user, false) = do tokens ← finalize_user_login user ctx; pure (some tokens, false)

  unfoldable pub login : LoginRequest → Action World (Option TokenPair × Bool)
  login req = do checked ← process_security_check req; emit req.context checked

  -- `accessToken, _ :=` : an empty text when the signature fails.
  abbrev pub or_blank : Result String → String
  or_blank (ok t) = t
  or_blank (err e) = ""

  unfoldable pub mfa_tokens : User → AuditContext → Action World TokenPair
  mfa_tokens user ctx = do
    session ← read new_uuid
    t ← read now
    ignore (start_session (session_for session user t))
    (key, kid) ← read current_private_key
    access ← attempt (generate_token key kid "access" user session cfg.access_token_ttl)
    refresh ← attempt (generate_token key kid "refresh" user session cfg.refresh_token_ttl)
    submit_audit b user.tenant_id user.id "MFA_SUCCESS" "SUCCESS" ctx []
    end ← read now
    pure (record {
      access_token = or_blank access;
      refresh_token = or_blank refresh;
      expires_at = end +ℤ cfg.access_token_ttl;
    })

  unfoldable pub verify_mfa : User → String → AuditContext → Action World TokenPair
  verify_mfa user code ctx = do
    valid ← read (verify_otp user code)
    if valid then mfa_tokens user ctx else (do
      submit_audit b user.tenant_id user.id "MFA_FAILED" "FAILURE" ctx []
      fail (domain err_invalid_otp))

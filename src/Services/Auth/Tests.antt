-- ===== src/Services/Auth/Tests.antt =====
-- Runs of auth_service.go on ports whose world is a clock that every reading moves.
use nexora_core.Prelude.{
  ℕ, suc, ◌+◌, ◌≡◌, ◌≢◌, ◌↔◌, ◌⊎◌, String, ◌<>◌, true, false, some, none, str_eq, refl, leb,
  if◌then◌else◌,
}
use nexora_core.Prelude.Int.{ℤ, pos, ◌+ℤ◌}
use nexora_core.Domain.Errors.{Error, Result, ok, err, plain, domain, is_error, err_replay_detected}
use nexora_core.Domain.User.{User, can_authenticate, is_expired}
use nexora_core.Redis.Tokens.Document.{RefreshToken}
use nexora_core.Services.Auth.{AuthConfig, AuditContext, TokenPair, Backend, submit_audit}
use nexora_core.Services.Auth.Login.{
  LoginRequest, bf_key, login, process_security_check, enforce_lockout_policy, check_account,
  check_password, by_password, after_password, check_mfa, session_for, issue_tokens,
  finalize_user_login, generate_token,
}
use nexora_core.Services.Auth.Tokens.{
  LogoutRequest, validate_token, end_session, logout, refresh, after_rotation, renew, answer_tokens,
}
use nexora_core.Services.Auth.Checked.{Passed, login-checked, finalize_user_login-rollback}
use nexora_core.Services.Auth.Refreshing.{refresh-replay_iff, refresh-rotated}
use nexora_core.Services.Auth.Leaving.{logout-revoked_iff}

abbrev pub user : User
user = record {
  id = "u1";
  username = "awa";
  email = "awa@example.org";
  password_hash = "h";
  mac = none;
  role = "user";
  tenant_id = "t1";
  active = true;
  expired_at = none;
  max_sessions = pos 2;
  data_quota = 100;
  used_data = 0;
  version = 1;
  created_at = pos 5;
  updated_at = pos 5;
  mfa_enabled = false;
}

abbrev rotated_token : RefreshToken
rotated_token = record {
  id = "b";
  family_id = "f";
  user_id = "u1";
  tenant_id = "t1";
  token_hash = "";
  token_raw = "b";
  parent_id = none;
  expires_at = pos 600;
  created_at = pos 0;
  used_at = none;
  revoked_at = none;
}

-- A save that fails shows the rollback; the other ports work.
abbrev backend : Result (Unit {0}) → Backend
backend saved = record {
  World = ℕ;
  Score = ℕ;
  Key = String;
  now = λ w. (pos w, suc w);
  new_uuid = λ w. ("uuid", suc w);
  show_duration = λ d. "";
  lower = λ t. t;
  trim_space = λ t. t;
  password_matches = λ h p. str_eq h p;
  mfa_by_risk_threshold = 7;
  is_at_least = λ s t. leb t s;
  get_by_username = λ t u w. (ok user, w);
  get_by_id = λ i w. (ok user, w);
  start_session = λ s w. (ok tt, suc w);
  terminate_session = λ i w. (ok tt, 1000 + w);
  is_locked = λ k w. (ok (false, pos 0), w);
  record_failed_attempt = λ k w. (ok 1, w);
  clear_attempts = λ k w. (ok tt, w);
  save_refresh = λ t w. (saved, w);
  rotate_refresh = λ r t c w.
      (if str_eq r "used" then err (domain err_replay_detected) else ok rotated_token, suc w);
  revoke_refresh = λ r w. (ok tt, w);
  user_health = λ w. (ok tt, w);
  session_health = λ w. (ok tt, w);
  refresh_health = λ w. (ok tt, w);
  compute_risk = λ u c w. (0, w);
  send_otp = λ u m w. (ok tt, w);
  verify_otp = λ u c w. (str_eq c "123456", w);
  submit = λ a w. w;
  current_private_key = λ w. ((some "key", "kid"), w);
  sign = λ k i c. ok (c.token_type <> c.jti);
  parse_claims = λ t w. (err (plain "malformed"), w);
}

abbrev pub good : Backend
good = backend (ok tt)

abbrev broken : Backend
broken = backend (err (plain "redis down"))

abbrev pub cfg : AuthConfig
cfg = record {
  issuer = "nexora-core";
  max_failed_attempts = pos 5;
  default_client_type = "api-gateway";
  access_token_ttl = pos 900;
  refresh_token_ttl = pos 604800;
}

abbrev pub context : AuditContext
context = record { ip_address = "10.0.0.9"; user_agent = "curl"; device_id = "d"; trace_id = "x" }

abbrev pub request : LoginRequest
request = record { tenant_id = "t1"; username = "awa"; password = "h"; context = context }

abbrev pub issued : TokenPair
issued = record { access_token = "accessuuid"; refresh_token = "uuid"; expires_at = pos 910 }

logged_in : (login good cfg request 0).0 ≡ ok (some issued, false)
unfolding login process_security_check enforce_lockout_policy check_account check_password
    by_password after_password check_mfa finalize_user_login issue_tokens generate_token session_for
    submit_audit can_authenticate is_expired ◌+ℤ◌
logged_in = refl

login-checked_example :
    let w₁ = (good.is_locked (bf_key good cfg request) 0).1 in
    let found = good.get_by_username "t1" "awa" w₁ in
    (false ≡ false)
    × ((user : User) × (d : ℤ) × ((good.is_locked (bf_key good cfg request) 0).0 ≡ ok (false, d))
        × (found.0 ≡ ok user)
        × Passed good cfg request user found.1)
login-checked_example = login-checked good cfg request issued false 0 logged_in

rolled_back :
    (finalize_user_login broken cfg user context 0).0
    ≡ err (plain "infrastructure error: failed to persist refresh token")
unfolding finalize_user_login issue_tokens generate_token session_for submit_audit
rolled_back = refl

finalize_user_login-rollback_example :
    let started = broken.start_session (session_for broken cfg "uuid" user (pos 1)) 2 in
    let issuing = issue_tokens broken cfg user "uuid" context started.1 in
    ((started.0 ≢ ok tt) × ((finalize_user_login broken cfg user context 0).1 ≡ started.1))
    ⊎ ((finalize_user_login broken cfg user context 0).1
        ≡ (broken.terminate_session "uuid" issuing.1).1)
finalize_user_login-rollback_example =
    finalize_user_login-rollback broken cfg user context
      (plain "infrastructure error: failed to persist refresh token") 0 rolled_back

refresh-replay_iff_example :
    ((refresh good cfg "used" context 0).0 ≡ err (domain err_replay_detected)) ↔ (
      (e : Error) × ((good.rotate_refresh "used" (pos 0) context 1).0 ≡ err e)
      × (is_error e err_replay_detected ≡ true))
refresh-replay_iff_example = refresh-replay_iff good cfg "used" context 0

abbrev renewed : TokenPair
renewed = record { access_token = "accessuuid"; refresh_token = "b"; expires_at = pos 907 }

refreshed : (refresh good cfg "a" context 0).0 ≡ ok renewed
unfolding refresh after_rotation renew answer_tokens generate_token session_for submit_audit ◌+ℤ◌
refreshed = refl

refresh-rotated_example :
    let rotated = good.rotate_refresh "a" (pos 0) context 1 in
    (rec : RefreshToken) × (rotated.0 ≡ ok rec)
    × ((user : User) × ((good.get_by_id rec.user_id rotated.1).0 ≡ ok user))
    × ("b" ≡ rec.token_raw)
refresh-rotated_example = refresh-rotated good cfg "a" context renewed 0 refreshed

abbrev goodbye : LogoutRequest
goodbye = record { access_token = "old"; refresh_token = "b"; context = context }

logout-revoked_iff_example :
    let (claims, w₁) = validate_token good cfg "old" "access" 0 in
    let w₂ = (end_session good cfg context claims w₁).1 in
    ((logout good cfg goodbye 0).0 ≡ ok tt) ↔ ((good.revoke_refresh "b" w₂).0 ≡ ok tt)
logout-revoked_iff_example = logout-revoked_iff good cfg goodbye 0 refl

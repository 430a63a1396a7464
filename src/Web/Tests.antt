-- ===== src/Web/Tests.antt =====
-- Answers of auth_handler.go on ports that refuse every call but the rotation, which finds a replay.
use nexora_core.Prelude.{ℕ, ◌≡◌, String, false, leb, none, refl}
use nexora_core.Prelude.Int.{pos}
use nexora_core.Domain.Errors.{
  err, plain, domain, err_replay_detected, err_user_expired, is_error, error_text,
}
use nexora_core.Redis.Tokens.Repository.{has_part}
use nexora_core.Services.Auth.{AuthConfig, AuditContext, Backend}
use nexora_core.Web.{handle_auth_error, handle_refresh}
use nexora_core.Web.Answers.{handle_refresh-replay}

abbrev refusing : Backend
refusing = record {
  World = ℕ;
  Score = ℕ;
  Key = String;
  now = λ w. (pos w, w);
  new_uuid = λ w. ("uuid", w);
  show_duration = λ d. "";
  lower = λ t. t;
  trim_space = λ t. t;
  password_matches = λ h p. false;
  mfa_by_risk_threshold = 7;
  is_at_least = λ s t. leb t s;
  get_by_username = λ t u w. (err (plain "down"), w);
  get_by_id = λ i w. (err (plain "down"), w);
  start_session = λ s w. (err (plain "down"), w);
  terminate_session = λ i w. (err (plain "down"), w);
  is_locked = λ k w. (err (plain "down"), w);
  record_failed_attempt = λ k w. (err (plain "down"), w);
  clear_attempts = λ k w. (err (plain "down"), w);
  save_refresh = λ t w. (err (plain "down"), w);
  rotate_refresh = λ r t c w. (err (domain err_replay_detected), w);
  revoke_refresh = λ r w. (err (plain "down"), w);
  user_health = λ w. (err (plain "down"), w);
  session_health = λ w. (err (plain "down"), w);
  refresh_health = λ w. (err (plain "down"), w);
  compute_risk = λ u c w. (0, w);
  send_otp = λ u m w. (err (plain "down"), w);
  verify_otp = λ u c w. (false, w);
  submit = λ a w. w;
  current_private_key = λ w. ((none, ""), w);
  sign = λ k i c. err (plain "no key");
  parse_claims = λ t w. (err (plain "malformed"), w);
}

abbrev cfg : AuthConfig
cfg = record {
  issuer = "nexora-core";
  max_failed_attempts = pos 5;
  default_client_type = "api-gateway";
  access_token_ttl = pos 900;
  refresh_token_ttl = pos 604800;
}

abbrev context : AuditContext
context = record { ip_address = "10.0.0.9"; user_agent = "curl"; device_id = "d"; trace_id = "x" }

expired_account : (handle_auth_error (λ d. "") (domain err_user_expired)).status ≡ 403
unfolding handle_auth_error is_error has_part error_text
expired_account = refl

handle_refresh-replay_example : (handle_refresh refusing cfg "a" context 0).0.status ≡ 500
unfolding is_error
handle_refresh-replay_example =
    handle_refresh-replay refusing cfg "a" context 0 (domain err_replay_detected) refl refl refl

-- ===== src/Web.antt =====
-- internal/adapters/primary/web/handlers/auth_handler.go: the answers of the authentication routes
-- to requests whose JSON was read and whose client context was extracted. The reading of JSON and
-- the texts of the answers are not modelled. The children model the middlewares, the routes and
-- the audit handler.
pub mod Answers
pub mod Http
pub mod Limiter
pub mod Guards
pub mod Jwks
pub mod Logs
pub mod Routes
mod Tests
use nexora_core.Prelude.{
  ℕ, suc, ◌+◌, ◌-◌, ◌*◌, ◌/◌, ◌%◌, ◌^◌, String, Bool, true, false, ◌||◌, is_empty, Option, none,
  some, ltb, leb, if◌then◌else◌,
}
use nexora_core.Prelude.Int.{ℤ, pos, negsuc}
use nexora_core.Domain.Errors.{
  Error, Result, ok, err, is_error, as_rate_limit, error_text, err_invalid_credentials,
  err_invalid_refresh, err_account_locked, err_user_expired,
}
use nexora_core.Domain.User.{User}
use nexora_core.Redis.Client.{Action, attempt, ◌>>=◌}
use nexora_core.Redis.Tokens.Repository.{has_part}
use nexora_core.Services.Auth.{AuthConfig, AuditContext, TokenPair, Backend}
use nexora_core.Services.Auth.Login.{LoginRequest, login, verify_mfa}
use nexora_core.Services.Auth.Tokens.{LogoutRequest, logout, refresh}

-- The status, the header Retry-After and the tokens in the body.
pub record Response : Type 0 where
  pub status : ℕ
  pub retry_after : Option ℕ
  pub tokens : Option TokenPair

abbrev pub only : ℕ → Response
only status = record { status = status; retry_after = none; tokens = none }

abbrev pub with_tokens : TokenPair → Response
with_tokens pair = record (only 200) { tokens = some pair }

abbrev pub second : ℕ
second = 1000000000

-- `int(d.Round(time.Second).Seconds())` of a positive duration; a round past the last duration
-- stays there.
unfoldable pub rounded_seconds : ℕ → ℕ
rounded_seconds d =
    let up = d / second + 1 in
    if ltb (d % second + d % second) second
    then d / second
    else if ltb (up * second) (2 ^ 63)
    then up
    else (2 ^ 63 - 1) / second

-- The header of an account that is locked.
unfoldable pub retry_after_of : Option ℤ → Option ℕ
retry_after_of none = none
retry_after_of (some (negsuc n)) = none
retry_after_of (some (pos n)) =
    let s = rounded_seconds n in if leb n 0 then none else some (if ltb s 1 then 1 else s)

-- The first case of `handleAuthError`.
abbrev is_unauthorized : (ℤ → String) → Error → Bool
is_unauthorized show e =
    is_error e err_invalid_credentials
    || (is_error e err_invalid_refresh
        || (has_part (error_text show e) "REPLAY_DETECTED"
            || has_part (error_text show e) "TOKEN_NOT_FOUND"))

unfoldable pub handle_auth_error : (ℤ → String) → Error → Response
handle_auth_error show e =
    if is_unauthorized show e
    then only 401
    else if is_error e err_account_locked
    then record (only 429) { retry_after = retry_after_of (as_rate_limit e) }
    else if is_error e err_user_expired
    then only 403
    else only 500

module _ (b : Backend) (cfg : AuthConfig) where
  open b use {World, show_duration, trim_space, get_by_username}

  unfoldable pub login_response : Result (Option TokenPair × Bool) → Response
  login_response (err e) = handle_auth_error show_duration e
  login_response (ok (found, true)) = only 202
  login_response (ok (none, false)) = only 500
  login_response (ok (some pair, false)) = with_tokens pair

  unfoldable pub handle_login : LoginRequest → World → Response × World
  handle_login req w =
      if is_empty (trim_space req.tenant_id)
        || (is_empty (trim_space req.username) || is_empty req.password)
      then (only 400, w)
      else let (r, t) = login b cfg req w in (login_response r, t)

  unfoldable pub refresh_response : Result TokenPair → Response
  refresh_response (err e) = handle_auth_error show_duration e
  refresh_response (ok pair) = with_tokens pair

  unfoldable pub handle_refresh : String → AuditContext → World → Response × World
  handle_refresh raw ctx w =
      if is_empty (trim_space raw)
      then (only 400, w)
      else let (r, t) = refresh b cfg raw ctx w in (refresh_response r, t)

  abbrev mfa_response : Result TokenPair → Response
  mfa_response (err e) = only 401
  mfa_response (ok pair) = with_tokens pair

  -- The user is looked up by name; the first factor is not asked for again.
  unfoldable pub handle_verify_mfa :
      String → String → String → AuditContext → World → Response × World
  handle_verify_mfa tenant username code ctx w =
      let (found, t) = get_by_username tenant username w in
      elim found [
        | err e ↦ (only 401, t)
        | ok user ↦ let (r, u) = verify_mfa b cfg user code ctx t in (mfa_response r, u)
      ]

  abbrev logout_response : Result (Unit {0}) → Response
  logout_response (err e) = only 401
  logout_response (ok u) = only 200

  unfoldable pub handle_logout : LogoutRequest → World → Response × World
  handle_logout req w = let (r, t) = logout b cfg req w in (logout_response r, t)

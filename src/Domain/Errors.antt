-- ===== src/Domain/Errors.antt =====
-- internal/core/domain/errors.go: error codes, domain errors, wrapped errors and `errors.Is`.
-- A Go `error` that may be nil is an `Option Error`. `wrap a e b` is `fmt.Errorf` with one `%w`:
-- the text `a`, the wrapped error, the text `b`.
use nexora_core.Prelude.{
  String, ◌<>◌, Bool, false, Option, none, some, str_eq, ◌≡◌, ◌≢◌, ap, eq_iff,
}
use nexora_core.Prelude.Int.{ℤ}

abbrev pub ErrorCode : Type 0
ErrorCode = String

pub record DomainError : Type 0 where
  pub code : ErrorCode
  pub message : String

pub data Error : Type 0 where
  domain : DomainError → Error
  rate_limit : Error → ℤ → Error
  wrap : String → Error → String → Error
  plain : String → Error

pub data Result {ℓ} (A : Type ℓ) : Type ℓ where
  ok : A → Result A
  err : Error → Result A

infixl 5 ◌>>=◌
abbrev pub ◌>>=◌ {ℓ κ} : {A : Type ℓ} {B : Type κ} → Result A → (A → Result B) → Result B
ok a >>= f = f a
err e >>= f = err e

abbrev pub guard : Bool → Error → Result (Unit {0})
guard b e = elim b [ Bool.true ↦ ok tt | Bool.false ↦ err e ]

-- `(e *DomainError) Is` at the ends of the chain that `errors.Is` unwraps.
unfoldable pub is_error : Error → DomainError → Bool
is_error (domain e) t = str_eq e.code t.code
is_error (rate_limit e d) t = is_error e t
is_error (wrap a e b) t = is_error e t
is_error (plain m) t = false

-- `errors.As(err, &rl)` with a `*RateLimitError`: the first one in the chain.
unfoldable pub as_rate_limit : Error → Option ℤ
as_rate_limit (domain e) = none
as_rate_limit (rate_limit e d) = some d
as_rate_limit (wrap a e b) = as_rate_limit e
as_rate_limit (plain m) = none

-- `err.Error()`, with the printing of a `time.Duration` as a parameter.
unfoldable pub error_text : (ℤ → String) → Error → String
error_text show (domain e) = e.message
error_text show (rate_limit e d) = error_text show e <> " (retry_after=" <> show d <> ")"
error_text show (wrap a e b) = a <> error_text show e <> b
error_text show (plain m) = m

-- `Wrap(err, message)`
unfoldable pub wrap_error : Option Error → String → Option Error
wrap_error none message = none
wrap_error (some e) message = some (wrap (message <> ": ") e "")

abbrev pub new_error : ErrorCode → String → DomainError
new_error code message = record { code = code; message = message }

abbrev pub err_invalid_user_id : DomainError
err_invalid_user_id = new_error "INVALID_USER_ID" "invalid user id"

abbrev pub err_invalid_tenant_id : DomainError
err_invalid_tenant_id = new_error "INVALID_TENANT_ID" "invalid tenant id"

abbrev pub err_user_not_found : DomainError
err_user_not_found = new_error "USER_NOT_FOUND" "user not found"

abbrev pub err_invalid_email : DomainError
err_invalid_email = new_error "INVALID_EMAIL" "invalid email"

abbrev pub err_invalid_username : DomainError
err_invalid_username = new_error "INVALID_USERNAME" "invalid username"

abbrev pub err_invalid_mac : DomainError
err_invalid_mac = new_error "INVALID_MAC" "invalid mac address"

abbrev pub err_invalid_plan_id : DomainError
err_invalid_plan_id = new_error "INVALID_PLAN_ID" "invalid plan id"

abbrev pub err_invalid_nas_id : DomainError
err_invalid_nas_id = new_error "INVALID_NAS_ID" "invalid nas id"

abbrev pub err_invalid_session_id : DomainError
err_invalid_session_id = new_error "INVALID_SESSION_ID" "invalid session id"

abbrev pub err_invalid_password_hash : DomainError
err_invalid_password_hash = new_error "INVALID_PASSWORD_HASH" "invalid password hash"

abbrev pub err_invalid_tenant_type : DomainError
err_invalid_tenant_type = new_error "INVALID_TENANT_TYPE" "invalid tenant type"

abbrev pub err_invalid_hierarchy : DomainError
err_invalid_hierarchy = new_error "TENANT_HIERARCHY_VIOLATION" "tenant hierarchy violation"

abbrev pub err_user_inactive : DomainError
err_user_inactive = new_error "USER_INACTIVE" "user inactive"

abbrev pub err_user_expired : DomainError
err_user_expired = new_error "USER_EXPIRED" "user expired"

abbrev pub err_quota_exceeded : DomainError
err_quota_exceeded = new_error "QUOTA_EXCEEDED" "data quota exceeded"

abbrev pub err_session_expired : DomainError
err_session_expired = new_error "SESSION_EXPIRED" "session expired"

abbrev pub err_invalid_otp : DomainError
err_invalid_otp = new_error "AUTH_INVALID_OTP" "code OTP invalide"

abbrev pub err_invalid_refresh : DomainError
err_invalid_refresh = new_error "AUTH_INVALID_REFRESH" "refresh token invalide ou expiré"

abbrev pub err_replay_detected : DomainError
err_replay_detected = new_error "AUTH_REPLAY_DETECTED" "rejeu de token détecté : faille de sécurité"

abbrev pub err_invalid_token : DomainError
err_invalid_token = new_error "AUTH_INVALID_TOKEN" "token invalide ou malformé"

abbrev pub err_account_locked : DomainError
err_account_locked =
    new_error "ACCOUNT_LOCKED" "compte temporairement bloqué suite à trop d'échecs "

abbrev pub err_invalid_credentials : DomainError
err_invalid_credentials = new_error "INVALID_CREDENTIALS" "identifiants invalides"

-- The code that `errors.Is` compares at the head of an error.
abbrev pub code_of : Error → ErrorCode
code_of (domain e) = e.code
code_of _ = ""

-- Errors with different codes are different.
pub domain-ne : (a b : Error) → str_eq (code_of a) (code_of b) ≡ false → a ≢ b
domain-ne a b h e = cc (h, (eq_iff (code_of a) (code_of b)).1 (ap code_of e))

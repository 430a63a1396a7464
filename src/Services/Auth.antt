-- ===== src/Services/Auth.antt =====
-- internal/core/services/auth_service.go: logins, MFA, logout and the rotation of refresh tokens.
-- The ports of internal/core/ports, the clock, UUIDs, bcrypt, the JWT library and the queue of the
-- audit workers are the parameter `Backend`; a call of a port is an action on its world that may
-- fail. Log lines are left out.
pub mod Login
pub mod Tokens
pub mod Checked
pub mod Steps
pub mod Refreshing
pub mod Leaving
pub mod Pool
pub mod OverRedis
mod Tests
use nexora_core.Prelude.{ℕ, suc, ◌/◌, String, Bool, Option, some, none, List, [], ◌∷◌, Dict, insert}
use nexora_core.Prelude.Int.{ℤ, pos, negsuc, sub_ℕ}
use nexora_core.Domain.Errors.{Result, ok, err}
use nexora_core.Domain.Session.{ActiveSession}
use nexora_core.Domain.User.{User}
use nexora_core.Redis.Client.{Action, ◌>>=◌}
use nexora_core.Redis.Tokens.Document.{RefreshToken}

pub record AuthConfig : Type 0 where
  pub issuer : String
  pub max_failed_attempts : ℤ
  pub default_client_type : String
  pub access_token_ttl : ℤ
  pub refresh_token_ttl : ℤ

pub record AuditContext : Type 0 where
  pub ip_address : String
  pub user_agent : String
  pub device_id : String
  pub trace_id : String

-- A value of the metadata of an audit entry; a risk score is a `float64` of the port.
pub data Value (Score : Type 0) : Type 0 where
  words : String → Value Score
  number : ℤ → Value Score
  flag : Bool → Value Score
  score : Score → Value Score

pub record AuditLog (Score : Type 0) : Type 0 where
  pub trace_id : String
  pub tenant_id : String
  pub actor_id : String
  pub actor_type : String
  pub action : String
  pub status : String
  pub ip_address : String
  pub user_agent : String
  pub device_id : String
  pub metadata : Dict (Value Score)
  pub created_at : ℤ

-- `UserClaims` with the registered claims; `registered_id` is the claim `jti` of the JWT library.
pub record UserClaims : Type 0 where
  pub jti : String
  pub user_id : String
  pub tenant_id : String
  pub role : String
  pub username : String
  pub token_type : String
  pub registered_id : String
  pub subject : String
  pub issuer : String
  pub issued_at : ℤ
  pub expires_at : ℤ
  pub not_before : ℤ

pub record TokenPair : Type 0 where
  pub access_token : String
  pub refresh_token : String
  pub expires_at : ℤ

-- The ports. `parse_claims` is `jwt.ParseWithClaims` with the key lookup of `validateToken`: it
-- checks the signature and the times, and answers the claims with `token.Valid`. The threshold is a
-- field of the configuration; it stands here beside the type of scores and their comparison.
pub record Backend : Type 1 where
  pub World : Type 0
  pub Score : Type 0
  pub Key : Type 0
  pub now : World → ℤ × World
  pub new_uuid : World → String × World
  pub show_duration : ℤ → String
  pub lower : String → String
  pub trim_space : String → String
  pub password_matches : String → String → Bool
  pub mfa_by_risk_threshold : Score
  pub is_at_least : Score → Score → Bool
  pub get_by_username : String → String → Action World User
  pub get_by_id : String → Action World User
  pub start_session : ActiveSession → Action World (Unit {0})
  pub terminate_session : String → Action World (Unit {0})
  pub is_locked : String → Action World (Bool × ℤ)
  pub record_failed_attempt : String → Action World ℕ
  pub clear_attempts : String → Action World (Unit {0})
  pub save_refresh : RefreshToken → Action World (Unit {0})
  pub rotate_refresh : String → ℤ → AuditContext → Action World RefreshToken
  pub revoke_refresh : String → Action World (Unit {0})
  pub user_health : Action World (Unit {0})
  pub session_health : Action World (Unit {0})
  pub refresh_health : Action World (Unit {0})
  pub compute_risk : User → AuditContext → World → Score × World
  pub send_otp : User → String → Action World (Unit {0})
  pub verify_otp : User → String → World → Bool × World
  pub submit : AuditLog Score → World → World
  pub current_private_key : World → (Option Key × String) × World
  pub sign : Option Key → String → UserClaims → Result String
  pub parse_claims : String → Action World (UserClaims × Bool)

-- `riskScore >= s.config.MFAByRiskThreshold`, a comparison of two `float64`
abbrev pub is_risky : (b : Backend) → b.Score → Bool
is_risky b risk = b.is_at_least risk b.mfa_by_risk_threshold

-- `int64(d / time.Second)`, which rounds towards zero.
unfoldable pub whole_seconds : ℤ → ℤ
whole_seconds (pos n) = pos (n / 1000000000)
whole_seconds (negsuc n) = sub_ℕ 0 (suc n / 1000000000)

-- A port call that has no error.
abbrev pub read : {W A : Type 0} → (W → A × W) → Action W A
read f w = (ok (f w).0, (f w).1)

module _ (b : Backend) where
  pub submit_audit :
      String
      → String
      → String
      → String
      → AuditContext
      → Dict (Value b.Score)
      → Action b.World (Unit {0})
  submit_audit tenant actor action status ctx metadata = do
    created ← read b.now
    λ w. (
      ok tt,
      b.submit
          (record {
            trace_id = ctx.trace_id;
            tenant_id = tenant;
            actor_id = actor;
            actor_type = "user";
            action = action;
            status = status;
            ip_address = ctx.ip_address;
            user_agent = ctx.user_agent;
            device_id = ctx.device_id;
            metadata = insert "service" (words "nexora-auth") metadata;
            created_at = created;
          })
          w,
    )

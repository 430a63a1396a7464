-- ===== src/Web/Answers.antt =====
-- What auth_handler.go answers for the errors of the authentication service.
use nexora_core.Prelude.{
  ℕ, ◌+◌, ◌*◌, ◌≤◌, ◌<◌, ◌^◌, ◌≡◌, refl, String, true, false, is_empty, some, arith, ap, ◌∙◌,
  if◌then◌else◌, ltb,
}
use nexora_core.Prelude.Int.{pos}
use nexora_core.Domain.Errors.{Error, domain, err, is_error, error_text, err_replay_detected}
use nexora_core.Redis.Tokens.Repository.{has_part}
use nexora_core.Services.Auth.{AuthConfig, AuditContext, Backend}
use nexora_core.Services.Auth.Tokens.{refresh}
use nexora_core.Services.Auth.Refreshing.{refresh-replay_iff}
use nexora_core.Web.{
  second, rounded_seconds, retry_after_of, handle_auth_error, handle_refresh, refresh_response,
}

-- The header of a lock that is still on for a time is a whole number of seconds, at least one, and
-- less than a second away from that time.
retry_after_lem :
    (d : ℕ)
    → 1 ≤ d
    → d < 2 ^ 63
    → (s : ℕ) × (retry_after_of (some (pos d)) ≡ some s)
      × (1 ≤ s)
      × (s * second < d + second)
      × (d < s * second + second)
unfolding retry_after_of rounded_seconds
retry_after_lem d positive small = (
  if ltb (rounded_seconds d) 1 then 1 else rounded_seconds d,
  ground (arith, positive),
  ground (arith, positive),
  ground (arith, positive, small),
  ground (arith, positive, small),
)

module _ (b : Backend) (cfg : AuthConfig) where
  -- A replay that the store of refresh tokens detects is answered with the status 500, not 401: the
  -- text of the error does not hold the word that the handler looks for. The given token is not
  -- blank.
  pub handle_refresh-replay :
      (raw : String) (ctx : AuditContext) (w : b.World) (e : Error)
      → is_empty (b.trim_space raw) ≡ false
      → (b.rotate_refresh raw (b.now w).0 ctx (b.now w).1).0 ≡ err e
      → is_error e err_replay_detected ≡ true
      → (handle_refresh b cfg raw ctx w).0.status ≡ 500
  unfolding handle_refresh refresh_response handle_auth_error is_error has_part error_text
  handle_refresh-replay raw ctx w e given answer replay =
      let r : (refresh b cfg raw ctx w).0 ≡ err (domain err_replay_detected) =
        (refresh-replay_iff b cfg raw ctx w).1 (e, answer, replay) in
      rw given (ap (λ x. (refresh_response b cfg x).status) r ∙ status)
    where
      status : (refresh_response b cfg (err (domain err_replay_detected))).status ≡ 500
      status = refl

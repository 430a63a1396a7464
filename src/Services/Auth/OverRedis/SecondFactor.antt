-- ===== src/Services/Auth/OverRedis/SecondFactor.antt =====
-- What becomes of the refresh token of VerifyMFA in the store of refresh_token_repository.go.
use nexora_core.Prelude.{
  ◌≡◌, refl, ap, ◌∙◌, String, Bool, true, false, Option, none, [], if◌then◌else◌,
}
use nexora_core.Domain.Errors.{domain, ok, err, is_error, err_invalid_otp, err_invalid_refresh}
use nexora_core.Domain.User.{User}
use nexora_core.Redis.Client.{delivered, Action, fail, ◌>>◌}
use nexora_core.Redis.Tokens.Document.{Json}
use nexora_core.Redis.Tokens.Script.{TokenRedis, TokenLaws}
use nexora_core.Redis.Tokens.Repository.{token_key}
use nexora_core.Redis.Tokens.Repository.Rotation.{rotate_missing}
use nexora_core.Services.Auth.{AuthConfig, AuditContext, TokenPair, Backend, submit_audit}
use nexora_core.Services.Auth.Login.{verify_mfa, mfa_tokens, generate_token, session_for}
use nexora_core.Services.Auth.Tokens.{refresh, after_rotation, refuse_as}
use nexora_core.Services.Auth.Steps.{ok-ne}
use nexora_core.Services.Auth.OverRedis.{TokenTrips, over_redis}

module _ (r : TokenRedis) (laws : TokenLaws r) (decode_null : Option Json) (hash : String → String)
    (b : Backend) (cfg : AuthConfig) (t : TokenTrips) where
  abbrev service : Backend
  service = over_redis r decode_null hash t b

  -- A refresh with a secret that the store does not know.
  refresh_missing :
      (raw : String) (ctx : AuditContext) (w : b.World) (s : r.Store)
      → t.rotate_trip ≡ delivered
      → r.get (token_key (hash raw)) s ≡ none
      → (refresh service cfg raw ctx (w, s)).0 ≡ err (domain err_invalid_refresh)
  unfolding refresh after_rotation refuse_as submit_audit is_error
  refresh_missing raw ctx w s arrives missing =
      rw
        (
          arrives,
          rotate_missing r laws decode_null hash t.new_raw raw (b.now w).0 t.rotate_time s missing,
        )
        refl

  -- Tokens are answered for an accepted code, and then the store is as it was.
  verify_mfa-store :
      (user : User) (code : String) (ctx : AuditContext) (w : b.World) (s : r.Store)
      (pair : TokenPair)
      → (verify_mfa service cfg user code ctx (w, s)).0 ≡ ok pair
      → ((b.verify_otp user code w).0 ≡ true)
        × ((verify_mfa service cfg user code ctx (w, s)).1.1 ≡ s)
  unfolding verify_mfa mfa_tokens generate_token session_for submit_audit
  verify_mfa-store user code ctx w s pair h = go (b.verify_otp user code w).0 h
    where
      w₁ : b.World
      w₁ = (b.verify_otp user code w).1

      answer : Bool → Action service.World TokenPair
      answer valid = if valid then mfa_tokens service cfg user ctx else (do
        submit_audit service user.tenant_id user.id "MFA_FAILED" "FAILURE" ctx []
        fail (domain err_invalid_otp))

      go :
          (valid : Bool)
          → (answer valid (w₁, s)).0 ≡ ok pair
          → (valid ≡ true) × ((answer valid (w₁, s)).1.1 ≡ s)
      go true h = (refl, refl)
      go false h = absurd (ok-ne (domain err_invalid_otp) pair h)

  -- Whoever passes the second factor cannot refresh: when VerifyMFA over the Redis repository of
  -- refresh tokens answers tokens, the code was accepted, and a refresh with the refresh token of that
  -- answer, whose rotation is answered, is refused as invalid, since the token was never saved. The
  -- store did not hold the token before.
  pub refresh-verify_mfa :
      (user : User) (code : String) (ctx ctx' : AuditContext) (w : b.World) (s : r.Store)
      (pair : TokenPair)
      → t.rotate_trip ≡ delivered
      → r.get (token_key (hash pair.refresh_token)) s ≡ none
      → (verify_mfa service cfg user code ctx (w, s)).0 ≡ ok pair
      → ((b.verify_otp user code w).0 ≡ true)
        × ((refresh service cfg pair.refresh_token ctx'
              (verify_mfa service cfg user code ctx (w, s)).1).0
            ≡ err (domain err_invalid_refresh))
  refresh-verify_mfa user code ctx ctx' w s pair arrives missing h =
      let (accepted, same) = verify_mfa-store user code ctx w s pair h in
      let after = (verify_mfa service cfg user code ctx (w, s)).1 in
      (
        accepted,
        refresh_missing pair.refresh_token ctx' after.0 after.1 arrives
            (ap (r.get (token_key (hash pair.refresh_token))) same ∙ missing),
      )

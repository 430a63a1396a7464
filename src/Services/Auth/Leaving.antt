-- ===== src/Services/Auth/Leaving.antt =====
-- What Logout of auth_service.go promises.
use nexora_core.Prelude.{◌≡◌, ◌↔◌, refl, sym, ap, subst, String, false, is_empty, not, [], ◌∷◌}
use nexora_core.Domain.Errors.{plain, Result, ok, err}
use nexora_core.Services.Auth.{
  AuthConfig, AuditContext, UserClaims, words, flag, Backend, submit_audit,
}
use nexora_core.Services.Auth.Tokens.{
  LogoutRequest, validate_token, end_session, revoke_given, revoke_and_audit, logout,
}
use nexora_core.Services.Auth.Steps.{or_fail_ok, bind_known, bind_total}

module _ (b : Backend) (cfg : AuthConfig) where
  end_session_ok :
      (ctx : AuditContext) (claims : Result UserClaims) (w : b.World)
      → (known : String × String × String) × ((end_session b cfg ctx claims w).0 ≡ ok known)
  unfolding end_session submit_audit
  end_session_ok ctx (ok claims) w = (_, refl)
  end_session_ok ctx (err e) w = (_, refl)

  revoke_given_iff :
      (token : String) (w : b.World)
      → is_empty token ≡ false
      → ((revoke_given b cfg token w).0 ≡ ok tt) ↔ ((b.revoke_refresh token w).0 ≡ ok tt)
  unfolding revoke_given
  revoke_given_iff token w given =
      let failure = plain "infrastructure error: failed to revoke tokens" in
      rw given (
        λ h. or_fail_ok failure (b.revoke_refresh token) w tt h,
        λ k. ap (λ (r : Result (Unit {0})). elim r [ ok a ↦ ok a | err x ↦ err failure ]) k,
      )

  revoke_and_audit_iff :
      (req : LogoutRequest) (known : String × String × String) (w : b.World)
      → ((revoke_and_audit b cfg req known w).0 ≡ ok tt)
        ↔ ((revoke_given b cfg req.refresh_token w).0 ≡ ok tt)
  unfolding submit_audit
  revoke_and_audit_iff req (tenant, user, session) w =
      bind_total (revoke_given b cfg req.refresh_token)
        (λ u. submit_audit b tenant user "LOGOUT" "SUCCESS" req.context (
          ("session_id", words session)
          ∷ ("refresh_revoked", flag (not (is_empty req.refresh_token)))
          ∷ []))
        w (λ t. refl)

  -- A logout with a refresh token always asks for its revocation, whether or not the access token
  -- is still valid, and succeeds exactly when the revocation does.
  pub logout-revoked_iff :
      (req : LogoutRequest) (w : b.World)
      → is_empty req.refresh_token ≡ false
      → let (claims, w₁) = validate_token b cfg req.access_token "access" w in
        let w₂ = (end_session b cfg req.context claims w₁).1 in
        ((logout b cfg req w).0 ≡ ok tt) ↔ ((b.revoke_refresh req.refresh_token w₂).0 ≡ ok tt)
  unfolding logout
  logout-revoked_iff req w given =
      let (claims, w₁) = validate_token b cfg req.access_token "access" w in
      let w₂ = (end_session b cfg req.context claims w₁).1 in
      let (known, p) = end_session_ok req.context claims w₁ in
      let (to, from) = revoke_given_iff req.refresh_token w₂ given in
      let (to', from') = revoke_and_audit_iff req known w₂ in
      let same : logout b cfg req w ≡ revoke_and_audit b cfg req known w₂ =
        bind_known (end_session b cfg req.context claims) (revoke_and_audit b cfg req) w₁ known p in
      subst
        (λ (r : Result (Unit {0}) × b.World).
          (r.0 ≡ ok tt) ↔ ((b.revoke_refresh req.refresh_token w₂).0 ≡ ok tt))
        (sym same) (λ h. to (to' h), λ k. from' (from k))

-- ===== src/Services/Auth/Refreshing.antt =====
-- What Refresh of auth_service.go promises.
use nexora_core.Prelude.{◌≡◌, ◌≢◌, ◌↔◌, refl, ◌∙◌, sym, ap, subst, String, Bool, true, false}
use nexora_core.Domain.Errors.{
  Error, domain, Result, ok, err, is_error, err_replay_detected, err_invalid_refresh,
  err_invalid_credentials, domain-ne,
}
use nexora_core.Domain.User.{User}
use nexora_core.Redis.Tokens.Document.{RefreshToken}
use nexora_core.Services.Auth.{AuthConfig, AuditContext, TokenPair, Backend, submit_audit}
use nexora_core.Services.Auth.Login.{or_fail, generate_token, session_for}
use nexora_core.Services.Auth.Tokens.{
  refuse_as, answer_tokens, unsigned, sign_and_answer, renew, after_rotation, refresh,
}
use nexora_core.Services.Auth.Steps.{ok-ne, bind_ok, or_fail_ok, bind_or_fail}

module _ (b : Backend) (cfg : AuthConfig) where
  answers :
      (ctx : AuditContext) (rec : RefreshToken) (user : User) (access : String) (e : Error)
      (w : b.World)
      → (answer_tokens b cfg ctx rec user access w).0 ≢ err e
  unfolding answer_tokens submit_audit
  answers ctx rec user access e w h = ok-ne e _ (sym h)

  sign_and_answer_cases :
      (ctx : AuditContext) (rec : RefreshToken) (user : User) (session : String) (w : b.World)
      → ((e : Error)
          → (sign_and_answer b cfg ctx rec user session w).0 ≡ err e
          → e ≡ unsigned b cfg)
        × ((tokens : TokenPair)
            → (sign_and_answer b cfg ctx rec user session w).0 ≡ ok tokens
            → tokens.refresh_token ≡ rec.token_raw)
  unfolding answer_tokens submit_audit
  sign_and_answer_cases ctx rec user session w =
      let ((key, kid), w') = b.current_private_key w in
      let sign = generate_token b cfg key kid "access" user session cfg.access_token_ttl in
      (
        λ e h.
            bind_or_fail (unsigned b cfg) sign (answer_tokens b cfg ctx rec user) w' e
              (λ a t. answers ctx rec user a e t) h,
        λ tokens h.
            let (a, p, q) =
              bind_ok (or_fail (unsigned b cfg) sign) (answer_tokens b cfg ctx rec user) w' tokens
                h in
            ap (λ (r : Result TokenPair). elim r [ ok t ↦ t.refresh_token | err x ↦ rec.token_raw ])
              (sym q),
      )

  renew_cases :
      (ctx : AuditContext) (rec : RefreshToken) (user : User) (w : b.World)
      → ((e : Error) → (renew b cfg ctx rec user w).0 ≡ err e → e ≡ unsigned b cfg)
        × ((tokens : TokenPair)
            → (renew b cfg ctx rec user w).0 ≡ ok tokens
            → tokens.refresh_token ≡ rec.token_raw)
  unfolding renew
  renew_cases ctx rec user w =
      let (session, w₁) = b.new_uuid w in
      let (t, w₂) = b.now w₁ in
      sign_and_answer_cases ctx rec user session
        (b.start_session (session_for b cfg session user t) w₂).1

  refuse_as-replay :
      (ctx : AuditContext) (e : Error) (replay : Bool) (w : b.World)
      → (refuse_as b cfg ctx e replay w).0 ≡ err (domain err_replay_detected)
      → replay ≡ true
  unfolding refuse_as submit_audit
  refuse_as-replay ctx e true w h = refl
  refuse_as-replay ctx e false w h = absurd (
      domain-ne (domain err_invalid_refresh) (domain err_replay_detected) refl
        (ap (λ (r : Result TokenPair). elim r [ ok t ↦ domain err_replay_detected | err x ↦ x ]) h))

  after_rotation-replay :
      (ctx : AuditContext) (rec : RefreshToken) (w : b.World)
      → (after_rotation b cfg ctx (ok rec) w).0 ≢ err (domain err_replay_detected)
  unfolding after_rotation
  after_rotation-replay ctx rec w h =
      let missing = domain err_invalid_credentials in
      let replay = domain err_replay_detected in
      domain-ne replay missing refl (
        bind_or_fail missing (b.get_by_id rec.user_id) (renew b cfg ctx rec) w replay
          (λ user t failed.
            domain-ne replay (unsigned b cfg) refl ((renew_cases ctx rec user t).0 replay failed))
          h)

  refuse_as-true :
      (ctx : AuditContext) (e : Error) (w : b.World)
      → (refuse_as b cfg ctx e true w).0 ≡ err (domain err_replay_detected)
  unfolding refuse_as submit_audit
  refuse_as-true ctx e w = refl

  after_rotation-replay_iff :
      (ctx : AuditContext) (r : Result RefreshToken) (w : b.World)
      → ((after_rotation b cfg ctx r w).0 ≡ err (domain err_replay_detected))
        ↔ ((e : Error) × (r ≡ err e) × (is_error e err_replay_detected ≡ true))
  unfolding after_rotation
  after_rotation-replay_iff ctx (ok rec) w =
      (λ h. absurd (after_rotation-replay ctx rec w h), λ (e, p, q). absurd (ok-ne e rec (sym p)))
  after_rotation-replay_iff ctx (err e) w = (
    λ h. (e, refl, refuse_as-replay ctx e (is_error e err_replay_detected) w h),
    λ (d, p, q).
        let y : is_error e err_replay_detected ≡ true =
          ap (λ (x : Error). is_error x err_replay_detected)
            (ap (λ (r : Result RefreshToken). elim r [ ok t ↦ e | err x ↦ x ]) p)
          ∙ q in
        subst (λ (x : Bool). (refuse_as b cfg ctx e x w).0 ≡ err (domain err_replay_detected))
          (sym y) (refuse_as-true ctx e w),
  )

  -- Refresh answers that a replay was detected exactly when the store of refresh tokens did, with
  -- any error whose chain holds that one; no other failure looks like it.
  pub refresh-replay_iff :
      (raw : String) (ctx : AuditContext) (w : b.World)
      → let rotated = b.rotate_refresh raw (b.now w).0 ctx (b.now w).1 in
        ((refresh b cfg raw ctx w).0 ≡ err (domain err_replay_detected))
        ↔ ((e : Error) × (rotated.0 ≡ err e) × (is_error e err_replay_detected ≡ true))
  unfolding refresh
  refresh-replay_iff raw ctx w =
      let rotated = b.rotate_refresh raw (b.now w).0 ctx (b.now w).1 in
      after_rotation-replay_iff ctx rotated.0 rotated.1

  refused :
      (ctx : AuditContext) (e : Error) (replay : Bool) (tokens : TokenPair) (w : b.World)
      → (refuse_as b cfg ctx e replay w).0 ≢ ok tokens
  unfolding refuse_as submit_audit
  refused ctx e true tokens w k = ok-ne _ tokens k
  refused ctx e false tokens w k = ok-ne _ tokens k

  after_rotation_ok :
      (ctx : AuditContext) (r : Result RefreshToken) (tokens : TokenPair) (w : b.World)
      → (after_rotation b cfg ctx r w).0 ≡ ok tokens
      → (rec : RefreshToken) × (r ≡ ok rec)
        × ((user : User) × ((b.get_by_id rec.user_id w).0 ≡ ok user))
        × (tokens.refresh_token ≡ rec.token_raw)
  unfolding after_rotation
  after_rotation_ok ctx (ok rec) tokens w h =
      let missing = domain err_invalid_credentials in
      let (user, p, q) =
        bind_ok (or_fail missing (b.get_by_id rec.user_id)) (renew b cfg ctx rec) w tokens h in
      (
        rec,
        refl,
        (user, or_fail_ok missing (b.get_by_id rec.user_id) w user p),
        (renew_cases ctx rec user (b.get_by_id rec.user_id w).1).1 tokens q,
      )
  after_rotation_ok ctx (err e) tokens w h =
      absurd (refused ctx e (is_error e err_replay_detected) tokens w h)

  -- Refresh answers tokens only after the store has rotated the given token, and only for a user
  -- that still exists; the new refresh token is the secret of the rotated one.
  pub refresh-rotated :
      (raw : String) (ctx : AuditContext) (tokens : TokenPair) (w : b.World)
      → (refresh b cfg raw ctx w).0 ≡ ok tokens
      → let rotated = b.rotate_refresh raw (b.now w).0 ctx (b.now w).1 in
        (rec : RefreshToken) × (rotated.0 ≡ ok rec)
        × ((user : User) × ((b.get_by_id rec.user_id rotated.1).0 ≡ ok user))
        × (tokens.refresh_token ≡ rec.token_raw)
  unfolding refresh
  refresh-rotated raw ctx tokens w h =
      let rotated = b.rotate_refresh raw (b.now w).0 ctx (b.now w).1 in
      after_rotation_ok ctx rotated.0 tokens rotated.1 h

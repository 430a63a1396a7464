-- ===== src/Services/Auth/Checked.antt =====
-- What auth_service.go has checked when a login answers tokens, and its rollback.
use nexora_core.Prelude.{
  ◌≡◌, ◌≢◌, ◌⊎◌, inl, inr, refl, ◌∙◌, sym, ap, subst, String, Bool, true, false, Option, none, some,
  arith,
}
use nexora_core.Prelude.Int.{ℤ}
use nexora_core.Domain.Errors.{Error, plain, Result, ok, err}
use nexora_core.Domain.User.{User, can_authenticate}
use nexora_core.Redis.Client.{pure, attempt, ◌>>=◌}
use nexora_core.Services.Auth.{AuthConfig, AuditContext, TokenPair, Backend, is_risky, submit_audit}
use nexora_core.Services.Auth.Login.{
  LoginRequest, enforce_lockout_policy, handle_auth_failure, bf_key, refuse_locked, by_password,
  check_mfa, after_password, check_password, check_account, process_security_check, session_for,
  issue_tokens, or_cleanup, issue_or_roll_back, finalize_user_login, emit, login, or_fail,
}
use nexora_core.Services.Auth.Steps.{ok-ne, bind_ok, bind_err, or_fail_ok}

abbrev mfa_of : Result (Option TokenPair × Bool) → Bool
mfa_of (ok a) = a.1
mfa_of (err e) = false

abbrev has_tokens : Result (Option TokenPair × Bool) → Bool
has_tokens (ok (none, m)) = false
has_tokens (ok (some t, m)) = true
has_tokens (err e) = false

module _ (b : Backend) (cfg : AuthConfig) where
  unlocked :
      (tenant : String) (ctx : AuditContext) (lock : Bool × ℤ) (w : b.World)
      → (refuse_locked b cfg tenant ctx lock w).0 ≡ ok tt
      → (lock.0 ≡ false) × ((refuse_locked b cfg tenant ctx lock w).1 ≡ w)
  unfolding submit_audit
  unlocked tenant ctx (true, d) w h = absurd (ok-ne _ tt h)
  unlocked tenant ctx (false, d) w h = (refl, refl)

  enforce_ok :
      (tenant key : String) (ctx : AuditContext) (w : b.World)
      → (enforce_lockout_policy b cfg tenant key ctx w).0 ≡ ok tt
      → (d : ℤ) × ((b.is_locked key w).0 ≡ ok (false, d))
        × ((enforce_lockout_policy b cfg tenant key ctx w).1 ≡ (b.is_locked key w).1)
  unfolding enforce_lockout_policy
  enforce_ok tenant key ctx w h =
      let check =
        or_fail (plain "infrastructure error: protection check failed") (b.is_locked key) in
      let (lock, p, q) = bind_ok check (refuse_locked b cfg tenant ctx) w tt h in
      let (free, same) = unlocked tenant ctx lock (b.is_locked key w).1 q in
      let answer : (b.is_locked key w).0 ≡ ok lock =
        or_fail_ok (plain "infrastructure error: protection check failed") (b.is_locked key) w lock
          p in
      (lock.1, answer ∙ ap (λ (x : Bool). ok (x, lock.1)) free, rw answer same)

  failure_ne :
      {A : Type 0} (tenant key user reason : String) (ctx : AuditContext) (w : b.World) (x : A)
      → (handle_auth_failure b cfg tenant key user reason ctx w).0 ≢ ok x
  unfolding handle_auth_failure submit_audit
  failure_ne tenant key user reason ctx w x h = ground (arith, h)

  check_mfa_ok :
      (req : LoginRequest) (user found : User) (risk : b.Score) (w : b.World)
      → (check_mfa b cfg req found risk w).0 ≡ ok (user, false)
      → (found ≡ user) × (found.mfa_enabled ≡ false) × (is_risky b risk ≡ false)
  unfolding check_mfa submit_audit
  check_mfa_ok req user found risk w h = ground (arith, h)

  -- What holds of an account when the checks end with no second factor.
  abbrev pub Passed : LoginRequest → User → b.World → Type 0
  Passed req user w =
      (can_authenticate (b.now w).0 user ≡ none)
      × (b.password_matches user.password_hash req.password ≡ true)
      × (user.mfa_enabled ≡ false)
      × (is_risky b
            (b.compute_risk user req.context (b.clear_attempts (bf_key b cfg req) (b.now w).1).1).0
          ≡ false)

  by_password_ok :
      (req : LoginRequest) (user found : User) (right : Bool) (w : b.World)
      → (by_password b cfg req found right w).0 ≡ ok (user, false)
      → (found ≡ user)
        × (right ≡ true)
        × (found.mfa_enabled ≡ false)
        × (is_risky b (b.compute_risk found req.context (b.clear_attempts (bf_key b cfg req) w).1).0
            ≡ false)
  unfolding by_password after_password
  by_password_ok req user found true w h =
      let risk = b.compute_risk found req.context (b.clear_attempts (bf_key b cfg req) w).1 in
      let (same, mfa, calm) = check_mfa_ok req user found risk.0 risk.1 h in (same, refl, mfa, calm)
  by_password_ok req user found false w h = absurd (
      failure_ne req.tenant_id (bf_key b cfg req) found.id "invalid_password" req.context w
        (user, false) h)

  check_password_ok :
      (req : LoginRequest) (user found : User) (reason : Option Error) (w : b.World)
      → (check_password b cfg req found reason w).0 ≡ ok (user, false)
      → (found ≡ user)
        × (reason ≡ none)
        × (b.password_matches found.password_hash req.password ≡ true)
        × (found.mfa_enabled ≡ false)
        × (is_risky b (b.compute_risk found req.context (b.clear_attempts (bf_key b cfg req) w).1).0
            ≡ false)
  unfolding check_password submit_audit
  check_password_ok req user found (some e) w h = absurd (ok-ne e (user, false) h)
  check_password_ok req user found none w h =
      let (same, right, mfa, calm) =
        by_password_ok req user found (b.password_matches found.password_hash req.password) w h in
      (same, refl, right, mfa, calm)

  check_account_ok :
      (req : LoginRequest) (user : User) (answer : Result User) (w : b.World)
      → (check_account b cfg req answer w).0 ≡ ok (user, false)
      → (answer ≡ ok user) × Passed req user w
  unfolding check_account
  check_account_ok req user (err e) w h = absurd (
      failure_ne req.tenant_id (bf_key b cfg req) "" "user_not_found" req.context w (user, false) h)
  check_account_ok req user (ok found) w h =
      let (same, able, right, mfa, calm) =
        check_password_ok req user found (can_authenticate (b.now w).0 found) (b.now w).1 h in
      (ap ok same, subst (λ (u : User). Passed req u w) same (able, right, mfa, calm))

  security_ok :
      (req : LoginRequest) (user : User) (w : b.World)
      → (process_security_check b cfg req w).0 ≡ ok (user, false)
      → let w₁ = (b.is_locked (bf_key b cfg req) w).1 in
        let found = b.get_by_username req.tenant_id req.username w₁ in
        (d : ℤ) × ((b.is_locked (bf_key b cfg req) w).0 ≡ ok (false, d))
        × (found.0 ≡ ok user)
        × Passed req user found.1
  unfolding process_security_check
  security_ok req user w h =
      let rest = λ (u : Unit).
        (attempt (b.get_by_username req.tenant_id req.username) >>= check_account b cfg req) in
      let (u, p, q) =
        bind_ok (enforce_lockout_policy b cfg req.tenant_id (bf_key b cfg req) req.context) rest w
          (user, false) h in
      let (d, free, same) = enforce_ok req.tenant_id (bf_key b cfg req) req.context w p in
      let found =
        b.get_by_username req.tenant_id req.username (b.is_locked (bf_key b cfg req) w).1 in
      let q' : (check_account b cfg req found.0 found.1).0 ≡ ok (user, false) = rw⁻¹ same q in
      let (answer, passed) = check_account_ok req user found.0 found.1 q' in
      (d, free, answer, passed)

  emit_ok :
      (ctx : AuditContext) (checked : User × Bool) (tokens : TokenPair) (mfa : Bool) (w : b.World)
      → (emit b cfg ctx checked w).0 ≡ ok (some tokens, mfa)
      → (checked.1 ≡ false) × (mfa ≡ false)
  emit_ok ctx (user, true) tokens mfa w h =
      absurd (cc (ap (λ (r : Result (Option TokenPair × Bool)). has_tokens r) h))
  emit_ok ctx (user, false) tokens mfa w h =
      let finish = λ (t : TokenPair). pure (some t, false) in
      let (t, p, q) = bind_ok (finalize_user_login b cfg user ctx) finish w (some tokens, mfa) h in
      (refl, sym (ap mfa_of q))

  -- A login that answers tokens has passed every check, on the states of the ports in which they
  -- were made: the identity was not locked, the user exists, is active and not expired, the
  -- password matches, the user asks for no second factor and the risk is below the threshold;
  -- and the answer says that no second factor is required.
  pub login-checked :
      (req : LoginRequest) (tokens : TokenPair) (mfa : Bool) (w : b.World)
      → (login b cfg req w).0 ≡ ok (some tokens, mfa)
      → let w₁ = (b.is_locked (bf_key b cfg req) w).1 in
        let found = b.get_by_username req.tenant_id req.username w₁ in
        (mfa ≡ false)
        × ((user : User) × (d : ℤ) × ((b.is_locked (bf_key b cfg req) w).0 ≡ ok (false, d))
            × (found.0 ≡ ok user)
            × Passed req user found.1)
  unfolding login
  login-checked req tokens mfa w h =
      let (checked, p, q) =
        bind_ok (process_security_check b cfg req) (emit b cfg req.context) w (some tokens, mfa)
          h in
      let (no_challenge, no_mfa) =
        emit_ok req.context checked tokens mfa (process_security_check b cfg req w).1 q in
      let (d, free, answer, passed) =
        security_ok req checked.0 w (p ∙ ap (λ (x : Bool). ok (checked.0, x)) no_challenge) in
      (no_mfa, (checked.0, d, free, answer, passed))

  rolled_back :
      {A : Type 0} (session : String) (r : Result A) (e : Error) (w : b.World)
      → (or_cleanup b cfg session r w).0 ≡ err e
      → (or_cleanup b cfg session r w).1 ≡ (b.terminate_session session w).1
  rolled_back session (ok a) e w h = absurd (ok-ne e a (sym h))
  rolled_back session (err d) e w h = refl

  -- When the last part of a login fails, either its session could not be started, and nothing was
  -- done after that, or the last thing that was done is the termination of this very session.
  pub finalize_user_login-rollback :
      (user : User) (ctx : AuditContext) (e : Error) (w : b.World)
      → (finalize_user_login b cfg user ctx w).0 ≡ err e
      → let (session, w₁) = b.new_uuid w in
        let (t, w₂) = b.now w₁ in
        let started = b.start_session (session_for b cfg session user t) w₂ in
        let issued = issue_tokens b cfg user session ctx started.1 in
        ((started.0 ≢ ok tt) × ((finalize_user_login b cfg user ctx w).1 ≡ started.1))
        ⊎ ((finalize_user_login b cfg user ctx w).1 ≡ (b.terminate_session session issued.1).1)
  unfolding finalize_user_login
  finalize_user_login-rollback user ctx e w h =
      let (session, w₁) = b.new_uuid w in
      let (t, w₂) = b.now w₁ in
      let failure = plain "infrastructure error: failed to start session" in
      let start = b.start_session (session_for b cfg session user t) in
      let issued = issue_tokens b cfg user session ctx (start w₂).1 in
      elim (bind_err (or_fail failure start) (λ u. issue_or_roll_back b cfg user ctx session) w₂ e
        h) [
          | inl (unstarted, same) ↦ inl (
            λ k.
                unstarted tt
                  (ap (λ (r : Result Unit). elim r [ ok a ↦ ok a | err x ↦ err failure ]) k),
            same,
          )
          | inr (u, same, failed) ↦ inr (same ∙ rolled_back session issued.0 e issued.1 failed)
        ]

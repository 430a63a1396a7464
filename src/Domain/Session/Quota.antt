-- ===== src/Domain/Session/Quota.antt =====
-- What the heartbeats of internal/core/domain/session.go enforce.
use nexora_core.Prelude.{
  String, List, [], ◌∷◌, refl, ap, ◌∙◌, ℕ, ◌+◌, ◌-◌, ◌≤◌, ◌<◌, ◌^◌, ◌≡◌, ◌≢◌, ◌↔◌, ◌⊎◌, false, true,
  Option, none, some, arith,
}
use nexora_core.Prelude.Int.{ℤ, pos, ◌≤ℤ◌}
use nexora_core.Domain.Errors.{domain, domain-ne, err_session_expired, err_quota_exceeded}
use nexora_core.Domain.Session.{
  UsageDelta, PolicySnapshot, ActiveSession, new_active_session, heartbeat, exceeds_data,
  exceeds_time, commit, is_alive, total_usage,
}

-- A rejected heartbeat leaves the session as it was, and the rejection is "session expired"
-- exactly when the session is not alive; the only other rejection is "quota exceeded".
pub heartbeat_rejected :
    (d : UsageDelta) (now : ℤ) (s : ActiveSession)
    → ((heartbeat d now s).0 ≢ none → (heartbeat d now s).1 ≡ s)
      × (((heartbeat d now s).0 ≡ some (domain err_session_expired)) ↔ (is_alive now s ≡ false))
      × (is_alive now s ≡ true
          → ((heartbeat d now s).0 ≡ none)
            ⊎ ((heartbeat d now s).0 ≡ some (domain err_quota_exceeded)))
unfolding heartbeat is_alive
heartbeat_rejected d now s = (
  (λ h. ground arith),
  (
    (λ h. ground (arith, domain-ne (domain err_quota_exceeded) (domain err_session_expired) refl)),
    (λ h. ground arith),
  ),
  (λ h. ground arith),
)

-- The heartbeats of a session in their order, each with the clock reading it makes.
pub heartbeats : List (UsageDelta × ℤ) → ActiveSession → ActiveSession
heartbeats [] s = s
heartbeats ((d, now) ∷ ds) s = heartbeats ds (heartbeat d now s).1

-- The octets that the deltas report together.
abbrev pub volume : List (UsageDelta × ℤ) → ℕ
volume [] = 0
volume ((d, now) ∷ ds) = d.input_octets + d.output_octets + volume ds

-- A positive data quota bounds the exact total of the counters, and `room` more octets fit a word.
record IsWithinPolicy (room : ℕ) (s : ActiveSession) : Type 0 where
  small : s.input_octets + s.output_octets + room < 2 ^ 64
  quota : 0 < s.policy.data_quota → s.input_octets + s.output_octets ≤ s.policy.data_quota

heartbeat-IsWithinPolicy :
    (d : UsageDelta) (now : ℤ) (room : ℕ) (s : ActiveSession)
    → IsWithinPolicy (d.input_octets + d.output_octets + room) s
    → IsWithinPolicy room (heartbeat d now s).1
unfolding heartbeat exceeds_data commit
heartbeat-IsWithinPolicy d now room s h = ground arith

heartbeats-IsWithinPolicy :
    (ds : List (UsageDelta × ℤ)) (s : ActiveSession)
    → IsWithinPolicy (volume ds) s
    → IsWithinPolicy 0 (heartbeats ds s)
unfolding heartbeats
heartbeats-IsWithinPolicy [] s h = h
heartbeats-IsWithinPolicy ((d, now) ∷ ds) s h =
    heartbeats-IsWithinPolicy ds (heartbeat d now s).1
      (heartbeat-IsWithinPolicy d now (volume ds) s h)

heartbeats-policy :
    (ds : List (UsageDelta × ℤ)) (s : ActiveSession) → (heartbeats ds s).policy ≡ s.policy
unfolding heartbeats heartbeat commit
heartbeats-policy [] s = refl
heartbeats-policy ((d, now) ∷ ds) s = heartbeats-policy ds (heartbeat d now s).1 ∙ ground arith

-- A session with a positive data quota never counts more octets than the quota, after any
-- heartbeats whose deltas together fit 64 bits.
pub heartbeats-le-quota :
    (ds : List (UsageDelta × ℤ)) (id user_id nas_ip : String) (mac : Option (List ℕ))
    (policy : PolicySnapshot) (lease now : ℤ)
    → 0 < policy.data_quota
    → volume ds < 2 ^ 64
    → let s = heartbeats ds (new_active_session id user_id nas_ip mac policy lease now) in
      (s.input_octets + s.output_octets ≤ policy.data_quota) × (total_usage s ≤ policy.data_quota)
unfolding new_active_session total_usage
heartbeats-le-quota ds id user_id nas_ip mac policy lease now positive fits =
    let s = new_active_session id user_id nas_ip mac policy lease now in
    let inv : IsWithinPolicy 0 (heartbeats ds s) =
      heartbeats-IsWithinPolicy ds s (record { small = omega arith; quota = λ _. omega arith }) in
    let same : (heartbeats ds s).policy.data_quota ≡ policy.data_quota =
      ap (λ (p : PolicySnapshot). p.data_quota) (heartbeats-policy ds s) in
    let bound : (heartbeats ds s).input_octets + (heartbeats ds s).output_octets
        ≤ policy.data_quota =
      rw same at (inv.quota (rw same positive)) in
    (bound, omega (arith, bound, inv.small))

-- An alive session with a data quota and no time quota, whose counters hold a positive total of
-- less than 2 ^ 64, accepts the delta that completes that total to 2 ^ 64 whatever the quota is:
-- the sum wraps to 0, and the session reports a total usage of 0 afterwards.
pub heartbeat_wraps :
    (s : ActiveSession) (now : ℤ)
    → is_alive now s ≡ true
    → s.policy.time_quota ≤ℤ pos 0
    → 0 < s.input_octets + s.output_octets
    → s.input_octets + s.output_octets < 2 ^ 64
    → let d : UsageDelta = record {
      input_octets = 2 ^ 64 - (s.input_octets + s.output_octets);
      output_octets = 0;
      session_time = 0;
    } in
      ((heartbeat d now s).0 ≡ none) × (total_usage (heartbeat d now s).1 ≡ 0)
unfolding heartbeat is_alive exceeds_data exceeds_time commit total_usage
heartbeat_wraps s now alive untimed some_used small = ground arith

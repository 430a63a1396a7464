-- ===== src/Domain/Session/Tests.antt =====
-- Runs of internal/core/domain/session.go on one session.
use nexora_core.Prelude.{◌+◌, ◌-◌, ◌^◌, ◌≤◌, ◌≡◌, refl, true, none, [], ◌∷◌, arith}
use nexora_core.Prelude.Int.{pos, time_sub}
use nexora_core.Domain.Session.{
  UsageDelta, PolicySnapshot, ActiveSession, new_active_session, exceeds_data, exceeds_time, commit,
  heartbeat, is_alive, total_usage,
}
use nexora_core.Domain.Session.Quota.{heartbeats, heartbeats-le-quota, heartbeat_wraps}

abbrev policy : PolicySnapshot
policy = record { data_quota = 100; max_upload = 0; max_download = 0; time_quota = pos 0 }

abbrev session : ActiveSession
session = new_active_session "s1" "u1" "10.0.0.1" none policy (pos 900) (pos 10)

abbrev delta : UsageDelta
delta = record { input_octets = 30; output_octets = 30; session_time = 5 }

counted : (heartbeat delta (pos 20) session).1.input_octets ≡ 30
unfolding heartbeat new_active_session time_sub exceeds_data exceeds_time commit
counted = refl

abbrev used : ActiveSession
used = record session { input_octets = 40; output_octets = 10 }

heartbeats-le-quota_example :
    let s = heartbeats ((delta, pos 20) ∷ (delta, pos 30) ∷ []) session in
    (s.input_octets + s.output_octets ≤ 100) × (total_usage s ≤ 100)
heartbeats-le-quota_example =
    heartbeats-le-quota ((delta, pos 20) ∷ (delta, pos 30) ∷ []) "s1" "u1" "10.0.0.1" none policy
      (pos 900) (pos 10) (omega arith) (omega arith)

alive : is_alive (pos 20) used ≡ true
unfolding is_alive time_sub new_active_session
alive = refl

heartbeat_wraps_example :
    let d : UsageDelta = record {
      input_octets = 2 ^ 64 - 50;
      output_octets = 0;
      session_time = 0;
    } in
    ((heartbeat d (pos 20) used).0 ≡ none) × (total_usage (heartbeat d (pos 20) used).1 ≡ 0)
unfolding new_active_session
heartbeat_wraps_example =
    heartbeat_wraps used (pos 20) alive (omega arith) (omega arith) (omega arith)

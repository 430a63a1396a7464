-- ===== src/Domain/Session.antt =====
-- internal/core/domain/session.go: the active session and its heartbeats. `uint64` counters are
-- numbers with the wrap of each sum written out; a `time.Duration` is an integer with the `int64`
-- arithmetic of `Prelude.Int`. Each call of `clock.Now()` is an argument.
pub mod Quota
mod Tests
use nexora_core.Prelude.{
  ℕ, ◌+◌, ◌%◌, ◌^◌, String, Bool, ◌&&◌, Option, none, some, List, ltb, ◌==◌, if◌then◌else◌,
}
use nexora_core.Prelude.Int.{ℤ, pos, ltb_ℤ, leb_ℤ, seconds64, add64, time_sub}
use nexora_core.Domain.Errors.{Error, domain, err_session_expired, err_quota_exceeded}

pub record UsageDelta : Type 0 where
  pub input_octets : ℕ
  pub output_octets : ℕ
  pub session_time : ℕ

pub record PolicySnapshot : Type 0 where
  pub data_quota : ℕ
  pub max_upload : ℕ
  pub max_download : ℕ
  pub time_quota : ℤ

-- A `SessionSnapshot` has the same fields, so `RehydrateActiveSession` is the identity here.
pub record ActiveSession : Type 0 where
  pub id : String
  pub user_id : String
  pub nas_ip : String
  pub mac_addr : Option (List ℕ)
  pub policy : PolicySnapshot
  pub input_octets : ℕ
  pub output_octets : ℕ
  pub session_time : ℤ
  pub started_at : ℤ
  pub last_alive_at : ℤ
  pub lease_duration : ℤ

unfoldable pub new_active_session :
    String → String → String → Option (List ℕ) → PolicySnapshot → ℤ → ℤ → ActiveSession
new_active_session id user_id nas_ip mac policy lease_buffer now = record {
  id = id;
  user_id = user_id;
  nas_ip = nas_ip;
  mac_addr = mac;
  policy = policy;
  input_octets = 0;
  output_octets = 0;
  session_time = pos 0;
  started_at = now;
  last_alive_at = now;
  lease_duration = lease_buffer;
}

-- Steps 3 and 4 of `Heartbeat`: is a quota exceeded?
exceeds_data : UsageDelta → ActiveSession → Bool
exceeds_data d s =
    ltb 0 s.policy.data_quota
    && ltb s.policy.data_quota (
        (((s.input_octets + s.output_octets) % 2 ^ 64 + d.input_octets) % 2 ^ 64 + d.output_octets)
        % 2 ^ 64)

exceeds_time : UsageDelta → ActiveSession → Bool
unfolding add64 seconds64
exceeds_time d s =
    ltb_ℤ (pos 0) s.policy.time_quota
    && ltb_ℤ s.policy.time_quota (add64 s.session_time (seconds64 d.session_time))

-- Step 5 of `Heartbeat`.
commit : UsageDelta → ℤ → ActiveSession → ActiveSession
unfolding add64 seconds64
commit d now s = record s {
  input_octets = (s.input_octets + d.input_octets) % 2 ^ 64;
  output_octets = (s.output_octets + d.output_octets) % 2 ^ 64;
  session_time = add64 s.session_time (seconds64 d.session_time);
  last_alive_at = now;
}

pub heartbeat : UsageDelta → ℤ → ActiveSession → Option Error × ActiveSession
heartbeat d now s =
    if ltb_ℤ s.lease_duration (time_sub now s.last_alive_at)
    then (some (domain err_session_expired), s)
    else if d.input_octets == 0 && (d.output_octets == 0 && d.session_time == 0)
    then (none, record s { last_alive_at = now })
    else if exceeds_data d s
    then (some (domain err_quota_exceeded), s)
    else if exceeds_time d s
    then (some (domain err_quota_exceeded), s)
    else (none, commit d now s)

pub is_alive : ℤ → ActiveSession → Bool
is_alive now s = leb_ℤ (time_sub now s.last_alive_at) s.lease_duration

pub total_usage : ActiveSession → ℕ
total_usage s = (s.input_octets + s.output_octets) % 2 ^ 64

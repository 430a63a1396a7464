-- ===== src/Services/Auth/OverRedis/Tests.antt =====
-- A login and its refresh with the store of refresh tokens in memory.
use nexora_core.Prelude.{◌≡◌, refl, true, some, []}
use nexora_core.Prelude.Int.{pos, ◌+ℤ◌, time_sub}
use nexora_core.Domain.Errors.{domain, ok, err, err_replay_detected, err_invalid_refresh}
use nexora_core.Domain.User.{can_authenticate, is_expired}
use nexora_core.Redis.Client.{delivered}
use nexora_core.Redis.Tokens.Document.{null}
use nexora_core.Redis.Tokens.Repository.{save}
use nexora_core.Redis.Tokens.Repository.Tests.{memory, memory_laws, hash}
use nexora_core.Services.Auth.{Backend, submit_audit}
use nexora_core.Services.Auth.Login.{
  login, process_security_check, enforce_lockout_policy, check_account, check_password, by_password,
  after_password, check_mfa, session_for, issue_tokens, finalize_user_login, generate_token,
  verify_mfa, mfa_tokens,
}
use nexora_core.Services.Auth.Tokens.{refresh}
use nexora_core.Services.Auth.Tests.{user, good, cfg, context, request, issued}
use nexora_core.Services.Auth.OverRedis.{TokenTrips, over_redis}
use nexora_core.Services.Auth.OverRedis.FirstLogin.{refresh-login}
use nexora_core.Services.Auth.OverRedis.SecondFactor.{refresh-verify_mfa}

abbrev trips : TokenTrips
trips = record {
  save_trip = delivered;
  save_time = pos 0;
  rotate_trip = delivered;
  rotate_time = pos 0;
  new_raw = "next";
  find_trip = delivered;
  members_trip = delivered;
  delete_trip = delivered;
}

abbrev service : Backend
service = over_redis memory (some null) hash trips good

refresh-login_example :
    (refresh service cfg "uuid" context (login service cfg request (0, ([], []))).1).0
    ≡ err (domain err_replay_detected)
unfolding login process_security_check enforce_lockout_policy check_account check_password
    by_password after_password check_mfa finalize_user_login issue_tokens generate_token session_for
    submit_audit can_authenticate is_expired save time_sub ◌+ℤ◌
refresh-login_example =
    refresh-login memory memory_laws (some null) hash good cfg trips request context 0 ([], [])
      issued refl refl refl refl

second_factor :
    (verify_mfa service cfg user "123456" context (0, ([], []))).0
    ≡ ok (record {
      access_token = "accessuuid";
      refresh_token = "refreshuuid";
      expires_at = pos 906;
    })
unfolding verify_mfa mfa_tokens generate_token session_for submit_audit ◌+ℤ◌
second_factor = refl

refresh-verify_mfa_example :
    ((good.verify_otp user "123456" 0).0 ≡ true)
    × ((refresh service cfg "refreshuuid" context
          (verify_mfa service cfg user "123456" context (0, ([], []))).1).0
        ≡ err (domain err_invalid_refresh))
refresh-verify_mfa_example =
    refresh-verify_mfa memory memory_laws (some null) hash good cfg trips user "123456" context
      context 0 ([], [])
      (record { access_token = "accessuuid"; refresh_token = "refreshuuid"; expires_at = pos 906 })
      refl refl second_factor

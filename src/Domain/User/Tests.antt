-- ===== src/Domain/User/Tests.antt =====
-- Runs of internal/core/domain/Users.go on one account.
use nexora_core.Prelude.{◌≡◌, refl, false, none, some}
use nexora_core.Prelude.Int.{pos}
use nexora_core.Domain.Errors.{ok, plain}
use nexora_core.Domain.User.{User, NewUserParams, new_user, activate, consume_data}
use nexora_core.Domain.User.Life.{UserStep, UserReach, IsWithinQuota, new_user-IsWithinQuota}

abbrev params : NewUserParams
params = record {
  id = "u1";
  username = "awa";
  email = "awa@example.org";
  password_hash = "$2a$10$h";
  role = "user";
  tenant_id = "t1";
  max_sessions = pos 2;
  data_quota = 100;
}

abbrev account : User
account = record {
  id = "u1";
  username = "awa";
  email = "awa@example.org";
  password_hash = "$2a$10$h";
  mac = none;
  role = "user";
  tenant_id = "t1";
  active = false;
  expired_at = none;
  max_sessions = pos 2;
  data_quota = 100;
  used_data = 0;
  version = 1;
  created_at = pos 5;
  updated_at = pos 5;
  mfa_enabled = false;
}

created : new_user params (pos 5) ≡ ok account
unfolding new_user
created = refl

filled : (consume_data 100 (pos 6) account).1.used_data ≡ 100
unfolding consume_data
filled = refl

over :
    (consume_data 1 (pos 7) (consume_data 100 (pos 6) account).1).0
    ≡ some (plain "data quota exceeded")
unfolding consume_data
over = refl

new_user-IsWithinQuota_example :
    IsWithinQuota (consume_data 60 (pos 8) (activate (pos 6) (pos 7) account).1).1
new_user-IsWithinQuota_example = new_user-IsWithinQuota params (pos 5) created (
    UserReach.next (UserReach.next UserReach.here (UserStep.activate_step (pos 6) (pos 7) account))
      (UserStep.consume_step 60 (pos 8) (activate (pos 6) (pos 7) account).1))

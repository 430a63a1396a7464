-- ===== src/Postgres/Users/Tests.antt =====
-- One account in the table of users of user_repository.go.
use nexora_core.Prelude.{
  ◌+◌, ◌*◌, ◌/◌, ◌≡◌, ◌≢◌, ap, refl, true, false, is_empty, none, some, [], ◌∷◌, if◌then◌else◌,
  arith,
}
use nexora_core.Prelude.Int.{ℤ, pos, negsuc}
use nexora_core.Domain.Errors.{Error, plain, ok, err}
use nexora_core.Domain.Values.{
  Texts, matches_email, matches_username, new_email, new_username, new_password_hash, new_tenant_id,
  parse_user_id,
}
use nexora_core.Domain.User.{User, deactivate}
use nexora_core.Domain.User.Life.{UserStep}
use nexora_core.Redis.Client.{delivered}
use nexora_core.Postgres.Rows.{UserRow, UserTable, Sql, bigint, new_row}
use nexora_core.Postgres.Users.{insert_row, find_name, update_row, create, update, get_by_id}
use nexora_core.Postgres.Users.Locking.{update-UserStep, update-update}
use nexora_core.Postgres.Users.Mapping.{IsStored, kept, get_by_id-create}

abbrev texts : Texts
texts = record {
  is_uuid = λ s. true;
  lower = λ s. s;
  trim_space = λ s. s;
  parse_mac = λ s. if is_empty s then none else some (1 ∷ 2 ∷ []);
  show_mac = λ bytes. "01:02";
  marshal_text = λ s. s;
  unmarshal_text = λ s. ok s;
}

abbrev to_micros : ℤ → ℤ
to_micros (pos n) = pos (n / 1000 * 1000)
to_micros (negsuc n) = negsuc (n / 1000 * 1000 + 999)

abbrev sql : Sql
sql = record {
  texts = texts;
  check = λ row. none;
  no_bigint = plain "out of range";
  uuid = λ s. s;
  stored_time = to_micros;
}

abbrev account : User
account = record {
  id = "u1";
  username = "awa";
  email = "awa@example.org";
  password_hash = "$2a$10$h";
  mac = none;
  role = "user";
  tenant_id = "t1";
  active = true;
  expired_at = none;
  max_sessions = pos 2;
  data_quota = 100;
  used_data = 7;
  version = 1;
  created_at = pos 5;
  updated_at = pos 5;
  mfa_enabled = false;
}

abbrev stored : UserRow
stored = new_row sql account (pos 1)

abbrev table : UserTable
table = ("u1", stored) ∷ []

abbrev suspended : User
suspended = record account { active = false; version = 2; updated_at = pos 9 }

abbrev edited : User
edited = record account { email = "awa@example.com" }

deactivated : deactivate (pos 9) account ≡ suspended
unfolding deactivate
deactivated = refl

changes : deactivate (pos 9) account ≢ account
unfolding deactivate
changes e = ground (arith, ap (λ (u : User). u.active) e)

update-UserStep_example :
    (e : Error) × (update sql delivered (pos 10) (deactivate (pos 9) account) table
      ≡ (err e, table))
update-UserStep_example =
    update-UserStep sql (pos 10) stored table (UserStep.deactivate_step (pos 9) account) changes
      (omega arith) refl refl

first_update : (update sql delivered (pos 10) account table).0 ≡ ok tt
unfolding update update_row bigint
first_update = refl

update-update_example :
    let table' = (update sql delivered (pos 10) account table).1 in
    (e : Error) × (update sql delivered (pos 11) edited table' ≡ (err e, table'))
update-update_example =
    update-update sql (pos 10) (pos 11) account edited table refl refl first_update

created_first : (create sql delivered account []).0 ≡ ok tt
unfolding create insert_row bigint find_name
created_first = refl

account-IsStored : IsStored sql account
unfolding parse_user_id new_tenant_id new_username new_email new_password_hash matches_email
    matches_username
account-IsStored = record {
  id = refl;
  tenant = refl;
  username = refl;
  email = refl;
  hash = refl;
  mac = λ bytes e. ground (arith, e);
  sessions = refl;
  quota = omega arith;
}

get_by_id-create_example :
    let table' = (create sql delivered account []).1 in
    get_by_id sql delivered "u1" table' ≡ (ok (kept sql account), table')
get_by_id-create_example = get_by_id-create sql account [] account-IsStored created_first

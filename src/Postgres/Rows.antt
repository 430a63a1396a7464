-- ===== src/Postgres/Rows.antt =====
-- The rows of the table of users in internal/adapters/secondary/postgres/user_repository.go, and the
-- mapping between them and the aggregate. The checks of the schema other than the unique keys, and the
-- error of pgx for a number that is no bigint, are the parameter `Sql`, with the spelling of the server
-- for a UUID and what a TIMESTAMPTZ keeps of a time (microseconds).
use nexora_core.Prelude.{
  ℕ, suc, ◌-◌, ◌^◌, String, Bool, Option, none, some, List, Dict, ltb, if◌then◌else◌,
}
use nexora_core.Prelude.Int.{ℤ, pos, negsuc, ◌+ℤ◌}
use nexora_core.Domain.Errors.{Error, Result, ok, err, ◌>>=◌}
use nexora_core.Domain.User.{User, rehydrate_user}
use nexora_core.Domain.Values.{
  Texts, parse_user_id, new_tenant_id, new_username, new_email, new_password_hash, Mac,
  parse_mac_text,
}

-- `userModel`
pub record UserRow : Type 0 where
  pub id : String
  pub tenant_id : String
  pub username : String
  pub email : Option String
  pub password_hash : String
  pub role : String
  pub mac_address : Option String
  pub active : Bool
  pub expired_at : Option ℤ
  pub max_sessions : ℤ
  pub data_quota : ℤ
  pub used_data : ℤ
  pub version : ℤ
  pub created_at : ℤ
  pub updated_at : ℤ
  pub mfa_enabled : Bool

abbrev pub UserTable : Type 0
UserTable = Dict UserRow

pub record Sql : Type 0 where
  pub texts : Texts
  pub check : UserRow → Option Error
  pub no_bigint : Error
  pub uuid : String → String
  pub stored_time : ℤ → ℤ

-- The casts between `uint64` and `int64`
unfoldable pub to_int64 : ℕ → ℤ
to_int64 n = if ltb n (2 ^ 63) then pos n else negsuc (2 ^ 64 - n - 1)

unfoldable pub of_int64 : ℤ → ℕ
of_int64 (pos n) = n
of_int64 (negsuc n) = 2 ^ 64 - suc n

-- A `uint64` as the argument of a bigint: pgx refuses one that is too large.
unfoldable pub bigint : Sql → ℕ → Result ℤ
bigint q n = if ltb n (2 ^ 63) then ok (pos n) else err q.no_bigint

abbrev pub map_option : {A B : Type 0} → (A → B) → Option A → Option B
map_option f none = none
map_option f (some a) = some (f a)

module _ (q : Sql) where
  abbrev pub mac_column : Option (List ℕ) → Option String
  mac_column = map_option q.texts.show_mac

  -- The values of `Create`.
  abbrev pub new_row : User → ℤ → UserRow
  new_row u version = record {
    id = q.uuid u.id;
    tenant_id = q.uuid u.tenant_id;
    username = u.username;
    email = some u.email;
    password_hash = u.password_hash;
    role = u.role;
    mac_address = mac_column u.mac;
    active = u.active;
    expired_at = map_option q.stored_time u.expired_at;
    max_sessions = u.max_sessions;
    data_quota = to_int64 u.data_quota;
    used_data = pos 0;
    version = version;
    created_at = q.stored_time u.created_at;
    updated_at = q.stored_time u.updated_at;
    mfa_enabled = u.mfa_enabled;
  }

  -- The values that `Update` sets.
  abbrev pub set_columns : User → ℤ → UserRow → UserRow
  set_columns u now row = record row {
    email = some u.email;
    password_hash = u.password_hash;
    role = u.role;
    mac_address = mac_column u.mac;
    active = u.active;
    expired_at = map_option q.stored_time u.expired_at;
    max_sessions = u.max_sessions;
    data_quota = to_int64 u.data_quota;
    used_data = to_int64 u.used_data;
    mfa_enabled = u.mfa_enabled;
    version = row.version +ℤ pos 1;
    updated_at = now;
  }

  abbrev pub email_of : Option String → Result String
  email_of none = ok ""
  email_of (some e) = new_email q.texts e

  abbrev pub some_mac : Result (Mac q.texts) → Result (Option (List ℕ))
  some_mac (ok m) = ok m.value
  some_mac (err e) = err e

  abbrev pub mac_of_column : Option String → Result (Option (List ℕ))
  mac_of_column none = ok none
  mac_of_column (some m) = some_mac (parse_mac_text q.texts m)

  -- `mapToDomain`
  unfoldable pub map_to_domain : UserRow → Result User
  map_to_domain m = do
    id ← parse_user_id q.texts m.id
    tenant ← new_tenant_id q.texts m.tenant_id
    username ← new_username m.username
    email ← email_of m.email
    hash ← new_password_hash m.password_hash
    mac ← mac_of_column m.mac_address
    rehydrate_user (record {
      id = id;
      username = username;
      email = email;
      password_hash = hash;
      mac = mac;
      role = m.role;
      tenant_id = tenant;
      active = m.active;
      expired_at = m.expired_at;
      max_sessions = m.max_sessions;
      data_quota = of_int64 m.data_quota;
      used_data = of_int64 m.used_data;
      version = of_int64 m.version;
      created_at = m.created_at;
      updated_at = m.updated_at;
      mfa_enabled = m.mfa_enabled;
    })

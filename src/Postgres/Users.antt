-- ===== src/Postgres/Users.antt =====
-- internal/adapters/secondary/postgres/user_repository.go: the statements and the
-- queries on the table of users. The table is a map from the primary key, as the schema declares it. The outcome of each
-- statement and `NOW()` are arguments.
pub mod Locking
pub mod Mapping
mod Tests
use nexora_core.Prelude.{
  ℕ, suc, ◌+◌, ◌-◌, ◌%◌, ◌^◌, String, Bool, true, false, ◌&&◌, ◌||◌, Option, none, some, List, [],
  ◌∷◌, Dict, lookup, insert, erase, str_eq, ltb, ◌==◌, if◌then◌else◌,
}
use nexora_core.Prelude.Int.{ℤ, pos, negsuc, ◌+ℤ◌, leb_ℤ}
use nexora_core.Domain.Errors.{Error, domain, plain, wrap, Result, ok, err, err_user_not_found}
use nexora_core.Postgres.Rows.{UserRow, UserTable, Sql, bigint, new_row, set_columns, map_to_domain}
use nexora_core.Domain.User.{User, rehydrate_user}
use nexora_core.Domain.Values.{
  Texts, parse_user_id, new_tenant_id, new_username, new_email, new_password_hash, Mac,
  parse_mac_text,
}
use nexora_core.Redis.Client.{Delivery, Action, fail, attempt, lift, ◌>>=◌, ◌>>◌, call, query, send}

-- The outcome of an INSERT at the server.
pub data Inserted : Type 0 where
  inserted violated : Inserted
  refused : Error → Inserted

-- `WHERE tenant_id = … AND username = … LIMIT 1`
unfoldable pub find_name : String → String → UserTable → Option UserRow
find_name tenant name [] = none
find_name tenant name ((id, row) ∷ rows) =
    let rest = find_name tenant name rows in
    if str_eq row.tenant_id tenant && str_eq row.username name then some row else rest

abbrev pub is_there : {A : Type 0} → Option A → Bool
is_there none = false
is_there (some a) = true

abbrev unless_refused : Option Error → UserRow → UserTable → Inserted × UserTable
unless_refused none row w = (inserted, insert row.id row w)
unless_refused (some e) row w = (refused e, w)

abbrev pub written : Option Error → String → UserRow → UserTable → Result ℕ × UserTable
written none id row w = (ok 1, insert id row w)
written (some e) id row w = (err e, w)

abbrev pub created : Inserted → Result (Unit {0})
created inserted = ok tt
created violated = err (plain "conflict: user already exists in this tenant")
created (refused e) = err e

abbrev pub optimistic_failure : Error
optimistic_failure = plain "optimistic locking failure: user modified concurrently"

abbrev pub updated : Result ℕ → Result (Unit {0})
updated (err e) = err e
updated (ok n) = if n == 0 then err optimistic_failure else ok tt

module _ (q : Sql) where
  unfoldable pub delete : Delivery → String → Action UserTable (Unit {0})
  delete d id = send d (erase (q.uuid id))

  -- INSERT, with the primary key and the unique name in a tenant.
  unfoldable pub insert_row : UserRow → UserTable → Inserted × UserTable
  insert_row row w =
      if is_there (lookup row.id w) || is_there (find_name row.tenant_id row.username w)
      then (violated, w)
      else unless_refused (q.check row) row w

  abbrev pub update_found : User → ℤ → ℤ → UserTable → Option UserRow → Result ℕ × UserTable
  update_found u version now w none = (ok 0, w)
  update_found u version now w (some row) =
      if leb_ℤ row.version version && leb_ℤ version row.version
      then written (q.check (set_columns q u now row)) (q.uuid u.id) (set_columns q u now row) w
      else (ok 0, w)

  -- UPDATE … WHERE id = … AND version = …, with the number of rows.
  unfoldable pub update_row : User → ℤ → ℤ → UserTable → Result ℕ × UserTable
  update_row u version now w = update_found u version now w (lookup (q.uuid u.id) w)

  unfoldable pub create : Delivery → User → Action UserTable (Unit {0})
  create d u = do
    version ← lift (bigint q u.version)
    outcome ← call d (insert_row (new_row q u version))
    lift (created outcome)

  unfoldable pub update : Delivery → ℤ → User → Action UserTable (Unit {0})
  update d now u = do
    version ← lift (bigint q u.version)
    outcome ← call d (update_row u version now)
    lift (updated outcome)

  abbrev pub mapped : Option UserRow → Result User
  mapped none = err (domain err_user_not_found)
  mapped (some row) = map_to_domain q row

  unfoldable pub get_by_id : Delivery → String → Action UserTable User
  get_by_id d id = do row ← query d (lookup (q.uuid id)); lift (mapped row)

  abbrev mapped_name : Result (Option UserRow) → Result User
  mapped_name (ok row) = mapped row
  mapped_name (err e) = err (wrap "postgres_get_user: " e "")

  unfoldable pub get_by_username : Delivery → String → String → Action UserTable User
  get_by_username d tenant name = do
    row ← attempt (query d (find_name (q.uuid tenant) name))
    lift (mapped_name row)

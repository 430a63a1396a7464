-- ===== src/Postgres/Users/Mapping.antt =====
-- A user of user_repository.go that was created is read back.
use nexora_core.Prelude.{
  ℕ, ◌^◌, ◌<◌, ◌≡◌, refl, sym, ap, ◌∙◌, true, false, ◌||◌, Option, none, some, List, lookup, insert,
  lookup-insert_same, ltb, arith, Bool-cases, Option-cases, true, false, inl, inr,
}
use nexora_core.Prelude.Int.{pos, ltb_ℤ}
use nexora_core.Domain.Errors.{plain, Result, ok, err}
use nexora_core.Domain.User.{User, rehydrate_user}
use nexora_core.Domain.Values.{
  parse_user_id, new_tenant_id, new_username, new_email, new_password_hash, parse_mac_text,
}
use nexora_core.Redis.Client.{delivered, lift}
use nexora_core.Postgres.Rows.{
  UserRow, UserTable, Sql, bigint, to_int64, of_int64, new_row, map_option, map_to_domain,
  mac_column, mac_of_column,
}
use nexora_core.Services.Auth.Steps.{ok-ne}
use nexora_core.Postgres.Users.{
  insert_row, create, Inserted, inserted, violated, refused, created, is_there, get_by_id,
  find_name,
}

of_int64-to_int64 : (n : ℕ) → n < 2 ^ 64 → of_int64 (to_int64 n) ≡ n
unfolding of_int64 to_int64
of_int64-to_int64 n small = ground arith

-- The fields are values that their constructors give back.
pub record IsStored (q : Sql) (u : User) : Type 0 where
  pub id : parse_user_id q.texts (q.uuid u.id) ≡ ok u.id
  pub tenant : new_tenant_id q.texts (q.uuid u.tenant_id) ≡ ok u.tenant_id
  pub username : new_username u.username ≡ ok u.username
  pub email : new_email q.texts u.email ≡ ok u.email
  pub hash : new_password_hash u.password_hash ≡ ok u.password_hash
  pub mac :
      (bytes : List ℕ)
      → u.mac ≡ some bytes
      → q.texts.parse_mac (q.texts.show_mac bytes) ≡ some bytes
  pub sessions : ltb_ℤ u.max_sessions (pos 0) ≡ false
  pub quota : u.data_quota < 2 ^ 64

module _ (q : Sql) where
  -- What the table keeps of a new user.
  abbrev pub kept : User → User
  kept u = record u {
    used_data = 0;
    expired_at = map_option q.stored_time u.expired_at;
    created_at = q.stored_time u.created_at;
    updated_at = q.stored_time u.updated_at;
  }

  mac_of-mac_column :
      (m : Option (List ℕ))
      → ((bytes : List ℕ)
          → m ≡ some bytes
          → q.texts.parse_mac (q.texts.show_mac bytes) ≡ some bytes)
      → mac_of_column q (mac_column q m) ≡ ok m
  unfolding parse_mac_text
  mac_of-mac_column none back = refl
  mac_of-mac_column (some bytes) back = rw (parse_mac_text, back bytes refl) refl

  map_to_domain-new_row :
      (u : User) → IsStored q u → map_to_domain q (new_row q u (pos u.version)) ≡ ok (kept u)
  unfolding map_to_domain rehydrate_user of_int64
  map_to_domain-new_row u s =
      rw
        (
          map_to_domain,
          s.id,
          s.tenant,
          s.username,
          s.email,
          s.hash,
          mac_of-mac_column u.mac s.mac,
          rehydrate_user,
          s.sessions,
        )
        (ap (λ (n : ℕ). ok (record (kept u) { data_quota = n }))
          (of_int64-to_int64 u.data_quota s.quota))

  create-run :
      (u : User) (w : UserTable)
      → ltb u.version (2 ^ 63) ≡ true
      → let (r, w') = insert_row q (new_row q u (pos u.version)) w in
        create q delivered u w ≡ (created r, w')
  unfolding create bigint
  create-run u w fits =
      rw (create, fits, bigint) (run (insert_row q (new_row q u (pos u.version)) w))
    where
      run : (p : Inserted × UserTable) → lift (created p.0) p.1 ≡ (created p.0, p.1)
      run (inserted, t) = refl
      run (violated, t) = refl
      run (refused e, t) = refl

  -- A row is inserted when the answer says so.
  insert_row-inserted :
      (row : UserRow) (w : UserTable)
      → created (insert_row q row w).0 ≡ ok tt
      → (insert_row q row w).1 ≡ insert row.id row w
  unfolding insert_row
  insert_row-inserted row w h =
      elim (Bool-cases
        (is_there (lookup row.id w) || is_there (find_name row.tenant_id row.username w))) [
          | inl there ↦
              let answer : created (insert_row q row w).0 ≡ created violated =
                rw (insert_row, there) refl in
              absurd
                (ok-ne (plain "conflict: user already exists in this tenant") tt (sym answer ∙ h))
          | inr fresh ↦ elim (Option-cases (q.check row)) [
            | inl accepted ↦ rw (insert_row, fresh) (rw accepted refl)
            | inr (e, failed) ↦
                let answer : (insert_row q row w).0 ≡ refused e =
                  rw (insert_row, fresh) (rw failed refl) in
                absurd (ok-ne e tt (sym (ap created answer) ∙ h))
          ]
        ]

  -- What a successful creation has written.
  create-written :
      (u : User) (w : UserTable)
      → (create q delivered u w).0 ≡ ok tt
      → (create q delivered u w).1 ≡ insert (q.uuid u.id) (new_row q u (pos u.version)) w
  unfolding create bigint
  create-written u w h = elim (Bool-cases (ltb u.version (2 ^ 63))) [
    | inr large ↦
        let refused : (create q delivered u w).0 ≡ err q.no_bigint =
          rw (create, large, bigint) refl in
        absurd (ok-ne q.no_bigint tt (sym refused ∙ h))
    | inl fits ↦
        let ran = create-run u w fits in
        ap (λ (p : Result (Unit {0}) × UserTable). p.1) ran
        ∙ insert_row-inserted (new_row q u (pos u.version)) w
            (sym (ap (λ (p : Result (Unit {0}) × UserTable). p.0) ran) ∙ h)
  ]

  -- A user that was created is found again under its identifier, as it was but with no used data and
  -- with its three times as the columns keep them: when the fields are values that their constructors
  -- read back from the spelling of the server, the number of sessions is not negative, the quota is
  -- below 2 ^ 64, and the creation succeeded.
  pub get_by_id-create :
      (u : User) (w : UserTable)
      → IsStored q u
      → (create q delivered u w).0 ≡ ok tt
      → let w' = (create q delivered u w).1 in get_by_id q delivered u.id w' ≡ (ok (kept u), w')
  unfolding get_by_id
  get_by_id-create u w s h =
      let w' = (create q delivered u w).1 in
      let found : lookup (q.uuid u.id) w' ≡ some (new_row q u (pos u.version)) =
        ap (λ (t : UserTable). lookup (q.uuid u.id) t) (create-written u w h)
        ∙ lookup-insert_same (q.uuid u.id) (new_row q u (pos u.version)) w in
      rw (get_by_id, found, map_to_domain-new_row u s) refl

-- ===== src/Postgres/Users/Locking.antt =====
-- The optimistic locking of user_repository.go.
use nexora_core.Prelude.{
  ℕ, ◌+◌, ◌%◌, ◌^◌, ◌<◌, ◌≡◌, ◌≢◌, inl, inr, refl, sym, ap, ◌∙◌, String, Bool, true, false, ◌&&◌,
  some, lookup, insert, lookup-insert_same, ltb, Bool-cases, Option-cases, arith,
}
use nexora_core.Prelude.Int.{ℤ, pos, negsuc, ◌+ℤ◌, leb_ℤ}
use nexora_core.Domain.Errors.{Error, Result, ok, err}
use nexora_core.Domain.User.{User}
use nexora_core.Domain.User.Life.{UserStep, step_versioned}
use nexora_core.Redis.Client.{delivered, lift}
use nexora_core.Services.Auth.Steps.{ok-ne}
use nexora_core.Postgres.Rows.{UserRow, UserTable, Sql, bigint, set_columns}
use nexora_core.Postgres.Users.{update_row, optimistic_failure, updated, update}

abbrev same_version : ℤ → ℤ → Bool
same_version a b = leb_ℤ a b && leb_ℤ b a

next_version :
    (z : ℤ) (n : ℕ) → same_version z (pos n) ≡ true → same_version (z +ℤ pos 1) (pos n) ≡ false
unfolding ◌+ℤ◌
next_version (pos k) n e = ground arith
next_version (negsuc k) n e = ground arith

module _ (q : Sql) (now : ℤ) where
  -- The answer of the statement, with the version that the user carries.
  update-run :
      (u : User) (w : UserTable)
      → ltb u.version (2 ^ 63) ≡ true
      → let (r, w') = update_row q u (pos u.version) now w in
        update q delivered now u w ≡ (updated r, w')
  unfolding update bigint
  update-run u w fits = rw (update, fits, bigint) (run (update_row q u (pos u.version) now w))
    where
      run : (p : Result ℕ × UserTable) → lift (updated p.0) p.1 ≡ (updated p.0, p.1)
      run p = go (updated p.0)
        where
          go : (x : Result (Unit {0})) → lift x p.1 ≡ (x, p.1)
          go (ok a) = refl
          go (err e) = refl

  -- A row with another version, or none, is not touched.
  update_row-other :
      (u : User) (w : UserTable) (row : UserRow)
      → lookup (q.uuid u.id) w ≡ some row
      → same_version row.version (pos u.version) ≡ false
      → update_row q u (pos u.version) now w ≡ (ok 0, w)
  unfolding update_row
  update_row-other u w row found differ = rw (update_row, found) (rw differ refl)

  update-other :
      (u : User) (w : UserTable) (row : UserRow)
      → lookup (q.uuid u.id) w ≡ some row
      → same_version row.version (pos u.version) ≡ false
      → (e : Error) × (update q delivered now u w ≡ (err e, w))
  unfolding update bigint
  update-other u w row found differ = elim (Bool-cases (ltb u.version (2 ^ 63))) [
    | inl fits ↦ (
      optimistic_failure,
      update-run u w fits
          ∙ ap (λ (p : Result ℕ × UserTable). (updated p.0, p.1))
              (update_row-other u w row found differ),
    )
    | inr large ↦ (q.no_bigint, rw (update, large, bigint) refl)
  ]

  -- No change of a user can be stored: when the table holds the user with the version that was loaded
  -- and a method has changed the user, the update of the changed user reports an error and leaves the
  -- table as it was, since the method has counted the version up.
  pub update-UserStep :
      {u v : User} (row : UserRow) (w : UserTable)
      → UserStep u v
      → v ≢ u
      → u.version < 2 ^ 63
      → lookup (q.uuid u.id) w ≡ some row
      → row.version ≡ pos u.version
      → (e : Error) × (update q delivered now v w ≡ (err e, w))
  update-UserStep {u} {v} row w step changed small found version =
      let (bumped, id, tenant, role, quota) = step_versioned step in
      let counted : v.version ≡ (u.version + 1) % 2 ^ 64 = elim bumped [
        | inl same ↦ absurd (changed same)
        | inr up ↦ up
      ] in
      let differ : same_version (pos u.version) (pos v.version) ≡ false = ground (arith, counted) in
      update-other v w row (ap (λ (i : String). lookup (q.uuid i) w) id ∙ found)
        (ap (λ (z : ℤ). same_version z (pos v.version)) version ∙ differ)

  updated-ok : (r : Result ℕ) → updated r ≡ ok tt → r ≢ ok 0
  updated-ok r h zero = ok-ne optimistic_failure tt (sym (ap (updated) zero) ∙ h)

  -- What a successful update has found and written.
  update-found :
      (u : User) (w : UserTable)
      → (update q delivered now u w).0 ≡ ok tt
      → (row : UserRow) × (same_version row.version (pos u.version) ≡ true)
        × ((update q delivered now u w).1 ≡ insert (q.uuid u.id) (set_columns q u now row) w)
  unfolding update bigint update_row
  update-found u w h = elim (Bool-cases (ltb u.version (2 ^ 63))) [
    | inr large ↦
        let refused : (update q delivered now u w).0 ≡ err q.no_bigint =
          rw (update, large, bigint) refl in
        absurd (ok-ne q.no_bigint tt (sym refused ∙ h))
    | inl fits ↦
        let ran = update-run u w fits in
        let answer : updated (update_row q u (pos u.version) now w).0 ≡ ok tt =
          sym (ap (λ (p : Result (Unit {0}) × UserTable). p.0) ran) ∙ h in
        let after = ap (λ (p : Result (Unit {0}) × UserTable). p.1) ran in
        elim (Option-cases (lookup (q.uuid u.id) w)) [
          | inl none_there ↦ absurd (
              updated-ok (update_row q u (pos u.version) now w).0 answer
                (rw (update_row, none_there) refl))
          | inr (row, found) ↦ elim (Bool-cases (same_version row.version (pos u.version))) [
            | inr differ ↦ absurd (
                updated-ok (update_row q u (pos u.version) now w).0 answer
                  (ap (λ (p : Result ℕ × UserTable). p.0) (update_row-other u w row found differ)))
            | inl same ↦ elim (Option-cases (q.check (set_columns q u now row))) [
              | inr (e, refused) ↦
                  let failed : (update_row q u (pos u.version) now w).0 ≡ err e =
                    rw (update_row, found) (rw (same, refused) refl) in
                  absurd (ok-ne e tt (sym (ap (updated) failed) ∙ answer))
              | inl accepted ↦
                  (row, same, after ∙ (rw (update_row, found) (rw (same, accepted) refl)))
            ]
          ]
        ]
  ]

-- No update is lost: once an update has succeeded, an update of the same user with the version that
-- it was made from reports an error and leaves the table as the first one left it.
pub update-update :
    (q : Sql) (now now' : ℤ) (u u' : User) (w : UserTable)
    → u'.id ≡ u.id
    → u'.version ≡ u.version
    → (update q delivered now u w).0 ≡ ok tt
    → let w' = (update q delivered now u w).1 in
      (e : Error) × (update q delivered now' u' w' ≡ (err e, w'))
update-update q now now' u u' w id version h =
    let (row, same, after) = update-found q now u w h in
    let row' = set_columns q u now row in
    let w' = (update q delivered now u w).1 in
    let found : lookup (q.uuid u'.id) w' ≡ some row' =
      ap (λ (i : String). lookup (q.uuid i) w') id
      ∙ ap (λ (t : UserTable). lookup (q.uuid u.id) t) after
      ∙ lookup-insert_same (q.uuid u.id) row' w in
    let differ : same_version row'.version (pos u'.version) ≡ false =
      ap (λ (n : ℕ). same_version row'.version (pos n)) version
      ∙ next_version row.version u.version same in
    update-other q now' u' w' row' found differ

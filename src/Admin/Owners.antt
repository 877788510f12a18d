-- ===== src/Admin/Owners.antt =====
-- Whatever the operations, somebody can always administer (admin.service.ts).
use reputo.Prelude.{
  ℕ, ◌≤◌, String, Bool, true, false, ◌&&◌, ◌≡◌, refl, Option, some, List, arith, str_eq, str_eq_iff,
  is_some, find, Bool-cases, Option-cases, inl, inr, ok,
}
use reputo.Admin.Allowlist.{
  AccessRole, AllowlistRow, EmailRules, is_owner, has_key, is_current, update, count_active_owners,
  create_admin, restored, restore, update_role, soft_revoke, find_active_by_provider_email,
  update_and_read,
}
use reputo.Admin.Service.{User, State, check_role, check_remove}
use reputo.Admin.Counts.{
  IsUnique, keyed-update, owners-update_key, owners-update_raise, owners-update_other, keyed-of_any,
  KeepsKey,
}

-- One row to a key, and at least one active owner.
pub record IsAdministered (rows : List AllowlistRow) : Type 0 where
  pub unique : IsUnique rows
  pub owned : 1 ≤ count_active_owners "deep-id" rows

module _ (rules : EmailRules) where
  open rules use {normalize}

  create-IsUnique :
      (p e : String) (role : AccessRole) (actor : Option String) (now : ℕ)
      (rows : List AllowlistRow)
      → IsUnique rows
      → IsUnique (create_admin rules p e role actor now rows).1
  unfolding create_admin
  create-IsUnique p e role actor now rows u p' e' = ground (
    arith,
    u p' e',
    keyed-of_any p (normalize e) rows,
    str_eq_iff p p',
    str_eq_iff (normalize e) e',
  )

  create-owners :
      (p e : String) (role : AccessRole) (actor : Option String) (now : ℕ)
      (rows : List AllowlistRow) (p' : String)
      → count_active_owners p' rows
        ≤ count_active_owners p' (create_admin rules p e role actor now rows).1
  unfolding create_admin count_active_owners
  create-owners p e role actor now rows p' = ground arith

  abbrev Keeps : List AllowlistRow → List AllowlistRow → Type 0
  Keeps rows rows' = IsAdministered rows → IsAdministered rows'

  pub create-Keeps :
      (p e : String) (role : AccessRole) (actor : Option String) (now : ℕ)
      (rows : List AllowlistRow)
      → Keeps rows (create_admin rules p e role actor now rows).1
  create-Keeps p e role actor now rows i = record {
    unique = create-IsUnique p e role actor now rows i.unique;
    owned = omega (arith, i.owned, create-owners p e role actor now rows "deep-id");
  }

  -- What the three updates keep.
  update_and_read-Keeps :
      (p e : String) (g : AllowlistRow → Bool) (f : AllowlistRow → AllowlistRow)
      (rows : List AllowlistRow)
      → KeepsKey f
      → (str_eq (normalize e) "" ≡ false
          → 1 ≤ count_active_owners "deep-id" rows
          → 1
            ≤ count_active_owners "deep-id"
                (update (λ row. has_key p (normalize e) row && g row) f rows))
      → Keeps rows (update_and_read rules p e g f rows).1
  unfolding update_and_read
  update_and_read-Keeps p e g f rows k h i =
      let q : AllowlistRow → Bool = λ row. has_key p (normalize e) row && g row in
      let after : str_eq (normalize e) "" ≡ false → IsAdministered (update q f rows) = λ named.
        record {
          unique = λ p' e'. omega (arith, i.unique p' e', keyed-update q f p' e' rows k);
          owned = h named i.owned;
        } in
      ground (arith, i, after)

  pub restore-Keeps :
      (p e : String) (actor : Option String) (now : ℕ) (role : Option AccessRole)
      (rows : List AllowlistRow)
      → Keeps rows (restore rules p e actor now role rows).1
  unfolding restore
  restore-Keeps p e actor now role rows =
      update_and_read-Keeps p e (λ row. is_some row.revoked_at) (restored actor now role) rows
        (λ row. (refl, refl))
        λ _ o. omega (
          arith,
          o,
          owners-update_raise "deep-id"
              (λ row. has_key p (normalize e) row && is_some row.revoked_at)
              (restored actor now role) rows (λ row c. ground arith),
        )

  -- A write at the key of an active row: nobody is lost with a row that is no owner, and one at
  -- most otherwise.
  written :
      (e : String) (f : AllowlistRow → AllowlistRow) (rows : List AllowlistRow) {row : AllowlistRow}
      → IsUnique rows
      → find (λ row. has_key "deep-id" e row && is_current row) rows ≡ some row
      → (is_owner row.role ≡ true → 2 ≤ count_active_owners "deep-id" rows)
      → 1 ≤ count_active_owners "deep-id" rows
      → 1
        ≤ count_active_owners "deep-id"
            (update (λ row. has_key "deep-id" e row && is_current row) f rows)
  written e f rows {row} u h two one = elim (Bool-cases (is_owner row.role)) [
    | inl t ↦ omega (arith, two t, u "deep-id" e, owners-update_key "deep-id" e is_current f rows)
    | inr n ↦ omega (arith, one, owners-update_other "deep-id" e f rows (u "deep-id" e) h n)
  ]

  -- What the checks of a change of role let pass.
  check_role-safe :
      (actor : User) (e : String) (role : AccessRole) (s : State) {row : AllowlistRow}
      → check_role rules actor "deep-id" e role s ≡ ok (row, true)
      → (find_active_by_provider_email rules "deep-id" e s.allowlist ≡ some row)
        × (is_owner row.role ≡ true → 2 ≤ count_active_owners "deep-id" s.allowlist)
  unfolding check_role
  check_role-safe actor e role s h =
      elim (Option-cases (find_active_by_provider_email rules "deep-id" e s.allowlist)) [
        | inl n ↦ ground (arith, n, h)
        | inr (found, f) ↦ ground (arith, f, h)
      ]

  check_remove-safe :
      (actor : User) (e : String) (s : State) {row : AllowlistRow}
      → check_remove rules actor "deep-id" e s ≡ ok row
      → (find_active_by_provider_email rules "deep-id" e s.allowlist ≡ some row)
        × (is_owner row.role ≡ true → 2 ≤ count_active_owners "deep-id" s.allowlist)
  unfolding check_remove
  check_remove-safe actor e s h =
      elim (Option-cases (find_active_by_provider_email rules "deep-id" e s.allowlist)) [
        | inl n ↦ ground (arith, n, h)
        | inr (found, f) ↦ ground (arith, f, h)
      ]

  pub role-Keeps :
      (actor : User) (e : String) (role : AccessRole) (s : State) {row : AllowlistRow}
      → check_role rules actor "deep-id" e role s ≡ ok (row, true)
      → Keeps s.allowlist (update_role rules "deep-id" e role s.allowlist).1
  unfolding update_role find_active_by_provider_email
  role-Keeps actor e role s {row} h i =
      let (found, two) = check_role-safe actor e role s h in
      update_and_read-Keeps "deep-id" e is_current (λ row. record row { role = role }) s.allowlist
        (λ row. (refl, refl))
        (λ named one.
          written (normalize e) (λ row. record row { role = role }) s.allowlist {row = row} i.unique
            (ground arith) two one)
        i

  pub revoke-Keeps :
      (actor : User) (e by : String) (now : ℕ) (s : State) {row : AllowlistRow}
      → check_remove rules actor "deep-id" e s ≡ ok row
      → Keeps s.allowlist (soft_revoke rules "deep-id" e by now s.allowlist).1
  unfolding soft_revoke find_active_by_provider_email
  revoke-Keeps actor e by now s {row} h i =
      let (found, two) = check_remove-safe actor e s h in
      update_and_read-Keeps "deep-id" e is_current _ s.allowlist (λ row. (refl, refl))
        (λ named one.
          written (normalize e) (λ row. record row { revoked_at = some now; revoked_by = some by })
            s.allowlist {row = row} i.unique (ground arith) two one)
        i

-- ===== src/Admin/Allowlist.antt =====
-- apps/api/src/admin/admin-allowlist.repository.ts: the table of those who may sign in. Its key is
-- the pair of provider and normalized e-mail address (a unique index of the table).
use reputo.Prelude.{
  ℕ, String, Bool, true, false, not, ◌&&◌, Option, none, some, List, [], ◌∷◌, str_eq, find, count,
  any, is_some, or_else, if◌then◌else◌,
}

pub data AccessRole : Type 0 where
  owner admin : AccessRole

abbrev pub is_owner : AccessRole → Bool
is_owner owner = true
is_owner admin = false

pub record AllowlistRow : Type 0 where
  pub provider : String
  pub email : String
  pub role : AccessRole
  pub invited_by : Option String
  pub invited_at : ℕ
  pub revoked_at : Option ℕ
  pub revoked_by : Option String

-- `email.trim().toLowerCase()`, over all of Unicode, and the library's `isEmail`
pub record EmailRules : Type 0 where
  pub normalize : String → String
  pub is_email : String → Bool

abbrev pub has_key : String → String → AllowlistRow → Bool
has_key provider email row = str_eq row.provider provider && str_eq row.email email

abbrev pub is_current : AllowlistRow → Bool
is_current row = not (is_some row.revoked_at)

-- `repo.update(where, set)`: the rows, and whether any was affected
unfoldable pub update :
    (AllowlistRow → Bool) → (AllowlistRow → AllowlistRow) → List AllowlistRow → List AllowlistRow
update p f [] = []
update p f (row ∷ rows) = (if p row then f row else row) ∷ update p f rows

unfoldable pub count_active_owners : String → List AllowlistRow → ℕ
count_active_owners provider =
    count (λ row. str_eq row.provider provider && is_owner row.role && is_current row)

-- the columns that `restore` sets
abbrev pub restored : Option String → ℕ → Option AccessRole → AllowlistRow → AllowlistRow
restored actor now role row = record row {
  invited_by = actor;
  invited_at = now;
  role = or_else role admin;
  revoked_at = none;
  revoked_by = none;
}

module _ (rules : EmailRules) where
  open rules use {normalize}

  unfoldable pub find_active_by_provider_email :
      String → String → List AllowlistRow → Option AllowlistRow
  find_active_by_provider_email provider email rows =
      if str_eq (normalize email) ""
      then none
      else find (λ row. has_key provider (normalize email) row && is_current row) rows

  unfoldable pub find_by_provider_email : String → String → List AllowlistRow → Option AllowlistRow
  find_by_provider_email provider email rows =
      if str_eq (normalize email) "" then none else find (has_key provider (normalize email)) rows

  -- Nothing where the unique index refuses the row.
  unfoldable pub create_admin :
      String
      → String
      → AccessRole
      → Option String
      → ℕ
      → List AllowlistRow
      → Option AllowlistRow × List AllowlistRow
  create_admin provider email role actor now rows =
      let row : AllowlistRow = record {
        provider = provider;
        email = normalize email;
        role = role;
        invited_by = actor;
        invited_at = now;
        revoked_at = none;
        revoked_by = none;
      } in
      if any (has_key provider (normalize email)) rows then (none, rows) else (some row, row ∷ rows)

  -- What the three updates have in common: the guard on the address, the update, and the row that
  -- is read back where a row was affected.
  unfoldable pub update_and_read :
      String
      → String
      → (AllowlistRow → Bool)
      → (AllowlistRow → AllowlistRow)
      → List AllowlistRow
      → Option AllowlistRow × List AllowlistRow
  update_and_read provider email p f rows =
      let q : AllowlistRow → Bool = λ row. has_key provider (normalize email) row && p row in
      let rows' = update q f rows in
      if str_eq (normalize email) ""
      then (none, rows)
      else if any q rows
      then (find (has_key provider (normalize email)) rows', rows')
      else (none, rows')

  unfoldable pub restore :
      String
      → String
      → Option String
      → ℕ
      → Option AccessRole
      → List AllowlistRow
      → Option AllowlistRow × List AllowlistRow
  unfolding update_and_read
  restore provider email actor now role =
      update_and_read provider email (λ row. is_some row.revoked_at) (restored actor now role)

  unfoldable pub update_role :
      String → String → AccessRole → List AllowlistRow → Option AllowlistRow × List AllowlistRow
  unfolding update_and_read
  update_role provider email role =
      update_and_read provider email is_current (λ row. record row { role = role })

  unfoldable pub soft_revoke :
      String → String → String → ℕ → List AllowlistRow → Option AllowlistRow × List AllowlistRow
  unfolding update_and_read
  soft_revoke provider email actor now =
      update_and_read provider email is_current
        (λ row. record row { revoked_at = some now; revoked_by = some actor })

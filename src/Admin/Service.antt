-- ===== src/Admin/Service.antt =====
-- apps/api/src/admin/admin.service.ts: the operations on the allowlist. Views, listings and log lines
-- are not modelled; an operation gives the row that the view is made of.
use reputo.Prelude.{
  ℕ, String, Bool, true, false, not, ◌&&◌, ◌||◌, Option, none, some, List, str_eq, find, is_some,
  or_else, leb, if◌then◌else◌, Result, ok, err, ◌>>=◌,
}
use reputo.Sessions
use reputo.Sessions.{Session}
use reputo.Admin.Allowlist.{
  AccessRole, owner, admin, is_owner, AllowlistRow, EmailRules, find_active_by_provider_email,
  find_by_provider_email, count_active_owners, create_admin, restore, update_role, soft_revoke,
}

pub record User : Type 0 where
  pub id : String
  pub provider : String
  pub email : Option String

-- The exceptions, named for the `outcome` that the service logs.
pub data AdminError : Type 0 where
  unsupported_provider bad_email active_conflict restore_required race_conflict not_found :
      AdminError
  self_demote_blocked last_owner_blocked self_protect owner_email_conflict : AdminError

pub record State : Type 0 where
  pub allowlist : List AllowlistRow
  pub users : List User  -- the latest update first
  pub sessions : List Session

-- An operation throws, or gives a value; the state comes back in both cases.
abbrev pub Step : Type 0 → Type 0
Step A = Result AdminError A × State

same_role : AccessRole → AccessRole → Bool
same_role owner owner = true
same_role admin admin = true
same_role _ _ = false

-- `OAUTH_PROVIDERS.includes(provider)`
unfoldable pub require_provider : String → Result AdminError String
require_provider provider =
    if str_eq provider "deep-id" then ok provider else err unsupported_provider

module _ (rules : EmailRules) where
  open rules use {normalize, is_email}

  unfoldable pub normalize_email_or_throw : String → Result AdminError String
  normalize_email_or_throw email =
      if str_eq (normalize email) "" || not (is_email (normalize email))
      then err bad_email
      else ok (normalize email)

  -- provider and address of the target
  unfoldable pub target : String → String → Result AdminError (String × String)
  unfolding require_provider normalize_email_or_throw
  target provider email = do
    p ← require_provider provider
    e ← normalize_email_or_throw email
    ok (p, e)

  -- `actor.email ? normalizeEmail(actor.email) : undefined`, compared to an address
  abbrev pub is_actor : User → String → Bool
  is_actor actor email = elim actor.email [
    | none ↦ false
    | some own ↦ if str_eq own "" then false else str_eq (normalize own) email
  ]

  -- The checks of `addAdmin`, before anything is written.
  unfoldable pub check_add : String → String → State → Result AdminError (Unit {0})
  check_add provider email s = elim (find_by_provider_email rules provider email s.allowlist) [
    | none ↦ ok tt
    | some row ↦ if is_some row.revoked_at then err restore_required else err active_conflict
  ]

  abbrev pub with_rows : State → List AllowlistRow → State
  with_rows s rows = record s { allowlist = rows }

  abbrev pub answer :
      AdminError → State → Option AllowlistRow × List AllowlistRow → Step AllowlistRow
  answer e s (none, rows) = (err e, with_rows s rows)
  answer e s (some row, rows) = (ok row, with_rows s rows)

  unfoldable pub add_admin :
      User → ℕ → String → String → Option AccessRole → State → Step AllowlistRow
  add_admin actor now provider email role s = elim (target provider email) [
    | err e ↦ (err e, s)
    | ok (p, e) ↦ elim (check_add p e s) [
      | err x ↦ (err x, s)
      | ok _ ↦
          answer race_conflict s
            (create_admin rules p e (or_else role admin) (some actor.id) now s.allowlist)
    ]
  ]

  unfoldable pub restore_admin : User → ℕ → String → String → State → Step AllowlistRow
  restore_admin actor now provider email s = elim (target provider email) [
    | err e ↦ (err e, s)
    | ok (p, e) ↦ answer not_found s (restore rules p e (some actor.id) now none s.allowlist)
  ]

  -- The checks of `updateRole`: the row, and whether its role is to be written at all.
  unfoldable pub check_role :
      User → String → String → AccessRole → State → Result AdminError (AllowlistRow × Bool)
  unfolding same_role
  check_role actor provider email role s =
      elim (find_active_by_provider_email rules provider email s.allowlist) [
        | none ↦ err not_found
        | some row ↦
            let demotion = is_owner row.role && not (is_owner role) in
            if same_role row.role role
            then ok (row, false)
            else if demotion && is_actor actor email
            then err self_demote_blocked
            else if demotion && leb (count_active_owners provider s.allowlist) 1
            then err last_owner_blocked
            else ok (row, true)
      ]

  unfoldable pub change_role : User → String → String → AccessRole → State → Step AllowlistRow
  change_role actor provider email role s = elim (target provider email) [
    | err e ↦ (err e, s)
    | ok (p, e) ↦ elim (check_role actor p e role s) [
      | err x ↦ (err x, s)
      | ok (row, false) ↦ (ok row, s)
      | ok (row, true) ↦ answer not_found s (update_role rules p e role s.allowlist)
    ]
  ]

  -- The checks of `removeAdmin`.
  unfoldable pub check_remove : User → String → String → State → Result AdminError AllowlistRow
  check_remove actor provider email s =
      if is_actor actor email
      then err self_protect
      else elim (find_active_by_provider_email rules provider email s.allowlist) [
        | none ↦ err not_found
        | some row ↦
            if is_owner row.role && leb (count_active_owners provider s.allowlist) 1
            then err last_owner_blocked
            else ok row
      ]

  -- `oauthUserRepository.findByProviderEmail`
  unfoldable pub find_user : String → String → List User → Option User
  find_user provider email users =
      if str_eq (normalize email) ""
      then none
      else find
          (λ u.
            str_eq u.provider provider
            && elim u.email [ none ↦ false | some own ↦ str_eq own (normalize email) ])
          users

  -- `authSessionRepository.revokeAllByUserId` of the target, if it ever signed in
  unfoldable pub revoke_target : ℕ → String → String → State → State
  revoke_target now provider email s = elim (find_user provider email s.users) [
    | none ↦ s
    | some user ↦ record s { sessions = (Sessions.revoke_all_by_user_id user.id now s.sessions).1 }
  ]

  abbrev pub finish_remove :
      ℕ → String → String → State → Option AllowlistRow × List AllowlistRow → Step (Unit {0})
  finish_remove now provider email s (none, rows) = (err not_found, with_rows s rows)
  finish_remove now provider email s (some row, rows) =
      (ok tt, revoke_target now provider email (with_rows s rows))

  -- What follows the checks: the row, then the sessions, whose number is only logged.
  unfoldable pub write_remove : User → ℕ → String → String → State → Step (Unit {0})
  write_remove actor now provider email s =
      finish_remove now provider email s (soft_revoke rules provider email actor.id now s.allowlist)

  unfoldable pub remove_admin : User → ℕ → String → String → State → Step (Unit {0})
  remove_admin actor now provider email s = elim (target provider email) [
    | err e ↦ (err e, s)
    | ok (p, e) ↦ elim (check_remove actor p e s) [
      | err x ↦ (err x, s)
      | ok _ ↦ write_remove actor now p e s
    ]
  ]

  abbrev pub finish_seed : State → Option AllowlistRow × List AllowlistRow → Step (Unit {0})
  finish_seed s (none, rows) = (err race_conflict, with_rows s rows)
  finish_seed s (some _, rows) = (ok tt, with_rows s rows)

  -- `seedOwner`, at boot: the owner of the configuration has a row as an owner, or boot fails.
  unfoldable pub seed_owner : ℕ → String → Option String → State → Step (Unit {0})
  seed_owner now provider none s = (ok tt, s)
  seed_owner now provider (some email) s =
      elim (find_by_provider_email rules provider email s.allowlist) [
        | none ↦ finish_seed s (create_admin rules provider email owner none now s.allowlist)
        | some row ↦
            if is_some row.revoked_at
            then (
              ok tt,
              with_rows s (restore rules provider email none now (some owner) s.allowlist).1,
            )
            else if is_owner row.role
            then (ok tt, s)
            else (err owner_email_conflict, s)
      ]

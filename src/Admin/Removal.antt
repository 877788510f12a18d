-- ===== src/Admin/Removal.antt =====
-- What a removal and a boot achieve (admin.service.ts `removeAdmin`, `seedOwner`).
use reputo.Prelude.{
  ℕ, ◌≤◌, String, Bool, true, false, not, ◌&&◌, all, ◌++◌, ◌≡◌, refl, none, some, List, [], ◌∷◌,
  arith, str_eq, str_eq_iff, is_some, find, Option-cases, inl, inr, ok, Result-cases,
}
use reputo.Sessions.Active.{active_count, none_left}
use reputo.Admin.Allowlist.{
  owner, AllowlistRow, EmailRules, count_active_owners, create_admin, restore, restored,
  update_and_read, update, soft_revoke, is_current, has_key, is_owner,
  find_active_by_provider_email, find_by_provider_email,
}
use reputo.Admin.Service.{
  User, State, target, check_remove, remove_admin, write_remove, seed_owner, revoke_target,
  find_user,
}

gone :
    (p e by : String) (now : ℕ) (rows : List AllowlistRow)
    → find
        (λ row. has_key p e row && is_current row)
        (update
          (λ row. has_key p e row && is_current row)
          (λ row. record row { revoked_at = some now; revoked_by = some by })
          rows)
      ≡ none
unfolding update
gone p e by now [] = refl
gone p e by now (row ∷ rows) = ground (arith, gone p e by now rows)

-- The row that a boot restores is an active owner's.
seeded :
    (p e : String) (now : ℕ) (rows : List AllowlistRow) {row : AllowlistRow}
    → find (has_key p e) rows ≡ some row
    → is_some row.revoked_at ≡ true
    → 1
      ≤ count_active_owners p (
          update (λ r. has_key p e r && is_some r.revoked_at) (restored none now (some owner)) rows)
unfolding update count_active_owners
seeded p e now [] h r = cc
seeded p e now (first ∷ rows) {row} h r = ground (arith, seeded p e now rows {row = row})

found_owner :
    (p e : String) (rows : List AllowlistRow) {row : AllowlistRow}
    → find (has_key p e) rows ≡ some row
    → is_some row.revoked_at ≡ false
    → is_owner row.role ≡ true
    → 1 ≤ count_active_owners p rows
unfolding count_active_owners
found_owner p e [] h r o = cc
found_owner p e (first ∷ rows) {row} h r o = ground (arith, found_owner p e rows {row = row})

module _ (rules : EmailRules) where
  open rules use {normalize}

  revoked-gone :
      (p e by : String) (now : ℕ) (rows : List AllowlistRow)
      → find_active_by_provider_email rules p e (soft_revoke rules p e by now rows).1 ≡ none
  unfolding find_active_by_provider_email soft_revoke update_and_read
  revoked-gone p e by now rows = ground (arith, gone p (normalize e) by now rows)

  write_remove-gone :
      (actor : User) (now : ℕ) (p e : String) (s : State)
      → find_active_by_provider_email rules p e (write_remove rules actor now p e s).1.allowlist
        ≡ none
  unfolding write_remove revoke_target
  write_remove-gone actor now p e s = ground (arith, revoked-gone p e actor.id now s.allowlist)

  -- The query for the target's user, on one user.
  abbrev pub is_target : String → String → User → Bool
  is_target p e u =
      str_eq u.provider p && elim u.email [ none ↦ false | some own ↦ str_eq own (normalize e) ]

  find-first :
      (p e : String) (before after : List User) (user : User)
      → all (λ u. not (is_target p e u)) before ≡ true
      → is_target p e user ≡ true
      → find (is_target p e) (before ++ user ∷ after) ≡ some user
  find-first p e [] after user none_before is = ground (arith, is)
  find-first p e (u ∷ before) after user none_before is =
      ground (arith, find-first p e before after user, none_before, is)

  write_remove-out :
      (actor user : User) (now later : ℕ) (p e : String) (s : State) (before after : List User)
      → (write_remove rules actor now p e s).0 ≡ ok tt
      → (str_eq (normalize e) "" ≡ false)
      → s.users ≡ before ++ user ∷ after
      → all (λ u. not (is_target p e u)) before ≡ true
      → is_target p e user ≡ true
      → now ≤ later
      → active_count user.id later (write_remove rules actor now p e s).1.sessions ≡ 0
  unfolding write_remove revoke_target find_user
  write_remove-out actor user now later p e s before after h named users none_before is le =
      let out = none_left user.id now later s.sessions le in
      let found : find (is_target p e) s.users ≡ some user =
        ground (arith, users, find-first p e before after user none_before is) in
      elim (Option-cases (soft_revoke rules p e actor.id now s.allowlist).0) [
        | inl n ↦ ground (arith, n, h)
        | inr (row, r) ↦ ground (arith, r, h, named, found, out)
      ]

  -- A removal that returns leaves the target without an active row. If a user of the target's
  -- provider has the target's normalized address as its address, then the first such user has no
  -- session that is active at that time or later.
  pub remove_admin_lem :
      (actor user : User) (now later : ℕ) (provider email : String) (s : State) {p e : String}
      (before after : List User)
      → target rules provider email ≡ ok (p, e)
      → (remove_admin rules actor now provider email s).0 ≡ ok tt
      → s.users ≡ before ++ user ∷ after
      → all
          (λ u. not (
            str_eq u.provider p
            && elim u.email [ none ↦ false | some own ↦ str_eq own (normalize e) ]))
          before
        ≡ true
      → user.provider ≡ p
      → user.email ≡ some (normalize e)
      → (str_eq (normalize e) "" ≡ false)
      → now ≤ later
      → let s' = (remove_admin rules actor now provider email s).1 in
        (find_active_by_provider_email rules p e s'.allowlist ≡ none)
        × (active_count user.id later s'.sessions ≡ 0)
  unfolding remove_admin
  remove_admin_lem actor user now later provider email s {p} {e} before after t h users none_before
        same_provider same_email named le =
      let is : is_target p e user ≡ true = ground (
        arith,
        same_provider,
        same_email,
        str_eq_iff user.provider p,
        str_eq_iff (normalize e) (normalize e),
      ) in
      elim (Result-cases (check_remove rules actor p e s)) [
        | inr (x, c) ↦ ground (arith, t, c, h)
        | inl (row, c) ↦
            let done : (write_remove rules actor now p e s).0 ≡ ok tt = ground (arith, t, c, h) in
            let dead =
              write_remove-out actor user now later p e s before after done named users none_before
                is le in
            rw (remove_admin, t, c) (write_remove-gone actor now p e s, dead)
      ]

  found_key :
      (p e : String) (rows : List AllowlistRow) {row : AllowlistRow}
      → find_by_provider_email rules p e rows ≡ some row
      → (str_eq (normalize e) "" ≡ false) × (find (has_key p (normalize e)) rows ≡ some row)
  unfolding find_by_provider_email
  found_key p e rows h = ground arith

  -- A boot that succeeds for a configured owner leaves at least one active owner of the provider.
  pub seed_owner-owned :
      (now : ℕ) (provider email : String) (s : State)
      → (seed_owner rules now provider (some email) s).0 ≡ ok tt
      → 1 ≤ count_active_owners provider (seed_owner rules now provider (some email) s).1.allowlist
  unfolding seed_owner restore update_and_read create_admin count_active_owners
  seed_owner-owned now provider email s h =
      elim (Option-cases (find_by_provider_email rules provider email s.allowlist)) [
        | inl n ↦ ground (arith, n, h, str_eq_iff provider provider)
        | inr (row, f) ↦
            let (named, key) = found_key provider email s.allowlist f in
            ground (
              arith,
              f,
              h,
              named,
              seeded provider (normalize email) now s.allowlist key,
              found_owner provider (normalize email) s.allowlist key,
            )
      ]

-- ===== src/Admin/Administered.antt =====
-- The operations of admin.service.ts in any sequence, and those that race.
use reputo.Prelude.{
  ℕ, String, true, false, ◌≡◌, ◌⊎◌, Option, none, some, List, [], ◌∷◌, arith, str_eq_iff, inl, inr,
  ok, err, or_else, Result-cases, subst,
}
use reputo.Admin.Allowlist.{AccessRole, owner, admin, EmailRules, soft_revoke}
use reputo.Admin.Service.{
  User, State, target, check_role, check_remove, add_admin, restore_admin, change_role,
  remove_admin, write_remove, seed_owner, revoke_target, require_provider, normalize_email_or_throw,
  AdminError,
}
use reputo.Admin.Owners.{IsAdministered, create-Keeps, restore-Keeps, role-Keeps, revoke-Keeps}

-- The routes of the API that change the allowlist, and the boot.
pub data AdminOp : Type 0 where
  add : User → ℕ → String → String → Option AccessRole → AdminOp
  restore_one : User → ℕ → String → String → AdminOp
  change : User → String → String → AccessRole → AdminOp
  remove : User → ℕ → String → String → AdminOp
  seed : ℕ → Option String → AdminOp

module _ (rules : EmailRules) where
  -- The state after an operation, whether it threw or not.
  abbrev pub after : AdminOp → State → State
  after (add actor now provider email role) s = (add_admin rules actor now provider email role s).1
  after (restore_one actor now provider email) s =
      (restore_admin rules actor now provider email s).1
  after (change actor provider email role) s = (change_role rules actor provider email role s).1
  after (remove actor now provider email) s = (remove_admin rules actor now provider email s).1
  after (seed now email) s = (seed_owner rules now "deep-id" email s).1

  abbrev pub run_all : List AdminOp → State → State
  run_all [] s = s
  run_all (op ∷ ops) s = run_all ops (after op s)

  target-deep_id :
      (provider email : String) {p e : String}
      → target rules provider email ≡ ok (p, e)
      → p ≡ "deep-id"
  unfolding target require_provider normalize_email_or_throw
  target-deep_id provider email h = ground (arith, str_eq_iff provider "deep-id")

  write_remove-rows :
      (actor : User) (now : ℕ) (p e : String) (s : State)
      → (write_remove rules actor now p e s).1.allowlist
        ≡ (soft_revoke rules p e actor.id now s.allowlist).1
  unfolding write_remove revoke_target
  write_remove-rows actor now p e s = ground arith

  target-cases :
      (provider email : String)
      → ((x : AdminError) × (target rules provider email ≡ err x))
        ⊎ ((e : String) × (target rules provider email ≡ ok ("deep-id", e)))
  target-cases provider email = elim (Result-cases (target rules provider email)) [
    | inr (x, h) ↦ inl (x, h)
    | inl ((p, e), h) ↦ inr (
      e,
      subst (λ p'. target rules provider email ≡ ok (p', e)) (target-deep_id provider email h) h,
    )
  ]

  add-Keeps :
      (actor : User) (now : ℕ) (provider email : String) (role : Option AccessRole) (s : State)
      → IsAdministered s.allowlist
      → IsAdministered (add_admin rules actor now provider email role s).1.allowlist
  unfolding add_admin
  add-Keeps actor now provider email role s i = elim (target-cases provider email) [
    | inl (x, h) ↦ rw (add_admin, h) i
    | inr (e, h) ↦ ground (
      arith,
      h,
      i,
      create-Keeps rules "deep-id" e (or_else role admin) (some actor.id) now s.allowlist i,
    )
  ]

  restore_one-Keeps :
      (actor : User) (now : ℕ) (provider email : String) (s : State)
      → IsAdministered s.allowlist
      → IsAdministered (restore_admin rules actor now provider email s).1.allowlist
  unfolding restore_admin
  restore_one-Keeps actor now provider email s i = elim (target-cases provider email) [
    | inl (x, h) ↦ rw (restore_admin, h) i
    | inr (e, h) ↦
        ground (arith, h, i, restore-Keeps rules "deep-id" e (some actor.id) now none s.allowlist i)
  ]

  change-Keeps :
      (actor : User) (provider email : String) (role : AccessRole) (s : State)
      → IsAdministered s.allowlist
      → IsAdministered (change_role rules actor provider email role s).1.allowlist
  unfolding change_role
  change-Keeps actor provider email role s i = elim (target-cases provider email) [
    | inl (x, h) ↦ rw (change_role, h) i
    | inr (e, h) ↦ elim (Result-cases (check_role rules actor "deep-id" e role s)) [
      | inr (x, c) ↦ rw (change_role, h, c) i
      | inl ((row, false), c) ↦ rw (change_role, h, c) i
      | inl ((row, true), c) ↦
          ground (arith, h, c, i, role-Keeps rules actor e role s {row = row} c i)
    ]
  ]

  remove-Keeps :
      (actor : User) (now : ℕ) (provider email : String) (s : State)
      → IsAdministered s.allowlist
      → IsAdministered (remove_admin rules actor now provider email s).1.allowlist
  unfolding remove_admin
  remove-Keeps actor now provider email s i = elim (target-cases provider email) [
    | inl (x, h) ↦ rw (remove_admin, h) i
    | inr (e, h) ↦ elim (Result-cases (check_remove rules actor "deep-id" e s)) [
      | inr (x, c) ↦ rw (remove_admin, h, c) i
      | inl (row, c) ↦
          rw (remove_admin, h, c, write_remove-rows actor now "deep-id" e s)
            (revoke-Keeps rules actor e actor.id now s {row = row} c i)
    ]
  ]

  seed-Keeps :
      (now : ℕ) (email : Option String) (s : State)
      → IsAdministered s.allowlist
      → IsAdministered (seed_owner rules now "deep-id" email s).1.allowlist
  unfolding seed_owner
  seed-Keeps now none s i = i
  seed-Keeps now (some email) s i = ground (
    arith,
    i,
    create-Keeps rules "deep-id" email owner none now s.allowlist i,
    restore-Keeps rules "deep-id" email none now (some owner) s.allowlist i,
  )

  step-Keeps :
      (op : AdminOp) (s : State)
      → IsAdministered s.allowlist
      → IsAdministered (after op s).allowlist
  step-Keeps (add actor now provider email role) s i = add-Keeps actor now provider email role s i
  step-Keeps (restore_one actor now provider email) s i =
      restore_one-Keeps actor now provider email s i
  step-Keeps (change actor provider email role) s i = change-Keeps actor provider email role s i
  step-Keeps (remove actor now provider email) s i = remove-Keeps actor now provider email s i
  step-Keeps (seed now email) s i = seed-Keeps now email s i

  -- From a table with one row to a key and an active owner, any sequence of complete operations
  -- (additions, restorations, changes of role, removals, boots; by any actors, on any targets,
  -- succeeding or throwing) ends in a table with one row to a key and an active owner.
  pub run_all-IsAdministered :
      (ops : List AdminOp) (s : State)
      → IsAdministered s.allowlist
      → IsAdministered (run_all ops s).allowlist
  run_all-IsAdministered [] s i = i
  run_all-IsAdministered (op ∷ ops) s i =
      run_all-IsAdministered ops (after op s) (step-Keeps op s i)

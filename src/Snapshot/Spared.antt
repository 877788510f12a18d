-- ===== src/Snapshot/Spared.antt =====
-- A pass of the reconciler leaves the rows alone whose workflow lives
-- (snapshot-reconciler.service.ts).
use reputo.Prelude.{
  ℕ, String, false, ◌≡◌, refl, inl, inr, Option, none, some, List, [], ◌∷◌, arith, Bool-cases,
  str_eq, str_eq_iff, ◌∙◌, All, ◌-◌,
}
use reputo.Snapshot.Repository.{Snapshot, Database, find_unsettled, find_one}
use reputo.Snapshot.Service.{WorkflowStatus, described, Temporal, workflow_of}
use reputo.Snapshot.Reconciler.{
  Settings, verdict, apply_verdict, reconcile_row, reconcile_rows, reconcile,
}
use reputo.Snapshot.Pass.{RowStep, unreachable, untouched, settled, row-RowStep}
use reputo.Snapshot.Settling.{is_closed, settle_other}
use reputo.Snapshot.Settled.{rest}

module _ (s : Settings) (t : Temporal) (now : ℕ) where
  -- the workflow of a row lives
  abbrev pub Lives : Snapshot → Type 0
  Lives row =
      (status : WorkflowStatus) × (t.describe (workflow_of t row) ≡ some (described status))
      × (is_closed status ≡ false)

  no_verdict : (status : WorkflowStatus) → is_closed status ≡ false → verdict status ≡ none
  unfolding verdict
  no_verdict status h = ground arith

  row-Lives : (row : Snapshot) (db : Database) → Lives row → reconcile_row s t now row db ≡ some db
  unfolding reconcile_row apply_verdict
  row-Lives row db (status, e, open_still) = ground (arith, e, no_verdict status open_still)

  other_row :
      {r : Snapshot} {db : Database} {o : Option Database} (rows : List Snapshot) (j : String)
      (x : Option Snapshot)
      → str_eq r.id j ≡ false
      → ((db' : Database)
          → find_one j db'.snapshots ≡ x
          → find_one j (reconcile_rows s t now rows db').snapshots ≡ x)
      → RowStep s t now r db o
      → find_one j db.snapshots ≡ x
      → find_one j
          (elim o as (λ _. Database) [
            | none ↦ db
            | some db' ↦ reconcile_rows s t now rows db'
          ]).snapshots
        ≡ x
  other_row rows j x ne ih (unreachable _) h = h
  other_row rows j x ne ih untouched h = ih _ h
  other_row {r} {db} rows j x ne ih (settled status message f) h =
      ih _ (settle_other now r status message j db ne ∙ h)

  rows_live :
      (rows : List Snapshot) (j : String) (x : Option Snapshot) (db : Database)
      → All (λ r. r.id ≡ j → Lives r) rows
      → find_one j db.snapshots ≡ x
      → find_one j (reconcile_rows s t now rows db).snapshots ≡ x
  unfolding reconcile_rows
  rows_live [] j x db all h = h
  rows_live (r ∷ rows) j x db all h = elim (Bool-cases (str_eq r.id j)) [
    | inl same ↦
        rw (rest s t now rows r db db (row-Lives r db (all.0 ((str_eq_iff r.id j).0 same))))
          (rows_live rows j x db all.1 h)
    | inr ne ↦
        other_row rows j x ne (λ db'. rows_live rows j x db' all.1) (row-RowStep s t now r db) h
  ]

  -- A pass does not touch a row whose workflow lives, though it settles others.
  pub reconcile_spares :
      (j : String) (db : Database)
      → All (λ r. r.id ≡ j → Lives r) (find_unsettled (now - s.grace_ms) db.snapshots)
      → find_one j (reconcile s t now db).snapshots ≡ find_one j db.snapshots
  unfolding reconcile
  reconcile_spares j db all =
      rows_live (find_unsettled (now - s.grace_ms) db.snapshots) j (find_one j db.snapshots) db all
        refl

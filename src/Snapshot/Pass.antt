-- ===== src/Snapshot/Pass.antt =====
-- One pass of the reconciler, row by row (snapshot-reconciler.service.ts).
use reputo.Prelude.{
  ℕ, String, ◌≡◌, ◌⊎◌, refl, inl, inr, Option, none, some, List, [], ◌∷◌, Option-cases, Bool-cases,
  ◌+◌, leb,
}
use reputo.Snapshot.Status.{SnapshotStatus, queued, failed, cancelled, same_status}
use reputo.Snapshot.Repository.{Snapshot, Database}
use reputo.Snapshot.Service.{WorkflowStatus, described, not_found, Temporal, workflow_of}
use reputo.Snapshot.Reconciler.{
  Settings, settle, verdict, apply_verdict, reconcile_missing, reconcile_row, reconcile_rows,
}

module _ (s : Settings) (t : Temporal) (now : ℕ) where
  -- What the pass does with one row.
  pub data RowStep (row : Snapshot) (db : Database) : Option Database → Type 0 where
    unreachable : t.describe (workflow_of t row) ≡ none → RowStep row db none
    untouched : RowStep row db (some db)
    settled :
        (status : SnapshotStatus) (message : String)
        → (status ≡ failed) ⊎ (status ≡ cancelled)
        → RowStep row db (some (settle now row status message db))

  missing-RowStep :
      (row : Snapshot) (db : Database) → RowStep row db (some (reconcile_missing s t now row db))
  unfolding reconcile_missing
  missing-RowStep row db = elim (Bool-cases (same_status row.status queued)) [
    | inl q ↦ elim (Option-cases (t.start row.id)) [
      | inl e ↦ rw (reconcile_missing, q, e) untouched
      | inr (message, e) ↦ elim (Bool-cases (leb (row.created_at + s.start_failed_after_ms) now)) [
        | inl late ↦
            rw (reconcile_missing, q, e, late)
              (settled failed "Workflow could not be started" (inl refl))
        | inr early ↦ rw (reconcile_missing, q, e, early) untouched
      ]
    ]
    | inr q ↦ rw (reconcile_missing, q) (settled failed "Workflow no longer exists" (inl refl))
  ]

  verdict-RowStep :
      (row : Snapshot) (db : Database) (status : WorkflowStatus)
      → RowStep row db (some (apply_verdict s t now row (verdict status) db))
  unfolding apply_verdict verdict
  verdict-RowStep row db WorkflowStatus.running = untouched
  verdict-RowStep row db WorkflowStatus.continued_as_new = untouched
  verdict-RowStep row db WorkflowStatus.paused = untouched
  verdict-RowStep row db WorkflowStatus.other = untouched
  verdict-RowStep row db WorkflowStatus.cancelled = settled _ _ (inr refl)
  verdict-RowStep row db _ = settled _ _ (inl refl)

  pub row-RowStep : (row : Snapshot) (db : Database) → RowStep row db (reconcile_row s t now row db)
  unfolding reconcile_row
  row-RowStep row db = elim (Option-cases (t.describe (workflow_of t row))) [
    | inl e ↦ rw (reconcile_row, e) (unreachable e)
    | inr (described status, e) ↦ rw (reconcile_row, e) (verdict-RowStep row db status)
    | inr (not_found, e) ↦ rw (reconcile_row, e) (missing-RowStep row db)
  ]

  -- What every settling of a row keeps, a pass keeps.
  module _ (P : Database → Type 0)
      (step : (row : Snapshot) (status : SnapshotStatus) (message : String) (db : Database)
        → (status ≡ failed) ⊎ (status ≡ cancelled)
        → P db
        → P (settle now row status message db)) where
    carry :
        {row : Snapshot} {db : Database} {o : Option Database} (rows : List Snapshot)
        → ((db' : Database) → P db' → P (reconcile_rows s t now rows db'))
        → RowStep row db o
        → P db
        → P (elim o [ none ↦ db | some db' ↦ reconcile_rows s t now rows db' ])
    carry rows ih (unreachable _) h = h
    carry rows ih untouched h = ih _ h
    carry {row} {db} rows ih (settled status message f) h = ih _ (step row status message db f h)

    pub rows_keep :
        (rows : List Snapshot) (db : Database) → P db → P (reconcile_rows s t now rows db)
    unfolding reconcile_rows
    rows_keep [] db h = h
    rows_keep (row ∷ rows) db h = carry rows (rows_keep rows) (row-RowStep row db) h

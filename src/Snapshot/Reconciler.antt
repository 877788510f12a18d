-- ===== src/Snapshot/Reconciler.antt =====
-- apps/api/src/snapshot/snapshot-reconciler.service.ts: one pass over the rows that have not settled.
-- The timer, and the flag that keeps two passes of one process apart, are not modelled.
use reputo.Prelude.{ℕ, ◌+◌, ◌-◌, String, Option, none, some, List, [], ◌∷◌, leb, if◌then◌else◌}
use reputo.Snapshot.Status.{SnapshotStatus, queued, failed, cancelled, same_status}
use reputo.Snapshot.Repository.{Snapshot, Database, find_unsettled}
use reputo.Snapshot.Service.{
  apply_external_update, WorkflowStatus, described, not_found, Temporal, workflow_of,
}

pub record Settings : Type 0 where
  pub grace_ms : ℕ
  pub start_failed_after_ms : ℕ

unfoldable pub settle : ℕ → Snapshot → SnapshotStatus → String → Database → Database
settle now row status message db =
    (apply_external_update row.id now
      (record { status = some status; temporal = none; outputs = none; error = some message }) db).1

-- the `switch` on the status of a described workflow: nothing, or the status to settle with
unfoldable pub verdict : WorkflowStatus → Option (SnapshotStatus × String)
verdict WorkflowStatus.running = none
verdict WorkflowStatus.continued_as_new = none
verdict WorkflowStatus.paused = none
verdict WorkflowStatus.cancelled = some (cancelled, "Workflow was cancelled")
verdict WorkflowStatus.completed =
    some (failed, "Workflow completed but the snapshot was never finalized")
verdict WorkflowStatus.failed = some (failed, "Workflow closed as FAILED")
verdict WorkflowStatus.terminated = some (failed, "Workflow closed as TERMINATED")
verdict WorkflowStatus.timed_out = some (failed, "Workflow closed as TIMED_OUT")
verdict WorkflowStatus.other = none

module _ (s : Settings) (t : Temporal) (now : ℕ) where
  unfoldable pub apply_verdict : Snapshot → Option (SnapshotStatus × String) → Database → Database
  apply_verdict row none db = db
  apply_verdict row (some (status, message)) db = settle now row status message db

  -- no execution exists
  unfoldable pub reconcile_missing : Snapshot → Database → Database
  reconcile_missing row db =
      if same_status row.status queued
      then elim (t.start row.id) [
        | none ↦ db
        | some message ↦
            if leb (row.created_at + s.start_failed_after_ms) now
            then settle now row failed "Workflow could not be started" db
            else db
      ]
      else settle now row failed "Workflow no longer exists" db

  -- Nothing where Temporal cannot be reached, which ends the pass.
  unfoldable pub reconcile_row : Snapshot → Database → Option Database
  unfolding apply_verdict
  reconcile_row row db = elim (t.describe (workflow_of t row)) [
    | none ↦ none
    | some (described status) ↦ some (apply_verdict row (verdict status) db)
    | some not_found ↦ some (reconcile_missing row db)
  ]

  -- the `for` loop, with the `catch` around it
  unfoldable pub reconcile_rows : List Snapshot → Database → Database
  reconcile_rows [] db = db
  reconcile_rows (row ∷ rows) db = elim (reconcile_row row db) [
    | none ↦ db
    | some db' ↦ reconcile_rows rows db'
  ]

  unfoldable pub reconcile : Database → Database
  reconcile db = reconcile_rows (find_unsettled (now - s.grace_ms) db.snapshots) db

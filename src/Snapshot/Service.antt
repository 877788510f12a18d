-- ===== src/Snapshot/Service.antt =====
-- apps/api/src/snapshot/snapshot.service.ts: the updates of the workflow's `updateSnapshot` activity,
-- the launch of a snapshot's workflow, and deletion. The answers that Temporal gives are arguments.
use reputo.Prelude.{
  ℕ, String, Bool, Option, none, some, is_some, or_else, Result, ok, err, if◌then◌else◌, str_append,
}
use reputo.Snapshot.Status.{SnapshotStatus, is_terminal, same_status}
use reputo.Snapshot.Repository
use reputo.Snapshot.Repository.{
  SnapshotTemporal, SnapshotError, Snapshot, Outputs, SnapshotApplyExternalUpdate, Publication,
  Database, find_one,
}

pub record UpdateSnapshotInput : Type 0 where
  pub status : Option SnapshotStatus
  pub temporal : Option SnapshotTemporal
  pub outputs : Option Outputs
  pub error : Option String  -- the message

-- `now` in the branches that stamp a column
abbrev stamp_started : ℕ → Option SnapshotStatus → Option ℕ
stamp_started now none = none
stamp_started now (some status) =
    if same_status status SnapshotStatus.running then some now else none

abbrev stamp_completed : ℕ → Option SnapshotStatus → Option ℕ
stamp_completed now none = none
stamp_completed now (some status) = if is_terminal status then some now else none

abbrev with_timestamp : ℕ → Option String → Option SnapshotError
with_timestamp now none = none
with_timestamp now (some message) = some (record { message = message; timestamp = some now })

-- the `data` that `applyExternalUpdate` builds
unfoldable pub update_data : ℕ → UpdateSnapshotInput → SnapshotApplyExternalUpdate
update_data now input = record {
  status = input.status;
  started_at = stamp_started now input.status;
  completed_at = stamp_completed now input.status;
  temporal = input.temporal;
  outputs = input.outputs;
  error = with_timestamp now input.error;
}

-- the row that the caller sees, whether or not the update was applied
abbrev pub answered : Option (Snapshot × Bool) → Option Snapshot
answered none = none
answered (some (row, applied)) = some row

unfoldable pub apply_external_update :
    String → ℕ → UpdateSnapshotInput → Database → Option Snapshot × Database
apply_external_update id now input db =
    let (result, db') = Repository.apply_external_update id now (update_data now input) db in
    (answered result, db')

-- Whether the snapshot was there.
unfoldable pub record_publication : String → Publication → Database → Bool × Database
record_publication id p db =
    let (row, db') = Repository.upsert_publication id p db in (is_some row, db')

pub data WorkflowStatus : Type 0 where
  running continued_as_new paused cancelled completed failed terminated timed_out : WorkflowStatus
  other : WorkflowStatus  -- any name that the reconciler has no case for

pub data WorkflowDescription : Type 0 where
  described : WorkflowStatus → WorkflowDescription
  not_found : WorkflowDescription

-- Temporal, as the service and the reconciler ask it.
pub record Temporal : Type 0 where
  pub snapshot_workflow_id : String → String
  -- `startRunSnapshotWorkflow` of a snapshot: the message of the error, if it throws
  pub start : String → Option String
  -- `describeSnapshotWorkflow` of a workflow: nothing, if Temporal cannot be reached
  pub describe : String → Option WorkflowDescription

pub data Launch : Type 0 where
  launched : Snapshot → Launch
  start_exception : Launch  -- `SnapshotWorkflowStartException`

abbrev pub with_workflow_id : String → Option SnapshotTemporal → SnapshotTemporal
with_workflow_id workflow_id none = record {
  workflow_id = some workflow_id;
  run_id = none;
  task_queue = none;
  algorithm_task_queue = none;
}
with_workflow_id workflow_id (some temporal) = record temporal { workflow_id = some workflow_id }

abbrev pub only_temporal : SnapshotTemporal → SnapshotApplyExternalUpdate
only_temporal temporal = record {
  status = none;
  started_at = none;
  completed_at = none;
  temporal = some temporal;
  outputs = none;
  error = none;
}

abbrev pub failure : String → UpdateSnapshotInput
failure message = record {
  status = some SnapshotStatus.failed;
  temporal = none;
  outputs = none;
  error = some (str_append "Failed to start the snapshot workflow: " message);
}

module _ (t : Temporal) (now : ℕ) where
  unfoldable pub handle_start_failure : Snapshot → String → String → Database → Launch × Database
  handle_start_failure row workflow_id message db = elim (t.describe workflow_id) [
    | none ↦ (launched row, db)
    | some (described status) ↦ (launched row, db)
    | some not_found ↦ (start_exception, (apply_external_update row.id now (failure message) db).1)
  ]

  unfoldable pub launch_snapshot_workflow : Snapshot → Database → Launch × Database
  unfolding handle_start_failure
  launch_snapshot_workflow created db =
      let workflow_id = t.snapshot_workflow_id created.id in
      let (persisted, db') =
        Repository.apply_external_update created.id now
          (only_temporal (with_workflow_id workflow_id created.temporal)) db in
      let row = or_else (answered persisted) created in
      elim (t.start created.id) [
        | none ↦ (launched row, db')
        | some message ↦ handle_start_failure row workflow_id message db'
      ]

-- the workflow that a row belongs to
abbrev pub workflow_of : Temporal → Snapshot → String
workflow_of t row = elim row.temporal [
  | none ↦ t.snapshot_workflow_id row.id
  | some temporal ↦ or_else temporal.workflow_id (t.snapshot_workflow_id row.id)
]

-- The workflow that is terminated first, if any; `err` is the 404 of a missing row. The objects in
-- the store, which are deleted afterwards, are not part of the database.
unfoldable pub delete_by_id :
    Temporal → String → Database → Result (Unit {0}) (Option String) × Database
delete_by_id t id db = elim (find_one id db.snapshots) [
  | none ↦ (err tt, db)
  | some row ↦
      let db' = (Repository.delete_by_id id db).1 in
      if is_terminal row.status then (ok none, db') else (ok (some (workflow_of t row)), db')
]

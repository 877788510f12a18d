-- ===== src/Snapshot/Launch.antt =====
-- What the launch of a snapshot's workflow leaves behind (snapshot.service.ts).
use reputo.Prelude.{
  ℕ, String, true, false, ◌≡◌, ◌≢◌, ◌⊎◌, refl, inl, inr, Option, none, some, arith, Option-cases,
  ◌∷◌, ◌∙◌,
}
use reputo.Snapshot.Status.{queued, failed}
use reputo.Snapshot.Repository
use reputo.Snapshot.Repository.{
  with_outputs_only, Snapshot, SnapshotTemporal, Database, find_one, save, assign, blocked,
}
use reputo.Snapshot.Rows.{find_one-save_at, find_one-id, id-of_find_one}
use reputo.Snapshot.Repeats.{apply-free, id-assign}
use reputo.Snapshot.Service.{
  apply_external_update, update_data, Temporal, described, not_found, Launch, launched,
  start_exception, only_temporal, with_workflow_id, failure, launch_snapshot_workflow,
}

-- the update that stores the workflow id
abbrev preparation : Temporal → Snapshot → Repository.SnapshotApplyExternalUpdate
preparation t created =
    only_temporal (with_workflow_id (t.snapshot_workflow_id created.id) created.temporal)

-- How a launch ends: what the caller gets, and what is stored under the id of the snapshot.
pub data LaunchSpec (t : Temporal) (created : Snapshot) (answer : Launch) (after : Option Snapshot)
    : Type 0 where
  -- the start failed and Temporal confirms that no workflow exists
  gave_up :
      (message : String) (row : Snapshot)
      → t.start created.id ≡ some message
      → t.describe (t.snapshot_workflow_id created.id) ≡ some not_found
      → answer ≡ start_exception
      → after ≡ some row
      → row.status ≡ failed
      → LaunchSpec t created answer after
  -- a workflow was started, or one exists, or Temporal cannot tell
  went_on :
      (row : Snapshot) (temporal : SnapshotTemporal)
      → (t.start created.id ≡ none)
        ⊎ (t.describe (t.snapshot_workflow_id created.id) ≢ some not_found)
      → answer ≡ launched (with_outputs_only row)
      → after ≡ some row
      → row.status ≡ queued
      → row.temporal ≡ some temporal
      → temporal.workflow_id ≡ some (t.snapshot_workflow_id created.id)
      → LaunchSpec t created answer after

module _ (t : Temporal) (now : ℕ) (created row : Snapshot) (db : Database)
    (stored : find_one created.id db.snapshots ≡ some row) (fresh : row.status ≡ queued) where
  abbrev prepared : Snapshot
  prepared = assign now (preparation t created) row

  abbrev after_write : Database
  after_write = record {
    snapshots = save prepared db.snapshots;
    notified = created.id ∷ db.notified;
  }

  prepared-id : prepared.id ≡ created.id
  prepared-id =
      id-assign now (preparation t created) row ∙ id-of_find_one created.id db.snapshots row stored

  stored_after : find_one created.id (save prepared db.snapshots) ≡ some prepared
  stored_after = find_one-save_at created.id prepared row db.snapshots prepared-id stored

  written :
      Repository.apply_external_update created.id now (preparation t created) db
      ≡ (some (with_outputs_only prepared, true), after_write)
  unfolding blocked
  written = apply-free created.id now (preparation t created) db row stored refl

  carry_on :
      (t.start created.id ≡ none)
        ⊎ (t.describe (t.snapshot_workflow_id created.id) ≢ some not_found)
      → launch_snapshot_workflow t now created db
        ≡ (launched (with_outputs_only prepared), after_write)
      → LaunchSpec t created
          (launch_snapshot_workflow t now created db).0
          (find_one created.id (launch_snapshot_workflow t now created db).1.snapshots)
  unfolding assign
  carry_on why e = rw e (
      went_on prepared (with_workflow_id (t.snapshot_workflow_id created.id) created.temporal) why
        refl stored_after (ground arith) refl (ground arith))

  -- the update that marks the row as failed
  marked : (message : String) → Option Snapshot × Database
  marked message = apply_external_update prepared.id now (failure message) after_write

  stored_self : find_one prepared.id (save prepared db.snapshots) ≡ some prepared
  stored_self = find_one-id created.id (save prepared db.snapshots) prepared stored_after

  may_fail :
      (message : String)
      → blocked prepared.status (update_data now (failure message)).status ≡ false
  unfolding assign blocked update_data
  may_fail message = ground arith

  failed_row : String → Snapshot
  failed_row message = assign now (update_data now (failure message)) prepared

  marked_failed :
      (message : String)
      → (row' : Snapshot) × (find_one created.id (marked message).1.snapshots ≡ some row')
        × (row'.status ≡ failed)
  unfolding marked apply_external_update failed_row
  marked_failed message = (
    failed_row message,
    rw
        (apply-free prepared.id now (update_data now (failure message)) after_write prepared
          stored_self (may_fail message))
        (find_one-save_at created.id (failed_row message) prepared (save prepared db.snapshots)
          (id-assign now (update_data now (failure message)) prepared ∙ prepared-id) stored_after),
    unfold assign update_data in refl,
  )

  start_failed :
      (message : String)
      → t.start created.id ≡ some message
      → t.describe (t.snapshot_workflow_id created.id) ≡ some not_found
      → launch_snapshot_workflow t now created db ≡ (start_exception, (marked message).1)
  unfolding launch_snapshot_workflow marked
  start_failed message e d = ground (arith, written)

  -- A launch of a snapshot whose row is stored as queued gives up, with the row failed, exactly where the
  -- start throws and Temporal confirms that no workflow exists; otherwise it goes on, with the row queued
  -- and carrying the id of its workflow.
  pub launch-LaunchSpec :
      LaunchSpec t created
        (launch_snapshot_workflow t now created db).0
        (find_one created.id (launch_snapshot_workflow t now created db).1.snapshots)
  unfolding launch_snapshot_workflow
  launch-LaunchSpec = elim (Option-cases (t.start created.id)) [
    | inl e ↦ carry_on (inl e) (ground (arith, written))
    | inr (message, e) ↦ elim (Option-cases (t.describe (t.snapshot_workflow_id created.id))) [
      | inl d ↦ carry_on (inr (rw d (cc))) (ground (arith, written))
      | inr (described status, d) ↦ carry_on (inr (rw d (cc))) (ground (arith, written))
      | inr (not_found, d) ↦
          let (row', found, is_failed) = marked_failed message in
          rw (start_failed message e d) (gave_up message row' e d refl found is_failed)
    ]
  ]

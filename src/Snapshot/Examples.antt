-- ===== src/Snapshot/Examples.antt =====
-- Concrete snapshots, and what the theorems say of them.
use reputo.Prelude.{
  inr, false, String, ◌≡◌, refl, inl, none, some, [], ◌∷◌, All, ◌-◌, str_eq, differ, arith, ◌≢◌,
  if◌then◌else◌,
}
use reputo.Snapshot.Status.{SnapshotStatus, queued, running, completed, failed}
use reputo.Snapshot.Repository
use reputo.Snapshot.Repository.{
  Snapshot, SnapshotApplyExternalUpdate, SnapshotCreateData, Database, find_one, save,
  find_unsettled, order_by_created, insert_by_created, create,
}
use reputo.Snapshot.Service.{
  UpdateSnapshotInput, apply_external_update, WorkflowStatus, described, not_found, Temporal,
  launch_snapshot_workflow, workflow_of,
}
use reputo.Snapshot.Reconciler.{Settings, verdict, reconcile}
use reputo.Snapshot.Progress.{none_yet, updated, Follows, Writes-Follows, terminal_for_good}
use reputo.Snapshot.Repeats.{update_twice}
use reputo.Snapshot.Launch.{LaunchSpec, launch-LaunchSpec}
use reputo.Snapshot.Served.{Served, Served-IsStamped}
use reputo.Snapshot.Stamps.{IsStamped}
use reputo.Snapshot.Settling.{is_closed, Over}
use reputo.Snapshot.Settled.{reconcile_settles}
use reputo.Snapshot.Spared.{reconcile_spares}

abbrev row_of : String → SnapshotStatus → Snapshot
row_of id status = record {
  id = id;
  status = status;
  algorithm_preset_id = "preset";
  temporal = none;
  outputs = [];
  publications = [];
  error = none;
  started_at = none;
  completed_at = none;
  created_at = 100;
  updated_at = 100;
}

abbrev two_rows : Database
two_rows = record { snapshots = row_of "a" running ∷ row_of "b" queued ∷ []; notified = [] }

abbrev to_status : SnapshotStatus → UpdateSnapshotInput
to_status status = record { status = some status; temporal = none; outputs = none; error = none }

abbrev finish : SnapshotApplyExternalUpdate
finish = record {
  status = some completed;
  started_at = none;
  completed_at = some 900;
  temporal = none;
  outputs = none;
  error = none;
}

abbrev fail_late : SnapshotApplyExternalUpdate
fail_late = record finish { status = some failed }

-- the completion of a row, and a failure that comes too late
abbrev finished : Database
finished = (Repository.apply_external_update "a" 900 finish two_rows).1

abbrev raced : Database
raced = (Repository.apply_external_update "a" 901 fail_late finished).1

Writes-Follows_example : Follows running (find_one "a" raced.snapshots)
unfolding find_one
Writes-Follows_example =
    Writes-Follows "a" (row_of "a" running)
      (updated "a" 901 fail_late (updated "a" 900 finish none_yet)) refl

abbrev finished_row : Snapshot
finished_row = record (row_of "a" running) {
  status = completed;
  completed_at = some 900;
  updated_at = 900;
}

terminal_for_good_example : finished_row.status ≡ completed
unfolding find_one Repository.apply_external_update Repository.assign Repository.blocked save
terminal_for_good_example =
    terminal_for_good {db = finished} {d = raced} "a" finished_row finished_row
      (updated "a" 901 fail_late none_yet) refl refl refl

-- A Temporal where the workflow of one snapshot has failed, that of another runs, and the others
-- are not there and cannot be started.
abbrev some_temporal : Temporal
some_temporal = record {
  snapshot_workflow_id = λ id. id;
  start = λ id. some "unavailable";
  describe = λ workflow.
      if str_eq workflow "a"
      then some (described WorkflowStatus.failed)
      else if str_eq workflow "b"
      then some (described WorkflowStatus.running)
      else some not_found;
}

abbrev some_settings : Settings
some_settings = record { grace_ms = 60; start_failed_after_ms = 600 }

launch-LaunchSpec_example :
    LaunchSpec some_temporal
      (row_of "c" queued)
      (launch_snapshot_workflow some_temporal 200
        (row_of "c" queued)
        (record { snapshots = row_of "c" queued ∷ []; notified = [] })).0
      (find_one "c"
        (launch_snapshot_workflow some_temporal 200
          (row_of "c" queued)
          (record { snapshots = row_of "c" queued ∷ []; notified = [] })).1.snapshots)
unfolding find_one
launch-LaunchSpec_example =
    launch-LaunchSpec some_temporal 200 (row_of "c" queued) (row_of "c" queued)
      (record { snapshots = row_of "c" queued ∷ []; notified = [] }) refl refl

abbrev new_data : SnapshotCreateData
new_data = record { status = none; algorithm_preset = "preset"; temporal = none; outputs = none }

abbrev nothing_stored : Database
nothing_stored = record { snapshots = []; notified = [] }

abbrev one_created : Database
one_created = (create "a" 100 (record new_data { status = some queued }) nothing_stored).1

Served-IsStamped_example :
    All IsStamped (apply_external_update "a" 200 (to_status running) one_created).1.snapshots
Served-IsStamped_example =
    Served-IsStamped
      (Served.updated "a" 200 (to_status running) (Served.created "a" 100 new_data Served.empty))

update_twice_example :
    ((apply_external_update "a" 900
        (to_status completed)
        (apply_external_update "a" 900 (to_status completed) two_rows).1).0
      ≡ (apply_external_update "a" 900 (to_status completed) two_rows).0)
    × ((apply_external_update "a" 900
          (to_status completed)
          (apply_external_update "a" 900 (to_status completed) two_rows).1).1.snapshots
        ≡ (apply_external_update "a" 900 (to_status completed) two_rows).1.snapshots)
update_twice_example = update_twice "a" 900 (to_status completed) two_rows

reachable : (workflow : String) → some_temporal.describe workflow ≢ none
reachable workflow = ground arith

reconcile_settles_example : Over "a" (reconcile some_settings some_temporal 1000 two_rows)
unfolding find_one
reconcile_settles_example =
    reconcile_settles some_settings some_temporal 1000 (row_of "a" running) two_rows reachable
      (inr refl) (omega arith) (inl (WorkflowStatus.failed, refl, refl)) refl

b_lives :
    All
      (λ r.
        r.id ≡ "b"
        → (status : WorkflowStatus) × (some_temporal.describe (workflow_of some_temporal r)
            ≡ some (described status))
          × (is_closed status ≡ false))
      (find_unsettled (1000 - 60) two_rows.snapshots)
unfolding find_unsettled order_by_created insert_by_created verdict
b_lives = (λ e. absurd (differ "a" "b" refl e), ((λ e. (WorkflowStatus.running, refl, refl)), tt))

reconcile_spares_example :
    find_one "b" (reconcile some_settings some_temporal 1000 two_rows).snapshots
    ≡ find_one "b" two_rows.snapshots
reconcile_spares_example = reconcile_spares some_settings some_temporal 1000 "b" two_rows b_lives

-- ===== src/Snapshot/Stamps.antt =====
-- What the stamps of a row say about its status (snapshot.service.ts).
use reputo.Prelude.{
  ℕ, String, false, ◌≡◌, inl, inr, none, some, arith, str_eq, Option-cases, Bool-cases, is_some,
  List, keep, not, Bool, All, [], ◌∷◌, ◌&&◌,
}
use reputo.Snapshot.Status.{SnapshotStatus, queued, is_terminal, same_status}
use reputo.Snapshot.Repository
use reputo.Snapshot.Repository.{
  Snapshot, SnapshotApplyExternalUpdate, SnapshotTemporal, Publication, upsert, Database, find_one,
  save, assign, blocked,
}
use reputo.Snapshot.Repeats.{apply-free, apply-blocked, apply-missing}
use reputo.Snapshot.Service.{
  UpdateSnapshotInput, update_data, apply_external_update, Temporal, only_temporal,
  with_workflow_id, failure, launch_snapshot_workflow, handle_start_failure, delete_by_id,
}
use reputo.Snapshot.Reconciler.{settle}

-- `completedAt` is there exactly in the terminal statuses, and a queued row was not started.
pub record IsStamped (row : Snapshot) : Type 0 where
  pub completed : is_some row.completed_at ≡ is_terminal row.status
  pub unstarted : (same_status row.status queued && is_some row.started_at) ≡ false

assign-IsStamped :
    (now : ℕ) (input : UpdateSnapshotInput) (row : Snapshot)
    → blocked row.status input.status ≡ false
    → IsStamped row
    → IsStamped (assign now (update_data now input) row)
unfolding blocked assign update_data
assign-IsStamped now input row h s = ground arith

All-save :
    (row : Snapshot) (rows : List Snapshot)
    → IsStamped row
    → All IsStamped rows
    → All IsStamped (save row rows)
unfolding save
All-save row [] h a = tt
All-save row (r ∷ rows) h a = ground (arith, All-save row rows h)

All-find :
    (id : String) (rows : List Snapshot) (row : Snapshot)
    → find_one id rows ≡ some row
    → All IsStamped rows
    → IsStamped row
unfolding find_one
All-find id [] row e h = cc
All-find id (r ∷ rows) row e h = elim (Bool-cases (str_eq r.id id)) [
  | inl same ↦ let q : r ≡ row = ground arith in rw (← q) h.0
  | inr other ↦ All-find id rows row (ground arith) h.1
]

-- a write that keeps the stamps of the row that it assigns keeps those of the table
write-IsStamped :
    (id : String) (now : ℕ) (input : SnapshotApplyExternalUpdate) (db : Database)
    → ((row : Snapshot)
        → blocked row.status input.status ≡ false
        → IsStamped row
        → IsStamped (assign now input row))
    → All IsStamped db.snapshots
    → All IsStamped (Repository.apply_external_update id now input db).1.snapshots
write-IsStamped id now input db keep h = elim (Option-cases (find_one id db.snapshots)) [
  | inl e ↦ rw (apply-missing id now input db e) h
  | inr (row, e) ↦ elim (Bool-cases (blocked row.status input.status)) [
    | inl b ↦ rw (apply-blocked id now input db row e b) h
    | inr b ↦ rw (apply-free id now input db row e b) (
        All-save (assign now input row) db.snapshots (keep row b (All-find id db.snapshots row e h))
          h)
  ]
]

pub update-IsStamped :
    (id : String) (now : ℕ) (input : UpdateSnapshotInput) (db : Database)
    → All IsStamped db.snapshots
    → All IsStamped (apply_external_update id now input db).1.snapshots
unfolding apply_external_update update_data
update-IsStamped id now input db =
    write-IsStamped id now (update_data now input) db (assign-IsStamped now input)

temporal-IsStamped :
    (id : String) (now : ℕ) (temporal : SnapshotTemporal) (db : Database)
    → All IsStamped db.snapshots
    → All IsStamped
        (Repository.apply_external_update id now (only_temporal temporal) db).1.snapshots
unfolding assign
temporal-IsStamped id now temporal db =
    write-IsStamped id now (only_temporal temporal) db (λ row b s. ground arith)

start_failure-IsStamped :
    (t : Temporal) (now : ℕ) (row : Snapshot) (workflow_id message : String) (db : Database)
    → All IsStamped db.snapshots
    → All IsStamped (handle_start_failure t now row workflow_id message db).1.snapshots
unfolding handle_start_failure
start_failure-IsStamped t now row workflow_id message db h =
    ground (arith, update-IsStamped row.id now (failure message) db h)

pub launch-IsStamped :
    (t : Temporal) (now : ℕ) (row : Snapshot) (db : Database)
    → All IsStamped db.snapshots
    → All IsStamped (launch_snapshot_workflow t now row db).1.snapshots
unfolding launch_snapshot_workflow
launch-IsStamped t now row db h = elim (Option-cases (t.start row.id)) [
  | inl e ↦ rw (launch_snapshot_workflow, e) kept
  | inr (message, e) ↦
      rw (launch_snapshot_workflow, e)
        (start_failure-IsStamped t now _ (t.snapshot_workflow_id row.id) message _ kept)
]
  where
    kept :
        All IsStamped
          (Repository.apply_external_update row.id now
            (only_temporal (with_workflow_id (t.snapshot_workflow_id row.id) row.temporal))
            db).1.snapshots
    kept =
        temporal-IsStamped row.id now
          (with_workflow_id (t.snapshot_workflow_id row.id) row.temporal) db h

pub publish-IsStamped :
    (id : String) (p : Publication) (db : Database)
    → All IsStamped db.snapshots
    → All IsStamped (Repository.upsert_publication id p db).1.snapshots
unfolding Repository.upsert_publication
publish-IsStamped id p db h = elim (Option-cases (find_one id db.snapshots)) [
  | inl e ↦ ground arith
  | inr (row, e) ↦
      let stamped = All-find id db.snapshots row e h in
      ground (
        arith,
        All-save (record row { publications = upsert p row.publications }) db.snapshots
            (record { completed = stamped.completed; unstarted = stamped.unstarted }) h,
      )
]

All-keep :
    (p : Snapshot → Bool) (rows : List Snapshot) → All IsStamped rows → All IsStamped (keep p rows)
All-keep p [] h = tt
All-keep p (r ∷ rows) h = ground (arith, All-keep p rows)

pub delete-IsStamped :
    (t : Temporal) (id : String) (db : Database)
    → All IsStamped db.snapshots
    → All IsStamped (delete_by_id t id db).1.snapshots
unfolding delete_by_id Repository.delete_by_id
delete-IsStamped t id db h = ground (arith, All-keep (λ r. not (str_eq r.id id)) db.snapshots h)

pub settle-IsStamped :
    (now : ℕ) (row : Snapshot) (status : SnapshotStatus) (message : String) (db : Database)
    → All IsStamped db.snapshots
    → All IsStamped (settle now row status message db).snapshots
unfolding settle
settle-IsStamped now row status message db =
    update-IsStamped row.id now
      (record { status = some status; temporal = none; outputs = none; error = some message }) db

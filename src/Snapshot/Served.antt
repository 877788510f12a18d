-- ===== src/Snapshot/Served.antt =====
-- The tables that the service and the reconciler can leave behind, and the stamps of their rows.
use reputo.Prelude.{ℕ, String, refl, some, [], All}
use reputo.Snapshot.Status.{queued}
use reputo.Snapshot.Repository.{Snapshot, SnapshotCreateData, Publication, Database, create}
use reputo.Snapshot.Service.{
  UpdateSnapshotInput, apply_external_update, record_publication, Temporal,
  launch_snapshot_workflow, delete_by_id,
}
use reputo.Snapshot.Reconciler.{Settings, reconcile}
use reputo.Snapshot.Pass.{rows_keep}
use reputo.Snapshot.Stamps.{
  IsStamped, update-IsStamped, launch-IsStamped, publish-IsStamped, delete-IsStamped,
  settle-IsStamped,
}

-- From the empty table, by any calls in any order; each call has its own clock and its own answers
-- of Temporal. The service creates every row as `queued`.
pub data Served : Database → Type 0 where
  empty : Served (record { snapshots = []; notified = [] })
  created :
      {db : Database} (id : String) (now : ℕ) (input : SnapshotCreateData)
      → Served db
      → Served (create id now (record input { status = some queued }) db).1
  launched :
      {db : Database} (t : Temporal) (now : ℕ) (row : Snapshot)
      → Served db
      → Served (launch_snapshot_workflow t now row db).1
  updated :
      {db : Database} (id : String) (now : ℕ) (input : UpdateSnapshotInput)
      → Served db
      → Served (apply_external_update id now input db).1
  published :
      {db : Database} (id : String) (p : Publication)
      → Served db
      → Served (record_publication id p db).1
  deleted :
      {db : Database} (t : Temporal) (id : String) → Served db → Served (delete_by_id t id db).1
  reconciled :
      {db : Database} (s : Settings) (t : Temporal) (now : ℕ)
      → Served db
      → Served (reconcile s t now db)

created-IsStamped :
    (id : String) (now : ℕ) (input : SnapshotCreateData) (db : Database)
    → All IsStamped db.snapshots
    → All IsStamped (create id now (record input { status = some queued }) db).1.snapshots
unfolding create
created-IsStamped id now input db h = (record { completed = refl; unstarted = refl }, h)

-- Whatever the calls were, every row has a completion time exactly if its status is terminal, and
-- no starting time while it is queued.
pub Served-IsStamped : {db : Database} → Served db → All IsStamped db.snapshots
unfolding record_publication reconcile
Served-IsStamped empty = tt
Served-IsStamped (created {db} id now input s) =
    created-IsStamped id now input db (Served-IsStamped s)
Served-IsStamped (launched {db} t now row s) = launch-IsStamped t now row db (Served-IsStamped s)
Served-IsStamped (updated {db} id now input s) =
    update-IsStamped id now input db (Served-IsStamped s)
Served-IsStamped (published {db} id p s) = publish-IsStamped id p db (Served-IsStamped s)
Served-IsStamped (deleted {db} t id s) = delete-IsStamped t id db (Served-IsStamped s)
Served-IsStamped (reconciled {db} c t now s) =
    rows_keep c t now (λ d. All IsStamped d.snapshots)
      (λ row status message db' _. settle-IsStamped now row status message db') _ db
      (Served-IsStamped s)

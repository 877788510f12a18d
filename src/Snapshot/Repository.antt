-- ===== src/Snapshot/Repository.antt =====
-- apps/api/src/snapshot/snapshot.repository.ts. A transaction is one function on the database: the
-- row lock makes concurrent writers take turns. A row of the model holds the rows of
-- `snapshot_outputs` and of the publication ledger that refer to it.
use reputo.Prelude.{
  ℕ, String, Bool, true, false, not, ◌&&◌, ◌||◌, Option, none, some, List, [], ◌∷◌, str_eq, keep,
  ltb, find, is_some, or_else, if◌then◌else◌,
}
use reputo.Snapshot.Status.{SnapshotStatus, queued, is_terminal, can_transition}

pub record SnapshotTemporal : Type 0 where
  pub workflow_id : Option String
  pub run_id : Option String
  pub task_queue : Option String
  pub algorithm_task_queue : Option String

pub record SnapshotError : Type 0 where
  pub message : String
  pub timestamp : Option ℕ

pub data PublicationStatus : Type 0 where
  pending sent failed : PublicationStatus

-- the counts of a posting pass
pub record PublicationCounts : Type 0 where
  pub posted : ℕ
  pub accepted : ℕ
  pub dropped : ℕ
  pub rejected : ℕ

pub record Publication : Type 0 where
  pub algorithm_key : String
  pub status : PublicationStatus
  pub counts : Option PublicationCounts
  pub error : Option String

-- `algorithmPresetFrozen` is never read by the code below, and is left out.
pub record Snapshot : Type 0 where
  pub id : String
  pub status : SnapshotStatus
  pub algorithm_preset_id : String
  pub temporal : Option SnapshotTemporal
  pub outputs : List (String × String)
  pub publications : List Publication
  pub error : Option SnapshotError
  pub started_at : Option ℕ
  pub completed_at : Option ℕ
  pub created_at : ℕ
  pub updated_at : ℕ

-- `SnapshotOutputs`: a value may be undefined
abbrev pub Outputs : Type 0
Outputs = List (String × Option String)

pub record SnapshotApplyExternalUpdate : Type 0 where
  pub status : Option SnapshotStatus
  pub started_at : Option ℕ
  pub completed_at : Option ℕ
  pub temporal : Option SnapshotTemporal
  pub outputs : Option Outputs
  pub error : Option SnapshotError

pub record SnapshotCreateData : Type 0 where
  pub status : Option SnapshotStatus
  pub algorithm_preset : String
  pub temporal : Option SnapshotTemporal
  pub outputs : Option Outputs

-- The table, and the ids that `pg_notify` has sent to the listeners, the latest first.
pub record Database : Type 0 where
  pub snapshots : List Snapshot
  pub notified : List String

unfoldable pub find_one : String → List Snapshot → Option Snapshot
find_one id = find (λ row. str_eq row.id id)

-- `save` of a row that is in the table
unfoldable pub save : Snapshot → List Snapshot → List Snapshot
save row [] = []
save row (r ∷ rows) = if str_eq r.id row.id then row ∷ rows else r ∷ save row rows

unfoldable pub build_output_rows : Outputs → List (String × String)
build_output_rows [] = []
build_output_rows ((key, none) ∷ outputs) = build_output_rows outputs
build_output_rows ((key, some value) ∷ outputs) = (key, value) ∷ build_output_rows outputs

-- The id is the fresh UUID that `@BeforeInsert` gives the row.
unfoldable pub create : String → ℕ → SnapshotCreateData → Database → Snapshot × Database
create id now input db =
    let row : Snapshot = record {
      id = id;
      status = or_else input.status queued;
      algorithm_preset_id = input.algorithm_preset;
      temporal = input.temporal;
      outputs = elim input.outputs [ none ↦ [] | some outputs ↦ build_output_rows outputs ];
      publications = [];
      error = none;
      started_at = none;
      completed_at = none;
      created_at = now;
      updated_at = now;
    } in
    (row, record db { snapshots = row ∷ db.snapshots })

-- was any column assigned?
abbrev touched : SnapshotApplyExternalUpdate → Bool
touched input =
    is_some input.status
    || is_some input.started_at
    || is_some input.completed_at
    || is_some input.temporal
    || is_some input.error

-- `a` where it is given, else `b`
abbrev given {ℓ} : {A : Type ℓ} → Option A → Option A → Option A
given none b = b
given (some a) b = some a

-- the assignments to the locked row, with the replacement of its outputs
unfoldable pub assign : ℕ → SnapshotApplyExternalUpdate → Snapshot → Snapshot
assign now input row = record row {
  status = or_else input.status row.status;
  started_at = given input.started_at row.started_at;
  completed_at = given input.completed_at row.completed_at;
  temporal = given input.temporal row.temporal;
  error = given input.error row.error;
  updated_at = if touched input then now else row.updated_at;
  outputs = elim input.outputs [ none ↦ row.outputs | some outputs ↦ build_output_rows outputs ];
}

-- `data.status !== undefined && !canTransition(entity.status, data.status)`
unfoldable pub blocked : SnapshotStatus → Option SnapshotStatus → Bool
unfolding can_transition
blocked from none = false
blocked from (some to) = not (can_transition from to)

-- The row as it is read with the relation of its outputs only.
abbrev pub with_outputs_only : Snapshot → Snapshot
with_outputs_only row = record row { publications = [] }

-- The row and `applied`, or nothing where no row has the id.
unfoldable pub apply_external_update :
    String → ℕ → SnapshotApplyExternalUpdate → Database → Option (Snapshot × Bool) × Database
apply_external_update id now input db = elim (find_one id db.snapshots) [
  | none ↦ (none, db)
  | some row ↦
      if blocked row.status input.status then (some (with_outputs_only row, false), db) else (
        some (with_outputs_only (assign now input row), true),
        record {
          snapshots = save (assign now input row) db.snapshots;
          notified = id ∷ db.notified;
        },
      )
]

unfoldable pub upsert : Publication → List Publication → List Publication
upsert p [] = p ∷ []
upsert p (q ∷ ps) = if str_eq q.algorithm_key p.algorithm_key then p ∷ ps else q ∷ upsert p ps

unfoldable pub upsert_publication : String → Publication → Database → Option Snapshot × Database
upsert_publication id p db = elim (find_one id db.snapshots) [
  | none ↦ (none, db)
  | some row ↦
      let row' = record row { publications = upsert p row.publications } in
      (some row', record { snapshots = save row' db.snapshots; notified = id ∷ db.notified })
]

unfoldable pub delete_by_id : String → Database → Option Snapshot × Database
delete_by_id id db = elim (find_one id db.snapshots) [
  | none ↦ (none, db)
  | some row ↦ (some row, record db { snapshots = keep (λ r. not (str_eq r.id id)) db.snapshots })
]

-- `order: { createdAt: 'ASC' }`
unfoldable pub insert_by_created : Snapshot → List Snapshot → List Snapshot
insert_by_created row [] = row ∷ []
insert_by_created row (r ∷ rows) =
    if ltb r.created_at row.created_at then r ∷ insert_by_created row rows else row ∷ r ∷ rows

unfoldable pub order_by_created : List Snapshot → List Snapshot
order_by_created [] = []
order_by_created (row ∷ rows) = insert_by_created row (order_by_created rows)

-- Non-terminal rows not touched since `before`, oldest first.
unfoldable pub find_unsettled : ℕ → List Snapshot → List Snapshot
find_unsettled before rows =
    order_by_created (keep (λ row. not (is_terminal row.status) && ltb row.updated_at before) rows)

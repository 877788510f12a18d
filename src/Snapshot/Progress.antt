-- ===== src/Snapshot/Progress.antt =====
-- The status of a row moves along the diagram, whatever is written, by whom and in what order.
use reputo.Prelude.{
  ℕ, String, true, false, ◌≡◌, sym, subst, inl, inr, Option, none, some, List, arith, str_eq,
  str_eq_iff, Option-cases, Bool-cases,
}
use reputo.Snapshot.Status.{
  SnapshotStatus, ◌⟶*◌, here, then_step, can_transition, can_transition_sound, is_terminal,
  terminal_stays,
}
use reputo.Snapshot.Repository.{
  Snapshot, SnapshotApplyExternalUpdate, Publication, Database, find_one, save, assign, blocked,
  apply_external_update, upsert, upsert_publication, delete_by_id,
}
use reputo.Snapshot.Repeats.{id-assign}
use reputo.Snapshot.Rows.{find_one-id, find_one-save, find_one-delete}

-- The database after any writes to the rows that it holds, in any order. Each write is a
-- transaction, so writers that run at the same time give some order.
pub data Writes (db : Database) : Database → Type 0 where
  none_yet : Writes db db
  updated :
      {d : Database} (id : String) (now : ℕ) (input : SnapshotApplyExternalUpdate)
      → Writes db d
      → Writes db (apply_external_update id now input d).1
  published :
      {d : Database} (id : String) (p : Publication)
      → Writes db d
      → Writes db (upsert_publication id p d).1
  deleted : {d : Database} (id : String) → Writes db d → Writes db (delete_by_id id d).1

-- `Follows s o`: the row is gone, or its status was reached from `s`.
abbrev pub Follows : SnapshotStatus → Option Snapshot → Type 0
Follows s none = Unit
Follows s (some row) = s ⟶* row.status

join_step :
    {s t : SnapshotStatus} (u : SnapshotStatus) → s ⟶* t → can_transition t u ≡ true → s ⟶* u
join_step {s} {t} u r h = elim (can_transition_sound t u h) [
  | inl same ↦ rw (← same) r
  | inr edge ↦ then_step r edge
]

status-assign :
    {s : SnapshotStatus} (now : ℕ) (input : SnapshotApplyExternalUpdate) (row : Snapshot)
    → blocked row.status input.status ≡ false
    → s ⟶* row.status
    → s ⟶* (assign now input row).status
unfolding assign blocked
status-assign now input row h r = elim (Option-cases input.status) [
  | inl e ↦ rw (e) r
  | inr (to, e) ↦ rw e (join_step to r (ground arith))
]

Follows-save :
    (s : SnapshotStatus) (row old : Snapshot) (rows : List Snapshot) (j : String)
    → find_one row.id rows ≡ some old
    → (s ⟶* old.status → s ⟶* row.status)
    → Follows s (find_one j rows)
    → Follows s (find_one j (save row rows))
Follows-save s row old rows j found moves h = elim (Bool-cases (str_eq row.id j)) [
  | inl same ↦
      rw (find_one-save row old rows j found, same)
        (moves (rw (← (str_eq_iff row.id j).0 same, found) at h))
  | inr other ↦ rw (find_one-save row old rows j found, other) h
]

Follows-update :
    (s : SnapshotStatus) (id j : String) (now : ℕ) (input : SnapshotApplyExternalUpdate)
    (db : Database)
    → Follows s (find_one j db.snapshots)
    → Follows s (find_one j (apply_external_update id now input db).1.snapshots)
unfolding apply_external_update
Follows-update s id j now input db h = elim (Option-cases (find_one id db.snapshots)) [
  | inl e ↦ rw (apply_external_update, e) h
  | inr (row, e) ↦ elim (Bool-cases (blocked row.status input.status)) [
    | inl b ↦ rw (apply_external_update, e, b) h
    | inr b ↦
        rw (apply_external_update, e, b)
          (Follows-save s (assign now input row) row db.snapshots j
            (rw id-assign (find_one-id id db.snapshots row e)) (status-assign now input row b) h)
  ]
]

Follows-publish :
    (s : SnapshotStatus) (id j : String) (p : Publication) (db : Database)
    → Follows s (find_one j db.snapshots)
    → Follows s (find_one j (upsert_publication id p db).1.snapshots)
unfolding upsert_publication
Follows-publish s id j p db h = elim (Option-cases (find_one id db.snapshots)) [
  | inl e ↦ rw (upsert_publication, e) h
  | inr (row, e) ↦
      rw (upsert_publication, e)
        (Follows-save s (record row { publications = upsert p row.publications }) row db.snapshots j
          (find_one-id id db.snapshots row e) (λ r. r) h)
]

Follows-delete :
    (s : SnapshotStatus) (id j : String) (db : Database)
    → Follows s (find_one j db.snapshots)
    → Follows s (find_one j (delete_by_id id db).1.snapshots)
unfolding delete_by_id
Follows-delete s id j db h = elim (Option-cases (find_one id db.snapshots)) [
  | inl e ↦ rw (delete_by_id, e) h
  | inr (row, e) ↦ elim (Bool-cases (str_eq id j)) [
    | inl same ↦ rw (delete_by_id, e, find_one-delete id j db.snapshots, same) tt
    | inr other ↦ rw (delete_by_id, e, find_one-delete id j db.snapshots, other) h
  ]
]

-- After any writes, of any writers and in any order, a row that was in the table is deleted or has
-- a status that the diagram reaches from the one it had.
pub Writes-Follows :
    {db d : Database} (j : String) (row : Snapshot)
    → Writes db d
    → find_one j db.snapshots ≡ some row
    → Follows row.status (find_one j d.snapshots)
Writes-Follows j row none_yet h = rw h here
Writes-Follows j row (updated {d} id now input w) h =
    Follows-update row.status id j now input d (Writes-Follows j row w h)
Writes-Follows j row (published {d} id p w) h =
    Follows-publish row.status id j p d (Writes-Follows j row w h)
Writes-Follows j row (deleted {d} id w) h =
    Follows-delete row.status id j d (Writes-Follows j row w h)

-- So a row that is completed, failed or cancelled keeps its status for as long as it is there.
pub terminal_for_good :
    {db d : Database} (j : String) (row : Snapshot) (row' : Snapshot)
    → Writes db d
    → find_one j db.snapshots ≡ some row
    → is_terminal row.status ≡ true
    → find_one j d.snapshots ≡ some row'
    → row'.status ≡ row.status
terminal_for_good j row row' w h t h' =
    sym (terminal_stays (subst (Follows row.status) h' (Writes-Follows j row w h)) t)

-- ===== src/Snapshot/Repeats.antt =====
-- An activity that Temporal retries sends its update again (snapshot.service.ts).
use reputo.Prelude.{
  ℕ, String, true, false, ◌≡◌, refl, ap, inl, inr, Option, none, some, arith, Option-cases,
  Bool-cases, Bool, ◌∷◌, ◌∙◌,
}
use reputo.Snapshot.Repository
use reputo.Snapshot.Repository.{
  with_outputs_only, Snapshot, SnapshotApplyExternalUpdate, Database, find_one, save, assign,
  blocked,
}
use reputo.Snapshot.Rows.{id-of_find_one, find_one-save_at, save-save}
use reputo.Snapshot.Service.{UpdateSnapshotInput, answered, update_data, apply_external_update}

blocked-assign :
    (now : ℕ) (input : SnapshotApplyExternalUpdate) (row : Snapshot)
    → blocked row.status input.status ≡ false
    → blocked (assign now input row).status input.status ≡ false
unfolding blocked assign
blocked-assign now input row h = ground (arith)

assign-assign :
    (now : ℕ) (input : SnapshotApplyExternalUpdate) (row : Snapshot)
    → assign now input (assign now input row) ≡ assign now input row
unfolding assign
assign-assign now input row = ground arith

pub id-assign :
    (now : ℕ) (input : SnapshotApplyExternalUpdate) (row : Snapshot)
    → (assign now input row).id ≡ row.id
unfolding assign
id-assign now input row = refl

-- what an update that is not blocked writes
pub apply-free :
    (id : String) (now : ℕ) (input : SnapshotApplyExternalUpdate) (db : Database) (row : Snapshot)
    → find_one id db.snapshots ≡ some row
    → blocked row.status input.status ≡ false
    → Repository.apply_external_update id now input db ≡ (
      some (with_outputs_only (assign now input row), true),
      record { snapshots = save (assign now input row) db.snapshots; notified = id ∷ db.notified },
    )
unfolding Repository.apply_external_update
apply-free id now input db row found free = ground arith

pub apply-blocked :
    (id : String) (now : ℕ) (input : SnapshotApplyExternalUpdate) (db : Database) (row : Snapshot)
    → find_one id db.snapshots ≡ some row
    → blocked row.status input.status ≡ true
    → Repository.apply_external_update id now input db ≡ (some (with_outputs_only row, false), db)
unfolding Repository.apply_external_update
apply-blocked id now input db row found stop = ground arith

pub apply-missing :
    (id : String) (now : ℕ) (input : SnapshotApplyExternalUpdate) (db : Database)
    → find_one id db.snapshots ≡ none
    → Repository.apply_external_update id now input db ≡ (none, db)
unfolding Repository.apply_external_update
apply-missing id now input db gone = ground arith

module _ (id : String) (now : ℕ) (input : SnapshotApplyExternalUpdate) (db : Database) where
  abbrev write : Database → Option (Snapshot × Bool) × Database
  write = Repository.apply_external_update id now input

  -- the second write gives the answer and the rows of the first
  abbrev Repeats : Type 0
  Repeats =
      ((write (write db).1).0 ≡ (write db).0)
      × ((write (write db).1).1.snapshots ≡ (write db).1.snapshots)

  repeat_free :
      (row : Snapshot)
      → find_one id db.snapshots ≡ some row
      → blocked row.status input.status ≡ false
      → Repeats
  repeat_free row found free =
      let row' = assign now input row in
      let same_id : row'.id ≡ id =
        id-assign now input row ∙ id-of_find_one id db.snapshots row found in
      let found' = find_one-save_at id row' row db.snapshots same_id found in
      rw (apply-free id now input db row found free) (
        rw
          (
            apply-free id now input
                (record { snapshots = save row' db.snapshots; notified = id ∷ db.notified }) row'
                found' (blocked-assign now input row free),
            assign-assign,
          )
          (refl, save-save row' row' db.snapshots refl))

  repeat_write : Repeats
  repeat_write = elim (Option-cases (find_one id db.snapshots)) [
    | inl e ↦ rw (apply-missing id now input db e, apply-missing id now input db e) (refl, refl)
    | inr (row, e) ↦ elim (Bool-cases (blocked row.status input.status)) [
      | inl b ↦
          rw (apply-blocked id now input db row e b, apply-blocked id now input db row e b)
            (refl, refl)
      | inr b ↦ repeat_free row e b
    ]
  ]

-- An update that is sent twice, with the clock read the same, gives the same answer and leaves the
-- same rows as the update sent once, whether it was applied, blocked or found no row.
pub update_twice :
    (id : String) (now : ℕ) (input : UpdateSnapshotInput) (db : Database)
    → let first = apply_external_update id now input db in
      let second = apply_external_update id now input first.1 in
      (second.0 ≡ first.0) × (second.1.snapshots ≡ first.1.snapshots)
unfolding apply_external_update
update_twice id now input db =
    let (answers, rows) = repeat_write id now (update_data now input) db in
    (ap answered answers, rows)

-- ===== src/Snapshot/Settling.antt =====
-- How one write of the reconciler leaves the rows (`settle` of snapshot-reconciler.service.ts).
use reputo.Prelude.{
  Bool, ℕ, String, true, false, ◌≡◌, ◌⊎◌, refl, sym, subst, inl, inr, none, some, arith,
  Option-cases, Bool-cases, str_eq, str_eq_iff, ◌∙◌,
}
use reputo.Snapshot.Status.{SnapshotStatus, failed, cancelled, is_terminal}
use reputo.Snapshot.Repository
use reputo.Snapshot.Repository.{
  Snapshot, SnapshotApplyExternalUpdate, Database, find_unsettled, find_one, save, assign, blocked,
}
use reputo.Snapshot.Rows.{find_one-save, find_one-id, id-of_find_one, find_one-save_at}
use reputo.Snapshot.Repeats.{apply-free, apply-blocked, apply-missing, id-assign}
use reputo.Snapshot.Service.{WorkflowStatus, update_data, apply_external_update}
use reputo.Snapshot.Reconciler.{settle}

-- a write to another row
find_one-write_ne :
    (id j : String) (now : ℕ) (input : SnapshotApplyExternalUpdate) (db : Database)
    → str_eq id j ≡ false
    → find_one j (Repository.apply_external_update id now input db).1.snapshots
      ≡ find_one j db.snapshots
find_one-write_ne id j now input db ne = elim (Option-cases (find_one id db.snapshots)) [
  | inl e ↦ rw (apply-missing id now input db e) refl
  | inr (row, e) ↦ elim (Bool-cases (blocked row.status input.status)) [
    | inl b ↦ rw (apply-blocked id now input db row e b) refl
    | inr b ↦ rw (apply-free id now input db row e b) (
        ground (
          arith,
          find_one-save (assign now input row) row db.snapshots j
              (rw id-assign (find_one-id id db.snapshots row e)),
          id-assign now input row,
          id-of_find_one id db.snapshots row e,
        ))
  ]
]

-- `Over j db`: the row is there, and its status is terminal.
abbrev pub Over : String → Database → Type 0
Over j db = (r : Snapshot) × (find_one j db.snapshots ≡ some r) × (is_terminal r.status ≡ true)

abbrev pub Present : String → Database → Type 0
Present j db = (r : Snapshot) × (find_one j db.snapshots ≡ some r)

module _ (now : ℕ) (row : Snapshot) (status : SnapshotStatus) (message : String) where
  abbrev settling : SnapshotApplyExternalUpdate
  settling =
      update_data now
        (record { status = some status; temporal = none; outputs = none; error = some message })

  settle_lem :
      (db : Database)
      → settle now row status message db
        ≡ (Repository.apply_external_update row.id now settling db).1
  unfolding settle apply_external_update
  settle_lem db = refl

  -- how a settling finds and leaves the row that it is about
  pub settle_own :
      (db : Database) (r : Snapshot)
      → find_one row.id db.snapshots ≡ some r
      → (status ≡ failed) ⊎ (status ≡ cancelled)
      → Over row.id (settle now row status message db)
  settle_own db r e f = rw settle_lem (elim (Bool-cases (blocked r.status settling.status)) [
    | inl b ↦
        rw (apply-blocked row.id now settling db r e b)
          (r, e, unfold blocked update_data in ground arith)
    | inr b ↦ rw (apply-free row.id now settling db r e b) (
      assign now settling r,
      find_one-save_at row.id (assign now settling r) r db.snapshots
          (id-assign now settling r ∙ id-of_find_one row.id db.snapshots r e) e,
      unfold assign update_data in ground arith,
    )
  ])

  pub settle_other :
      (j : String) (db : Database)
      → str_eq row.id j ≡ false
      → find_one j (settle now row status message db).snapshots ≡ find_one j db.snapshots
  unfolding settle apply_external_update
  settle_other j db ne = find_one-write_ne row.id j now settling db ne

  pub settle-Over :
      (j : String) (db : Database)
      → (status ≡ failed) ⊎ (status ≡ cancelled)
      → Over j db
      → Over j (settle now row status message db)
  settle-Over j db f (r, e, over) = elim (Bool-cases (str_eq row.id j)) [
    | inl same ↦
        let p = (str_eq_iff row.id j).0 same in
        subst (λ k. Over k (settle now row status message db)) p
          (settle_own db r (subst (λ k. find_one k db.snapshots ≡ some r) (sym p) e) f)
    | inr other ↦ (r, rw (settle_other j db other) e, over)
  ]

  pub settle-Present :
      (j : String) (db : Database)
      → (status ≡ failed) ⊎ (status ≡ cancelled)
      → Present j db
      → Present j (settle now row status message db)
  settle-Present j db f (r, e) = elim (Bool-cases (str_eq row.id j)) [
    | inl same ↦
        let p = (str_eq_iff row.id j).0 same in
        let (r', e', over) =
          settle_own db r (subst (λ k. find_one k db.snapshots ≡ some r) (sym p) e) f in
        (r', subst (λ k. find_one k (settle now row status message db).snapshots ≡ some r') p e')
    | inr other ↦ (r, rw (settle_other j db other) e)
  ]

-- a workflow that has ended, one way or another
abbrev pub is_closed : WorkflowStatus → Bool
is_closed WorkflowStatus.running = false
is_closed WorkflowStatus.continued_as_new = false
is_closed WorkflowStatus.paused = false
is_closed WorkflowStatus.other = false
is_closed _ = true

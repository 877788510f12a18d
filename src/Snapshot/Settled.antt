-- ===== src/Snapshot/Settled.antt =====
-- A pass of the reconciler settles the rows whose workflow is over
-- (snapshot-reconciler.service.ts).
use mathlib.Core.List.{Memᴰ}
use reputo.Prelude.{
  true, ℕ, String, ◌≡◌, ◌≢◌, ◌⊎◌, refl, subst, inl, inr, Option, none, some, List, [], ◌∷◌, arith,
  ◌-◌, ◌<◌,
}
use reputo.Snapshot.Status.{SnapshotStatus, queued, running, failed, cancelled}
use reputo.Snapshot.Repository.{Snapshot, Database, find_unsettled, find_one}
use reputo.Snapshot.Service.{WorkflowStatus, described, not_found, Temporal, workflow_of}
use reputo.Snapshot.Reconciler.{
  Settings, settle, verdict, reconcile_missing, reconcile_row, reconcile_rows, reconcile,
}
use reputo.Snapshot.Listed.{unsettled-Memᴰ, find_one-Memᴰ}
use reputo.Snapshot.Pass.{RowStep, unreachable, untouched, settled, row-RowStep, rows_keep}
use reputo.Snapshot.Settling.{is_closed, Over, Present, settle_own, settle-Over, settle-Present}

module _ (s : Settings) (t : Temporal) (now : ℕ) where
  -- the workflow of a row is over, or a row that runs has none
  abbrev pub Closed : Snapshot → Type 0
  Closed row =
      ((status : WorkflowStatus) × (t.describe (workflow_of t row) ≡ some (described status))
        × (is_closed status ≡ true))
      ⊎ ((t.describe (workflow_of t row) ≡ some not_found) × (row.status ≡ running))

  abbrev Reachable : Type 0
  Reachable = (workflow : String) → t.describe workflow ≢ none

  verdict_of_closed :
      (status : WorkflowStatus)
      → is_closed status ≡ true
      → (v : SnapshotStatus) × (message : String) × (verdict status ≡ some (v, message))
        × ((v ≡ failed) ⊎ (v ≡ cancelled))
  unfolding verdict
  verdict_of_closed WorkflowStatus.cancelled h = (_, _, refl, inr refl)
  verdict_of_closed WorkflowStatus.completed h = (_, _, refl, inl refl)
  verdict_of_closed WorkflowStatus.failed h = (_, _, refl, inl refl)
  verdict_of_closed WorkflowStatus.terminated h = (_, _, refl, inl refl)
  verdict_of_closed WorkflowStatus.timed_out h = (_, _, refl, inl refl)
  verdict_of_closed WorkflowStatus.running h = cc
  verdict_of_closed WorkflowStatus.continued_as_new h = cc
  verdict_of_closed WorkflowStatus.paused h = cc
  verdict_of_closed WorkflowStatus.other h = cc

  settles :
      (row : Snapshot) (db : Database)
      → Closed row
      → (status : SnapshotStatus) × (message : String) × (reconcile_row s t now row db
          ≡ some (settle now row status message db))
        × ((status ≡ failed) ⊎ (status ≡ cancelled))
  unfolding reconcile_row
  settles row db (inl (status, e, closed)) =
      let (v, message, is, f) = verdict_of_closed status closed in
      (v, message, ground (arith, is), f)
  settles row db (inr (e, runs)) =
      (failed, "Workflow no longer exists", unfold reconcile_missing in ground arith, inl refl)

  -- the rest of a pass, after one row
  pub rest :
      (rows : List Snapshot) (row : Snapshot) (db db' : Database)
      → reconcile_row s t now row db ≡ some db'
      → reconcile_rows s t now (row ∷ rows) db ≡ reconcile_rows s t now rows db'
  unfolding reconcile_rows
  rest rows row db db' e = rw (reconcile_rows, e)

  Over-kept :
      (j : String) (rows : List Snapshot) (db : Database)
      → Over j db
      → Over j (reconcile_rows s t now rows db)
  Over-kept j =
      rows_keep s t now (Over j)
        (λ row status message db f h. settle-Over now row status message j db f h)

  rest_of_step :
      (r : Snapshot) (db : Database) (j : String)
      → RowStep s t now r db (reconcile_row s t now r db)
      → Reachable
      → Present j db
      → (db' : Database) × (reconcile_row s t now r db ≡ some db') × Present j db'
  rest_of_step r db j step up there = go _ step refl
    where
      go :
          (o : Option Database)
          → RowStep s t now r db o
          → reconcile_row s t now r db ≡ o
          → (db' : Database) × (reconcile_row s t now r db ≡ some db') × Present j db'
      go _ (unreachable e) is = absurd (up _ e)
      go _ untouched is = (db, is, there)
      go _ (settled status message f) is =
          (settle now r status message db, is, settle-Present now r status message j db f there)

  -- if Temporal can be reached, every listed row whose workflow is over ends with a terminal status
  rows-Over :
      (rows : List Snapshot) (row : Snapshot) (db : Database)
      → Reachable
      → Memᴰ row rows
      → Closed row
      → Present row.id db
      → Over row.id (reconcile_rows s t now rows db)
  rows-Over [] row db up m closed there = elim m [ ]
  rows-Over (r ∷ rows) row db up (Memᴰ.head e) closed (found, there) =
      let (status, message, is, f) = settles row db closed in
      subst (λ x. Over row.id (reconcile_rows s t now (x ∷ rows) db)) e
        (rw (rest rows row db (settle now row status message db) is) (
          Over-kept row.id rows (settle now row status message db)
            (settle_own now row status message db found there f)))
  rows-Over (r ∷ rows) row db up (Memᴰ.tail m) closed there =
      let (db', is, there') = rest_of_step r db row.id (row-RowStep s t now r db) up there in
      rw (rest rows r db db' is) (rows-Over rows row db' up m closed there')

  -- If Temporal can be reached, a pass leaves a terminal status in every row that is queued or
  -- running, was not touched for longer than the grace period, and whose workflow is over or, of a
  -- running row, is missing.
  pub reconcile_settles :
      (row : Snapshot) (db : Database)
      → Reachable
      → (row.status ≡ queued) ⊎ (row.status ≡ running)
      → row.updated_at < now - s.grace_ms
      → Closed row
      → find_one row.id db.snapshots ≡ some row
      → Over row.id (reconcile s t now db)
  unfolding reconcile
  reconcile_settles row db up open_still rested closed there =
      rows-Over (find_unsettled (now - s.grace_ms) db.snapshots) row db up
        (unsettled-Memᴰ row (now - s.grace_ms) db.snapshots
          (find_one-Memᴰ row.id db.snapshots there) open_still rested)
        closed (row, there)

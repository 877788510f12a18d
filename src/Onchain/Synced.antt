-- ===== src/Onchain/Synced.antt =====
-- What a synchronisation leaves in the database, whether it ends or the provider throws
-- (evm/transfers/sync.ts).
use reputo.Prelude.{
  ℕ, ◌+◌, ◌≤◌, ◌<◌, ◌≡◌, refl, true, false, none, some, List, [], ◌++◌, length, arith, sym, subst,
  All, ltb,
}
use reputo.Onchain.Evm.{EvmTransferTarget, Database, insert_or_ignore}
use reputo.Onchain.Sync.{
  Page, Fetched, SyncResult, rows_of, from_block, no_progress, result_of, flush_pending_pages,
  take_pages, sync_evm_asset_transfer,
}
use reputo.Onchain.Inserts.{Holds, insert-All}
use reputo.Onchain.Batches.{
  Written, Taken, take_pages-Taken, flush-Written, synced_block, block_after,
}

-- The database as if the rows of some pages had been inserted at once, and recorded.
abbrev pub IsSynced : EvmTransferTarget → Database → List Page → Database → Type 0
IsSynced target before pages db =
    (db.transfers ≡ (insert_or_ignore (rows_of target pages) before.transfers).1)
    × (synced_block target db.sync_states
        ≡ block_after pages (synced_block target before.sync_states))

-- The counts that are reported.
abbrev pub IsCounted : EvmTransferTarget → Database → List Page → SyncResult → Type 0
IsCounted target before pages r =
    (r.page_count ≡ length pages)
    × (r.attempted_count ≡ length (rows_of target pages))
    × (r.inserted_count ≡ (insert_or_ignore (rows_of target pages) before.transfers).0)
    × (r.attempted_count ≡ r.inserted_count + r.ignored_count)

nothing-Taken :
    (target : EvmTransferTarget) (before : Database) → Taken target before [] (no_progress, before)
unfolding insert_or_ignore
nothing-Taken target before = (
  [],
  refl,
  record {
    stored = refl;
    inserted = refl;
    attempted = refl;
    balanced = omega arith;
    recorded = refl;
  },
  omega arith,
  refl,
)

module _ (target : EvmTransferTarget) (clock : ℕ → ℕ) (to : ℕ) (fetch : ℕ → ℕ → Fetched)
    (db : Database) where
  abbrev pub pages_fetched : List Page
  pages_fetched = (fetch (from_block target db) to).pages

  -- A synchronisation up to a block that is not before the last one, whose provider ends, returns:
  -- the table and the sync state are as if the rows of all pages had been inserted at once, however
  -- the pages fall into batches; every row is in the table; the counts are those of that insertion.
  pub sync-IsSynced :
      from_block target db ≤ to
      → (fetch (from_block target db) to).thrown ≡ false
      → let s = sync_evm_asset_transfer target clock to fetch db in
        (r : SyncResult) × (s.0 ≡ some r)
        × IsCounted target db pages_fetched r
        × IsSynced target db pages_fetched s.1
        × All (Holds s.1.transfers) (rows_of target pages_fetched)
  unfolding sync_evm_asset_transfer
  sync-IsSynced le ends =
      let (done, e, w, few, n) =
        take_pages-Taken target clock db [] pages_fetched (no_progress, db)
          (nothing-Taken target db) in
      let taken = take_pages target clock pages_fetched (no_progress, db) in
      let (f, _, same) = flush-Written target clock db done taken.0 taken.1 w in
      let last = flush_pending_pages target clock taken in
      let all : Written target db pages_fetched last.0 last.1 =
        subst (λ pages. Written target db pages last.0 last.1) e f in
      let forward : ltb to (from_block target db) ≡ false = ground arith in
      let r = result_of (from_block target db) to last.0 in
      subst
        (λ s.
          (r' : SyncResult) × (s.0 ≡ some r')
          × IsCounted target db pages_fetched r'
          × IsSynced target db pages_fetched s.1
          × All (Holds s.1.transfers) (rows_of target pages_fetched))
        (let answer : (some r, last.1) ≡ sync_evm_asset_transfer target clock to fetch db =
            ground (arith, forward, ends) in
          answer)
        (
          r,
          refl,
          (omega (arith, same, n), all.attempted, all.inserted, all.balanced),
          (all.stored, all.recorded),
          subst (λ t. All (Holds t) (rows_of target pages_fetched)) (sym all.stored)
              (insert-All (rows_of target pages_fetched) db.transfers),
        )

  -- When the provider throws, nothing is returned, and the database is as if the first pages had
  -- been synchronised, all but fewer than five: its sync state is never ahead of its rows.
  pub sync-thrown :
      from_block target db ≤ to
      → (fetch (from_block target db) to).thrown ≡ true
      → let s = sync_evm_asset_transfer target clock to fetch db in
        (s.0 ≡ none)
        × (done : List Page) × (lost : List Page) × (done ++ lost ≡ pages_fetched)
        × (length lost < 5)
        × IsSynced target db done s.1
  unfolding sync_evm_asset_transfer
  sync-thrown le throws =
      let (done, e, w, few, n) =
        take_pages-Taken target clock db [] pages_fetched (no_progress, db)
          (nothing-Taken target db) in
      let taken = take_pages target clock pages_fetched (no_progress, db) in
      let forward : ltb to (from_block target db) ≡ false = ground arith in
      subst
        (λ s.
          (s.0 ≡ none)
          × (done' : List Page) × (lost : List Page) × (done' ++ lost ≡ pages_fetched)
          × (length lost < 5)
          × IsSynced target db done' s.1)
        (let answer : (none, taken.1) ≡ sync_evm_asset_transfer target clock to fetch db =
            ground (arith, forward, throws) in
          answer)
        (refl, done, taken.0.pending_pages, e, few, (w.stored, w.recorded))

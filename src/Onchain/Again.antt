-- ===== src/Onchain/Again.antt =====
-- A synchronisation that is repeated (evm/transfers/sync.ts).
use reputo.Prelude.{ℕ, ◌≤◌, ◌≡◌, false, some, arith, ◌∙◌, ap, All}
use reputo.Onchain.Evm.{EvmTransferTarget, Database}
use reputo.Onchain.Sync.{Fetched, SyncResult, rows_of, from_block, sync_evm_asset_transfer}
use reputo.Onchain.Inserts.{Holds, insert-held}
use reputo.Onchain.Synced.{pages_fetched, sync-IsSynced}

-- When a later synchronisation is given pages all of whose rows were given before, as after a crash
-- of the caller, it inserts nothing, reports every row as ignored and leaves the table as it is.
pub sync-again :
    (target : EvmTransferTarget) (clock : ℕ → ℕ) (to : ℕ) (fetch : ℕ → ℕ → Fetched) (db : Database)
    → from_block target db ≤ to
    → (fetch (from_block target db) to).thrown ≡ false
    → All (Holds db.transfers) (rows_of target (pages_fetched target clock to fetch db))
    → let s = sync_evm_asset_transfer target clock to fetch db in
      (r : SyncResult) × (s.0 ≡ some r)
      × (r.inserted_count ≡ 0)
      × (r.attempted_count ≡ r.ignored_count)
      × (s.1.transfers ≡ db.transfers)
sync-again target clock to fetch db le ends held =
    let (r, e, (_, _, inserted, balanced), (stored, _), _) =
      sync-IsSynced target clock to fetch db le ends in
    let nothing =
      insert-held (rows_of target (pages_fetched target clock to fetch db)) db.transfers held in
    (
      r,
      e,
      inserted ∙ ap (λ i. i.0) nothing,
      omega (arith, balanced, inserted, ap (λ i. i.0) nothing),
      stored ∙ ap (λ i. i.1) nothing,
    )

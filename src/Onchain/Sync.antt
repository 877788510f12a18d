-- ===== src/Onchain/Sync.antt =====
-- packages/onchain-data/src/adapters/evm/transfers/sync.ts: the pages of the provider are written in
-- batches of five.
use reputo.Prelude.{
  ℕ, ◌+◌, ◌*◌, Bool, Option, none, some, List, [], ◌∷◌, ◌++◌, if◌then◌else◌, length, map, ltb, leb,
  last?,
}
use reputo.Onchain.Evm.{
  EvmTransferTarget, EvmAssetTransferRow, RawEvmAssetTransfer, to_evm_asset_transfer_row, SyncState,
  Database, insert_evm_asset_transfers, find_sync_state, upsert_sync_state,
}

pub record Page : Type 0 where
  pub items : List RawEvmAssetTransfer
  pub last_block : ℕ

-- The variables of a synchronisation that is under way.
pub record Progress : Type 0 where
  pub page_count : ℕ
  pub attempted_count : ℕ
  pub inserted_count : ℕ
  pub ignored_count : ℕ
  pub pending_pages : List Page

abbrev pub evm_provider_page_size : ℕ
evm_provider_page_size = 1000

abbrev pub evm_sync_pages_per_batch : ℕ
evm_sync_pages_per_batch = 5

abbrev pub evm_sync_batch_size : ℕ
evm_sync_batch_size = evm_provider_page_size * evm_sync_pages_per_batch

abbrev pub rows_of : EvmTransferTarget → List Page → List EvmAssetTransferRow
rows_of target [] = []
rows_of target (page ∷ pages) =
    map (to_evm_asset_transfer_row target) page.items ++ rows_of target pages

-- the transaction: the rows and the sync state are written together
unfoldable pub write_pages :
    EvmTransferTarget → (ℕ → ℕ) → Page → Progress × Database → Progress × Database
write_pages target clock last (p, db) =
    let (result, transfers) =
      insert_evm_asset_transfers (rows_of target p.pending_pages) db.transfers in
    let state : SyncState = record {
      chain = target.chain;
      asset_identifier = target.asset_identifier;
      last_synced_block = last.last_block;
      updated_at = clock p.page_count;
    } in
    (
      record p {
        attempted_count = p.attempted_count + result.attempted_count;
        inserted_count = p.inserted_count + result.inserted_count;
        ignored_count = p.ignored_count + result.ignored_count;
        pending_pages = [];
      },
      record { transfers = transfers; sync_states = upsert_sync_state state db.sync_states },
    )

-- `flushPendingPages`
unfoldable pub flush_pending_pages :
    EvmTransferTarget → (ℕ → ℕ) → Progress × Database → Progress × Database
flush_pending_pages target clock (p, db) = elim (last? p.pending_pages) [
  | none ↦ (p, db)
  | some last ↦ write_pages target clock last (p, db)
]

-- the body of the loop over the pages
unfoldable pub take_page :
    EvmTransferTarget → (ℕ → ℕ) → Page → Progress × Database → Progress × Database
take_page target clock page (p, db) =
    let p' : Progress = record p {
      page_count = p.page_count + 1;
      pending_pages = p.pending_pages ++ (page ∷ []);
    } in
    if leb evm_sync_batch_size (length p'.pending_pages * evm_provider_page_size)
    then flush_pending_pages target clock (p', db)
    else (p', db)

abbrev pub take_pages :
    EvmTransferTarget → (ℕ → ℕ) → List Page → Progress × Database → Progress × Database
take_pages target clock [] s = s
take_pages target clock (page ∷ pages) s =
    take_pages target clock pages (take_page target clock page s)

-- What the provider does for a range of blocks: the pages that it yields before it ends or throws.
pub record Fetched : Type 0 where
  pub pages : List Page
  pub thrown : Bool

pub record SyncResult : Type 0 where
  pub from_block : ℕ
  pub to_block : ℕ
  pub page_count : ℕ
  pub attempted_count : ℕ
  pub inserted_count : ℕ
  pub ignored_count : ℕ

abbrev pub from_block : EvmTransferTarget → Database → ℕ
from_block target db = elim (find_sync_state target db.sync_states) [
  | none ↦ 0
  | some state ↦ state.last_synced_block
]

abbrev pub no_progress : Progress
no_progress = record {
  page_count = 0;
  attempted_count = 0;
  inserted_count = 0;
  ignored_count = 0;
  pending_pages = [];
}

abbrev pub result_of : ℕ → ℕ → Progress → SyncResult
result_of from to p = record {
  from_block = from;
  to_block = to;
  page_count = p.page_count;
  attempted_count = p.attempted_count;
  inserted_count = p.inserted_count;
  ignored_count = p.ignored_count;
}

-- `syncEvmAssetTransferWithAdapter`, for the block that is finalized and the provider's answer;
-- nothing is returned where the provider throws. The clock is read at the count of pages.
unfoldable pub sync_evm_asset_transfer :
    EvmTransferTarget → (ℕ → ℕ) → ℕ → (ℕ → ℕ → Fetched) → Database → Option SyncResult × Database
sync_evm_asset_transfer target clock to fetch db =
    let from = from_block target db in
    let fetched = fetch from to in
    let (p, db') = take_pages target clock fetched.pages (no_progress, db) in
    let (q, db'') = flush_pending_pages target clock (p, db') in
    if ltb to from
    then (some (result_of from to no_progress), db)
    else if fetched.thrown
    then (none, db')
    else (some (result_of from to q), db'')

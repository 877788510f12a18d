-- ===== src/Onchain/Examples.antt =====
-- A concrete synchronisation, and what the theorems say of it.
use reputo.Values.{natural}
use reputo.Prelude.{
  ℕ, ◌+◌, ◌<◌, ◌≡◌, refl, true, false, none, some, List, [], ◌∷◌, ◌++◌, String, All, length, arith,
}
use reputo.Onchain.Evm.{
  EvmTransferTarget, RawEvmAssetTransfer, Database, find_sync_state, insert_or_ignore,
  insert_evm_asset_transfers, upsert_sync_state,
}
use reputo.Onchain.Sync.{
  Page, Fetched, SyncResult, rows_of, sync_evm_asset_transfer, take_page, flush_pending_pages,
  write_pages,
}
use reputo.Onchain.Inserts.{Holds}
use reputo.Onchain.Synced.{IsSynced, IsCounted, sync-IsSynced, sync-thrown}
use reputo.Onchain.Again.{sync-again}

abbrev fet : EvmTransferTarget
fet = record { chain = "ethereum"; asset_identifier = "0xfet" }

abbrev transfer_of : String → ℕ → RawEvmAssetTransfer
transfer_of id block = record {
  block_num = block;
  unique_id = id;
  hash = "0x0";
  from = "ann";
  to = some "bob";
  value = some (natural 5);
  asset = none;
  category = "erc20";
  raw_contract = "";
  metadata = none;
}

abbrev page_at : String → ℕ → Page
page_at id block = record { items = transfer_of id block ∷ []; last_block = block }

abbrev six_pages : List Page
six_pages =
    page_at "1" 1
    ∷ page_at "2" 2
    ∷ page_at "2" 2
    ∷ page_at "3" 3
    ∷ page_at "4" 4
    ∷ page_at "5" 5
    ∷ []

abbrev no_rows : Database
no_rows = record { transfers = []; sync_states = [] }

abbrev provider_ends : ℕ → ℕ → Fetched
provider_ends from to = record { pages = six_pages; thrown = false }

abbrev provider_throws : ℕ → ℕ → Fetched
provider_throws from to = record { pages = six_pages; thrown = true }

abbrev now : ℕ → ℕ
now pages = 100 + pages

sync-IsSynced_example :
    (r : SyncResult) × ((sync_evm_asset_transfer fet now 9 provider_ends no_rows).0 ≡ some r)
    × IsCounted fet no_rows six_pages r
    × IsSynced fet no_rows six_pages (sync_evm_asset_transfer fet now 9 provider_ends no_rows).1
    × All
        (Holds (sync_evm_asset_transfer fet now 9 provider_ends no_rows).1.transfers)
        (rows_of fet six_pages)
unfolding find_sync_state
sync-IsSynced_example = sync-IsSynced fet now 9 provider_ends no_rows (omega arith) refl

sync-thrown_example :
    ((sync_evm_asset_transfer fet now 9 provider_throws no_rows).0 ≡ none)
    × (done : List Page) × (lost : List Page) × (done ++ lost ≡ six_pages)
    × (length lost < 5)
    × IsSynced fet no_rows done (sync_evm_asset_transfer fet now 9 provider_throws no_rows).1
unfolding find_sync_state
sync-thrown_example = sync-thrown fet now 9 provider_throws no_rows (omega arith) refl

-- the database after a first synchronisation
abbrev filled : Database
filled = (sync_evm_asset_transfer fet now 9 provider_ends no_rows).1

sync-again_example :
    (r : SyncResult) × ((sync_evm_asset_transfer fet now 9 provider_ends filled).0 ≡ some r)
    × (r.inserted_count ≡ 0)
    × (r.attempted_count ≡ r.ignored_count)
    × ((sync_evm_asset_transfer fet now 9 provider_ends filled).1.transfers ≡ filled.transfers)
unfolding find_sync_state sync_evm_asset_transfer take_page flush_pending_pages write_pages
    insert_evm_asset_transfers insert_or_ignore upsert_sync_state
sync-again_example =
    sync-again fet now 9 provider_ends filled (omega arith) refl
      (refl, (refl, (refl, (refl, (refl, (refl, tt))))))

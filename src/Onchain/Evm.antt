-- ===== src/Onchain/Evm.antt =====
-- packages/onchain-data/src/adapters/evm: the table of transfers (transfers/repository.ts,
-- schema.ts) and the sync states (sync-state/repository.ts). A block is the number that its hexadecimal string denotes, as
-- provider/blocks.ts compares them; JSON columns are carried as text.
use reputo.Values.{Number}
use reputo.Prelude.{
  ℕ, ◌+◌, ◌-◌, String, Bool, ◌&&◌, Option, List, [], ◌∷◌, str_eq, any, find, if◌then◌else◌, length,
}

pub record EvmTransferTarget : Type 0 where
  pub chain : String
  pub asset_identifier : String

pub record RawEvmAssetTransfer : Type 0 where
  pub block_num : ℕ
  pub unique_id : String
  pub hash : String
  pub from : String
  pub to : Option String
  pub value : Option Number
  pub asset : Option String
  pub category : String
  pub raw_contract : String
  pub metadata : Option String

pub record EvmAssetTransferRow : Type 0 where
  pub chain : String
  pub asset_identifier : String
  pub block_num : ℕ
  pub unique_id : String
  pub hash : String
  pub from_address : String
  pub to_address : Option String
  pub value : Option Number
  pub asset : Option String
  pub category : String
  pub raw_contract : String
  pub metadata : Option String
  pub raw_json : RawEvmAssetTransfer

abbrev pub to_evm_asset_transfer_row : EvmTransferTarget → RawEvmAssetTransfer → EvmAssetTransferRow
to_evm_asset_transfer_row target transfer = record {
  chain = target.chain;
  asset_identifier = target.asset_identifier;
  block_num = transfer.block_num;
  unique_id = transfer.unique_id;
  hash = transfer.hash;
  from_address = transfer.from;
  to_address = transfer.to;
  value = transfer.value;
  asset = transfer.asset;
  category = transfer.category;
  raw_contract = transfer.raw_contract;
  metadata = transfer.metadata;
  raw_json = transfer;
}

pub record SyncState : Type 0 where
  pub chain : String
  pub asset_identifier : String
  pub last_synced_block : ℕ
  pub updated_at : ℕ

pub record Database : Type 0 where
  pub transfers : List EvmAssetTransferRow
  pub sync_states : List SyncState

-- the primary key of the table
abbrev pub same_key : EvmAssetTransferRow → EvmAssetTransferRow → Bool
same_key a b =
    str_eq a.chain b.chain
    && str_eq a.asset_identifier b.asset_identifier
    && str_eq a.unique_id b.unique_id

-- `INSERT OR IGNORE` of the rows, one after another: how many went in, and the table.
unfoldable pub insert_or_ignore :
    List EvmAssetTransferRow → List EvmAssetTransferRow → ℕ × List EvmAssetTransferRow
insert_or_ignore [] table = (0, table)
insert_or_ignore (row ∷ rows) table =
    let kept = insert_or_ignore rows table in
    let (inserted, grown) = insert_or_ignore rows (row ∷ table) in
    if any (same_key row) table then kept else (inserted + 1, grown)

pub record InsertEvmAssetTransfersResult : Type 0 where
  pub attempted_count : ℕ
  pub inserted_count : ℕ
  pub ignored_count : ℕ

unfoldable pub insert_evm_asset_transfers :
    List EvmAssetTransferRow
    → List EvmAssetTransferRow
    → InsertEvmAssetTransfersResult × List EvmAssetTransferRow
insert_evm_asset_transfers [] table =
    (record { attempted_count = 0; inserted_count = 0; ignored_count = 0 }, table)
insert_evm_asset_transfers (row ∷ rows) table =
    let (inserted, table') = insert_or_ignore (row ∷ rows) table in
    (
      record {
        attempted_count = length (row ∷ rows);
        inserted_count = inserted;
        ignored_count = length (row ∷ rows) - inserted;
      },
      table',
    )

abbrev pub is_state_of : EvmTransferTarget → SyncState → Bool
is_state_of target state =
    str_eq state.chain target.chain && str_eq state.asset_identifier target.asset_identifier

unfoldable pub find_sync_state : EvmTransferTarget → List SyncState → Option SyncState
find_sync_state target = find (is_state_of target)

unfoldable pub upsert_sync_state : SyncState → List SyncState → List SyncState
upsert_sync_state state [] = state ∷ []
upsert_sync_state state (old ∷ states) =
    let rest = upsert_sync_state state states in
    if str_eq old.chain state.chain && str_eq old.asset_identifier state.asset_identifier
    then state ∷ states
    else old ∷ rest

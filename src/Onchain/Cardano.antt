-- ===== src/Onchain/Cardano.antt =====
-- packages/onchain-data/src/adapters/cardano: the table of asset transactions and its sync state.
-- JSON columns are carried as text.
use reputo.Prelude.{
  ℕ, ◌+◌, String, Bool, ◌&&◌, Option, List, [], ◌∷◌, str_eq, any, find, if◌then◌else◌,
}

pub record RawCardanoAssetTransaction : Type 0 where
  pub tx_hash : String
  pub tx_index : ℕ
  pub block_height : ℕ
  pub block_time : ℕ

pub record CardanoAssetTransactionRow : Type 0 where
  pub chain : String
  pub asset_identifier : String
  pub tx_hash : String
  pub tx_index : ℕ
  pub block_height : ℕ
  pub block_time : ℕ
  pub raw_json : RawCardanoAssetTransaction

abbrev pub cardano_chain : String
cardano_chain = "cardano"

abbrev pub to_cardano_asset_transaction_row :
    String → RawCardanoAssetTransaction → CardanoAssetTransactionRow
to_cardano_asset_transaction_row asset t = record {
  chain = cardano_chain;
  asset_identifier = asset;
  tx_hash = t.tx_hash;
  tx_index = t.tx_index;
  block_height = t.block_height;
  block_time = t.block_time;
  raw_json = t;
}

-- The row of a transaction's UTXOs; the rows of its inputs, outputs and amounts, which refer to
-- it, are not modelled.
pub record CardanoTransactionUtxoRow : Type 0 where
  pub chain : String
  pub tx_hash : String
  pub raw_json : String

pub record CardanoSyncState : Type 0 where
  pub asset_identifier : String
  pub last_asset_transaction : RawCardanoAssetTransaction
  pub last_synced_page : ℕ
  pub updated_at : ℕ

pub record CardanoDatabase : Type 0 where
  pub transactions : List CardanoAssetTransactionRow
  pub utxos : List CardanoTransactionUtxoRow
  pub sync_states : List CardanoSyncState

abbrev pub same_transaction : CardanoAssetTransactionRow → CardanoAssetTransactionRow → Bool
same_transaction a b =
    str_eq a.chain b.chain
    && str_eq a.asset_identifier b.asset_identifier
    && str_eq a.tx_hash b.tx_hash

abbrev pub same_utxo : CardanoTransactionUtxoRow → CardanoTransactionUtxoRow → Bool
same_utxo a b = str_eq a.chain b.chain && str_eq a.tx_hash b.tx_hash

-- `INSERT OR IGNORE` of the rows, for a primary key: how many went in, and the table.
unfoldable pub insert_rows {ℓ} : {A : Type ℓ} → (A → A → Bool) → List A → List A → ℕ × List A
insert_rows same [] table = (0, table)
insert_rows same (row ∷ rows) table =
    let kept = insert_rows same rows table in
    let (inserted, grown) = insert_rows same rows (row ∷ table) in
    if any (same row) table then kept else (inserted + 1, grown)

unfoldable pub find_cardano_sync_state : String → List CardanoSyncState → Option CardanoSyncState
find_cardano_sync_state asset = find (λ s. str_eq s.asset_identifier asset)

unfoldable pub upsert_cardano_sync_state :
    CardanoSyncState → List CardanoSyncState → List CardanoSyncState
upsert_cardano_sync_state state [] = state ∷ []
upsert_cardano_sync_state state (old ∷ states) =
    let rest = upsert_cardano_sync_state state states in
    if str_eq old.asset_identifier state.asset_identifier then state ∷ states else old ∷ rest

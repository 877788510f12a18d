-- ===== src/Onchain/CardanoSync.antt =====
-- packages/onchain-data/src/adapters/cardano/transfers/sync.ts: every page is written by itself, from
-- the transaction after the last one that is recorded.
use reputo.Prelude.{
  ℕ, ◌+◌, String, Bool, true, false, Option, none, some, List, [], ◌∷◌, str_eq, length, map, last?,
  not, is_some, if◌then◌else◌, Result, ok, err,
}
use reputo.Onchain.Cardano.{
  RawCardanoAssetTransaction, cardano_chain, to_cardano_asset_transaction_row,
  CardanoTransactionUtxoRow, CardanoSyncState, CardanoDatabase, same_transaction, same_utxo,
  insert_rows, find_cardano_sync_state, upsert_cardano_sync_state,
}

pub record RawCardanoTransactionUtxo : Type 0 where
  pub hash : String
  pub raw : String

-- The errors that a synchronisation throws.
pub data CardanoError : Type 0 where
  boundary_missing : ℕ → CardanoError  -- the page
  hash_mismatch utxo_failed provider_failed : CardanoError

-- the variables of a synchronisation that is under way
pub record CardanoProgress : Type 0 where
  pub page_count : ℕ
  pub attempted_asset_transaction_count : ℕ
  pub inserted_asset_transaction_count : ℕ
  pub attempted_utxo_count : ℕ
  pub inserted_utxo_count : ℕ
  pub current_page : ℕ
  pub sync_boundary_found : Bool
  pub last_synced_transaction : Option RawCardanoAssetTransaction

-- the items after the first one with a hash, or nothing if there is none
unfoldable pub after_boundary :
    String → List RawCardanoAssetTransaction → Option (List RawCardanoAssetTransaction)
after_boundary hash [] = none
after_boundary hash (item ∷ items) =
    let rest = after_boundary hash items in if str_eq item.tx_hash hash then some items else rest

-- the items of a page that are new, and whether the boundary has been found
unfoldable pub page_items :
    Option CardanoSyncState
    → Bool
    → List RawCardanoAssetTransaction
    → Option (List RawCardanoAssetTransaction)
page_items none found items = some items
page_items (some state) true items = some items
page_items (some state) false items = after_boundary state.last_asset_transaction.tx_hash items

-- `toCardanoTransactionUtxoWriteSet` of every item with its UTXOs, which throws where a hash differs
unfoldable pub utxo_rows :
    List (RawCardanoAssetTransaction × RawCardanoTransactionUtxo)
    → Option (List CardanoTransactionUtxoRow)
utxo_rows [] = some []
utxo_rows ((item, utxo) ∷ fetched) =
    let row : CardanoTransactionUtxoRow = record {
      chain = cardano_chain;
      tx_hash = item.tx_hash;
      raw_json = utxo.raw;
    } in
    let rest = utxo_rows fetched in
    if str_eq item.tx_hash utxo.hash
    then elim rest [ none ↦ none | some rows ↦ some (row ∷ rows) ]
    else none

-- What the provider yields: its pages, and whether it throws after them.
pub record ProviderPages : Type 0 where
  pub pages : List (List RawCardanoAssetTransaction)
  pub thrown : Bool

-- A request of UTXOs that throws answers nothing.
module _ (fetch_utxo : String → Option RawCardanoTransactionUtxo) (asset : String)
    (clock : ℕ → ℕ) where
  -- `mapWithConcurrency`: it throws if any of the requests does.
  unfoldable pub fetch_utxos :
      List RawCardanoAssetTransaction
      → Option (List (RawCardanoAssetTransaction × RawCardanoTransactionUtxo))
  fetch_utxos [] = some []
  fetch_utxos (item ∷ items) =
      let rest = fetch_utxos items in
      elim (fetch_utxo item.tx_hash) [
        | none ↦ none
        | some utxo ↦ elim rest [ none ↦ none | some fetched ↦ some ((item, utxo) ∷ fetched) ]
      ]

  -- the transaction of a page
  unfoldable pub write_page :
      RawCardanoAssetTransaction
      → List RawCardanoAssetTransaction
      → List CardanoTransactionUtxoRow
      → CardanoProgress × CardanoDatabase
      → CardanoProgress × CardanoDatabase
  write_page last items utxos (p, db) =
      let rows = map (to_cardano_asset_transaction_row asset) items in
      let (inserted, transactions) = insert_rows same_transaction rows db.transactions in
      let (inserted_utxos, stored_utxos) = insert_rows same_utxo utxos db.utxos in
      let state : CardanoSyncState = record {
        asset_identifier = asset;
        last_asset_transaction = last;
        last_synced_page = p.current_page;
        updated_at = clock p.page_count;
      } in
      (
        record p {
          attempted_asset_transaction_count = p.attempted_asset_transaction_count + length rows;
          inserted_asset_transaction_count = p.inserted_asset_transaction_count + inserted;
          attempted_utxo_count = p.attempted_utxo_count + length utxos;
          inserted_utxo_count = p.inserted_utxo_count + inserted_utxos;
          current_page = p.current_page + 1;
          last_synced_transaction = some last;
        },
        record {
          transactions = transactions;
          utxos = stored_utxos;
          sync_states = upsert_cardano_sync_state state db.sync_states;
        },
      )

  -- the body of the loop over the pages
  unfoldable pub take_cardano_page :
      Option CardanoSyncState
      → List RawCardanoAssetTransaction
      → CardanoProgress × CardanoDatabase
      → Result CardanoError (CardanoProgress × CardanoDatabase)
  take_cardano_page state page (before, db) =
      let p : CardanoProgress = record before { page_count = before.page_count + 1 } in
      elim (page_items state p.sync_boundary_found page) [
        | none ↦ err (boundary_missing p.current_page)
        | some items ↦
            let q : CardanoProgress = record p { sync_boundary_found = true } in
            elim (last? items) [
              | none ↦ ok (record q { current_page = q.current_page + 1 }, db)
              | some last ↦ elim (fetch_utxos items) [
                | none ↦ err utxo_failed
                | some fetched ↦ elim (utxo_rows fetched) [
                  | none ↦ err hash_mismatch
                  | some utxos ↦ ok (write_page last items utxos (q, db))
                ]
              ]
            ]
      ]

  -- The loop, and what it leaves in the database when it throws.
  unfoldable pub take_cardano_pages :
      Option CardanoSyncState
      → List (List RawCardanoAssetTransaction)
      → CardanoProgress × CardanoDatabase
      → Result CardanoError CardanoProgress × CardanoDatabase
  take_cardano_pages state [] (p, db) = (ok p, db)
  take_cardano_pages state (page ∷ pages) (p, db) = elim (take_cardano_page state page (p, db)) [
    | err e ↦ (err e, db)
    | ok s ↦ take_cardano_pages state pages s
  ]

  abbrev pub start_of : Option CardanoSyncState → CardanoProgress
  start_of state = record {
    page_count = 0;
    attempted_asset_transaction_count = 0;
    inserted_asset_transaction_count = 0;
    attempted_utxo_count = 0;
    inserted_utxo_count = 0;
    current_page = elim state [ none ↦ 1 | some s ↦ s.last_synced_page ];
    sync_boundary_found = not (is_some state);
    last_synced_transaction = none;
  }

  -- `syncCardanoAssetTransferWithAdapter`, for the pages that the provider yields from a page on.
  -- The result is the last of the variables.
  unfoldable pub sync_cardano_asset_transfer :
      (ℕ → ProviderPages) → CardanoDatabase → Result CardanoError CardanoProgress × CardanoDatabase
  sync_cardano_asset_transfer fetch db =
      let state = find_cardano_sync_state asset db.sync_states in
      let p = start_of state in
      let (result, db') = take_cardano_pages state (fetch p.current_page).pages (p, db) in
      elim result [
        | err e ↦ (err e, db')
        | ok q ↦
            if (fetch p.current_page).thrown
            then (err provider_failed, db')
            else if q.sync_boundary_found
            then (ok q, db')
            else (err (boundary_missing p.current_page), db')
      ]

-- ===== src/Onchain/CardanoResume.antt =====
-- A Cardano synchronisation stores what follows the recorded transaction (cardano/transfers/sync.ts).
use reputo.Prelude.{
  Bool, true, false, not, all, list_cases, str_eq, Result, ◌⊎◌, ℕ, ◌≡◌, refl, inl, inr, String,
  Option, none, some, List, [], ◌∷◌, ◌++◌, ok, err, arith,
}
use reputo.Onchain.Cardano.{
  RawCardanoAssetTransaction, CardanoSyncState, CardanoDatabase, find_cardano_sync_state,
}
use reputo.Onchain.CardanoSync.{
  RawCardanoTransactionUtxo, CardanoError, boundary_missing, provider_failed, ProviderPages,
  CardanoProgress, after_boundary, page_items, take_cardano_page, take_cardano_pages, start_of,
  sync_cardano_asset_transfer,
}
use reputo.Onchain.CardanoPages.{IsStored, IsUtxoError, items_of}

-- What is to be stored of the pages that the provider yields: all of it in the first synchronisation;
-- in a later one, what follows the first transaction with the recorded hash, which is on the first
-- page.
abbrev pub Resumes :
    Option CardanoSyncState
    → List (List RawCardanoAssetTransaction)
    → List (List RawCardanoAssetTransaction)
    → Type 0
Resumes none pages chunks = pages ≡ chunks
Resumes (some state) pages chunks =
    let hash = state.last_asset_transaction.tx_hash in
    (before : List RawCardanoAssetTransaction) × (recorded : RawCardanoAssetTransaction)
    × (items : List RawCardanoAssetTransaction) × (later : List (List RawCardanoAssetTransaction))
    × (pages ≡ (before ++ recorded ∷ items) ∷ later)
    × (all (λ (item : RawCardanoAssetTransaction). not (str_eq item.tx_hash hash)) before ≡ true)
    × (recorded.tx_hash ≡ hash)
    × (chunks ≡ items ∷ later)

-- The first page does not hold the hash, or there is none and the provider has not thrown.
abbrev pub Misses : String → ProviderPages → Type 0
Misses hash provided = elim provided.pages [
  | [] ↦ provided.thrown ≡ false
  | page ∷ pages ↦
      all (λ (item : RawCardanoAssetTransaction). not (str_eq item.tx_hash hash)) page ≡ true
]

after_none :
    (hash : String) (page : List RawCardanoAssetTransaction)
    → all (λ (item : RawCardanoAssetTransaction). not (str_eq item.tx_hash hash)) page ≡ true
    → after_boundary hash page ≡ none
unfolding after_boundary
after_none hash [] h = refl
after_none hash (item ∷ page) h = ground (arith, h, after_none hash page)

module _ (fetch_utxo : String → Option RawCardanoTransactionUtxo) (asset : String)
    (clock : ℕ → ℕ) where
  abbrev start : Option CardanoSyncState → CardanoProgress
  start = start_of fetch_utxo asset clock

  -- How a synchronisation ends, with the pages that it has stored.
  abbrev pub Outcome :
      CardanoDatabase
      → List (List RawCardanoAssetTransaction)
      → Bool
      → Result CardanoError CardanoProgress × CardanoDatabase
      → Type 0
  Outcome before chunks thrown s =
      (stored : List (List RawCardanoAssetTransaction)) × (rest : List
        (List RawCardanoAssetTransaction))
      × (stored ++ rest ≡ chunks)
      × IsStored fetch_utxo asset clock before (items_of fetch_utxo asset clock stored) s.1
      × (((q : CardanoProgress) × (s.0 ≡ ok q) × (rest ≡ []) × (thrown ≡ false))
          ⊎ ((s.0 ≡ err provider_failed) × (rest ≡ []) × (thrown ≡ true))
          ⊎ ((e : CardanoError) × (s.0 ≡ err e) × IsUtxoError fetch_utxo asset clock e))

  -- A synchronisation with a recorded transaction whose first page does not hold its hash, or that
  -- gets no page from a provider that does not throw, throws and changes nothing.
  pub sync_cardano-stops :
      (fetch : ℕ → ProviderPages) (db : CardanoDatabase) {state : CardanoSyncState}
      → find_cardano_sync_state asset db.sync_states ≡ some state
      → Misses state.last_asset_transaction.tx_hash (fetch state.last_synced_page)
      → sync_cardano_asset_transfer fetch_utxo asset clock fetch db
        ≡ (err (boundary_missing state.last_synced_page), db)
  unfolding sync_cardano_asset_transfer take_cardano_pages take_cardano_page page_items
  sync_cardano-stops fetch db {state} s h = elim (list_cases (fetch state.last_synced_page).pages) [
    | inl n ↦
        let calm : (fetch state.last_synced_page).thrown ≡ false = ground (arith, h, n) in
        ground (arith, s, n, calm)
    | inr (page, pages, e) ↦
        let clean : all
              (λ (item : RawCardanoAssetTransaction).
                not (str_eq item.tx_hash state.last_asset_transaction.tx_hash))
              page
            ≡ true =
          ground (arith, h, e) in
        ground (arith, s, e, after_none state.last_asset_transaction.tx_hash page clean)
  ]

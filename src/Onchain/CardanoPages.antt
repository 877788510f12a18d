-- ===== src/Onchain/CardanoPages.antt =====
-- What the loop over the pages of a Cardano synchronisation stores (cardano/transfers/sync.ts).
use reputo.Prelude.{
  ℕ, ◌+◌, ◌≡◌, ◌∙◌, refl, sym, ap, subst, ◌⊎◌, inl, inr, Bool, String, true, Option, none, some,
  List, [], ◌∷◌, ◌++◌, map, last?, last-append, last-cases, append_assoc, append-nil, Option-cases,
  Result, ok, err, Result-cases, arith, str_eq_iff,
}
use reputo.Onchain.Cardano.{
  RawCardanoAssetTransaction, to_cardano_asset_transaction_row, CardanoTransactionUtxoRow,
  CardanoSyncState, CardanoDatabase, same_transaction, insert_rows, find_cardano_sync_state,
  upsert_cardano_sync_state,
}
use reputo.Onchain.CardanoSync.{
  RawCardanoTransactionUtxo, CardanoError, hash_mismatch, utxo_failed, fetch_utxos, CardanoProgress,
  page_items, utxo_rows, write_page, take_cardano_page, take_cardano_pages,
}

insert_rows-append {ℓ} :
    {A : Type ℓ} (same : A → A → Bool) (xs ys table : List A)
    → (insert_rows same (xs ++ ys) table).1 ≡ (insert_rows same ys (insert_rows same xs table).1).1
unfolding insert_rows
insert_rows-append same [] ys table = refl
insert_rows-append same (x ∷ xs) ys table =
    ground (arith, insert_rows-append same xs ys table, insert_rows-append same xs ys (x ∷ table))

map-append {ℓ κ} :
    {A : Type ℓ} {B : Type κ} (f : A → B) (xs ys : List A) → map f (xs ++ ys) ≡ map f xs ++ map f ys
map-append f [] ys = refl
map-append f (x ∷ xs) ys = ap (λ rest. f x ∷ rest) (map-append f xs ys)

-- the transaction up to which an asset is synchronised
abbrev pub synced_transaction : String → List CardanoSyncState → Option RawCardanoAssetTransaction
synced_transaction asset states = elim (find_cardano_sync_state asset states) [
  | none ↦ none
  | some state ↦ some state.last_asset_transaction
]

synced-upsert :
    (asset : String) (last : RawCardanoAssetTransaction) (page at : ℕ)
    (states : List CardanoSyncState)
    → synced_transaction asset (
        upsert_cardano_sync_state
          (record {
            asset_identifier = asset;
            last_asset_transaction = last;
            last_synced_page = page;
            updated_at = at;
          })
          states)
      ≡ some last
unfolding upsert_cardano_sync_state find_cardano_sync_state
synced-upsert asset last page at [] = ground (arith, str_eq_iff asset asset)
synced-upsert asset last page at (old ∷ states) =
    ground (arith, synced-upsert asset last page at states, str_eq_iff asset asset)

module _ (fetch_utxo : String → Option RawCardanoTransactionUtxo) (asset : String)
    (clock : ℕ → ℕ) where
  -- The table as if some items had been inserted at once, and the last of them is recorded.
  abbrev pub IsStored : CardanoDatabase → List RawCardanoAssetTransaction → CardanoDatabase → Type 0
  IsStored before items db =
      (db.transactions
        ≡ (insert_rows same_transaction (map (to_cardano_asset_transaction_row asset) items)
            before.transactions).1)
      × (synced_transaction asset db.sync_states ≡ (elim (last? items) [
        | none ↦ synced_transaction asset before.sync_states
        | some last ↦ some last
      ]))

  write_page-IsStored :
      (before : CardanoDatabase) (done items : List RawCardanoAssetTransaction)
      (last : RawCardanoAssetTransaction) (utxos : List CardanoTransactionUtxoRow)
      (p : CardanoProgress) (db : CardanoDatabase)
      → last? items ≡ some last
      → IsStored before done db
      → IsStored before
          (done ++ items)
          (write_page fetch_utxo asset clock last items utxos (p, db)).1
  unfolding write_page
  write_page-IsStored before done items last utxos p db h (stored, recorded) =
      let row = to_cardano_asset_transaction_row asset in
      let split = map-append row done items in
      let both =
        insert_rows-append same_transaction (map row done) (map row items) before.transactions in
      let end = last-append done items {y = last} h in
      let now = synced-upsert asset last p.current_page (clock p.page_count) db.sync_states in
      (ground (arith, split, both, stored), ground (arith, end, now))

  -- A page failed at its UTXOs: a request threw, or a hash differs.
  abbrev pub IsUtxoError : CardanoError → Type 0
  IsUtxoError hash_mismatch = Unit
  IsUtxoError utxo_failed = Unit
  IsUtxoError _ = ⊥

  -- A page ends with its new items stored and the boundary found, or fails at its UTXOs.
  abbrev Taken :
      CardanoDatabase
      → List RawCardanoAssetTransaction
      → Result CardanoError (CardanoProgress × CardanoDatabase)
      → Type 0
  Taken before items (err e) = IsUtxoError e
  Taken before items (ok s) = IsStored before items s.1 × (s.0.sync_boundary_found ≡ true)

  take_page-Taken :
      (state : Option CardanoSyncState) (before : CardanoDatabase)
      (done page items : List RawCardanoAssetTransaction) (p : CardanoProgress)
      (db : CardanoDatabase)
      → page_items state p.sync_boundary_found page ≡ some items
      → IsStored before done db
      → Taken before (done ++ items) (take_cardano_page fetch_utxo asset clock state page (p, db))
  unfolding take_cardano_page
  take_page-Taken state before done page items p db h s =
      let taken = take_cardano_page fetch_utxo asset clock state page (p, db) in
      let q : CardanoProgress = record p {
        page_count = p.page_count + 1;
        sync_boundary_found = true;
      } in
      elim (last-cases items) [
        | inl e ↦
            let nothing : last? items ≡ none = ap last? e in
            let moved : CardanoProgress = record q { current_page = p.current_page + 1 } in
            let answer : ok (moved, db) ≡ taken = ground (arith, h, nothing) in
            let all : done ≡ done ++ items = sym (ap (λ xs. done ++ xs) e ∙ append-nil done) in
            subst (Taken before (done ++ items)) answer
              (subst (λ xs. IsStored before xs db) all s, refl)
        | inr (last, e) ↦ elim (Option-cases (fetch_utxos fetch_utxo asset clock items)) [
          | inl n ↦
              let answer : err utxo_failed ≡ taken = ground (arith, h, e, n) in
              subst (Taken before (done ++ items)) answer tt
          | inr (fetched, f) ↦ elim (Option-cases (utxo_rows fetched)) [
            | inl n ↦
                let answer : err hash_mismatch ≡ taken = ground (arith, h, e, f, n) in
                subst (Taken before (done ++ items)) answer tt
            | inr (utxos, u) ↦
                let answer : ok (write_page fetch_utxo asset clock last items utxos (q, db))
                    ≡ taken =
                  ground (arith, h, e, f, u) in
                subst (Taken before (done ++ items)) answer (
                  write_page-IsStored before done items last utxos q db e s,
                  unfold write_page in refl,
                )
          ]
        ]
      ]

  -- the items of some pages
  abbrev pub items_of : List (List RawCardanoAssetTransaction) → List RawCardanoAssetTransaction
  items_of [] = []
  items_of (page ∷ pages) = page ++ items_of pages

  -- Some of the pages are stored: all of them, or those before one whose UTXOs fail.
  abbrev pub Ends :
      CardanoDatabase
      → List RawCardanoAssetTransaction
      → List (List RawCardanoAssetTransaction)
      → Result CardanoError CardanoProgress × CardanoDatabase
      → Type 0
  Ends before done pages s =
      (stored : List (List RawCardanoAssetTransaction)) × (rest : List
        (List RawCardanoAssetTransaction))
      × (stored ++ rest ≡ pages)
      × IsStored before (done ++ items_of stored) s.1
      × (((q : CardanoProgress) × (s.0 ≡ ok q) × (rest ≡ []) × (q.sync_boundary_found ≡ true))
          ⊎ ((e : CardanoError) × (s.0 ≡ err e) × IsUtxoError e))

  pub first_page-Ends :
      (state : Option CardanoSyncState) (before : CardanoDatabase)
      (done page items : List RawCardanoAssetTransaction)
      (pages : List (List RawCardanoAssetTransaction)) (p : CardanoProgress) (db : CardanoDatabase)
      → page_items state p.sync_boundary_found page ≡ some items
      → IsStored before done db
      → ((s : CardanoProgress × CardanoDatabase)
          → s.0.sync_boundary_found ≡ true
          → IsStored before (done ++ items) s.1
          → Ends before
              (done ++ items)
              pages
              (take_cardano_pages fetch_utxo asset clock state pages s))
      → Ends before done
          (items ∷ pages)
          (take_cardano_pages fetch_utxo asset clock state (page ∷ pages) (p, db))
  unfolding take_cardano_pages
  first_page-Ends state before done page items pages p db h stored more =
      let taken = take_page-Taken state before done page items p db h stored in
      elim (Result-cases (take_cardano_page fetch_utxo asset clock state page (p, db))) [
        | inr (e, is) ↦
            let why : IsUtxoError e = subst (Taken before (done ++ items)) is taken in
            let answer : (err e, db)
                ≡ take_cardano_pages fetch_utxo asset clock state (page ∷ pages) (p, db) =
              ground (arith, is) in
            subst (Ends before done (items ∷ pages)) answer (
              [],
              items ∷ pages,
              refl,
              subst (λ xs. IsStored before xs db) (sym (append-nil done)) stored,
              inr (e, refl, why),
            )
        | inl (s, is) ↦
            let (kept, found) = subst (Taken before (done ++ items)) is taken in
            let answer : take_cardano_pages fetch_utxo asset clock state pages s
                ≡ take_cardano_pages fetch_utxo asset clock state (page ∷ pages) (p, db) =
              ground (arith, is) in
            let (some_pages, rest, e, stored', end) = more s found kept in
            subst (Ends before done (items ∷ pages)) answer (
              items ∷ some_pages,
              rest,
              ap (λ xs. items ∷ xs) e,
              subst
                  (λ xs.
                    IsStored before xs (take_cardano_pages fetch_utxo asset clock state pages s).1)
                  (append_assoc done items (items_of some_pages)) stored',
              end,
            )
      ]

  found_items :
      (state : Option CardanoSyncState) (found : Bool) (page : List RawCardanoAssetTransaction)
      → found ≡ true
      → page_items state found page ≡ some page
  unfolding page_items
  found_items state found page h = ground (arith, h)

  pub pages-Ends :
      (state : Option CardanoSyncState) (before : CardanoDatabase)
      (done : List RawCardanoAssetTransaction) (pages : List (List RawCardanoAssetTransaction))
      (s : CardanoProgress × CardanoDatabase)
      → s.0.sync_boundary_found ≡ true
      → IsStored before done s.1
      → Ends before done pages (take_cardano_pages fetch_utxo asset clock state pages s)
  unfolding take_cardano_pages
  pages-Ends state before done [] (p, db) found stored = (
    [],
    [],
    refl,
    subst (λ xs. IsStored before xs db) (sym (append-nil done)) stored,
    inl (p, refl, refl, found),
  )
  pages-Ends state before done (page ∷ pages) (p, db) found stored =
      first_page-Ends state before done page page pages p db
        (found_items state p.sync_boundary_found page found) stored
        (λ s found' stored'. pages-Ends state before (done ++ page) pages s found' stored')

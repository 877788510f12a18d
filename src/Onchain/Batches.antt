-- ===== src/Onchain/Batches.antt =====
-- What a synchronisation has written when it has taken some pages (evm/transfers/sync.ts).
use reputo.Prelude.{
  last-append, last-cases, ℕ, ◌+◌, ◌*◌, ◌<◌, ◌≡◌, refl, Option, none, some, List, [], ◌∷◌, ◌++◌,
  length, length-append, arith, ap, sym, ◌∙◌, subst, Bool-cases, inl, inr, str_eq_iff, last?, leb,
  append_assoc, append-nil, map,
}
use reputo.Onchain.Evm.{
  EvmTransferTarget, SyncState, Database, find_sync_state, upsert_sync_state, insert_or_ignore,
  to_evm_asset_transfer_row,
}
use reputo.Onchain.Sync.{
  Page, Progress, rows_of, flush_pending_pages, take_page, take_pages, write_pages,
  evm_sync_batch_size, evm_provider_page_size,
}
use reputo.Onchain.Inserts.{insert-append, insert-result, inserted≤length}

-- the block up to which a target is synchronised
abbrev pub synced_block : EvmTransferTarget → List SyncState → Option ℕ
synced_block target states = elim (find_sync_state target states) [
  | none ↦ none
  | some state ↦ some state.last_synced_block
]

-- the block that the last of some pages ends at, or the one before
abbrev pub block_after : List Page → Option ℕ → Option ℕ
block_after pages before = elim (last? pages) [ none ↦ before | some page ↦ some page.last_block ]

synced-upsert :
    (target : EvmTransferTarget) (block at : ℕ) (states : List SyncState)
    → synced_block target (
        upsert_sync_state
          (record {
            chain = target.chain;
            asset_identifier = target.asset_identifier;
            last_synced_block = block;
            updated_at = at;
          })
          states)
      ≡ some block
unfolding upsert_sync_state find_sync_state
synced-upsert target block at [] = ground (
  arith,
  str_eq_iff target.chain target.chain,
  str_eq_iff target.asset_identifier target.asset_identifier,
)
synced-upsert target block at (old ∷ states) = ground (
  arith,
  synced-upsert target block at states,
  str_eq_iff target.chain target.chain,
  str_eq_iff target.asset_identifier target.asset_identifier,
)

pub rows-append :
    (target : EvmTransferTarget) (xs ys : List Page)
    → rows_of target (xs ++ ys) ≡ rows_of target xs ++ rows_of target ys
rows-append target [] ys = refl
rows-append target (x ∷ xs) ys = rw (rows-append target xs ys) (
    sym (
      append_assoc (map (to_evm_asset_transfer_row target) x.items) (rows_of target xs)
        (rows_of target ys)))

-- The pages that are written, of those that a synchronisation has taken.
pub record Written (target : EvmTransferTarget) (before : Database) (done : List Page)
    (p : Progress) (db : Database) : Type 0 where
  pub stored : db.transfers ≡ (insert_or_ignore (rows_of target done) before.transfers).1
  pub inserted : p.inserted_count ≡ (insert_or_ignore (rows_of target done) before.transfers).0
  pub attempted : p.attempted_count ≡ length (rows_of target done)
  pub balanced : p.attempted_count ≡ p.inserted_count + p.ignored_count
  pub recorded :
      synced_block target db.sync_states ≡ block_after done (synced_block target before.sync_states)

-- A flush writes the pending pages, and leaves none pending.
abbrev Flushed : EvmTransferTarget → Database → List Page → ℕ → Progress × Database → Type 0
Flushed target before pages page_count s =
    Written target before pages s.0 s.1 × (s.0.pending_pages ≡ []) × (s.0.page_count ≡ page_count)

write-Written :
    (target : EvmTransferTarget) (clock : ℕ → ℕ) (before : Database) (done : List Page)
    (last : Page) (p : Progress) (db : Database)
    → last? p.pending_pages ≡ some last
    → Written target before done p db
    → Flushed target before
        (done ++ p.pending_pages)
        p.page_count
        (write_pages target clock last (p, db))
unfolding write_pages
write-Written target clock before done last p db h w =
    let rows = rows_of target p.pending_pages in
    let split = rows-append target done p.pending_pages in
    let result = insert-result rows db.transfers in
    let both = insert-append (rows_of target done) rows before.transfers in
    let fits = inserted≤length rows db.transfers in
    let size = length-append (rows_of target done) rows in
    let recorded = synced-upsert target last.last_block (clock p.page_count) db.sync_states in
    let end = last-append done p.pending_pages {y = last} h in
    (
      record {
        stored = ground (arith, split, result, both, w.stored);
        inserted = ground (arith, split, result, both, w.stored, w.inserted);
        attempted = ground (arith, split, result, size, w.attempted);
        balanced = ground (arith, result, fits, w.balanced);
        recorded = ground (arith, recorded, end);
      },
      refl,
      refl,
    )

pub flush-Written :
    (target : EvmTransferTarget) (clock : ℕ → ℕ) (before : Database) (done : List Page)
    (p : Progress) (db : Database)
    → Written target before done p db
    → Flushed target before
        (done ++ p.pending_pages)
        p.page_count
        (flush_pending_pages target clock (p, db))
unfolding flush_pending_pages
flush-Written target clock before done p db w = elim (last-cases p.pending_pages) [
  | inl e ↦
      let none_left : last? p.pending_pages ≡ none = ap last? e in
      let stays : (p, db) ≡ flush_pending_pages target clock (p, db) = ground (arith, none_left) in
      let all : done ≡ done ++ p.pending_pages = sym (ap (λ xs. done ++ xs) e ∙ append-nil done) in
      subst (Flushed target before (done ++ p.pending_pages) p.page_count) stays
        (subst (λ pages. Written target before pages p db) all w, e, refl)
  | inr (last, h) ↦
      let written : write_pages target clock last (p, db)
          ≡ flush_pending_pages target clock (p, db) =
        ground (arith, h) in
      subst (Flushed target before (done ++ p.pending_pages) p.page_count) written
        (write-Written target clock before done last p db h w)
]

-- What a synchronisation has done when it has taken some pages: some of them are written, and the
-- others, fewer than a batch, are pending.
abbrev pub Taken : EvmTransferTarget → Database → List Page → Progress × Database → Type 0
Taken target before pages s =
    (done : List Page) × (done ++ s.0.pending_pages ≡ pages)
    × Written target before done s.0 s.1
    × (length s.0.pending_pages < 5)
    × (s.0.page_count ≡ length pages)

take_page-Taken :
    (target : EvmTransferTarget) (clock : ℕ → ℕ) (before : Database) (pages : List Page)
    (page : Page) (s : Progress × Database)
    → Taken target before pages s
    → Taken target before (pages ++ (page ∷ [])) (take_page target clock page s)
unfolding take_page
take_page-Taken target clock before pages page (p, db) (done, e, w, few, n) =
    let p' : Progress = record p {
      page_count = p.page_count + 1;
      pending_pages = p.pending_pages ++ (page ∷ []);
    } in
    let w' : Written target before done p' db = record {
      stored = w.stored;
      inserted = w.inserted;
      attempted = w.attempted;
      balanced = w.balanced;
      recorded = w.recorded;
    } in
    let one_more = length-append p.pending_pages (page ∷ []) in
    let counted = length-append pages (page ∷ []) in
    let all : done ++ p'.pending_pages ≡ pages ++ (page ∷ []) =
      sym (append_assoc done p.pending_pages (page ∷ [])) ∙ ap (λ xs. xs ++ (page ∷ [])) e in
    let (f, empty, same) = flush-Written target clock before done p' db w' in
    elim (Bool-cases (leb evm_sync_batch_size (length p'.pending_pages * evm_provider_page_size))) [
      | inl full ↦
          let flushed : flush_pending_pages target clock (p', db)
              ≡ take_page target clock page (p, db) =
            ground (arith, full) in
          subst (Taken target before (pages ++ (page ∷ []))) flushed (
            done ++ p'.pending_pages,
            ap (λ xs. (done ++ p'.pending_pages) ++ xs) empty
                ∙ append-nil (done ++ p'.pending_pages)
                ∙ all,
            f,
            omega (arith, ap length empty),
            omega (arith, same, n, counted),
          )
      | inr more ↦
          let waits : (p', db) ≡ take_page target clock page (p, db) = ground (arith, more) in
          subst (Taken target before (pages ++ (page ∷ []))) waits
            (done, all, w', ground (arith, more), omega (arith, n, counted))
    ]

pub take_pages-Taken :
    (target : EvmTransferTarget) (clock : ℕ → ℕ) (before : Database) (pages more : List Page)
    (s : Progress × Database)
    → Taken target before pages s
    → Taken target before (pages ++ more) (take_pages target clock more s)
take_pages-Taken target clock before pages [] s t =
    subst (λ all. Taken target before all s) (sym (append-nil pages)) t
take_pages-Taken target clock before pages (page ∷ more) s t =
    subst (λ all. Taken target before all (take_pages target clock (page ∷ more) s))
      (append_assoc pages (page ∷ []) more)
      (take_pages-Taken target clock before (pages ++ (page ∷ [])) more
        (take_page target clock page s) (take_page-Taken target clock before pages page s t))

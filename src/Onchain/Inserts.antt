-- ===== src/Onchain/Inserts.antt =====
-- The laws of inserting rows that may be there (evm/transfers/repository.ts).
use reputo.Prelude.{
  ◌+◌, ◌-◌, ◌≤◌, ◌≡◌, refl, true, List, [], ◌∷◌, ◌++◌, length, arith, subst, Bool-cases, inl, inr,
  str_eq_iff, any, All,
}
use reputo.Onchain.Evm.{EvmAssetTransferRow, same_key, insert_or_ignore, insert_evm_asset_transfers}

pub insert-append :
    (xs ys table : List EvmAssetTransferRow)
    → let first = insert_or_ignore xs table in
      let second = insert_or_ignore ys first.1 in
      insert_or_ignore (xs ++ ys) table ≡ (first.0 + second.0, second.1)
unfolding insert_or_ignore
insert-append [] ys table = ground arith
insert-append (x ∷ xs) ys table =
    ground (arith, insert-append xs ys table, insert-append xs ys (x ∷ table))

pub inserted≤length :
    (rows table : List EvmAssetTransferRow) → (insert_or_ignore rows table).0 ≤ length rows
unfolding insert_or_ignore
inserted≤length [] table = omega arith
inserted≤length (row ∷ rows) table =
    ground (arith, inserted≤length rows table, inserted≤length rows (row ∷ table))

-- a row with the key of another is in the table
abbrev pub Holds : List EvmAssetTransferRow → EvmAssetTransferRow → Type 0
Holds table row = any (same_key row) table ≡ true

same_key_refl : (row : EvmAssetTransferRow) → same_key row row ≡ true
same_key_refl row = ground (
  arith,
  str_eq_iff row.chain row.chain,
  str_eq_iff row.asset_identifier row.asset_identifier,
  str_eq_iff row.unique_id row.unique_id,
)

pub insert-keeps :
    (rows table : List EvmAssetTransferRow) (row : EvmAssetTransferRow)
    → Holds table row
    → Holds (insert_or_ignore rows table).1 row
unfolding insert_or_ignore
insert-keeps [] table row h = h
insert-keeps (x ∷ rows) table row h =
    ground (arith, insert-keeps rows table row, insert-keeps rows (x ∷ table) row)

pub insert-All :
    (rows table : List EvmAssetTransferRow) → All (Holds (insert_or_ignore rows table).1) rows
unfolding insert_or_ignore
insert-All [] table = tt
insert-All (x ∷ rows) table = elim (Bool-cases (any (same_key x) table)) [
  | inl there ↦
      let e : insert_or_ignore rows table ≡ insert_or_ignore (x ∷ rows) table =
        ground (arith, there) in
      subst (λ t. Holds t.1 x × All (Holds t.1) rows) e
        (insert-keeps rows table x there, insert-All rows table)
  | inr new ↦
      let e : (insert_or_ignore rows (x ∷ table)).1 ≡ (insert_or_ignore (x ∷ rows) table).1 =
        ground (arith, new) in
      subst (λ t. Holds t x × All (Holds t) rows) e
        (
          insert-keeps rows (x ∷ table) x (ground (arith, same_key_refl x)),
          insert-All rows (x ∷ table),
        )
]

pub insert-held :
    (rows table : List EvmAssetTransferRow)
    → All (Holds table) rows
    → insert_or_ignore rows table ≡ (0, table)
unfolding insert_or_ignore
insert-held [] table h = refl
insert-held (x ∷ rows) table (h, hs) = rw h (insert-held rows table hs)

pub insert-result :
    (rows table : List EvmAssetTransferRow)
    → let inserted = insert_or_ignore rows table in
      insert_evm_asset_transfers rows table ≡ (
        record {
          attempted_count = length rows;
          inserted_count = inserted.0;
          ignored_count = length rows - inserted.0;
        },
        inserted.1,
      )
unfolding insert_or_ignore insert_evm_asset_transfers
insert-result [] table = ground arith
insert-result (x ∷ rows) table = refl

-- ===== src/Tokens/Lots.antt =====
-- pipeline/fifo-lots.ts: the queue of lots of a wallet. An amount is a double, in tokens.
use reputo.Prelude.{
  ℕ, zero, suc, ◌+◌, String, Option, none, some, List, [], ◌∷◌, ◌++◌, if◌then◌else◌, length,
}
use reputo.Values.{Number, natural, less}
use reputo.Values.Numbers.{minus, minimum, is_positive, at_most_zero}

-- `${resourceId}:${transactionHash}:${logIndex}`, kept as its three parts
pub record TransferId : Type 0 where
  pub resource_id : String
  pub transaction_hash : String
  pub log_index : ℕ

pub record WalletLot : Type 0 where
  pub resource_id : String
  pub amount_remaining : Number
  pub received_at : Option String
  pub source_transfer_id : TransferId

unfoldable pub push_lot : List WalletLot → WalletLot → List WalletLot
push_lot queue lot = if at_most_zero lot.amount_remaining then queue else queue ++ (lot ∷ [])

abbrev pub with_amount : Number → WalletLot → WalletLot
with_amount amount lot = record lot { amount_remaining = amount }

-- The loop: what remains to consume and the queue, or nothing when it is out of fuel.
unfoldable pub consume_loop : ℕ → List WalletLot → Number → Option (Number × List WalletLot)
unfolding minus minimum less
consume_loop zero queue remaining = none
consume_loop (suc fuel) [] remaining = some (remaining, [])
consume_loop (suc fuel) (head ∷ queue) remaining =
    let consumed = minimum head.amount_remaining remaining in
    let left = minus head.amount_remaining consumed in
    let next =
      consume_loop fuel (if at_most_zero left then queue else with_amount left head ∷ queue)
        (minus remaining consumed) in
    if is_positive remaining then next else some (remaining, head ∷ queue)

-- The loop runs at most once for each lot and twice more, to find that it is over.
unfoldable pub consume_lots_fifo : List WalletLot → Number → Option (Number × List WalletLot)
unfolding consume_loop
consume_lots_fifo queue amount =
    if at_most_zero amount
    then some (natural 0, queue)
    else consume_loop (length queue + 2) queue amount

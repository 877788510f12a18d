-- ===== src/Tokens/Replay.antt =====
-- What a replay of transfers leaves in the wallets (pipeline/replay-transfers.ts, compute.ts).
use reputo.Prelude.{
  String, ◌≡◌, ◌⊎◌, Bool, true, false, ◌||◌, Option, none, some, List, [], ◌∷◌, ◌++◌, str_eq,
}
use reputo.Values.{Number, is_finite}
use reputo.Values.Numbers.{is_zero, at_most_zero}
use reputo.Tokens.Lots.{WalletLot}
use reputo.Tokens.Fifo.{Spends}
use reputo.Tokens.Transfers.{OrderedTransferEvent, present, is_self_transfer, lot_of}

-- a transfer that moves nothing
abbrev pub is_skipped : OrderedTransferEvent → Bool
is_skipped transfer = is_zero transfer.amount || is_self_transfer transfer || transfer.is_staking

abbrev pub is_end : Option String → String → Bool
is_end address wallet = elim (present address) [ none ↦ false | some a ↦ str_eq a wallet ]

-- The lots after an amount is taken from them.
abbrev pub Taken : List WalletLot → Number → List WalletLot → Type 0
Taken lots amount after =
    ((at_most_zero amount ≡ true) × (after ≡ lots))
    ⊎ ((at_most_zero amount ≡ false)
        × ((remaining : Number) × Spends amount lots (remaining, after)))

-- The lots of a target after a transfer, by what it sends and what it receives.
abbrev pub Moved : String → OrderedTransferEvent → List WalletLot → List WalletLot → Type 0
Moved wallet transfer lots after =
    ((is_skipped transfer ≡ true) × (after ≡ lots))
    ⊎ ((is_skipped transfer ≡ false)
        × ((sent : List WalletLot) × (((is_end transfer.from_address wallet ≡ false)
                × (sent ≡ lots))
              ⊎ ((is_end transfer.from_address wallet ≡ true) × Taken lots transfer.amount sent))
            × (((is_end transfer.to_address wallet ≡ false) × (after ≡ sent))
                ⊎ ((is_end transfer.to_address wallet ≡ true)
                    × (at_most_zero transfer.amount ≡ true)
                    × (after ≡ sent))
                ⊎ ((is_end transfer.to_address wallet ≡ true)
                    × (at_most_zero transfer.amount ≡ false)
                    × (after ≡ sent ++ lot_of transfer ∷ [])))))

abbrev pub MovedAll : String → List OrderedTransferEvent → List WalletLot → List WalletLot → Type 0
MovedAll wallet [] lots after = after ≡ lots
MovedAll wallet (transfer ∷ transfers) lots after =
    (between : List WalletLot) × Moved wallet transfer lots between
    × MovedAll wallet transfers between after

abbrev pub IsFiniteTransfer : OrderedTransferEvent → Type 0
IsFiniteTransfer transfer = is_finite transfer.amount ≡ true

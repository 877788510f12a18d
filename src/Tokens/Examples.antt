-- ===== src/Tokens/Examples.antt =====
-- Concrete wallets and transfers, and what the theorems say of them.
use reputo.Prelude.{
  ℕ, zero, suc, ◌≡◌, ◌⊎◌, String, refl, true, false, Option, none, some, List, [], ◌∷◌, arith,
}
use reputo.Tokens.Lots.{WalletLot, consume_lots_fifo}
use reputo.Tokens.Fifo.{Spends, consume_lots_fifo-Spends}
use reputo.Values.{Number, natural, less}
use reputo.Values.Numbers.{at_most_zero}
use reputo.Tokens.Transfers.{
  OrderedTransferEvent, WalletLotsState, lot_of, TransferPage, Totals, no_stats, add_page,
  replay_pages,
}
use reputo.Tokens.Pages.{page_of, all_items, replay_pages-all_items}

abbrev transfer_of : Option String → Option String → ℕ → OrderedTransferEvent
transfer_of from to amount = record {
  resource_id = "ethereum:fet";
  block_ordinal = "0x1";
  transaction_hash = "0x2";
  log_index = 0;
  from_address = from;
  to_address = to;
  amount = natural amount;
  block_timestamp = none;
  is_staking = false;
}

abbrev two_lots : List WalletLot
two_lots = lot_of (transfer_of none (some "ann") 3) ∷ lot_of (transfer_of none (some "ann") 4) ∷ []

consume_lots_fifo-Spends_example :
    ((at_most_zero (natural 5) ≡ true)
      × (consume_lots_fifo two_lots (natural 5) ≡ some (natural 0, two_lots)))
    ⊎ ((at_most_zero (natural 5) ≡ false)
        × ((s : Number × List WalletLot) × (consume_lots_fifo two_lots (natural 5) ≡ some s)
            × Spends (natural 5) two_lots s))
consume_lots_fifo-Spends_example = consume_lots_fifo-Spends two_lots (natural 5) (refl, (refl, tt))

takes_oldest :
    consume_lots_fifo two_lots (natural 5)
    ≡ some (natural 0, lot_of (transfer_of none (some "ann") 2) ∷ [])
unfolding consume_lots_fifo less
takes_oldest = refl

abbrev two_wallets : WalletLotsState
two_wallets = ("ann", two_lots) ∷ ("bob", []) ∷ []

abbrev some_transfers : List OrderedTransferEvent
some_transfers =
    transfer_of (some "ann") (some "bob") 5
    ∷ transfer_of (some "bob") (some "bob") 1
    ∷ transfer_of (some "cay") (some "ann") 2
    ∷ []

abbrev first_page : TransferPage
first_page = record { items = some_transfers; has_more = true }

abbrev last_page : TransferPage
last_page = record { items = transfer_of (some "bob") none 1 ∷ []; has_more = false }

abbrev load : ℕ → TransferPage
load zero = last_page
load (suc zero) = first_page
load (suc (suc _)) = last_page

abbrev no_totals : Totals
no_totals = record { lots = two_wallets; replay = no_stats; transfer_count = 0 }

replay_pages-all_items_example :
    replay_pages ("ann" ∷ "bob" ∷ []) load 9 1 no_totals
    ≡ some (
        add_page ("ann" ∷ "bob" ∷ []) (page_of (all_items (first_page ∷ last_page ∷ []))) no_totals)
replay_pages-all_items_example =
    replay_pages-all_items ("ann" ∷ "bob" ∷ []) load 9 1 (first_page ∷ last_page ∷ []) no_totals
      (refl, refl, omega arith, (refl, refl)) (omega arith)

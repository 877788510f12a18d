-- ===== src/Tokens/Transfers.antt =====
-- pipeline/apply-transfer.ts and replay-transfers.ts, and the pages that compute.ts replays.
use reputo.Prelude.{
  ℕ, zero, suc, ◌+◌, String, Bool, false, not, ◌&&◌, Option, none, some, List, [], ◌∷◌, str_eq,
  ◌==◌, any, if◌then◌else◌, length,
}
use reputo.Values.{Number}
use reputo.Values.Numbers.{is_zero}
use reputo.Tokens.Lots.{WalletLot, push_lot, consume_lots_fifo}

pub record OrderedTransferEvent : Type 0 where
  pub resource_id : String
  pub block_ordinal : String
  pub transaction_hash : String
  pub log_index : ℕ
  pub from_address : Option String
  pub to_address : Option String
  pub amount : Number
  pub block_timestamp : Option String
  pub is_staking : Bool

-- The map of wallets to their queues, in the order of insertion, one entry to a wallet.
abbrev pub WalletLotsState : Type 0
WalletLotsState = List (String × List WalletLot)

pub record ReplayStats : Type 0 where
  pub processed : ℕ
  pub skipped_zero_amount : ℕ
  pub skipped_self_transfers : ℕ
  pub skipped_staking : ℕ

abbrev pub no_stats : ReplayStats
no_stats = record {
  processed = 0;
  skipped_zero_amount = 0;
  skipped_self_transfers = 0;
  skipped_staking = 0;
}

abbrev pub get : WalletLotsState → String → Option (List WalletLot)
get [] wallet = none
get ((w, lots) ∷ state) wallet = if str_eq w wallet then some lots else get state wallet

-- the queue of a wallet, changed in place
abbrev pub set : WalletLotsState → String → List WalletLot → WalletLotsState
set [] wallet lots = []
set ((w, old) ∷ state) wallet lots =
    let rest = set state wallet lots in
    if str_eq w wallet then (w, lots) ∷ state else (w, old) ∷ rest

abbrev pub has : List String → String → Bool
has wallets wallet = any (λ w. str_eq w wallet) wallets

-- an address that is neither null nor empty
abbrev pub present : Option String → Option String
present none = none
present (some address) = if str_eq address "" then none else some address

abbrev pub is_self_transfer : OrderedTransferEvent → Bool
is_self_transfer transfer = elim (present transfer.from_address) [
  | none ↦ false
  | some from ↦ elim (present transfer.to_address) [ none ↦ false | some to ↦ str_eq from to ]
]

-- the queue after an amount is consumed (what is missing is not looked at)
abbrev pub consumed : List WalletLot → Number → List WalletLot
consumed lots amount = elim (consume_lots_fifo lots amount) [
  | none ↦ lots
  | some (_, after) ↦ after
]

abbrev pub lot_of : OrderedTransferEvent → WalletLot
lot_of transfer = record {
  resource_id = transfer.resource_id;
  amount_remaining = transfer.amount;
  received_at = transfer.block_timestamp;
  source_transfer_id = record {
    resource_id = transfer.resource_id;
    transaction_hash = transfer.transaction_hash;
    log_index = transfer.log_index;
  };
}

-- a change of the queue of one end of a transfer, if that wallet is a target and has a queue
unfoldable pub touch :
    List String
    → Option String
    → (List WalletLot → List WalletLot)
    → WalletLotsState
    → WalletLotsState
touch targets none f state = state
touch targets (some wallet) f state =
    if has targets wallet
    then elim (get state wallet) [ none ↦ state | some lots ↦ set state wallet (f lots) ]
    else state

unfoldable pub apply_transfer :
    List String
    → OrderedTransferEvent
    → WalletLotsState × ReplayStats
    → WalletLotsState × ReplayStats
apply_transfer targets transfer (state, before) =
    let stats : ReplayStats = record before { processed = before.processed + 1 } in
    if is_zero transfer.amount
    then (state, record stats { skipped_zero_amount = stats.skipped_zero_amount + 1 })
    else if is_self_transfer transfer
    then (state, record stats { skipped_self_transfers = stats.skipped_self_transfers + 1 })
    else if transfer.is_staking
    then (state, record stats { skipped_staking = stats.skipped_staking + 1 })
    else let sent =
        touch targets (present transfer.from_address) (λ lots. consumed lots transfer.amount)
          state in
      (
        touch targets (present transfer.to_address) (λ lots. push_lot lots (lot_of transfer)) sent,
        stats,
      )

abbrev pub replay_loop :
    List String
    → List OrderedTransferEvent
    → WalletLotsState × ReplayStats
    → WalletLotsState × ReplayStats
replay_loop targets [] s = s
replay_loop targets (transfer ∷ transfers) s =
    replay_loop targets transfers (apply_transfer targets transfer s)

unfoldable pub replay_transfers :
    List String → WalletLotsState → List OrderedTransferEvent → WalletLotsState × ReplayStats
replay_transfers targets state transfers = replay_loop targets transfers (state, no_stats)

pub record TransferPage : Type 0 where
  pub items : List OrderedTransferEvent
  pub has_more : Bool

-- The totals that compute.ts keeps over the pages of a resource.
pub record Totals : Type 0 where
  pub lots : WalletLotsState
  pub replay : ReplayStats
  pub transfer_count : ℕ

abbrev pub add_stats : ReplayStats → ReplayStats → ReplayStats
add_stats a b = record {
  processed = a.processed + b.processed;
  skipped_zero_amount = a.skipped_zero_amount + b.skipped_zero_amount;
  skipped_self_transfers = a.skipped_self_transfers + b.skipped_self_transfers;
  skipped_staking = a.skipped_staking + b.skipped_staking;
}

unfoldable pub add_page : List String → TransferPage → Totals → Totals
add_page targets page t =
    let (lots, stats) = replay_transfers targets t.lots page.items in
    record {
      lots = lots;
      replay = add_stats t.replay stats;
      transfer_count = t.transfer_count + length page.items;
    }

-- The loop over the pages of a resource, or nothing when it is out of fuel.
unfoldable pub replay_pages : List String → (ℕ → TransferPage) → ℕ → ℕ → Totals → Option Totals
replay_pages targets load zero page_number t = none
replay_pages targets load (suc fuel) page_number t =
    let page = load page_number in
    let t' = add_page targets page t in
    let next = replay_pages targets load fuel (page_number + 1) t' in
    if length page.items == 0 && page.has_more
    then some t'
    else if not page.has_more
    then some t'
    else next

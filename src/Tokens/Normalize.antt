-- ===== src/Tokens/Normalize.antt =====
-- normalizers/evm.ts: the stored rows of a page as transfers. `lower` stands for `toLowerCase` and
-- `hex` for the hexadecimal string of a block, `timestamp` for the time stamp that a row's metadata holds; the set of staking addresses is a list.
use reputo.Prelude.{ℕ, String, Bool, false, ◌||◌, Option, none, some, List, [], map, or_else}
use reputo.Values.{natural}
use reputo.Onchain.Evm.{EvmAssetTransferRow}
use reputo.Tokens.Transfers.{OrderedTransferEvent, has, present}
use reputo.Tokens.Firsts.{firsts}

module _ (lower : String → String) (hex : ℕ → String) (timestamp : String → Option String) where
  abbrev pub is_staking_address : List String → Option String → Bool
  is_staking_address staking none = false
  is_staking_address staking (some address) = has staking (lower address)

  abbrev pub event_of : String → List String → EvmAssetTransferRow → OrderedTransferEvent
  event_of resource_id staking row = record {
    resource_id = resource_id;
    block_ordinal = hex row.block_num;
    transaction_hash = row.hash;
    log_index = 0;
    from_address = present (some row.from_address);
    to_address = present row.to_address;
    amount = or_else row.value (natural 0);
    block_timestamp = elim row.metadata [ none ↦ none | some metadata ↦ timestamp metadata ];
    is_staking =
        is_staking_address staking (present (some row.from_address))
        || is_staking_address staking (present row.to_address);
  }

  unfoldable pub normalize_evm_transfers :
      String → List String → List EvmAssetTransferRow → List OrderedTransferEvent
  normalize_evm_transfers resource_id staking rows =
      map (event_of resource_id staking) (firsts (λ row. row.unique_id) [] rows)

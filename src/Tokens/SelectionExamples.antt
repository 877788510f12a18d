-- ===== src/Tokens/SelectionExamples.antt =====
-- A concrete catalog and page, and what the theorems say of them.
use reputo.Values.{natural}
use mathlib.Core.List.{Memᴰ}
use reputo.Prelude.{All, ℕ, ◌≡◌, refl, String, true, Option, none, some, List, [], ◌∷◌, ◌++◌}
use reputo.Onchain.Evm.{EvmAssetTransferRow, to_evm_asset_transfer_row}
use reputo.Tokens.Transfers.{has}
use reputo.Tokens.Firsts.{keys, distinct}
use reputo.Tokens.Resources.{
  token, contract, ResourceCatalogEntry, SelectedResourceInput, ResolvedResource,
  resolve_selected_resources, get_sync_targets,
}
use reputo.Tokens.Normalize.{normalize_evm_transfers}
use reputo.Tokens.Selection.{
  is_selected, token_key_of, resolved_key, target_key, resolve_selected_resources_lem,
  get_sync_targets_lem, normalize-repeats,
}

-- Addresses that are in lower case already.
abbrev low : String → String
low text = text

abbrev fet_token : ResourceCatalogEntry
fet_token = record {
  chain = "ethereum";
  key = "fet";
  kind = token;
  identifier = "0xa";
  token_identifier = "0xa";
  token_key = "fet";
  token_decimals = none;
  parent_resource_key = none;
}

abbrev fet_staking : ResourceCatalogEntry
fet_staking = record fet_token { key = "stake"; kind = contract; identifier = "0xb" }

abbrev catalog : List ResourceCatalogEntry
catalog = fet_token ∷ fet_staking ∷ []

abbrev select : String → SelectedResourceInput
select key = record { chain = "ethereum"; resource_key = key }

abbrev selected : List SelectedResourceInput
selected = select "fet" ∷ select "stake" ∷ select "fet" ∷ []

resolve_selected_resources_lem_example :
    (distinct (keys (resolved_key low) (resolve_selected_resources low selected catalog)) ≡ true)
    × (has
          (keys (resolved_key low) (resolve_selected_resources low selected catalog))
          "ethereum:0xb"
        ≡ is_selected low selected catalog "ethereum:0xb")
resolve_selected_resources_lem_example =
    resolve_selected_resources_lem low selected catalog "ethereum:0xb"

abbrev resolved : List ResolvedResource
resolved = resolve_selected_resources low selected catalog

get_sync_targets_lem_example :
    (distinct (keys (target_key low) (get_sync_targets low resolved)) ≡ true)
    × All
        (λ (target : String × String).
          (resource : ResolvedResource) × Memᴰ resource resolved
          × (target ≡ (resource.chain, resource.token_identifier)))
        (get_sync_targets low resolved)
    × (has (keys (target_key low) (get_sync_targets low resolved)) "ethereum:0xa"
        ≡ has (keys (token_key_of low) resolved) "ethereum:0xa")
get_sync_targets_lem_example = get_sync_targets_lem low resolved "ethereum:0xa"

abbrev row_of : String → EvmAssetTransferRow
row_of id =
    to_evm_asset_transfer_row (record { chain = "ethereum"; asset_identifier = "0xa" })
      (record {
        block_num = 1;
        unique_id = id;
        hash = "0x0";
        from = "ann";
        to = some "bob";
        value = some (natural 5);
        asset = none;
        category = "erc20";
        raw_contract = "";
        metadata = none;
      })

abbrev hex : ℕ → String
hex block = "0x1"

abbrev no_time : String → Option String
no_time metadata = none

normalize-repeats_example :
    normalize_evm_transfers low hex no_time "ethereum:0xa" []
      ((row_of "1" ∷ row_of "2" ∷ []) ++ (row_of "1" ∷ []))
    ≡ normalize_evm_transfers low hex no_time "ethereum:0xa" [] (row_of "1" ∷ row_of "2" ∷ [])
normalize-repeats_example =
    normalize-repeats low hex no_time "ethereum:0xa" [] (row_of "1" ∷ row_of "2" ∷ [])
      (row_of "1" ∷ []) (refl, tt)

-- ===== src/Onchain/CardanoExamples.antt =====
-- A concrete Cardano synchronisation, and what the theorems say of it.
use reputo.Prelude.{false, Option, some, ℕ, ◌≡◌, refl, String, [], ◌∷◌, err}
use reputo.Onchain.Cardano.{RawCardanoAssetTransaction, CardanoDatabase, find_cardano_sync_state}
use reputo.Onchain.CardanoSync.{
  RawCardanoTransactionUtxo, boundary_missing, after_boundary, ProviderPages,
  sync_cardano_asset_transfer,
}
use reputo.Onchain.CardanoResume.{sync_cardano-stops}

abbrev tx : String → RawCardanoAssetTransaction
tx hash = record { tx_hash = hash; tx_index = 0; block_height = 1; block_time = 1 }

abbrev utxo_of : String → Option RawCardanoTransactionUtxo
utxo_of hash = some (record { hash = hash; raw = "" })

-- the last run ended on the seventh page
abbrev up_to_b : CardanoDatabase
up_to_b = record {
  transactions = [];
  utxos = [];
  sync_states =
      record {
        asset_identifier = "fet";
        last_asset_transaction = tx "b";
        last_synced_page = 7;
        updated_at = 1;
      }
      ∷ [];
}

abbrev provider : ℕ → ProviderPages
provider page = record {
  pages = (tx "a" ∷ tx "b" ∷ tx "c" ∷ []) ∷ (tx "d" ∷ []) ∷ [];
  thrown = false;
}

abbrev clock : ℕ → ℕ
clock pages = pages

abbrev lost_provider : ℕ → ProviderPages
lost_provider page = record { pages = (tx "x" ∷ []) ∷ []; thrown = false }

sync_cardano-stops_example :
    sync_cardano_asset_transfer utxo_of "fet" clock lost_provider up_to_b
    ≡ (err (boundary_missing 7), up_to_b)
unfolding find_cardano_sync_state after_boundary
sync_cardano-stops_example = sync_cardano-stops utxo_of "fet" clock lost_provider up_to_b refl refl

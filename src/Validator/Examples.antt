-- ===== src/Validator/Examples.antt =====
-- The validator on concrete files (packages/algorithm-validator/src).
use reputo.Prelude.{◌≡◌, refl, true, none, some, [], ◌∷◌}
use reputo.Values.{Value, text, array, object, nil, item, end, field}
use reputo.Values.Texts.{trim}
use reputo.Validator.Wallets.{JsonConfig, Language, repeated_address, validate_json_content}
use reputo.Validator.WalletFiles.{IsWithin, IsWalletFile, validate_json_content-IsWalletFile}

abbrev wallets : Value → Value
wallets ethereum = object (field "wallets" (object (field "ethereum" ethereum end)) end)

-- A language in which every text is parsed to one file, and every address has its chain's pattern.
abbrev reading : Value → Language
reading parsed = record {
  lower = λ s. s;
  is_ethereum_address = λ _. true;
  is_cardano_payment_address = λ _. true;
  parse = λ _. some parsed;
  byte_length = λ _. 40;
}

abbrev config : JsonConfig
config = record {
  max_bytes = some 1000;
  is_wallet_address_map = true;
  root_key = none;
  allowed_chains = none;
}

abbrev two_wallets : Value
two_wallets = wallets (array (item (text "0xa") (item (text "0xb") nil)))

passes : validate_json_content (reading two_wallets) "{…}" config ≡ []
unfolding validate_json_content trim
passes = refl

repeats :
    validate_json_content
      (reading (wallets (array (item (text "0xa") (item (text "0xa") nil)))))
      "{…}"
      config
    ≡ repeated_address "ethereum" "0xa" ∷ []
unfolding validate_json_content trim
repeats = refl

validate_json_content-IsWalletFile_example :
    IsWithin config.max_bytes 40
    × ((parsed : Value) × ((reading two_wallets).parse "{…}" ≡ some parsed)
        × IsWalletFile (reading two_wallets) config parsed)
validate_json_content-IsWalletFile_example =
    validate_json_content-IsWalletFile (reading two_wallets) "{…}" config refl passes

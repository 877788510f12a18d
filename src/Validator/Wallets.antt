-- ===== src/Validator/Wallets.antt =====
-- packages/algorithm-validator/src/json-validation.ts: the check of an uploaded JSON file, in
-- particular of a map from blockchains to wallet addresses. What `JSON.parse`, `toLowerCase` and the
-- two patterns of addresses say is a parameter.
use reputo.Prelude.{
  ℕ, ◌+◌, String, Bool, not, ◌&&◌, Option, none, some, List, [], ◌∷◌, ◌++◌, length, keep, ltb, ◌==◌,
  str_eq, or_else, if◌then◌else◌,
}
use reputo.Tokens.Transfers.{has}
use reputo.Values.{Value, object, Fields, field, end, get_field, is_record, as_array, as_text}
use reputo.Values.Texts.{is_blank}

-- What is wrong with a file; the source prints each as a sentence.
pub data FileError : Type 0 where
  too_many_bytes : ℕ → ℕ → FileError
  empty_file unreadable not_an_object extra_top_level_keys no_wallet : FileError
  root_not_an_object : String → FileError
  unsupported_chains : List String → FileError
  not_a_list : String → FileError
  not_an_address : String → ℕ → FileError
  repeated_address : String → String → FileError
  not_ethereum not_cardano : String → ℕ → FileError

-- `JsonIoItem['json']`
pub record JsonConfig : Type 0 where
  pub max_bytes : Option ℕ
  pub is_wallet_address_map : Bool  -- schema === 'wallet_address_map'
  pub root_key : Option String
  pub allowed_chains : Option (List String)

abbrev pub allowed_chains_of : JsonConfig → List String
allowed_chains_of config = or_else config.allowed_chains ("ethereum" ∷ "cardano" ∷ [])

abbrev pub root_key_of : JsonConfig → String
root_key_of config = or_else config.root_key "wallets"

-- `Object.keys`: a parsed object has each key once.
abbrev pub keys_of : Fields → List String
keys_of end = []
keys_of (field key value fs) = key ∷ keys_of fs

-- The language's own functions that the checks call.
pub record Language : Type 0 where
  pub lower : String → String  -- toLowerCase
  pub is_ethereum_address : String → Bool  -- ETHEREUM_ADDRESS_PATTERN
  pub is_cardano_payment_address : String → Bool  -- CARDANO_PAYMENT_ADDRESS_PATTERN
  pub parse : String → Option Value  -- JSON.parse
  pub byte_length : String → ℕ  -- Buffer.byteLength

abbrev pub extra_errors : String → Fields → List FileError
extra_errors root fs = elim (keep (λ key. not (str_eq key root)) (keys_of fs)) [
  | [] ↦ []
  | _ ∷ _ ↦ extra_top_level_keys ∷ []
]

abbrev pub size_errors : ℕ → JsonConfig → List FileError
size_errors size config = elim config.max_bytes [
  | none ↦ []
  | some limit ↦ if ltb limit size then too_many_bytes size limit ∷ [] else []
]

module _ (language : Language) where
  abbrev pub normalized_address : String → String → String
  normalized_address chain address =
      if str_eq chain "ethereum" then language.lower address else address

  -- What the patterns say of an address that is not repeated.
  unfoldable pub pattern_errors : String → ℕ → String → List FileError
  pattern_errors chain index address =
      (if str_eq chain "ethereum" && not (language.is_ethereum_address address)
        then not_ethereum chain index ∷ []
        else [])
      ++ (if str_eq chain "cardano" && not (language.is_cardano_payment_address address)
          then not_cardano chain index ∷ []
          else [])

  -- The loop over the addresses of a chain, from an index on.
  unfoldable pub address_errors : String → List String → ℕ → List Value → List FileError
  unfolding pattern_errors
  address_errors chain seen index [] = []
  address_errors chain seen index (value ∷ values) =
      let skipped = address_errors chain seen (index + 1) values in
      elim (as_text value) [
        | none ↦ not_an_address chain index ∷ skipped
        | some address ↦
            let normalized = normalized_address chain address in
            let later = address_errors chain (normalized ∷ seen) (index + 1) values in
            if is_blank address
            then not_an_address chain index ∷ skipped
            else if has seen normalized
            then repeated_address chain address ∷ skipped
            else pattern_errors chain index address ++ later
      ]

  -- The errors of the chains, and how many entries they hold.
  unfoldable pub chain_errors : Fields → List FileError × ℕ
  unfolding address_errors
  chain_errors end = ([], 0)
  chain_errors (field chain value fs) =
      let (errors, count) = chain_errors fs in
      elim (as_array value) [
        | none ↦ (not_a_list chain ∷ errors, count)
        | some values ↦ (address_errors chain [] 0 values ++ errors, length values + count)
      ]

  unfoldable pub validate_chain_wallet_map : Fields → List String → List FileError × ℕ
  unfolding chain_errors
  validate_chain_wallet_map chain_map allowed =
      let unsupported = keep (λ chain. not (has allowed chain)) (keys_of chain_map) in
      let (errors, count) = chain_errors chain_map in
      elim unsupported [
        | [] ↦ (errors, count)
        | chain ∷ chains ↦ (unsupported_chains (chain ∷ chains) ∷ errors, count)
      ]

  abbrev pub check_wallets : String → Fields → List String → List FileError
  check_wallets root wallets allowed =
      let (errors, count) = validate_chain_wallet_map wallets allowed in
      errors ++ (if count == 0 then no_wallet ∷ [] else [])

  abbrev pub root_errors : String → List String → Value → List FileError
  root_errors root allowed (object wallets) = check_wallets root wallets allowed
  root_errors root allowed _ = root_not_an_object root ∷ []

  unfoldable pub validate_wallet_address_map : Value → JsonConfig → List FileError
  unfolding validate_chain_wallet_map
  validate_wallet_address_map (object fs) config =
      let root = root_key_of config in
      extra_errors root fs ++ root_errors root (allowed_chains_of config) (get_field root fs)
  validate_wallet_address_map _ config = not_an_object ∷ []

  abbrev pub content_errors : String → JsonConfig → List FileError
  content_errors content config =
      if is_blank content then empty_file ∷ [] else (elim (language.parse content) [
        | none ↦ unreadable ∷ []
        | some parsed ↦
            if config.is_wallet_address_map
            then validate_wallet_address_map parsed config
            else if is_record parsed
            then []
            else not_an_object ∷ []
      ])

  -- The errors of a file whose text is given; it is valid if there are none.
  unfoldable pub validate_json_content : String → JsonConfig → List FileError
  unfolding validate_wallet_address_map
  validate_json_content content config =
      size_errors (language.byte_length content) config ++ content_errors content config

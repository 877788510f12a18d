-- ===== src/Validator/WalletFiles.antt =====
-- What a wallet file that passes the check is known to hold
-- (packages/algorithm-validator/src/json-validation.ts).
use reputo.Prelude.{
  ◌⊎◌, Bool-cases, false, ℕ, ◌+◌, ◌≤◌, ◌<◌, ◌≡◌, refl, String, true, not, Option, none, some, List,
  [], map, length, keep, str_eq, Option-cases, inl, inr, arith,
}
use reputo.Tokens.Transfers.{has}
use reputo.Values.{Value, object, Fields, field, end, get_field, as_array}
use reputo.Validator.Wallets.{
  JsonConfig, Language, allowed_chains_of, root_key_of, keys_of, address_errors, chain_errors,
  validate_chain_wallet_map, check_wallets, validate_wallet_address_map, extra_errors, root_errors,
  validate_json_content, size_errors, content_errors,
}
use reputo.Validator.Passed.{IsWalletMap, Listed, append_nothing, passed_addresses}

module _ (language : Language) where
  passed_chains :
      (allowed : List String) (fs : Fields)
      → keep (λ chain. not (has allowed chain)) (keys_of fs) ≡ []
      → (chain_errors language fs).0 ≡ []
      → IsWalletMap language allowed fs
  unfolding chain_errors Listed
  passed_chains allowed end u h = tt
  passed_chains allowed (field chain value fs) u h = elim (Option-cases (as_array value)) [
    | inl n ↦ ground (arith, n, h)
    | inr (values, e) ↦
        let (own, others) =
          append_nothing (address_errors language chain [] 0 values) (chain_errors language fs).0
            (ground (arith, e, h)) in
        let (addresses, same, each, once, fresh) =
          passed_addresses language chain [] 0 values own in
        (
          ground (arith, u),
          (values, e, (addresses, same, each, once)),
          passed_chains allowed fs (ground (arith, u)) others,
        )
  ]

  -- How many entries the lists of a map hold.
  abbrev pub entries_of : Fields → ℕ
  entries_of end = 0
  entries_of (field chain value fs) = elim (as_array value) [
    | none ↦ entries_of fs
    | some values ↦ length values + entries_of fs
  ]

  counted_entries : (fs : Fields) → (chain_errors language fs).1 ≡ entries_of fs
  unfolding chain_errors
  counted_entries end = refl
  counted_entries (field chain value fs) = ground (arith, counted_entries fs)

  passed_wallets :
      (root : String) (wallets : Fields) (allowed : List String)
      → check_wallets language root wallets allowed ≡ []
      → IsWalletMap language allowed wallets × (0 < entries_of wallets)
  unfolding validate_chain_wallet_map
  passed_wallets root wallets allowed h =
      let unsupported = keep (λ chain. not (has allowed chain)) (keys_of wallets) in
      let (errors, some_wallet) =
        append_nothing (validate_chain_wallet_map language wallets allowed).0 _ h in
      let supported : unsupported ≡ [] = ground (arith, errors) in
      let fine : (chain_errors language wallets).0 ≡ [] = ground (arith, errors, supported) in
      (
        passed_chains allowed wallets supported fine,
        ground (arith, some_wallet, supported, counted_entries wallets),
      )

  -- An object whose only key is the root, with a wallet map under it that is not empty.
  abbrev pub IsWalletFile : JsonConfig → Value → Type 0
  IsWalletFile config parsed =
      (fs : Fields) × (wallets : Fields) × (parsed ≡ object fs)
      × (keep (λ key. not (str_eq key (root_key_of config))) (keys_of fs) ≡ [])
      × (get_field (root_key_of config) fs ≡ object wallets)
      × IsWalletMap language (allowed_chains_of config) wallets
      × (0 < entries_of wallets)

  passed_root :
      (root : String) (allowed : List String) (value : Value)
      → root_errors language root allowed value ≡ []
      → (wallets : Fields) × (value ≡ object wallets)
        × IsWalletMap language allowed wallets
        × (0 < entries_of wallets)
  passed_root root allowed (object wallets) h =
      let (map, some_entry) = passed_wallets root wallets allowed h in
      (wallets, refl, map, some_entry)
  passed_root root allowed value h = ground (arith, h)

  passed_object :
      (value : Value) (config : JsonConfig)
      → validate_wallet_address_map language value config ≡ []
      → IsWalletFile config value
  unfolding validate_wallet_address_map
  passed_object (object fs) config h =
      let root = root_key_of config in
      let allowed = allowed_chains_of config in
      let (extra, rest) =
        append_nothing (extra_errors root fs)
          (root_errors language root allowed (get_field root fs)) h in
      let (wallets, same, map, some_entry) = passed_root root allowed (get_field root fs) rest in
      (fs, wallets, refl, ground (arith, extra), same, map, some_entry)
  passed_object value config h = ground (arith, h)

abbrev pub IsWithin : Option ℕ → ℕ → Type 0
IsWithin none size = Unit
IsWithin (some limit) size = size ≤ limit

within :
    (config : JsonConfig) (size : ℕ) → size_errors size config ≡ [] → IsWithin config.max_bytes size
within config size h = ground (arith, h)

-- A wallet file that passes the check is parsed to an object whose only key is the root key. Under it
-- is a map of supported chains only, each with a list of addresses that are not blank, of the
-- chain's pattern, and none twice (for Ethereum: also none in another case); at least one list is
-- not empty; and the file is no larger than its limit.
pub validate_json_content-IsWalletFile :
    (language : Language) (content : String) (config : JsonConfig)
    → config.is_wallet_address_map ≡ true
    → validate_json_content language content config ≡ []
    → IsWithin config.max_bytes (language.byte_length content)
      × ((parsed : Value) × (language.parse content ≡ some parsed)
          × IsWalletFile language config parsed)
unfolding validate_json_content
validate_json_content-IsWalletFile language content config w h =
    let (sizes, contents) =
      append_nothing (size_errors (language.byte_length content) config)
        (content_errors language content config) h in
    elim (Option-cases (language.parse content)) [
      | inl n ↦ ground (arith, n, contents)
      | inr (parsed, e) ↦
          let passed : validate_wallet_address_map language parsed config ≡ [] =
            ground (arith, e, w, contents) in
          (
            within config (language.byte_length content) sizes,
            (parsed, e, passed_object language parsed config passed),
          )
    ]

-- A JSON file that is small enough, and a wallet file if it is to be one.
abbrev pub IsJsonFile : Language → String → JsonConfig → Type 0
IsJsonFile language content config =
    IsWithin config.max_bytes (language.byte_length content)
    × ((config.is_wallet_address_map ≡ false)
        ⊎ ((parsed : Value) × (language.parse content ≡ some parsed)
            × IsWalletFile language config parsed))

pub validate_json_content-IsJsonFile :
    (language : Language) (content : String) (config : JsonConfig)
    → validate_json_content language content config ≡ []
    → IsJsonFile language content config
unfolding validate_json_content
validate_json_content-IsJsonFile language content config h =
    let (sizes, contents) =
      append_nothing (size_errors (language.byte_length content) config)
        (content_errors language content config) h in
    let small = within config (language.byte_length content) sizes in
    elim (Bool-cases config.is_wallet_address_map) [
      | inr f ↦ (small, inl f)
      | inl t ↦ (small, inr (validate_json_content-IsWalletFile language content config t h).1)
    ]

-- ===== src/Validator/Files.antt =====
-- packages/algorithm-validator/src/preset-validation.ts: the files of a preset, and the rules between
-- them and the other inputs.
use reputo.Prelude.{
  String, Bool, true, false, not, ◌&&◌, Option, none, some, List, [], ◌∷◌, ◌++◌, map, keep, str_eq,
  Result, err, ok, if◌then◌else◌,
}
use reputo.Tokens.Firsts.{firsts}
use reputo.Values.{
  Value, undefined, null, text, object, Fields, get_field, as_text, as_array, PresetInput,
  input_value,
}
use reputo.Values.Texts.{is_empty, is_blank}
use reputo.Validator.Wallets.{FileError, JsonConfig, Language, root_key_of, validate_json_content}
use reputo.Validator.Csv.{CsvError, validate_csv_content}
use reputo.Validator.Presets.{
  csv, json, sub_algorithm, other_type, InputDefinition, Rule, AlgorithmDefinition, put, Problem,
  invalid, unknown_wallet_input, missing_chains, from_file, from_rule, Issue,
}

-- How files are opened and read.
pub record Reader : Type 0 where
  pub language : Language
  -- the caller's resolver, if there is one; an error gives its normalized messages
  pub resolve : Option (InputDefinition → Value → Result (List String) Value)
  pub not_opened : String → String  -- the message for an input that cannot be opened
  pub say : FileError → String
  pub say_csv : CsvError → String

-- `presetInput?.value ?? payload[key]`
abbrev pub first_given : Value → Value → Value
first_given undefined other = other
first_given null other = other
first_given value other = value

abbrev pub is_given : Value → Bool
is_given undefined = false
is_given null = false
is_given (text s) = not (is_empty s)
is_given _ = true

module _ (reader : Reader) where
  -- `resolveInputContent`: buffers and files count as their text.
  unfoldable pub resolve_input_content : InputDefinition → Value → Result (List String) String
  resolve_input_content input value =
      let opened : Result (List String) Value = elim reader.resolve [
        | none ↦ ok value
        | some resolve ↦ resolve input value
      ] in
      elim opened [
        | err messages ↦ err messages
        | ok resolved ↦ elim (as_text resolved) [
          | none ↦ err (reader.not_opened input.key ∷ [])
          | some content ↦ ok content
        ]
      ]

  -- The messages about a file, or what a JSON file holds.
  unfoldable pub check_content : InputDefinition → String → Result (List String) (Option Value)
  check_content input content = elim input.type [
    | json config ↦ elim (validate_json_content reader.language content config) [
      | e ∷ es ↦ err (map reader.say (e ∷ es))
      | [] ↦ ok (reader.language.parse content)
    ]
    | csv config ↦ elim (validate_csv_content reader.language.lower content config) [
      | e ∷ es ↦ err (map reader.say_csv (e ∷ es))
      | [] ↦ ok none
    ]
    | sub_algorithm _ ↦ ok none
    | other_type ↦ ok none
  ]

  unfoldable pub check_file : InputDefinition → Value → Result (List String) (Option Value)
  unfolding resolve_input_content check_content
  check_file input value = elim (resolve_input_content input value) [
    | err messages ↦ err messages
    | ok content ↦ check_content input content
  ]

  abbrev pub is_file_backed : InputDefinition → Bool
  is_file_backed input = elim input.type [
    | csv _ ↦ true
    | json _ ↦ true
    | sub_algorithm _ ↦ false
    | other_type ↦ false
  ]

  abbrev pub file_issue : String → String → Issue
  file_issue key message = record { field = key; problem = invalid message; source = from_file }

  -- The errors of the files, and what the JSON files hold, by the input's key.
  unfoldable pub validate_file_backed_inputs :
      List PresetInput → Fields → List InputDefinition → Fields → List Issue × Fields
  unfolding check_file put
  validate_file_backed_inputs inputs payload [] parsed = ([], parsed)
  validate_file_backed_inputs inputs payload (input ∷ definitions) parsed =
      let next = validate_file_backed_inputs inputs payload definitions in
      let value = first_given (input_value input.key inputs) (get_field input.key payload) in
      if is_file_backed input && is_given value
      then (elim (check_file input value) [
        | err messages ↦ (map (file_issue input.key) messages ++ (next parsed).0, (next parsed).1)
        | ok none ↦ next parsed
        | ok (some content) ↦ next (put input.key content parsed)
      ])
      else next parsed

unfoldable pub chains_of : String → List Value → List String
chains_of chain_field [] = []
chains_of chain_field (object fs ∷ items) =
    let rest = chains_of chain_field items in
    elim (as_text (get_field chain_field fs)) [
      | none ↦ rest
      | some chain ↦ if is_blank chain then rest else chain ∷ rest
    ]
chains_of chain_field (_ ∷ items) = chains_of chain_field items

unfoldable pub get_selected_chains : Value → String → List String
unfolding chains_of firsts
get_selected_chains selector chain_field = elim (as_array selector) [
  | none ↦ []
  | some items ↦ firsts (λ chain. chain) [] (chains_of chain_field items)
]

-- A chain without a list of wallets, or with an empty one.
abbrev pub lacks_wallets : Fields → String → Bool
lacks_wallets wallets chain = elim (as_array (get_field chain wallets)) [
  | none ↦ true
  | some [] ↦ true
  | some (_ ∷ _) ↦ false
]

abbrev pub json_config_of : InputDefinition → Option JsonConfig
json_config_of input = elim input.type [
  | json config ↦ some config
  | csv _ ↦ none
  | sub_algorithm _ ↦ none
  | other_type ↦ none
]

unfoldable pub find_json_input : String → List InputDefinition → Option JsonConfig
find_json_input key [] = none
find_json_input key (input ∷ inputs) =
    let rest = find_json_input key inputs in
    if str_eq input.key key
    then (elim (json_config_of input) [ none ↦ rest | some config ↦ some config ])
    else rest

abbrev pub rule_issue : String → Problem → Issue
rule_issue key problem = record { field = key; problem = problem; source = from_rule }

-- The chains of the selection that the wallets of a file do not cover.
abbrev pub coverage_issues : Rule → JsonConfig → List String → Value → List Issue
coverage_issues rule config selected (object fs) = elim (get_field (root_key_of config) fs) [
  | object wallets ↦ elim (keep (lacks_wallets wallets) selected) [
    | [] ↦ []
    | chain ∷ chains ↦ rule_issue rule.wallet_input_key (missing_chains (chain ∷ chains)) ∷ []
  ]
  | _ ↦ []
]
coverage_issues rule config selected _ = []

unfoldable pub run_json_chain_coverage_rule :
    AlgorithmDefinition → Fields → Fields → Rule → List Issue
unfolding get_selected_chains find_json_input
run_json_chain_coverage_rule definition payload parsed rule =
    elim (find_json_input rule.wallet_input_key definition.inputs) [
      | none ↦ rule_issue rule.wallet_input_key (unknown_wallet_input rule.wallet_input_key) ∷ []
      | some config ↦
          coverage_issues rule config
            (get_selected_chains (get_field rule.selector_input_key payload)
              rule.selector_chain_field)
            (get_field rule.wallet_input_key parsed)
    ]

unfoldable pub run_definition_rules : AlgorithmDefinition → Fields → Fields → List Rule → List Issue
unfolding run_json_chain_coverage_rule
run_definition_rules definition payload parsed [] = []
run_definition_rules definition payload parsed (rule ∷ rules) =
    run_json_chain_coverage_rule definition payload parsed rule
    ++ run_definition_rules definition payload parsed rules

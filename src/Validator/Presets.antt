-- ===== src/Validator/Presets.antt =====
-- packages/algorithm-validator/src/preset-validation.ts: the checks of a preset against its
-- definition that need neither files nor other definitions.
use reputo.Prelude.{
  String, Bool, not, Option, none, some, List, [], ◌∷◌, ◌++◌, map, keep, str_eq, if◌then◌else◌,
}
use reputo.Tokens.Transfers.{has}
use reputo.Tokens.Firsts.{firsts}
use reputo.Values.{
  Value, object, Fields, field, end, get_field, has_field, as_text, as_number, as_array,
  PresetInput,
}
use reputo.Validator.Wallets.{JsonConfig}
use reputo.Validator.Csv.{CsvConfig}
use reputo.Validator.Properties.{Hints, Properties}

pub data InputType : Type 0 where
  csv : CsvConfig → InputType
  json : JsonConfig → InputType
  sub_algorithm : List String → InputType  -- sharedInputKeys
  other_type : InputType

pub record InputDefinition : Type 0 where
  pub key : String
  pub type : InputType
  pub hints : Hints
  pub items : Option Properties  -- of an array, the properties of its items

-- `json_chain_coverage`, the only kind of rule
pub record Rule : Type 0 where
  pub wallet_input_key : String
  pub selector_input_key : String
  pub selector_chain_field : String

pub record AlgorithmDefinition : Type 0 where
  pub key : String
  pub name : String
  pub version : String
  pub is_combined : Bool  -- kind === 'combined'
  pub inputs : List InputDefinition
  pub rules : List Rule

pub record PresetData : Type 0 where
  pub key : String
  pub version : String
  pub inputs : List PresetInput

-- Where an error comes from, and what it says; the source prints each as a sentence.
pub data Source : Type 0 where
  from_preset from_definition from_payload from_file from_rule : Source

pub data Problem : Type 0 where
  invalid : String → Problem  -- a message of the schema, of a file or of a resolver
  wrong_algorithm wrong_version combined_child : Problem
  unsupported_input repeated_input shared_input unknown_wallet_input : String → Problem
  not_loaded not_found : String → String → Problem
  missing_chains : List String → Problem
  unknown_chain unknown_resource : Problem
  stale_option : String → Problem

pub record Issue : Type 0 where
  pub field : String
  pub problem : Problem
  pub source : Source

unfoldable pub get_definition_consistency_errors :
    AlgorithmDefinition → String → String → List Issue
get_definition_consistency_errors definition key version =
    (if str_eq key definition.key
      then []
      else (record { field = "key"; problem = wrong_algorithm; source = from_definition }) ∷ [])
    ++ (if str_eq version definition.version
        then []
        else (record { field = "version"; problem = wrong_version; source = from_definition }) ∷ [])

abbrev pub input_keys : List PresetInput → List String
input_keys = map (λ (input : PresetInput). input.key)

-- The keys that come again, each time that they do.
unfoldable pub repeated_keys : List String → List String → List String
repeated_keys seen [] = []
repeated_keys seen (key ∷ keys) =
    let again = key ∷ repeated_keys seen keys in
    let first = repeated_keys (key ∷ seen) keys in if has seen key then again else first

abbrev pub repeated_issue : String → Issue
repeated_issue key = record { field = key; problem = repeated_input key; source = from_preset }

unfoldable pub get_duplicate_input_errors : List PresetInput → List Issue
unfolding repeated_keys firsts
get_duplicate_input_errors inputs =
    map repeated_issue (firsts (λ key. key) [] (repeated_keys [] (input_keys inputs)))

abbrev pub supported_keys : AlgorithmDefinition → List String
supported_keys definition = map (λ (input : InputDefinition). input.key) definition.inputs

abbrev pub unsupported_issue : String → Issue
unsupported_issue key = record {
  field = key;
  problem = unsupported_input key;
  source = from_definition;
}

unfoldable pub get_unsupported_input_errors : AlgorithmDefinition → List PresetInput → List Issue
get_unsupported_input_errors definition inputs =
    map unsupported_issue
      (keep (λ key. not (has (supported_keys definition) key)) (input_keys inputs))

-- `payload[key] = value`
unfoldable pub put : String → Value → Fields → Fields
put key value end = field key value end
put key value (field k v fs) =
    if str_eq k key then field k value fs else field k v (put key value fs)

unfoldable pub fill_payload : List PresetInput → Fields → Fields
unfolding put
fill_payload [] payload = payload
fill_payload (input ∷ inputs) payload = fill_payload inputs (put input.key input.value payload)

unfoldable pub build_payload : List PresetInput → Fields
unfolding fill_payload
build_payload inputs = fill_payload inputs end

-- `inputs.every(isPresetInput)`, with the inputs: each has a key that is a text, and a value.
unfoldable pub as_valued_inputs : List Value → Option (List PresetInput)
as_valued_inputs [] = some []
as_valued_inputs (object fs ∷ values) =
    let rest = as_valued_inputs values in
    elim (as_text (get_field "key" fs)) [
      | none ↦ none
      | some key ↦
          if has_field "value" fs
          then (elim rest [
            | none ↦ none
            | some inputs ↦ some ((record { key = key; value = get_field "value" fs }) ∷ inputs)
          ])
          else none
    ]
as_valued_inputs (_ ∷ _) = none

-- `isSubAlgorithmEntry`, with the entry as a preset.
unfoldable pub as_entry : Value → Option PresetData
unfolding as_valued_inputs
as_entry (object fs) = elim (as_text (get_field "algorithm_key" fs)) [
  | none ↦ none
  | some key ↦ elim (as_text (get_field "algorithm_version" fs)) [
    | none ↦ none
    | some version ↦ elim (as_number (get_field "weight" fs)) [
      | none ↦ none
      | some _ ↦ elim (as_array (get_field "inputs" fs)) [
        | none ↦ none
        | some values ↦ elim (as_valued_inputs values) [
          | none ↦ none
          | some inputs ↦ some (record { key = key; version = version; inputs = inputs })
        ]
      ]
    ]
  ]
]
as_entry _ = none

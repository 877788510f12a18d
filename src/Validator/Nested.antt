-- ===== src/Validator/Nested.antt =====
-- packages/algorithm-validator/src/preset-validation.ts: the algorithms nested in a combined one, and
-- the validation of a preset. The schemas (of the preset, and of the payload) are parameters.
use reputo.Prelude.{
  ℕ, zero, suc, ◌+◌, String, Bool, not, ◌||◌, Option, none, some, List, [], ◌∷◌, ◌++◌, map, keep,
  str_eq, str_append, Result, err, ok, if◌then◌else◌,
}
use reputo.Tokens.Transfers.{has}
use reputo.Values.{
  Value, text, array, object, Values, nil, item, Fields, field, end, get_field, as_array,
  PresetInput,
}
use reputo.Values.Texts.{is_empty}
use reputo.Validator.Presets.{
  sub_algorithm, InputDefinition, AlgorithmDefinition, PresetData, Problem, invalid, combined_child,
  shared_input, not_loaded, not_found, Issue, from_definition, as_entry,
  get_definition_consistency_errors, get_duplicate_input_errors, get_unsupported_input_errors,
  build_payload, input_keys,
}
use reputo.Validator.Payloads.{validate_payload}
use reputo.Validator.Files.{Reader, validate_file_backed_inputs, run_definition_rules}

-- What the resolver of nested definitions gives: a definition, something else, or an error, with
-- its message if it is an `Error`.
abbrev pub Resolved : Type 0
Resolved = Result (Option String) (Option AlgorithmDefinition)

-- The definition that nests another, and its input that does.
pub record Parent : Type 0 where
  pub definition : AlgorithmDefinition
  pub input : InputDefinition

-- The schemas and the resolvers that a validation is called with.
pub record Context : Type 0 where
  pub parse_preset : Value → Result (List Issue) PresetData  -- validateCreateAlgorithmPreset
  -- The schema of a payload that buildZodSchema makes, as zod interprets it.
  pub read_payload : AlgorithmDefinition → Fields → Result (List Issue) Fields
  pub reader : Reader
  pub resolve_nested : Option (String → String → ℕ → Parent → Resolved)
  pub print : ℕ → String  -- an index in a template
  pub show : Value → String  -- String(value)

abbrev pub Validation : Type 0
Validation = Result (List Issue) (PresetData × Fields)

-- The keys that an input's children share, if it nests algorithms.
abbrev pub shared_keys_of : InputDefinition → Option (List String)
shared_keys_of input = elim input.type [ sub_algorithm shared ↦ some shared | _ ↦ none ]

abbrev pub definition_errors : AlgorithmDefinition → PresetData → List Issue
definition_errors definition preset =
    get_definition_consistency_errors definition preset.key preset.version
    ++ get_duplicate_input_errors preset.inputs
    ++ get_unsupported_input_errors definition preset.inputs

-- The preset of a child, as the value that is validated.
abbrev pub value_of_inputs : List PresetInput → Values
value_of_inputs [] = nil
value_of_inputs (input ∷ inputs) =
    item (object (field "key" (text input.key) (field "value" input.value end)))
      (value_of_inputs inputs)

abbrev pub value_of_preset : PresetData → Value
value_of_preset preset = object (
    field "key" (text preset.key) (
      field "version" (text preset.version)
        (field "inputs" (array (value_of_inputs preset.inputs)) end)))

module _ (context : Context) where
  -- `validatePayload`
  abbrev pub parse_payload : AlgorithmDefinition → Fields → Result (List Issue) Fields
  parse_payload definition payload =
      validate_payload context.print context.show (context.read_payload definition payload)
        definition.inputs

  abbrev pub join_field : String → String → String
  join_field s t = str_append s (str_append "." t)

  -- `${parentInputKey}.${childIndex}`
  abbrev pub child_field : String → ℕ → String
  child_field parent index = join_field parent (context.print index)

  unfoldable pub prefix_nested_field : String → ℕ → String → String
  prefix_nested_field parent index name =
      if is_empty name || str_eq name "_preset"
      then child_field parent index
      else if str_eq name "key"
      then join_field (child_field parent index) "algorithm_key"
      else if str_eq name "version"
      then join_field (child_field parent index) "algorithm_version"
      else join_field (child_field parent index) (join_field "inputs" name)

  abbrev pub child_issue : String → ℕ → Problem → Issue
  child_issue parent index problem = record {
    field = join_field (child_field parent index) "algorithm_key";
    problem = problem;
    source = from_definition;
  }

  unfoldable pub resolve_nested_definition :
      Parent → ℕ → PresetData → Result (List Issue) AlgorithmDefinition
  resolve_nested_definition parent index entry = elim context.resolve_nested [
    | none ↦ err (child_issue parent.input.key index (not_loaded entry.key entry.version) ∷ [])
    | some resolve ↦ elim (resolve entry.key entry.version index parent) [
      | ok (some definition) ↦ ok definition
      | ok none ↦ err (child_issue parent.input.key index (not_found entry.key entry.version) ∷ [])
      | err (some message) ↦ err (child_issue parent.input.key index (invalid message) ∷ [])
      | err none ↦ err (child_issue parent.input.key index (not_found entry.key entry.version) ∷ [])
    ]
  ]

  abbrev pub is_shared : List String → PresetInput → Bool
  is_shared shared input = has shared input.key

  abbrev pub shared_issue : String → ℕ → String → Issue
  shared_issue parent index key = record {
    field = join_field (child_field parent index) (join_field "inputs" key);
    problem = shared_input key;
    source = from_definition;
  }

  -- The inputs that a child is validated with: its own, less the shared ones, and those shared.
  abbrev pub child_preset : List String → List PresetInput → PresetData → PresetData
  child_preset shared inputs entry = record entry {
    inputs =
        keep (λ input. not (is_shared shared input)) entry.inputs ++ keep (is_shared shared) inputs;
  }

  abbrev pub prefixed : String → ℕ → Issue → Issue
  prefixed parent index issue = record issue {
    field = prefix_nested_field parent index issue.field;
  }

  -- `validate` validates the preset of a child.
  module _ (validate : AlgorithmDefinition → PresetData → Validation) where
    -- What is wrong with a child whose definition is found.
    unfoldable pub child_issues : String → ℕ → AlgorithmDefinition → PresetData → List Issue
    unfolding prefix_nested_field
    child_issues parent index definition preset =
        if definition.is_combined
        then child_issue parent index combined_child ∷ []
        else (elim (validate definition preset) [
          | ok _ ↦ []
          | err issues ↦ map (prefixed parent index) issues
        ])

    unfoldable pub entry_issues :
        Parent → List String → List PresetInput → ℕ → PresetData → List Issue
    unfolding resolve_nested_definition child_issues
    entry_issues parent shared inputs index entry =
        let own =
          map (shared_issue parent.input.key index)
            (input_keys (keep (is_shared shared) entry.inputs)) in
        elim (resolve_nested_definition parent index entry) [
          | err issues ↦ issues ++ own
          | ok definition ↦
              own
              ++ child_issues parent.input.key index definition (child_preset shared inputs entry)
        ]

    -- The entries of an input, from an index on; what is no entry is left to the schema.
    unfoldable pub entries_issues :
        Parent → List String → List PresetInput → ℕ → List Value → List Issue
    unfolding entry_issues
    entries_issues parent shared inputs index [] = []
    entries_issues parent shared inputs index (value ∷ values) =
        let rest = entries_issues parent shared inputs (index + 1) values in
        elim (as_entry value) [
          | none ↦ rest
          | some entry ↦ entry_issues parent shared inputs index entry ++ rest
        ]

    unfoldable pub validate_nested_sub_algorithms :
        AlgorithmDefinition → List PresetInput → Fields → List InputDefinition → List Issue
    unfolding entries_issues
    validate_nested_sub_algorithms owner inputs payload [] = []
    validate_nested_sub_algorithms owner inputs payload (input ∷ definitions) =
        let rest = validate_nested_sub_algorithms owner inputs payload definitions in
        elim (shared_keys_of input) [
          | none ↦ rest
          | some shared ↦ elim (as_array (get_field input.key payload)) [
            | none ↦ rest
            | some values ↦
                entries_issues (record { definition = owner; input = input }) shared inputs 0 values
                ++ rest
          ]
        ]

    -- `validateAlgorithmPreset` from the payload that passed its schema on.
    unfoldable pub validate_contents : AlgorithmDefinition → PresetData → Fields → Validation
    unfolding validate_file_backed_inputs run_definition_rules validate_nested_sub_algorithms
    validate_contents definition preset payload =
        let (file_errors, parsed) =
          validate_file_backed_inputs context.reader preset.inputs payload definition.inputs end in
        let rule_errors = run_definition_rules definition payload parsed definition.rules in
        let nested_errors =
          validate_nested_sub_algorithms definition preset.inputs payload definition.inputs in
        elim (file_errors ++ rule_errors ++ nested_errors) [
          | [] ↦ ok (preset, payload)
          | issue ∷ issues ↦ err (issue ∷ issues)
        ]

    -- `validateAlgorithmPreset` for a preset that passed its schema.
    unfoldable pub validate_parsed : AlgorithmDefinition → PresetData → Validation
    unfolding validate_contents validate_payload get_definition_consistency_errors
        get_duplicate_input_errors get_unsupported_input_errors build_payload
    validate_parsed definition preset =
        elim (parse_payload definition (build_payload preset.inputs)) [
          | err issues ↦ err (definition_errors definition preset ++ issues)
          | ok payload ↦ elim (definition_errors definition preset) [
            | issue ∷ issues ↦ err (issue ∷ issues)
            | [] ↦ validate_contents definition preset payload
          ]
        ]

    -- `validateAlgorithmPreset`
    unfoldable pub validate_with : AlgorithmDefinition → Value → Validation
    unfolding validate_parsed
    validate_with definition value = elim (context.parse_preset value) [
      | err issues ↦ err issues
      | ok preset ↦ validate_parsed definition preset
    ]

  -- Down to a depth of nesting; `unfinished` is the answer below it.
  unfoldable pub validate_algorithm_preset :
      Validation → ℕ → AlgorithmDefinition → Value → Validation
  unfolding validate_with
  validate_algorithm_preset unfinished zero definition value = unfinished
  validate_algorithm_preset unfinished (suc depth) definition value =
      validate_with
        (λ child preset. validate_algorithm_preset unfinished depth child (value_of_preset preset))
        definition value

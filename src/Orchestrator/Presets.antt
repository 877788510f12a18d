-- ===== src/Orchestrator/Presets.antt =====
-- apps/workflows/src/shared/utils/orchestrator-input.utils.ts: the queue of a runtime, and the presets
-- of a combined algorithm's children.
use reputo.Prelude.{
  String, Bool, not, Option, none, some, List, [], ◌∷◌, ◌++◌, keep, Result, err, ok, str_eq,
  str_append, if◌then◌else◌,
}
use reputo.Tokens.Transfers.{has}
use reputo.Values.{
  Value, object, get_field, as_text, as_number, as_array, as_preset_inputs, input_value,
  PresetInput,
}
use reputo.Orchestrator.Model.{Preset, DefinitionInput, is_text, Thrown, new_error}

abbrev pub algorithm_typescript_task_queue : String
algorithm_typescript_task_queue = "algorithm-typescript-worker"

abbrev pub algorithm_python_task_queue : String
algorithm_python_task_queue = "algorithm-python-worker"

unfoldable pub get_algorithm_task_queue_from_runtime : String → Result Thrown String
get_algorithm_task_queue_from_runtime runtime =
    if str_eq runtime "typescript"
    then ok algorithm_typescript_task_queue
    else if str_eq runtime "python"
    then ok algorithm_python_task_queue
    else err (new_error (str_append "Unsupported algorithm runtime: " runtime))

-- `isSubAlgorithmEntryLike`, with the entry's key, version and inputs.
unfoldable pub as_sub_algorithm_entry : Value → Option Preset
as_sub_algorithm_entry (object fs) = elim (as_text (get_field "algorithm_key" fs)) [
  | none ↦ none
  | some key ↦ elim (as_text (get_field "algorithm_version" fs)) [
    | none ↦ none
    | some version ↦ elim (as_number (get_field "weight" fs)) [
      | none ↦ none
      | some weight ↦ elim (as_array (get_field "inputs" fs)) [
        | none ↦ none
        | some values ↦ elim (as_preset_inputs values) [
          | none ↦ none
          | some inputs ↦ some (record { key = key; version = version; inputs = inputs })
        ]
      ]
    ]
  ]
]
as_sub_algorithm_entry _ = none

-- whether a key is shared by the parent's input
abbrev pub shares : List String → PresetInput → Bool
shares shared input = has shared input.key

-- The children of one input, from its entries.
unfoldable pub child_presets_of : List String → List PresetInput → List Value → List Preset
child_presets_of shared shared_inputs [] = []
child_presets_of shared shared_inputs (entry ∷ entries) =
    let rest = child_presets_of shared shared_inputs entries in
    elim (as_sub_algorithm_entry entry) [
      | none ↦ rest
      | some child ↦
          (record child {
            inputs = keep (λ input. not (shares shared input)) child.inputs ++ shared_inputs;
          })
          ∷ rest
    ]

unfoldable pub build_combined_child_algorithm_presets :
    List PresetInput → List DefinitionInput → List Preset
unfolding child_presets_of as_sub_algorithm_entry
build_combined_child_algorithm_presets inputs [] = []
build_combined_child_algorithm_presets inputs (input_definition ∷ definitions) =
    let rest = build_combined_child_algorithm_presets inputs definitions in
    let shared = input_definition.shared_input_keys in
    if is_text "sub_algorithm" input_definition.type
    then (elim (as_array (input_value input_definition.key inputs)) [
      | none ↦ rest
      | some entries ↦ child_presets_of shared (keep (shares shared) inputs) entries ++ rest
    ])
    else rest

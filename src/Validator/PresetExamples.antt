-- ===== src/Validator/PresetExamples.antt =====
-- The validator on a combined algorithm with one child (packages/algorithm-validator/src).
use reputo.Prelude.{ℕ, ◌≡◌, true, false, none, some, List, [], ◌∷◌, arith, Result, ok, err}
use reputo.Values.{
  Value, number, natural, text, array, object, nil, item, end, field, get_field, as_text, as_array,
}
use reputo.Validator.Properties.{Hints, Chain, no_property, single}
use reputo.Validator.Presets.{
  sub_algorithm, other_type, AlgorithmDefinition, PresetData, Issue, invalid, from_preset,
  as_valued_inputs,
}
use reputo.Validator.Nested.{
  Parent, Context, Validation, resolve_nested_definition, value_of_preset,
  validate_algorithm_preset,
}
use reputo.Validator.Depth.{is_flat, validate_algorithm_preset-Ends}

abbrev refusal : Issue
refusal = record { field = "_preset"; problem = invalid "Invalid input"; source = from_preset }

-- A preset is read if it has a key, a version and inputs.
read_preset : Value → Result (List Issue) PresetData
unfolding as_valued_inputs
read_preset (object fs) = elim (as_text (get_field "key" fs)) [
  | none ↦ err (refusal ∷ [])
  | some key ↦ elim (as_text (get_field "version" fs)) [
    | none ↦ err (refusal ∷ [])
    | some version ↦ elim (as_array (get_field "inputs" fs)) [
      | none ↦ err (refusal ∷ [])
      | some values ↦ elim (as_valued_inputs values) [
        | none ↦ err (refusal ∷ [])
        | some inputs ↦ ok (record { key = key; version = version; inputs = inputs })
      ]
    ]
  ]
]
read_preset _ = err (refusal ∷ [])

abbrev plain : Hints
plain = record { label = none; options = none; depends_on = none; resource_catalog = none }

abbrev ethereum : Chain
ethereum = record {
  key = "ethereum";
  label = "Ethereum";
  resources = (record { key = "fet"; label = "FET" }) ∷ [];
}

-- The token is offered when Ethereum is selected.
abbrev resource_hints : Hints
resource_hints = record plain {
  options = some ((record { value = "fet"; filter_by = some "ethereum"; filters = none }) ∷ []);
}

abbrev row : Value
row = object (field "chain" (text "ethereum") (field "resource_key" (text "fet") end))

abbrev engagement : AlgorithmDefinition
engagement = record {
  key = "engagement";
  name = "Engagement";
  version = "1.0.0";
  is_combined = false;
  inputs =
      (record { key = "days"; type = other_type; hints = plain; items = none })
      ∷ (record { key = "dids"; type = other_type; hints = plain; items = none })
      ∷ [];
  rules = [];
}

abbrev combined : AlgorithmDefinition
combined = record {
  key = "custom";
  name = "Custom";
  version = "1.0.0";
  is_combined = true;
  inputs =
      (record { key = "dids"; type = other_type; hints = plain; items = none })
      ∷ (record {
        key = "children";
        type = sub_algorithm ("dids" ∷ []);
        hints = plain;
        items = none;
      })
      ∷ (record {
        key = "resources";
        type = other_type;
        hints = record plain { resource_catalog = some (ethereum ∷ []) };
        items = some (single "chain" plain (single "resource_key" resource_hints no_property));
      })
      ∷ [];
  rules = [];
}

abbrev context : Context
context = record {
  parse_preset = read_preset;
  read_payload = λ _ payload. ok payload;
  reader = record {
    language = record {
      lower = λ s. s;
      is_ethereum_address = λ _. true;
      is_cardano_payment_address = λ _. true;
      parse = λ _. none;
      byte_length = λ _. 0;
    };
    resolve = none;
    not_opened = λ s. s;
    say = λ _. "invalid";
    say_csv = λ _. "invalid";
  };
  resolve_nested = some (λ _ _ _ _. ok (some engagement));
  print = λ _. "0";
  show = λ value. elim (as_text value) [ none ↦ "" | some s ↦ s ];
}

abbrev child : Value
child = object (
    field "algorithm_key" (text "engagement") (
      field "algorithm_version" (text "1.0.0") (
        field "weight" (number (natural 1)) (
          field "inputs"
            (array (
              item (object (field "key" (text "days") (field "value" (number (natural 7)) end)))
                nil))
            end))))

abbrev preset : PresetData
preset = record {
  key = "custom";
  version = "1.0.0";
  inputs =
      (record { key = "dids"; value = text "k" })
      ∷ (record { key = "children"; value = array (item child nil) })
      ∷ (record { key = "resources"; value = array (item row nil) })
      ∷ [];
}

abbrev unfinished : Validation
unfinished = err (refusal ∷ [])

engagement_flat :
    (parent : Parent) (index : ℕ) (entry : PresetData) (d : AlgorithmDefinition)
    → resolve_nested_definition context parent index entry ≡ ok d
    → d.is_combined ≡ false
    → is_flat d ≡ true
unfolding resolve_nested_definition
engagement_flat parent index entry d h n = ground (arith, h)

validate_algorithm_preset-Ends_example :
    validate_algorithm_preset context unfinished 5 combined (value_of_preset preset)
    ≡ validate_algorithm_preset context unfinished 2 combined (value_of_preset preset)
validate_algorithm_preset-Ends_example =
    validate_algorithm_preset-Ends context unfinished unfinished 3 combined (value_of_preset preset)
      engagement_flat

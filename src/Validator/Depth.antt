-- ===== src/Validator/Depth.antt =====
-- The depth of nesting of a preset's validation
-- (packages/algorithm-validator/src/preset-validation.ts).
use reputo.Prelude.{
  ℕ, suc, ◌+◌, ◌≡◌, refl, String, Bool, true, false, not, List, [], ◌∷◌, all, is_some, ok,
  Result-cases, Option-cases, Bool-cases, inl, inr, arith, sym, ◌∙◌,
}
use reputo.Values.{Value, Fields, get_field, as_array, PresetInput}
use reputo.Validator.Presets.{
  InputDefinition, AlgorithmDefinition, PresetData, as_entry, build_payload,
}
use reputo.Validator.Nested.{
  Parent, Context, Validation, parse_payload, resolve_nested_definition, child_issues, child_preset,
  entry_issues, entries_issues, shared_keys_of, validate_nested_sub_algorithms, validate_contents,
  validate_parsed, validate_with, value_of_preset, validate_algorithm_preset,
}

-- A definition that nests no algorithm.
abbrev pub is_flat : AlgorithmDefinition → Bool
is_flat definition = all (λ input. not (is_some (shared_keys_of input))) definition.inputs

module _ (context : Context) where
  flat_nested :
      (v : AlgorithmDefinition → PresetData → Validation) (owner : AlgorithmDefinition)
      (inputs : List PresetInput) (payload : Fields) (definitions : List InputDefinition)
      → all (λ input. not (is_some (shared_keys_of input))) definitions ≡ true
      → validate_nested_sub_algorithms context v owner inputs payload definitions ≡ []
  unfolding validate_nested_sub_algorithms
  flat_nested v owner inputs payload [] h = refl
  flat_nested v owner inputs payload (input ∷ definitions) h =
      ground (arith, h, flat_nested v owner inputs payload definitions)

  module _ (v w : AlgorithmDefinition → PresetData → Validation) where
    -- Where the nested errors agree, so does the whole.
    same_nested :
        (definition : AlgorithmDefinition) (value : Value)
        → ((inputs : List PresetInput) (payload : Fields)
            → validate_nested_sub_algorithms context v definition inputs payload definition.inputs
              ≡ validate_nested_sub_algorithms context w definition inputs payload
                  definition.inputs)
        → validate_with context v definition value ≡ validate_with context w definition value
    unfolding validate_with validate_parsed validate_contents
    same_nested definition value agree = elim (Result-cases (context.parse_preset value)) [
      | inr (issues, e) ↦ ground (arith, e)
      | inl (preset, e) ↦
          elim (Result-cases (parse_payload context definition (build_payload preset.inputs))) [
            | inr (issues, f) ↦ ground (arith, e, f)
            | inl (payload, f) ↦ ground (arith, e, f, agree preset.inputs payload)
          ]
    ]

    flat_same :
        (definition : AlgorithmDefinition) (value : Value)
        → is_flat definition ≡ true
        → validate_with context v definition value ≡ validate_with context w definition value
    flat_same definition value flat = same_nested definition value λ inputs payload.
        flat_nested v definition inputs payload definition.inputs flat
        ∙ sym (flat_nested w definition inputs payload definition.inputs flat)

    module _
        (found_flat : (parent : Parent) (index : ℕ) (entry : PresetData) (d : AlgorithmDefinition)
          → resolve_nested_definition context parent index entry ≡ ok d
          → d.is_combined ≡ false
          → is_flat d ≡ true)
        (agree : (d : AlgorithmDefinition) (p : PresetData)
          → is_flat d ≡ true
          → v d p ≡ w d p) where
      same_entry :
          (parent : Parent) (shared : List String) (inputs : List PresetInput) (index : ℕ)
          (entry : PresetData)
          → entry_issues context v parent shared inputs index entry
            ≡ entry_issues context w parent shared inputs index entry
      unfolding entry_issues child_issues
      same_entry parent shared inputs index entry =
          elim (Result-cases (resolve_nested_definition context parent index entry)) [
            | inr (issues, e) ↦ ground (arith, e)
            | inl (d, e) ↦ elim (Bool-cases d.is_combined) [
              | inl t ↦ ground (arith, e, t)
              | inr f ↦
                  let same =
                    agree d (child_preset context shared inputs entry)
                      (found_flat parent index entry d e f) in
                  ground (arith, e, f, same)
            ]
          ]

      same_entries :
          (parent : Parent) (shared : List String) (inputs : List PresetInput) (index : ℕ)
          (values : List Value)
          → entries_issues context v parent shared inputs index values
            ≡ entries_issues context w parent shared inputs index values
      unfolding entries_issues
      same_entries parent shared inputs index [] = refl
      same_entries parent shared inputs index (value ∷ values) =
          let rest = same_entries parent shared inputs (index + 1) values in
          elim (Option-cases (as_entry value)) [
            | inl n ↦ ground (arith, n, rest)
            | inr (entry, e) ↦ ground (arith, e, rest, same_entry parent shared inputs index entry)
          ]

      same_definitions :
          (owner : AlgorithmDefinition) (inputs : List PresetInput) (payload : Fields)
          (definitions : List InputDefinition)
          → validate_nested_sub_algorithms context v owner inputs payload definitions
            ≡ validate_nested_sub_algorithms context w owner inputs payload definitions
      unfolding validate_nested_sub_algorithms
      same_definitions owner inputs payload [] = refl
      same_definitions owner inputs payload (input ∷ definitions) =
          let rest = same_definitions owner inputs payload definitions in
          elim (Option-cases (shared_keys_of input)) [
            | inl n ↦ ground (arith, n, rest)
            | inr (shared, e) ↦ elim (Option-cases (as_array (get_field input.key payload))) [
              | inl n ↦ ground (arith, e, n, rest)
              | inr (values, f) ↦ ground (
                arith,
                e,
                f,
                rest,
                same_entries (record { definition = owner; input = input }) shared inputs 0 values,
              )
            ]
          ]

-- When no definition that is found nests algorithms, unless it is a combined one, which is refused,
-- two levels are enough: the result is that of any greater depth, whatever stands below.
pub validate_algorithm_preset-Ends :
    (context : Context) (unfinished other : Validation) (depth : ℕ)
    (definition : AlgorithmDefinition) (value : Value)
    → ((parent : Parent) (index : ℕ) (entry : PresetData) (d : AlgorithmDefinition)
        → resolve_nested_definition context parent index entry ≡ ok d
        → d.is_combined ≡ false
        → is_flat d ≡ true)
    → validate_algorithm_preset context unfinished (suc (suc depth)) definition value
      ≡ validate_algorithm_preset context other 2 definition value
unfolding validate_algorithm_preset
validate_algorithm_preset-Ends context unfinished other depth definition value found_flat =
    let below : Validation → ℕ → AlgorithmDefinition → PresetData → Validation =
      λ u n child preset. validate_algorithm_preset context u n child (value_of_preset preset) in
    same_nested context (below unfinished (suc depth)) (below other 1) definition value
      λ inputs payload.
        same_definitions context (below unfinished (suc depth)) (below other 1) found_flat
          (λ d p flat.
            flat_same context (below unfinished depth) (below other 0) d (value_of_preset p) flat)
          definition inputs payload definition.inputs

-- ===== src/Validator/Accepted.antt =====
-- The nested algorithms of a preset that passes (packages/algorithm-validator/src/preset-validation.ts).
use reputo.Prelude.{
  ℕ, ◌+◌, ◌≡◌, ◌≢◌, refl, String, false, Option, none, some, List, [], ◌∷◌, map, keep, err, ok,
  Result-cases, Option-cases, inl, inr, arith, subst, sym,
}
use reputo.Values.{Value, Fields, get_field, as_array, PresetInput}
use reputo.Validator.Passed.{append_nothing}
use reputo.Validator.Keys.{map_nothing}
use reputo.Validator.Presets.{
  InputDefinition, AlgorithmDefinition, PresetData, as_entry, input_keys,
}
use reputo.Validator.Nested.{
  Parent, Context, Validation, resolve_nested_definition, is_shared, shared_issue, child_preset,
  child_issues, entry_issues, entries_issues, shared_keys_of, validate_nested_sub_algorithms,
}

module _ (context : Context) (validate : AlgorithmDefinition → PresetData → Validation) where
  -- An entry whose definition is found and not combined, which brings no shared input of its own,
  -- and whose preset is valid with the shared inputs.
  abbrev pub IsAccepted : Parent → List String → List PresetInput → ℕ → PresetData → Type 0
  IsAccepted parent shared inputs index entry =
      (definition : AlgorithmDefinition) × (resolve_nested_definition context parent index entry
        ≡ ok definition)
      × (definition.is_combined ≡ false)
      × (keep (is_shared context shared) entry.inputs ≡ [])
      × ((valid : PresetData × Fields) × (validate definition
              (child_preset context shared inputs entry)
            ≡ ok valid))

  abbrev pub EntryAccepted :
      Parent → List String → List PresetInput → ℕ → Option PresetData → Type 0
  EntryAccepted parent shared inputs index none = Unit
  EntryAccepted parent shared inputs index (some entry) =
      IsAccepted parent shared inputs index entry

  -- Every entry of a list, from an index on.
  abbrev pub EntriesAccepted : Parent → List String → List PresetInput → ℕ → List Value → Type 0
  EntriesAccepted parent shared inputs index [] = Unit
  EntriesAccepted parent shared inputs index (value ∷ values) =
      EntryAccepted parent shared inputs index (as_entry value)
      × EntriesAccepted parent shared inputs (index + 1) values

  abbrev pub ListAccepted :
      Parent → List PresetInput → Option (List String) → Option (List Value) → Type 0
  ListAccepted parent inputs none values = Unit
  ListAccepted parent inputs (some shared) none = Unit
  ListAccepted parent inputs (some shared) (some values) =
      EntriesAccepted parent shared inputs 0 values

  -- Every entry of every input that nests algorithms.
  abbrev pub NestedAccepted :
      AlgorithmDefinition → List PresetInput → Fields → List InputDefinition → Type 0
  NestedAccepted owner inputs payload [] = Unit
  NestedAccepted owner inputs payload (input ∷ definitions) =
      ListAccepted (record { definition = owner; input = input }) inputs (shared_keys_of input)
        (as_array (get_field input.key payload))
      × NestedAccepted owner inputs payload definitions

  module _ (explained : (d : AlgorithmDefinition) (p : PresetData) → validate d p ≢ err []) where
    child_issues-IsAccepted :
        (parent : String) (index : ℕ) (definition : AlgorithmDefinition) (preset : PresetData)
        → child_issues context validate parent index definition preset ≡ []
        → (definition.is_combined ≡ false)
          × ((valid : PresetData × Fields) × (validate definition preset ≡ ok valid))
    unfolding child_issues
    child_issues-IsAccepted parent index definition preset h =
        elim (Result-cases (validate definition preset)) [
          | inl (valid, e) ↦ (ground (arith, h), (valid, e))
          | inr ([], e) ↦ absurd (explained definition preset e)
          | inr (issue ∷ issues, e) ↦ ground (arith, h, e)
        ]

    no_keys : (inputs : List PresetInput) → input_keys inputs ≡ [] → inputs ≡ []
    no_keys [] h = refl
    no_keys (input ∷ inputs) h = ground (arith, h)

    entry_issues-IsAccepted :
        (parent : Parent) (shared : List String) (inputs : List PresetInput) (index : ℕ)
        (entry : PresetData)
        → entry_issues context validate parent shared inputs index entry ≡ []
        → IsAccepted parent shared inputs index entry
    unfolding entry_issues resolve_nested_definition
    entry_issues-IsAccepted parent shared inputs index entry h =
        let kept = keep (is_shared context shared) entry.inputs in
        let own = map (shared_issue context parent.input.key index) (input_keys kept) in
        elim (Result-cases (resolve_nested_definition context parent index entry)) [
          | inr (issues, e) ↦ ground (arith, h, e)
          | inl (definition, e) ↦
              let preset = child_preset context shared inputs entry in
              let (clean, fine) =
                append_nothing own
                  (child_issues context validate parent.input.key index definition preset)
                  (ground (arith, h, e)) in
              let (single, valid) =
                child_issues-IsAccepted parent.input.key index definition preset fine in
              (
                definition,
                e,
                single,
                no_keys kept (
                    map_nothing (shared_issue context parent.input.key index) (input_keys kept)
                      clean),
                valid,
              )
        ]

    entries_issues-EntriesAccepted :
        (parent : Parent) (shared : List String) (inputs : List PresetInput) (index : ℕ)
        (values : List Value)
        → entries_issues context validate parent shared inputs index values ≡ []
        → EntriesAccepted parent shared inputs index values
    unfolding entries_issues
    entries_issues-EntriesAccepted parent shared inputs index [] h = tt
    entries_issues-EntriesAccepted parent shared inputs index (value ∷ values) h =
        let rest = entries_issues context validate parent shared inputs (index + 1) values in
        elim (Option-cases (as_entry value)) [
          | inl n ↦
              let later =
                entries_issues-EntriesAccepted parent shared inputs (index + 1) values
                  (ground (arith, h, n)) in
              (subst (EntryAccepted parent shared inputs index) (sym n) tt, later)
          | inr (entry, e) ↦
              let (first, others) =
                append_nothing (entry_issues context validate parent shared inputs index entry) rest
                  (ground (arith, h, e)) in
              (
                subst (EntryAccepted parent shared inputs index) (sym e)
                    (entry_issues-IsAccepted parent shared inputs index entry first),
                entries_issues-EntriesAccepted parent shared inputs (index + 1) values others,
              )
        ]

    pub validate_nested_sub_algorithms-NestedAccepted :
        (owner : AlgorithmDefinition) (inputs : List PresetInput) (payload : Fields)
        (definitions : List InputDefinition)
        → validate_nested_sub_algorithms context validate owner inputs payload definitions ≡ []
        → NestedAccepted owner inputs payload definitions
    unfolding validate_nested_sub_algorithms
    validate_nested_sub_algorithms-NestedAccepted owner inputs payload [] h = tt
    validate_nested_sub_algorithms-NestedAccepted owner inputs payload (input ∷ definitions) h =
        let values_of = as_array (get_field input.key payload) in
        let shared_of = shared_keys_of input in
        elim (Option-cases shared_of) [
          | inl n ↦ (
            subst
                (λ o.
                  ListAccepted (record { definition = owner; input = input }) inputs o values_of)
                (sym n) tt,
            validate_nested_sub_algorithms-NestedAccepted owner inputs payload definitions
                (ground (arith, h, n)),
          )
          | inr (shared, e) ↦ elim (Option-cases values_of) [
            | inl n ↦ (
              subst
                  (λ o.
                    ListAccepted (record { definition = owner; input = input }) inputs o values_of)
                  (sym e)
                  (subst
                    (ListAccepted (record { definition = owner; input = input }) inputs
                      (some shared))
                    (sym n) tt),
              validate_nested_sub_algorithms-NestedAccepted owner inputs payload definitions
                  (ground (arith, h, e, n)),
            )
            | inr (values, f) ↦
                let (first, others) =
                  append_nothing
                    (entries_issues context validate (record { definition = owner; input = input })
                      shared inputs 0 values)
                    (validate_nested_sub_algorithms context validate owner inputs payload
                      definitions)
                    (ground (arith, h, e, f)) in
                (
                  subst
                      (λ o.
                        ListAccepted (record { definition = owner; input = input }) inputs o
                          values_of)
                      (sym e)
                      (subst
                        (ListAccepted (record { definition = owner; input = input }) inputs
                          (some shared))
                        (sym f)
                        (entries_issues-EntriesAccepted
                          (record { definition = owner; input = input }) shared inputs 0 values
                          first)),
                  validate_nested_sub_algorithms-NestedAccepted owner inputs payload definitions
                      others,
                )
          ]
        ]

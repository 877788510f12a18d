-- ===== src/Orchestrator/Children.antt =====
-- The presets of the children of a combined algorithm (orchestrator-input.utils.ts).
use reputo.Prelude.{
  ◌≡◌, refl, subst, ◌∙◌, String, true, false, not, none, some, if◌then◌else◌, List, [], ◌∷◌, ◌++◌,
  any, keep, map, append_assoc, append-nil, All, Bool-cases, Option-cases, inl, inr, arith, str_eq,
  str_eq_iff,
}
use reputo.Tokens.Transfers.{has}
use reputo.Values.{Value, PresetInput, input_value, as_array}
use reputo.Orchestrator.Model.{Preset, DefinitionInput, is_text}
use reputo.Orchestrator.Presets.{
  child_presets_of, shares, as_sub_algorithm_entry, build_combined_child_algorithm_presets,
}

input_value-append :
    (k : String) (xs ys : List PresetInput)
    → any (λ input. str_eq input.key k) xs ≡ false
    → input_value k (xs ++ ys) ≡ input_value k ys
unfolding input_value
input_value-append k [] ys h = refl
input_value-append k (x ∷ xs) ys h = ground (arith, input_value-append k xs ys, h)

module _ (shared : List String) (k : String) where
  unshared_absent :
      (inputs : List PresetInput)
      → has shared k ≡ true
      → any (λ input. str_eq input.key k) (keep (λ input. not (shares shared input)) inputs) ≡ false
  unshared_absent [] h = refl
  unshared_absent (input ∷ inputs) h =
      ground (arith, unshared_absent inputs h, str_eq_iff input.key k, h)

  shared_present :
      (inputs : List PresetInput)
      → has shared k ≡ true
      → input_value k (keep (shares shared) inputs) ≡ input_value k inputs
  unfolding input_value
  shared_present [] h = refl
  shared_present (input ∷ inputs) h =
      ground (arith, shared_present inputs h, str_eq_iff input.key k, h)

child_presets_of-Shared :
    (shared : List String) (k : String) (inputs : List PresetInput) (entries : List Value)
    → has shared k ≡ true
    → All
        (λ child. input_value k child.inputs ≡ input_value k inputs)
        (child_presets_of shared (keep (shares shared) inputs) entries)
unfolding child_presets_of
child_presets_of-Shared shared k inputs [] h = tt
child_presets_of-Shared shared k inputs (entry ∷ entries) h =
    let rest = child_presets_of-Shared shared k inputs entries h in
    let parents = keep (shares shared) inputs in
    let Agrees : List Preset → Type 0 =
      All (λ child. input_value k child.inputs ≡ input_value k inputs) in
    elim (Option-cases (as_sub_algorithm_entry entry)) [
      | inl n ↦
          let answer : child_presets_of shared parents entries
              ≡ child_presets_of shared parents (entry ∷ entries) =
            ground (arith, n) in
          subst Agrees answer rest
      | inr (child, e) ↦
          let own = keep (λ input. not (shares shared input)) child.inputs in
          let answer : (record child { inputs = own ++ parents })
                ∷ child_presets_of shared parents entries
              ≡ child_presets_of shared parents (entry ∷ entries) =
            ground (arith, e) in
          subst Agrees answer (
            input_value-append k own parents (unshared_absent shared k child.inputs h)
                ∙ shared_present shared k inputs h,
            rest,
          )
    ]

-- The keys of the entries of an input that nests algorithms.
abbrev pub entry_keys : List Value → List String
entry_keys [] = []
entry_keys (entry ∷ entries) = elim (as_sub_algorithm_entry entry) [
  | none ↦ entry_keys entries
  | some child ↦ child.key ∷ entry_keys entries
]

abbrev pub nested_keys : List PresetInput → DefinitionInput → List String
nested_keys inputs definition =
    if is_text "sub_algorithm" definition.type
    then (elim (as_array (input_value definition.key inputs)) [
      | none ↦ []
      | some entries ↦ entry_keys entries
    ])
    else []

child_presets_of-keys :
    (shared : List String) (parents : List PresetInput) (entries : List Value)
    → map (λ (child : Preset). child.key) (child_presets_of shared parents entries)
      ≡ entry_keys entries
unfolding child_presets_of
child_presets_of-keys shared parents [] = refl
child_presets_of-keys shared parents (entry ∷ entries) =
    ground (arith, child_presets_of-keys shared parents entries)

build_one-keys :
    (inputs : List PresetInput) (definition : DefinitionInput)
    → map
        (λ (child : Preset). child.key)
        (build_combined_child_algorithm_presets inputs (definition ∷ []))
      ≡ nested_keys inputs definition
unfolding build_combined_child_algorithm_presets
build_one-keys inputs definition =
    let shared = definition.shared_input_keys in
    let parents = keep (shares shared) inputs in
    elim (Bool-cases (is_text "sub_algorithm" definition.type)) [
      | inr f ↦ ground (arith, f)
      | inl t ↦ elim (Option-cases (as_array (input_value definition.key inputs))) [
        | inl n ↦ ground (arith, t, n)
        | inr (entries, e) ↦
            let children = child_presets_of shared parents entries in
            ground (arith, t, e, append-nil children, child_presets_of-keys shared parents entries)
      ]
    ]

build_one-Shared :
    (inputs : List PresetInput) (definition : DefinitionInput) (k : String)
    → has definition.shared_input_keys k ≡ true
    → All
        (λ (child : Preset). input_value k child.inputs ≡ input_value k inputs)
        (build_combined_child_algorithm_presets inputs (definition ∷ []))
unfolding build_combined_child_algorithm_presets
build_one-Shared inputs definition k h =
    let shared = definition.shared_input_keys in
    let Agrees : List Preset → Type 0 =
      All (λ child. input_value k child.inputs ≡ input_value k inputs) in
    let whole = build_combined_child_algorithm_presets inputs (definition ∷ []) in
    elim (Bool-cases (is_text "sub_algorithm" definition.type)) [
      | inr f ↦ let answer : [] ≡ whole = ground (arith, f) in subst Agrees answer tt
      | inl t ↦ elim (Option-cases (as_array (input_value definition.key inputs))) [
        | inl n ↦ let answer : [] ≡ whole = ground (arith, t, n) in subst Agrees answer tt
        | inr (entries, e) ↦
            let children = child_presets_of shared (keep (shares shared) inputs) entries in
            let answer : children ≡ whole = ground (arith, t, e, append-nil children) in
            subst Agrees answer (child_presets_of-Shared shared k inputs entries h)
      ]
    ]

build-append :
    (inputs : List PresetInput) (before after : List DefinitionInput)
    → build_combined_child_algorithm_presets inputs (before ++ after)
      ≡ build_combined_child_algorithm_presets inputs before
        ++ build_combined_child_algorithm_presets inputs after
unfolding build_combined_child_algorithm_presets
build-append inputs [] after = refl
build-append inputs (definition ∷ before) after =
    let later = build_combined_child_algorithm_presets inputs after in
    let between = build_combined_child_algorithm_presets inputs before in
    let rest = build-append inputs before after in
    let shared = definition.shared_input_keys in
    elim (Bool-cases (is_text "sub_algorithm" definition.type)) [
      | inr f ↦ ground (arith, f, rest)
      | inl t ↦ elim (Option-cases (as_array (input_value definition.key inputs))) [
        | inl n ↦ ground (arith, t, n, rest)
        | inr (entries, e) ↦
            let children = child_presets_of shared (keep (shares shared) inputs) entries in
            ground (arith, t, e, rest, append_assoc children between later)
      ]
    ]

-- The children of a combined algorithm are those of its inputs, one input after the other. Those of
-- an input have the keys of its entries that are algorithms, in their order, if it nests algorithms,
-- and are none if it does not; and each of them has, for a key that the input shares, the parent's
-- value, whatever its own entry says.
pub build_combined_child_algorithm_presets-Shared :
    (inputs : List PresetInput) (before : List DefinitionInput) (definition : DefinitionInput)
    (after : List DefinitionInput) (k : String)
    → has definition.shared_input_keys k ≡ true
    → let own = build_combined_child_algorithm_presets inputs (definition ∷ []) in
      (build_combined_child_algorithm_presets inputs (before ++ definition ∷ after)
        ≡ build_combined_child_algorithm_presets inputs before
          ++ own
          ++ build_combined_child_algorithm_presets inputs after)
      × (map (λ (child : Preset). child.key) own ≡ nested_keys inputs definition)
      × All (λ (child : Preset). input_value k child.inputs ≡ input_value k inputs) own
build_combined_child_algorithm_presets-Shared inputs before definition after k h =
    let own = build_combined_child_algorithm_presets inputs (definition ∷ []) in
    let later = build_combined_child_algorithm_presets inputs after in
    let first = build_combined_child_algorithm_presets inputs before in
    let split = build-append inputs before (definition ∷ after) in
    let next = build-append inputs (definition ∷ []) after in
    (
      ground (arith, split, next, append_assoc first own later),
      build_one-keys inputs definition,
      build_one-Shared inputs definition k h,
    )

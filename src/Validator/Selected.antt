-- ===== src/Validator/Selected.antt =====
-- The selections of a payload that passes (packages/algorithm-validator/src/validation.ts).
use mathlib.Core.List.{Memᴰ}
use reputo.Prelude.{
  String, str_eq, str_eq_iff, false, ℕ, ◌+◌, ◌≡◌, ◌⊎◌, inl, inr, String, true, Bool-cases, Option,
  none, some, Option-cases, List, [], ◌∷◌, All, arith, sym, subst,
}
use reputo.Values.{as_text, Value, object, Fields, get_field, as_array}
use reputo.Values.Texts.{trim, is_empty, is_blank}
use reputo.Validator.Passed.{append_nothing, find-found}
use reputo.Validator.Properties.{Resource, Chain}
use reputo.Validator.Presets.{InputDefinition}
use reputo.Validator.Payloads.{
  trimmed_text, find_chain, find_resource, row_issues, rows_issues,
  validate_resource_selector_field_constraints, validate_resource_selector_constraints,
}

-- No text, or a blank one.
abbrev pub IsUnset : Value → Type 0
IsUnset value = elim (as_text value) [ none ↦ Unit | some s ↦ is_blank s ≡ true ]

-- A value whose trimmed text is the key.
abbrev pub Names : Value → String → Type 0
Names value key = (s : String) × (as_text value ≡ some s) × (key ≡ trim s)

-- An item that is no record, or selects nothing yet; or a chain of the catalog and a resource of it.
abbrev pub RowSelected : List Chain → Value → Type 0
RowSelected catalog (object fs) =
    IsUnset (get_field "chain" fs)
    ⊎ IsUnset (get_field "resource_key" fs)
    ⊎ ((chain : Chain) × (resource : Resource) × Memᴰ chain catalog
        × Memᴰ resource chain.resources
        × Names (get_field "chain" fs) chain.key
        × Names (get_field "resource_key" fs) resource.key)
RowSelected catalog _ = Unit

IsUnset-cases :
    (value : Value)
    → IsUnset value ⊎ ((is_empty (trimmed_text value) ≡ false) × Names value (trimmed_text value))
IsUnset-cases value = elim (Option-cases (as_text value)) [
  | inl n ↦ inl (ground (arith, n))
  | inr (s, e) ↦ elim (Bool-cases (is_empty (trim s))) [
    | inl t ↦ inl (ground (arith, e, t))
    | inr f ↦ inr (ground (arith, e, f), (s, e, ground (arith, e)))
  ]
]

abbrev pub RowsSelected : Option (List Chain) → Option (List Value) → Type 0
RowsSelected none values = Unit
RowsSelected (some catalog) none = Unit
RowsSelected (some catalog) (some values) = All (RowSelected catalog) values

abbrev pub ResourcesSelected : List InputDefinition → Fields → Type 0
ResourcesSelected [] payload = Unit
ResourcesSelected (input ∷ inputs) payload =
    RowsSelected input.hints.resource_catalog (as_array (get_field input.key payload))
    × ResourcesSelected inputs payload

module _ (print : ℕ → String) (show : Value → String) where
  row_issues-RowSelected :
      (path : String) (catalog : List Chain) (index : ℕ) (value : Value)
      → row_issues print show path catalog index value ≡ []
      → RowSelected catalog value
  unfolding row_issues
  row_issues-RowSelected path catalog index (object fs) h =
      let chain_key = trimmed_text (get_field "chain" fs) in
      let resource_key = trimmed_text (get_field "resource_key" fs) in
      elim (IsUnset-cases (get_field "chain" fs)) [
        | inl unset ↦ inl unset
        | inr (filled, named) ↦ elim (IsUnset-cases (get_field "resource_key" fs)) [
          | inl unset ↦ inr (inl unset)
          | inr (filled', named') ↦ elim (Option-cases (find_chain chain_key catalog)) [
            | inl n ↦ ground (arith, h, filled, filled', n)
            | inr (chain, e) ↦ elim (Option-cases (find_resource resource_key chain.resources)) [
              | inl n ↦ ground (arith, h, filled, filled', e, n)
              | inr (resource, g) ↦
                  let (listed, is) = find-found (λ (c : Chain). str_eq c.key chain_key) catalog e in
                  let (listed', is') =
                    find-found (λ (r : Resource). str_eq r.key resource_key) chain.resources g in
                  inr (
                    inr (
                      chain,
                      resource,
                      listed,
                      listed',
                      subst (Names (get_field "chain" fs))
                          (sym ((str_eq_iff chain.key chain_key).0 is)) named,
                      subst (Names (get_field "resource_key" fs))
                          (sym ((str_eq_iff resource.key resource_key).0 is')) named',
                    ))
            ]
          ]
        ]
      ]
  row_issues-RowSelected path catalog index _ h = tt

  rows_issues-RowsSelected :
      (path : String) (catalog : List Chain) (index : ℕ) (values : List Value)
      → rows_issues print show path catalog index values ≡ []
      → All (RowSelected catalog) values
  unfolding rows_issues
  rows_issues-RowsSelected path catalog index [] h = tt
  rows_issues-RowsSelected path catalog index (value ∷ values) h =
      let (first, others) =
        append_nothing (row_issues print show path catalog index value)
          (rows_issues print show path catalog (index + 1) values) h in
      (
        row_issues-RowSelected path catalog index value first,
        rows_issues-RowsSelected path catalog (index + 1) values others,
      )

  field-RowsSelected :
      (path : String) (catalog : Option (List Chain)) (value : Value)
      → validate_resource_selector_field_constraints print show path catalog value ≡ []
      → RowsSelected catalog (as_array value)
  unfolding validate_resource_selector_field_constraints
  field-RowsSelected path none value h = tt
  field-RowsSelected path (some catalog) value h = elim (Option-cases (as_array value)) [
    | inl n ↦ subst (RowsSelected (some catalog)) (sym n) tt
    | inr (values, e) ↦
        subst (RowsSelected (some catalog)) (sym e)
          (rows_issues-RowsSelected path catalog 0 values (ground (arith, h, e)))
  ]

  pub constraints-ResourcesSelected :
      (inputs : List InputDefinition) (payload : Fields)
      → validate_resource_selector_constraints print show inputs payload ≡ []
      → ResourcesSelected inputs payload
  unfolding validate_resource_selector_constraints
  constraints-ResourcesSelected [] payload h = tt
  constraints-ResourcesSelected (input ∷ inputs) payload h =
      let (first, others) =
        append_nothing
          (validate_resource_selector_field_constraints print show input.key
            input.hints.resource_catalog (get_field input.key payload))
          (validate_resource_selector_constraints print show inputs payload) h in
      (
        field-RowsSelected input.key input.hints.resource_catalog (get_field input.key payload)
            first,
        constraints-ResourcesSelected inputs payload others,
      )

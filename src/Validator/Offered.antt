-- ===== src/Validator/Offered.antt =====
-- The options of a payload that passes (packages/algorithm-validator/src/validation.ts).
use mathlib.Core.List.{Memᴰ}
use reputo.Prelude.{
  refl, Bool-cases, str_eq, str_eq_iff, or_else, ◌&&◌, ℕ, ◌+◌, ◌≡◌, ◌≢◌, ◌⊎◌, inl, inr, String,
  true, not, Option, none, some, Option-cases, List, [], ◌∷◌, All, all, Result, err, ok, arith, sym,
  subst,
}
use reputo.Values.{Value, object, Fields, get_field, as_text, as_array}
use reputo.Values.Texts.{is_blank}
use reputo.Validator.Passed.{append_nothing}
use reputo.Validator.Properties.{FieldOption, Hints, Properties, no_property, single, array_of}
use reputo.Validator.Presets.{InputDefinition, Issue}
use reputo.Validator.Payloads.{
  shown, dependency_key, matches_filters, option_matches_context, spread, is_conditional,
  is_offered, option_issues, items_issues, item_path, join_key, properties_issues,
  validate_field_option_constraints, validate_conditional_option_constraints,
  validate_resource_selector_constraints, validate_payload,
}
use reputo.Validator.Selected.{ResourcesSelected, constraints-ResourcesSelected}

abbrev pub ItemSelected : (Fields → Type 0) → Value → Type 0
ItemSelected P (object fs) = P fs
ItemSelected P _ = Unit

abbrev pub ItemsSelected : (Fields → Type 0) → Option (List Value) → Type 0
ItemsSelected P none = Unit
ItemsSelected P (some values) = All (ItemSelected P) values

items-ItemsSelected :
    {P : Fields → Type 0} (check : String → Fields → List Issue) (at : ℕ → String) (index : ℕ)
    (values : List Value)
    → ((path : String) (fs : Fields) → check path fs ≡ [] → P fs)
    → items_issues check at index values ≡ []
    → All (ItemSelected P) values
unfolding items_issues
items-ItemsSelected check at index [] step h = tt
items-ItemsSelected check at index (object fs ∷ values) step h =
    let (first, others) =
      append_nothing (check (at index) fs) (items_issues check at (index + 1) values) h in
    (step (at index) fs first, items-ItemsSelected check at (index + 1) values step others)
items-ItemsSelected check at index (_ ∷ values) step h =
    (tt, items-ItemsSelected check at (index + 1) values step h)

module _ (print : ℕ → String) (show : Value → String) where
  -- The context has the value at each key.
  abbrev pub FiltersFit : List (String × String) → Fields → Type 0
  FiltersFit [] context = Unit
  FiltersFit ((key, value) ∷ filters) context =
      (shown print show (get_field key context) ≡ value) × FiltersFit filters context

  -- An option fits by its filters, if it has some, or else by what it is filtered by, if by anything.
  abbrev pub FitsBy : List (String × String) → Option String → Hints → Fields → Type 0
  FitsBy (filter ∷ filters) by hints context = FiltersFit (filter ∷ filters) context
  FitsBy [] none hints context = Unit
  FitsBy [] (some value) hints context =
      shown print show (get_field (dependency_key hints) context) ≡ value

  -- No text that is selected among conditional options, or the value of one that fits the context.
  abbrev pub OptionSelected : Hints → Fields → Option (List FieldOption) → Option String → Type 0
  OptionSelected hints context none value = Unit
  OptionSelected hints context (some options) none = Unit
  OptionSelected hints context (some options) (some s) =
      (is_blank s ≡ true)
      ⊎ All (λ (o : FieldOption). (o.filter_by ≡ none) × (o.filters ≡ none)) options
      ⊎ ((option : FieldOption) × Memᴰ option options
          × (option.value ≡ s)
          × FitsBy (or_else option.filters []) option.filter_by hints context)

  matches_filters-FiltersFit :
      (filters : List (String × String)) (context : Fields)
      → matches_filters print show filters context ≡ true
      → FiltersFit filters context
  unfolding matches_filters
  matches_filters-FiltersFit [] context h = tt
  matches_filters-FiltersFit ((key, value) ∷ filters) context h = (
    (str_eq_iff (shown print show (get_field key context)) value).0 (ground (arith, h)),
    matches_filters-FiltersFit filters context (ground (arith, h)),
  )

  fits_by :
      (filters : List (String × String)) (option : FieldOption) (hints : Hints) (context : Fields)
      → or_else option.filters [] ≡ filters
      → option_matches_context print show option hints context ≡ true
      → FitsBy filters option.filter_by hints context
  unfolding option_matches_context
  fits_by (filter ∷ filters) option hints context e h =
      matches_filters-FiltersFit (filter ∷ filters) context (ground (arith, e, h))
  fits_by [] option hints context e h = elim (Option-cases option.filter_by) [
    | inl n ↦ subst (λ o. FitsBy [] o hints context) (sym n) tt
    | inr (value, f) ↦
        subst (λ o. FitsBy [] o hints context) (sym f)
          ((str_eq_iff (shown print show (get_field (dependency_key hints) context)) value).0
            (ground (arith, e, f, h)))
  ]

  is_offered-found :
      (options : List FieldOption) (hints : Hints) (context : Fields) (s : String)
      → is_offered print show options hints context s ≡ true
      → (option : FieldOption) × Memᴰ option options
        × (option.value ≡ s)
        × FitsBy (or_else option.filters []) option.filter_by hints context
  unfolding is_offered
  is_offered-found [] hints context s h = ground (arith, h)
  is_offered-found (option ∷ options) hints context s h =
      let fits = option_matches_context print show option hints context in
      elim (Bool-cases (fits && str_eq option.value s)) [
        | inl t ↦ (
          option,
          Memᴰ.head refl,
          (str_eq_iff option.value s).0 (ground (arith, t)),
          fits_by (or_else option.filters []) option hints context refl (ground (arith, t)),
        )
        | inr n ↦
            let (found, m, same, by) =
              is_offered-found options hints context s (ground (arith, h, n)) in
            (found, Memᴰ.tail m, same, by)
      ]

  unconditional :
      (options : List FieldOption)
      → all (λ option. not (is_conditional option)) options ≡ true
      → All (λ (o : FieldOption). (o.filter_by ≡ none) × (o.filters ≡ none)) options
  unconditional [] h = tt
  unconditional (option ∷ options) h =
      ((ground (arith, h), ground (arith, h)), unconditional options (ground (arith, h)))

  abbrev pub PropertiesSelected : Properties → Fields → Fields → Type 0
  PropertiesSelected no_property context fs = Unit
  PropertiesSelected (single key hints rest) context fs =
      OptionSelected hints context hints.options (as_text (get_field key fs))
      × PropertiesSelected rest context fs
  PropertiesSelected (array_of key items rest) context fs =
      ItemsSelected (λ gs. PropertiesSelected items (spread context gs) gs)
        (as_array (get_field key fs))
      × PropertiesSelected rest context fs

  abbrev pub InputSelected : InputDefinition → Fields → Option Properties → Type 0
  InputSelected input payload none =
      OptionSelected input.hints payload input.hints.options (as_text (get_field input.key payload))
  InputSelected input payload (some items) =
      ItemsSelected (λ gs. PropertiesSelected items (spread payload gs) gs)
        (as_array (get_field input.key payload))

  abbrev pub OptionsSelected : List InputDefinition → Fields → Type 0
  OptionsSelected [] payload = Unit
  OptionsSelected (input ∷ inputs) payload =
      InputSelected input payload input.items × OptionsSelected inputs payload

  option-OptionSelected :
      (path key : String) (hints : Hints) (context : Fields) (value : Value)
      → option_issues print show path key hints context value ≡ []
      → OptionSelected hints context hints.options (as_text value)
  unfolding option_issues
  option-OptionSelected path key hints context value h = elim (Option-cases hints.options) [
    | inl n ↦ subst (λ o. OptionSelected hints context o (as_text value)) (sym n) tt
    | inr (options, e) ↦ elim (Option-cases (as_text value)) [
      | inl n ↦
          subst (λ o. OptionSelected hints context o (as_text value)) (sym e)
            (subst (OptionSelected hints context (some options)) (sym n) tt)
      | inr (s, f) ↦
          subst (λ o. OptionSelected hints context o (as_text value)) (sym e)
            (subst (OptionSelected hints context (some options)) (sym f)
              (elim (Bool-cases (is_blank s)) [
                | inl t ↦ inl t
                | inr filled ↦
                    let plain = all (λ option. not (is_conditional option)) options in
                    elim (Bool-cases plain) [
                      | inl t ↦ inr (inl (unconditional options t))
                      | inr some_conditional ↦ inr (
                          inr (
                            is_offered-found options hints context s
                              (ground (arith, h, e, f, filled, some_conditional))))
                    ]
              ]))
    ]
  ]

  properties-PropertiesSelected :
      (properties : Properties) (context fs : Fields) (path : String)
      → properties_issues print show properties context path fs ≡ []
      → PropertiesSelected properties context fs
  unfolding properties_issues
  properties-PropertiesSelected no_property context fs path h = tt
  properties-PropertiesSelected (single key hints rest) context fs path h =
      let (first, others) =
        append_nothing
          (option_issues print show (join_key path key) key hints context (get_field key fs))
          (properties_issues print show rest context path fs) h in
      (
        option-OptionSelected (join_key path key) key hints context (get_field key fs) first,
        properties-PropertiesSelected rest context fs path others,
      )
  properties-PropertiesSelected (array_of key items rest) context fs path h =
      let later = properties-PropertiesSelected rest context fs path in
      let Selected = ItemsSelected (λ gs. PropertiesSelected items (spread context gs) gs) in
      let below : (p : String) (gs : Fields)
          → properties_issues print show items (spread context gs) p gs ≡ []
          → PropertiesSelected items (spread context gs) gs =
        λ p gs. properties-PropertiesSelected items (spread context gs) gs p in
      elim (Option-cases (as_array (get_field key fs))) [
        | inl n ↦ (subst Selected (sym n) tt, later (ground (arith, h, n)))
        | inr (values, e) ↦
            let (first, others) =
              append_nothing
                (items_issues (λ p gs. properties_issues print show items (spread context gs) p gs)
                  (item_path print show (join_key path key)) 0 values)
                (properties_issues print show rest context path fs) (ground (arith, h, e)) in
            (
              subst Selected (sym e) (
                  items-ItemsSelected
                    (λ p gs. properties_issues print show items (spread context gs) p gs)
                    (item_path print show (join_key path key)) 0 values below first),
              later others,
            )
      ]

  input-InputSelected :
      (input : InputDefinition) (payload : Fields)
      → validate_field_option_constraints print show input payload ≡ []
      → InputSelected input payload input.items
  unfolding validate_field_option_constraints
  input-InputSelected input payload h = elim (Option-cases input.items) [
    | inl n ↦ subst (InputSelected input payload) (sym n) (
        option-OptionSelected input.key input.key input.hints payload (get_field input.key payload)
          (ground (arith, h, n)))
    | inr (items, e) ↦
        let Selected = ItemsSelected (λ gs. PropertiesSelected items (spread payload gs) gs) in
        subst (InputSelected input payload) (sym e)
          (elim (Option-cases (as_array (get_field input.key payload))) [
            | inl n ↦ subst Selected (sym n) tt
            | inr (values, f) ↦ subst Selected (sym f) (
                items-ItemsSelected
                  (λ p gs. properties_issues print show items (spread payload gs) p gs)
                  (item_path print show input.key) 0 values
                  (λ p gs. properties-PropertiesSelected items (spread payload gs) gs p)
                  (ground (arith, h, e, f)))
          ])
  ]

  constraints-OptionsSelected :
      (inputs : List InputDefinition) (payload : Fields)
      → validate_conditional_option_constraints print show inputs payload ≡ []
      → OptionsSelected inputs payload
  unfolding validate_conditional_option_constraints
  constraints-OptionsSelected [] payload h = tt
  constraints-OptionsSelected (input ∷ inputs) payload h =
      let (first, others) =
        append_nothing (validate_field_option_constraints print show input payload)
          (validate_conditional_option_constraints print show inputs payload) h in
      (input-InputSelected input payload first, constraints-OptionsSelected inputs payload others)

  -- What the schema reads is the payload, with its options and resources selected.
  abbrev pub IsPayload : Result (List Issue) Fields → List InputDefinition → Fields → Type 0
  IsPayload read inputs payload =
      (read ≡ ok payload) × OptionsSelected inputs payload × ResourcesSelected inputs payload

  pub validate_payload-IsPayload :
      (read : Result (List Issue) Fields) (inputs : List InputDefinition) (payload : Fields)
      → validate_payload print show read inputs ≡ ok payload
      → IsPayload read inputs payload
  unfolding validate_payload
  validate_payload-IsPayload (err issues) inputs payload h = ground (arith, h)
  validate_payload-IsPayload (ok seen) inputs payload h =
      let (no_option, no_resource) =
        append_nothing (validate_conditional_option_constraints print show inputs seen)
          (validate_resource_selector_constraints print show inputs seen) (ground (arith, h)) in
      let same : seen ≡ payload = ground (arith, h) in
      (
        ground (arith, same),
        subst (OptionsSelected inputs) same (constraints-OptionsSelected inputs seen no_option),
        subst (ResourcesSelected inputs) same
            (constraints-ResourcesSelected print show inputs seen no_resource),
      )

  pub validate_payload_explained :
      (read : Result (List Issue) Fields) (inputs : List InputDefinition)
      → read ≢ err []
      → validate_payload print show read inputs ≢ err []
  unfolding validate_payload
  validate_payload_explained (err issues) inputs explained h = explained h
  validate_payload_explained (ok seen) inputs explained h = ground (arith, h)

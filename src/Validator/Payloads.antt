-- ===== src/Validator/Payloads.antt =====
-- packages/algorithm-validator/src/validation.ts: the constraints on a payload that passed its
-- schema: what is selected must be an option that fits, and a resource of the catalog.
use reputo.Prelude.{
  ℕ, ◌+◌, String, Bool, true, false, not, ◌&&◌, ◌||◌, Option, none, some, is_some, or_else, List,
  [], ◌∷◌, ◌++◌, all, find, str_eq, str_append, Result, err, ok, if◌then◌else◌,
}
use reputo.Values.{Value, undefined, null, object, Fields, end, field, get_field, as_text, as_array}
use reputo.Values.Texts.{trim, is_empty, is_blank}
use reputo.Validator.Properties.{
  FieldOption, Resource, Chain, Hints, Properties, no_property, single, array_of,
}
use reputo.Validator.Presets.{
  InputDefinition, Problem, unknown_chain, unknown_resource, stale_option, Issue, from_payload, put,
}

-- `typeof value === 'string' ? value.trim() : ''`
abbrev pub trimmed_text : Value → String
trimmed_text value = elim (as_text value) [ none ↦ "" | some s ↦ trim s ]

abbrev pub find_chain : String → List Chain → Option Chain
find_chain key = find (λ (chain : Chain). str_eq chain.key key)

abbrev pub find_resource : String → List Resource → Option Resource
find_resource key = find (λ (resource : Resource). str_eq resource.key key)

-- `{ ...context, ...item }`
unfoldable pub spread : Fields → Fields → Fields
unfolding put
spread context end = context
spread context (field key value fs) = spread (put key value context) fs

-- The key that `filterBy` is compared at; of an empty list the first element is undefined.
abbrev pub dependency_key : Hints → String
dependency_key hints = elim hints.depends_on [
  | none ↦ "chain"
  | some [] ↦ "undefined"
  | some (key ∷ _) ↦ key
]

abbrev pub is_conditional : FieldOption → Bool
is_conditional option = is_some option.filter_by || is_some option.filters

-- The items of an array that are records, each checked at its path.
unfoldable pub items_issues :
    (String → Fields → List Issue) → (ℕ → String) → ℕ → List Value → List Issue
items_issues check path index [] = []
items_issues check path index (object fs ∷ values) =
    check (path index) fs ++ items_issues check path (index + 1) values
items_issues check path index (_ ∷ values) = items_issues check path (index + 1) values

abbrev pub join_key : String → String → String
join_key path key = str_append path (str_append "." key)

abbrev pub payload_issue : String → Problem → Issue
payload_issue path problem = record { field = path; problem = problem; source = from_payload }

-- `print` prints an index, `show` is `String(value)`.
module _ (print : ℕ → String) (show : Value → String) where
  abbrev pub under : String → ℕ → String → String
  under path index name =
      str_append path (str_append "." (str_append (print index) (str_append "." name)))

  -- An item of a resource selector.
  unfoldable pub row_issues : String → List Chain → ℕ → Value → List Issue
  row_issues path catalog index (object fs) =
      let chain_key = trimmed_text (get_field "chain" fs) in
      let resource_key = trimmed_text (get_field "resource_key" fs) in
      if is_empty chain_key || is_empty resource_key
      then []
      else (elim (find_chain chain_key catalog) [
        | none ↦ payload_issue (under path index "chain") unknown_chain ∷ []
        | some chain ↦ elim (find_resource resource_key chain.resources) [
          | none ↦ payload_issue (under path index "resource_key") unknown_resource ∷ []
          | some _ ↦ []
        ]
      ])
  row_issues path catalog index _ = []

  unfoldable pub rows_issues : String → List Chain → ℕ → List Value → List Issue
  unfolding row_issues
  rows_issues path catalog index [] = []
  rows_issues path catalog index (value ∷ values) =
      row_issues path catalog index value ++ rows_issues path catalog (index + 1) values

  unfoldable pub validate_resource_selector_field_constraints :
      String → Option (List Chain) → Value → List Issue
  unfolding rows_issues
  validate_resource_selector_field_constraints path none value = []
  validate_resource_selector_field_constraints path (some catalog) value = elim (as_array value) [
    | none ↦ []
    | some values ↦ rows_issues path catalog 0 values
  ]

  unfoldable pub validate_resource_selector_constraints : List InputDefinition → Fields → List Issue
  unfolding validate_resource_selector_field_constraints
  validate_resource_selector_constraints [] payload = []
  validate_resource_selector_constraints (input ∷ inputs) payload =
      validate_resource_selector_field_constraints input.key input.hints.resource_catalog
        (get_field input.key payload)
      ++ validate_resource_selector_constraints inputs payload

  -- `String(value ?? '')`
  abbrev pub shown : Value → String
  shown undefined = ""
  shown null = ""
  shown value = show value

  unfoldable pub matches_filters : List (String × String) → Fields → Bool
  matches_filters [] context = true
  matches_filters ((key, value) ∷ filters) context =
      str_eq (shown (get_field key context)) value && matches_filters filters context

  unfoldable pub option_matches_context : FieldOption → Hints → Fields → Bool
  unfolding matches_filters
  option_matches_context option hints context = elim (or_else option.filters []) [
    | filter ∷ filters ↦ matches_filters (filter ∷ filters) context
    | [] ↦ elim option.filter_by [
      | none ↦ true
      | some value ↦ str_eq (shown (get_field (dependency_key hints) context)) value
    ]
  ]

  -- An option with the value that fits the context is offered.
  unfoldable pub is_offered : List FieldOption → Hints → Fields → String → Bool
  unfolding option_matches_context
  is_offered [] hints context value = false
  is_offered (option ∷ options) hints context value =
      (option_matches_context option hints context && str_eq option.value value)
      || is_offered options hints context value

  unfoldable pub option_issues : String → String → Hints → Fields → Value → List Issue
  unfolding is_offered
  option_issues path key hints context value = elim hints.options [
    | none ↦ []
    | some options ↦ elim (as_text value) [
      | none ↦ []
      | some s ↦
          if is_blank s
            || all (λ option. not (is_conditional option)) options
            || is_offered options hints context s
          then []
          else payload_issue path (stale_option (or_else hints.label key)) ∷ []
    ]
  ]

  -- `${path}.${index}`
  abbrev pub item_path : String → ℕ → String
  item_path path index = str_append path (str_append "." (print index))

  -- The properties of an item.
  unfoldable pub properties_issues : Properties → Fields → String → Fields → List Issue
  unfolding items_issues option_issues spread
  properties_issues no_property context path fs = []
  properties_issues (single key hints rest) context path fs =
      option_issues (join_key path key) key hints context (get_field key fs)
      ++ properties_issues rest context path fs
  properties_issues (array_of key items rest) context path fs =
      (elim (as_array (get_field key fs)) [
        | none ↦ []
        | some values ↦
            items_issues (λ p gs. properties_issues items (spread context gs) p gs)
              (item_path (join_key path key)) 0 values
      ])
      ++ properties_issues rest context path fs

  unfoldable pub validate_field_option_constraints : InputDefinition → Fields → List Issue
  unfolding properties_issues
  validate_field_option_constraints input payload = elim input.items [
    | none ↦ option_issues input.key input.key input.hints payload (get_field input.key payload)
    | some items ↦ elim (as_array (get_field input.key payload)) [
      | none ↦ []
      | some values ↦
          items_issues (λ p gs. properties_issues items (spread payload gs) p gs)
            (item_path input.key) 0 values
    ]
  ]

  unfoldable pub validate_conditional_option_constraints :
      List InputDefinition → Fields → List Issue
  unfolding validate_field_option_constraints
  validate_conditional_option_constraints [] payload = []
  validate_conditional_option_constraints (input ∷ inputs) payload =
      validate_field_option_constraints input payload
      ++ validate_conditional_option_constraints inputs payload

  -- `validatePayload`, where the schema answers with what it read or with its issues.
  unfoldable pub validate_payload :
      Result (List Issue) Fields → List InputDefinition → Result (List Issue) Fields
  unfolding validate_resource_selector_constraints validate_conditional_option_constraints
  validate_payload (err issues) inputs = err issues
  validate_payload (ok payload) inputs =
      elim (validate_conditional_option_constraints inputs payload
        ++ validate_resource_selector_constraints inputs payload) [
          | [] ↦ ok payload
          | issue ∷ issues ↦ err (issue ∷ issues)
        ]

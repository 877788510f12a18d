-- ===== src/Orchestrator/Targets.antt =====
-- apps/workflows/src/shared/utils/sync-targets.utils.ts, and the functions of orchestrator.workflow.ts
-- that collect what the sources of a run depend on.
use reputo.Prelude.{
  zero, String, Bool, true, false, Option, none, some, List, [], ◌∷◌, ◌++◌, find, Result, err, ok,
  ◌>>=◌, str_eq, str_append, ◌==◌, if◌then◌else◌,
}
use reputo.Tokens.Transfers.{has}
use reputo.Tokens.Firsts.{firsts}
use reputo.Values.{
  Value, undefined, null, boolean, number, text, array, object, nan, finite, get_field, elements,
  as_text, input_value, PresetInput,
}
use reputo.Values.Texts.{is_empty}
use reputo.Orchestrator.Model.{
  Preset, DefinitionInput, CatalogChain, CatalogResource, SyncTarget, DependencySource, Thrown,
}

-- `!value`
abbrev pub is_falsy : Value → Bool
is_falsy undefined = true
is_falsy null = true
is_falsy (boolean b) = elim b [ true ↦ false | false ↦ true ]
is_falsy (number nan) = true
is_falsy (number (finite _ whole fraction)) = elim (whole == 0) [
  | true ↦ fraction == 0
  | false ↦ false
]
is_falsy (text s) = is_empty s
is_falsy _ = false

-- `${chain}:${identifier.toLowerCase()}`
abbrev pub target_dedupe_key : (String → String) → SyncTarget → String
target_dedupe_key lower target = str_append target.chain (str_append ":" (lower target.identifier))

unfoldable pub in_chain : String → String → List CatalogResource → List SyncTarget
in_chain selected key [] = []
in_chain selected key (resource ∷ resources) =
    let rest = in_chain selected key resources in
    if str_eq resource.key key
    then (record { chain = selected; identifier = resource.token_identifier }) ∷ rest
    else rest

-- What a selection finds in the catalog, repeats included.
unfoldable pub selected_targets :
    Option String → Option String → List CatalogChain → List SyncTarget
selected_targets (some selected) (some key) (chain ∷ chains) =
    let rest = selected_targets (some selected) (some key) chains in
    let found = in_chain selected key chain.resources ++ rest in
    if str_eq chain.key selected then found else rest
selected_targets _ _ _ = []

module _ (type_error : Thrown) where
  -- `sel.chain` and `sel.resource_key` of an element, which are read for each chain.
  unfoldable pub targets_of_selection : List CatalogChain → Value → Result Thrown (List SyncTarget)
  targets_of_selection [] _ = ok []
  targets_of_selection (_ ∷ _) undefined = err type_error
  targets_of_selection (_ ∷ _) null = err type_error
  targets_of_selection (chain ∷ chains) (object fs) = ok (
      selected_targets (as_text (get_field "chain" fs)) (as_text (get_field "resource_key" fs))
        (chain ∷ chains))
  targets_of_selection (_ ∷ _) _ = ok []

  unfoldable pub targets_of_selections :
      List CatalogChain → List Value → Result Thrown (List SyncTarget)
  targets_of_selections chains [] = ok []
  targets_of_selections chains (selection ∷ selections) = do
    found ← targets_of_selection chains selection
    rest ← targets_of_selections chains selections
    ok (found ++ rest)

  -- The elements of `selectedResourcesRaw`: those of a text, its characters, have no chain.
  unfoldable pub selections_of : Value → Result Thrown (List Value)
  selections_of (array vs) = ok (elements vs)
  selections_of (text _) = ok []
  selections_of (object fs) = elim (get_field "length" fs) [
    | number (finite _ zero zero) ↦ ok []
    | _ ↦ err type_error
  ]
  selections_of _ = err type_error

  abbrev pub resources_catalog : List DefinitionInput → Option (List CatalogChain)
  resources_catalog inputs = elim (find (λ input. str_eq input.key "selected_resources") inputs) [
    | none ↦ none
    | some input ↦ input.catalog
  ]

  unfoldable pub extract_onchain_sync_targets :
      (String → String) → List PresetInput → List DefinitionInput → Result Thrown (List SyncTarget)
  extract_onchain_sync_targets lower inputs definition_inputs =
      let selected = input_value "selected_resources" inputs in
      elim (resources_catalog definition_inputs) [
        | none ↦ ok []
        | some chains ↦ if is_falsy selected then ok [] else (do
          selections ← selections_of selected
          found ← targets_of_selections chains selections
          ok (firsts (target_dedupe_key lower) [] found))
      ]

  -- The targets of every source that depends on on-chain data, before the repeats are dropped.
  unfoldable pub targets_of_sources :
      (String → String) → List DependencySource → Result Thrown (List SyncTarget)
  targets_of_sources lower [] = ok []
  targets_of_sources lower (source ∷ sources) =
      let rest = targets_of_sources lower sources in
      if has source.definition.dependencies "onchain-data"
      then (do
        found ← extract_onchain_sync_targets lower source.preset.inputs source.definition.inputs
        more ← rest
        ok (found ++ more))
      else rest

  unfoldable pub collect_onchain_sync_targets :
      (String → String) → List DependencySource → Result Thrown (List SyncTarget)
  unfolding targets_of_sources firsts
  collect_onchain_sync_targets lower sources = do
    found ← targets_of_sources lower sources
    ok (firsts (target_dedupe_key lower) [] found)

-- The dependencies that the sources declare, in their order, repeats included.
abbrev pub declared_dependencies : List DependencySource → List String
declared_dependencies [] = []
declared_dependencies (source ∷ sources) =
    source.definition.dependencies ++ declared_dependencies sources

unfoldable pub collect_dependency_keys : List DependencySource → List String
unfolding firsts
collect_dependency_keys sources = firsts (λ key. key) [] (declared_dependencies sources)

-- The preset of the first source that declares a dependency, or of the first one.
unfoldable pub find_dependency_preset : Preset → List DependencySource → String → Preset
find_dependency_preset first [] key = first
find_dependency_preset first (source ∷ sources) key =
    if has source.definition.dependencies key
    then source.preset
    else find_dependency_preset first sources key

-- The first result with a key that is not empty.
unfoldable pub pick_generated_dids_key : List (Option String) → Option String
pick_generated_dids_key [] = none
pick_generated_dids_key (none ∷ results) = pick_generated_dids_key results
pick_generated_dids_key (some key ∷ results) =
    if is_empty key then pick_generated_dids_key results else some key

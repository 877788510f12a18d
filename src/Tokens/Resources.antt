-- ===== src/Tokens/Resources.antt =====
-- utils/resource-catalog.ts: the resources of the algorithm that a preset selects. The catalog is an
-- argument; `lower` stands for `toLowerCase`, over all of Unicode.
use reputo.Prelude.{
  ℕ, String, Bool, true, false, ◌&&◌, Option, List, [], ◌∷◌, ◌++◌, map, keep, str_eq, str_append,
}
use reputo.Tokens.Firsts.{firsts}

pub data ResourceKind : Type 0 where
  token contract : ResourceKind

pub record ResourceCatalogEntry : Type 0 where
  pub chain : String
  pub key : String
  pub kind : ResourceKind
  pub identifier : String
  pub token_identifier : String
  pub token_key : String
  pub token_decimals : Option ℕ
  pub parent_resource_key : Option String

pub record SelectedResourceInput : Type 0 where
  pub chain : String
  pub resource_key : String

pub record ResolvedResource : Type 0 where
  pub chain : String
  pub resource_key : String
  pub kind : ResourceKind
  pub identifier : String
  pub token_identifier : String
  pub token_decimals : Option ℕ
  pub resource_id : String

abbrev pub is_contract : ResourceKind → Bool
is_contract token = false
is_contract contract = true

-- `catalog.filter(...)` of one selection
abbrev pub is_match : SelectedResourceInput → ResourceCatalogEntry → Bool
is_match sel entry = str_eq entry.chain sel.chain && str_eq entry.key sel.resource_key

-- the entries that the selections match, one selection after another
unfoldable pub matches :
    List SelectedResourceInput → List ResourceCatalogEntry → List ResourceCatalogEntry
matches [] catalog = []
matches (sel ∷ selected) catalog = keep (is_match sel) catalog ++ matches selected catalog

module _ (lower : String → String) where
  -- `${chain}:${identifier.toLowerCase()}`, which is also `buildResourceId`
  abbrev pub build_resource_id : String → String → String
  build_resource_id chain identifier = str_append chain (str_append ":" (lower identifier))

  abbrev pub dedupe_key : ResourceCatalogEntry → String
  dedupe_key entry = build_resource_id entry.chain entry.identifier

  abbrev pub resolved_of : ResourceCatalogEntry → ResolvedResource
  resolved_of entry = record {
    chain = entry.chain;
    resource_key = entry.key;
    kind = entry.kind;
    identifier = entry.identifier;
    token_identifier = entry.token_identifier;
    token_decimals = entry.token_decimals;
    resource_id = build_resource_id entry.chain entry.token_identifier;
  }

  unfoldable pub resolve_selected_resources :
      List SelectedResourceInput → List ResourceCatalogEntry → List ResolvedResource
  resolve_selected_resources selected catalog =
      map resolved_of (firsts dedupe_key [] (matches selected catalog))

  -- The addresses that staking transfers come from or go to.
  unfoldable pub get_staking_contract_addresses : List ResourceCatalogEntry → List String
  get_staking_contract_addresses [] = []
  get_staking_contract_addresses (entry ∷ catalog) =
      let rest = get_staking_contract_addresses catalog in
      elim entry.kind [ token ↦ rest | contract ↦ lower entry.identifier ∷ rest ]

  abbrev pub sync_key : ResolvedResource → String
  sync_key resource = build_resource_id resource.chain resource.token_identifier

  -- chain, identifier
  unfoldable pub get_sync_targets : List ResolvedResource → List (String × String)
  get_sync_targets resolved =
      map (λ resource. (resource.chain, resource.token_identifier)) (firsts sync_key [] resolved)

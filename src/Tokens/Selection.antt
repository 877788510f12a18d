-- ===== src/Tokens/Selection.antt =====
-- What the selection of resources and the normalization of rows give (resource-catalog.ts, evm.ts).
use mathlib.Core.List.{Memᴰ}
use reputo.Prelude.{
  ℕ, ◌≡◌, ◌∙◌, refl, ap, String, str_append, str_eq, Bool, true, ◌&&◌, ◌||◌, Bool-cases, inl, inr,
  Option, List, [], ◌∷◌, ◌++◌, map, keep, any, All, arith,
}
use reputo.Onchain.Evm.{EvmAssetTransferRow}
use reputo.Tokens.Transfers.{has}
use reputo.Tokens.Firsts.{firsts, keys, distinct, firsts-distinct, firsts-has, firsts-repeats}
use reputo.Tokens.Resources.{
  ResourceCatalogEntry, SelectedResourceInput, ResolvedResource, matches, dedupe_key, resolved_of,
  is_match, resolve_selected_resources, sync_key, get_sync_targets,
}
use reputo.Tokens.Normalize.{event_of, normalize_evm_transfers}

map-map {ℓ κ ι} :
    {A : Type ℓ} {B : Type κ} {C : Type ι} (g : B → C) (f : A → B) (xs : List A)
    → map g (map f xs) ≡ map (λ x. g (f x)) xs
map-map g f [] = refl
map-map g f (x ∷ xs) = ap (λ rest. g (f x) ∷ rest) (map-map g f xs)

has-append : (xs ys : List String) (k : String) → has (xs ++ ys) k ≡ (has xs k || has ys k)
has-append [] ys k = refl
has-append (x ∷ xs) ys k = ground (arith, has-append xs ys k)

-- What holds of every element holds of those that are the first of their key.
firsts-All {ℓ κ} :
    {A : Type ℓ} (P : A → Type κ) (key : A → String) (seen : List String) (xs : List A)
    → All P xs
    → All P (firsts key seen xs)
unfolding firsts
firsts-All P key seen [] h = tt
firsts-All P key seen (x ∷ xs) h = elim (Bool-cases (has seen (key x))) [
  | inl t ↦ rw t (firsts-All P key seen xs h.1)
  | inr n ↦ rw n (h.0, firsts-All P key (key x ∷ seen) xs h.1)
]

map-All {ℓ κ ι} :
    {A : Type ℓ} {B : Type κ} (P : B → Type ι) (f : A → B) (xs : List A)
    → All (λ x. P (f x)) xs
    → All P (map f xs)
map-All P f [] h = tt
map-All P f (x ∷ xs) h = (h.0, map-All P f xs h.1)

All-weaken {ℓ κ} :
    {A : Type ℓ} (P Q : A → Type κ) (xs : List A) → ((x : A) → P x → Q x) → All P xs → All Q xs
All-weaken P Q [] f h = tt
All-weaken (P) (Q) (x ∷ xs) f h = (f x h.0, All-weaken (P) (Q) xs f h.1)

each-Memᴰ {ℓ} : {A : Type ℓ} (xs : List A) → All (λ x. Memᴰ x xs) xs
each-Memᴰ [] = tt
each-Memᴰ (x ∷ xs) = (
  Memᴰ.head refl,
  All-weaken (λ y. Memᴰ y xs) (λ y. Memᴰ y (x ∷ xs)) xs (λ y m. Memᴰ.tail m) (each-Memᴰ xs),
)

module _ (lower : String → String) where
  -- A chain and an identifier, in lower case.
  abbrev pub spelled : String → String → String
  spelled chain identifier = str_append chain (str_append ":" (lower identifier))

  -- Some entry has an identifier, and some selection names its chain and its key.
  abbrev pub is_selected : List SelectedResourceInput → List ResourceCatalogEntry → String → Bool
  is_selected selected catalog k =
      any
        (λ (sel : SelectedResourceInput).
          any
            (λ (entry : ResourceCatalogEntry).
              str_eq entry.chain sel.chain
              && str_eq entry.key sel.resource_key
              && str_eq (spelled entry.chain entry.identifier) k)
            catalog)
        selected

  matched-has :
      (sel : SelectedResourceInput) (catalog : List ResourceCatalogEntry) (k : String)
      → has (keys (dedupe_key lower) (keep (is_match sel) catalog)) k
        ≡ any
            (λ (entry : ResourceCatalogEntry).
              str_eq entry.chain sel.chain
              && str_eq entry.key sel.resource_key
              && str_eq (spelled entry.chain entry.identifier) k)
            catalog
  matched-has sel [] k = refl
  matched-has sel (entry ∷ catalog) k = ground (arith, matched-has sel catalog k)

  map-append :
      (xs ys : List ResourceCatalogEntry)
      → keys (dedupe_key lower) (xs ++ ys)
        ≡ keys (dedupe_key lower) xs ++ keys (dedupe_key lower) ys
  map-append [] ys = refl
  map-append (x ∷ xs) ys = ap (λ rest. dedupe_key lower x ∷ rest) (map-append xs ys)

  matches-has :
      (selected : List SelectedResourceInput) (catalog : List ResourceCatalogEntry) (k : String)
      → has (keys (dedupe_key lower) (matches selected catalog)) k ≡ is_selected selected catalog k
  unfolding matches
  matches-has [] catalog k = refl
  matches-has (sel ∷ selected) catalog k =
      let first = keep (is_match sel) catalog in
      let later = matches selected catalog in
      ground (
        arith,
        map-append first later,
        has-append (keys (dedupe_key lower) first) (keys (dedupe_key lower) later) k,
        matched-has sel catalog k,
        matches-has selected catalog k,
      )

  abbrev pub resolved_key : ResolvedResource → String
  resolved_key resource = spelled resource.chain resource.identifier

  -- No two resolved resources have the same chain and identifier (in lower case), and an identifier
  -- of a chain is among them exactly if some entry of the catalog has it whose chain and key some
  -- selection names.
  pub resolve_selected_resources_lem :
      (selected : List SelectedResourceInput) (catalog : List ResourceCatalogEntry) (k : String)
      → (distinct (keys resolved_key (resolve_selected_resources lower selected catalog)) ≡ true)
        × (has (keys resolved_key (resolve_selected_resources lower selected catalog)) k
            ≡ is_selected selected catalog k)
  unfolding resolve_selected_resources
  resolve_selected_resources_lem selected catalog k =
      let found = firsts (dedupe_key lower) [] (matches selected catalog) in
      let same : keys resolved_key (map (resolved_of lower) found) ≡ keys (dedupe_key lower) found =
        map-map resolved_key (resolved_of lower) found in
      (
        ap distinct same ∙ firsts-distinct (dedupe_key lower) [] (matches selected catalog),
        ap (λ ks. has ks k) same
            ∙ firsts-has (dedupe_key lower) [] (matches selected catalog) k
            ∙ matches-has selected catalog k,
      )

  abbrev pub target_key : String × String → String
  target_key (chain, identifier) = spelled chain identifier

  abbrev pub token_key_of : ResolvedResource → String
  token_key_of resource = spelled resource.chain resource.token_identifier

  -- No two synchronisation targets have the same chain and identifier (in lower case), each is the
  -- chain and the token of a resource, and the tokens among them are those of the resources.
  pub get_sync_targets_lem :
      (resolved : List ResolvedResource) (k : String)
      → (distinct (keys target_key (get_sync_targets lower resolved)) ≡ true)
        × All
            (λ (target : String × String).
              (resource : ResolvedResource) × Memᴰ resource resolved
              × (target ≡ (resource.chain, resource.token_identifier)))
            (get_sync_targets lower resolved)
        × (has (keys target_key (get_sync_targets lower resolved)) k
            ≡ has (keys token_key_of resolved) k)
  unfolding get_sync_targets
  get_sync_targets_lem resolved k =
      let found = firsts (sync_key lower) [] resolved in
      let same : keys target_key (map (λ r. (r.chain, r.token_identifier)) found)
          ≡ keys (sync_key lower) found =
        map-map target_key (λ r. (r.chain, r.token_identifier)) found in
      let Of : String × String → Type 0 = λ target.
        (resource : ResolvedResource) × Memᴰ resource resolved
        × (target ≡ (resource.chain, resource.token_identifier)) in
      let OfToken : ResolvedResource → Type 0 = λ r. Of (r.chain, r.token_identifier) in
      let every : All OfToken resolved =
        All-weaken (λ r. Memᴰ r resolved) (OfToken) resolved (λ r m. (r, m, refl))
          (each-Memᴰ resolved) in
      (
        ap distinct same ∙ firsts-distinct (sync_key lower) [] resolved,
        map-All Of (λ r. (r.chain, r.token_identifier)) found
            (firsts-All OfToken (sync_key lower) [] resolved every),
        ap (λ ks. has ks k) same ∙ firsts-has (sync_key lower) [] resolved k,
      )

-- Rows whose unique ids all occurred before on the page add no transfer.
pub normalize-repeats :
    (lower : String → String) (hex : ℕ → String) (timestamp : String → Option String)
    (resource_id : String) (staking : List String) (rows again : List EvmAssetTransferRow)
    → All (λ row. has (keys (λ r. r.unique_id) rows) row.unique_id ≡ true) again
    → normalize_evm_transfers lower hex timestamp resource_id staking (rows ++ again)
      ≡ normalize_evm_transfers lower hex timestamp resource_id staking rows
unfolding normalize_evm_transfers
normalize-repeats lower hex timestamp resource_id staking rows again h =
    ap (map (event_of lower hex timestamp resource_id staking))
      (firsts-repeats (λ row. row.unique_id) [] rows again h)

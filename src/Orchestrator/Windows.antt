-- ===== src/Orchestrator/Windows.antt =====
-- The bounds of a community fetch (apps/workflows/src/shared/utils/community-fetch.utils.ts).
use reputo.Prelude.{
  ℕ, ◌+◌, ◌-◌, ◌*◌, ◌≤◌, ◌<◌, ◌≡◌, subst, String, true, false, some, List, [], ◌∷◌, length,
  Option-cases, inl, inr, arith, ok,
}
use reputo.Tokens.Firsts.{firsts, distinct, keys_self, firsts-distinct}
use reputo.Values.{Value, nan, infinite, finite, less, PresetInput, input_value, as_text, as_array}
use reputo.Orchestrator.Model.{CommunityFetchInput}
use reputo.Orchestrator.Community.{
  lookback_days, resources_of, extract_community_fetch_input, all_texts,
}

lookback_days_bounds :
    (value : Value) {days : ℕ} → lookback_days value ≡ some days → (1 ≤ days) × (days ≤ 183)
unfolding lookback_days less
lookback_days_bounds (Value.number (finite false whole fraction)) h = ground (arith, h)
lookback_days_bounds (Value.number (finite true whole fraction)) h = ground (arith, h)
lookback_days_bounds (Value.number nan) h = ground (arith, h)
lookback_days_bounds (Value.number (infinite b)) h = ground (arith, h)
lookback_days_bounds Value.undefined h = ground (arith, h)
lookback_days_bounds Value.null h = ground (arith, h)
lookback_days_bounds (Value.boolean b) h = ground (arith, h)
lookback_days_bounds (Value.text s) h = ground (arith, h)
lookback_days_bounds (Value.array vs) h = ground (arith, h)
lookback_days_bounds (Value.object fs) h = ground (arith, h)

resources_of-length :
    (value : Value) {ids : List String} → resources_of value ≡ some ids → 0 < length ids
unfolding resources_of
resources_of-length value {ids} h = elim (Option-cases (as_array value)) [
  | inl n ↦ ground (arith, n, h)
  | inr (values, e) ↦ elim (Option-cases (all_texts values)) [
    | inl n ↦ ground (arith, e, n, h)
    | inr (texts, f) ↦ ground (arith, e, f, h)
  ]
]

firsts-length : (ids : List String) → 0 < length ids → 0 < length (firsts (λ id. id) [] ids)
unfolding firsts
firsts-length [] h = h
firsts-length (id ∷ ids) h = omega arith

-- A fetch that the orchestrator starts is well formed: its window ends at the start of the run and
-- begins a whole number of days before, at least one and at most 183; it names at least one
-- resource, and none twice.
abbrev pub IsWellFormed : CommunityFetchInput → ℕ → Type 0
IsWellFormed input window_end =
    ((days : ℕ) × (1 ≤ days) × (days ≤ 183) × (input.window_start + 86400000 * days ≡ window_end))
    × (input.window_end ≡ window_end)
    × (0 < length input.resource_ids)
    × (distinct input.resource_ids ≡ true)

-- A community fetch that is extracted from a preset, for a run that starts 183 days after 1970 or
-- later, has a window of 1 to 183 whole days that ends at the start of the run, at least one
-- resource, and no resource twice.
pub extract_community_fetch_input-IsWellFormed :
    (print : Value → String) (label : String) (inputs : List PresetInput) (window_end : ℕ)
    {input : CommunityFetchInput}
    → 183 * 86400000 ≤ window_end
    → extract_community_fetch_input print label inputs window_end ≡ ok input
    → IsWellFormed input window_end
unfolding extract_community_fetch_input
extract_community_fetch_input-IsWellFormed print label inputs window_end {input} late h =
    elim (Option-cases (as_text (input_value "community_connection_id" inputs))) [
      | inl n ↦ ground (arith, n, h)
      | inr (connection, e) ↦
          elim (Option-cases (lookback_days (input_value "lookback_days" inputs))) [
            | inl n ↦ ground (arith, e, n, h)
            | inr (days, f) ↦ elim (Option-cases (resources_of (input_value "resources" inputs))) [
              | inl n ↦ ground (arith, e, f, n, h)
              | inr (ids, g) ↦
                  let (low, high) = lookback_days_bounds (input_value "lookback_days" inputs) f in
                  let some_id =
                    firsts-length ids (resources_of-length (input_value "resources" inputs) g) in
                  let once = firsts-distinct (λ id. id) [] ids in
                  let start : input.window_start ≡ window_end - days * 86400000 =
                    ground (arith, e, f, g, h) in
                  let selected : input.resource_ids ≡ firsts (λ id. id) [] ids =
                    ground (arith, e, f, g, h) in
                  (
                    (days, low, high, omega (arith, start, late, high)),
                    ground (arith, e, f, g, h),
                    rw selected some_id,
                    rw selected (
                        subst (λ ks. distinct ks ≡ true) (keys_self (firsts (λ id. id) [] ids))
                          once),
                  )
            ]
          ]
    ]

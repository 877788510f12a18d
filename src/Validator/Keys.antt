-- ===== src/Validator/Keys.antt =====
-- The keys of a preset that passes the checks against its definition
-- (packages/algorithm-validator/src/preset-validation.ts).
use reputo.Prelude.{
  ◌≡◌, refl, String, Bool, true, false, not, List, [], ◌∷◌, map, all, keep, str_eq_iff, arith,
}
use reputo.Tokens.Transfers.{has}
use reputo.Tokens.Firsts.{firsts, distinct}
use reputo.Values.{PresetInput}
use reputo.Validator.Presets.{
  AlgorithmDefinition, get_definition_consistency_errors, repeated_keys, repeated_issue, input_keys,
  get_duplicate_input_errors, supported_keys, unsupported_issue, get_unsupported_input_errors,
}
use reputo.Validator.Passed.{unseen}

pub map_nothing {ℓ κ} :
    {A : Type ℓ} {B : Type κ} (f : A → B) (xs : List A) → map f xs ≡ [] → xs ≡ []
map_nothing f [] h = refl
map_nothing f (x ∷ xs) h = ground (arith, h)

pub consistent_keys :
    (definition : AlgorithmDefinition) (key version : String)
    → get_definition_consistency_errors definition key version ≡ []
    → (key ≡ definition.key) × (version ≡ definition.version)
unfolding get_definition_consistency_errors
consistent_keys definition key version h =
    ground (arith, h, str_eq_iff key definition.key, str_eq_iff version definition.version)

unrepeated :
    (seen keys : List String)
    → repeated_keys seen keys ≡ []
    → (distinct keys ≡ true) × (all (λ k. not (has seen k)) keys ≡ true)
unfolding repeated_keys
unrepeated seen [] h = (refl, refl)
unrepeated seen (key ∷ keys) h =
    let new : has seen key ≡ false = ground (arith, h) in
    let (once, fresh) = unrepeated (key ∷ seen) keys (ground (arith, h, new)) in
    let (alone, unseen_before) = unseen key seen keys fresh in
    (ground (arith, alone, once), ground (arith, new, unseen_before))

no_first : (keys : List String) → firsts (λ k. k) [] keys ≡ [] → keys ≡ []
unfolding firsts
no_first [] h = refl
no_first (key ∷ keys) h = ground (arith, h)

pub distinct_inputs :
    (inputs : List PresetInput)
    → get_duplicate_input_errors inputs ≡ []
    → distinct (input_keys inputs) ≡ true
unfolding get_duplicate_input_errors
distinct_inputs inputs h =
    let again = repeated_keys [] (input_keys inputs) in
    let none_again = no_first again (map_nothing repeated_issue (firsts (λ k. k) [] again) h) in
    (unrepeated [] (input_keys inputs) none_again).0

kept_nothing :
    (p : String → Bool) (keys : List String) → keep (λ k. not (p k)) keys ≡ [] → all p keys ≡ true
kept_nothing p [] h = refl
kept_nothing p (key ∷ keys) h = ground (arith, h, kept_nothing p keys)

pub supported_inputs :
    (definition : AlgorithmDefinition) (inputs : List PresetInput)
    → get_unsupported_input_errors definition inputs ≡ []
    → all (has (supported_keys definition)) (input_keys inputs) ≡ true
unfolding get_unsupported_input_errors
supported_inputs definition inputs h =
    kept_nothing (has (supported_keys definition)) (input_keys inputs) (
      map_nothing unsupported_issue
        (keep (λ key. not (has (supported_keys definition) key)) (input_keys inputs)) h)

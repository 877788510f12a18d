-- ===== src/Orchestrator/Community.antt =====
-- apps/workflows/src/shared/utils/community-fetch.utils.ts: what a community dependency crawls.
use reputo.Prelude.{
  ℕ, ◌-◌, ◌*◌, String, false, not, ◌||◌, Option, none, some, List, [], ◌∷◌, Result, err, ok,
  str_append, if◌then◌else◌,
}
use reputo.Tokens.Firsts.{firsts}
use reputo.Values.{
  Value, Number, finite, natural, is_integer, less, PresetInput, input_value, as_text, as_number,
  as_array,
}
use reputo.Values.Texts.{trim, is_blank}
use reputo.Orchestrator.Model.{CommunityFetchInput, Thrown, new_error}

abbrev pub day_ms : ℕ
day_ms = 86400000

abbrev pub max_community_lookback_days : ℕ
max_community_lookback_days = 183

-- The texts of a list that holds texts only.
unfoldable pub all_texts : List Value → Option (List String)
all_texts [] = some []
all_texts (value ∷ values) = elim (as_text value) [
  | none ↦ none
  | some s ↦ elim (all_texts values) [ none ↦ none | some texts ↦ some (s ∷ texts) ]
]

-- A whole number between 1 and the cap, as a count.
unfoldable pub lookback_days : Value → Option ℕ
unfolding less
lookback_days value = elim (as_number value) [
  | none ↦ none
  | some n ↦
      if not (is_integer n) || less n (natural 1) || less (natural max_community_lookback_days) n
      then none
      else count_of n
]
  where
    count_of : Number → Option ℕ
    count_of (finite false whole _) = some whole
    count_of _ = none

-- The selected resources, at least one.
unfoldable pub resources_of : Value → Option (List String)
unfolding all_texts
resources_of value = elim (as_array value) [
  | none ↦ none
  | some values ↦ elim (all_texts values) [
    | none ↦ none
    | some [] ↦ none
    | some (id ∷ ids) ↦ some (id ∷ ids)
  ]
]

abbrev pub preset_needs : String → String → Thrown
preset_needs label rest =
    new_error (str_append "Preset \"" (str_append label (str_append "\" needs " rest)))

unfoldable pub extract_community_fetch_input :
    (Value → String) → String → List PresetInput → ℕ → Result Thrown CommunityFetchInput
unfolding lookback_days resources_of firsts trim
extract_community_fetch_input print label inputs window_end =
    elim (as_text (input_value "community_connection_id" inputs)) [
      | none ↦ err (preset_needs label "a non-empty \"community_connection_id\" input")
      | some connection ↦
          if is_blank connection
          then err (preset_needs label "a non-empty \"community_connection_id\" input")
          else (elim (lookback_days (input_value "lookback_days" inputs)) [
            | none ↦ err (
                preset_needs label (
                  str_append "a \"lookback_days\" input between 1 and 183, got "
                    (print (input_value "lookback_days" inputs))))
            | some days ↦ elim (resources_of (input_value "resources" inputs)) [
              | none ↦
                  err
                    (preset_needs label "a non-empty \"resources\" input of platform resource ids")
              | some ids ↦ ok (record {
                connection_id = trim connection;
                community_id = none;
                resource_ids = firsts (λ id. id) [] ids;
                window_start = window_end - days * day_ms;
                window_end = window_end;
                credentials_ciphertext = none;
              })
            ]
          ])
    ]

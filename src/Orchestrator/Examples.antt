-- ===== src/Orchestrator/Examples.antt =====
-- The orchestrator on a combined algorithm with one child (orchestrator.workflow.ts).
use reputo.Prelude.{
  true, false, none, some, List, [], ◌∷◌, ◌≡◌, refl, arith, Result, ok, err, All, any, map, ◌⊎◌,
  ◌++◌, str_eq, if◌then◌else◌,
}
use reputo.Tokens.Transfers.{has}
use reputo.Values.{
  Value, number, text, array, object, natural, nil, item, field, end, PresetInput, input_value,
  as_preset_inputs,
}
use reputo.Snapshot.Status.{running, completed, failed}
use reputo.Orchestrator.Model.{
  Preset, Definition, DefinitionInput, DependencySource, discord, CommunityFetchInput, Thrown,
  not_an_error, new_error, get_algorithm_definition, Activities, AlgorithmOutputs, settle_all,
}
use reputo.Orchestrator.Presets.{build_combined_child_algorithm_presets}
use reputo.Orchestrator.Targets.{collect_dependency_keys}
use reputo.Orchestrator.Community.{extract_community_fetch_input}
use reputo.Orchestrator.Run.{run_orchestrator, publish, fresh_run}
use reputo.Orchestrator.Traces.{status_writes}
use reputo.Orchestrator.Settled.{IsSettled, run_orchestrator-IsSettled}
use reputo.Orchestrator.Ordered.{IsOrdered}
use reputo.Orchestrator.Gates.{run_orchestrator-IsOrdered}
use reputo.Orchestrator.Published.{Recorded, publish-Recorded}
use reputo.Tokens.Firsts.{distinct}
use reputo.Orchestrator.Targets.{find_dependency_preset}
use reputo.Orchestrator.Collected.{declares, collect_dependency_keys_lem}
use reputo.Orchestrator.Children.{nested_keys, build_combined_child_algorithm_presets-Shared}
use reputo.Orchestrator.Windows.{IsWellFormed, extract_community_fetch_input-IsWellFormed}

abbrev community_inputs : List PresetInput
community_inputs =
    (record { key = "community_connection_id"; value = text " c1 " })
    ∷ (record { key = "lookback_days"; value = number (natural 30) })
    ∷ (record {
      key = "resources";
      value = array (item (text "r1") (item (text "r2") (item (text "r1") nil)));
    })
    ∷ []

abbrev child_entry : Value
child_entry = object (
    field "algorithm_key" (text "discord_engagement") (
      field "algorithm_version" (text "1.0.0") (
        field "weight" (number (natural 2)) (
          field "inputs"
            (array (item (object (field "key" (text "dids") (field "value" (text "own") end))) nil))
            end))))

abbrev combined_preset : Preset
combined_preset = record {
  key = "custom_score";
  version = "1.0.0";
  inputs =
      (record { key = "dids"; value = text "shared" })
      ∷ (record { key = "sub_algorithms"; value = array (item child_entry nil) })
      ∷ community_inputs;
}

abbrev combined_definition : Definition
combined_definition = record {
  key = "custom_score";
  version = "1.0.0";
  runtime = "typescript";
  kind = some "combined";
  inputs =
      (record {
        key = "sub_algorithms";
        type = some "sub_algorithm";
        shared_input_keys = "dids" ∷ [];
        catalog = none;
      })
      ∷ [];
  dependencies = "deep-id" ∷ [];
}

abbrev child_definition : Definition
child_definition = record {
  key = "discord_engagement";
  version = "1.0.0";
  runtime = "typescript";
  kind = none;
  inputs = [];
  dependencies = "deep-id" ∷ "onchain-data" ∷ [];
}

-- Activities that all succeed, but for the algorithm, whose result is given.
abbrev answering : Result Thrown AlgorithmOutputs → Activities
answering outputs = record {
  gets_snapshot = λ _. ok (record { status = running; algorithm_preset_frozen = combined_preset });
  updates_snapshot = λ _. ok tt;
  gets_definition = λ calls. elim calls [
    | [] ↦ err not_an_error
    | call ∷ older ↦ elim call [
      | get_algorithm_definition key version ↦
          ok (if str_eq key "custom_score" then combined_definition else child_definition)
      | _ ↦ err not_an_error
    ]
  ];
  gets_connection = λ _. ok (record { name = "one"; platform = discord; external_id = "g" });
  gets_credential = λ _. ok "sealed";
  checks_health = λ _. ok tt;
  resolves = λ _. ok none;
  runs_algorithm = λ _. outputs;
  submits_raw = λ _. ok ("discord_engagement" ∷ []);
  runs_lifecycle = λ _. ok tt;
  posts_scores = λ _. ok (record { attempted = true; counts = 3 ∷ [] });
  records_publication = λ _. ok tt;
  earliest = λ _. 0;
  is_cancellation = λ _. false;
  start_time = 1700000000000;
  lower = λ s. s;
  print = λ _. "…";
  type_error = new_error "TypeError";
}

abbrev succeeding : Activities
succeeding = answering (ok (("scores", "k") ∷ []))

abbrev failing : Activities
failing = answering (err (new_error "no data"))

writes_of_success :
    status_writes (run_orchestrator succeeding fresh_run).1.calls ≡ completed ∷ running ∷ []
unfolding run_orchestrator settle_all input_value as_preset_inputs
writes_of_success = refl

writes_of_failure :
    status_writes (run_orchestrator failing fresh_run).1.calls ≡ failed ∷ running ∷ []
unfolding run_orchestrator settle_all input_value as_preset_inputs
writes_of_failure = refl

run_orchestrator-IsSettled_example : IsSettled failing (run_orchestrator failing fresh_run)
run_orchestrator-IsSettled_example =
    run_orchestrator-IsSettled failing
      {snapshot = record { status = running; algorithm_preset_frozen = combined_preset }} refl refl
      refl

run_orchestrator-IsOrdered_example :
    IsOrdered succeeding
      (run_orchestrator succeeding fresh_run).1.algorithm_kind
      (run_orchestrator succeeding fresh_run).1.calls
run_orchestrator-IsOrdered_example = run_orchestrator-IsOrdered succeeding

publish-Recorded_example :
    Recorded succeeding "custom_score" (publish succeeding "custom_score" fresh_run)
publish-Recorded_example = publish-Recorded succeeding "custom_score" fresh_run

abbrev two_sources : List DependencySource
two_sources =
    (record { definition = combined_definition; preset = combined_preset })
    ∷ (record {
      definition = child_definition;
      preset = record { key = "discord_engagement"; version = "1.0.0"; inputs = [] };
    })
    ∷ []

keys_of_two_sources : collect_dependency_keys two_sources ≡ "deep-id" ∷ "onchain-data" ∷ []
unfolding collect_dependency_keys
keys_of_two_sources = refl

collect_dependency_keys_lem_example :
    (distinct (collect_dependency_keys two_sources) ≡ true)
    × (has (collect_dependency_keys two_sources) "onchain-data"
        ≡ any (declares "onchain-data") two_sources)
    × ((any (declares "onchain-data") two_sources ≡ false)
        ⊎ ((before : List DependencySource) × (source : DependencySource) × (after : List
              DependencySource)
            × (two_sources ≡ before ++ source ∷ after)
            × (any (declares "onchain-data") before ≡ false)
            × (declares "onchain-data" source ≡ true)
            × (find_dependency_preset combined_preset two_sources "onchain-data" ≡ source.preset)))
collect_dependency_keys_lem_example =
    collect_dependency_keys_lem combined_preset two_sources "onchain-data"

children_of_preset :
    build_combined_child_algorithm_presets combined_preset.inputs combined_definition.inputs
    ≡ (record {
      key = "discord_engagement";
      version = "1.0.0";
      inputs = (record { key = "dids"; value = text "shared" }) ∷ [];
    })
      ∷ []
unfolding build_combined_child_algorithm_presets input_value as_preset_inputs
children_of_preset = refl

abbrev sub_algorithms : DefinitionInput
sub_algorithms = record {
  key = "sub_algorithms";
  type = some "sub_algorithm";
  shared_input_keys = "dids" ∷ [];
  catalog = none;
}

build_combined_child_algorithm_presets-Shared_example :
    let own = build_combined_child_algorithm_presets combined_preset.inputs (sub_algorithms ∷ []) in
    (build_combined_child_algorithm_presets combined_preset.inputs ([] ++ sub_algorithms ∷ [])
      ≡ build_combined_child_algorithm_presets combined_preset.inputs []
        ++ own
        ++ build_combined_child_algorithm_presets combined_preset.inputs [])
    × (map (λ (child : Preset). child.key) own ≡ nested_keys combined_preset.inputs sub_algorithms)
    × All
        (λ (child : Preset).
          input_value "dids" child.inputs ≡ input_value "dids" combined_preset.inputs)
        own
build_combined_child_algorithm_presets-Shared_example =
    build_combined_child_algorithm_presets-Shared combined_preset.inputs [] sub_algorithms [] "dids"
      refl

abbrev fetched : CommunityFetchInput
fetched = record {
  connection_id = "c1";
  community_id = none;
  resource_ids = "r1" ∷ "r2" ∷ [];
  window_start = 1697408000000;
  window_end = 1700000000000;
  credentials_ciphertext = none;
}

extracted : extract_community_fetch_input (λ _. "") "p" community_inputs 1700000000000 ≡ ok fetched
unfolding extract_community_fetch_input input_value
extracted = refl

extract_community_fetch_input-IsWellFormed_example : IsWellFormed fetched 1700000000000
extract_community_fetch_input-IsWellFormed_example =
    extract_community_fetch_input-IsWellFormed (λ _. "") "p" community_inputs 1700000000000
      {input = fetched} (omega arith) extracted

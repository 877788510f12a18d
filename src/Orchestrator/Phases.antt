-- ===== src/Orchestrator/Phases.antt =====
-- The phases of a run (orchestrator.workflow.ts): dependencies, the algorithm, the submissions of a
-- combined algorithm, and the completion.
use reputo.Prelude.{
  String, Bool, true, false, Option, none, some, List, [], ◌∷◌, err, ok, str_eq, str_append,
  if◌then◌else◌,
}
use reputo.Values.{text, PresetInput}
use reputo.Snapshot.Status.{completed}
use reputo.Orchestrator.Model.{
  Preset, Definition, DependencySource, SyncTarget, CommunityPlatform, discord, github, mattermost,
  same_platform, platform_name, CommunityFetchInput, Connection, AlgorithmOutputs, Thrown,
  new_error, is_text, DependencyInput, plain, targets, community, Queue, orchestrator_queue,
  onchain_data_queue, community_queue, Call, get_algorithm_definition, update_snapshot,
  get_community_connection, get_community_sealed_credential, check_community_health,
  resolve_dependency, run_typescript_algorithm, submit_custom_raw_scores, run_encrypted_lifecycle,
  Activities, Action, returns, throws, lift, await, ◌>>=◌, ◌>>◌, promise_all,
}
use reputo.Orchestrator.Presets.{
  get_algorithm_task_queue_from_runtime, build_combined_child_algorithm_presets,
}
use reputo.Orchestrator.Targets.{
  extract_onchain_sync_targets, collect_onchain_sync_targets, collect_dependency_keys,
  find_dependency_preset, pick_generated_dids_key,
}
use reputo.Orchestrator.Community.{extract_community_fetch_input}

-- `isCommunityDependencyKey`, with the platform of the key.
unfoldable pub community_platform : String → Option CommunityPlatform
community_platform key =
    if str_eq key "discord-activity"
    then some discord
    else if str_eq key "github-activity"
    then some github
    else if str_eq key "mattermost-activity"
    then some mattermost
    else none

-- `SEALED_CREDENTIAL_PLATFORMS.has`
abbrev pub has_sealed_credential : CommunityPlatform → Bool
has_sealed_credential mattermost = true
has_sealed_credential _ = false

unfoldable pub apply_dids_override : String → List PresetInput → List PresetInput
apply_dids_override dids_key [] = (record { key = "dids"; value = text dids_key }) ∷ []
apply_dids_override dids_key (input ∷ inputs) =
    if str_eq input.key "dids"
    then (record input { value = text dids_key }) ∷ inputs
    else input ∷ apply_dids_override dids_key inputs

-- The inputs of a snapshot, once the dependencies have answered.
abbrev pub with_dids : List (Option String) → Preset → Preset
with_dids results preset = elim (pick_generated_dids_key results) [
  | none ↦ preset
  | some key ↦ record preset { inputs = apply_dids_override key preset.inputs }
]

abbrev pub wrong_platform : String → Connection → CommunityPlatform → Thrown
wrong_platform key connection platform = new_error (
    str_append "Preset connection \"" (
      str_append connection.name (
        str_append "\" is a " (
          str_append (platform_name connection.platform) (
            str_append " connection; dependency \""
              (str_append key (str_append "\" needs " (platform_name platform))))))))

-- `run.algorithmKind = ...` and `run.algorithmTaskQueue = ...`
abbrev pub set_kind : Option String → Action (Unit {0})
set_kind kind s = (ok tt, record s { algorithm_kind = kind })

abbrev pub set_queue : String → Action (Unit {0})
set_queue queue s = (ok tt, record s { algorithm_task_queue = some queue })

abbrev pub completion : String → AlgorithmOutputs → Call
completion queue outputs = update_snapshot (record {
  status = some completed;
  algorithm_task_queue = some queue;
  outputs = some outputs;
  message = none;
})

module _ (activities : Activities) where
  -- The sealed credential of a connection, which the fetch carries along.
  abbrev pub with_credential : CommunityFetchInput → Action CommunityFetchInput
  with_credential input = do
    sealed ← await (get_community_sealed_credential input.connection_id) activities.gets_credential
    returns (record input { credentials_ciphertext = some sealed })

  -- `resolveCommunityFetch`, once the connection is read.
  abbrev pub with_connection :
      String → CommunityPlatform → CommunityFetchInput → Connection → Action CommunityFetchInput
  with_connection key platform input connection =
      let found : CommunityFetchInput = record input {
        community_id = some connection.external_id;
      } in
      if same_platform connection.platform platform
      then (if has_sealed_credential platform then with_credential found else returns found)
      else throws (wrong_platform key connection platform)

  abbrev pub read_connection : CommunityFetchInput → Action Connection
  read_connection input =
      await (get_community_connection input.connection_id) activities.gets_connection

  unfoldable pub resolve_community_fetch :
      String → CommunityPlatform → Preset → Action CommunityFetchInput
  unfolding extract_community_fetch_input
  resolve_community_fetch key platform preset = do
    input ← lift (
        extract_community_fetch_input activities.print preset.key preset.inputs
          activities.start_time)
    connection ← read_connection input
    with_connection key platform input connection

  abbrev pub call_resolve : Queue → String → DependencyInput → Action (Option String)
  call_resolve queue key input = await (resolve_dependency queue key input) activities.resolves

  -- `catch (error)`: the connection is checked unless the run is cancelled, whatever the check
  -- answers, and the error is thrown again.
  unfoldable pub write_back_health : String → Thrown → Action (Option String)
  write_back_health connection_id e = if activities.is_cancellation e then throws e else (λ s.
      (err e, (await (check_community_health connection_id) activities.checks_health s).1))

  unfoldable pub resolve_community_dependency_with_writeback :
      String → CommunityFetchInput → Action (Option String)
  unfolding write_back_health
  resolve_community_dependency_with_writeback key input s =
      let (r, t) = call_resolve community_queue key (community input) s in
      elim r [ ok dids_key ↦ (ok dids_key, t) | err e ↦ write_back_health input.connection_id e t ]

  abbrev pub resolve_community : String → Preset → CommunityPlatform → Action (Option String)
  resolve_community key preset platform = do
    input ← resolve_community_fetch key platform preset
    resolve_community_dependency_with_writeback key input

  -- One dependency, with the preset that configures its fetch.
  unfoldable pub resolve_one : List SyncTarget → (String → Preset) → String → Action (Option String)
  unfolding resolve_community_fetch resolve_community_dependency_with_writeback community_platform
  resolve_one sync_targets preset_of key =
      if str_eq key "onchain-data"
      then call_resolve onchain_data_queue key (targets sync_targets)
      else (elim (community_platform key) [
        | none ↦ call_resolve orchestrator_queue key plain
        | some platform ↦ resolve_community key (preset_of key) platform
      ])

  -- The dependencies of a run, concurrently.
  unfoldable pub resolve_all :
      List SyncTarget → (String → Preset) → List String → Preset → Action Preset
  unfolding resolve_one promise_all pick_generated_dids_key apply_dids_override
  resolve_all sync_targets preset_of keys preset = do
    results ← promise_all activities.earliest (resolve_one sync_targets preset_of) keys
    returns (with_dids results preset)

  abbrev pub child_source : Preset → Action DependencySource
  child_source child = do
    definition ← await (get_algorithm_definition child.key child.version) activities.gets_definition
    returns (record { definition = definition; preset = child })

  -- The dependencies of a combined algorithm and of its children.
  abbrev pub resolve_keys_of_sources :
      Preset → List DependencySource → String → List String → Action Preset
  resolve_keys_of_sources preset sources key keys = do
    found ← lift (collect_onchain_sync_targets activities.type_error activities.lower sources)
    resolve_all found (find_dependency_preset preset sources) (key ∷ keys) preset

  abbrev pub resolve_sources : Preset → List DependencySource → Action Preset
  resolve_sources preset sources = elim (collect_dependency_keys sources) [
    | [] ↦ returns preset
    | key ∷ keys ↦ resolve_keys_of_sources preset sources key keys
  ]

  unfoldable pub resolve_combined : Definition → Preset → Action Preset
  unfolding resolve_all build_combined_child_algorithm_presets collect_dependency_keys
      collect_onchain_sync_targets find_dependency_preset promise_all
  resolve_combined definition preset = do
    children ←
        promise_all activities.earliest child_source
          (build_combined_child_algorithm_presets preset.inputs definition.inputs)
    resolve_sources preset ((record { definition = definition; preset = preset }) ∷ children)

  abbrev pub resolve_keys_of : Definition → Preset → String → List String → Action Preset
  resolve_keys_of definition preset key keys = do
    found ← lift (
        extract_onchain_sync_targets activities.type_error activities.lower preset.inputs
          definition.inputs)
    resolve_all found (λ _. preset) (key ∷ keys) preset

  unfoldable pub resolve_single : Definition → Preset → Action Preset
  unfolding resolve_all extract_onchain_sync_targets
  resolve_single definition preset = elim definition.dependencies [
    | [] ↦ returns preset
    | key ∷ keys ↦ resolve_keys_of definition preset key keys
  ]

  abbrev pub resolve_dependencies : Definition → Preset → Action Preset
  resolve_dependencies definition preset =
      if is_text "combined" definition.kind
      then resolve_combined definition preset
      else resolve_single definition preset

  -- The submissions of a combined algorithm, before its completion.
  unfoldable pub submit_combined : String → Preset → AlgorithmOutputs → Action (Unit {0})
  submit_combined queue preset outputs = do
    await
        (update_snapshot (record {
          status = none;
          algorithm_task_queue = some queue;
          outputs = some outputs;
          message = none;
        }))
        activities.updates_snapshot
    children ← await (submit_custom_raw_scores preset outputs) activities.submits_raw
    await (run_encrypted_lifecycle preset children) activities.runs_lifecycle

  abbrev pub submit_and_complete :
      Definition → String → Preset → AlgorithmOutputs → Action (Unit {0})
  submit_and_complete definition queue preset outputs = do
    if is_text "combined" definition.kind then submit_combined queue preset outputs else returns tt
    await (completion queue outputs) activities.updates_snapshot

  -- From the resolved preset on: the algorithm, the submissions, the completion.
  unfoldable pub execute : Definition → String → Preset → Action (Unit {0})
  unfolding submit_combined
  execute definition queue preset =
      if str_eq definition.runtime "typescript"
      then (do
        outputs ← await (run_typescript_algorithm queue preset) activities.runs_algorithm
        submit_and_complete definition queue preset outputs)
      else throws (new_error (str_append "Unsupported algorithm: " preset.key))

  -- The phases once the queue of the algorithm is known, and once its definition is.
  abbrev pub phases_on_queue : Definition → Preset → String → Action (Unit {0})
  phases_on_queue definition preset queue = do
    set_queue queue
    resolved ← resolve_dependencies definition preset
    execute definition queue resolved

  abbrev pub phases_of : Preset → Definition → Action (Unit {0})
  phases_of preset definition = do
    set_kind definition.kind
    queue ← lift (get_algorithm_task_queue_from_runtime definition.runtime)
    phases_on_queue definition preset queue

  unfoldable pub run_snapshot_phases : Preset → Action (Unit {0})
  unfolding resolve_combined resolve_single execute get_algorithm_task_queue_from_runtime
  run_snapshot_phases preset = do
    definition ←
        await (get_algorithm_definition preset.key preset.version) activities.gets_definition
    phases_of preset definition

-- ===== src/Orchestrator/Resolving.antt =====
-- Resolving the dependencies of a run only looks up (orchestrator.workflow.ts).
use reputo.Prelude.{
  ◌≡◌, refl, Bool, true, false, Option, none, some, List, [], ◌∷◌, String, subst, arith, inl, inr,
  Result-cases, str_eq, if◌then◌else◌,
}
use reputo.Orchestrator.Model.{
  Preset, Definition, DependencySource, SyncTarget, CommunityPlatform, same_platform,
  CommunityFetchInput, Connection, Thrown, Activities, Action, lift, returns, throws, await,
  get_algorithm_definition, get_community_connection, get_community_sealed_credential,
  check_community_health, resolve_dependency, Queue, orchestrator_queue, onchain_data_queue,
  community_queue, DependencyInput, plain, targets, community, is_text, promise_all, ◌>>=◌,
}
use reputo.Orchestrator.Traces.{
  Looks, Looks-refl, Looks-trans, IsLookup, bind-IsLookup, await-IsLookup, promise_all-IsLookup,
}
use reputo.Orchestrator.Targets.{
  collect_dependency_keys, collect_onchain_sync_targets, extract_onchain_sync_targets,
  find_dependency_preset,
}
use reputo.Orchestrator.Presets.{build_combined_child_algorithm_presets}
use reputo.Orchestrator.Community.{extract_community_fetch_input}
use reputo.Orchestrator.Phases.{
  community_platform, has_sealed_credential, resolve_community_fetch, write_back_health,
  resolve_community_dependency_with_writeback, resolve_one, resolve_all, child_source,
  with_connection, with_credential, call_resolve, resolve_community, resolve_sources,
  resolve_keys_of_sources, resolve_keys_of, resolve_dependencies, read_connection, resolve_combined,
  resolve_single, with_dids, wrong_platform,
}

if-IsLookup {ℓ} :
    {A : Type ℓ} (b : Bool) (m n : Action A)
    → IsLookup m
    → IsLookup n
    → IsLookup (if b then m else n)
if-IsLookup true m n hm hn = hm
if-IsLookup false m n hm hn = hn

option-IsLookup {ℓ κ} :
    {A : Type ℓ} {B : Type κ} (o : Option A) (m : Action B) (f : A → Action B)
    → IsLookup m
    → ((a : A) → IsLookup (f a))
    → IsLookup (elim o [ none ↦ m | some a ↦ f a ])
option-IsLookup none m f hm hf = hm
option-IsLookup (some a) m f hm hf = hf a

list-IsLookup {ℓ κ} :
    {A : Type ℓ} {B : Type κ} (xs : List A) (m : Action B) (f : A → List A → Action B)
    → IsLookup m
    → ((x : A) (rest : List A) → IsLookup (f x rest))
    → IsLookup (elim xs [ [] ↦ m | x ∷ rest ↦ f x rest ])
list-IsLookup [] m f hm hf = hm
list-IsLookup (x ∷ rest) m f hm hf = hf x rest

module _ (activities : Activities) where
  with_credential-IsLookup :
      (input : CommunityFetchInput) → IsLookup (with_credential activities input)
  with_credential-IsLookup input =
      bind-IsLookup
        (await (get_community_sealed_credential input.connection_id) activities.gets_credential)
        (λ sealed. returns (record input { credentials_ciphertext = some sealed }))
        (await-IsLookup (get_community_sealed_credential input.connection_id)
          activities.gets_credential refl)
        (λ sealed. Looks-refl)

  with_connection-IsLookup :
      (key : String) (platform : CommunityPlatform) (input : CommunityFetchInput)
      (connection : Connection)
      → IsLookup (with_connection activities key platform input connection)
  with_connection-IsLookup key platform input connection =
      let found : CommunityFetchInput = record input {
        community_id = some connection.external_id;
      } in
      if-IsLookup (same_platform connection.platform platform)
        (if has_sealed_credential platform then with_credential activities found else returns found)
        (throws (wrong_platform key connection platform))
        (if-IsLookup (has_sealed_credential platform) (with_credential activities found)
          (returns found) (with_credential-IsLookup found) Looks-refl)
        Looks-refl

  resolve_community_fetch-IsLookup :
      (key : String) (platform : CommunityPlatform) (preset : Preset)
      → IsLookup (resolve_community_fetch activities key platform preset)
  unfolding resolve_community_fetch
  resolve_community_fetch-IsLookup key platform preset =
      bind-IsLookup
        (lift (
          extract_community_fetch_input activities.print preset.key preset.inputs
            activities.start_time))
        (λ input. read_connection activities input >>= λ connection.
          with_connection activities key platform input connection)
        Looks-refl
        (λ input.
          bind-IsLookup (read_connection activities input)
            (with_connection activities key platform input)
            (await-IsLookup (get_community_connection input.connection_id)
              activities.gets_connection refl)
            (with_connection-IsLookup key platform input))

  write_back_health-IsLookup :
      (connection_id : String) (e : Thrown)
      → IsLookup (write_back_health activities connection_id e)
  unfolding write_back_health
  write_back_health-IsLookup connection_id e =
      if-IsLookup (activities.is_cancellation e) _ _ Looks-refl
        (await-IsLookup (check_community_health connection_id) activities.checks_health refl)

  call_resolve-IsLookup :
      (queue : Queue) (key : String) (input : DependencyInput)
      → IsLookup (call_resolve activities queue key input)
  call_resolve-IsLookup queue key input =
      await-IsLookup (resolve_dependency queue key input) activities.resolves refl

  writeback-IsLookup :
      (key : String) (input : CommunityFetchInput)
      → IsLookup (resolve_community_dependency_with_writeback activities key input)
  unfolding resolve_community_dependency_with_writeback
  writeback-IsLookup key input s =
      let call = call_resolve activities community_queue key (community input) in
      let first = call_resolve-IsLookup community_queue key (community input) s in
      elim (Result-cases (call s).0) [
        | inl (dids_key, e) ↦
            let answer : (call s).1
                ≡ (resolve_community_dependency_with_writeback activities key input s).1 =
              ground (arith, e) in
            subst (Looks s) answer first
        | inr (thrown, e) ↦
            let answer : (write_back_health activities input.connection_id thrown (call s).1).1
                ≡ (resolve_community_dependency_with_writeback activities key input s).1 =
              ground (arith, e) in
            subst (Looks s) answer
              (Looks-trans first (write_back_health-IsLookup input.connection_id thrown (call s).1))
      ]

  resolve_community-IsLookup :
      (key : String) (preset : Preset) (platform : CommunityPlatform)
      → IsLookup (resolve_community activities key preset platform)
  resolve_community-IsLookup key preset platform =
      bind-IsLookup (resolve_community_fetch activities key platform preset)
        (resolve_community_dependency_with_writeback activities key)
        (resolve_community_fetch-IsLookup key platform preset) (writeback-IsLookup key)

  resolve_one-IsLookup :
      (sync_targets : List SyncTarget) (preset_of : String → Preset) (key : String)
      → IsLookup (resolve_one activities sync_targets preset_of key)
  unfolding resolve_one
  resolve_one-IsLookup sync_targets preset_of key =
      let other : Action (Option String) = elim (community_platform key) [
        | none ↦ call_resolve activities orchestrator_queue key plain
        | some platform ↦ resolve_community activities key (preset_of key) platform
      ] in
      if-IsLookup (str_eq key "onchain-data")
        (call_resolve activities onchain_data_queue key (targets sync_targets)) other
        (call_resolve-IsLookup onchain_data_queue key (targets sync_targets))
        (option-IsLookup (community_platform key)
          (call_resolve activities orchestrator_queue key plain)
          (resolve_community activities key (preset_of key))
          (call_resolve-IsLookup orchestrator_queue key plain)
          (resolve_community-IsLookup key (preset_of key)))

  resolve_all-IsLookup :
      (sync_targets : List SyncTarget) (preset_of : String → Preset) (keys : List String)
      (preset : Preset)
      → IsLookup (resolve_all activities sync_targets preset_of keys preset)
  unfolding resolve_all
  resolve_all-IsLookup sync_targets preset_of keys preset =
      bind-IsLookup
        (promise_all activities.earliest (resolve_one activities sync_targets preset_of) keys)
        (λ results. returns (with_dids results preset))
        (promise_all-IsLookup activities.earliest (resolve_one activities sync_targets preset_of)
          keys (resolve_one-IsLookup sync_targets preset_of))
        (λ results. Looks-refl)

  resolve_sources-IsLookup :
      (preset : Preset) (sources : List DependencySource)
      → IsLookup (resolve_sources activities preset sources)
  resolve_sources-IsLookup preset sources =
      list-IsLookup (collect_dependency_keys sources) (returns preset)
        (resolve_keys_of_sources activities preset sources) Looks-refl
        (λ key keys.
          bind-IsLookup
            (lift (collect_onchain_sync_targets activities.type_error activities.lower sources))
            (λ found.
              resolve_all activities found (find_dependency_preset preset sources) (key ∷ keys)
                preset)
            Looks-refl
            (λ found.
              resolve_all-IsLookup found (find_dependency_preset preset sources) (key ∷ keys)
                preset))

  child_source-IsLookup : (child : Preset) → IsLookup (child_source activities child)
  child_source-IsLookup child =
      bind-IsLookup
        (await (get_algorithm_definition child.key child.version) activities.gets_definition)
        (λ definition. returns (record { definition = definition; preset = child }))
        (await-IsLookup (get_algorithm_definition child.key child.version)
          activities.gets_definition refl)
        (λ definition. Looks-refl)

  resolve_combined-IsLookup :
      (definition : Definition) (preset : Preset)
      → IsLookup (resolve_combined activities definition preset)
  unfolding resolve_combined
  resolve_combined-IsLookup definition preset =
      let presets = build_combined_child_algorithm_presets preset.inputs definition.inputs in
      let root : DependencySource = record { definition = definition; preset = preset } in
      bind-IsLookup (promise_all activities.earliest (child_source activities) presets)
        (λ children. resolve_sources activities preset (root ∷ children))
        (promise_all-IsLookup activities.earliest (child_source activities) presets
          child_source-IsLookup)
        (λ children. resolve_sources-IsLookup preset (root ∷ children))

  resolve_single-IsLookup :
      (definition : Definition) (preset : Preset)
      → IsLookup (resolve_single activities definition preset)
  unfolding resolve_single
  resolve_single-IsLookup definition preset =
      list-IsLookup definition.dependencies (returns preset)
        (resolve_keys_of activities definition preset) Looks-refl
        (λ key keys.
          bind-IsLookup
            (lift (
              extract_onchain_sync_targets activities.type_error activities.lower preset.inputs
                definition.inputs))
            (λ found. resolve_all activities found (λ _. preset) (key ∷ keys) preset) Looks-refl
            (λ found. resolve_all-IsLookup found (λ _. preset) (key ∷ keys) preset))

  pub resolve_dependencies-IsLookup :
      (definition : Definition) (preset : Preset)
      → IsLookup (resolve_dependencies activities definition preset)
  resolve_dependencies-IsLookup definition preset =
      if-IsLookup (is_text "combined" definition.kind)
        (resolve_combined activities definition preset)
        (resolve_single activities definition preset) (resolve_combined-IsLookup definition preset)
        (resolve_single-IsLookup definition preset)

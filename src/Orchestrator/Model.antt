-- ===== src/Orchestrator/Model.antt =====
-- What the orchestrator reads and writes: snapshots, presets and definitions as it declares them
-- (orchestrator.workflow.ts, shared/types), the calls it makes, and failures.
use reputo.Prelude.{
  ℕ, String, Bool, true, false, Option, none, some, List, [], ◌∷◌, Result, err, ok, str_eq,
}
use reputo.Values.{Value, PresetInput}
use reputo.Snapshot.Status.{SnapshotStatus}

-- `AlgorithmPresetFrozen`, and the preset of a child.
pub record Preset : Type 0 where
  pub key : String
  pub version : String
  pub inputs : List PresetInput

pub record SnapshotRead : Type 0 where
  pub status : SnapshotStatus
  pub algorithm_preset_frozen : Preset

pub record CatalogResource : Type 0 where
  pub key : String
  pub identifier : String
  pub token_identifier : String

pub record CatalogChain : Type 0 where
  pub key : String
  pub resources : List CatalogResource

-- An input of `OrchestratorAlgorithmDefinition`; no shared keys stand for an absent list.
pub record DefinitionInput : Type 0 where
  pub key : String
  pub type : Option String
  pub shared_input_keys : List String
  pub catalog : Option (List CatalogChain)  -- uiHint?.resourceCatalog?.chains

-- `OrchestratorAlgorithmDefinition`; absent inputs and dependencies are empty lists.
pub record Definition : Type 0 where
  pub key : String
  pub version : String
  pub runtime : String
  pub kind : Option String
  pub inputs : List DefinitionInput
  pub dependencies : List String

pub record DependencySource : Type 0 where
  pub definition : Definition
  pub preset : Preset

pub record SyncTarget : Type 0 where
  pub chain : String
  pub identifier : String

pub data CommunityPlatform : Type 0 where
  discord github mattermost : CommunityPlatform

abbrev pub same_platform : CommunityPlatform → CommunityPlatform → Bool
same_platform discord discord = true
same_platform github github = true
same_platform mattermost mattermost = true
same_platform _ _ = false

abbrev pub platform_name : CommunityPlatform → String
platform_name discord = "discord"
platform_name github = "github"
platform_name mattermost = "mattermost"

-- Times are milliseconds since 1970; `toISOString` prints them.
pub record CommunityFetchInput : Type 0 where
  pub connection_id : String
  pub community_id : Option String
  pub resource_ids : List String
  pub window_start : ℕ
  pub window_end : ℕ
  pub credentials_ciphertext : Option String

pub record Connection : Type 0 where
  pub name : String
  pub platform : CommunityPlatform
  pub external_id : String

abbrev pub AlgorithmOutputs : Type 0
AlgorithmOutputs = List (String × String)

-- `value === s` for a text that may be absent
abbrev pub is_text : String → Option String → Bool
is_text s none = false
is_text s (some t) = str_eq t s

-- What is thrown: an `Error` with its message and its cause, or something else.
pub data ErrorClass : Type 0 where
  application_failure : Option String → ErrorClass  -- with its `type`
  temporal_failure plain_error : ErrorClass

pub data Thrown : Type 0 where
  not_an_error : Thrown
  error : ErrorClass → String → Thrown → Thrown

-- `throw new Error(message)`
abbrev pub new_error : String → Thrown
new_error message = error plain_error message not_an_error

-- The input of `updateSnapshot`; the workflow's own identifiers, the same in each, are left out.
pub record SnapshotUpdate : Type 0 where
  pub status : Option SnapshotStatus
  pub algorithm_task_queue : Option String
  pub outputs : Option AlgorithmOutputs
  pub message : Option String

pub data SnapshotPublicationStatus : Type 0 where
  pending sent failed : SnapshotPublicationStatus

-- The input of `recordSnapshotPublication`; counts are the activity's own.
pub record RecordPublicationInput : Type 0 where
  pub algorithm_key : String
  pub status : SnapshotPublicationStatus
  pub counts : Option (List ℕ)
  pub message : Option String

-- The result of `postSnapshotScores`.
pub record PostResult : Type 0 where
  pub attempted : Bool
  pub counts : List ℕ

pub data DependencyInput : Type 0 where
  plain : DependencyInput
  targets : List SyncTarget → DependencyInput
  community : CommunityFetchInput → DependencyInput

pub data Queue : Type 0 where
  orchestrator_queue onchain_data_queue community_queue : Queue

-- The calls of activities, and that of the encryption lifecycle.
pub data Call : Type 0 where
  get_snapshot : Call
  update_snapshot : SnapshotUpdate → Call
  get_algorithm_definition : String → String → Call
  get_community_connection get_community_sealed_credential check_community_health : String → Call
  resolve_dependency : Queue → String → DependencyInput → Call
  run_typescript_algorithm : String → Preset → Call
  submit_custom_raw_scores : Preset → AlgorithmOutputs → Call
  run_encrypted_lifecycle : Preset → List String → Call
  post_snapshot_scores : SnapshotRead → Call
  record_snapshot_publication : RecordPublicationInput → Call

-- What the activities answer, after the calls so far (the newest first, with the call answered).
pub record Activities : Type 0 where
  pub gets_snapshot : List Call → Result Thrown SnapshotRead
  pub updates_snapshot : List Call → Result Thrown (Unit {0})
  pub gets_definition : List Call → Result Thrown Definition
  pub gets_connection : List Call → Result Thrown Connection
  pub gets_credential : List Call → Result Thrown String
  pub checks_health : List Call → Result Thrown (Unit {0})
  pub resolves : List Call → Result Thrown (Option String)  -- with the key of the DIDs, if any
  pub runs_algorithm : List Call → Result Thrown AlgorithmOutputs
  pub submits_raw : List Call → Result Thrown (List String)  -- the children's score types
  pub runs_lifecycle : List Call → Result Thrown (Unit {0})
  pub posts_scores : List Call → Result Thrown PostResult
  pub records_publication : List Call → Result Thrown (Unit {0})
  pub earliest : List Call → ℕ  -- which of several concurrent failures comes first
  pub is_cancellation : Thrown → Bool  -- `workflow.isCancellation`
  pub start_time : ℕ
  pub lower : String → String  -- `toLowerCase`
  pub print : Value → String  -- `JSON.stringify`, as a template prints it
  pub type_error : Thrown  -- what the engine throws for a property of `null`, or a loop over no list

-- `SnapshotRunState`, with the calls so far, the newest first.
pub record RunState : Type 0 where
  pub algorithm_kind : Option String
  pub algorithm_task_queue : Option String
  pub calls : List Call

-- A computation of the workflow: what it changed stays changed when it throws.
abbrev pub Action {ℓ} : Type ℓ → Type ℓ
Action A = RunState → Result Thrown A × RunState

module _ {ℓ} {A : Type ℓ} where
  abbrev pub returns : A → Action A
  returns a s = (ok a, s)

  abbrev pub throws : Thrown → Action A
  throws e s = (err e, s)

  abbrev pub lift : Result Thrown A → Action A
  lift r s = (r, s)

  infixl 5 ◌>>=◌ ◌>>◌
  abbrev pub ◌>>=◌ {κ} : {B : Type κ} → Action A → (A → Action B) → Action B
  ◌>>=◌ m f s = let (r, t) = m s in elim r [ ok a ↦ f a t | err e ↦ (err e, t) ]

  abbrev pub ◌>>◌ {κ} : {B : Type κ} → Action A → Action B → Action B
  m >> k = m >>= λ _. k

  -- `await activity(...)`
  abbrev pub await : Call → (List Call → Result Thrown A) → Action A
  await call answers s = let calls = call ∷ s.calls in (answers calls, record s { calls = calls })

  abbrev pub element_or : A → List A → ℕ → A
  element_or a [] n = a
  element_or a (x ∷ xs) ℕ.zero = x
  element_or a (x ∷ xs) (ℕ.suc n) = element_or a xs n

-- `Promise.all(xs.map(f))`: every one is started. Their calls are listed one element after the
-- other.
unfoldable pub settle_all {ℓ κ} :
    {A : Type ℓ} {B : Type κ}
    → (A → Action B)
    → List A
    → RunState
    → (List Thrown × List B) × RunState
settle_all f [] s = (([], []), s)
settle_all f (x ∷ xs) s =
    let (r, t) = f x s in
    let ((es, bs), u) = settle_all f xs t in
    elim r [ ok b ↦ ((es, b ∷ bs), u) | err e ↦ ((e ∷ es, bs), u) ]

unfoldable pub promise_all {ℓ κ} :
    {A : Type ℓ} {B : Type κ} → (List Call → ℕ) → (A → Action B) → List A → Action (List B)
promise_all earliest f xs s =
    let ((es, bs), t) = settle_all f xs s in
    elim es [ [] ↦ (ok bs, t) | e ∷ more ↦ (err (element_or e (e ∷ more) (earliest t.calls)), t) ]

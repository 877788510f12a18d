-- ===== src/Orchestrator/Run.antt =====
-- The run of the orchestrator (`OrchestratorWorkflow` of orchestrator.workflow.ts): its guard, its
-- failure handler and the publication of the scores.
use reputo.Prelude.{
  String, Bool, true, false, ◌||◌, Option, none, some, List, [], err, ok, if◌then◌else◌,
}
use reputo.Values.Texts.{is_empty}
use reputo.Snapshot.Status.{SnapshotStatus, running, completed, failed, cancelled, same_status}
use reputo.Orchestrator.Model.{
  SnapshotRead, Thrown, ErrorClass, not_an_error, error, application_failure, temporal_failure,
  plain_error, is_text, SnapshotUpdate, RecordPublicationInput, SnapshotPublicationStatus, pending,
  sent, PostResult, Call, get_snapshot, update_snapshot, post_snapshot_scores,
  record_snapshot_publication, Activities, RunState, Action, returns, throws, await, ◌>>=◌, ◌>>◌,
}
use reputo.Orchestrator.Model
use reputo.Orchestrator.Phases.{run_snapshot_phases}

abbrev pub snapshot_not_found_error_type : String
snapshot_not_found_error_type = "SnapshotNotFoundError"

abbrev pub post_scores_failure_error_type : String
post_scores_failure_error_type = "DEEPID_POST_SCORES_FAILURE"

-- `current instanceof ApplicationFailure && current.type === type`
abbrev pub is_failure_of : String → ErrorClass → Bool
is_failure_of type (application_failure t) = is_text type t
is_failure_of type _ = false

unfoldable pub is_snapshot_not_found : Thrown → Bool
is_snapshot_not_found not_an_error = false
is_snapshot_not_found (error class message cause) =
    is_failure_of snapshot_not_found_error_type class || is_snapshot_not_found cause

unfoldable pub describe_publication_failure : Thrown → String
describe_publication_failure not_an_error = "The score posting activity failed"
describe_publication_failure (error class message cause) =
    if is_failure_of post_scores_failure_error_type class
    then message
    else describe_publication_failure cause

-- `(error as Error).message || 'Unknown error'`
abbrev pub message_of : Thrown → String
message_of not_an_error = "Unknown error"
message_of (error _ message _) = if is_empty message then "Unknown error" else message

-- An update of the status alone.
abbrev pub status_update : SnapshotStatus → Option String → Option String → Call
status_update status queue message = update_snapshot (record {
  status = some status;
  algorithm_task_queue = queue;
  outputs = none;
  message = message;
})

module _ (activities : Activities) where
  -- The status that a failure ends in, and the message that goes with it.
  abbrev pub terminal_status : Thrown → SnapshotStatus
  terminal_status e = if activities.is_cancellation e then cancelled else failed

  abbrev pub terminal_message : Thrown → String
  terminal_message e =
      if activities.is_cancellation e then "Workflow was cancelled" else message_of e

  -- `catch (error)` around the phases: a failure of its own write is swallowed.
  unfoldable pub handle_failure : Thrown → Action (Unit {0})
  unfolding is_snapshot_not_found
  handle_failure e s = if is_snapshot_not_found e then (err e, s) else (
    err e,
    (await (status_update (terminal_status e) s.algorithm_task_queue (some (terminal_message e)))
        activities.updates_snapshot s).1,
  )

  -- A failure to record is swallowed.
  abbrev pub record_result :
      String
      → SnapshotPublicationStatus
      → Option (List Prim.Native.Nat.ℕ)
      → Option String
      → Action (Unit {0})
  record_result key status counts message s = (
    ok tt,
    (await
        (record_snapshot_publication
          (record { algorithm_key = key; status = status; counts = counts; message = message }))
        activities.records_publication s).1,
  )

  -- The body of the `try` around the posting.
  unfoldable pub post_scores : String → Action (Unit {0})
  post_scores key = do
    completed_snapshot ← await get_snapshot activities.gets_snapshot
    record_result key pending none none
    result ← await (post_snapshot_scores completed_snapshot) activities.posts_scores
    if result.attempted
        then record_result key sent (some result.counts) none
        else record_result key Model.failed none
            (some "The algorithm produced no postable score output")

  unfoldable pub publish : String → Action (Unit {0})
  unfolding post_scores describe_publication_failure
  publish key s =
      let (r, t) = post_scores key s in
      elim r [
        | ok _ ↦ (ok tt, t)
        | err e ↦ record_result key Model.failed none (some (describe_publication_failure e)) t
      ]

  -- The run after `running` is written.
  unfoldable pub run_and_publish : SnapshotRead → Action (Unit {0})
  unfolding handle_failure publish run_snapshot_phases
  run_and_publish snapshot s =
      let (r, t) = run_snapshot_phases activities snapshot.algorithm_preset_frozen s in
      elim r [
        | err e ↦ handle_failure e t
        | ok _ ↦
            if is_text "combined" t.algorithm_kind
            then (ok tt, t)
            else publish snapshot.algorithm_preset_frozen.key t
      ]

  unfoldable pub run_orchestrator : Action (Unit {0})
  unfolding run_and_publish
  run_orchestrator = do
    snapshot ← await get_snapshot activities.gets_snapshot
    if same_status snapshot.status completed then returns tt else (do
      await (status_update running none none) activities.updates_snapshot
      run_and_publish snapshot)

  -- `instanceof TemporalFailure`
  abbrev pub is_temporal : Thrown → Bool
  is_temporal (error plain_error _ _) = false
  is_temporal not_an_error = false
  is_temporal _ = true

  -- `ApplicationFailure.fromError`, of which the orchestrator relies only on its being a failure
  -- that Temporal knows, made from the error.
  unfoldable pub orchestrator_workflow : (Thrown → Thrown) → Action (Unit {0})
  unfolding run_orchestrator
  orchestrator_workflow from_error s =
      let (r, t) = run_orchestrator s in
      elim r [ ok _ ↦ (ok tt, t) | err e ↦ (err (if is_temporal e then e else from_error e), t) ]

-- Before the first call.
abbrev pub fresh_run : RunState
fresh_run = record { algorithm_kind = none; algorithm_task_queue = none; calls = [] }

-- ===== src/Orchestrator/Settled.antt =====
-- A run that began leaves a terminal status (`runOrchestrator` of orchestrator.workflow.ts).
use reputo.Prelude.{
  ◌≡◌, refl, subst, Bool, true, false, ◌&&◌, some, none, List, [], ◌∷◌, ◌⊎◌, inl, inr, Result, err,
  ok, Result-cases, if◌then◌else◌, arith, String,
}
use reputo.Snapshot.Status.{SnapshotStatus, running, completed, failed, cancelled, same_status}
use reputo.Orchestrator.Model.{
  Preset, SnapshotRead, Definition, AlgorithmOutputs, Thrown, Call, update_snapshot, get_snapshot,
  Activities, RunState, Action, await, lift, ◌>>=◌, get_algorithm_definition,
}
use reputo.Orchestrator.Presets.{get_algorithm_task_queue_from_runtime}
use reputo.Orchestrator.Traces.{
  status_writes, ever, status_writes-lookups, Looks, Looks-refl, await-IsLookup,
}
use reputo.Orchestrator.Phases.{
  execute, submit_combined, run_snapshot_phases, resolve_dependencies, phases_on_queue, phases_of,
  set_kind, set_queue,
}
use reputo.Orchestrator.Resolving.{resolve_dependencies-IsLookup}
use reputo.Orchestrator.Run.{
  is_snapshot_not_found, status_update, handle_failure, publish, post_scores, run_and_publish,
  run_orchestrator, fresh_run,
}

module _ (activities : Activities) where
  -- The newest call writes `completed`, and has succeeded.
  abbrev pub completed_written : List Call → Bool
  completed_written (update_snapshot u ∷ calls) = elim u.status [
    | none ↦ false
    | some status ↦
        same_status status completed
        && elim (activities.updates_snapshot (update_snapshot u ∷ calls)) [
          | ok _ ↦ true
          | err _ ↦ false
        ]
  ]
  completed_written _ = false

  -- How the phases end, with the status that they wrote.
  abbrev pub Ended {ℓ} : {A : Type ℓ} → List SnapshotStatus → Result Thrown A × RunState → Type 0
  Ended old (ok _, t) =
      (status_writes t.calls ≡ completed ∷ old) × (ever completed_written t.calls ≡ true)
  Ended old (err e, t) = (status_writes t.calls ≡ old) ⊎ (status_writes t.calls ≡ completed ∷ old)

  submit_combined-quiet :
      (queue : String) (preset : Preset) (outputs : AlgorithmOutputs) (s : RunState)
      → status_writes (submit_combined activities queue preset outputs s).1.calls
        ≡ status_writes s.calls
  unfolding submit_combined
  submit_combined-quiet queue preset outputs s = ground arith

  execute-Ended :
      (definition : Definition) (queue : String) (preset : Preset) (s : RunState)
      → Ended (status_writes s.calls) (execute activities definition queue preset s)
  unfolding execute
  execute-Ended definition queue preset s = ground (arith, submit_combined-quiet queue preset)

  bind-Ended {ℓ} :
      {A : Type ℓ} (m : Action A) (f : A → Action (Unit {0})) (s : RunState)
      → Looks s (m s).1
      → ((a : A) (t : RunState) → Ended (status_writes t.calls) (f a t))
      → Ended (status_writes s.calls) ((m >>= f) s)
  bind-Ended m f s (new, e, h) rest =
      let same : status_writes (m s).1.calls ≡ status_writes s.calls =
        ground (arith, e, status_writes-lookups new s.calls h) in
      elim (Result-cases (m s).0) [
        | inl (a, e1) ↦
            let answer : f a (m s).1 ≡ (m >>= f) s = ground (arith, e1) in
            subst (Ended (status_writes s.calls)) answer
              (subst (λ old. Ended old (f a (m s).1)) same (rest a (m s).1))
        | inr (thrown, e2) ↦
            let answer : (err thrown, (m s).1) ≡ (m >>= f) s = ground (arith, e2) in
            subst (Ended (status_writes s.calls)) answer (inl same)
      ]

  phases_on_queue-Ended :
      (definition : Definition) (preset : Preset) (queue : String) (s : RunState)
      → Ended (status_writes s.calls) (phases_on_queue activities definition preset queue s)
  phases_on_queue-Ended definition preset queue s =
      bind-Ended (resolve_dependencies activities definition preset)
        (execute activities definition queue) (set_queue queue s).1
        (resolve_dependencies-IsLookup activities definition preset (set_queue queue s).1)
        (execute-Ended definition queue)

  phases_of-Ended :
      (preset : Preset) (definition : Definition) (s : RunState)
      → Ended (status_writes s.calls) (phases_of activities preset definition s)
  phases_of-Ended preset definition s =
      bind-Ended (lift (get_algorithm_task_queue_from_runtime definition.runtime))
        (phases_on_queue activities definition preset) (set_kind definition.kind s).1
        (Looks-refl (set_kind definition.kind s).1) (phases_on_queue-Ended definition preset)

  run_snapshot_phases-Ended :
      (preset : Preset) (s : RunState)
      → Ended (status_writes s.calls) (run_snapshot_phases activities preset s)
  unfolding run_snapshot_phases
  run_snapshot_phases-Ended preset s =
      bind-Ended
        (await (get_algorithm_definition preset.key preset.version) activities.gets_definition)
        (phases_of activities preset) s
        (await-IsLookup (get_algorithm_definition preset.key preset.version)
          activities.gets_definition refl s)
        (phases_of-Ended preset)

  publish-quiet :
      (key : String) (s : RunState)
      → ((publish activities key s).0 ≡ ok tt)
        × (status_writes (publish activities key s).1.calls ≡ status_writes s.calls)
        × (ever completed_written (publish activities key s).1.calls
            ≡ ever completed_written s.calls)
  unfolding publish post_scores
  publish-quiet key s = ground arith

  -- The statuses that a run has tried to write when it ends, the newest first, once it has written
  -- `running`.
  abbrev pub IsSettled : Result Thrown (Unit {0}) × RunState → Type 0
  IsSettled (ok _, t) =
      (status_writes t.calls ≡ completed ∷ running ∷ []) × (ever completed_written t.calls ≡ true)
  IsSettled (err e, t) =
      if is_snapshot_not_found e
      then (status_writes t.calls ≡ running ∷ [])
        ⊎ (status_writes t.calls ≡ completed ∷ running ∷ [])
      else (let last = if activities.is_cancellation e then cancelled else failed in
          (status_writes t.calls ≡ last ∷ running ∷ [])
          ⊎ (status_writes t.calls ≡ last ∷ completed ∷ running ∷ []))

  run_and_publish-IsSettled :
      (snapshot : SnapshotRead) (s : RunState)
      → status_writes s.calls ≡ running ∷ []
      → IsSettled (run_and_publish activities snapshot s)
  unfolding run_and_publish handle_failure
  run_and_publish-IsSettled snapshot s h =
      let preset = snapshot.algorithm_preset_frozen in
      let phases = run_snapshot_phases-Ended preset s in
      elim (Result-cases (run_snapshot_phases activities preset s).0) [
        | inl (a, e) ↦ ground (
          arith,
          e,
          h,
          phases,
          publish-quiet preset.key (run_snapshot_phases activities preset s).1,
        )
        | inr (thrown, e) ↦ ground (arith, e, h, phases)
      ]

-- Once a run has read a snapshot that is not completed and has written `running`, whatever the
-- activities answer: when it returns, it has written `completed` next, that write has succeeded, and
-- it has tried to write no other status after. When
-- it fails, the last status that it tried to write is `cancelled` for a cancellation and `failed`
-- for any other failure, after `running` and at most an attempt to write `completed`; only when the
-- failure says that the snapshot is gone, it tries to write no such status.
pub run_orchestrator-IsSettled :
    (activities : Activities) {snapshot : SnapshotRead}
    → activities.gets_snapshot (get_snapshot ∷ []) ≡ ok snapshot
    → same_status snapshot.status completed ≡ false
    → activities.updates_snapshot (status_update running none none ∷ get_snapshot ∷ []) ≡ ok tt
    → IsSettled activities (run_orchestrator activities fresh_run)
unfolding run_orchestrator
run_orchestrator-IsSettled activities {snapshot} h n w =
    let begun : RunState = record fresh_run {
      calls = status_update running none none ∷ get_snapshot ∷ [];
    } in
    let answer : run_and_publish activities snapshot begun ≡ run_orchestrator activities fresh_run =
      ground (arith, h, n, w) in
    subst (IsSettled activities) answer (run_and_publish-IsSettled activities snapshot begun refl)

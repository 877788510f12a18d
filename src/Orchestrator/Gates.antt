-- ===== src/Orchestrator/Gates.antt =====
-- The order of the calls of a whole run (`runOrchestrator` of orchestrator.workflow.ts).
use reputo.Prelude.{
  ◌≡◌, refl, sym, ◌∙◌, subst, Bool, true, false, Option, none, List, [], ◌∷◌, ◌++◌, inl, inr,
  Result-cases, arith, String,
}
use reputo.Snapshot.Status.{running}
use reputo.Orchestrator.Model.{
  Preset, SnapshotRead, Definition, Thrown, Call, get_snapshot, Activities, RunState, Action, await,
  lift, ◌>>=◌, get_algorithm_definition,
}
use reputo.Orchestrator.Presets.{get_algorithm_task_queue_from_runtime}
use reputo.Orchestrator.Traces.{is_lookup, after, after-lookups, Looks, Looks-refl}
use reputo.Orchestrator.Phases.{
  execute, submit_combined, run_snapshot_phases, resolve_dependencies, phases_on_queue, phases_of,
  set_kind, set_queue,
}
use reputo.Orchestrator.Resolving.{resolve_dependencies-IsLookup}
use reputo.Orchestrator.Ordered.{
  is_completion, writes_outputs_only, submits_raw_scores, starts_lifecycle, algorithm_done,
  outputs_written, raw_done, lifecycle_done, IsOrdered, execute-IsOrdered,
}
use reputo.Orchestrator.Run.{
  status_update, handle_failure, publish, post_scores, run_and_publish, run_orchestrator, fresh_run,
}

module _ (activities : Activities) where
  lookup_kinds :
      (call : Call)
      → is_lookup call ≡ true
      → (is_completion call ≡ false)
        × (writes_outputs_only call ≡ false)
        × (submits_raw_scores call ≡ false)
        × (starts_lifecycle call ≡ false)
  lookup_kinds call h = ground (arith, h)

  -- A run of this kind, with its calls in order.
  abbrev InOrder : Option String → RunState → Type 0
  InOrder kind s = (s.algorithm_kind ≡ kind) × IsOrdered activities kind s.calls

  lookups-InOrder :
      (kind : Option String) (s : RunState) {t : RunState}
      → Looks s t
      → InOrder kind s
      → InOrder kind t
  lookups-InOrder kind s {t} (new, e, l) (k, (a, b, c, d, f)) =
      let moved : (late : Call → Bool) (early : List Call → Bool)
          → ((call : Call) → is_lookup call ≡ true → late call ≡ false)
          → after late early s.calls ≡ true
          → after late early (new ++ s.calls) ≡ true =
        λ late early other. after-lookups late early other new s.calls l in
      subst (InOrder kind) (sym e) (
        k,
        (
          moved is_completion (algorithm_done activities) (λ call h. (lookup_kinds call h).0) a,
          moved writes_outputs_only (algorithm_done activities) (λ call h. (lookup_kinds call h).1)
              b,
          moved submits_raw_scores (outputs_written activities) (λ call h. (lookup_kinds call h).2)
              c,
          moved starts_lifecycle (raw_done activities) (λ call h. (lookup_kinds call h).3) d,
          ground (
            arith,
            f,
            moved is_completion (lifecycle_done activities) (λ call h. (lookup_kinds call h).0),
          ),
        ),
      )

  execute-InOrder :
      (definition : Definition) (queue : String) (preset : Preset) (s : RunState)
      → InOrder definition.kind s
      → InOrder definition.kind (execute activities definition queue preset s).1
  unfolding execute submit_combined
  execute-InOrder definition queue preset s (k, h) =
      let kept : (execute activities definition queue preset s).1.algorithm_kind
          ≡ s.algorithm_kind =
        ground arith in
      (kept ∙ k, execute-IsOrdered activities definition queue preset s h)

  bind-InOrder {ℓ} :
      {A : Type ℓ} (kind : Option String) (m : Action A) (f : A → Action (Unit {0})) (s : RunState)
      → Looks s (m s).1
      → ((a : A) (t : RunState) → InOrder kind t → InOrder kind (f a t).1)
      → InOrder kind s
      → InOrder kind ((m >>= f) s).1
  bind-InOrder kind m f s looks rest h =
      let looked = lookups-InOrder kind s looks h in
      elim (Result-cases (m s).0) [
        | inl (a, e) ↦
            let answer : (f a (m s).1).1 ≡ ((m >>= f) s).1 = ground (arith, e) in
            subst (InOrder kind) answer (rest a (m s).1 looked)
        | inr (thrown, e) ↦
            let answer : (m s).1 ≡ ((m >>= f) s).1 = ground (arith, e) in
            subst (InOrder kind) answer looked
      ]

  phases_on_queue-InOrder :
      (definition : Definition) (preset : Preset) (queue : String) (s : RunState)
      → InOrder definition.kind s
      → InOrder definition.kind (phases_on_queue activities definition preset queue s).1
  phases_on_queue-InOrder definition preset queue s h =
      bind-InOrder definition.kind (resolve_dependencies activities definition preset)
        (execute activities definition queue) (set_queue queue s).1
        (resolve_dependencies-IsLookup activities definition preset (set_queue queue s).1)
        (execute-InOrder definition queue) h

  -- A run in which the definition was looked up last, or was not found.
  phases_of-InOrder :
      (preset : Preset) (definition : Definition) (s : RunState)
      → IsOrdered activities definition.kind s.calls
      → InOrder definition.kind (phases_of activities preset definition s).1
  phases_of-InOrder preset definition s h =
      bind-InOrder definition.kind (lift (get_algorithm_task_queue_from_runtime definition.runtime))
        (phases_on_queue activities definition preset) (set_kind definition.kind s).1
        (Looks-refl (set_kind definition.kind s).1) (phases_on_queue-InOrder definition preset)
        (refl, h)

  abbrev Sorted : RunState → Type 0
  Sorted s = IsOrdered activities s.algorithm_kind s.calls

  run_snapshot_phases-Sorted :
      (preset : Preset) (s : RunState)
      → ((kind : Option String)
          → IsOrdered activities kind
              (get_algorithm_definition preset.key preset.version ∷ s.calls))
      → Sorted s
      → Sorted (run_snapshot_phases activities preset s).1
  unfolding run_snapshot_phases
  run_snapshot_phases-Sorted preset s any_kind h =
      let call =
        await (get_algorithm_definition preset.key preset.version) activities.gets_definition s in
      elim (Result-cases call.0) [
        | inl (definition, e) ↦
            let (k, ordered) =
              phases_of-InOrder preset definition call.1 (any_kind definition.kind) in
            let answer : (phases_of activities preset definition call.1).1
                ≡ (run_snapshot_phases activities preset s).1 =
              ground (arith, e) in
            subst Sorted answer (
              subst
                (λ kind.
                  IsOrdered activities kind (phases_of activities preset definition call.1).1.calls)
                (sym k) ordered)
        | inr (thrown, e) ↦
            let answer : call.1 ≡ (run_snapshot_phases activities preset s).1 = ground (arith, e) in
            subst Sorted answer (any_kind s.algorithm_kind)
      ]

  handle_failure-Sorted :
      (e : Thrown) (s : RunState) → Sorted s → Sorted (handle_failure activities e s).1
  unfolding handle_failure
  handle_failure-Sorted e s h = ground (arith, h)

  publish-Sorted : (key : String) (s : RunState) → Sorted s → Sorted (publish activities key s).1
  unfolding publish post_scores
  publish-Sorted key s h = ground (arith, h)

  run_and_publish-Sorted :
      (snapshot : SnapshotRead) (s : RunState)
      → Sorted (run_snapshot_phases activities snapshot.algorithm_preset_frozen s).1
      → Sorted (run_and_publish activities snapshot s).1
  unfolding run_and_publish
  run_and_publish-Sorted snapshot s h =
      let preset = snapshot.algorithm_preset_frozen in
      let ran = run_snapshot_phases activities preset s in
      elim (Result-cases ran.0) [
        | inl (a, e) ↦ ground (arith, e, h, publish-Sorted preset.key ran.1)
        | inr (thrown, e) ↦ ground (arith, e, handle_failure-Sorted thrown ran.1 h)
      ]

-- However a run ends and whatever the activities answer: each attempt to write `completed` comes
-- after the algorithm has succeeded; each write of outputs alone, after the algorithm; each
-- submission of raw scores, after the outputs are written; each start of the encryption lifecycle,
-- after the raw scores are accepted; and, when the algorithm is a combined one, each attempt to
-- write `completed` after the lifecycle has ended well.
pub run_orchestrator-IsOrdered :
    (activities : Activities)
    → let t = (run_orchestrator activities fresh_run).1 in
      IsOrdered activities t.algorithm_kind t.calls
unfolding run_orchestrator
run_orchestrator-IsOrdered activities =
    let begun : RunState = record fresh_run {
      calls = status_update running none none ∷ get_snapshot ∷ [];
    } in
    let rest : (snapshot : SnapshotRead)
        → Sorted activities (run_and_publish activities snapshot begun).1 =
      λ snapshot. run_and_publish-Sorted activities snapshot begun (
        run_snapshot_phases-Sorted activities snapshot.algorithm_preset_frozen begun
          (λ kind. ground arith) (ground arith)) in
    elim (Result-cases (activities.gets_snapshot (get_snapshot ∷ []))) [
      | inl (snapshot, e) ↦ ground (arith, e, rest snapshot)
      | inr (thrown, e) ↦ ground (arith, e)
    ]

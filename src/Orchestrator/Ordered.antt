-- ===== src/Orchestrator/Ordered.antt =====
-- The order of the calls that execute an algorithm: what is submitted and completed comes after what it needs
-- (`runSnapshotPhases` of orchestrator.workflow.ts).
use reputo.Prelude.{
  ◌≡◌, Bool, true, false, not, ◌&&◌, ◌||◌, Option, none, some, List, [], ◌∷◌, inl, inr, Result, err,
  ok, Result-cases, Bool-cases, arith, String,
}
use reputo.Snapshot.Status.{completed, same_status}
use reputo.Orchestrator.Model.{
  Preset, Definition, AlgorithmOutputs, Thrown, Call, update_snapshot, run_typescript_algorithm,
  submit_custom_raw_scores, run_encrypted_lifecycle, Activities, RunState, is_text, await,
}
use reputo.Orchestrator.Traces.{ever, after}
use reputo.Orchestrator.Phases.{execute, submit_combined, submit_and_complete, completion}

abbrev pub is_completion : Call → Bool
is_completion (update_snapshot u) = elim u.status [
  | none ↦ false
  | some status ↦ same_status status completed
]
is_completion _ = false

abbrev pub writes_outputs_only : Call → Bool
writes_outputs_only (update_snapshot u) = elim u.status [ none ↦ true | some _ ↦ false ]
writes_outputs_only _ = false

abbrev pub submits_raw_scores : Call → Bool
submits_raw_scores (submit_custom_raw_scores _ _) = true
submits_raw_scores _ = false

abbrev pub starts_lifecycle : Call → Bool
starts_lifecycle (run_encrypted_lifecycle _ _) = true
starts_lifecycle _ = false

abbrev is_ok {ℓ} : {A : Type ℓ} → Result Thrown A → Bool
is_ok (ok _) = true
is_ok (err _) = false

-- The newest call is of a kind, and has succeeded.
module _ (activities : Activities) where
  abbrev pub algorithm_done : List Call → Bool
  algorithm_done [] = false
  algorithm_done (run_typescript_algorithm q p ∷ calls) =
      is_ok (activities.runs_algorithm (run_typescript_algorithm q p ∷ calls))
  algorithm_done (_ ∷ _) = false

  abbrev pub outputs_written : List Call → Bool
  outputs_written [] = false
  outputs_written (call ∷ calls) =
      writes_outputs_only call && is_ok (activities.updates_snapshot (call ∷ calls))

  abbrev pub raw_done : List Call → Bool
  raw_done [] = false
  raw_done (call ∷ calls) = submits_raw_scores call && is_ok (activities.submits_raw (call ∷ calls))

  abbrev pub lifecycle_done : List Call → Bool
  lifecycle_done [] = false
  lifecycle_done (call ∷ calls) =
      starts_lifecycle call && is_ok (activities.runs_lifecycle (call ∷ calls))

  -- The order of a run: `completed` is written after the algorithm has succeeded. Of a combined
  -- algorithm, the outputs are written after that, the raw scores submitted after the outputs are
  -- written, the lifecycle started after the raw scores are accepted, and `completed` written after
  -- the lifecycle has ended well.
  abbrev pub IsOrdered : Option String → List Call → Type 0
  IsOrdered kind calls =
      (after is_completion algorithm_done calls ≡ true)
      × (after writes_outputs_only algorithm_done calls ≡ true)
      × (after submits_raw_scores outputs_written calls ≡ true)
      × (after starts_lifecycle raw_done calls ≡ true)
      × ((not (is_text "combined" kind) || after is_completion lifecycle_done calls) ≡ true)

  submit_combined-IsOrdered :
      (queue : String) (preset : Preset) (outputs : AlgorithmOutputs) (s : RunState)
      (kind : Option String)
      → ever algorithm_done s.calls ≡ true
      → IsOrdered kind s.calls
      → IsOrdered kind (submit_combined activities queue preset outputs s).1.calls
  unfolding submit_combined
  submit_combined-IsOrdered queue preset outputs s kind d h = ground (arith, d, h)

  submitted_combined :
      (queue : String) (preset : Preset) (outputs : AlgorithmOutputs) (s : RunState)
      → ever algorithm_done s.calls ≡ true
      → (submit_combined activities queue preset outputs s).0 ≡ ok tt
      → (ever lifecycle_done (submit_combined activities queue preset outputs s).1.calls ≡ true)
        × (ever algorithm_done (submit_combined activities queue preset outputs s).1.calls ≡ true)
  unfolding submit_combined
  submitted_combined queue preset outputs s d h = ground (arith, d, h)

  -- The completion of a run whose kind is known.
  complete-IsOrdered :
      (queue : String) (outputs : AlgorithmOutputs) (s : RunState) (kind : Option String)
      → ever algorithm_done s.calls ≡ true
      → (not (is_text "combined" kind) || ever lifecycle_done s.calls) ≡ true
      → IsOrdered kind s.calls
      → IsOrdered kind (await (completion queue outputs) activities.updates_snapshot s).1.calls
  complete-IsOrdered queue outputs s kind d l h = ground (arith, d, l, h)

  combined-IsOrdered :
      (definition : Definition) (queue : String) (preset : Preset) (outputs : AlgorithmOutputs)
      (s : RunState)
      → ever algorithm_done s.calls ≡ true
      → IsOrdered definition.kind s.calls
      → IsOrdered definition.kind
          (submit_and_complete activities definition queue preset outputs s).1.calls
  combined-IsOrdered definition queue preset outputs s d h =
      let submitted = submit_combined activities queue preset outputs s in
      let ordered = submit_combined-IsOrdered queue preset outputs s definition.kind d h in
      elim (Bool-cases (is_text "combined" definition.kind)) [
        | inl c ↦ elim (Result-cases submitted.0) [
          | inl (a, e) ↦
              let (l, still) = submitted_combined queue preset outputs s d (ground (arith, e)) in
              let done =
                complete-IsOrdered queue outputs submitted.1 definition.kind still
                  (ground (arith, l)) ordered in
              ground (arith, c, e, done)
          | inr (thrown, e) ↦ ground (arith, c, e, ordered)
        ]
        | inr n ↦
            let done = complete-IsOrdered queue outputs s definition.kind d (ground (arith, n)) h in
            ground (arith, n, done)
      ]

  pub execute-IsOrdered :
      (definition : Definition) (queue : String) (preset : Preset) (s : RunState)
      → IsOrdered definition.kind s.calls
      → IsOrdered definition.kind (execute activities definition queue preset s).1.calls
  unfolding execute
  execute-IsOrdered definition queue preset s h =
      let run = await (run_typescript_algorithm queue preset) activities.runs_algorithm s in
      elim (Result-cases run.0) [
        | inl (outputs, e) ↦
            ground (arith, e, h, combined-IsOrdered definition queue preset outputs run.1)
        | inr (thrown, e) ↦ ground (arith, e, h)
      ]

-- ===== src/Workflow/Rounds.antt =====
-- The rounds of waiting and processing end, unless passes stay pending after the deadline
-- (encrypted-custom-score.ts).
use reputo.Prelude.{
  ℕ, zero, suc, ◌+◌, ◌-◌, ◌*◌, ◌≤◌, true, false, Option, none, some, [], ◌∷◌, ◌≡◌, ◌≢◌, refl, min,
  or_else, arith, inl, inr, ◌⊎◌,
}
use reputo.Workflow.Readiness.{
  Environment, CheckEncryptionReadinessResult, EncryptionReadinessPollOutcome, Polled, is_ready,
  timed_out, check_failed, polls_at, outcome_of, poll_loop, poll_for_encryption_readiness, minute,
  deep_id_encryption_deadline_ms,
}
use reputo.Workflow.Deadline.{IsSettled, poll_for_encryption_readiness-Ends}
use reputo.Workflow.Lifecycle.{
  SubmissionOutcome, submitted, pending, Processing, LifecycleEnd, finished, encryption_timeout,
  activity_failed, lifecycle_loop, run_encrypted_custom_score_lifecycle,
}

-- What an ending of the rounds means: they finish on a wait that was ready, and they fail with a
-- timeout at the deadline at the earliest.
abbrev pub IsOver : ℕ → LifecycleEnd → ℕ → Type 0
IsOver deadline (finished o rounds) done = o.pass.ready ≡ true
IsOver deadline (encryption_timeout o) done = (o.pass.ready ≡ false) × (deadline ≤ done)
IsOver deadline activity_failed done = Unit

submission-cases :
    (o : Option SubmissionOutcome) → (o ≡ some pending) ⊎ (o ≡ some submitted) ⊎ (o ≡ none)
submission-cases none = inr (inr refl)
submission-cases (some submitted) = inr (inl refl)
submission-cases (some pending) = inl refl

module _ (env : ℕ → Environment) (processing : Processing) (deadline : ℕ) where
  abbrev Over : Option (LifecycleEnd × ℕ) → Type 0
  Over o = (e : LifecycleEnd) × (done : ℕ) × (o ≡ some (e, done)) × IsOver deadline e done

  after_ready :
      (fuel rounds now at : ℕ) (o : EncryptionReadinessPollOutcome)
      → poll_for_encryption_readiness (env rounds) (some deadline) now ≡ some (is_ready o, at)
      → o.pass.ready ≡ true
      → (processing.submit rounds at ≡ some pending
          → Over (
              lifecycle_loop env processing deadline fuel
                (rounds + 1)
                (processing.submits_at rounds at)))
      → Over (lifecycle_loop env processing deadline (suc fuel) rounds now)
  unfolding lifecycle_loop
  after_ready fuel rounds now at o p r rest =
      elim (submission-cases (processing.submit rounds at)) [
        | inl w ↦ let (e, done, h, over) = rest w in (e, done, ground (arith, p, w, h), over)
        | inr (inl f) ↦
            (finished o rounds, processing.submits_at rounds at, ground (arith, p, f), r)
        | inr (inr n) ↦ (activity_failed, processing.submits_at rounds at, ground (arith, p, n), tt)
      ]

  -- A round, after its wait.
  round-Over :
      (fuel rounds now : ℕ) (p : Polled) (at : ℕ)
      → poll_for_encryption_readiness (env rounds) (some deadline) now ≡ some (p, at)
      → IsSettled now deadline now p at
      → (processing.submit rounds at ≡ some pending
          → now + min minute (deadline - now) ≤ at
          → Over (
              lifecycle_loop env processing deadline fuel
                (rounds + 1)
                (processing.submits_at rounds at)))
      → Over (lifecycle_loop env processing deadline (suc fuel) rounds now)
  unfolding lifecycle_loop
  round-Over fuel rounds now (is_ready o) at e (r, _, _, later) rest =
      after_ready fuel rounds now at o e r (λ w. rest w later)
  round-Over fuel rounds now (timed_out o) at e (r, _, _, over) rest =
      (encryption_timeout o, at, ground (arith, e), (r, over))
  round-Over fuel rounds now check_failed at e s rest = (activity_failed, at, ground (arith, e), tt)

  rounds-Over :
      ((round at : ℕ) → deadline ≤ at → processing.submit round at ≢ some pending)
      → (fuel rounds now : ℕ) → deadline ≤ now + deep_id_encryption_deadline_ms
      → deadline ≤ now + 60000 * fuel
      → Over (lifecycle_loop env processing deadline (suc fuel) rounds now)
  rounds-Over late zero rounds now day enough =
      let (p, at, e, s) = poll_for_encryption_readiness-Ends (env rounds) (some deadline) now day in
      round-Over 0 rounds now p at e s (λ w later. absurd (late rounds at (omega arith) w))
  rounds-Over late (suc fuel) rounds now day enough =
      let (p, at, e, s) = poll_for_encryption_readiness-Ends (env rounds) (some deadline) now day in
      round-Over (suc fuel) rounds now p at e s λ w later.
        let early : ¬ (deadline ≤ at) = λ over. late rounds at over w in
        let after = processing.submit-late rounds at in
        rounds-Over late fuel (rounds + 1) (processing.submits_at rounds at)
          (omega (arith, after, later, day)) (omega (arith, after, later, early))

-- The rounds end, and end as they should, when no processing pass that is called at the deadline
-- or later finds a pending score: at most 1,441 rounds fit in the twenty-four hours.
pub run_encrypted_custom_score_lifecycle-IsOver :
    (env : ℕ → Environment) (processing : Processing) (now : ℕ)
    → ((round at : ℕ)
        → now + deep_id_encryption_deadline_ms ≤ at
        → processing.submit round at ≢ some pending)
    → (e : LifecycleEnd) × (done : ℕ) × (run_encrypted_custom_score_lifecycle env processing 1441
          now
        ≡ some (e, done))
      × IsOver (now + deep_id_encryption_deadline_ms) e done
unfolding run_encrypted_custom_score_lifecycle
run_encrypted_custom_score_lifecycle-IsOver env processing now late =
    rounds-Over env processing (now + deep_id_encryption_deadline_ms) late 1440 1 now (omega arith)
      (omega arith)

ready_first :
    (env : Environment) (began deadline fuel now : ℕ) {pass : CheckEncryptionReadinessResult}
    → env.check 0 (polls_at env deadline 0 now) ≡ some pass
    → pass.ready ≡ true
    → let done = env.answers_at 0 (polls_at env deadline 0 now) in
      poll_loop env began deadline (suc fuel) [] now
      ≡ some (is_ready (outcome_of pass ((done - began) ∷ []) (done - began)), done)
unfolding poll_loop
ready_first env began deadline fuel now h r = ground (arith, h, r)

ready_at_once :
    (env : Environment) (deadline : Option ℕ) (now : ℕ)
    → ((index at : ℕ)
        → (pass : CheckEncryptionReadinessResult) × (env.check index at ≡ some pass)
          × (pass.ready ≡ true))
    → (o : EncryptionReadinessPollOutcome) × (at : ℕ) × (poll_for_encryption_readiness env deadline
          now
        ≡ some (is_ready o, at))
unfolding poll_for_encryption_readiness
ready_at_once env deadline now always =
    let end = or_else deadline (now + deep_id_encryption_deadline_ms) in
    let (pass, h, r) = always 0 (polls_at env end 0 now) in
    let done = env.answers_at 0 (polls_at env end 0 now) in
    (
      outcome_of pass ((done - now) ∷ []) (done - now),
      done,
      ready_first env now end 25 now {pass = pass} h r,
    )

goes_on :
    (env : ℕ → Environment) (processing : Processing) (deadline : ℕ)
    → ((round index at : ℕ)
        → (pass : CheckEncryptionReadinessResult) × ((env round).check index at ≡ some pass)
          × (pass.ready ≡ true))
    → ((round at : ℕ) → processing.submit round at ≡ some pending)
    → (fuel rounds now : ℕ) → lifecycle_loop env processing deadline fuel rounds now ≡ none
unfolding lifecycle_loop
goes_on env processing deadline ready waits zero rounds now = refl
goes_on env processing deadline ready waits (suc fuel) rounds now =
    let (o, at, e) = ready_at_once (env rounds) (some deadline) now (ready rounds) in
    let rest =
      goes_on env processing deadline ready waits fuel (rounds + 1)
        (processing.submits_at rounds at) in
    ground (arith, e, waits rounds at, rest)

-- When every check is ready and every processing pass finds a pending score, the rounds never end:
-- no number of rounds is enough, so the deadline of twenty-four hours does not end them.
pub lifecycle_never_ends :
    (env : ℕ → Environment) (processing : Processing) (now : ℕ)
    → ((round index at : ℕ)
        → (pass : CheckEncryptionReadinessResult) × ((env round).check index at ≡ some pass)
          × (pass.ready ≡ true))
    → ((round at : ℕ) → processing.submit round at ≡ some pending)
    → (rounds : ℕ) → run_encrypted_custom_score_lifecycle env processing rounds now ≡ none
unfolding run_encrypted_custom_score_lifecycle
lifecycle_never_ends env processing now ready waits rounds =
    goes_on env processing (now + deep_id_encryption_deadline_ms) ready waits rounds 1 now

-- ===== src/Workflow/Examples.antt =====
-- Concrete waits, and what the theorems say of them.
use reputo.Prelude.{
  ℕ, ◌+◌, ◌≤◌, ◌≡◌, ◌≢◌, refl, true, none, some, arith, Bool, ltb, if◌then◌else◌, not,
}
use reputo.Workflow.Readiness.{
  Environment, CheckEncryptionReadinessResult, poll_for_encryption_readiness,
  deep_id_encryption_deadline_ms,
}
use reputo.Workflow.Deadline.{Ends, poll_for_encryption_readiness-Ends}
use reputo.Workflow.Lifecycle.{
  submitted, pending, Processing, LifecycleEnd, run_encrypted_custom_score_lifecycle,
}
use reputo.Workflow.Rounds.{
  IsOver, run_encrypted_custom_score_lifecycle-IsOver, lifecycle_never_ends,
}

abbrev pass_of : Bool → CheckEncryptionReadinessResult
pass_of ready = record {
  ready = ready;
  counts = record { complete = 2; potentially_complete = 1; incomplete = 0 };
  last_request_id = none;
}

-- Timers that are a second late, and checks that take a second and are ready from a time on.
abbrev ready_from : ℕ → Environment
ready_from time = record {
  timer = λ now duration. now + duration + 1000;
  check = λ index now. some (pass_of (not (ltb now time)));
  answers_at = λ index now. now + 1000;
  timer-late = λ now duration. omega arith;
  check-late = λ index now. omega arith;
}

poll_for_encryption_readiness-Ends_example :
    Ends 0 86400000 0 (poll_for_encryption_readiness (ready_from 5000000) none 0)
poll_for_encryption_readiness-Ends_example =
    poll_for_encryption_readiness-Ends (ready_from 5000000) none 0 (omega arith)

abbrev always_ready : Environment
always_ready = record (ready_from 0) { check = λ index now. some (pass_of true) }

-- Passes that are pending up to a time.
abbrev pending_until : ℕ → Processing
pending_until time = record {
  submit = λ round now. some (if ltb now time then pending else submitted);
  submits_at = λ round now. now + 1000;
  submit-late = λ round now. omega arith;
}

never_late :
    (round at : ℕ)
    → 0 + deep_id_encryption_deadline_ms ≤ at
    → (pending_until 9000000).submit round at ≢ some pending
never_late round at late = ground arith

run_encrypted_custom_score_lifecycle-IsOver_example :
    (e : LifecycleEnd) × (done : ℕ) × (run_encrypted_custom_score_lifecycle
        (λ round. always_ready)
        (pending_until 9000000)
        1441
        0
      ≡ some (e, done))
    × IsOver (0 + deep_id_encryption_deadline_ms) e done
run_encrypted_custom_score_lifecycle-IsOver_example =
    run_encrypted_custom_score_lifecycle-IsOver (λ round. always_ready) (pending_until 9000000) 0
      never_late

abbrev always_pending : Processing
always_pending = record (pending_until 0) { submit = λ round now. some pending }

lifecycle_never_ends_example :
    run_encrypted_custom_score_lifecycle (λ round. always_ready) always_pending 5000 0 ≡ none
lifecycle_never_ends_example =
    lifecycle_never_ends (λ round. always_ready) always_pending 0
      (λ round index at. (pass_of true, refl, refl)) (λ round at. refl) 5000

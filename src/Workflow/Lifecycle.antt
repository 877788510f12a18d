-- ===== src/Workflow/Lifecycle.antt =====
-- apps/workflows/src/workflows/encrypted-custom-score.ts: rounds of waiting and processing, from the
-- submission of the raw scores to that of the encrypted ones.
use reputo.Prelude.{ℕ, zero, suc, ◌+◌, ◌≤◌, Option, none, some}
use reputo.Workflow.Readiness.{
  Environment, EncryptionReadinessPollOutcome, is_ready, timed_out, check_failed,
  poll_for_encryption_readiness, deep_id_encryption_deadline_ms,
}

-- The `outcome` of a processing pass.
pub data SubmissionOutcome : Type 0 where
  submitted pending : SubmissionOutcome

-- What the activity `submitCustomEncryptedScores` does in a round when it is called at a time:
-- its outcome (nothing where it throws), and when.
pub record Processing : Type 0 where
  pub submit : ℕ → ℕ → Option SubmissionOutcome
  pub submits_at : ℕ → ℕ → ℕ
  pub submit-late : (round now : ℕ) → now ≤ submits_at round now

pub data LifecycleEnd : Type 0 where
  finished : EncryptionReadinessPollOutcome → ℕ → LifecycleEnd
  encryption_timeout : EncryptionReadinessPollOutcome → LifecycleEnd
  activity_failed : LifecycleEnd

-- The rounds, or nothing when they are out of fuel.
unfoldable pub lifecycle_loop :
    (ℕ → Environment) → Processing → ℕ → ℕ → ℕ → ℕ → Option (LifecycleEnd × ℕ)
lifecycle_loop env processing deadline zero rounds now = none
lifecycle_loop env processing deadline (suc fuel) rounds now =
    elim (poll_for_encryption_readiness (env rounds) (some deadline) now) [
      | none ↦ none
      | some (check_failed, at) ↦ some (activity_failed, at)
      | some (timed_out o, at) ↦ some (encryption_timeout o, at)
      | some (is_ready o, at) ↦
          let done = processing.submits_at rounds at in
          let next = lifecycle_loop env processing deadline fuel (rounds + 1) done in
          elim (processing.submit rounds at) [
            | none ↦ some (activity_failed, done)
            | some submitted ↦ some (finished o rounds, done)
            | some pending ↦ next
          ]
    ]

unfoldable pub run_encrypted_custom_score_lifecycle :
    (ℕ → Environment) → Processing → ℕ → ℕ → Option (LifecycleEnd × ℕ)
run_encrypted_custom_score_lifecycle env processing fuel now =
    lifecycle_loop env processing (now + deep_id_encryption_deadline_ms) fuel 1 now

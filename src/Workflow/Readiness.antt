-- ===== src/Workflow/Readiness.antt =====
-- apps/workflows/src/workflows/encryption-readiness.ts and the delays of
-- shared/constants/timeouts.ts: the wait until the encrypted scores can be evaluated. Times are
-- milliseconds of the workflow's clock.
use reputo.Prelude.{
  ℕ, zero, suc, ◌+◌, ◌-◌, ◌*◌, ◌≤◌, String, Bool, Option, none, some, List, [], ◌∷◌, ◌++◌, min,
  length, get_elem?, or_else, leb, if◌then◌else◌,
}

pub record EncryptionReadinessCounts : Type 0 where
  pub complete : ℕ
  pub potentially_complete : ℕ
  pub incomplete : ℕ

pub record CheckEncryptionReadinessResult : Type 0 where
  pub ready : Bool
  pub counts : EncryptionReadinessCounts
  pub last_request_id : Option String

-- What Temporal and the activity do: when a timer that is set at a time for a duration fires, and
-- what the activity answers to the call of an index at a time (nothing where it throws) and when.
-- Neither ends before it starts.
pub record Environment : Type 0 where
  pub timer : ℕ → ℕ → ℕ
  pub check : ℕ → ℕ → Option CheckEncryptionReadinessResult
  pub answers_at : ℕ → ℕ → ℕ
  pub timer-late : (now duration : ℕ) → now + duration ≤ timer now duration
  pub check-late : (index now : ℕ) → now ≤ answers_at index now

abbrev pub minute : ℕ
minute = 60000

abbrev pub deep_id_readiness_poll_delays_ms : List ℕ
deep_id_readiness_poll_delays_ms = minute ∷ 15 * minute ∷ 60 * minute ∷ []

abbrev pub deep_id_readiness_steady_poll_delay_ms : ℕ
deep_id_readiness_steady_poll_delay_ms = 60 * minute

abbrev pub deep_id_encryption_deadline_ms : ℕ
deep_id_encryption_deadline_ms = 24 * 60 * minute

-- The details of a success, and of the failure `DEEPID_ENCRYPTION_TIMEOUT`.
pub record EncryptionReadinessPollOutcome : Type 0 where
  pub pass : CheckEncryptionReadinessResult
  pub poll_count : ℕ
  pub elapsed_ms : ℕ
  pub polled_at_offsets_ms : List ℕ

pub data Polled : Type 0 where
  is_ready timed_out : EncryptionReadinessPollOutcome → Polled
  check_failed : Polled

abbrev pub delay_ms : ℕ → ℕ
delay_ms index =
    or_else (get_elem? deep_id_readiness_poll_delays_ms index)
      deep_id_readiness_steady_poll_delay_ms

-- when the poll of an index calls the activity: a timer whose duration is negative fires at once
abbrev pub polls_at : Environment → ℕ → ℕ → ℕ → ℕ
polls_at env deadline index now = env.timer now (min (delay_ms index) (deadline - now))

abbrev pub outcome_of : CheckEncryptionReadinessResult → List ℕ → ℕ → EncryptionReadinessPollOutcome
outcome_of pass offsets elapsed = record {
  pass = pass;
  poll_count = length offsets;
  elapsed_ms = elapsed;
  polled_at_offsets_ms = offsets;
}

-- The loop: what it ends with and when, or nothing when it is out of fuel.
unfoldable pub poll_loop : Environment → ℕ → ℕ → ℕ → List ℕ → ℕ → Option (Polled × ℕ)
poll_loop env submitted deadline zero offsets now = none
poll_loop env submitted deadline (suc fuel) offsets now =
    let at = polls_at env deadline (length offsets) now in
    let done = env.answers_at (length offsets) at in
    let offsets' = offsets ++ ((done - submitted) ∷ []) in
    let next = poll_loop env submitted deadline fuel offsets' done in
    elim (env.check (length offsets) at) [
      | none ↦ some (check_failed, done)
      | some pass ↦
          if pass.ready
          then some (is_ready (outcome_of pass offsets' (done - submitted)), done)
          else if leb deadline done
          then some (timed_out (outcome_of pass offsets' (done - submitted)), done)
          else next
    ]

-- A poll after one minute, one a quarter of an hour later, and then one every hour of the
-- twenty-four at most.
abbrev pub poll_fuel : ℕ
poll_fuel = 26

unfoldable pub poll_for_encryption_readiness : Environment → Option ℕ → ℕ → Option (Polled × ℕ)
poll_for_encryption_readiness env deadline now =
    poll_loop env now (or_else deadline (now + deep_id_encryption_deadline_ms)) poll_fuel [] now

-- ===== src/Workflow/Deadline.antt =====
-- The wait for readiness ends, and how (encryption-readiness.ts).
use reputo.Prelude.{
  ℕ, zero, suc, ◌+◌, ◌-◌, ◌*◌, ◌≤◌, ◌<◌, true, false, Option, some, List, [], ◌∷◌, ◌++◌, ◌≡◌, refl,
  min, length, or_else, leb, arith, Option-cases, Bool-cases, inl, inr, ◌⊎◌, length-append,
}
use reputo.Workflow.Readiness.{
  Environment, Polled, is_ready, timed_out, check_failed, delay_ms, polls_at, outcome_of, poll_loop,
  poll_for_encryption_readiness, minute, deep_id_encryption_deadline_ms,
}

-- What each of the endings means.
abbrev pub IsSettled : ℕ → ℕ → ℕ → Polled → ℕ → Type 0
IsSettled submitted deadline now (is_ready o) done =
    (o.pass.ready ≡ true)
    × (o.poll_count ≡ length o.polled_at_offsets_ms)
    × (o.elapsed_ms ≡ done - submitted)
    × (now + min minute (deadline - now) ≤ done)
IsSettled submitted deadline now (timed_out o) done =
    (o.pass.ready ≡ false)
    × (o.poll_count ≡ length o.polled_at_offsets_ms)
    × (o.elapsed_ms ≡ done - submitted)
    × (deadline ≤ done)
IsSettled submitted deadline now check_failed done = now ≤ done

-- each poll is at least a minute after the one before, or at the deadline
delay-long : (index : ℕ) → minute ≤ delay_ms index
delay-long zero = omega arith
delay-long (suc zero) = omega arith
delay-long (suc (suc zero)) = omega arith
delay-long (suc (suc (suc index))) = omega arith

delay-steady : (index : ℕ) → delay_ms (suc (suc index)) ≡ 3600000
delay-steady zero = refl
delay-steady (suc index) = refl

step-late :
    (env : Environment) (deadline index now : ℕ)
    → now + min (delay_ms index) (deadline - now)
      ≤ env.answers_at index (polls_at env deadline index now)
step-late env deadline index now = omega (
  arith,
  env.timer-late now (min (delay_ms index) (deadline - now)),
  env.check-late index (polls_at env deadline index now),
)

-- One turn of the loop: it ends as it should, or goes on before the deadline.
turn :
    (env : Environment) (submitted deadline fuel : ℕ) (offsets : List ℕ) (now : ℕ)
    → let at = polls_at env deadline (length offsets) now in
      let done = env.answers_at (length offsets) at in
      ((p : Polled) × (poll_loop env submitted deadline (suc fuel) offsets now ≡ some (p, done))
        × IsSettled submitted deadline now p done)
      ⊎ ((done < deadline)
          × (poll_loop env submitted deadline (suc fuel) offsets now
              ≡ poll_loop env submitted deadline fuel (offsets ++ ((done - submitted) ∷ [])) done))
unfolding poll_loop
turn env submitted deadline fuel offsets now =
    let at = polls_at env deadline (length offsets) now in
    let done = env.answers_at (length offsets) at in
    let late = step-late env deadline (length offsets) now in
    let long = delay-long (length offsets) in
    elim (Option-cases (env.check (length offsets) at)) [
      | inl n ↦ inl (check_failed, ground (arith, n), omega (arith, late))
      | inr (pass, h) ↦ elim (Bool-cases pass.ready) [
        | inl r ↦ inl (
          is_ready (outcome_of pass (offsets ++ ((done - submitted) ∷ [])) (done - submitted)),
          ground (arith, h, r),
          (r, refl, refl, omega (arith, late, long)),
        )
        | inr r ↦ elim (Bool-cases (leb deadline done)) [
          | inl over ↦ inl (
            timed_out (outcome_of pass (offsets ++ ((done - submitted) ∷ [])) (done - submitted)),
            ground (arith, h, r, over),
            (r, refl, refl, ground arith),
          )
          | inr more ↦ inr (ground arith, ground (arith, h, r, more))
        ]
      ]
    ]

-- The wait has an ending, which is as it should be.
abbrev pub Ends : ℕ → ℕ → ℕ → Option (Polled × ℕ) → Type 0
Ends submitted deadline now o =
    (p : Polled) × (done : ℕ) × (o ≡ some (p, done)) × IsSettled submitted deadline now p done

-- An ending of what follows a turn is an ending.
IsSettled-later :
    (submitted deadline now later : ℕ) (p : Polled) (done : ℕ)
    → now + min minute (deadline - now) ≤ later
    → IsSettled submitted deadline later p done
    → IsSettled submitted deadline now p done
IsSettled-later submitted deadline now later (is_ready o) done l (a, b, c, d) =
    (a, b, c, omega (arith, l, d))
IsSettled-later submitted deadline now later (timed_out o) done l s = s
IsSettled-later submitted deadline now later check_failed done l s = omega (arith, l, s)

later-Ends :
    (env : Environment) (submitted deadline fuel : ℕ) (offsets : List ℕ) (now : ℕ)
    → let done = env.answers_at (length offsets) (polls_at env deadline (length offsets) now) in
      (done < deadline
        → Ends submitted deadline done
            (poll_loop env submitted deadline fuel (offsets ++ ((done - submitted) ∷ [])) done))
      → Ends submitted deadline now (poll_loop env submitted deadline (suc fuel) offsets now)
later-Ends env submitted deadline fuel offsets now rest =
    let done = env.answers_at (length offsets) (polls_at env deadline (length offsets) now) in
    elim (turn env submitted deadline fuel offsets now) [
      | inl (p, e, s) ↦ (p, done, e, s)
      | inr (early, e) ↦
          let (p, end, e', s) = rest early in
          (
            p,
            end,
            rw e e',
            IsSettled-later submitted deadline now done p end
                (omega
                  (arith, step-late env deadline (length offsets) now, delay-long (length offsets)))
                s,
          )
    ]

-- An hour passes with each turn after the first two.
hourly-Ends :
    (env : Environment) (submitted deadline fuel : ℕ) (offsets : List ℕ) (now : ℕ) {index : ℕ}
    → length offsets ≡ suc (suc index)
    → now < deadline
    → deadline ≤ now + 3600000 * fuel
    → Ends submitted deadline now (poll_loop env submitted deadline fuel offsets now)
hourly-Ends env submitted deadline zero offsets now two early enough = absurd (omega arith)
hourly-Ends env submitted deadline (suc fuel) offsets now {index} two early enough =
    let done = env.answers_at (length offsets) (polls_at env deadline (length offsets) now) in
    let steady : delay_ms (length offsets) ≡ 3600000 = rw two (delay-steady index) in
    let late = step-late env deadline (length offsets) now in
    later-Ends env submitted deadline fuel offsets now λ early'.
      hourly-Ends env submitted deadline fuel (offsets ++ ((done - submitted) ∷ [])) done
        {index = suc index} (omega (arith, two, length-append offsets ((done - submitted) ∷ [])))
        early' (omega (arith, late, steady))

-- With a deadline that is at most twenty-four hours away, the wait for readiness ends within the
-- turns that it is given, whatever the timers and the checks do. It returns only on a check that
-- was ready, and a minute after it began or at the deadline at the earliest; it fails with a
-- timeout only on a check that was not ready and only at the deadline or later; what it reports
-- (the polls, the time elapsed) agrees with the clock.
pub poll_for_encryption_readiness-Ends :
    (env : Environment) (deadline : Option ℕ) (now : ℕ)
    → or_else deadline (now + deep_id_encryption_deadline_ms) ≤ now + deep_id_encryption_deadline_ms
    → Ends now
        (or_else deadline (now + deep_id_encryption_deadline_ms))
        now
        (poll_for_encryption_readiness env deadline now)
unfolding poll_for_encryption_readiness
poll_for_encryption_readiness-Ends env deadline now le =
    let end = or_else deadline (now + deep_id_encryption_deadline_ms) in
    later-Ends env now end 25 [] now λ early.
      let first = env.answers_at 0 (polls_at env end 0 now) in
      later-Ends env now end 24 ((first - now) ∷ []) first λ early'.
        let second = env.answers_at 1 (polls_at env end 1 first) in
        hourly-Ends env now end 24 ((first - now) ∷ (second - now) ∷ []) second {index = 0} refl
          early' (omega (arith, step-late env end 0 now, step-late env end 1 first))

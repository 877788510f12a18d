-- ===== src/Snapshot/Status.antt =====
-- The status of a snapshot (packages/contracts/src/enums) and its state machine
-- (`canTransition` of apps/api/src/snapshot/snapshot.repository.ts).
use reputo.Prelude.{◌≡◌, refl, Bool, true, false, not, arith, ◌⊎◌, if◌then◌else◌}

pub data SnapshotStatus : Type 0 where
  queued running completed failed cancelled : SnapshotStatus

abbrev pub same_status : SnapshotStatus → SnapshotStatus → Bool
same_status queued queued = true
same_status running running = true
same_status completed completed = true
same_status failed failed = true
same_status cancelled cancelled = true
same_status _ _ = false

-- `TERMINAL_SNAPSHOT_STATUSES.includes`
abbrev pub is_terminal : SnapshotStatus → Bool
is_terminal queued = false
is_terminal running = false
is_terminal _ = true

unfoldable pub can_transition : SnapshotStatus → SnapshotStatus → Bool
can_transition from to =
    if same_status from to
    then true
    else if same_status from queued
    then not (same_status to completed)
    else if same_status from running
    then is_terminal to
    else false

-- The diagram that the comment above `canTransition` draws.
infix 40 ◌⟶◌ ◌⟶*◌
pub data ◌⟶◌ : SnapshotStatus → SnapshotStatus → Type 0 where
  start : queued ⟶ running
  fail_early : queued ⟶ failed
  cancel_early : queued ⟶ cancelled
  complete : running ⟶ completed
  fail : running ⟶ failed
  cancel : running ⟶ cancelled

pub data ◌⟶*◌ : SnapshotStatus → SnapshotStatus → Type 0 where
  here : {s : SnapshotStatus} → s ⟶* s
  then_step : {s t u : SnapshotStatus} → s ⟶* t → t ⟶ u → s ⟶* u

pub ruleset edges = (start, fail_early, cancel_early, complete, fail, cancel)

pub same_status→eq : (s t : SnapshotStatus) → same_status s t ≡ true → s ≡ t
same_status→eq s t h = ground arith

pub same_status_refl : (s : SnapshotStatus) → same_status s s ≡ true
same_status_refl s = ground arith

-- A permitted change is an edge of the diagram, or no change.
pub can_transition_sound : (s t : SnapshotStatus) → can_transition s t ≡ true → (s ≡ t) ⊎ (s ⟶ t)
unfolding can_transition
can_transition_sound s t h = grind (arith, edges)

-- Every edge of the diagram is permitted.
pub can_transition_complete : {s t : SnapshotStatus} → s ⟶ t → can_transition s t ≡ true
unfolding can_transition
can_transition_complete start = refl
can_transition_complete fail_early = refl
can_transition_complete cancel_early = refl
can_transition_complete complete = refl
can_transition_complete fail = refl
can_transition_complete cancel = refl

-- No edge leaves a terminal status.
pub terminal_stays : {s t : SnapshotStatus} → s ⟶* t → is_terminal s ≡ true → s ≡ t
terminal_stays here h = refl
terminal_stays {s} (then_step r e) h = leave e (terminal_stays r h)
  where
    leave : {t u : SnapshotStatus} → t ⟶ u → s ≡ t → s ≡ u
    leave start p = cc (p, h)
    leave _ p = cc (p, h)

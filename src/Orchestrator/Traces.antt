-- ===== src/Orchestrator/Traces.antt =====
-- What is read off the calls of a run, and actions that make calls of some kinds only
-- (orchestrator.workflow.ts).
use reputo.Prelude.{
  ◌≡◌, refl, Bool, true, false, not, ◌&&◌, ◌||◌, none, some, List, [], ◌∷◌, ◌++◌, all, append_assoc,
  Result, arith, inl, inr, Result-cases, ℕ, subst,
}
use reputo.Snapshot.Status.{SnapshotStatus}
use reputo.Orchestrator.Model.{
  Call, update_snapshot, get_algorithm_definition, get_community_connection,
  get_community_sealed_credential, check_community_health, resolve_dependency, Thrown, RunState,
  Action, await, ◌>>=◌, settle_all, promise_all,
}

-- The statuses that a run has tried to write, the newest first.
abbrev pub status_writes : List Call → List SnapshotStatus
status_writes [] = []
status_writes (update_snapshot u ∷ calls) = elim u.status [
  | none ↦ status_writes calls
  | some status ↦ status ∷ status_writes calls
]
status_writes (_ ∷ calls) = status_writes calls

-- Whether a test holds of some call with those before it.
abbrev pub ever : (List Call → Bool) → List Call → Bool
ever early [] = false
ever early (call ∷ calls) = early (call ∷ calls) || ever early calls

-- Every call of one kind comes later than something else.
abbrev pub after : (Call → Bool) → (List Call → Bool) → List Call → Bool
after late early [] = true
after late early (call ∷ calls) = (not (late call) || ever early calls) && after late early calls

-- The calls that look up a definition or a dependency.
abbrev pub is_lookup : Call → Bool
is_lookup (get_algorithm_definition _ _) = true
is_lookup (get_community_connection _) = true
is_lookup (get_community_sealed_credential _) = true
is_lookup (check_community_health _) = true
is_lookup (resolve_dependency _ _ _) = true
is_lookup _ = false

-- A call that looks up writes no status.
lookup_writes :
    (call : Call) (calls : List Call)
    → is_lookup call ≡ true
    → status_writes (call ∷ calls) ≡ status_writes calls
lookup_writes (get_algorithm_definition _ _) calls h = refl
lookup_writes (get_community_connection _) calls h = refl
lookup_writes (get_community_sealed_credential _) calls h = refl
lookup_writes (check_community_health _) calls h = refl
lookup_writes (resolve_dependency _ _ _) calls h = refl
lookup_writes call calls h = ground arith

pub status_writes-lookups :
    (new calls : List Call)
    → all is_lookup new ≡ true
    → status_writes (new ++ calls) ≡ status_writes calls
status_writes-lookups [] calls h = refl
status_writes-lookups (call ∷ new) calls h =
    ground (arith, lookup_writes call (new ++ calls), status_writes-lookups new calls, h)

pub after-lookups :
    (late : Call → Bool) (early : List Call → Bool)
    → ((call : Call) → is_lookup call ≡ true → late call ≡ false)
    → (new calls : List Call) → all is_lookup new ≡ true
    → after late early calls ≡ true
    → after late early (new ++ calls) ≡ true
after-lookups late early other [] calls h k = k
after-lookups late early other (call ∷ new) calls h k =
    ground (arith, after-lookups late early other new calls, other call, h, k)

-- A state is another one with more lookups.
abbrev pub Looks : RunState → RunState → Type 0
Looks s t =
    (new : List Call) × (t ≡ record s { calls = new ++ s.calls }) × (all is_lookup new ≡ true)

pub Looks-refl : (s : RunState) → Looks s s
Looks-refl s = ([], refl, refl)

all-append :
    (p : Call → Bool) (xs ys : List Call)
    → all p xs ≡ true
    → all p ys ≡ true
    → all p (xs ++ ys) ≡ true
all-append p [] ys h k = k
all-append p (x ∷ xs) ys h k = ground (arith, all-append p xs ys, h, k)

pub Looks-trans : {s t u : RunState} → Looks s t → Looks t u → Looks s u
Looks-trans {s} {t} {u} (xs, e, h) (ys, f, k) =
    (ys ++ xs, ground (arith, e, f, append_assoc ys xs s.calls), all-append is_lookup ys xs k h)

-- An action that only looks up.
abbrev pub IsLookup {ℓ} : {A : Type ℓ} → Action A → Type 0
IsLookup m = (s : RunState) → Looks s (m s).1

pub bind-IsLookup {ℓ κ} :
    {A : Type ℓ} {B : Type κ} (m : Action A) (f : A → Action B)
    → IsLookup m
    → ((a : A) → IsLookup (f a))
    → IsLookup (m >>= f)
bind-IsLookup m f hm hf s = elim (Result-cases (m s).0) [
  | inl (a, e) ↦
      let answer : (f a (m s).1).1 ≡ ((m >>= f) s).1 = ground (arith, e) in
      subst (Looks s) answer (Looks-trans (hm s) (hf a (m s).1))
  | inr (thrown, e) ↦
      let answer : (m s).1 ≡ ((m >>= f) s).1 = ground (arith, e) in subst (Looks s) answer (hm s)
]

pub await-IsLookup {ℓ} :
    {A : Type ℓ} (call : Call) (answers : List Call → Result Thrown A)
    → is_lookup call ≡ true
    → IsLookup (await call answers)
await-IsLookup call answers h s = (call ∷ [], refl, ground (arith, h))

pub settle_all-Looks {ℓ κ} :
    {A : Type ℓ} {B : Type κ} (f : A → Action B)
    → ((a : A) → IsLookup (f a))
    → (xs : List A) (s : RunState) → Looks s (settle_all f xs s).1
unfolding settle_all
settle_all-Looks f hf [] s = Looks-refl s
settle_all-Looks f hf (x ∷ xs) s =
    let rest = settle_all-Looks f hf xs (f x s).1 in
    let answer : (settle_all f xs (f x s).1).1 ≡ (settle_all f (x ∷ xs) s).1 =
      elim (Result-cases (f x s).0) [
        | inl (b, e) ↦ ground (arith, e)
        | inr (thrown, e) ↦ ground (arith, e)
      ] in
    subst (Looks s) answer (Looks-trans (hf x s) rest)

pub promise_all-IsLookup {ℓ κ} :
    {A : Type ℓ} {B : Type κ} (earliest : List Call → ℕ) (f : A → Action B) (xs : List A)
    → ((a : A) → IsLookup (f a))
    → IsLookup (promise_all earliest f xs)
unfolding promise_all
promise_all-IsLookup earliest f xs hf s =
    let answer : (settle_all f xs s).1 ≡ (promise_all earliest f xs s).1 = ground arith in
    subst (Looks s) answer (settle_all-Looks f hf xs s)

-- ===== src/Tokens/Fifo.antt =====
-- How an amount is taken from a queue of lots (fifo-lots.ts).
use reputo.Prelude.{
  ℕ, zero, suc, ◌+◌, ◌<◌, ◌≡◌, ◌⊎◌, refl, true, false, Option, none, some, List, [], ◌∷◌, ◌++◌,
  length, All, Bool-cases, Option-cases, inl, inr, arith, subst, sym, ap, if◌then◌else◌,
}
use reputo.Values.{Number, natural, is_finite, less}
use reputo.Values.Numbers.{
  minus, is_positive, at_most_zero, minus_self, less_finite, minus_finite, minimum_first,
  minimum_second,
}
use reputo.Tokens.Lots.{WalletLot, with_amount, consume_loop, consume_lots_fifo}

abbrev pub IsFiniteLot : WalletLot → Type 0
IsFiniteLot lot = is_finite lot.amount_remaining ≡ true

-- What remains of an amount after whole lots.
abbrev pub owed : Number → List WalletLot → Number
owed amount [] = amount
owed amount (lot ∷ used) = owed (minus amount lot.amount_remaining) used

-- Each lot is not larger than what remains of the amount before it, which is positive.
abbrev pub UsedUp : Number → List WalletLot → Type 0
UsedUp amount [] = Unit
UsedUp amount (lot ∷ used) =
    (is_positive amount ≡ true)
    × (less amount lot.amount_remaining ≡ false)
    × UsedUp (minus amount lot.amount_remaining) used

abbrev pub reduced : WalletLot → Number → List WalletLot → List WalletLot
reduced lot amount later =
    let left = minus lot.amount_remaining amount in
    if at_most_zero left then later else with_amount left lot ∷ later

-- The oldest lots are used up; then nothing remains or no lot, or else the next lot is larger than
-- what remains, and reduced by it.
abbrev pub Spends : Number → List WalletLot → Number × List WalletLot → Type 0
Spends amount queue (remaining, after) =
    (used : List WalletLot) × (rest : List WalletLot) × (queue ≡ used ++ rest)
    × UsedUp amount used
    × ((((rest ≡ []) ⊎ (is_positive (owed amount used) ≡ false))
          × (after ≡ rest)
          × (remaining ≡ owed amount used))
        ⊎ ((head : WalletLot) × (later : List WalletLot) × (rest ≡ head ∷ later)
            × (is_positive (owed amount used) ≡ true)
            × (less (owed amount used) head.amount_remaining ≡ true)
            × (remaining ≡ natural 0)
            × (after ≡ reduced head (owed amount used) later)))

abbrev pub Outcome : Number → List WalletLot → Option (Number × List WalletLot) → Type 0
Outcome amount queue none = ⊥
Outcome amount queue (some s) = Spends amount queue s

uses_up :
    (head : WalletLot) (queue : List WalletLot) (amount : Number)
    (o : Option (Number × List WalletLot))
    → is_positive amount ≡ true
    → less amount head.amount_remaining ≡ false
    → Outcome (minus amount head.amount_remaining) queue o
    → Outcome amount (head ∷ queue) o
uses_up head queue amount none p l c = c
uses_up head queue amount (some (remaining, after)) p l (used, rest, e, each, end) =
    (head ∷ used, rest, ap (λ xs. head ∷ xs) e, (p, l, each), end)

loop-over :
    (fuel : ℕ) (queue : List WalletLot)
    → consume_loop (suc fuel) queue (natural 0) ≡ some (natural 0, queue)
unfolding consume_loop less
loop-over fuel [] = refl
loop-over fuel (head ∷ queue) = refl

loop-whole :
    (fuel : ℕ) (head : WalletLot) (queue : List WalletLot) (amount : Number)
    → IsFiniteLot head
    → is_positive amount ≡ true
    → less amount head.amount_remaining ≡ false
    → consume_loop (suc fuel) (head ∷ queue) amount
      ≡ consume_loop fuel queue (minus amount head.amount_remaining)
unfolding consume_loop
loop-whole fuel head queue amount f p l =
    let first = minimum_first head.amount_remaining amount f p l in
    let gone = minus_self head.amount_remaining f in rw (first, gone) (ground (arith, p))

loop-part :
    (fuel : ℕ) (head : WalletLot) (queue : List WalletLot) (amount : Number)
    → IsFiniteLot head
    → is_positive amount ≡ true
    → less amount head.amount_remaining ≡ true
    → consume_loop (suc (suc fuel)) (head ∷ queue) amount
      ≡ some (natural 0, reduced head amount queue)
unfolding consume_loop
loop-part fuel head queue amount f p l =
    let second = minimum_second head.amount_remaining amount l in
    let gone = minus_self amount (less_finite amount head.amount_remaining p f l) in
    let over = loop-over fuel (reduced head amount queue) in
    rw (second, gone) (ground (arith, p, over))

loop_lem :
    (fuel : ℕ) (queue : List WalletLot) (amount : Number)
    → All IsFiniteLot queue
    → length queue + 1 < fuel
    → Outcome amount queue (consume_loop fuel queue amount)
unfolding consume_loop
loop_lem zero queue amount f h = absurd (omega arith)
loop_lem (suc zero) queue amount f h = absurd (omega arith)
loop_lem (suc (suc fuel)) [] amount f h = ([], [], refl, tt, inl (inl refl, refl, refl))
loop_lem (suc (suc fuel)) (head ∷ queue) amount (finite_head, f) h =
    elim (Bool-cases (is_positive amount)) [
      | inr n ↦
          let answer : some (amount, head ∷ queue)
              ≡ consume_loop (suc (suc fuel)) (head ∷ queue) amount =
            ground (arith, n) in
          subst (Outcome amount (head ∷ queue)) answer
            ([], head ∷ queue, refl, tt, inl (inr n, refl, refl))
      | inl p ↦ elim (Bool-cases (less amount head.amount_remaining)) [
        | inl l ↦
            subst (Outcome amount (head ∷ queue))
              (sym (loop-part fuel head queue amount finite_head p l))
              ([], head ∷ queue, refl, tt, inr (head, queue, refl, p, l, refl, refl))
        | inr l ↦
            subst (Outcome amount (head ∷ queue))
              (sym (loop-whole (suc fuel) head queue amount finite_head p l))
              (uses_up head queue amount
                (consume_loop (suc fuel) queue (minus amount head.amount_remaining)) p l
                (loop_lem (suc fuel) queue (minus amount head.amount_remaining) f (omega arith)))
      ]
    ]

-- Taking an amount from a queue of finite lots always ends. If the amount is not positive, nothing is
-- taken. Otherwise the oldest lots are taken whole, each not larger than what remains of the amount
-- before it, down to a remainder that is not positive, or to the end of the queue, which is then
-- reported; or to a lot that is larger than what remains, which is reduced by it, and nothing is
-- reported to remain. The lots after it are left as they were.
pub consume_lots_fifo-Spends :
    (queue : List WalletLot) (amount : Number)
    → All IsFiniteLot queue
    → ((at_most_zero amount ≡ true) × (consume_lots_fifo queue amount ≡ some (natural 0, queue)))
      ⊎ ((at_most_zero amount ≡ false)
          × ((s : Number × List WalletLot) × (consume_lots_fifo queue amount ≡ some s)
              × Spends amount queue s))
unfolding consume_lots_fifo
consume_lots_fifo-Spends queue amount f = elim (Bool-cases (at_most_zero amount)) [
  | inl t ↦ inl (t, ground (arith, t))
  | inr n ↦
      let spent = loop_lem (length queue + 2) queue amount f (omega arith) in
      elim (Option-cases (consume_loop (length queue + 2) queue amount)) [
        | inl e ↦ absurd (subst (Outcome amount queue) e spent)
        | inr (s, e) ↦ inr (n, (s, ground (arith, n, e), subst (Outcome amount queue) e spent))
      ]
]

append-All : (xs ys : List WalletLot) → All IsFiniteLot (xs ++ ys) → All IsFiniteLot ys
append-All [] ys h = h
append-All (x ∷ xs) ys h = append-All xs ys h.1

-- The lots that are left are finite.
pub Spends-finite :
    (amount : Number) (queue : List WalletLot) (s : Number × List WalletLot)
    → All IsFiniteLot queue
    → Spends amount queue s
    → All IsFiniteLot s.1
Spends-finite amount queue (remaining, after) f (used, rest, e, each, inl (why, same, counted)) =
    subst (All IsFiniteLot) (sym same) (append-All used rest (subst (All IsFiniteLot) e f))
Spends-finite amount queue (remaining, after) f
      (used, rest, e, each, inr (head, later, split, p, l, counted, same)) =
    let kept : All IsFiniteLot (head ∷ later) =
      subst (All IsFiniteLot) split (append-All used rest (subst (All IsFiniteLot) e f)) in
    let left = minus head.amount_remaining (owed amount used) in
    let still = minus_finite head.amount_remaining (owed amount used) p kept.0 l in
    subst (All IsFiniteLot) (sym same)
      (elim (Bool-cases (at_most_zero left)) [ inl t ↦ rw t kept.1 | inr n ↦ rw n (still, kept.1) ])

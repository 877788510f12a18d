-- ===== src/Storage/Keys/StringLaws.antt =====
-- Laws of `split`, `join`, `startsWith` and `lastIndexOf` on lists of code units.
use reputo.Prelude.{
  ℕ, ◌≡◌, refl, ap, inl, inr, true, false, none, some, List, [], ◌∷◌, ◌++◌, arith, ◌==◌, any,
  Bool-cases, Option-cases,
}
use reputo.Storage.Keys.Strings.{Text, grow, split, join, starts_with, split_last}

abbrev pub Lacks : ℕ → Text → Type 0
Lacks c s = any (λ d. d == c) s ≡ false

pub split-cons : (sep : ℕ) (s : Text) → (p : Text) × (ps : List Text) × (split sep s ≡ p ∷ ps)
unfolding split
split-cons sep [] = ([], [], refl)
split-cons sep (c ∷ s) = elim (Bool-cases (c == sep)) [
  | inl same ↦ ([], split sep s, rw same)
  | inr other ↦ let (p, ps, e) = split-cons sep s in (c ∷ p, ps, rw other (ap (grow c) e))
]

join-grow :
    (sep c : ℕ) (p : Text) (ps : List Text) → join sep ((c ∷ p) ∷ ps) ≡ c ∷ join sep (p ∷ ps)
unfolding join
join-grow sep c p [] = refl
join-grow sep c p (q ∷ ps) = refl

pub join-split : (sep : ℕ) (s : Text) → join sep (split sep s) ≡ s
unfolding join split
join-split sep [] = refl
join-split sep (c ∷ s) =
    let (p, ps, e) = split-cons sep s in ground (arith, e, join-split sep s, join-grow sep c p ps)

pub split-append : (sep : ℕ) (s t : Text) → Lacks sep s → split sep (s ++ sep ∷ t) ≡ s ∷ split sep t
unfolding split
split-append sep [] t h = ground arith
split-append sep (c ∷ s) t h = ground (arith, split-append sep s t)

pub split_last-of_Lacks : (sep : ℕ) (s : Text) → Lacks sep s → split_last sep s ≡ none
unfolding split_last
split_last-of_Lacks sep [] h = refl
split_last-of_Lacks sep (c ∷ s) h = ground (arith, split_last-of_Lacks sep s)

pub split_last-append :
    (sep : ℕ) (s t : Text) → Lacks sep t → split_last sep (s ++ sep ∷ t) ≡ some (s, t)
unfolding split_last
split_last-append sep [] t h = ground (arith, split_last-of_Lacks sep t h)
split_last-append sep (c ∷ s) t h = rw (split_last-append sep s t h)

pub append-of_split_last :
    (sep : ℕ) (s before after : Text)
    → split_last sep s ≡ some (before, after)
    → before ++ sep ∷ after ≡ s
unfolding split_last
append-of_split_last sep [] before after h = cc
append-of_split_last sep (c ∷ s) before after h = elim (Option-cases (split_last sep s)) [
  | inl e ↦ ground arith
  | inr ((b, a), e) ↦ ground (arith, append-of_split_last sep s b a e)
]

pub append-of_starts_with : (p s : Text) → starts_with p s ≡ true → (rest : Text) × (p ++ rest ≡ s)
unfolding starts_with
append-of_starts_with [] s h = (s, refl)
append-of_starts_with (c ∷ p) [] h = cc
append-of_starts_with (c ∷ p) (d ∷ s) h =
    let (rest, e) = append-of_starts_with p s (ground arith) in (rest, ground arith)

pub starts_with-append : (p s : Text) → starts_with p (p ++ s) ≡ true
unfolding starts_with
starts_with-append [] s = refl
starts_with-append (c ∷ p) s = ground (arith, starts_with-append p s)

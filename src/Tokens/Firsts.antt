-- ===== src/Tokens/Firsts.antt =====
-- The loops over a `seen` set: the elements whose key was not seen before, in their order.
use reputo.Prelude.{
  ◌≡◌, refl, ap, String, Bool, true, false, not, ◌&&◌, ◌||◌, List, [], ◌∷◌, ◌++◌, map, str_eq_iff,
  arith, if◌then◌else◌, Bool-cases, inl, inr, All,
}
use reputo.Tokens.Transfers.{has}

module _ {ℓ} {A : Type ℓ} (key : A → String) where
  unfoldable pub firsts : List String → List A → List A
  firsts seen [] = []
  firsts seen (x ∷ xs) =
      let skipped = firsts seen xs in
      let taken = x ∷ firsts (key x ∷ seen) xs in if has seen (key x) then skipped else taken

  abbrev pub keys : List A → List String
  keys = map key

-- no text occurs twice
abbrev pub distinct : List String → Bool
distinct [] = true
distinct (k ∷ ks) = not (has ks k) && distinct ks

module _ {ℓ} {A : Type ℓ} (key : A → String) where
  -- a key that was seen is not found again
  firsts-seen :
      (seen : List String) (xs : List A) (k : String)
      → has seen k ≡ true
      → has (keys key (firsts key seen xs)) k ≡ false
  unfolding firsts
  firsts-seen seen [] k h = refl
  firsts-seen seen (x ∷ xs) k h =
      ground
        (arith, firsts-seen seen xs k, firsts-seen (key x ∷ seen) xs k, str_eq_iff (key x) k, h)

  pub firsts-distinct :
      (seen : List String) (xs : List A) → distinct (keys key (firsts key seen xs)) ≡ true
  unfolding firsts
  firsts-distinct seen [] = refl
  firsts-distinct seen (x ∷ xs) = ground (
    arith,
    firsts-distinct seen xs,
    firsts-distinct (key x ∷ seen) xs,
    firsts-seen (key x ∷ seen) xs (key x),
    str_eq_iff (key x) (key x),
  )

  -- every key was seen or is found
  pub firsts-has :
      (seen : List String) (xs : List A) (k : String)
      → (has seen k || has (keys key (firsts key seen xs)) k) ≡ (has seen k || has (keys key xs) k)
  unfolding firsts
  firsts-has seen [] k = refl
  firsts-has seen (x ∷ xs) k =
      ground (arith, firsts-has seen xs k, firsts-has (key x ∷ seen) xs k, str_eq_iff (key x) k)

  -- every key of some elements was seen or is among others
  abbrev pub Covered : List String → List A → List A → Type 0
  Covered seen xs = All (λ y. (has seen (key y) || has (keys key xs) (key y)) ≡ true)

  Covered-seen :
      (seen : List String) (x : A) (xs ys : List A)
      → has seen (key x) ≡ true
      → Covered seen (x ∷ xs) ys
      → Covered seen xs ys
  Covered-seen seen x xs [] h c = tt
  Covered-seen seen x xs (y ∷ ys) h c =
      (ground (arith, h, c.0, str_eq_iff (key x) (key y)), Covered-seen seen x xs ys h c.1)

  Covered-new :
      (seen : List String) (x : A) (xs ys : List A)
      → Covered seen (x ∷ xs) ys
      → Covered (key x ∷ seen) xs ys
  Covered-new seen x xs [] c = tt
  Covered-new seen x xs (y ∷ ys) c = (ground (arith, c.0), Covered-new seen x xs ys c.1)

  -- elements whose keys were seen or come before add nothing
  pub firsts-repeats :
      (seen : List String) (xs ys : List A)
      → Covered seen xs ys
      → firsts key seen (xs ++ ys) ≡ firsts key seen xs
  unfolding firsts
  firsts-repeats seen [] [] c = refl
  firsts-repeats seen [] (y ∷ ys) c = ground (arith, firsts-repeats seen [] ys, c.0, c.1)
  firsts-repeats seen (x ∷ xs) ys c = elim (Bool-cases (has seen (key x))) [
    | inl t ↦ rw t (firsts-repeats seen xs ys (Covered-seen seen x xs ys t c))
    | inr n ↦
        rw n
          (ap (λ rest. x ∷ rest) (firsts-repeats (key x ∷ seen) xs ys (Covered-new seen x xs ys c)))
  ]

-- Texts that are their own keys.
pub keys_self : (ks : List String) → keys (λ k. k) ks ≡ ks
keys_self [] = refl
keys_self (k ∷ ks) = ap (λ rest. k ∷ rest) (keys_self ks)

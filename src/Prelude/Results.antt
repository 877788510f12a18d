-- ===== src/Prelude/Results.antt =====
-- A computation that may throw: `ok` is a return, `err` a throw.
use mathlib.Core.Path.{◌≡◌, refl}
use mathlib.Core.Logic.{◌⊎◌, inl, inr}

pub data Result {ℓ κ} (E : Type κ) (A : Type ℓ) : Type (ℓ ⊔ κ) where
  err : E → Result E A
  ok : A → Result E A

module _ {ℓ κ} {E : Type κ} {A : Type ℓ} where
  -- the rest of a `do` block, after a call that may throw
  infixl 5 ◌>>=◌
  abbrev pub ◌>>=◌ {ι} : {B : Type ι} → Result E A → (A → Result E B) → Result E B
  call >>= rest = elim call [ err thrown ↦ err thrown | ok value ↦ rest value ]

  pub Result-cases : (m : Result E A) → ((a : A) × (m ≡ ok a)) ⊎ ((e : E) × (m ≡ err e))
  Result-cases (ok a) = inl (a, refl)
  Result-cases (err e) = inr (e, refl)

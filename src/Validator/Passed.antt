-- ===== src/Validator/Passed.antt =====
-- What the addresses of a chain that pass the check are known to be (packages/algorithm-validator/src/json-validation.ts).
use mathlib.Core.List.{Memᴰ}
use reputo.Prelude.{
  Bool, Bool-cases, find, any, sym, subst, ℕ, ◌+◌, ◌≡◌, refl, String, true, false, not, ◌||◌, some,
  List, [], ◌∷◌, ◌++◌, map, all, All, str_eq, str_eq_iff, Option-cases, inl, inr, arith,
}
use reputo.Tokens.Transfers.{has}
use reputo.Tokens.Firsts.{distinct}
use reputo.Values.{Value, text, Fields, field, end, as_array, as_text}
use reputo.Values.Texts.{is_blank}
use reputo.Validator.Wallets.{Language, normalized_address, pattern_errors, address_errors}

pub append_nothing {ℓ} : {A : Type ℓ} (xs ys : List A) → xs ++ ys ≡ [] → (xs ≡ []) × (ys ≡ [])
append_nothing [] ys h = (refl, h)
append_nothing (x ∷ xs) ys h = ground (arith, h)

pub find-found {ℓ} :
    {A : Type ℓ} (p : A → Bool) (xs : List A) {x : A}
    → find p xs ≡ some x
    → Memᴰ x xs × (p x ≡ true)
find-found p [] h = ground (arith, h)
find-found p (y ∷ ys) {x} h = elim (Bool-cases (p y)) [
  | inl t ↦ let e : x ≡ y = ground (arith, h, t) in (Memᴰ.head e, subst (λ z. p z ≡ true) (sym e) t)
  | inr n ↦ let (m, is) = find-found p ys (ground (arith, h, n)) in (Memᴰ.tail m, is)
]

pub any-found {ℓ} :
    {A : Type ℓ} (p : A → Bool) (xs : List A) → any p xs ≡ true → (x : A) × Memᴰ x xs × (p x ≡ true)
any-found p [] h = ground (arith, h)
any-found p (y ∷ ys) h = elim (Bool-cases (p y)) [
  | inl t ↦ (y, Memᴰ.head refl, t)
  | inr n ↦ let (x, m, is) = any-found p ys (ground (arith, h, n)) in (x, Memᴰ.tail m, is)
]

-- A text that is among the images of some texts is that of one of them.
pub has-found {ℓ} :
    {A : Type ℓ} (f : A → String) (xs : List A) (k : String)
    → has (map f xs) k ≡ true
    → (x : A) × Memᴰ x xs × (f x ≡ k)
has-found f [] k h = ground (arith, h)
has-found f (y ∷ ys) k h = elim (Bool-cases (str_eq (f y) k)) [
  | inl t ↦ (y, Memᴰ.head refl, (str_eq_iff (f y) k).0 t)
  | inr n ↦ let (x, m, is) = has-found f ys k (ground (arith, h, n)) in (x, Memᴰ.tail m, is)
]

pub unseen :
    (k : String) (seen ks : List String)
    → all (λ j. not (has (k ∷ seen) j)) ks ≡ true
    → (has ks k ≡ false) × (all (λ j. not (has seen j)) ks ≡ true)
unseen k seen [] h = (refl, refl)
unseen k seen (j ∷ ks) h =
    let rest = unseen k seen ks (ground (arith, h)) in
    (ground (arith, h, rest, str_eq_iff k j, str_eq_iff j k), ground (arith, h, rest))

module _ (language : Language) where
  -- An address of a chain: not blank, and of the chain's pattern.
  abbrev pub IsAddress : String → String → Type 0
  IsAddress chain address =
      (is_blank address ≡ false)
      × ((not (str_eq chain "ethereum") || language.is_ethereum_address address) ≡ true)
      × ((not (str_eq chain "cardano") || language.is_cardano_payment_address address) ≡ true)

  -- The addresses of a chain, none twice: in lower case, if the chain is Ethereum.
  abbrev pub IsWalletList : String → List Value → Type 0
  IsWalletList chain values =
      (addresses : List String) × (values ≡ map text addresses)
      × All (IsAddress chain) addresses
      × (distinct (map (normalized_address language chain) addresses) ≡ true)

  -- A map from supported chains to their addresses.
  abbrev pub IsWalletMap : List String → Fields → Type 0
  IsWalletMap allowed end = Unit
  IsWalletMap allowed (field chain value fs) =
      (has allowed chain ≡ true)
      × ((values : List Value) × (as_array value ≡ some values) × IsWalletList chain values)
      × IsWalletMap allowed fs

  passed_pattern :
      (chain : String) (index : ℕ) (address : String)
      → is_blank address ≡ false
      → pattern_errors language chain index address ≡ []
      → IsAddress chain address
  unfolding pattern_errors
  passed_pattern chain index address b h = ground (arith, b, h)

  unfoldable pub Listed : String → List String → List Value → Type 0
  Listed chain seen values =
      (addresses : List String) × (values ≡ map text addresses)
      × All (IsAddress chain) addresses
      × (distinct (map (normalized_address language chain) addresses) ≡ true)
      × (all (λ k. not (has seen k)) (map (normalized_address language chain) addresses) ≡ true)

  passed_text :
      (value : Value) {address : String} → as_text value ≡ some address → value ≡ text address
  passed_text (text s) h = ground (arith, h)
  passed_text value h = ground (arith, h)

  passed_value :
      (chain : String) (seen : List String) (index : ℕ) (value : Value) (values : List Value)
      → address_errors language chain seen index (value ∷ values) ≡ []
      → (address : String) × (value ≡ text address)
        × (is_blank address ≡ false)
        × (has seen (normalized_address language chain address) ≡ false)
        × (pattern_errors language chain index address ≡ [])
        × (address_errors language chain
              (normalized_address language chain address ∷ seen)
              (index + 1)
              values
            ≡ [])
  unfolding address_errors
  passed_value chain seen index value values h = elim (Option-cases (as_text value)) [
    | inl n ↦ ground (arith, n, h)
    | inr (address, e) ↦
        let normalized = normalized_address language chain address in
        let both : (is_blank address ≡ false)
            × (has seen normalized ≡ false)
            × (pattern_errors language chain index address
                  ++ address_errors language chain (normalized ∷ seen) (index + 1) values
                ≡ []) =
          ground (arith, e, h) in
        let (fine, later) =
          append_nothing (pattern_errors language chain index address)
            (address_errors language chain (normalized ∷ seen) (index + 1) values) both.2 in
        (address, passed_text value e, both.0, both.1, fine, later)
  ]

  pub passed_addresses :
      (chain : String) (seen : List String) (index : ℕ) (values : List Value)
      → address_errors language chain seen index values ≡ []
      → Listed chain seen values
  unfolding Listed
  passed_addresses chain seen index [] h = ([], refl, tt, refl, refl)
  passed_addresses chain seen index (value ∷ values) h =
      let (address, same, filled, new, fine, later) =
        passed_value chain seen index value values h in
      let normalized = normalized_address language chain address in
      let (addresses, rest, each, once, fresh) =
        passed_addresses chain (normalized ∷ seen) (index + 1) values later in
      let (alone, unseen_before) =
        unseen normalized seen (map (normalized_address language chain) addresses) fresh in
      (
        address ∷ addresses,
        ground (arith, same, rest),
        (passed_pattern chain index address filled fine, each),
        ground (arith, alone, once),
        ground (arith, new, unseen_before),
      )

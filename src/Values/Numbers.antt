-- ===== src/Values/Numbers.antt =====
-- The arithmetic of doubles that the programs use: subtraction, rounded to 53 bits with ties to even,
-- `Math.min`, and comparisons with zero.
use reputo.Prelude.{
  ℕ, zero, suc, ◌+◌, ◌-◌, ◌*◌, ◌/◌, ◌%◌, ◌^◌, ◌≡◌, refl, Bool, true, false, not, ◌&&◌, ◌||◌, ltb,
  leb, ◌==◌, ==-refl, if◌then◌else◌, arith,
}
use reputo.Values.{Number, nan, infinite, finite, natural, is_finite, less}

-- How many units of 2 ^ -1074 there are in one.
unfoldable pub scale : ℕ
scale = 2 ^ 1074

abbrev pub units_of : ℕ → ℕ → ℕ
units_of whole fraction = whole * scale + fraction

-- The binary digits of a number, with fuel for each.
unfoldable pub bits : ℕ → ℕ → ℕ
bits zero n = 0
bits (suc fuel) n = let rest = bits fuel (n / 2) in if n == 0 then 0 else suc rest

-- To 53 binary digits, ties to even; no double has more than 2098 digits above its last.
unfoldable pub round : ℕ → ℕ
unfolding bits
round n =
    let ulp = 2 ^ (bits 2200 n - 53) in
    let q = n / ulp in
    let r = n % ulp in
    let up = ltb ulp (2 * r) || (2 * r == ulp && q % 2 == 1) in (if up then q + 1 else q) * ulp

abbrev pub of_units : Bool → ℕ → Number
of_units negative n = finite negative (n / scale) (n % scale)

-- A sum may be too large for a double.
abbrev pub of_sum : Bool → ℕ → Number
of_sum negative n = if leb (2 ^ 2098) n then infinite negative else of_units negative n

-- The difference of two magnitudes with one sign.
unfoldable pub difference : Bool → ℕ → ℕ → Number
unfolding round scale
difference negative a b =
    if a == b
    then natural 0
    else if ltb b a
    then of_units negative (round (a - b))
    else of_units (not negative) (round (b - a))

-- `a - b`
unfoldable pub minus : Number → Number → Number
unfolding difference round scale
minus (finite false m f) (finite false n g) = difference false (units_of m f) (units_of n g)
minus (finite true m f) (finite true n g) = difference true (units_of m f) (units_of n g)
minus (finite false m f) (finite true n g) = of_sum false (round (units_of m f + units_of n g))
minus (finite true m f) (finite false n g) = of_sum true (round (units_of m f + units_of n g))
minus (finite _ _ _) (infinite negative) = infinite (not negative)
minus (infinite negative) (finite _ _ _) = infinite negative
minus (infinite true) (infinite false) = infinite true
minus (infinite false) (infinite true) = infinite false
minus _ _ = nan

-- `Math.min(a, b)`, where not both are zeros
unfoldable pub minimum : Number → Number → Number
unfolding less
minimum nan b = nan
minimum a nan = nan
minimum a b = if less b a then b else a

-- `a > 0`
abbrev pub is_positive : Number → Bool
is_positive a = less (natural 0) a

-- `a <= 0`
abbrev pub at_most_zero : Number → Bool
at_most_zero nan = false
at_most_zero a = not (is_positive a)

-- `a === 0`
abbrev pub is_zero : Number → Bool
is_zero (finite _ whole fraction) = whole == 0 && fraction == 0
is_zero _ = false

-- Ties go to the even neighbour.
rounds : round (2 ^ 53 + 1) ≡ 2 ^ 53
unfolding round
rounds = refl

rounds_up : round (2 ^ 53 + 3) ≡ 2 ^ 53 + 4
unfolding round
rounds_up = refl

pub minus_self : (a : Number) → is_finite a ≡ true → minus a a ≡ natural 0
unfolding minus difference
minus_self (finite false m f) h = ground (arith, ==-refl (units_of m f))
minus_self (finite true m f) h = ground (arith, ==-refl (units_of m f))
minus_self (infinite s) h = ground (arith, h)
minus_self nan h = ground (arith, h)

-- A positive number that is less than a finite one is finite.
pub less_finite :
    (a b : Number)
    → is_positive a ≡ true
    → is_finite b ≡ true
    → less a b ≡ true
    → is_finite a ≡ true
unfolding less
less_finite (finite s m f) b p h l = refl
less_finite (infinite true) b p h l = ground (arith, p)
less_finite (infinite false) (finite s m f) p h l = ground (arith, l)
less_finite (infinite false) (infinite s) p h l = ground (arith, h)
less_finite (infinite false) nan p h l = ground (arith, h)
less_finite nan b p h l = ground (arith, p)

-- The difference of positive finite numbers is finite.
pub minus_finite :
    (a b : Number)
    → is_positive b ≡ true
    → is_finite a ≡ true
    → less b a ≡ true
    → is_finite (minus a b) ≡ true
unfolding minus difference less
minus_finite (finite false m f) (finite false n g) p h l = ground arith
minus_finite (finite true m f) (finite false n g) p h l = ground (arith, l)
minus_finite a (finite true n g) p h l = ground (arith, p)
minus_finite (infinite s) b p h l = ground (arith, h)
minus_finite nan b p h l = ground (arith, h)
minus_finite (finite s m f) (infinite true) p h l = ground (arith, p)
minus_finite (finite s m f) (infinite false) p h l = ground (arith, l)
minus_finite (finite s m f) nan p h l = ground (arith, p)

pub minimum_first :
    (a b : Number) → is_finite a ≡ true → is_positive b ≡ true → less b a ≡ false → minimum a b ≡ a
unfolding minimum
minimum_first (finite s m f) (finite t n g) h p l = ground (arith, l)
minimum_first (finite s m f) (infinite t) h p l = ground (arith, l)
minimum_first (finite s m f) nan h p l = unfold less in ground (arith, p)
minimum_first (infinite s) b h p l = ground (arith, h)
minimum_first nan b h p l = ground (arith, h)

pub minimum_second : (a b : Number) → less b a ≡ true → minimum a b ≡ b
unfolding minimum less
minimum_second (finite s m f) (finite t n g) l = ground (arith, l)
minimum_second (finite s m f) (infinite t) l = ground (arith, l)
minimum_second (infinite s) (finite t n g) l = ground (arith, l)
minimum_second (infinite s) (infinite t) l = ground (arith, l)
minimum_second nan b l = ground (arith, l)
minimum_second a nan l = ground (arith, l)

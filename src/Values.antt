-- ===== src/Values.antt =====
-- The values of JavaScript that the programs read without knowing their type: what a preset's
-- inputs hold (`Array<{ key: string; value?: unknown }>`), and the tests that narrow them.
pub mod Texts
pub mod Numbers
use reputo.Prelude.{
  ℕ, String, Bool, true, false, ◌&&◌, ◌||◌, Option, none, some, List, [], ◌∷◌, ltb, ◌==◌, str_eq,
  if◌then◌else◌,
}

-- A `number` (double): `finite negative whole fraction` is whole + fraction / 2 ^ 1074 in
-- magnitude, since every finite double is a multiple of 2 ^ -1074.
pub data Number : Type 0 where
  nan : Number
  infinite : Bool → Number
  finite : Bool → ℕ → ℕ → Number

-- A whole number that is not negative.
abbrev pub natural : ℕ → Number
natural n = finite false n 0

-- `Number.isInteger`
abbrev pub is_integer : Number → Bool
is_integer (finite _ _ fraction) = fraction == 0
is_integer _ = false

-- `Number.isFinite`
abbrev pub is_finite : Number → Bool
is_finite (finite _ _ _) = true
is_finite _ = false

abbrev pub magnitude_less : ℕ → ℕ → ℕ → ℕ → Bool
magnitude_less m f n g = ltb m n || (m == n && ltb f g)

-- `x < y`; both zeros are equal, and nothing compares with `NaN`.
unfoldable pub less : Number → Number → Bool
less nan _ = false
less (infinite _) nan = false
less (finite _ _ _) nan = false
less (infinite true) (infinite true) = false
less (infinite true) _ = true
less (infinite false) _ = false
less (finite _ _ _) (infinite true) = false
less (finite _ _ _) (infinite false) = true
less (finite false m f) (finite false n g) = magnitude_less m f n g
less (finite true m f) (finite true n g) = magnitude_less n g m f
less (finite true m f) (finite false n g) = magnitude_less 0 0 m f || magnitude_less 0 0 n g
less (finite false m f) (finite true n g) = false

mutual
  pub data Value : Type 0 where
    undefined null : Value
    boolean : Bool → Value
    number : Number → Value
    text : String → Value
    array : Values → Value
    object : Fields → Value

  pub data Values : Type 0 where
    nil : Values
    item : Value → Values → Values

  pub data Fields : Type 0 where
    end : Fields
    field : String → Value → Fields → Fields

abbrev pub elements : Values → List Value
elements nil = []
elements (item v vs) = v ∷ elements vs

abbrev pub of_list : List Value → Values
of_list [] = nil
of_list (v ∷ vs) = item v (of_list vs)

-- `'k' in o`
abbrev pub has_field : String → Fields → Bool
has_field k end = false
has_field k (field j v fs) = str_eq j k || has_field k fs

-- `o.k`: undefined where the object has no such property.
abbrev pub get_field : String → Fields → Value
get_field k end = undefined
get_field k (field j v fs) = if str_eq j k then v else get_field k fs

-- `isRecord`
abbrev pub is_record : Value → Bool
is_record (object _) = true
is_record _ = false

-- `typeof value === 'string'`, with the text.
abbrev pub as_text : Value → Option String
as_text (text s) = some s
as_text _ = none

-- `typeof value === 'number'`, with the number.
abbrev pub as_number : Value → Option Number
as_number (number n) = some n
as_number _ = none

-- `Array.isArray(value)`, with the elements.
abbrev pub as_array : Value → Option (List Value)
as_array (array vs) = some (elements vs)
as_array _ = none

-- An input of a preset: `{ key: string; value?: unknown }`.
pub record PresetInput : Type 0 where
  pub key : String
  pub value : Value

-- `inputs.find((input) => input.key === key)?.value`
unfoldable pub input_value : String → List PresetInput → Value
input_value key [] = undefined
input_value key (input ∷ inputs) =
    if str_eq input.key key then input.value else input_value key inputs

-- `inputs.every(isPresetInputLike)`, with the inputs: every element is an object whose `key` is a
-- text.
unfoldable pub as_preset_inputs : List Value → Option (List PresetInput)
as_preset_inputs [] = some []
as_preset_inputs (object fs ∷ vs) = elim (as_text (get_field "key" fs)) [
  | none ↦ none
  | some key ↦ elim (as_preset_inputs vs) [
    | none ↦ none
    | some inputs ↦ some ((record { key = key; value = get_field "value" fs }) ∷ inputs)
  ]
]
as_preset_inputs (_ ∷ _) = none

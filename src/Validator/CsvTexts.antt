-- ===== src/Validator/CsvTexts.antt =====
-- The text operations of packages/algorithm-validator/src/csv-validation.ts: line ends, `split`, and
-- the replacements of its patterns.
use Prim.Native.Char.{code}
use reputo.Prelude.{
  ℕ, zero, suc, ◌-◌, ◌≡◌, refl, String, Bool, true, false, ◌&&◌, ◌||◌, ◌==◌, str_append, List, [],
  ◌∷◌, if◌then◌else◌,
}
use reputo.Values.Texts.{is_white, is_empty, trim}

abbrev pub starts : (ℕ → Bool) → String → Bool
starts p String.[] = false
starts p (String.◌∷◌ c _) = p (code c)

-- `replace(/^[..]+/, '')`
unfoldable pub drop_start : (ℕ → Bool) → String → String
drop_start p String.[] = String.[]
drop_start p (String.◌∷◌ c s) = if p (code c) then drop_start p s else String.◌∷◌ c s

-- `replace(/[..]+$/, '')`
unfoldable pub drop_end : (ℕ → Bool) → String → String
drop_end p String.[] = String.[]
drop_end p (String.◌∷◌ c s) =
    let rest = drop_end p s in if p (code c) && is_empty rest then String.[] else String.◌∷◌ c rest

-- `replace(/[..]+/g, '_')`
unfoldable pub runs_to_underscore : (ℕ → Bool) → String → String
runs_to_underscore p String.[] = String.[]
runs_to_underscore p (String.◌∷◌ c s) =
    let rest = runs_to_underscore p s in
    if p (code c) then (if starts p s then rest else str_append "_" rest) else String.◌∷◌ c rest

abbrev pub is_newline : ℕ → Bool
is_newline c = c == 10

-- `replace(/\r\n/g, '\n').replace(/\r/g, '\n')`
unfoldable pub unify_newlines : String → String
unify_newlines String.[] = String.[]
unify_newlines (String.◌∷◌ c s) =
    let rest = unify_newlines s in
    if code c == 13
    then (if starts is_newline s then rest else str_append "\n" rest)
    else String.◌∷◌ c rest

-- `replace(/^\uFEFF/, '')`
abbrev pub strip_bom : String → String
strip_bom String.[] = String.[]
strip_bom (String.◌∷◌ c s) = if code c == 65279 then s else String.◌∷◌ c s

-- `replace(/\u00a0/g, ' ')`
unfoldable pub plain_spaces : String → String
plain_spaces String.[] = String.[]
plain_spaces (String.◌∷◌ c s) =
    let rest = plain_spaces s in if code c == 160 then str_append " " rest else String.◌∷◌ c rest

abbrev pub is_quote : ℕ → Bool
is_quote c = c == 34 || c == 39

-- `replace(/^["']+|["']+$/g, '')`
abbrev pub strip_quotes : String → String
strip_quotes s = drop_end is_quote (drop_start is_quote s)

abbrev pub is_underscore : ℕ → Bool
is_underscore c = c == 95

-- `[\s\-\u2011\u2013\u2014]`
abbrev pub is_separator : ℕ → Bool
is_separator c = is_white c || c == 45 || c == 8209 || c == 8211 || c == 8212

-- `normalizeKey`, with `toLowerCase` as a parameter
unfoldable pub normalize_key : (String → String) → String → String
unfolding drop_start drop_end plain_spaces runs_to_underscore trim
normalize_key lower s =
    let key = strip_quotes (trim (plain_spaces (strip_bom (lower s)))) in
    let joined = runs_to_underscore is_underscore (runs_to_underscore is_separator key) in
    drop_end is_underscore (drop_start is_underscore joined)

-- A name of the header as it is compared.
unfoldable pub sanitize : String → String
unfolding drop_start drop_end plain_spaces trim
sanitize s = strip_quotes (trim (plain_spaces (strip_bom s)))

abbrev pub has_prefix : String → String → Bool
has_prefix String.[] s = true
has_prefix (String.◌∷◌ c d) String.[] = false
has_prefix (String.◌∷◌ c d) (String.◌∷◌ e s) = code c == code e && has_prefix d s

abbrev pub text_length : String → ℕ
text_length String.[] = 0
text_length (String.◌∷◌ _ s) = suc (text_length s)

abbrev pub characters : String → List String
characters String.[] = []
characters (String.◌∷◌ c s) = String.◌∷◌ c String.[] ∷ characters s

-- The text up to the first delimiter, and the parts after it; `skip` characters are left of a
-- delimiter that was found.
unfoldable pub parts : String → ℕ → String → String × List String
parts d skip String.[] = (String.[], [])
parts d (suc skip) (String.◌∷◌ c s) = parts d skip s
parts d zero (String.◌∷◌ c s) = elim (has_prefix d (String.◌∷◌ c s)) [
  | true ↦ let (first, others) = parts d (text_length d - 1) s in (String.[], first ∷ others)
  | false ↦ let (first, others) = parts d 0 s in (String.◌∷◌ c first, others)
]

-- `s.split(d)`
unfoldable pub split_text : String → String → List String
unfolding parts
split_text d s =
    let (first, others) = parts d 0 s in if is_empty d then characters s else first ∷ others

splits : split_text ";" "a;b;;c" ≡ "a" ∷ "b" ∷ "" ∷ "c" ∷ []
unfolding split_text
splits = refl

normalizes : normalize_key (λ s. s) " \"user - id__\" " ≡ "user_id"
unfolding normalize_key
normalizes = refl

unifies : unify_newlines "a\r\nb\rc\n" ≡ "a\nb\nc\n"
unfolding unify_newlines
unifies = refl

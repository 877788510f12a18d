-- ===== src/Values/Texts.antt =====
-- `trim` of JavaScript, and its decimal numerals as the messages print them.
use Prim.Native.Char.{code}
use reputo.Prelude.{ℕ, String, Bool, true, false, ◌&&◌, ◌||◌, leb, ◌==◌, ◌≡◌, refl, if◌then◌else◌}

-- WhiteSpace and LineTerminator of ECMAScript.
abbrev pub is_white : ℕ → Bool
is_white c =
    (leb 9 c && leb c 13)
    || c == 32
    || c == 160
    || c == 5760
    || (leb 8192 c && leb c 8202)
    || c == 8232
    || c == 8233
    || c == 8239
    || c == 8287
    || c == 12288
    || c == 65279

unfoldable pub trim_start : String → String
trim_start String.[] = String.[]
trim_start (String.◌∷◌ c s) = if is_white (code c) then trim_start s else String.◌∷◌ c s

abbrev pub is_empty : String → Bool
is_empty String.[] = true
is_empty (String.◌∷◌ _ _) = false

unfoldable pub trim_end : String → String
trim_end String.[] = String.[]
trim_end (String.◌∷◌ c s) =
    let rest = trim_end s in
    if is_white (code c) && is_empty rest then String.[] else String.◌∷◌ c rest

unfoldable pub trim : String → String
unfolding trim_start trim_end
trim s = trim_end (trim_start s)

-- `value.trim() === ''`
abbrev pub is_blank : String → Bool
is_blank s = is_empty (trim s)

trim_runs : trim "  a b \n" ≡ "a b"
unfolding trim
trim_runs = refl

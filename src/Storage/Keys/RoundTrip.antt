-- ===== src/Storage/Keys/RoundTrip.antt =====
-- Keys that are made and read back (keys.ts).
use reputo.Prelude.{
  ◌≡◌, ◌≢◌, ◌∙◌, refl, sym, ap, inl, inr, some, List, [], ◌∷◌, ◌++◌, arith, Option-cases, ok,
}
use reputo.Storage.Keys.{
  Text, codes, slash, dot, split, join, starts_with, split_last, KeyType, upload, snapshot,
  ParsedStorageKey, folder, generate_key, detect_key_type, extract_filename_and_ext, parse_parts,
  parse_storage_key,
}
use reputo.Storage.Keys.StringLaws.{
  Lacks, split-cons, join-split, split-append, split_last-append, append-of_split_last,
  append-of_starts_with,
}

detect-generate :
    (type : KeyType) (id filename : Text)
    → detect_key_type (generate_key type id filename) ≡ some type
unfolding detect_key_type generate_key starts_with
detect-generate upload id filename = refl
detect-generate snapshot id filename = refl

folder-Lacks : (type : KeyType) → Lacks slash (folder type)
folder-Lacks upload = refl
folder-Lacks snapshot = refl

split-generate :
    (type : KeyType) (id filename : Text)
    → Lacks slash id
    → split slash (generate_key type id filename) ≡ folder type ∷ id ∷ split slash filename
unfolding generate_key
split-generate type id filename h =
    split-append slash (folder type) (id ++ slash ∷ filename) (folder-Lacks type)
    ∙ ap (λ r. folder type ∷ r) (split-append slash id filename h)

-- what `parse_parts` does with the pieces of a key
parse_parts-of_split :
    (type : KeyType) (head id filename name ext : Text)
    → id ≢ []
    → split_last dot filename ≡ some (name, ext)
    → parse_parts type (head ∷ id ∷ split slash filename)
      ≡ ok (record { key_type = type; filename = name ++ dot ∷ ext; ext = ext; id = id })
unfolding parse_parts extract_filename_and_ext
parse_parts-of_split type head [] filename name ext filled e = absurd (filled refl)
parse_parts-of_split type head (c ∷ cs) filename name ext filled e =
    let (p, ps, parts) = split-cons slash filename in
    rw (parts, parse_parts, ← parts, join-split, extract_filename_and_ext, e)

-- A key made from a non-empty identifier without a slash and a file name with an extension is read
-- back as these parts. The name itself may hold slashes and dots; the extension is what follows
-- the last dot.
pub parse-generate :
    (type : KeyType) (id name ext : Text)
    → id ≢ []
    → Lacks slash id
    → Lacks dot ext
    → parse_storage_key (generate_key type id (name ++ dot ∷ ext))
      ≡ ok (record { key_type = type; filename = name ++ dot ∷ ext; ext = ext; id = id })
unfolding parse_storage_key
parse-generate type id name ext filled no_slash no_dot =
    rw (detect-generate, parse_storage_key)
      (rw (split-generate type id (name ++ dot ∷ ext) no_slash) (
        parse_parts-of_split type (folder type) id (name ++ dot ∷ ext) name ext filled
          (split_last-append dot name ext no_dot)))

-- the prefix that `detect_key_type` has found
prefix-of_detect :
    (type : KeyType) (key : Text)
    → detect_key_type key ≡ some type
    → (rest : Text) × (folder type ++ slash ∷ rest ≡ key)
unfolding detect_key_type
prefix-of_detect upload key h = append-of_starts_with (codes "uploads/") key (ground arith)
prefix-of_detect snapshot key h = append-of_starts_with (codes "snapshots/") key (ground arith)

generate-parse_parts :
    (type : KeyType) (head : Text) (parts : List Text) (r : ParsedStorageKey)
    → parse_parts type (head ∷ parts) ≡ ok r
    → generate_key r.key_type r.id r.filename ≡ folder type ++ slash ∷ join slash parts
unfolding parse_parts extract_filename_and_ext generate_key join
generate-parse_parts type head [] r h = cc
generate-parse_parts type head ([] ∷ []) r h = cc
generate-parse_parts type head ((c ∷ cs) ∷ []) r h = cc
generate-parse_parts type head ([] ∷ p ∷ ps) r h = cc
generate-parse_parts type head ((c ∷ cs) ∷ p ∷ ps) r h =
    elim (Option-cases (split_last dot (join slash (p ∷ ps)))) [
      | inl e ↦ ground arith
      | inr ((name, ext), e) ↦
          ground (arith, append-of_split_last dot (join slash (p ∷ ps)) name ext e)
    ]

-- A key that is read is the key made from the parts.
pub generate-parse :
    (key : Text) (r : ParsedStorageKey)
    → parse_storage_key key ≡ ok r
    → generate_key r.key_type r.id r.filename ≡ key
unfolding parse_storage_key
generate-parse key r h = elim (Option-cases (detect_key_type key)) [
  | inl e ↦ cc (rw (e, parse_storage_key) at h)
  | inr (type, e) ↦
      let (rest, same) = prefix-of_detect type key e in
      let parts : split slash key ≡ folder type ∷ split slash rest =
        ap (split slash) (sym same) ∙ split-append slash (folder type) rest (folder-Lacks type) in
      generate-parse_parts type (folder type) (split slash rest) r
        (rw parts at (rw (e, parse_storage_key) at h))
      ∙ rw join-split same
]

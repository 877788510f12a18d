-- ===== src/Storage/Keys.antt =====
-- packages/storage/src/shared/utils/keys.ts: making and reading the keys of stored objects.
-- A text is the list of its UTF-16 code units.
mod Strings
pub mod StringLaws
pub mod RoundTrip
mod Examples
use reputo.Prelude.{
  ℕ, ◌≡◌, Bool, true, false, Option, none, some, List, [], ◌∷◌, ◌++◌, ltb, length, Result, ok, err,
  ◌>>=◌, if◌then◌else◌,
}
unfoldable pub use Strings.{Text, codes, slash, dot, split, join, starts_with, split_last}

pub data KeyType : Type 0 where
  upload snapshot : KeyType

-- The reasons of `InvalidStorageKeyError`.
pub data KeyError : Type 0 where
  unknown_prefix too_few_segments missing_id no_extension : KeyError

pub record ParsedStorageKey : Type 0 where
  pub key_type : KeyType
  pub filename : Text
  pub ext : Text
  pub id : Text  -- `uuid` of an upload, `snapshotId` of a snapshot

-- `uploads` and `snapshots`
abbrev pub folder : KeyType → Text
folder upload = codes "uploads"
folder snapshot = codes "snapshots"

unfoldable pub generate_key : KeyType → Text → Text → Text
generate_key type id filename = folder type ++ slash ∷ (id ++ slash ∷ filename)

unfoldable pub detect_key_type : Text → Option KeyType
detect_key_type key =
    if starts_with (codes "uploads/") key
    then some upload
    else if starts_with (codes "snapshots/") key
    then some snapshot
    else none

-- name, extension
unfoldable pub extract_filename_and_ext : Text → Result KeyError (Text × Text)
extract_filename_and_ext part = elim (split_last dot part) [
  | none ↦ err no_extension
  | some halves ↦ ok halves
]

-- `parseUploadKey` and `parseSnapshotKey`, which differ in the name of the identifier only
unfoldable pub parse_parts : KeyType → List Text → Result KeyError ParsedStorageKey
parse_parts type (_ ∷ [] ∷ _ ∷ _) = err missing_id
parse_parts type (_ ∷ (c ∷ cs) ∷ part ∷ parts) = do
  (name, ext) ← extract_filename_and_ext (join slash (part ∷ parts))
  ok (record { key_type = type; filename = name ++ dot ∷ ext; ext = ext; id = c ∷ cs })
parse_parts type _ = err too_few_segments

unfoldable pub parse_storage_key : Text → Result KeyError ParsedStorageKey
unfolding parse_parts
parse_storage_key key = elim (detect_key_type key) [
  | none ↦ err unknown_prefix
  | some type ↦ parse_parts type (split slash key)
]

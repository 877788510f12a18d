-- ===== src/Storage/Checked.antt =====
-- What the verification of a stored object guarantees, and when it fails
-- (packages/storage/src/storage.ts).
use reputo.Prelude.{
  ℕ, ◌≤◌, ◌<◌, ◌≡◌, ◌≢◌, ◌⊎◌, inl, inr, refl, subst, String, true, false, Option, none, some, List,
  Result, err, ok, or_else, arith, Bool-cases, Option-cases, Result-cases, ltb,
}
use reputo.Tokens.Transfers.{has}
use reputo.Storage.Keys.{Text, upload, ParsedStorageKey, detect_key_type, parse_storage_key}
use reputo.Storage.Objects.{
  S3Error, ObjectError, file_too_large, invalid_content_type, object_not_found, head_object_failed,
  invalid_key, store_failed, Head, StorageMetadata, Store, says_missing, checked_list,
  validate_file_size, validate_content_type, check_against, get_object_metadata, verify,
}

abbrev pub size_of : Head → ℕ
size_of head = or_else head.content_length 0

abbrev pub type_of : Head → String
type_of head = or_else head.content_type "application/octet-stream"

module _ (store : Store) (key : Text) (max_size_bytes : ℕ) (allowlist : Option (List String)) where
  -- The content type of an upload is one of the list, where there is a list.
  abbrev pub IsAllowed : String → Type 0
  IsAllowed content_type =
      (detect_key_type key ≢ some upload)
      ⊎ (allowlist ≡ none)
      ⊎ ((list : List String) × (allowlist ≡ some list) × (has list content_type ≡ true))

  -- How a verification ends, and what that says of the store and of the key.
  abbrev pub Verified : Result ObjectError (Text × StorageMetadata) → Type 0
  Verified (ok (k, metadata)) =
      (k ≡ key)
      × (metadata.size ≤ max_size_bytes)
      × ((head : Head) × (store.head key ≡ ok head)
          × (metadata.size ≡ size_of head)
          × (metadata.content_type ≡ type_of head))
      × IsAllowed metadata.content_type
      × ((parsed : ParsedStorageKey) × (parse_storage_key key ≡ ok parsed)
          × (metadata.filename ≡ parsed.filename))
  Verified (err (object_not_found k)) =
      (k ≡ key) × ((e : S3Error) × (store.head key ≡ err e) × (says_missing "NotFound" e ≡ true))
  Verified (err (head_object_failed k)) =
      (k ≡ key) × ((e : S3Error) × (store.head key ≡ err e) × (says_missing "NotFound" e ≡ false))
  Verified (err (file_too_large limit)) =
      (limit ≡ max_size_bytes)
      × ((head : Head) × (store.head key ≡ ok head) × (max_size_bytes < size_of head))
  Verified (err (invalid_content_type content_type list)) =
      (detect_key_type key ≡ some upload)
      × (allowlist ≡ some list)
      × (has list content_type ≡ false)
      × ((head : Head) × (store.head key ≡ ok head) × (content_type ≡ type_of head))
  Verified (err (invalid_key e)) = parse_storage_key key ≡ err e
  Verified (err (store_failed _)) = ⊥

  unlisted : checked_list key allowlist ≡ none → (content_type : String) → IsAllowed content_type
  unlisted h content_type = ground (arith, h)

  listed :
      {list : List String}
      → checked_list key allowlist ≡ some list
      → (detect_key_type key ≡ some upload) × (allowlist ≡ some list)
  listed h = ground (arith, h)

  -- After the size and the content type have been accepted.
  parse-Verified :
      (head : Head)
      → store.head key ≡ ok head
      → ltb max_size_bytes (size_of head) ≡ false
      → check_against (type_of head) (checked_list key allowlist) ≡ ok tt
      → IsAllowed (type_of head)
      → Verified (verify store key max_size_bytes allowlist)
  unfolding verify get_object_metadata validate_file_size
  parse-Verified head h small checked allowed = elim (Result-cases (parse_storage_key key)) [
    | inl (parsed, p) ↦ ground (arith, h, small, checked, p, allowed)
    | inr (e, p) ↦ ground (arith, h, small, checked, p)
  ]

  size-Verified :
      (head : Head)
      → store.head key ≡ ok head
      → ltb max_size_bytes (size_of head) ≡ false
      → Verified (verify store key max_size_bytes allowlist)
  unfolding verify get_object_metadata validate_file_size validate_content_type
  size-Verified head h small = elim (Option-cases (checked_list key allowlist)) [
    | inl n ↦ parse-Verified head h small (ground (arith, n)) (unlisted n (type_of head))
    | inr (list, e) ↦
        let (detected, given) = listed e in
        elim (Bool-cases (has list (type_of head))) [
          | inl t ↦ parse-Verified head h small (ground (arith, e, t)) (inr (inr (list, given, t)))
          | inr f ↦
              let answer : err (invalid_content_type (type_of head) list)
                  ≡ verify store key max_size_bytes allowlist =
                ground (arith, h, small, e, f) in
              subst Verified answer (detected, given, f, (head, h, refl))
        ]
  ]

-- A verification that returns has found the object no larger than the limit and, for the key of an
-- upload with a list, of a content type that is on it, and reports the size, the type and the file
-- name; each error says what was wrong: the object missing, the request failed for another reason,
-- the object too large, the type of an upload not on the list, the key malformed.
pub verify-Verified :
    (store : Store) (key : Text) (max_size_bytes : ℕ) (allowlist : Option (List String))
    → Verified store key max_size_bytes allowlist (verify store key max_size_bytes allowlist)
unfolding verify get_object_metadata validate_file_size
verify-Verified store key max_size_bytes allowlist = elim (Result-cases (store.head key)) [
  | inr (e, h) ↦ ground (arith, h)
  | inl (head, h) ↦ elim (Bool-cases (ltb max_size_bytes (size_of head))) [
    | inl large ↦ ground (arith, h, large)
    | inr small ↦ size-Verified store key max_size_bytes allowlist head h small
  ]
]

-- ===== src/Storage/Objects.antt =====
-- packages/storage/src/storage.ts: the service around the object store. What the store answers, and
-- the signing of addresses, are parameters.
use reputo.Prelude.{
  ℕ, String, Bool, false, ◌||◌, Option, none, some, List, [], ◌∷◌, ◌++◌, Result, err, ok, ◌>>=◌,
  ltb, ◌==◌, str_eq, or_else, if◌then◌else◌,
}
use reputo.Tokens.Transfers.{has}
use reputo.Values.Texts.{is_empty}
use reputo.Storage.Keys.{
  Text, upload, snapshot, KeyError, ParsedStorageKey, generate_key, detect_key_type,
  parse_storage_key,
}

-- What the client of the store throws.
pub record S3Error : Type 0 where
  pub name : Option String
  pub http_status_code : Option ℕ
  pub message : String

pub data ObjectError : Type 0 where
  file_too_large : ℕ → ObjectError
  invalid_content_type : String → List String → ObjectError
  object_not_found head_object_failed : Text → ObjectError
  invalid_key : KeyError → ObjectError
  store_failed : S3Error → ObjectError

-- The answer to a HEAD request.
pub record Head : Type 0 where
  pub content_length : Option ℕ
  pub content_type : Option String

pub record StorageMetadata : Type 0 where
  pub filename : Text
  pub ext : Text
  pub size : ℕ
  pub content_type : String
  pub timestamp : ℕ

pub record PresignedUpload : Type 0 where
  pub key : Text
  pub url : String
  pub expires_in : ℕ

pub record PresignedDownload : Type 0 where
  pub url : String
  pub expires_in : ℕ
  pub metadata : StorageMetadata

-- The store, for one bucket: what it answers, and the addresses that it signs.
pub record Store : Type 0 where
  pub head : Text → Result S3Error Head
  pub get : Text → Result S3Error (List Text)  -- the chunks of the body
  pub put : Text → Text → Option String → Result S3Error (Unit {0})  -- key, body, content type
  pub delete : Text → Result S3Error (Unit {0})
  pub sign_put : Text → String → ℕ → Result S3Error String
  pub sign_get : Text → ℕ → Result S3Error String
  pub now : ℕ  -- Date.now() / 1000, rounded down

unfoldable pub validate_file_size : ℕ → ℕ → Result ObjectError (Unit {0})
validate_file_size size max_size_bytes =
    if ltb max_size_bytes size then err (file_too_large max_size_bytes) else ok tt

unfoldable pub validate_content_type : String → List String → Result ObjectError (Unit {0})
validate_content_type content_type allowlist =
    if has allowlist content_type then ok tt else err (invalid_content_type content_type allowlist)

abbrev pub is_named : String → Option String → Bool
is_named s none = false
is_named s (some t) = str_eq t s

abbrev pub is_status : ℕ → Option ℕ → Bool
is_status n none = false
is_status n (some m) = m == n

-- `err.name === name || err.$metadata?.httpStatusCode === 404`
abbrev pub says_missing : String → S3Error → Bool
says_missing name e = is_named name e.name || is_status 404 e.http_status_code

abbrev pub lift_key {ℓ} : {A : Type ℓ} → Result KeyError A → Result ObjectError A
lift_key (ok a) = ok a
lift_key (err e) = err (invalid_key e)

abbrev pub lift_store {ℓ} : {A : Type ℓ} → Result S3Error A → Result ObjectError A
lift_store (ok a) = ok a
lift_store (err e) = err (store_failed e)

-- Whether a content type is checked: only for the keys of uploads, and only against a list.
abbrev pub checked_list : Text → Option (List String) → Option (List String)
checked_list key allowlist = elim (detect_key_type key) [
  | some upload ↦ allowlist
  | some snapshot ↦ none
  | none ↦ none
]

abbrev pub check_against : String → Option (List String) → Result ObjectError (Unit {0})
check_against content_type none = ok tt
check_against content_type (some allowlist) = validate_content_type content_type allowlist

module _ (store : Store) where
  unfoldable pub get_object_metadata : Text → Result ObjectError Head
  get_object_metadata key = elim (store.head key) [
    | ok head ↦ ok head
    | err e ↦
        if says_missing "NotFound" e
        then err (object_not_found key)
        else err (head_object_failed key)
  ]

  abbrev pub metadata_of : Head → ParsedStorageKey → StorageMetadata
  metadata_of head parsed = record {
    filename = parsed.filename;
    ext = parsed.ext;
    size = or_else head.content_length 0;
    content_type = or_else head.content_type "application/octet-stream";
    timestamp = store.now;
  }

  unfoldable pub verify :
      Text → ℕ → Option (List String) → Result ObjectError (Text × StorageMetadata)
  unfolding get_object_metadata validate_file_size validate_content_type
  verify key max_size_bytes allowlist = do
    head ← get_object_metadata key
    _ ← validate_file_size (or_else head.content_length 0) max_size_bytes
    _ ←
        check_against (or_else head.content_type "application/octet-stream")
          (checked_list key allowlist)
    parsed ← lift_key (parse_storage_key key)
    ok (key, metadata_of head parsed)

  -- `uuid` is what `randomUUID` gives.
  unfoldable pub presign_put :
      Text → Text → String → ℕ → List String → Result ObjectError PresignedUpload
  unfolding validate_content_type
  presign_put uuid filename content_type ttl allowlist = do
    _ ← validate_content_type content_type allowlist
    url ← lift_store (store.sign_put (generate_key upload uuid filename) content_type ttl)
    ok (record { key = generate_key upload uuid filename; url = url; expires_in = ttl })

  unfoldable pub presign_get : Text → ℕ → Result ObjectError PresignedDownload
  unfolding get_object_metadata
  presign_get key ttl = do
    head ← get_object_metadata key
    parsed ← lift_key (parse_storage_key key)
    url ← lift_store (store.sign_get key ttl)
    ok (record { url = url; expires_in = ttl; metadata = metadata_of head parsed })

  abbrev pub concat : List Text → Text
  concat [] = []
  concat (chunk ∷ chunks) = chunk ++ concat chunks

  unfoldable pub get_object : Text → Result ObjectError Text
  get_object key = elim (store.get key) [
    | ok chunks ↦ ok (concat chunks)
    | err e ↦
        if says_missing "NoSuchKey" e then err (object_not_found key) else err (store_failed e)
  ]

  -- A content type that is absent or empty is not checked.
  abbrev pub given : Option String → Option (List String) → Result ObjectError (Unit {0})
  given none allowlist = ok tt
  given (some content_type) allowlist =
      if is_empty content_type then ok tt else check_against content_type allowlist

  unfoldable pub put_object :
      Text → Text → Option String → Option (List String) → Result ObjectError Text
  unfolding validate_content_type
  put_object key body content_type allowlist = do
    _ ← given content_type (checked_list key allowlist)
    _ ← lift_store (store.put key body content_type)
    ok key

  unfoldable pub delete_object : Text → Result ObjectError (Unit {0})
  delete_object key = lift_store (store.delete key)

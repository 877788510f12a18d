-- ===== src/Storage/Bulk.antt =====
-- packages/storage/src/storage.ts: listing the objects under a prefix, and deleting many of them.
-- The n-th request of a listing, and that of a deletion, are answered by parameters.
use reputo.Prelude.{
  ℕ, zero, suc, ◌+◌, String, Bool, Option, none, some, List, [], ◌∷◌, ◌++◌, map, Result, err, ok,
  if◌then◌else◌,
}
use reputo.Values.Texts.{is_empty}

-- A page of `ListObjectsV2`: an object may come without a key.
pub record ListPage : Type 0 where
  pub contents : List (Option String)
  pub is_truncated : Bool
  pub next_continuation_token : Option String

-- The keys that are there, and not empty.
unfoldable pub present_keys : List (Option String) → List String
present_keys [] = []
present_keys (none ∷ keys) = present_keys keys
present_keys (some key ∷ keys) =
    let rest = present_keys keys in if is_empty key then rest else key ∷ rest

-- The token of the next request; an empty one ends the loop.
unfoldable pub next_token : ListPage → Option String
next_token page =
    if page.is_truncated
    then (elim page.next_continuation_token [
      | none ↦ none
      | some token ↦ if is_empty token then none else some token
    ])
    else none

-- The loop, or nothing when it is out of fuel.
unfoldable pub list_loop {ℓ} :
    {E : Type ℓ}
    → (ℕ → Option String → Result E ListPage)
    → ℕ
    → ℕ
    → Option String
    → List String
    → Option (Result E (List String))
unfolding present_keys next_token
list_loop pages zero n token keys = none
list_loop pages (suc fuel) n token keys = elim (pages n token) [
  | err e ↦ some (err e)
  | ok page ↦
      let found = keys ++ present_keys page.contents in
      elim (next_token page) [
        | none ↦ some (ok found)
        | some next ↦ list_loop pages fuel (n + 1) (some next) found
      ]
]

unfoldable pub list_objects_by_prefix {ℓ} :
    {E : Type ℓ} → (ℕ → Option String → Result E ListPage) → ℕ → Option (Result E (List String))
unfolding list_loop
list_objects_by_prefix pages fuel = list_loop pages fuel 0 none []

abbrev pub batch_size : ℕ
batch_size = 1000

-- `keys.slice(i, i + BATCH_SIZE)` and what follows it
abbrev pub take {ℓ} : {A : Type ℓ} → ℕ → List A → List A
take zero xs = []
take (suc n) [] = []
take (suc n) (x ∷ xs) = x ∷ take n xs

abbrev pub drop {ℓ} : {A : Type ℓ} → ℕ → List A → List A
drop zero xs = xs
drop (suc n) [] = []
drop (suc n) (x ∷ xs) = drop n xs

pub record DeleteError : Type 0 where
  pub key : Option String
  pub message : Option String

-- The answer to `DeleteObjects`.
pub record DeleteResponse : Type 0 where
  pub deleted : List (Option String)
  pub errors : List DeleteError

pub record DeleteObjectsResult : Type 0 where
  pub deleted : List String
  pub errors : List (String × String)  -- key, message

-- `message || fallback`
abbrev pub message_or : String → Option String → String
message_or fallback none = fallback
message_or fallback (some message) = if is_empty message then fallback else message

unfoldable pub key_errors : List DeleteError → List (String × String)
key_errors [] = []
key_errors (e ∷ es) =
    let rest = key_errors es in
    elim e.key [
      | none ↦ rest
      | some key ↦ if is_empty key then rest else (key, message_or "Unknown error" e.message) ∷ rest
    ]

abbrev pub failed_key : String → String → String × String
failed_key message key = (key, message_or "Batch delete failed" (some message))

-- What a batch adds: a request that throws makes an error of every key.
unfoldable pub batch_result : Result String DeleteResponse → List String → DeleteObjectsResult
unfolding present_keys key_errors
batch_result (ok response) batch = record {
  deleted = present_keys response.deleted;
  errors = key_errors response.errors;
}
batch_result (err message) batch = record { deleted = []; errors = map (failed_key message) batch }

module _ (deletes : ℕ → List String → Result String DeleteResponse) where
  -- `for (let i = 0; i < keys.length; i += BATCH_SIZE)`: one unit of fuel for each batch. The n-th
  -- request gets the n-th batch.
  unfoldable pub delete_loop :
      ℕ → ℕ → List String → DeleteObjectsResult → Option DeleteObjectsResult
  unfolding batch_result
  delete_loop fuel n [] acc = some acc
  delete_loop zero n (key ∷ keys) acc = none
  delete_loop (suc fuel) n (key ∷ keys) acc =
      let batch = take batch_size (key ∷ keys) in
      let added = batch_result (deletes n batch) batch in
      delete_loop fuel (n + 1) (drop batch_size (key ∷ keys))
        (record { deleted = acc.deleted ++ added.deleted; errors = acc.errors ++ added.errors })

  unfoldable pub delete_objects : ℕ → List String → Option DeleteObjectsResult
  unfolding delete_loop
  delete_objects fuel keys = delete_loop fuel 0 keys (record { deleted = []; errors = [] })

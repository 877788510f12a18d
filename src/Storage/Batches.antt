-- ===== src/Storage/Batches.antt =====
-- A deletion of many objects goes in batches, and every key is accounted for
-- (packages/storage/src/storage.ts).
use reputo.Prelude.{
  ℕ, zero, suc, ◌+◌, ◌-◌, ◌*◌, ◌≤◌, ◌<◌, ◌≡◌, refl, ap, ◌∙◌, String, false, Option, some, List, [],
  ◌∷◌, ◌++◌, map, length, length-append, append_assoc, append-nil, All, Result, ok, Result-cases,
  inl, inr, arith,
}
use reputo.Values.Texts.{is_empty}
use reputo.Storage.Bulk.{
  DeleteError, DeleteResponse, DeleteObjectsResult, present_keys, key_errors, batch_result,
  batch_size, take, drop, delete_loop, delete_objects, failed_key,
}

take-drop : (n : ℕ) (xs : List String) → take n xs ++ drop n xs ≡ xs
take-drop zero xs = refl
take-drop (suc n) [] = refl
take-drop (suc n) (x ∷ xs) = ap (λ rest. x ∷ rest) (take-drop n xs)

length-take : (n : ℕ) (xs : List String) → length (take n xs) ≤ n
length-take zero xs = omega arith
length-take (suc n) [] = omega arith
length-take (suc n) (x ∷ xs) = omega (arith, length-take n xs)

length-drop : (n : ℕ) (xs : List String) → length (drop n xs) ≡ length xs - n
length-drop zero xs = omega arith
length-drop (suc n) [] = omega arith
length-drop (suc n) (x ∷ xs) = omega (arith, length-drop n xs)

abbrev pub concat : List (List String) → List String
concat [] = []
concat (xs ∷ xss) = xs ++ concat xss

-- What the batches give, one after the other, the first being the n-th request.
abbrev pub results_of :
    (ℕ → List String → Result String DeleteResponse) → ℕ → List (List String) → DeleteObjectsResult
results_of deletes n [] = record { deleted = []; errors = [] }
results_of deletes n (batch ∷ batches) =
    let first = batch_result (deletes n batch) batch in
    let rest = results_of deletes (n + 1) batches in
    record { deleted = first.deleted ++ rest.deleted; errors = first.errors ++ rest.errors }

abbrev pub IsBatch : List String → Type 0
IsBatch batch = (0 < length batch) × (length batch ≤ 1000)

module _ (deletes : ℕ → List String → Result String DeleteResponse) where
  abbrev pub Batched : ℕ → List String → DeleteObjectsResult → Option DeleteObjectsResult → Type 0
  Batched n keys acc answer =
      (batches : List (List String)) × (concat batches ≡ keys)
      × All IsBatch batches
      × (let added = results_of deletes n batches in
          answer
          ≡ some (record {
            deleted = acc.deleted ++ added.deleted;
            errors = acc.errors ++ added.errors;
          }))

  delete_loop-Batched :
      (fuel n : ℕ) (keys : List String) (acc : DeleteObjectsResult)
      → length keys ≤ 1000 * fuel
      → Batched n keys acc (delete_loop deletes fuel n keys acc)
  unfolding delete_loop
  delete_loop-Batched fuel n [] acc enough =
      ([], refl, tt, ground (arith, append-nil acc.deleted, append-nil acc.errors))
  delete_loop-Batched zero n (key ∷ keys) acc enough = ground (arith, enough)
  delete_loop-Batched (suc fuel) n (key ∷ keys) acc enough =
      let batch = take batch_size (key ∷ keys) in
      let later = drop batch_size (key ∷ keys) in
      let added = batch_result (deletes n batch) batch in
      let next : DeleteObjectsResult = record {
        deleted = acc.deleted ++ added.deleted;
        errors = acc.errors ++ added.errors;
      } in
      let (batches, whole, sizes, answer) =
        delete_loop-Batched fuel (n + 1) later next
          (omega (arith, length-drop batch_size (key ∷ keys), enough)) in
      let rest = results_of deletes (n + 1) batches in
      (
        batch ∷ batches,
        ap (λ ks. batch ++ ks) whole ∙ take-drop batch_size (key ∷ keys),
        ((omega arith, length-take batch_size (key ∷ keys)), sizes),
        ground (
          arith,
          answer,
          append_assoc acc.deleted added.deleted rest.deleted,
          append_assoc acc.errors added.errors rest.errors,
        ),
      )

length-map : {B : Type 0} (f : String → B) (keys : List String) → length (map f keys) ≡ length keys
length-map f [] = refl
length-map f (key ∷ keys) = omega (arith, length-map f keys)

length-concat :
    (batch : List String) (batches : List (List String))
    → length (concat (batch ∷ batches)) ≡ length batch + length (concat batches)
length-concat batch batches = length-append batch (concat batches)

module _ (deletes : ℕ → List String → Result String DeleteResponse)
    (complete : (n : ℕ) (batch : List String) (response : DeleteResponse)
      → deletes n batch ≡ ok response
      → length (present_keys response.deleted) + length (key_errors response.errors)
        ≡ length batch) where
  batch_accounted :
      (n : ℕ) (batch : List String)
      → length (batch_result (deletes n batch) batch).deleted
          + length (batch_result (deletes n batch) batch).errors
        ≡ length batch
  unfolding batch_result
  batch_accounted n batch = elim (Result-cases (deletes n batch)) [
    | inl (response, h) ↦ ground (arith, h, complete n batch response h)
    | inr (message, h) ↦
        let all_failed = length-map (failed_key message) batch in rw h (omega (arith, all_failed))
  ]

  results_accounted :
      (n : ℕ) (batches : List (List String))
      → length (results_of deletes n batches).deleted + length (results_of deletes n batches).errors
        ≡ length (concat batches)
  results_accounted n [] = refl
  results_accounted n (batch ∷ batches) =
      let first = batch_result (deletes n batch) batch in
      let rest = results_of deletes (n + 1) batches in
      omega (
        arith,
        length-append first.deleted rest.deleted,
        length-append first.errors rest.errors,
        batch_accounted n batch,
        results_accounted (n + 1) batches,
        length-concat batch batches,
      )

abbrev pub Named : Option String → Type 0
Named o = (key : String) × (o ≡ some key) × (is_empty key ≡ false)

-- An answer that reports as many keys as it was asked to delete, each by its name.
abbrev pub Reports : List String → DeleteResponse → Type 0
Reports batch response =
    All Named response.deleted
    × All (λ (e : DeleteError). Named e.key) response.errors
    × (length response.deleted + length response.errors ≡ length batch)

length-present_keys :
    (keys : List (Option String)) → All Named keys → length (present_keys keys) ≡ length keys
unfolding present_keys
length-present_keys [] h = refl
length-present_keys (o ∷ keys) ((key, e, f), rest) =
    ground (arith, e, f, length-present_keys keys rest)

length-key_errors :
    (es : List DeleteError)
    → All (λ (e : DeleteError). Named e.key) es
    → length (key_errors es) ≡ length es
unfolding key_errors
length-key_errors [] h = refl
length-key_errors (e ∷ es) ((key, is, f), rest) = ground (arith, is, f, length-key_errors es rest)

-- With a unit of fuel for each thousand keys, a deletion ends. Its requests carry the keys in their
-- order, each from one to a thousand of them, and the result is that of the requests one after the
-- other. If every answer names a key in each object deleted and each error, and has as many of them
-- together as it was asked to delete, then as many keys are reported as were given, also where
-- requests throw.
pub delete_objects-Accounted :
    (deletes : ℕ → List String → Result String DeleteResponse) (fuel : ℕ) (keys : List String)
    → ((n : ℕ) (batch : List String) (response : DeleteResponse)
        → deletes n batch ≡ ok response
        → Reports batch response)
    → length keys ≤ 1000 * fuel
    → (batches : List (List String)) × (concat batches ≡ keys)
      × All IsBatch batches
      × (delete_objects deletes fuel keys ≡ some (results_of deletes 0 batches))
      × (length (results_of deletes 0 batches).deleted
            + length (results_of deletes 0 batches).errors
          ≡ length keys)
unfolding delete_objects
delete_objects-Accounted deletes fuel keys reports enough =
    let complete : (n : ℕ) (batch : List String) (response : DeleteResponse)
        → deletes n batch ≡ ok response
        → length (present_keys response.deleted) + length (key_errors response.errors)
          ≡ length batch =
      λ n batch response h.
        let (named, errors, whole) = reports n batch response h in
        omega (
          arith,
          length-present_keys response.deleted named,
          length-key_errors response.errors errors,
          whole,
        ) in
    let (batches, whole, sizes, answer) =
      delete_loop-Batched deletes fuel 0 keys (record { deleted = []; errors = [] }) enough in
    (batches, whole, sizes, answer, results_accounted deletes complete 0 batches ∙ ap length whole)

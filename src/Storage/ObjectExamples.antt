-- ===== src/Storage/ObjectExamples.antt =====
-- The object store on concrete objects (packages/storage/src/storage.ts).
use reputo.Prelude.{
  ℕ, zero, suc, ◌+◌, ◌≡◌, refl, subst, String, none, some, Option, List, [], ◌∷◌, map, length, All,
  arith, Result, ok, err,
}
use reputo.Storage.Keys.{Text, codes}
use reputo.Storage.Objects.{Store, file_too_large, verify}
use reputo.Storage.Checked.{Verified, verify-Verified}
use reputo.Storage.Bulk.{DeleteResponse, delete_objects}
use reputo.Storage.Batches.{IsBatch, concat, results_of, Named, Reports, delete_objects-Accounted}

abbrev holding : ℕ → Store
holding size = record {
  head = λ _. ok (record { content_length = some size; content_type = some "text/csv" });
  get = λ _. ok [];
  put = λ _ _ _. ok tt;
  delete = λ _. ok tt;
  sign_put = λ _ _ _. ok "https://store/put";
  sign_get = λ _ _. ok "https://store/get";
  now = 1700000000;
}

abbrev votes_key : Text
votes_key = codes "uploads/7/votes.csv"

too_large : verify (holding 11) votes_key 10 (some ("text/csv" ∷ [])) ≡ err (file_too_large 10)
unfolding verify
too_large = refl

verify-Verified_example :
    Verified
      (holding 11)
      votes_key
      10
      (some ("text/csv" ∷ []))
      (verify (holding 11) votes_key 10 (some ("text/csv" ∷ [])))
verify-Verified_example = verify-Verified (holding 11) votes_key 10 (some ("text/csv" ∷ []))

abbrev name_of : String → Option String
name_of _ = some "k"

-- A store that deletes every key of its first request but the first, and then fails.
abbrev deleting : ℕ → List String → Result String DeleteResponse
deleting zero [] = ok (record { deleted = []; errors = [] })
deleting zero (key ∷ batch) = ok (record {
  deleted = map name_of batch;
  errors = (record { key = some "locked"; message = none }) ∷ [];
})
deleting (suc n) batch = err "unavailable"

name_of-Named : (batch : List String) → All Named (map name_of batch)
name_of-Named [] = tt
name_of-Named (key ∷ batch) = (("k", refl, refl), name_of-Named batch)

mapped : (batch : List String) → length (map name_of batch) ≡ length batch
mapped [] = refl
mapped (key ∷ batch) = omega (arith, mapped batch)

deleting-Reports :
    (n : ℕ) (batch : List String) (response : DeleteResponse)
    → deleting n batch ≡ ok response
    → Reports batch response
deleting-Reports zero [] response h =
    let e : (record { deleted = []; errors = [] }) ≡ response = ground (arith, h) in
    subst (Reports []) e (tt, tt, refl)
deleting-Reports zero (key ∷ batch) response h =
    let answer : DeleteResponse = record {
      deleted = map name_of batch;
      errors = (record { key = some "locked"; message = none }) ∷ [];
    } in
    let e : answer ≡ response = ground (arith, h) in
    subst (Reports (key ∷ batch)) e
      (name_of-Named batch, (("locked", refl, refl), tt), omega (arith, mapped batch))
deleting-Reports (suc n) batch response h = ground (arith, h)

abbrev many : ℕ → List String
many zero = []
many (suc n) = "a" ∷ many n

delete_objects-Accounted_example :
    (batches : List (List String)) × (concat batches ≡ many 1001)
    × All IsBatch batches
    × (delete_objects deleting 2 (many 1001) ≡ some (results_of deleting 0 batches))
    × (length (results_of deleting 0 batches).deleted
          + length (results_of deleting 0 batches).errors
        ≡ length (many 1001))
delete_objects-Accounted_example =
    delete_objects-Accounted deleting 2 (many 1001) deleting-Reports (omega arith)

-- ===== src/Orchestrator/Published.antt =====
-- The publication of a run's scores (the end of `runOrchestrator` of orchestrator.workflow.ts).
use reputo.Prelude.{
  ◌≡◌, refl, String, true, false, none, some, List, ◌∷◌, ◌⊎◌, inl, inr, Result, err, ok,
  Result-cases, Bool-cases, if◌then◌else◌, arith,
}
use reputo.Orchestrator.Model.{
  SnapshotRead, Thrown, ErrorClass, error, not_an_error, application_failure, temporal_failure,
  plain_error, is_text, RecordPublicationInput, SnapshotPublicationStatus, pending, sent,
  PostResult, Call, get_snapshot, post_snapshot_scores, record_snapshot_publication, Activities,
  RunState, new_error, await,
}
use reputo.Orchestrator.Model
use reputo.Orchestrator.Run.{describe_publication_failure, post_scores, publish}
use reputo.Orchestrator.Described.{Describes, describe_publication_failure-Describes}

failed_record : String → String → RecordPublicationInput
failed_record key message = record {
  algorithm_key = key;
  status = Model.failed;
  counts = none;
  message = some message;
}

pending_record : String → RecordPublicationInput
pending_record key = record { algorithm_key = key; status = pending; counts = none; message = none }

concluding : String → PostResult → RecordPublicationInput
unfolding failed_record
concluding key result =
    if result.attempted
    then (record {
      algorithm_key = key;
      status = sent;
      counts = some result.counts;
      message = none;
    })
    else failed_record key "The algorithm produced no postable score output"

module _ (activities : Activities) where
  -- A message of a failed publication: no output was attempted, or the posting, or the reading
  -- before it, has failed, and the message quotes no error but the posting activity's own.
  abbrev pub Explains : String → List Call → Type 0
  Explains message older =
      ((message ≡ "The algorithm produced no postable score output")
        × ((result : PostResult) × (activities.posts_scores older ≡ ok result)
            × (result.attempted ≡ false)))
      ⊎ ((e : Thrown) × ((activities.posts_scores older ≡ err e)
            ⊎ (activities.gets_snapshot older ≡ err e))
          × Describes e message)

  -- The last record, right after a posting: `sent`, with the counts of a posting that was
  -- attempted, or `failed`, with a message.
  abbrev pub Concludes : RecordPublicationInput → List Call → Type 0
  Concludes last older =
      ((last.status ≡ sent)
        × ((result : PostResult) × (activities.posts_scores older ≡ ok result)
            × (result.attempted ≡ true)
            × (last.counts ≡ some result.counts)))
      ⊎ ((last.status ≡ Model.failed)
          × (last.counts ≡ none)
          × ((message : String) × (last.message ≡ some message) × Explains message older))

  abbrev pub Recorded : String → Result Thrown (Unit {0}) × RunState → Type 0
  Recorded key (r, t) =
      (r ≡ ok tt)
      × ((last : RecordPublicationInput) × (older : List Call) × (t.calls
            ≡ record_snapshot_publication last ∷ older)
          × (last.algorithm_key ≡ key)
          × Concludes last older)

  reading_failed :
      (key : String) (e : Thrown) (s : RunState)
      → activities.gets_snapshot (get_snapshot ∷ s.calls) ≡ err e
      → ((post_scores activities key s).0 ≡ err e)
        × ((post_scores activities key s).1.calls ≡ get_snapshot ∷ s.calls)
  unfolding post_scores
  reading_failed key e s h = ground (arith, h)

  module _ (key : String) (s : RunState) (snapshot : SnapshotRead) where
    abbrev posting : List Call
    posting =
        post_snapshot_scores snapshot
        ∷ record_snapshot_publication (pending_record key)
        ∷ get_snapshot
        ∷ s.calls

    posting_failed :
        (e : Thrown)
        → activities.gets_snapshot (get_snapshot ∷ s.calls) ≡ ok snapshot
        → activities.posts_scores posting ≡ err e
        → ((post_scores activities key s).0 ≡ err e)
          × ((post_scores activities key s).1.calls ≡ posting)
    unfolding post_scores pending_record
    posting_failed e h k = ground (arith, h, k)

    posting_done :
        {result : PostResult}
        → activities.gets_snapshot (get_snapshot ∷ s.calls) ≡ ok snapshot
        → activities.posts_scores posting ≡ ok result
        → ((post_scores activities key s).0 ≡ ok tt)
          × ((post_scores activities key s).1.calls
              ≡ record_snapshot_publication (concluding key result) ∷ posting)
    unfolding post_scores pending_record concluding failed_record
    posting_done h k = ground (arith, h, k)

  after_failure :
      (key : String) (e : Thrown) (s : RunState) (older : List Call)
      → (post_scores activities key s).0 ≡ err e
      → (post_scores activities key s).1.calls ≡ older
      → (activities.posts_scores older ≡ err e) ⊎ (activities.gets_snapshot older ≡ err e)
      → Recorded key (publish activities key s)
  unfolding publish failed_record
  after_failure key e s older threw same cause =
      let message = describe_publication_failure e in
      (
        ground (arith, threw),
        (
          failed_record key message,
          older,
          ground (arith, threw, same),
          refl,
          inr (
            refl,
            refl,
            (message, refl, inr (e, cause, describe_publication_failure-Describes e)),
          ),
        ),
      )

  after_posting :
      (key : String) (s : RunState) (older : List Call) (result : PostResult)
      → (post_scores activities key s).0 ≡ ok tt
      → (post_scores activities key s).1.calls
        ≡ record_snapshot_publication (concluding key result) ∷ older
      → activities.posts_scores older ≡ ok result
      → Recorded key (publish activities key s)
  unfolding publish concluding failed_record
  after_posting key s older result done same posted = (
    ground (arith, done),
    (
      concluding key result,
      older,
      ground (arith, done, same),
      ground arith,
      (elim (Bool-cases result.attempted) [
        | inl t ↦ inl (ground (arith, t), (result, posted, t, ground (arith, t)))
        | inr f ↦ inr (
          ground (arith, f),
          ground (arith, f),
          (
            "The algorithm produced no postable score output",
            ground (arith, f),
            inl (refl, (result, posted, f)),
          ),
        )
      ]),
    ),
  )

-- Publishing never throws. Its last call records, under the algorithm's key, how it ended: `sent`
-- exactly with the counts that a posting which was attempted has just returned; else `failed`, with a
-- message that is fixed, or that a failure of the posting activity's own type carries, either itself or as a
-- cause: no message of another error is recorded.
pub publish-Recorded :
    (activities : Activities) (key : String) (s : RunState)
    → Recorded activities key (publish activities key s)
publish-Recorded activities key s =
    let reading = get_snapshot ∷ s.calls in
    elim (Result-cases (activities.gets_snapshot reading)) [
      | inr (e, h) ↦
          after_failure activities key e s reading (reading_failed activities key e s h).0
            (reading_failed activities key e s h).1 (inr h)
      | inl (snapshot, h) ↦
          let last = posting activities key s snapshot in
          elim (Result-cases (activities.posts_scores last)) [
            | inr (e, k) ↦
                let (threw, same) = posting_failed activities key s snapshot e h k in
                after_failure activities key e s last threw same (inl k)
            | inl (result, k) ↦
                let (done, same) = posting_done activities key s snapshot h k in
                after_posting activities key s last result done same k
          ]
    ]

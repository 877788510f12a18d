-- ===== src/Orchestrator/Described.antt =====
-- What a failed publication says of the failure (`describePublicationFailure` of
-- orchestrator.workflow.ts).
use reputo.Prelude.{
  ◌≡◌, refl, sym, subst, String, true, none, some, ◌⊎◌, inl, inr, Bool-cases, arith, str_eq_iff,
}
use reputo.Orchestrator.Model.{
  Thrown, ErrorClass, error, not_an_error, application_failure, temporal_failure, plain_error,
}
use reputo.Orchestrator.Run.{describe_publication_failure, is_failure_of}

-- A message of an error, or of one of its causes, that the posting activity itself made.
pub data Quotes : Thrown → String → Type 0 where
  here :
      (message : String) (cause : Thrown)
      → Quotes
          (error (application_failure (some "DEEPID_POST_SCORES_FAILURE")) message cause)
          message
  in_cause :
      (class : ErrorClass) (other : String) {cause : Thrown} {message : String}
      → Quotes cause message
      → Quotes (error class other cause) message

-- What a failure is recorded with: a fixed sentence, or a quotation of the failure.
abbrev pub Describes : Thrown → String → Type 0
Describes e message = (message ≡ "The score posting activity failed") ⊎ Quotes e message

own_failure :
    (class : ErrorClass)
    → is_failure_of "DEEPID_POST_SCORES_FAILURE" class ≡ true
    → class ≡ application_failure (some "DEEPID_POST_SCORES_FAILURE")
own_failure (application_failure none) h = ground arith
own_failure (application_failure (some type)) h =
    ground (arith, str_eq_iff type "DEEPID_POST_SCORES_FAILURE", h)
own_failure temporal_failure h = ground arith
own_failure plain_error h = ground arith

pub describe_publication_failure-Describes :
    (e : Thrown) → Describes e (describe_publication_failure e)
unfolding describe_publication_failure
describe_publication_failure-Describes not_an_error = inl refl
describe_publication_failure-Describes (error class message cause) =
    elim (Bool-cases (is_failure_of "DEEPID_POST_SCORES_FAILURE" class)) [
      | inl own ↦
          let said : message ≡ describe_publication_failure (error class message cause) =
            ground (arith, own) in
          subst (Describes (error class message cause)) said (
            subst (λ c. Describes (error c message cause) message) (sym (own_failure class own))
              (inr (here message cause)))
      | inr other ↦
          let said : describe_publication_failure cause
              ≡ describe_publication_failure (error class message cause) =
            ground (arith, other) in
          subst (Describes (error class message cause)) said
            (elim (describe_publication_failure-Describes cause) [
              | inl fixed ↦ inl fixed
              | inr quotes ↦ inr (in_cause class message quotes)
            ])
    ]

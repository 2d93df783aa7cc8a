-- ===== src/Validation/Details.antt =====
-- validation.py: the checks of `details`, by the kind of a record.
use mncs_commons.Base.{
  String, ◌<>◌, not, ◌&&◌, Option, none, some, List, [], ◌∷◌, ◌++◌, ◌==◌, if◌then◌else◌,
}
use mncs_commons.Json.{Json, text, obj, Fields, get, has, is_mapping, is_list}
use mncs_commons.Result.{Runtime, Result, ok, ◌>>=◌}
use mncs_commons.Models.{Diagnostic, diagnostic, report_if}
use mncs_commons.Lane.{in_texts}
use mncs_commons.Work.Validate.{validate_work_record}
use mncs_commons.Validation.{result_statuses}
use mncs_commons.Validation.References.{
  concept_experiment_checks, failure_classification_checks, replication_checks,
}

-- The values of `RecordKind` of models.py.
abbrev pub record_kinds : List String
record_kinds =
    "ConceptExperiment" ∷ "FailureClassification" ∷ "Observation" ∷ "Claim" ∷ "Finding" ∷ "Question"
    ∷ "Hypothesis" ∷ "FailedApproach" ∷ "Handoff" ∷ "ArtifactReference" ∷ "Thread" ∷ "WorkRequest"
    ∷ "Replication" ∷ "DevelopmentRecord" ∷ "ChangeSet" ∷ "Advisory" ∷ "Decision" ∷ "Epoch"
    ∷ "EpochSummary" ∷ "ReplicationSeries" ∷ "ObservationSeries" ∷ []

-- `_REQUIRED_DETAILS`. Its values are sets, and the order of their items is no part of the code.
abbrev pub required_details : List (String × List String)
required_details =
    (
      "ConceptExperiment",
      "schema" ∷ "conceptId" ∷ "languageProfile" ∷ "targetProfile" ∷ "hypothesis" ∷ "task"
          ∷ "falsifiers" ∷ "protectedProperties" ∷ "frozenInputs" ∷ "hiddenInputs"
          ∷ "resourceBudget" ∷ "actors" ∷ "references" ∷ "experimentStatus" ∷ "authorityBoundary"
          ∷ [],
    )
    ∷ (
      "FailureClassification",
      "schema" ∷ "failureReference" ∷ "classification" ∷ "disposition" ∷ "classifier"
          ∷ "evidenceReferences" ∷ "authorityBoundary" ∷ [],
    )
    ∷ ("Observation", "outcome" ∷ [])
    ∷ ("Claim", "outcome" ∷ "falsifier" ∷ [])
    ∷ ("Finding", "basis" ∷ "significance" ∷ [])
    ∷ ("Question", "question" ∷ "answerCriteria" ∷ [])
    ∷ ("Hypothesis", "hypothesis" ∷ "falsifier" ∷ [])
    ∷ ("FailedApproach", "approach" ∷ "failureMode" ∷ "lesson" ∷ [])
    ∷ ("Handoff", "objective" ∷ "continuation" ∷ "authorityBoundary" ∷ [])
    ∷ ("ArtifactReference", "artifactIdentity" ∷ "artifactType" ∷ [])
    ∷ ("Thread", "topic" ∷ "status" ∷ [])
    ∷ ("WorkRequest", "objective" ∷ "requestedKind" ∷ "authorityBoundary" ∷ [])
    ∷ ("Replication", "targetRecord" ∷ "outcome" ∷ "independence" ∷ [])
    ∷ ("Advisory", "severity" ∷ "concern" ∷ [])
    ∷ ("Decision", "domain" ∷ "rationale" ∷ "authorityScope" ∷ [])
    ∷ ("Epoch", "windowStart" ∷ "workAttempted" ∷ [])
    ∷ ("EpochSummary", "epochId" ∷ "sourceIdentities" ∷ [])
    ∷ ("ReplicationSeries", "target" ∷ "passes" ∷ "failures" ∷ "sourceIdentities" ∷ [])
    ∷ ("ObservationSeries", "sourceIdentities" ∷ [])
    ∷ (
      "ChangeSet",
      "schema" ∷ "changesetId" ∷ "baseRevisions" ∷ "references" ∷ "authorityBoundary" ∷ [],
    )
    ∷ []

unfoldable pub required_reports : Fields → String → List String → List Diagnostic
required_reports details kind [] = []
required_reports details kind (name ∷ names) =
    report_if (not (has name details)) "REQUIRED_DETAIL" ("details." <> name)
      ("required for " <> kind)
    ++ required_reports details kind names

abbrev pub required_for : List (String × List String) → String → Option (List String)
required_for [] kind = none
required_for ((k, names) ∷ rest) kind = if k == kind then some names else required_for rest kind

-- `WorkRequestState` of models.py
abbrev pub work_request_states : List String
work_request_states =
    "open" ∷ "claimed" ∷ "responded" ∷ "completed" ∷ "unable_to_complete" ∷ "superseded"
    ∷ "withdrawn" ∷ []

-- The tests of one field that `validate_record` makes by kind.
unfoldable pub kind_reports : String → Fields → List Diagnostic
kind_reports kind details =
    report_if (has "outcome" details && not (in_texts result_statuses (get "outcome" details)))
      "INVALID_STATUS" "details.outcome" "must be PASS, FAIL, or UNKNOWN"
    ++ report_if (kind == "Replication" && not (is_mapping (get "independence" details)))
        "TYPE_OBJECT" "details.independence" "must preserve correlation metadata"
    ++ report_if (kind == "Finding" && not (is_list (get "basis" details))) "TYPE_ARRAY"
        "details.basis" "must be a list of source record or evidence identities"
    ++ report_if (kind == "Question" && not (is_list (get "answerCriteria" details))) "TYPE_ARRAY"
        "details.answerCriteria" "must be a list of bounded answer criteria"
    ++ report_if (kind == "Handoff" && not (is_mapping (get "continuation" details))) "TYPE_OBJECT"
        "details.continuation" "must describe bounded continuation state"
    ++ report_if
        (kind == "Thread"
          && not (
              in_texts ("open" ∷ "resolved" ∷ "superseded" ∷ "archived" ∷ [])
                (get "status" details)))
        "INVALID_THREAD_STATUS" "details.status" "unsupported thread status"
    ++ report_if
        (kind == "WorkRequest"
          && has "requestState" details
          && not (in_texts work_request_states (get "requestState" details)))
        "INVALID_WORK_REQUEST_STATE" "details.requestState"
        "unsupported WorkRequest coordination state"

-- The checks that `validate_record` calls by kind.
unfoldable pub kind_checks : Runtime → Fields → String → Fields → Result (List Diagnostic)
unfolding concept_experiment_checks replication_checks failure_classification_checks
kind_checks R value kind details =
    if kind == "ConceptExperiment"
    then concept_experiment_checks details
    else if kind == "Replication"
    then replication_checks details
    else if kind == "FailureClassification"
    then ok (failure_classification_checks details)
    else if kind == "WorkRequest"
    then ok (validate_work_record R value)
    else ok []

abbrev details_of_kind :
    Runtime → Fields → String → Fields → Option (List String) → Result (List Diagnostic)
unfolding required_reports kind_reports kind_checks
details_of_kind R value kind details none = ok []
details_of_kind R value kind details (some names) = do
  more ← kind_checks R value kind details
  ok (required_reports details kind names ++ kind_reports kind details ++ more)

-- The part of `validate_record` on `details`.
unfoldable pub details_checks : Runtime → Fields → Json → Json → Result (List Diagnostic)
unfolding required_reports kind_reports kind_checks
details_checks R value (text kind) (obj details) =
    details_of_kind R value kind details (required_for required_details kind)
details_checks R value _ (obj details) = ok []
details_checks R value _ _ = ok (diagnostic "TYPE_OBJECT" "details" "must be an object" ∷ [])

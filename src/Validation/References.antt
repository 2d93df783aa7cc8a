-- ===== src/Validation/References.antt =====
-- validation.py: the checks of the references to records of other projects.
use mncs_commons.Base.{String, ◌<>◌, not, ◌&&◌, List, [], ◌∷◌, ◌++◌, if◌then◌else◌}
use mncs_commons.Json.{
  Json, arr, obj, Fields, get, has, equals, is_mapping, is_null, is_list, to_list,
}
use mncs_commons.Result.{Result, ok, err, Error, refused, uncaught, ◌>>=◌}
use mncs_commons.Models.{Diagnostic, diagnostic, report_if}
use mncs_commons.Lane.{in_texts}
use mncs_commons.Producer.{normalize_producer_reference, or_empty}
use mncs_commons.Validation.{object_checks, string_checks, is_texts, each_checks}

-- `str(error)`
abbrev message_of : Error → String
message_of (refused code message) = message
message_of (uncaught name) = name

abbrev reference_report : String → Result Fields → List Diagnostic
reference_report path (ok normalized) = []
reference_report path (err raised) =
    diagnostic "INVALID_PRODUCER_REFERENCE" path (message_of raised) ∷ []

-- `_check_family_reference`
unfoldable pub reference_checks : String → Json → List Diagnostic
unfolding normalize_producer_reference
reference_checks path (obj value) = reference_report path (normalize_producer_reference value)
reference_checks path _ = diagnostic "TYPE_OBJECT" path "must be a producer reference object" ∷ []

abbrev entry_fields : String → Fields → List Diagnostic
unfolding string_checks reference_checks
entry_fields path entry =
    string_checks (path <> ".relation") (get "relation" entry)
    ++ reference_checks (path <> ".reference") (get "reference" entry)

unfoldable pub entry_checks : String → Json → List Diagnostic
unfolding string_checks reference_checks
entry_checks path = object_checks path (entry_fields path)

abbrev actor_fields : String → Fields → List Diagnostic
unfolding string_checks reference_checks
actor_fields path actor =
    let tools = get "tools" actor in
    string_checks (path <> ".role") (get "role" actor)
    ++ reference_checks (path <> ".reference") (get "reference" actor)
    ++ report_if (not (is_null tools) && not (is_texts tools)) "TYPE_ARRAY_STRINGS"
        (path <> ".tools") "must be strings"

unfoldable pub actor_checks : String → Json → List Diagnostic
unfolding string_checks reference_checks
actor_checks path = object_checks path (actor_fields path)

abbrev object_fields : Fields → List String → List Diagnostic
object_fields details [] = []
object_fields details (name ∷ names) =
    report_if (not (is_mapping (get name details))) "TYPE_OBJECT" ("details." <> name)
      "must be an object"
    ++ object_fields details names

abbrev list_fields : Fields → List String → List Diagnostic
list_fields details [] = []
list_fields details (name ∷ names) =
    report_if (not (is_list (get name details))) "TYPE_ARRAY" ("details." <> name) "must be a list"
    ++ list_fields details names

-- `CONCEPT_EXPERIMENT_SCHEMA`, `EXPERIMENT_STATUSES` and the like, of family.py
abbrev pub concept_experiment_schema : String
concept_experiment_schema = "commons.mncs.dev/concept-experiment/v0alpha1"

abbrev pub experiment_statuses : List String
experiment_statuses =
    "DEFINED" ∷ "FROZEN" ∷ "SCHEDULED" ∷ "RUNNING" ∷ "COLLECTING_EVIDENCE" ∷ "TERMINAL"
    ∷ "PUBLISHED" ∷ "FAILED" ∷ "STOPPED" ∷ "UNKNOWN" ∷ []

abbrev pub failure_classification_schema : String
failure_classification_schema = "commons.mncs.dev/failure-classification/v0alpha1"

abbrev pub failure_classes : List String
failure_classes =
    "implementation_error" ∷ "language_expressivity_gap" ∷ "semantic_model_gap"
    ∷ "compiler_lowering_gap" ∷ "verifier_evaluator_gap" ∷ "tooling_orchestration_gap"
    ∷ "target_portability_gap" ∷ "specification_ambiguity" ∷ "unresolved_insufficient_evidence" ∷ []

abbrev pub classification_dispositions : List String
classification_dispositions =
    "OBSERVED" ∷ "CLAIMED" ∷ "SUPPORTED" ∷ "CONTRADICTED" ∷ "UNRESOLVED" ∷ []

abbrev pub replication_schema : String
replication_schema = "commons.mncs.dev/replication/v0alpha1"

-- `_check_concept_experiment`
unfoldable pub concept_experiment_checks : Fields → Result (List Diagnostic)
unfolding or_empty each_checks actor_checks entry_checks
concept_experiment_checks details = do
  actors ← or_empty (get "actors" details)
  entries ← or_empty (get "references" details)
  ok (
      report_if (not (equals (get "schema" details) concept_experiment_schema))
        "EXPERIMENT_SCHEMA_UNSUPPORTED" "details.schema" "unsupported schema"
      ++ report_if (not (in_texts experiment_statuses (get "experimentStatus" details)))
          "EXPERIMENT_STATUS_INVALID" "details.experimentStatus" "unsupported coordination status"
      ++ object_fields details ("targetProfile" ∷ "resourceBudget" ∷ [])
      ++ list_fields details (
          "falsifiers" ∷ "protectedProperties" ∷ "frozenInputs" ∷ "hiddenInputs" ∷ "actors"
          ∷ "references" ∷ [])
      ++ each_checks actor_checks "details.actors" 0 actors
      ++ each_checks entry_checks "details.references" 0 entries)

abbrev evidence_references : Json → List Diagnostic
unfolding each_checks reference_checks
evidence_references (arr items) =
    each_checks reference_checks "details.evidenceReferences" 0 (to_list items)
evidence_references _ = diagnostic "TYPE_ARRAY" "details.evidenceReferences" "must be a list" ∷ []

-- `_check_failure_classification`
unfoldable pub failure_classification_checks : Fields → List Diagnostic
unfolding each_checks reference_checks
failure_classification_checks details =
    report_if (not (equals (get "schema" details) failure_classification_schema))
      "FAILURE_SCHEMA_UNSUPPORTED" "details.schema" "unsupported schema"
    ++ report_if (not (in_texts failure_classes (get "classification" details)))
        "FAILURE_CLASS_INVALID" "details.classification" "unsupported class"
    ++ report_if (not (in_texts classification_dispositions (get "disposition" details)))
        "FAILURE_DISPOSITION_INVALID" "details.disposition" "unsupported disposition"
    ++ reference_checks "details.failureReference" (get "failureReference" details)
    ++ reference_checks "details.classifier" (get "classifier" details)
    ++ evidence_references (get "evidenceReferences" details)

-- `_check_replication`
unfoldable pub replication_checks : Fields → Result (List Diagnostic)
unfolding or_empty each_checks entry_checks
replication_checks details =
    let schema =
      report_if (has "schema" details && not (equals (get "schema" details) replication_schema))
        "REPLICATION_SCHEMA_UNSUPPORTED" "details.schema" "unsupported schema" in
    let rest = (do
      entries ← or_empty (get "references" details)
      ok (schema ++ each_checks entry_checks "details.references" 0 entries)) in
    if has "references" details && not (is_list (get "references" details))
    then ok (schema ++ diagnostic "TYPE_ARRAY" "details.references" "must be a list" ∷ [])
    else rest

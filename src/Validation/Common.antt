-- ===== src/Validation/Common.antt =====
-- validation.py: the checks that every kind of record shares (`_common_record_checks`).
use Prim.Native.Char.{code}
use mncs_commons.Base.{
  String, ◌<>◌, Bool, true, false, not, ◌&&◌, ◌||◌, List, [], ◌∷◌, ◌++◌, eqb, if◌then◌else◌,
}
use mncs_commons.Json.{
  Json, null, bool, arr, text, obj, Fields, get, get_or, has, equals, truthy, is_mapping, is_list,
  fields_of, to_list, nil, end,
}
use mncs_commons.Json.Equality.{py_eq}
use mncs_commons.Result.{Runtime}
use mncs_commons.Models.{Diagnostic, diagnostic, report_if}
use mncs_commons.Lane.{in_texts, is_true}
use mncs_commons.Validation.{
  object_checks, string_checks, key_checks, timestamp_checks, is_texts, metadata_checks,
  each_checks, evidence_checks,
}

-- `RelationType` of models.py
abbrev pub relation_types : List String
relation_types =
    "supports" ∷ "contradicts" ∷ "replicates" ∷ "failed_to_replicate" ∷ "supersedes" ∷ "narrows"
    ∷ "depends_on" ∷ "derived_from" ∷ "requests" ∷ "responds_to" ∷ "answers" ∷ "contributes_to"
    ∷ "explores" ∷ "attempts" ∷ "hands_off" ∷ "follows_up" ∷ "verifies" ∷ "disputes"
    ∷ "affects_contract" ∷ "references_artifact" ∷ "rerun_of" ∷ "predecessor" ∷ "evaluates"
    ∷ "executes" ∷ "compiled_from" ∷ "produced" ∷ []

-- `"/" in s`
unfoldable pub has_slash : String → Bool
has_slash String.[] = false
has_slash (String.◌∷◌ c s) = eqb (code c) 47 || has_slash s

-- `isinstance(relation, str) and "/" in relation and relation.split("/", 1)[0]`: what stands before
-- the first slash is not empty.
unfoldable pub is_extension : Json → Bool
unfolding has_slash
is_extension (text (String.◌∷◌ c s)) = not (eqb (code c) 47) && has_slash s
is_extension _ = false

unfoldable pub relation_fields : Json → String → Fields → List Diagnostic
unfolding is_extension string_checks
relation_fields record_id path item =
    let relation = get "type" item in
    let target = get "target" item in
    report_if (not (in_texts relation_types relation) && not (is_extension relation))
      "INVALID_RELATION" (path <> ".type") "relationship type is not supported"
    ++ string_checks (path <> ".target") target
    ++ report_if (truthy record_id && py_eq target record_id) "SELF_RELATION" path
        "a record cannot relate to itself"

abbrev relation_item : Json → String → Json → List Diagnostic
unfolding relation_fields
relation_item record_id path = object_checks path (relation_fields record_id path)

-- `_check_relationships`; `null` stands for no record identifier.
unfoldable pub relationship_checks : Json → Json → List Diagnostic
unfolding relation_fields each_checks
relationship_checks record_id (arr items) =
    each_checks (relation_item record_id) "relationships" 0 (to_list items)
relationship_checks record_id _ = diagnostic "TYPE_ARRAY" "relationships" "must be a list" ∷ []

unfoldable pub subject_fields : Fields → List Diagnostic
unfolding string_checks
subject_fields subject =
    string_checks "subject.type" (get "type" subject)
    ++ string_checks "subject.identity" (get "identity" subject)

unfoldable pub scope_fields : Runtime → Fields → List Diagnostic
unfolding key_checks timestamp_checks
scope_fields R scope =
    key_checks ("context" ∷ "limitations" ∷ "reviewAt" ∷ []) "scope" scope
    ++ report_if (not (is_mapping (get_or "context" (obj end) scope))) "TYPE_OBJECT" "scope.context"
        "must be an object"
    ++ report_if (has "limitations" scope && not (is_texts (get "limitations" scope)))
        "TYPE_ARRAY_STRINGS" "scope.limitations" "must be a list of strings"
    ++ (if has "reviewAt" scope
        then timestamp_checks R "scope.reviewAt" (get "reviewAt" scope)
        else [])

unfoldable pub statement_fields : Fields → List Diagnostic
unfolding string_checks
statement_fields statement = string_checks "statement.summary" (get "summary" statement)

abbrev producer_fields : Fields → List Diagnostic
unfolding string_checks
producer_fields producer =
    string_checks "provenance.producer.type" (get "type" producer)
    ++ string_checks "provenance.producer.id" (get "id" producer)

unfoldable pub provenance_fields : Fields → List Diagnostic
unfolding string_checks
provenance_fields provenance =
    object_checks "provenance.producer" producer_fields (get "producer" provenance)

unfoldable pub confidence_fields : Fields → List Diagnostic
unfolding key_checks string_checks
confidence_fields confidence =
    key_checks ("level" ∷ "rationale" ∷ []) "confidence" confidence
    ++ report_if
        (not (in_texts ("low" ∷ "medium" ∷ "high" ∷ "unreported" ∷ []) (get "level" confidence)))
        "INVALID_CONFIDENCE" "confidence.level" "unsupported confidence level"
    ++ string_checks "confidence.rationale" (get "rationale" confidence)

abbrev is_boolean : Json → Bool
is_boolean (bool b) = true
is_boolean _ = false

unfoldable pub security_fields : Fields → List Diagnostic
unfolding key_checks
security_fields security =
    key_checks
      ("sensitivity" ∷ "executableAttachments" ∷ "instructionsAreUntrusted"
        ∷ "requiredExternalAuthority" ∷ [])
      "security" security
    ++ report_if
        (not (
          in_texts ("public" ∷ "restricted" ∷ "sensitive" ∷ "security-sensitive" ∷ [])
            (get "sensitivity" security)))
        "INVALID_SENSITIVITY" "security.sensitivity" "unsupported sensitivity"
    ++ report_if (not (is_boolean (get "executableAttachments" security))) "TYPE_BOOLEAN"
        "security.executableAttachments" "must be boolean"
    ++ report_if (not (is_true (get "instructionsAreUntrusted" security)))
        "UNTRUSTED_BOUNDARY_REQUIRED" "security.instructionsAreUntrusted" "must be true"

unfoldable pub lifecycle_fields : Fields → List Diagnostic
unfolding key_checks
lifecycle_fields lifecycle =
    key_checks ("initialState" ∷ "reviewWhen" ∷ []) "lifecycle" lifecycle
    ++ report_if (not (equals (get "initialState" lifecycle) "proposed")) "INVALID_INITIAL_STATE"
        "lifecycle.initialState" "records must begin proposed"
    ++ report_if (not (is_texts (get_or "reviewWhen" (arr nil) lifecycle))) "TYPE_ARRAY_STRINGS"
        "lifecycle.reviewWhen" "must be a list of strings"

unfoldable pub reproduction_fields : Fields → List Diagnostic
reproduction_fields reproduction =
    report_if (not (is_list (get_or "procedure" (arr nil) reproduction))) "TYPE_ARRAY"
      "reproduction.procedure" "must be a list; it remains inert data"

abbrev reproduction_checks : Json → List Diagnostic
unfolding reproduction_fields
reproduction_checks null = []
reproduction_checks v = object_checks "reproduction" reproduction_fields v

-- `_common_record_checks`
unfoldable pub common_record_checks : Runtime → Fields → List Diagnostic
unfolding metadata_checks subject_fields scope_fields statement_fields evidence_checks
    provenance_fields confidence_fields security_fields lifecycle_fields relationship_checks
    reproduction_fields
common_record_checks R value =
    metadata_checks R (get "metadata" value)
    ++ object_checks "subject" subject_fields (get "subject" value)
    ++ object_checks "scope" (scope_fields R) (get "scope" value)
    ++ object_checks "statement" statement_fields (get "statement" value)
    ++ evidence_checks "evidence" (get "evidence" value)
    ++ report_if (not (is_texts (get "dependencies" value))) "TYPE_ARRAY_STRINGS" "dependencies"
        "must be a list of strings"
    ++ report_if (not (is_texts (get "affectedContracts" value))) "TYPE_ARRAY_STRINGS"
        "affectedContracts" "must be a list of strings"
    ++ object_checks "provenance" provenance_fields (get "provenance" value)
    ++ object_checks "confidence" confidence_fields (get "confidence" value)
    ++ object_checks "security" security_fields (get "security" value)
    ++ object_checks "lifecycle" lifecycle_fields (get "lifecycle" value)
    ++ relationship_checks (get "recordId" (fields_of (get "metadata" value)))
        (get "relationships" value)
    ++ reproduction_checks (get "reproduction" value)

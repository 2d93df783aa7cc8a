-- ===== src/Validation/Documents.antt =====
-- validation.py: `validate_record` and `validate_event`.
use mncs_commons.Base.{String, ◌<>◌, not, ◌&&◌, List, [], ◌∷◌, ◌++◌}
use mncs_commons.Json.{Json, obj, Fields, get, has, equals, is_null}
use mncs_commons.Result.{Runtime, Result, ok, ◌>>=◌}
use mncs_commons.Models.{Diagnostic, diagnostic, report_if}
use mncs_commons.Canonical.{canonical_digest}
use mncs_commons.Lane.{in_texts}
use mncs_commons.Validation.{
  api_version, is_supported_version, valid_digest, object_checks, string_checks, key_checks,
  metadata_checks, evidence_checks,
}
use mncs_commons.Validation.Common.{common_record_checks}
use mncs_commons.Validation.Details.{record_kinds, details_checks}

-- `_RECORD_KEYS`
abbrev pub record_keys : List String
record_keys =
    "apiVersion" ∷ "kind" ∷ "contentDigest" ∷ "metadata" ∷ "subject" ∷ "scope" ∷ "statement"
    ∷ "evidence" ∷ "reproduction" ∷ "dependencies" ∷ "affectedContracts" ∷ "provenance"
    ∷ "confidence" ∷ "security" ∷ "lifecycle" ∷ "relationships" ∷ "details" ∷ "extensions" ∷ []

-- `_EVENT_KEYS`
abbrev pub event_keys : List String
event_keys =
    "apiVersion" ∷ "kind" ∷ "contentDigest" ∷ "metadata" ∷ "target" ∷ "transition" ∷ "authority"
    ∷ "evidence" ∷ "extensions" ∷ []

unfoldable pub required_fields : Fields → List String → List Diagnostic
required_fields value [] = []
required_fields value (name ∷ names) =
    report_if (not (has name value)) "REQUIRED_FIELD" name "field is required"
    ++ required_fields value names

abbrev version_checks : Runtime → Fields → List Diagnostic
unfolding is_supported_version
version_checks R value =
    report_if (not (is_supported_version R (get "apiVersion" value))) "UNSUPPORTED_API_VERSION"
      "apiVersion" ("expected " <> api_version)

-- `digest is not None and not _valid_digest(digest)`
unfoldable pub digest_checks : Json → List Diagnostic
unfolding valid_digest
digest_checks digest =
    report_if (not (is_null digest) && not (valid_digest digest)) "INVALID_DIGEST" "contentDigest"
      "must be a sha256: digest"

-- The end of both functions: a document without a fault is compared with its own digest.
unfoldable pub digest_match : Runtime → Fields → List Diagnostic → List Diagnostic
digest_match R value [] =
    let digest = get "contentDigest" value in
    let expected = canonical_digest R value in
    report_if (not (is_null digest) && not (equals digest expected)) "DIGEST_MISMATCH"
      "contentDigest" ("expected " <> expected)
digest_match R value (d ∷ ds) = d ∷ ds

-- The faults of a record, but for its digest.
unfoldable pub record_faults : Runtime → Fields → Result (List Diagnostic)
unfolding key_checks is_supported_version digest_checks required_fields common_record_checks
    details_checks
record_faults R value = do
  more ← details_checks R value (get "kind" value) (get "details" value)
  ok (
      key_checks record_keys "<root>" value
      ++ version_checks R value
      ++ report_if (not (in_texts record_kinds (get "kind" value))) "UNKNOWN_RECORD_KIND" "kind"
          "record kind is not supported"
      ++ digest_checks (get "contentDigest" value)
      ++ required_fields value (
          "metadata" ∷ "subject" ∷ "scope" ∷ "statement" ∷ "evidence" ∷ "dependencies"
          ∷ "affectedContracts" ∷ "provenance" ∷ "confidence" ∷ "security" ∷ "lifecycle"
          ∷ "relationships" ∷ "details" ∷ [])
      ++ common_record_checks R value
      ++ more)

-- `validate_record`
unfoldable pub validate_record : Runtime → Json → Result (List Diagnostic)
unfolding record_faults digest_match
validate_record R (obj value) = do faults ← record_faults R value; ok (digest_match R value faults)
validate_record R _ = ok (diagnostic "TYPE_OBJECT" "<root>" "must be an object" ∷ [])

-- `LifecycleState` of models.py
abbrev pub lifecycle_states : List String
lifecycle_states =
    "proposed" ∷ "reproduced" ∷ "verified" ∷ "accepted" ∷ "disputed" ∷ "superseded" ∷ "expired"
    ∷ "rejected" ∷ "withdrawn" ∷ []

unfoldable pub target_fields : Fields → List Diagnostic
unfolding string_checks valid_digest
target_fields target =
    string_checks "target.contentDigest" (get "contentDigest" target)
    ++ report_if (not (valid_digest (get "contentDigest" target))) "INVALID_DIGEST"
        "target.contentDigest" "must be a sha256: digest"

abbrev pub transition_fields : Fields → List Diagnostic
transition_fields transition =
    report_if (not (in_texts lifecycle_states (get "from" transition))) "INVALID_STATE"
      "transition.from" "unknown lifecycle state"
    ++ report_if (not (in_texts lifecycle_states (get "to" transition))) "INVALID_STATE"
        "transition.to" "unknown lifecycle state"

abbrev authority_fields : Fields → List Diagnostic
unfolding string_checks
authority_fields authority =
    string_checks "authority.domain" (get "domain" authority)
    ++ string_checks "authority.actor" (get "actor" authority)
    ++ string_checks "authority.rationale" (get "rationale" authority)

-- The faults of an event, but for its digest.
unfoldable pub event_faults : Runtime → Fields → List Diagnostic
unfolding key_checks is_supported_version required_fields metadata_checks string_checks valid_digest
    evidence_checks digest_checks
event_faults R value =
    key_checks event_keys "<root>" value
    ++ version_checks R value
    ++ report_if (not (equals (get "kind" value) "LifecycleEvent")) "INVALID_EVENT_KIND" "kind"
        "expected LifecycleEvent"
    ++ required_fields value ("metadata" ∷ "target" ∷ "transition" ∷ "authority" ∷ "evidence" ∷ [])
    ++ metadata_checks R (get "metadata" value)
    ++ object_checks "target" target_fields (get "target" value)
    ++ object_checks "transition" transition_fields (get "transition" value)
    ++ object_checks "authority" authority_fields (get "authority" value)
    ++ evidence_checks "evidence" (get "evidence" value)
    ++ digest_checks (get "contentDigest" value)

-- `validate_event`
unfoldable pub validate_event : Runtime → Json → List Diagnostic
unfolding event_faults digest_match
validate_event R (obj value) = digest_match R value (event_faults R value)
validate_event R _ = diagnostic "TYPE_OBJECT" "<root>" "must be an object" ∷ []

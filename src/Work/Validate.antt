-- ===== src/Work/Validate.antt =====
-- `validate_work_record` of work.py: the checks of one work record on its own.
use package.text.Mathlib.Text.{starts_with}
use mncs_commons.Base.{
  String, ◌<>◌, Bool, false, not, ◌&&◌, ◌||◌, List, [], ◌∷◌, ◌++◌, all, contains, count, is_blank,
  leb, length, if◌then◌else◌,
}
use mncs_commons.Json.{
  Json, text, arr, obj, Fields, get, has, equals, truthy, is_mapping, is_null, fields_of, to_list,
}
use mncs_commons.Json.Equality.{py_eq}
use mncs_commons.Result.{Runtime}
use mncs_commons.Models.{Diagnostic, diagnostic, report_if}
use mncs_commons.Lane.{is_lane, validate_lane_request, is_true}
use mncs_commons.Work.States.{work_protocol, in_work_states, in_coordination_states}
use mncs_commons.Work.Readers.{max_items, max_text, is_bounded_int}
use mncs_commons.Work.Hygiene.{hygiene_scope_invalid}

-- `details[key]` is `…`, of any mapping; what is no mapping has no key.
abbrev metadata_of : Fields → Fields
metadata_of value = fields_of (get "metadata" value)

abbrev is_work_id : Json → Bool
is_work_id (text s) = starts_with s "work:" && leb (count s) 256
is_work_id _ = false

identity_checks : Fields → Fields → List Diagnostic
identity_checks value details =
    let work_id = get "workId" details in
    if not (is_work_id work_id)
    then diagnostic "WORK_ID_INVALID" "details.workId" "invalid work identity" ∷ []
    else report_if (not (py_eq (get "recordId" (metadata_of value)) work_id)) "WORK_ID_MISMATCH"
        "metadata.recordId" "recordId must equal workId"

actor_checks : Fields → Json → List Diagnostic
actor_checks value actor =
    let given = fields_of actor in
    report_if (not (is_mapping actor && truthy (get "type" given) && truthy (get "id" given)))
      "WORK_ACTOR_REQUIRED" "details.stateEvent.actor" "actor is required"
    ++ report_if (not (py_eq actor (get "author" (metadata_of value)))) "WORK_ACTOR_MISMATCH"
        "metadata.author" "revision author must equal the state-event actor"

unfoldable pub event_checks : Fields → Fields → Json → List Diagnostic
unfolding actor_checks
event_checks value details (obj event) =
    report_if (not (py_eq (get "to" event) (get "state" details))) "WORK_EVENT_MISMATCH"
      "details.stateEvent.to" "must equal state"
    ++ actor_checks value (get "actor" event)
event_checks value details _ =
    diagnostic "WORK_EVENT_REQUIRED" "details.stateEvent" "state event is required" ∷ []

required_checks : Fields → List String → List Diagnostic
required_checks details [] = []
required_checks details (name ∷ names) =
    report_if (not (has name details)) "WORK_FIELD_REQUIRED" ("details." <> name)
      "work field is required"
    ++ required_checks details names

abbrev is_bounded_texts : Json → Bool
is_bounded_texts (arr items) =
    leb (length (to_list items)) max_items
    && all (λ v. elim v [ text s ↦ not (is_blank s) | _ ↦ false ]) (to_list items)
is_bounded_texts _ = false

abbrev is_bounded_text : Json → Bool
is_bounded_text (text s) = not (is_blank s) && leb (count s) max_text
is_bounded_text _ = false

list_checks : Fields → List String → List Diagnostic
list_checks details [] = []
list_checks details (name ∷ names) =
    report_if (has name details && not (is_bounded_texts (get name details))) "WORK_FIELD_INVALID"
      ("details." <> name) "must be a bounded string list"
    ++ list_checks details names

text_checks : Fields → List String → List Diagnostic
text_checks details [] = []
text_checks details (name ∷ names) =
    report_if (has name details && not (is_bounded_text (get name details))) "WORK_FIELD_INVALID"
      ("details." <> name) "must be bounded text"
    ++ text_checks details names

abbrev lane_reports : List (String × String) → List Diagnostic
lane_reports [] = []
lane_reports ((code, path) ∷ rest) =
    diagnostic code path "lane policy combination is invalid" ∷ lane_reports rest

abbrev is_active : Json → Bool
is_active (text s) = contains ("CLAIMED" ∷ "IN_PROGRESS" ∷ "VERIFYING" ∷ []) s
is_active _ = false

-- The claim, the blockers and the result that a coordination state calls for.
unfoldable pub coordination_checks : Fields → List Diagnostic
coordination_checks details =
    let coordination = get "coordinationState" details in
    let claim = get "claim" details in
    let result = get "result" details in
    let has_outcome = is_mapping result && truthy (get "terminalOutcome" (fields_of result)) in
    report_if (not (is_null claim || is_mapping claim)) "WORK_CLAIM_INVALID" "details.claim"
      "claim must be an object or null"
    ++ report_if (is_active coordination && not (is_mapping claim)) "WORK_CLAIM_REQUIRED"
        "details.claim" "active work requires a claim"
    ++ report_if (equals coordination "BLOCKED" && not (truthy (get "blockers" details)))
        "WORK_BLOCKERS_REQUIRED" "details.blockers" "blocked work requires blockers"
    ++ report_if (equals coordination "COMPLETE" && not has_outcome)
        "WORK_COMPLETION_EVIDENCE_REQUIRED" "details.result" "complete work requires a result"

abbrev list_fields : List String
list_fields =
    "affectedRepositories" ∷ "dependencies" ∷ "capabilityRequirements" ∷ "blockingWorkIds"
    ∷ "evidenceLinks" ∷ "allowedWriteScope" ∷ "forbiddenWriteScope" ∷ []

-- The checks of work that has a lane.
lane_checks : Runtime → Fields → List Diagnostic
unfolding list_checks text_checks coordination_checks
lane_checks R details =
    report_if (not (is_lane (get "lane" details))) "WORK_LANE_INVALID" "details.lane"
      "unsupported work lane"
    ++ lane_reports (validate_lane_request details)
    ++ list_checks details list_fields
    ++ text_checks details ("capability" ∷ "reason" ∷ "expectedSemantics" ∷ [])
    ++ report_if (not (is_bounded_int 1000 (get "priority" details))) "WORK_PRIORITY_INVALID"
        "details.priority" "priority must be between 0 and 1000"
    ++ coordination_checks details
    ++ report_if (hygiene_scope_invalid R details) "WORK_HYGIENE_REPOSITORY_SCOPE_INVALID"
        "details.affectedRepositories"
        "REPO_HYGIENE work must be scoped to exactly one canonical repository equal to the primary repository"

claimable_checks : Fields → List Diagnostic
claimable_checks details =
    report_if
      (equals (get "coordinationState" details) "AVAILABLE"
        && equals (get "proposalStatus" details) "ACCEPTED"
        && not (is_lane (get "lane" details)))
      "WORK_LANE_REQUIRED" "details.lane" "claimable work must declare a lane"

work_checks : Runtime → Fields → Fields → List Diagnostic
unfolding identity_checks event_checks required_checks lane_checks claimable_checks
work_checks R value details =
    report_if (not (equals (get "workProtocol" details) work_protocol)) "WORK_PROTOCOL_UNSUPPORTED"
      "details.workProtocol" "unsupported protocol"
    ++ identity_checks value details
    ++ report_if (not (in_work_states (get "state" details))) "WORK_STATE_INVALID" "details.state"
        "unsupported state"
    ++ event_checks value details (get "stateEvent" details)
    ++ report_if
        (not (
          equals (get "authorityBoundary" details)
            "record-only; execution requires external authority"))
        "WORK_AUTHORITY_BOUNDARY_REQUIRED" "details.authorityBoundary"
        "work records must deny execution authority"
    ++ required_checks details
        ("objective" ∷ "requestedKind" ∷ "submittingConsumer" ∷ "project" ∷ "constraints" ∷ [])
    ++ report_if (not (in_coordination_states (get "coordinationState" details)))
        "WORK_COORDINATION_STATE_INVALID" "details.coordinationState"
        "unsupported coordination state"
    ++ claimable_checks details
    ++ (if has "lane" details then lane_checks R details else [])

-- `security.instructionsAreUntrusted is True`
security_checks : Fields → List Diagnostic
security_checks value =
    report_if (not (is_true (get "instructionsAreUntrusted" (fields_of (get "security" value)))))
      "WORK_TRUST_BOUNDARY_REQUIRED" "security.instructionsAreUntrusted"
      "work instructions must remain untrusted"

abbrev is_durable : Fields → Bool
is_durable details = has "workProtocol" details || has "workId" details || has "stateEvent" details

abbrev details_checks : Runtime → Fields → Json → List Diagnostic
unfolding work_checks security_checks
details_checks R value (obj details) =
    if is_durable details then work_checks R value details ++ security_checks value else []
details_checks R value _ = []

unfoldable pub validate_work_record : Runtime → Fields → List Diagnostic
unfolding details_checks work_checks security_checks
validate_work_record R value =
    if equals (get "kind" value) "WorkRequest"
    then details_checks R value (get "details" value)
    else []

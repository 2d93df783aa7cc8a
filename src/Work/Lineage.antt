-- ===== src/Work/Lineage.antt =====
-- `work_semantic_diagnostics` of work.py: a candidate revision against the revisions before it.
use mncs_commons.Base.{
  pos, ℤ, ltb_ℤ, String, ◌<>◌, Bool, not, ◌&&◌, List, [], ◌∷◌, ◌++◌, ◌==◌, contains, if◌then◌else◌,
}
use mncs_commons.Json.{Json, num, Fields, get, get_or, equals, is_mapping, is_null, fields_of}
use mncs_commons.Json.Equality.{py_eq}
use mncs_commons.Result.{Runtime, Result, ok, ◌>>=◌}
use mncs_commons.Models.{Diagnostic, diagnostic, report_if, str, child}
use mncs_commons.Work.States.{
  work_protocol, allowed_work_transitions, allowed_coordination_transitions, coordination_state,
}
use mncs_commons.Work.Readers.{to_int}

-- `int(item.get("metadata", {}).get("revision", 1))`
unfoldable pub revision_of : Runtime → Json → Fields → Result ℤ
revision_of R default item = do
  metadata ← child "metadata" item
  to_int R (get_or "revision" default metadata)

-- `max(prior, key=…)`: the first of the greatest, from the best so far and its revision.
unfoldable pub latest_from : Runtime → Fields → ℤ → List Fields → Result Fields
latest_from R best n [] = ok best
latest_from R best n (item ∷ items) = do
  m ← revision_of R (num (pos 1)) item
  if ltb_ℤ n m then latest_from R item m items else latest_from R best n items

-- The fields that no revision may change.
abbrev pub immutable_fields : List String
immutable_fields =
    "workId" ∷ "objective" ∷ "title" ∷ "summary" ∷ "requestedKind" ∷ "submittingConsumer"
    ∷ "project" ∷ "repository" ∷ "constraints" ∷ "lane" ∷ "affectedRepositories" ∷ "priority"
    ∷ "dependencies" ∷ "capabilityRequirements" ∷ "capability" ∷ "reason" ∷ "expectedSemantics"
    ∷ "blockingWorkIds" ∷ "evidenceLinks" ∷ "sharedCoreImpact" ∷ "allowedWriteScope"
    ∷ "forbiddenWriteScope" ∷ "createdFrom" ∷ "parentWorkId" ∷ "authorityBoundary"
    ∷ "proposalStatus" ∷ "proposalSource" ∷ "observationTimestamp" ∷ "findingIdentity"
    ∷ "healthStatus" ∷ "proposalReason" ∷ "deduplication" ∷ "canonicalRepository"
    ∷ "canonicalAffectedRepositories" ∷ []

unfoldable pub mutations : Fields → Fields → List String → List Diagnostic
mutations details before [] = []
mutations details before (name ∷ names) =
    report_if (not (py_eq (get name details) (get name before))) "WORK_REQUEST_MUTATED"
      ("details." <> name) "submitted work identity and request fields are immutable"
    ++ mutations details before names

unfoldable pub lineage_checks : Runtime → Fields → Fields → List Diagnostic
lineage_checks R details before =
    let previous_state = str R (get "state" before) in
    let state = str R (get "state" details) in
    let event = get "stateEvent" details in
    let previous = coordination_state R before in
    let next = coordination_state R details in
    report_if
      (not (state == previous_state)
        && not (contains (allowed_work_transitions previous_state) state))
      "WORK_TRANSITION_REJECTED" "details.state"
      (previous_state <> " -> " <> state <> " is not allowed")
    ++ report_if (not (is_mapping event && equals (get "from" (fields_of event)) previous_state))
        "WORK_EVENT_STALE" "details.stateEvent.from" "state event does not name the previous state"
    ++ report_if
        (not (next == previous) && not (contains (allowed_coordination_transitions previous) next))
        "WORK_COORDINATION_TRANSITION_REJECTED" "details.coordinationState"
        (previous <> " -> " <> next <> " is not allowed")

unfoldable pub initial_checks : Fields → List Diagnostic
initial_checks details =
    let event = get "stateEvent" details in
    report_if
      (not (
        equals (get "state" details) "submitted"
        && is_mapping event
        && is_null (get "from" (fields_of event))))
      "WORK_INITIAL_STATE_INVALID" "details.stateEvent"
      "first work revision must submit from no prior state"

abbrev pub is_work : Json → Bool
is_work details =
    is_mapping details && equals (get "workProtocol" (fields_of details)) work_protocol

unfoldable pub against_latest : Runtime → Fields → Json → List Diagnostic
unfolding mutations lineage_checks
against_latest R details latest =
    if is_work latest
    then mutations details (fields_of latest) immutable_fields
      ++ lineage_checks R details (fields_of latest)
    else diagnostic "WORK_HISTORY_INVALID" "details.workProtocol"
        "logical identity changed protocol"
      ∷ []

abbrev pub against_history : Runtime → Fields → List Fields → Result (List Diagnostic)
unfolding latest_from against_latest initial_checks revision_of
against_history R details [] = ok (initial_checks details)
against_history R details (first ∷ others) = do
  n ← revision_of R (num (pos 1)) first
  latest ← latest_from R first n others
  ok (against_latest R details (get "details" latest))

unfoldable pub work_semantic_diagnostics : Runtime → Fields → List Fields → Result (List Diagnostic)
unfolding against_history
work_semantic_diagnostics R candidate existing =
    if is_work (get "details" candidate)
    then against_history R (fields_of (get "details" candidate)) existing
    else ok []

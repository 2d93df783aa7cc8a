-- ===== src/Work/Submit.antt =====
-- `new_work_record` of work.py: a submitted work record from a bounded request. The code reads the
-- request field by field, checks it, and writes one dict; the readers are a function per group of
-- fields here, in the order of the code.
pub mod Readers
pub mod Initial
use mncs_commons.Base.{
  pos, String, ◌<>◌, Bool, true, false, not, ◌&&◌, ◌||◌, Option, none, some, List, [], ◌∷◌, ◌++◌,
  ◌==◌, map, contains, if◌then◌else◌, or_else, is_some,
}
use mncs_commons.Json.{
  Json, null, bool, num, text, arr, obj, nil, cons, Fields, end, field, get, get_or, texts,
  from_list,
}
use mncs_commons.Result.{Runtime, Result, ok, require, reject, ◌>>=◌, ◌>>◌}
use mncs_commons.Lifecycle.{is_empty}
use mncs_commons.Work.States.{work_protocol}
use mncs_commons.Work.Readers.{optional_text, is_bounded_int, invalid}
use mncs_commons.Work.Hygiene.{hygiene_scope_invalid}
use mncs_commons.Work.Revise.{has_unknown, hygiene_message}
use mncs_commons.Work.Submit.Readers.{
  Identity, LaneFields, Proposal, submission_fields, read_identity, read_lane, read_proposal,
  optional, concat, list_json,
}

abbrev is_shared : Option String → Bool
is_shared none = false
is_shared (some lane) = lane == "SHARED_CORE"

abbrev pub affected_field : List String → Fields
affected_field [] = end
affected_field (repository ∷ rest) =
    field "canonicalAffectedRepositories" (list_json (repository ∷ rest)) end

-- `probe_hygiene`
abbrev pub probe : Identity → LaneFields → Proposal → Fields
probe i l p = field "lane" (optional l.lane) (
    field "repository" (optional i.repository) (
      field "affectedRepositories" (list_json l.affected_repositories) (
        field "coordinationState" (text p.coordination) (
          concat
            (elim p.canonical_repository [
              | none ↦ end
              | some r ↦ field "canonicalRepository" (text r) end
            ])
            (affected_field p.canonical_affected)))))

abbrev is_sensitivity : Json → Bool
is_sensitivity (text s) =
    contains ("public" ∷ "restricted" ∷ "sensitive" ∷ "security-sensitive" ∷ []) s
is_sensitivity _ = false

-- The checks between the reading and the writing.
unfoldable pub check_submission :
    Runtime → Identity → LaneFields → Proposal → Fields → Result (Unit {0})
check_submission R i l p request = do
  reject (is_shared l.lane && not l.shared_core_impact) "WORK_SHARED_CORE_IMPACT_REQUIRED"
      "SHARED_CORE work must declare impact"
  reject (is_some l.lane && not (is_shared l.lane) && l.shared_core_impact)
      "WORK_SAFE_LANE_SHARED_CORE" "safe-lane work cannot declare shared-core impact"
  reject (hygiene_scope_invalid R (probe i l p)) "WORK_HYGIENE_REPOSITORY_SCOPE_INVALID"
      hygiene_message
  require (is_bounded_int 10000 (get_or "attempt" (num (pos 0)) request)) "WORK_INVALID"
      "attempt must be an integer between 0 and 10000"
  require (is_sensitivity (get_or "securitySensitivity" (text "restricted") request)) "WORK_INVALID"
      "securitySensitivity is invalid"

-- `if value is not None: fields[name] = value`
abbrev pub given : String → Option String → Fields
given name none = end
given name (some value) = field name (text value) end

-- `{key: value for … if value is not None}`
unfoldable pub read_routing : Fields → List String → Result Fields
read_routing request [] = ok end
read_routing request (name ∷ names) = do
  value ← optional_text (get name request) name
  rest ← read_routing request names
  ok (concat (given name value) rest)

abbrev relation : String → String → Json
relation kind target = obj (field "type" (text kind) (field "target" (text target) end))

abbrev parent_relation : Option String → List Json
parent_relation none = []
parent_relation (some parent) = relation "depends_on" parent ∷ []

unfoldable pub submitted_relations : Identity → LaneFields → List Json
submitted_relations i l =
    map (relation "depends_on") l.dependencies
    ++ map (relation "derived_from") l.created_from
    ++ parent_relation i.parent_work_id

-- The fields that only work with a lane has.
abbrev pub laned_fields : LaneFields → Option String → Fields
laned_fields l none = end
laned_fields l (some lane) = field "lane" (text lane) (
    field "affectedRepositories" (list_json l.affected_repositories) (
      field "priority" l.priority (
        field "dependencies" (list_json l.dependencies) (
          field "capabilityRequirements" (list_json l.capability_requirements) (
            field "blockingWorkIds" (list_json l.blocking_work_ids) (
              field "evidenceLinks" (list_json l.evidence_links) (
                field "sharedCoreImpact" (bool l.shared_core_impact) (
                  field "allowedWriteScope" (list_json l.allowed_write_scope) (
                    field "forbiddenWriteScope" (list_json l.forbidden_write_scope)
                      (field "createdFrom" (list_json l.created_from) end))))))))))

abbrev pub lane_texts : LaneFields → Option String → Fields
lane_texts l none = end
lane_texts l (some lane) =
    concat (given "capability" l.capability)
      (concat (given "reason" l.reason) (given "expectedSemantics" l.expected_semantics))

abbrev pub deduplication_field : Fields → Fields
deduplication_field end = end
deduplication_field (field k v fs) = field "deduplication" (obj (field k v fs)) end

-- The fields that follow in either case.
abbrev pub proposal_fields : Proposal → Fields
proposal_fields p = concat (given "proposalStatus" p.proposal_status) (
    concat (given "proposalSource" p.proposal_source) (
      concat (given "observationTimestamp" p.observation_timestamp) (
        concat (given "findingIdentity" p.finding_identity) (
          concat (given "healthStatus" p.health_status) (
            concat (given "proposalReason" p.proposal_reason) (
              concat (given "canonicalRepository" p.canonical_repository) (
                concat (affected_field p.canonical_affected)
                  (deduplication_field p.deduplication))))))))

-- `lane_details`
abbrev pub lane_details : LaneFields → Proposal → Fields
lane_details l p = concat (laned_fields l l.lane) (
    field "coordinationState" (text p.coordination) (
      field "claim" null (
        field "blockers" (arr nil) (
          field "result" null (
            field "attachments" (arr (from_list p.attachments))
              (concat (lane_texts l l.lane) (proposal_fields p)))))))

abbrev pub first_event : Fields → Fields
first_event submitter =
    field "from" null (field "to" (text "submitted") (field "actor" (obj submitter) end))

unfoldable pub submitted_details : Identity → LaneFields → Proposal → Json → Fields → Fields
submitted_details i l p attempt routing = field "objective" (text i.task) (
    field "title" (text i.title) (
      field "summary" (text i.summary) (
        field "requestedKind" (text "WorkExecution") (
          field "requestState" (text "open") (
            field "workProtocol" (text work_protocol) (
              field "workId" (text i.work_id) (
                field "state" (text "submitted") (
                  field "submittingConsumer" (obj i.submitter) (
                    field "project" (obj i.project) (
                      field "repository" (optional i.repository) (
                        field "constraints" (list_json i.constraints) (
                          concat (lane_details l p) (
                            field "parentWorkId" (optional i.parent_work_id) (
                              field "attempt" attempt (
                                field "routing" (obj routing) (
                                  field "stateEvent" (obj (first_event i.submitter)) (
                                    field "authorityBoundary"
                                      (text "record-only; execution requires external authority")
                                      end)))))))))))))))))

-- The members of the record before its details.
unfoldable pub submitted_envelope : String → Identity → LaneFields → Json → Fields
submitted_envelope now i l sensitivity = field "apiVersion" (text "commons.mncs.dev/v0alpha1") (
    field "kind" (text "WorkRequest") (
      field "metadata"
        (obj (
          field "recordId" (text i.work_id) (
            field "createdAt" (text now) (
              field "author" (obj i.submitter) (
                field "revision" (num (pos 1))
                  (field "labels" (list_json ("durable-work" ∷ "untrusted" ∷ [])) end))))))
        (field "subject"
          (obj (
            field "type" (text "project")
              (field "identity" (text (or_else i.repository i.work_id)) end)))
          (field "scope"
            (obj (
              field "context"
                (obj (field "project" (obj i.project) (given "repository" i.repository)))
                (field "limitations"
                  (list_json ("record carries no execution authority" ∷ i.constraints)) end)))
            (field "statement"
              (obj (field "summary" (text i.title) (field "details" (text i.summary) end)))
              (field "evidence" (arr nil) (
                field "dependencies" (list_json l.dependencies) (
                  field "affectedContracts" (arr nil) (
                    field "provenance"
                      (obj
                        (field "producer" (obj i.submitter) (field "sourceRecords" (arr nil) end)))
                      (field "confidence"
                        (obj (
                          field "level" (text "unreported") (
                            field "rationale"
                              (text "work state is an untrusted coordination assertion") end)))
                        (field "security"
                          (obj (
                            field "sensitivity" sensitivity (
                              field "executableAttachments" (bool false) (
                                field "instructionsAreUntrusted" (bool true)
                                  (field "requiredExternalAuthority" (bool true) end)))))
                          (field "lifecycle"
                            (obj (
                              field "initialState" (text "proposed")
                                (field "reviewWhen" (list_json ("work state changes" ∷ [])) end)))
                            (field "relationships" (arr (from_list (submitted_relations i l)))
                              end)))))))))))))

unfoldable pub submitted_record :
    String → Identity → LaneFields → Proposal → Fields → Fields → Fields
unfolding submitted_envelope submitted_details
submitted_record now i l p request routing =
    concat (submitted_envelope now i l (get_or "securitySensitivity" (text "restricted") request)) (
      field "details"
        (obj (submitted_details i l p (get_or "attempt" (num (pos 0)) request) routing)) end)

-- `unique` stands for `uuid.uuid4().hex`.
unfoldable pub new_work_record : Runtime → String → String → Fields → Result Fields
new_work_record R now unique request = do
  reject (has_unknown submission_fields request) "WORK_INVALID"
      "work submission contains unexpected fields"
  i ← read_identity unique request
  l ← read_lane i.repository request
  p ← read_proposal R request
  check_submission R i l p request
  routing ← read_routing request ("fabricJobId" ∷ "workerId" ∷ "modelId" ∷ [])
  ok (submitted_record now i l p request routing)

-- ===== src/Work/Submit/Readers.antt =====
-- How `new_work_record` of work.py reads a request.
use Prim.Native.Char.{code}
use package.text.Mathlib.Text.{starts_with}
use mncs_commons.Base.{
  pos, String, ◌<>◌, Bool, true, false, ◌&&◌, Option, none, some, List, [], ◌∷◌, ◌==◌, eqb,
  if◌then◌else◌, or_else, count, leb,
}
use mncs_commons.Json.{Json, null, bool, num, text, arr, Fields, end, field, get, get_or, texts}
use mncs_commons.Result.{Runtime, Result, ok, err, refused, require, ◌>>=◌, ◌>>◌}
use mncs_commons.Lane.{LanePolicy, lane_policy}
use mncs_commons.Work.States.{in_coordination_states}
use mncs_commons.Work.Readers.{
  max_text, bounded_text, optional_text, string_list, mapping, optional_mapping, mapping_list,
  actor_of, bounded_priority, invalid,
}

-- `allowed` of `new_work_record`
abbrev pub submission_fields : List String
submission_fields =
    "workId" ∷ "submittingConsumer" ∷ "project" ∷ "repository" ∷ "task" ∷ "title" ∷ "summary"
    ∷ "lane" ∷ "affectedRepositories" ∷ "priority" ∷ "dependencies" ∷ "capabilityRequirements"
    ∷ "capability" ∷ "reason" ∷ "expectedSemantics" ∷ "blockingWorkIds" ∷ "evidenceLinks"
    ∷ "sharedCoreImpact" ∷ "allowedWriteScope" ∷ "forbiddenWriteScope" ∷ "createdFrom"
    ∷ "constraints" ∷ "parentWorkId" ∷ "fabricJobId" ∷ "workerId" ∷ "modelId" ∷ "attempt"
    ∷ "securitySensitivity" ∷ "coordinationState" ∷ "proposalStatus" ∷ "proposalSource"
    ∷ "observationTimestamp" ∷ "findingIdentity" ∷ "healthStatus" ∷ "proposalReason"
    ∷ "deduplication" ∷ "attachments" ∷ "canonicalRepository" ∷ "canonicalAffectedRepositories" ∷ []

abbrev pub optional : Option String → Json
optional none = null
optional (some s) = text s

abbrev pub list_json : List String → Json
list_json xs = arr (texts xs)

-- The fields of one dict after those of another, where no key is in both.
abbrev pub concat : Fields → Fields → Fields
concat end gs = gs
concat (field k v fs) gs = field k v (concat fs gs)

-- What the request says of the work itself.
pub record Identity : Type 0 where
  pub work_id : String
  pub submitter : Fields
  pub task : String
  pub project : Fields
  pub repository : Option String
  pub constraints : List String
  pub parent_work_id : Option String
  pub title : String
  pub summary : String

unfoldable pub read_identity : String → Fields → Result Identity
read_identity unique request = do
  asked ← optional_text (get "workId" request) "workId"
  let work_id = or_else asked ("work:" <> unique)
  require (starts_with work_id "work:" && leb (count work_id) 256) "WORK_INVALID"
      "workId must start with work:"
  submitter ← actor_of (get "submittingConsumer" request) "submittingConsumer"
  task ← bounded_text max_text (get "task" request) "task"
  project ← mapping (get "project" request) "project"
  repository ← optional_text (get "repository" request) "repository"
  constraints ← string_list (get "constraints" request) "constraints"
  parent ← optional_text (get "parentWorkId" request) "parentWorkId"
  title ← optional_text (get "title" request) "title"
  summary ← optional_text (get "summary" request) "summary"
  ok (record {
    work_id = work_id;
    submitter = submitter;
    task = task;
    project = project;
    repository = repository;
    constraints = constraints;
    parent_work_id = parent;
    title = or_else title task;
    summary = or_else summary task;
  })

-- What the request says of the lane and its scope.
pub record LaneFields : Type 0 where
  pub lane : Option String
  pub affected_repositories : List String
  pub priority : Json
  pub dependencies : List String
  pub capability_requirements : List String
  pub capability : Option String
  pub reason : Option String
  pub expected_semantics : Option String
  pub blocking_work_ids : List String
  pub evidence_links : List String
  pub shared_core_impact : Bool
  pub allowed_write_scope : List String
  pub forbidden_write_scope : List String
  pub created_from : List String

-- `lane`, and its policy where it is given.
abbrev pub lane_of : Json → Result (Option (String × LanePolicy))
lane_of null = ok none
lane_of (text lane) = elim (lane_policy lane) [
  | none ↦ err (refused "WORK_LANE_INVALID" "lane is unsupported")
  | some policy ↦ ok (some (lane, policy))
]
lane_of _ = err (refused "WORK_LANE_INVALID" "lane is unsupported")

abbrev lane_name : Option (String × LanePolicy) → Option String
lane_name none = none
lane_name (some (lane, policy)) = some lane

abbrev policy_write : Option (String × LanePolicy) → Json
policy_write none = list_json []
policy_write (some (lane, policy)) = list_json policy.write

abbrev policy_forbidden : Option (String × LanePolicy) → Json
policy_forbidden none = list_json []
policy_forbidden (some (lane, policy)) = list_json policy.must_not_modify

abbrev is_shared_core : Option (String × LanePolicy) → Bool
is_shared_core none = false
is_shared_core (some (lane, policy)) = lane == "SHARED_CORE"

abbrev boolean : Json → Result Bool
boolean (bool b) = ok b
boolean _ = invalid "sharedCoreImpact must be boolean"

abbrev own_repository : Option String → Json
own_repository none = list_json []
own_repository (some repository) = list_json (repository ∷ [])

unfoldable pub read_lane : Option String → Fields → Result LaneFields
read_lane repository request = do
  lane ← lane_of (get "lane" request)
  affected ←
      string_list (get_or "affectedRepositories" (own_repository repository) request)
        "affectedRepositories"
  priority ← bounded_priority (get_or "priority" (num (pos 100)) request)
  dependencies ← string_list (get "dependencies" request) "dependencies"
  requirements ← string_list (get "capabilityRequirements" request) "capabilityRequirements"
  capability ← optional_text (get "capability" request) "capability"
  reason ← optional_text (get "reason" request) "reason"
  semantics ← optional_text (get "expectedSemantics" request) "expectedSemantics"
  blocking ← string_list (get "blockingWorkIds" request) "blockingWorkIds"
  links ← string_list (get "evidenceLinks" request) "evidenceLinks"
  impact ← boolean (get_or "sharedCoreImpact" (bool (is_shared_core lane)) request)
  allowed ← string_list (get_or "allowedWriteScope" (policy_write lane) request) "allowedWriteScope"
  forbidden ←
      string_list (get_or "forbiddenWriteScope" (policy_forbidden lane) request)
        "forbiddenWriteScope"
  created_from ← string_list (get "createdFrom" request) "createdFrom"
  ok (record {
    lane = lane_name lane;
    affected_repositories = affected;
    priority = priority;
    dependencies = dependencies;
    capability_requirements = requirements;
    capability = capability;
    reason = reason;
    expected_semantics = semantics;
    blocking_work_ids = blocking;
    evidence_links = links;
    shared_core_impact = impact;
    allowed_write_scope = allowed;
    forbidden_write_scope = forbidden;
    created_from = created_from;
  })

-- What the request says of the proposal that the work comes from.
pub record Proposal : Type 0 where
  pub coordination : String
  pub proposal_status : Option String
  pub proposal_source : Option String
  pub observation_timestamp : Option String
  pub finding_identity : Option String
  pub health_status : Option String
  pub proposal_reason : Option String
  pub deduplication : Fields
  pub attachments : List Json
  pub canonical_repository : Option String
  pub canonical_affected : List String

abbrev pub coordination_asked : Json → Result String
coordination_asked (text s) =
    if in_coordination_states (text s)
    then ok s
    else err (refused "WORK_COORDINATION_STATE_INVALID" "coordinationState is unsupported")
coordination_asked _ =
    err (refused "WORK_COORDINATION_STATE_INVALID" "coordinationState is unsupported")

-- `text.replace("Z", "+00:00")`
abbrev pub with_offset : String → String
with_offset String.[] = String.[]
with_offset (String.◌∷◌ c s) =
    if eqb (code c) 90 then "+00:00" <> with_offset s else String.◌∷◌ c (with_offset s)

-- The instant in UTC. A `WorkProtocolError` is a `ValueError`, so the one that the code raises for
-- an instant without a time zone is caught by the code's own `except`, and both errors read alike.
unfoldable pub observed : Runtime → Option String → Result (Option String)
observed R none = ok none
observed R (some raw) = elim (R.instant (with_offset raw)) [
  | some (true, utc) ↦ ok (some utc)
  | some (false, utc) ↦ invalid "observationTimestamp must be an ISO-8601 timestamp"
  | none ↦ invalid "observationTimestamp must be an ISO-8601 timestamp"
]

unfoldable pub read_proposal : Runtime → Fields → Result Proposal
read_proposal R request = do
  coordination ← coordination_asked (get_or "coordinationState" (text "AVAILABLE") request)
  status ← optional_text (get "proposalStatus" request) "proposalStatus"
  source ← optional_text (get "proposalSource" request) "proposalSource"
  raw ← optional_text (get "observationTimestamp" request) "observationTimestamp"
  timestamp ← observed R raw
  finding ← optional_text (get "findingIdentity" request) "findingIdentity"
  health ← optional_text (get "healthStatus" request) "healthStatus"
  reason ← optional_text (get "proposalReason" request) "proposalReason"
  deduplication ← optional_mapping (get "deduplication" request) "deduplication"
  attachments ← mapping_list (get "attachments" request) "attachments"
  repository ← optional_text (get "canonicalRepository" request) "canonicalRepository"
  affected ←
      string_list (get "canonicalAffectedRepositories" request) "canonicalAffectedRepositories"
  ok (record {
    coordination = coordination;
    proposal_status = status;
    proposal_source = source;
    observation_timestamp = timestamp;
    finding_identity = finding;
    health_status = health;
    proposal_reason = reason;
    deduplication = deduplication;
    attachments = attachments;
    canonical_repository = repository;
    canonical_affected = affected;
  })

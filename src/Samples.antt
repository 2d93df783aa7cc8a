-- ===== src/Samples.antt =====
-- Small documents, and a Python library with simple functions, for the tests.
use mncs_commons.Base.{
  String, ◌==◌, ◌≡◌, ◌≢◌, eq_iff, arith, false, ◌∷◌, false, String, pos, true, none, some, List, [],
}
use mncs_commons.Json.{Json, null, num, text, arr, obj, nil, cons, Fields, end, field}
use mncs_commons.Result.{Runtime}
use mncs_commons.Lifecycle.{LifecycleView}
use mncs_commons.Work.Submit.Readers.{Identity, LaneFields, Proposal}

-- A library whose hash is the text itself.
abbrev pub plain : Runtime
plain = record {
  repr = λ v. "None";
  parse_int = λ s. none;
  sha256 = λ s. s;
  lower = λ s. s;
  hostname = λ s. none;
  url_path = λ s. "";
  instant = λ s. some (true, s);
  loads = λ s. none;
  path = λ s. (false, s ∷ []);
  size = λ s. 1;
}

-- A record in the state `proposed`.
abbrev pub claim : Fields
claim =
    field "contentDigest" (text "sha256:claim")
      (field "lifecycle" (obj (field "initialState" (text "proposed") end)) end)

abbrev pub event : String → String → String → String → Fields
event digest domain before after = field "contentDigest" (text digest) (
    field "target" (obj (field "contentDigest" (text "sha256:claim") end)) (
      field "authority" (obj (field "domain" (text domain) end))
        (field "transition" (obj (field "from" (text before) (field "to" (text after) end))) end)))

abbrev pub reproduced_event : Fields
reproduced_event = event "sha256:e1" "lab" "proposed" "reproduced"

abbrev pub verified_event : Fields
verified_event = event "sha256:e2" "lab" "reproduced" "verified"

abbrev pub accepted_event : Fields
accepted_event = event "sha256:e3" "lab" "verified" "accepted"

abbrev pub foreign_event : Fields
foreign_event = event "sha256:e4" "field" "proposed" "rejected"

abbrev pub lab_view : String → List String → LifecycleView
lab_view state events = record {
  current_state = state;
  events = events;
  diagnostics = [];
  domain = some "lab";
  domain_states = [];
}

abbrev pub worker : Fields
worker = field "type" (text "agent") (field "id" (text "agent:1") end)

-- Work as it was submitted.
abbrev pub first_details : Fields
first_details = field "workProtocol" (text "commons.mncs.dev/work-record/v0alpha1") (
    field "workId" (text "work:1") (
      field "objective" (text "tidy") (
        field "state" (text "submitted") (
          field "stateEvent"
            (obj
              (field "from" null (field "to" (text "submitted") (field "actor" (obj worker) end))))
            end))))

abbrev pub submitted_work : Fields
submitted_work = field "contentDigest" (text "sha256:w1") (
    field "metadata" (obj (field "recordId" (text "work:1") (field "revision" (num (pos 1)) end)))
      (field "details" (obj first_details) end))

-- A transition of the work to `assigned`.
abbrev pub assignment : Fields
assignment =
    field "expectedPreviousDigest" (text "sha256:w1")
      (field "state" (text "assigned") (field "actor" (obj worker) end))

abbrev pub assigned_work : Fields
assigned_work =
    field "metadata"
      (obj (
        field "recordId" (text "work:1") (
          field "revision" (num (pos 2)) (
            field "createdAt" (text "2026-01-01T00:00:00Z")
              (field "author" (obj worker) (field "previousDigest" (text "sha256:w1") end))))))
      (field "details"
        (obj (
          field "workProtocol" (text "commons.mncs.dev/work-record/v0alpha1") (
            field "workId" (text "work:1") (
              field "objective" (text "tidy") (
                field "state" (text "assigned") (
                  field "stateEvent"
                    (obj (
                      field "from" (text "submitted")
                        (field "to" (text "assigned") (field "actor" (obj worker) end))))
                    (field "requestState" (text "claimed") (
                      field "coordinationState" (text "CLAIMED")
                        (field "routing" (obj end) end)))))))))
        end)

-- A request for work in no lane, and what the code reads in it.
abbrev pub request : Fields
request = field "workId" (text "work:1") (
    field "submittingConsumer" (obj worker)
      (field "task" (text "tidy") (field "project" (obj (field "id" (text "mncs") end)) end)))

abbrev pub identity : Identity
identity = record {
  work_id = "work:1";
  submitter = worker;
  task = "tidy";
  project = field "id" (text "mncs") end;
  repository = none;
  constraints = [];
  parent_work_id = none;
  title = "tidy";
  summary = "tidy";
}

abbrev pub no_lane : LaneFields
no_lane = record {
  lane = none;
  affected_repositories = [];
  priority = num (pos 100);
  dependencies = [];
  capability_requirements = [];
  capability = none;
  reason = none;
  expected_semantics = none;
  blocking_work_ids = [];
  evidence_links = [];
  shared_core_impact = false;
  allowed_write_scope = [];
  forbidden_write_scope = [];
  created_from = [];
}

abbrev pub no_proposal : Proposal
no_proposal = record {
  coordination = "AVAILABLE";
  proposal_status = none;
  proposal_source = none;
  observation_timestamp = none;
  finding_identity = none;
  health_status = none;
  proposal_reason = none;
  deduplication = end;
  attachments = [];
  canonical_repository = none;
  canonical_affected = [];
}

abbrev pub all_view : LifecycleView
all_view = record {
  current_state = "domain-scoped";
  events = "sha256:e1" ∷ [];
  diagnostics = [];
  domain = none;
  domain_states = ("lab", "reproduced") ∷ [];
}

-- Work whose details start with those given, in its first revision.
abbrev pub work_with : Fields → Fields
work_with details = field "contentDigest" (text "sha256:w1") (
    field "metadata" (obj (field "revision" (num (pos 1)) end)) (field "details" (obj details) end))

-- The revision of such work.
abbrev pub revision_with : Fields → Fields
revision_with details =
    field "metadata"
      (obj (
        field "revision" (num (pos 2)) (
          field "createdAt" (text "2026-01-01T00:00:00Z")
            (field "author" (obj worker) (field "previousDigest" (text "sha256:w1") end)))))
      (field "details" (obj details) end)

abbrev event_of : String → String → Json
event_of before after =
    obj (field "from" (text before) (field "to" (text after) (field "actor" (obj worker) end)))

abbrev hygiene_request : Fields → Fields
hygiene_request rest = field "lane" (text "REPO_HYGIENE") (
    field "repository" (text "mncs-commons")
      (field "affectedRepositories" (arr (cons (text "commons") nil)) rest))

abbrev pub hygiene_work : Fields
hygiene_work = work_with (hygiene_request (field "state" (text "submitted") end))

abbrev pub cancellation : Fields
cancellation =
    field "expectedPreviousDigest" (text "sha256:w1")
      (field "state" (text "cancelled") (field "actor" (obj worker) end))

abbrev pub cancelled_hygiene : Fields
cancelled_hygiene = revision_with (
    hygiene_request (
      field "state" (text "cancelled") (
        field "requestState" (text "withdrawn") (
          field "stateEvent" (event_of "submitted" "cancelled")
            (field "coordinationState" (text "ABANDONED") (field "routing" (obj end) end))))))

abbrev outcome : Fields → Fields
outcome rest = field "result" (obj (field "terminalOutcome" (text "done") end)) rest

abbrev pub completed_work : Fields
completed_work = work_with (outcome (field "state" (text "completed") end))

abbrev pub attachment : Fields
attachment =
    field "expectedPreviousDigest" (text "sha256:w1")
      (field "attachments" (arr nil) (field "actor" (obj worker) end))

abbrev pub completed_with_attachments : Fields
completed_with_attachments = revision_with (
    outcome (
      field "state" (text "completed") (
        field "requestState" (text "completed") (
          field "stateEvent" (event_of "completed" "completed") (
            field "coordinationState" (text "COMPLETE")
              (field "attachments" (arr nil) (field "routing" (obj end) end)))))))

pub distinct : (s t : String) → (s == t) ≡ false → s ≢ t
distinct s t h = ground (arith, eq_iff s t)

-- ===== src/Work/Submit/Initial.antt =====
-- What `new_work_record` of work.py writes, against the lineage check and the projection.
use mncs_commons.Base.{
  pos, String, ◌≡◌, refl, ◌∙◌, false, Option, none, some, List, [], ◌∷◌, arith, ◌==◌, eq_refl,
  Bool-cases, keep, inl, inr,
}
use mncs_commons.Json.{
  Json, null, num, text, obj, Fields, end, field, get, get_or, lookup, fields_of,
}
use mncs_commons.Json.Equality.{py_eq}
use mncs_commons.Result.{Runtime, ok, reject, >>=-eq-ok, ok-injective}
use mncs_commons.Models.{child}
use mncs_commons.Work.States.{work_protocol}
use mncs_commons.Work.Lineage.{work_semantic_diagnostics, initial_checks, revision_of}
use mncs_commons.Work.Readers.{to_int}
use mncs_commons.Work.Revise.{has_unknown}
use mncs_commons.Work.History.{
  project_work_history, keyed_by_revision, is_revision_of, projection_of, entry_of, state_of,
  details_of, links, check_link, check_previous,
}
use mncs_commons.Work.Submit.Readers.{
  Identity, LaneFields, Proposal, submission_fields, read_identity, read_lane, read_proposal,
  concat,
}
use mncs_commons.Work.Submit.{
  affected_field, deduplication_field, proposal_fields, laned_fields, lane_texts, check_submission,
  read_routing, given, lane_details, first_event, submitted_details, submitted_envelope,
  submitted_record, new_work_record,
}

lookup-concat :
    (k : String) (fs gs : Fields) → lookup k fs ≡ none → lookup k (concat fs gs) ≡ lookup k gs
unfolding lookup
lookup-concat k end gs h = refl
lookup-concat k (field j v fs) gs h = elim (Bool-cases (j == k)) [
  | inl same ↦ ground arith
  | inr other ↦ rw other (lookup-concat k fs gs (rw other at h))
]

lookup-given :
    (k name : String) (o : Option String) → (name == k) ≡ false → lookup k (given name o) ≡ none
unfolding lookup
lookup-given k name none h = refl
lookup-given k name (some s) h = rw h refl

absent-concat :
    (k : String) (fs gs : Fields)
    → lookup k fs ≡ none
    → lookup k gs ≡ none
    → lookup k (concat fs gs) ≡ none
absent-concat k fs gs h g = lookup-concat k fs gs h ∙ g

laned-absent : (l : LaneFields) (o : Option String) → lookup "stateEvent" (laned_fields l o) ≡ none
unfolding lookup
laned-absent l none = refl
laned-absent l (some lane) = refl

texts-absent : (l : LaneFields) (o : Option String) → lookup "stateEvent" (lane_texts l o) ≡ none
unfolding lookup
texts-absent l none = refl
texts-absent l (some lane) =
    absent-concat "stateEvent" (given "capability" l.capability) _
      (lookup-given "stateEvent" "capability" l.capability refl)
      (absent-concat "stateEvent" (given "reason" l.reason) _
        (lookup-given "stateEvent" "reason" l.reason refl)
        (lookup-given "stateEvent" "expectedSemantics" l.expected_semantics refl))

affected-absent : (xs : List String) → lookup "stateEvent" (affected_field xs) ≡ none
unfolding lookup
affected-absent [] = refl
affected-absent (x ∷ xs) = refl

deduplication-absent : (fs : Fields) → lookup "stateEvent" (deduplication_field fs) ≡ none
unfolding lookup
deduplication-absent end = refl
deduplication-absent (field k v fs) = refl

given-absent :
    (name : String) (o : Option String) (gs : Fields)
    → (name == "stateEvent") ≡ false
    → lookup "stateEvent" gs ≡ none
    → lookup "stateEvent" (concat (given name o) gs) ≡ none
given-absent name o gs d h =
    absent-concat "stateEvent" (given name o) gs (lookup-given "stateEvent" name o d) h

proposal-absent : (p : Proposal) → lookup "stateEvent" (proposal_fields p) ≡ none
proposal-absent p = given-absent "proposalStatus" p.proposal_status _ refl (
    given-absent "proposalSource" p.proposal_source _ refl (
      given-absent "observationTimestamp" p.observation_timestamp _ refl (
        given-absent "findingIdentity" p.finding_identity _ refl (
          given-absent "healthStatus" p.health_status _ refl (
            given-absent "proposalReason" p.proposal_reason _ refl (
              given-absent "canonicalRepository" p.canonical_repository _ refl (
                absent-concat "stateEvent" (affected_field p.canonical_affected) _
                  (affected-absent p.canonical_affected)
                  (deduplication-absent p.deduplication))))))))

-- The lane's details hold no event.
lane_details-absent :
    (l : LaneFields) (p : Proposal) → lookup "stateEvent" (lane_details l p) ≡ none
unfolding lookup
lane_details-absent l p =
    absent-concat "stateEvent" (laned_fields l l.lane) _ (laned-absent l l.lane) (
      absent-concat "stateEvent" (lane_texts l l.lane) (proposal_fields p) (texts-absent l l.lane)
        (proposal-absent p))

event-submitted :
    (i : Identity) (l : LaneFields) (p : Proposal) (attempt : Json) (routing : Fields)
    → get "stateEvent" (submitted_details i l p attempt routing) ≡ obj (first_event i.submitter)
unfolding get lookup submitted_details
event-submitted i l p attempt routing = rw (lookup-concat _ _ _ (lane_details-absent l p)) refl

-- What the initial check and the projection read of a submitted record.
record Submitted (record' : Fields) : Type 0 where
  details : Fields
  metadata : Fields
  actor : Fields
  work_id : String
  has_details : get "details" record' ≡ obj details
  has_metadata : get_or "metadata" (obj end) record' ≡ obj metadata
  has_revision : get_or "revision" (num (pos 0)) metadata ≡ num (pos 1)
  is_numbered : get "revision" metadata ≡ num (pos 1)
  is_first : get "previousDigest" metadata ≡ null
  has_protocol : get "workProtocol" details ≡ text work_protocol
  has_id : get "workId" details ≡ text work_id
  has_state : get "state" details ≡ text "submitted"
  has_event : get "stateEvent" details ≡ obj (first_event actor)

record-Submitted :
    (now : String) (i : Identity) (l : LaneFields) (p : Proposal) (request routing : Fields)
    → Submitted (submitted_record now i l p request routing)
unfolding submitted_record submitted_envelope get get_or lookup
record-Submitted now i l p request routing = record {
  details = submitted_details i l p (get_or "attempt" (num (pos 0)) request) routing;
  metadata = fields_of (get "metadata" (submitted_record now i l p request routing));
  actor = i.submitter;
  work_id = i.work_id;
  has_details = refl;
  has_metadata = refl;
  has_revision = refl;
  is_numbered = refl;
  is_first = refl;
  has_protocol = unfold submitted_details in refl;
  has_id = unfold submitted_details in refl;
  has_state = unfold submitted_details in refl;
  has_event = event-submitted i l p _ routing;
}

new-Submitted :
    (R : Runtime) (now unique : String) (request record' : Fields)
    → new_work_record R now unique request ≡ ok record'
    → Submitted record'
unfolding new_work_record
new-Submitted R now unique request record' h =
    let (u, e, h1) =
      >>=-eq-ok
        (reject (has_unknown submission_fields request) "WORK_INVALID"
          "work submission contains unexpected fields")
        _ h in
    let (i, e1, h2) = >>=-eq-ok (read_identity unique request) _ h1 in
    let (l, e2, h3) = >>=-eq-ok (read_lane i.repository request) _ h2 in
    let (p, e3, h4) = >>=-eq-ok (read_proposal R request) _ h3 in
    let (u2, e4, h5) = >>=-eq-ok (check_submission R i l p request) _ h4 in
    let (routing, e5, h6) =
      >>=-eq-ok (read_routing request ("fabricJobId" ∷ "workerId" ∷ "modelId" ∷ [])) _ h5 in
    rw (← ok-injective h6) (record-Submitted now i l p request routing)

-- A record that `new_work_record` returns passes the store's lineage check as the first of its
-- identity.
pub new-is_initial :
    (R : Runtime) (now unique : String) (request record' : Fields)
    → new_work_record R now unique request ≡ ok record'
    → work_semantic_diagnostics R record' [] ≡ ok []
unfolding work_semantic_diagnostics initial_checks get lookup
new-is_initial R now unique request record' h =
    let s = new-Submitted R now unique request record' h in
    rw (s.has_details, s.has_protocol, s.has_state, s.has_event) refl

module _ (R : Runtime) {record' : Fields} (s : Submitted record') where
  kept-alone :
      (id : String)
      → get "workId" (details_of record') ≡ text id
      → keep (is_revision_of id) (record' ∷ []) ≡ record' ∷ []
  unfolding keep
  kept-alone id e =
      let same : get "workId" s.details ≡ text id = rw s.has_details at e in
      rw (s.has_details, s.has_protocol, same, eq_refl id) refl

  keyed-alone : keyed_by_revision R (record' ∷ []) ≡ ok ((pos 1, record') ∷ [])
  unfolding revision_of child to_int
  keyed-alone = rw (s.has_metadata, s.has_revision) refl

  links-alone :
      links R 1 none (record' ∷ [])
      ≡ ok (entry_of R 1 (fields_of (get_or "metadata" (obj end) record')) record' ∷ [])
  unfolding links check_link check_previous child py_eq
  links-alone =
      rw (s.has_metadata, s.is_numbered) (rw (s.is_first, s.has_details, s.has_state) refl)

-- A record that `new_work_record` returns, alone in a history, projects to itself in the state
-- `submitted`, as revision 1.
pub new-projects :
    (R : Runtime) (now unique : String) (request record' : Fields) (id : String)
    → new_work_record R now unique request ≡ ok record'
    → get "workId" (details_of record') ≡ text id
    → (state_of R record' ≡ "submitted")
      × (project_work_history R (record' ∷ []) id
          ≡ ok (
              projection_of R id record'
                (entry_of R 1 (fields_of (get_or "metadata" (obj end) record')) record' ∷ [])))
unfolding project_work_history
new-projects R now unique request record' id h e =
    let s = new-Submitted R now unique request record' h in
    (
      rw (s.has_details, s.has_state) refl,
      rw (kept-alone R s id e, keyed-alone R s, links-alone R s) refl,
    )

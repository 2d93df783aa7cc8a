-- ===== src/Work/Revise.antt =====
-- `revised_work_record` of work.py: the next immutable revision of a work record. The code fills a
-- dict step by step; each step is a function here, in the order of the code.
pub mod Frame
pub mod Inversion
pub mod Request
pub mod Successor
pub mod Legal
pub mod Outcome
pub mod Single
pub mod Closed
use mncs_commons.Base.{
  pos, suc_ℤ, String, ◌<>◌, Bool, not, ◌&&◌, ◌||◌, List, [], ◌∷◌, ◌++◌, ◌==◌, any, contains, map,
  if◌then◌else◌,
}
use mncs_commons.Json.{
  Json, null, num, text, arr, obj, nil, Fields, end, field, get, get_or, has, set, pop, keys,
  equals, truthy, is_mapping, is_list, fields_of, texts, from_list, to_list,
}
use mncs_commons.Result.{Runtime, Result, ok, err, uncaught, require, reject, ◌>>=◌, ◌>>◌}
use mncs_commons.Models.{str, digest_of}
use mncs_commons.Work.States.{
  allowed_work_transitions, allowed_coordination_transitions, coordination_state,
  implied_coordination, is_coordination_state, request_state,
}
use mncs_commons.Work.Readers.{
  max_text, bounded_text, string_list, mapping, optional_mapping, mapping_list, actor_of, to_int,
  is_bounded_int, invalid,
}
use mncs_commons.Work.Hygiene.{hygiene_scope_invalid}

abbrev pub transition_fields : List String
transition_fields =
    "state" ∷ "actor" ∷ "expectedPreviousDigest" ∷ "reason" ∷ "fabricJobId" ∷ "workerId" ∷ "modelId"
    ∷ "attempt" ∷ "progress" ∷ "blockers" ∷ "result" ∷ "coordinationState" ∷ "claim"
    ∷ "followOnRequests" ∷ "attachments" ∷ []

-- Keys outside a list of allowed ones.
abbrev pub has_unknown : List String → Fields → Bool
has_unknown allowed fs = any (λ k. not (contains allowed k)) (keys fs)

-- The work state that the transition asks for, where the table or an attachment admits it.
unfoldable pub target_state : String → Fields → Result String
target_state previous transition = do
  target ← bounded_text 32 (get_or "state" (text previous) transition) "state"
  require
      (contains (allowed_work_transitions previous) target
        || (target == previous && has "attachments" transition))
      "WORK_TRANSITION_REJECTED" (previous <> " -> " <> target <> " is not allowed")
  ok target

-- The metadata of the revision.
unfoldable pub next_metadata : Runtime → String → String → Fields → Fields → Result Fields
next_metadata R now digest actor metadata = do
  revision ← to_int R (get_or "revision" (num (pos 1)) metadata)
  ok (
      set "previousDigest" (text digest) (
        set "revision" (num (suc_ℤ revision))
          (set "author" (obj actor) (set "createdAt" (text now) metadata))))

abbrev pub state_event : String → String → Fields → Fields
state_event previous target actor =
    field "from" (text previous) (field "to" (text target) (field "actor" (obj actor) end))

-- The `stateEvent` of the revision, with the reason if one is given.
unfoldable pub next_event : String → String → Fields → Json → Result Fields
next_event previous target actor null = ok (state_event previous target actor)
next_event previous target actor reason = do
  r ← bounded_text max_text reason "reason"
  ok (set "reason" (text r) (state_event previous target actor))

-- The coordination state that the transition asks for, or that its work state implies.
unfoldable pub next_coordination : Runtime → String → Fields → Fields → Result String
next_coordination R target details transition =
    let asked = (do
      c ← bounded_text 32 (get "coordinationState" transition) "coordinationState"
      require (is_coordination_state c) "WORK_COORDINATION_STATE_INVALID"
          "coordinationState is unsupported"
      ok c) in
    if has "coordinationState" transition
    then asked
    else ok (implied_coordination target (coordination_state R details))

unfoldable pub checked_coordination : Runtime → String → Fields → Fields → Result String
unfolding next_coordination
checked_coordination R target details transition = do
  next ← next_coordination R target details transition
  let previous = coordination_state R details
  require (next == previous || contains (allowed_coordination_transitions previous) next)
      "WORK_COORDINATION_TRANSITION_REJECTED" (previous <> " -> " <> next <> " is not allowed")
  ok next

abbrev read_claim : Json → Result Json
read_claim null = ok null
read_claim claim = do c ← mapping claim "claim"; ok (obj c)

unfoldable pub with_claim : Fields → Fields → Result Fields
with_claim transition details =
    let changed = (do c ← read_claim (get "claim" transition); ok (set "claim" c details)) in
    if has "claim" transition then changed else ok details

unfoldable pub with_follow_ons : Fields → Fields → Result Fields
with_follow_ons transition details =
    let changed = (do
      requests ← string_list (get "followOnRequests" transition) "followOnRequests"
      ok (set "followOnRequests" (arr (texts requests)) details)) in
    if has "followOnRequests" transition then changed else ok details

-- `("follows_up", target) in existing_relationships`
abbrev follows : String → List Json → Bool
follows target relationships =
    any
      (λ item.
        equals (get "type" (fields_of item)) "follows_up"
        && equals (get "target" (fields_of item)) target)
      relationships

abbrev new_relations : List Json → List String → List Json
new_relations existing [] = []
new_relations existing (target ∷ rest) =
    let others = new_relations existing rest in
    if follows target existing
    then others
    else obj (field "type" (text "follows_up") (field "target" (text target) end)) ∷ others

abbrev characters : String → List Json
characters String.[] = []
characters (String.◌∷◌ c s) = text (String.◌∷◌ c String.[]) ∷ characters s

-- `list(candidate.get("relationships", []))`
abbrev pub listed : Json → Result (List Json)
listed (arr items) = ok (to_list items)
listed (obj fs) = ok (map text (keys fs))
listed (text s) = ok (characters s)
listed _ = err (uncaught "TypeError")

-- The `follows_up` relations that the transition adds to the record itself.
unfoldable pub with_relations : Fields → Fields → Result Fields
with_relations transition candidate =
    let changed = (do
      requests ← string_list (get "followOnRequests" transition) "followOnRequests"
      existing ← listed (get_or "relationships" (arr nil) candidate)
      ok (
          set "relationships" (arr (from_list (existing ++ new_relations existing requests)))
            candidate)) in
    if has "followOnRequests" transition then changed else ok candidate

unfoldable pub with_attachments : Fields → Fields → Result Fields
with_attachments transition details =
    let changed = (do
      attachments ← mapping_list (get "attachments" transition) "attachments"
      ok (set "attachments" (arr (from_list attachments)) details)) in
    if has "attachments" transition then changed else ok details

routed : Fields → List String → Fields → Result Fields
routed transition [] routing = ok routing
routed transition (name ∷ names) routing =
    let changed = (do
      t ← bounded_text max_text (get name transition) name
      routed transition names (set name (text t) routing)) in
    let same = routed transition names routing in if has name transition then changed else same

unfoldable pub with_routing : Fields → Fields → Result Fields
unfolding routed
with_routing transition details = do
  routing ← optional_mapping (get "routing" details) "routing"
  routing' ← routed transition ("fabricJobId" ∷ "workerId" ∷ "modelId" ∷ []) routing
  ok (set "routing" (obj routing') details)

unfoldable pub with_attempt : Fields → Fields → Result Fields
with_attempt transition details =
    let changed =
      if is_bounded_int 10000 (get "attempt" transition)
      then ok (set "attempt" (get "attempt" transition) details)
      else invalid "attempt must be an integer between 0 and 10000" in
    if has "attempt" transition then changed else ok details

-- `progress` and `result`
unfoldable pub with_mapping : String → Fields → Fields → Result Fields
with_mapping name transition details =
    let changed = (do
      value ← mapping (get name transition) name
      ok (set name (obj value) details)) in
    if has name transition then changed else ok details

unfoldable pub with_blockers : Fields → Fields → Result Fields
with_blockers transition details =
    let changed = (do
      blockers ← string_list (get "blockers" transition) "blockers"
      ok (set "blockers" (arr (texts blockers)) details)) in
    if has "blockers" transition then changed else ok details

abbrev pub has_outcome : Json → Bool
has_outcome result = is_mapping result && truthy (get "terminalOutcome" (fields_of result))

abbrev pub has_evidence : Json → Bool
has_evidence result =
    is_mapping result
    && is_list (get "evidence" (fields_of result))
    && truthy (get "evidence" (fields_of result))

-- What the target states call for, once all fields are written. `laned` is whether the work has
-- a lane.
unfoldable pub final_checks : String → String → Bool → Fields → Result (Unit {0})
final_checks target coordination laned details = do
  reject (target == "blocked" && not (truthy (get "blockers" details))) "WORK_INVALID"
      "blocked work requires blockers"
  reject (contains ("completed" ∷ "failed" ∷ []) target && not (has_outcome (get "result" details)))
      "WORK_INVALID" (target <> " work requires result.terminalOutcome")
  reject
      (laned
        && contains ("CLAIMED" ∷ "IN_PROGRESS" ∷ "VERIFYING" ∷ []) coordination
        && not (is_mapping (get "claim" details)))
      "WORK_CLAIM_REQUIRED" "active work requires a claim"
  reject (coordination == "BLOCKED" && not (truthy (get "blockers" details))) "WORK_INVALID"
      "blocked work requires blockers"
  reject (coordination == "COMPLETE" && laned && not (has_evidence (get "result" details)))
      "WORK_COMPLETION_EVIDENCE_REQUIRED" "lane work completion requires non-empty result.evidence"

-- The details with the new state, request state, event and coordination state.
abbrev pub restated : Fields → String → Fields → String → Fields
restated details target event coordination = set "coordinationState" (text coordination) (
    set "stateEvent" (obj event)
      (set "requestState" (text (request_state target)) (set "state" (text target) details)))

-- The rest of the transition's optional fields, in the code's order.
unfoldable pub with_fields : Fields → Fields → Result Fields
unfolding with_attachments with_routing with_attempt with_mapping with_blockers
with_fields transition details = do
  d3 ← with_attachments transition details
  d4 ← with_routing transition d3
  d5 ← with_attempt transition d4
  d6 ← with_mapping "progress" transition d5
  d7 ← with_mapping "result" transition d6
  with_blockers transition d7

abbrev pub hygiene_message : String
hygiene_message =
    "REPO_HYGIENE work must be scoped to exactly one canonical repository equal to the primary repository"

-- From the current record's own details and metadata.
unfoldable pub revise : Runtime → String → Fields → Fields → Fields → Fields → Result Fields
revise R now current details metadata transition = do
  let digest = digest_of R current
  require (equals (get "expectedPreviousDigest" transition) digest) "WORK_CONFLICT"
      "expectedPreviousDigest is stale or missing"
  let previous = str R (get "state" details)
  target ← target_state previous transition
  actor ← actor_of (get "actor" transition) "actor"
  metadata' ← next_metadata R now digest actor metadata
  event ← next_event previous target actor (get "reason" transition)
  coordination ← checked_coordination R target details transition
  let opened = restated details target event coordination
  reject (hygiene_scope_invalid R opened) "WORK_HYGIENE_REPOSITORY_SCOPE_INVALID" hygiene_message
  claimed ← with_claim transition opened
  followed ← with_follow_ons transition claimed
  candidate ←
      with_relations transition (set "metadata" (obj metadata') (pop "contentDigest" current))
  details' ← with_fields transition followed
  final_checks target coordination (truthy (get "lane" details)) details'
  ok (set "details" (obj details') candidate)

abbrev pub revise_parts : Runtime → String → Fields → Json → Json → Fields → Result Fields
revise_parts R now current (obj details) (obj metadata) transition =
    revise R now current details metadata transition
revise_parts R now current _ _ transition = invalid "current work record is malformed"

unfoldable pub revised_work_record : Runtime → String → Fields → Fields → Result Fields
revised_work_record R now current transition = do
  reject (has_unknown transition_fields transition) "WORK_INVALID"
      "work transition contains unexpected fields"
  revise_parts R now current (get "details" current) (get "metadata" current) transition

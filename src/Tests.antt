-- ===== src/Tests.antt =====
-- The program on small inputs: the canonical text and the lifecycle.
mod Mesh
mod Revisions
mod Histories
mod Records
mod Semantics
use mncs_commons.Base.{
  arith, eq_iff, ◌==◌, String, pos, ◌≡◌, refl, true, false, List, [], ◌∷◌, strip, is_space,
  is_blank, has_nul, ◌≢◌, keep, none, ◌≤◌,
}
use mncs_commons.Json.{
  obj, Fields, truthy, text, end, field, get, get_or, has, set, fields_of, lookup, pop,
}
use mncs_commons.Json.Reflexive.{AreFields}
use mncs_commons.Result.{ok, err, refused, each}
use mncs_commons.Models.{digest_of, child}
use mncs_commons.Canonical.{canonical_digest, decimal, decimal_fuel}
use mncs_commons.Canonical.Identity.{canonical_digest-set}
use mncs_commons.Lifecycle.{
  LifecycleView, derive_for_domain, start, view_of, walk, visit, apply, validate_transition,
  event_domain, target_digest, allowed_transitions, is_known, initial_state, derive_lifecycle,
  domain_views, domains,
}
use mncs_commons.Lifecycle.Reachability.{Applied, AcceptedBy, derive-Chain, derive-accepted}
use mncs_commons.Lifecycle.Append.{derive-append, derive-append_other}
use mncs_commons.Lifecycle.Domains.{derive-padded}
use mncs_commons.Work.States.{
  coordination_state, implied_coordination, allowed_work_transitions,
  allowed_coordination_transitions, request_state, is_coordination_state,
}
use mncs_commons.Work.Readers.{
  bounded_text, is_bounded, actor_of, optional_mapping, mapping, to_int, string_list, mapping_list,
  bounded_priority, optional_text,
}
use mncs_commons.Work.Hygiene.{
  hygiene_scope_invalid, primary_repository, affected_repositories, resolve_all,
}
use mncs_commons.Work.Lineage.{
  work_semantic_diagnostics, revision_of, latest_from, against_latest, mutations, lineage_checks,
}
use mncs_commons.Work.Revise.{
  revised_work_record, revise, target_state, next_metadata, next_event, next_coordination,
  checked_coordination, with_claim, with_follow_ons, with_relations, with_fields, with_attachments,
  with_routing, with_attempt, with_mapping, with_blockers, final_checks,
}
use mncs_commons.Work.Revise.Request.{revised-keeps_request}
use mncs_commons.Work.Revise.Legal.{revised-is_legal}
use mncs_commons.Work.Revise.Outcome.{
  Follows, Settled, rejected, revised-Follows, revised-conflict, revised-Settled,
  checked_coordination-verifying,
}
use mncs_commons.Work.Revise.Successor.{coordination_state-valid}
use mncs_commons.Samples.{
  distinct, plain, claim, worker, reproduced_event, verified_event, accepted_event, foreign_event,
  lab_view, first_details, submitted_work, assignment, assigned_work, request, identity, no_lane,
  no_proposal, all_view, hygiene_work, cancellation, cancelled_hygiene, completed_work, attachment,
  completed_with_attachments,
}
use mncs_commons.Json.Equality.{py_eq}
use mncs_commons.Work.History.{
  Projection, project_work_history, projection_of, entry_of, state_of, links, check_link,
  check_previous,
}
use mncs_commons.Work.History.Revised.{project-revised}
use mncs_commons.Work.Submit.Readers.{read_identity, read_lane, read_proposal, observed}
use mncs_commons.Work.Submit.{
  new_work_record, submitted_record, check_submission, read_routing, submitted_envelope,
  submitted_details, submitted_relations,
}
use mncs_commons.Work.Submit.Initial.{new-is_initial, new-projects}
use mncs_commons.Work.Listing.{list_work, selects, work_ids}
use mncs_commons.Lists.{Every}
use mncs_commons.Work.Listing.Sound.{IsProjected, list_work-Every}
use mncs_commons.Work.Next.{
  next_work, ids, active_repositories, all_dependencies, filter_eligible, is_eligible,
  in_repository, any_open, rank_of, item_repositories, stands_before, insert_ranked, sort_ranked,
}
use mncs_commons.Work.Next.Ready.{IsOffered, next_work-IsOffered}
use mncs_commons.Family.{canonical_project_identity}
use mncs_commons.Lifecycle.Views.{IsDomainState, derive_lifecycle-IsDomainState}
use mncs_commons.Work.Hygiene.Scope.{IsSingle}
use mncs_commons.Work.Revise.Single.{revised-IsSingle}
use mncs_commons.Work.Revise.Closed.{revised-terminal}
use mncs_commons.Lane.{
  LanePolicy, publish, shared_forbidden, lane_policy, is_true, widens, validate_lane_request,
}
use mncs_commons.Lane.Consistent.{validate_lane_request-nil}

program : Unit {0}
unfolding truthy strip is_space is_blank has_nul get get_or has set pop lookup digest_of child
    derive_for_domain walk visit apply validate_transition event_domain target_digest
    allowed_transitions is_known initial_state coordination_state implied_coordination
    allowed_work_transitions allowed_coordination_transitions request_state is_coordination_state
    is_bounded bounded_text actor_of optional_mapping mapping to_int hygiene_scope_invalid
    work_semantic_diagnostics revision_of latest_from against_latest mutations lineage_checks
    revised_work_record revise target_state next_metadata next_event next_coordination
    checked_coordination with_claim with_follow_ons with_relations with_fields with_attachments
    with_routing with_attempt with_mapping with_blockers final_checks
program = tt

derive-example :
    derive_for_domain plain claim (reproduced_event ∷ verified_event ∷ []) "lab"
    ≡ ok (lab_view "verified" ("sha256:e1" ∷ "sha256:e2" ∷ []))
unfolding program
derive-example = refl

canonical_digest-set_example :
    canonical_digest plain (set "contentDigest" (text "sha256:other") submitted_work)
    ≡ canonical_digest plain submitted_work
canonical_digest-set_example = canonical_digest-set plain (text "sha256:other") submitted_work

abbrev reviewed : List Fields
reviewed = reproduced_event ∷ verified_event ∷ accepted_event ∷ []

abbrev reviewed_view : LifecycleView
reviewed_view = lab_view "accepted" ("sha256:e1" ∷ "sha256:e2" ∷ "sha256:e3" ∷ [])

derive-Chain_example : Applied plain "sha256:claim" "lab" reviewed reviewed_view "proposed"
unfolding program
derive-Chain_example = derive-Chain plain claim reviewed "lab" "proposed" reviewed_view refl refl

derive-accepted_example : AcceptedBy plain "sha256:claim" "lab" reviewed reviewed_view "proposed"
unfolding program
derive-accepted_example =
    derive-accepted plain claim reviewed "lab" "proposed" reviewed_view refl refl refl
      (distinct "proposed" "accepted" refl)

derive-append_example :
    derive_for_domain plain claim (reproduced_event ∷ verified_event ∷ []) "lab"
    ≡ ok (lab_view "verified" ("sha256:e1" ∷ "sha256:e2" ∷ []))
unfolding program
derive-append_example =
    derive-append plain claim (reproduced_event ∷ []) "lab" verified_event
      (field "from" (text "reproduced") (field "to" (text "verified") end))
      (lab_view "reproduced" ("sha256:e1" ∷ [])) refl refl refl refl refl

derive-append_other_example :
    derive_for_domain plain claim (reproduced_event ∷ foreign_event ∷ verified_event ∷ []) "lab"
    ≡ derive_for_domain plain claim (reproduced_event ∷ verified_event ∷ []) "lab"
unfolding program
derive-append_other_example =
    derive-append_other plain claim (reproduced_event ∷ []) (verified_event ∷ []) "lab"
      foreign_event refl refl

derive-padded_example :
    derive_for_domain plain claim (reproduced_event ∷ []) " lab"
    ≡ ok (view_of " lab" (start "proposed"))
unfolding program
derive-padded_example =
    derive-padded plain claim (reproduced_event ∷ []) " lab" "proposed"
      (distinct (strip " lab") " lab" refl) refl

derive_lifecycle-IsDomainState_example :
    (all_view.current_state ≢ "accepted")
    × Every (IsDomainState plain claim (reproduced_event ∷ [])) (("lab", "reproduced") ∷ [])
unfolding program derive_lifecycle domain_views domains each
derive_lifecycle-IsDomainState_example =
    derive_lifecycle-IsDomainState plain claim (reproduced_event ∷ []) all_view refl

abbrev documentation : LanePolicy
documentation = record {
  lane = "DOCUMENTATION";
  read = "mncs-family/**" ∷ [];
  write = "assigned_repo/docs/**" ∷ "assigned_repo/README*" ∷ "assigned_repo/examples/**" ∷ [];
  may_publish = publish;
  must_not_modify = shared_forbidden;
  exclusive = false;
}

validate_lane_request-nil_example :
    (is_true (get "sharedCoreImpact" (field "lane" (text "DOCUMENTATION") end)) ≡ false)
    × (widens documentation (get "forbiddenWriteScope" (field "lane" (text "DOCUMENTATION") end))
        ≡ false)
unfolding program lane_policy validate_lane_request
validate_lane_request-nil_example =
    validate_lane_request-nil (field "lane" (text "DOCUMENTATION") end) "DOCUMENTATION"
      documentation refl refl refl

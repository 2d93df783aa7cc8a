-- ===== src/Tests/Revisions.antt =====
-- Revisions of work on small inputs.
use mncs_commons.Base.{
  String, false, String, pos, ◌≡◌, refl, true, false, [], ◌∷◌, strip, is_space, is_blank, has_nul,
}
use mncs_commons.Json.{truthy, text, end, field, get, get_or, has, set, fields_of, lookup, pop}
use mncs_commons.Json.Reflexive.{AreFields}
use mncs_commons.Result.{ok, err, refused, each}
use mncs_commons.Models.{digest_of, child}
use mncs_commons.Lifecycle.{
  derive_for_domain, walk, visit, apply, validate_transition, event_domain, target_digest,
  allowed_transitions, is_known, initial_state,
}
use mncs_commons.Work.States.{
  coordination_state, implied_coordination, allowed_work_transitions,
  allowed_coordination_transitions, request_state, is_coordination_state,
}
use mncs_commons.Work.Readers.{
  bounded_text, is_bounded, actor_of, optional_mapping, mapping, to_int, mapping_list,
}
use mncs_commons.Work.Hygiene.{
  hygiene_scope_invalid, primary_repository, affected_repositories, resolve_all,
}
use mncs_commons.Work.Lineage.{
  work_semantic_diagnostics, revision_of, latest_from, against_latest, mutations, lineage_checks,
}
use mncs_commons.Work.Revise.{
  revised_work_record, revise, target_state, next_metadata, next_event, next_coordination,
  checked_coordination, with_claim, with_follow_ons, with_relations, with_fields, with_attachments,
  with_routing, with_attempt, with_mapping, with_blockers, final_checks,
}
use mncs_commons.Work.Revise.Request.{revised-keeps_request}
use mncs_commons.Work.Revise.Legal.{revised-is_legal}
use mncs_commons.Work.Revise.Outcome.{
  Follows, Settled, rejected, revised-Follows, revised-conflict, revised-Settled,
  checked_coordination-verifying,
}
use mncs_commons.Work.Revise.Successor.{coordination_state-valid}
use mncs_commons.Canonical.{canonical_digest}
use mncs_commons.Samples.{
  distinct, plain, worker, first_details, submitted_work, assignment, assigned_work, hygiene_work,
  cancellation, cancelled_hygiene, completed_work, attachment, completed_with_attachments,
}
use mncs_commons.Family.{canonical_project_identity}
use mncs_commons.Work.Hygiene.Scope.{IsSingle}
use mncs_commons.Work.Revise.Single.{revised-IsSingle}
use mncs_commons.Work.Revise.Closed.{revised-terminal}

program : Unit {0}
unfolding truthy strip is_space is_blank has_nul get get_or has set pop lookup digest_of child
    derive_for_domain walk visit apply validate_transition event_domain target_digest
    allowed_transitions is_known initial_state coordination_state implied_coordination
    allowed_work_transitions allowed_coordination_transitions request_state is_coordination_state
    is_bounded bounded_text actor_of optional_mapping mapping to_int hygiene_scope_invalid
    work_semantic_diagnostics revision_of latest_from against_latest mutations lineage_checks
    revised_work_record revise target_state next_metadata next_event next_coordination
    checked_coordination with_claim with_follow_ons with_relations with_fields with_attachments
    with_routing with_attempt with_mapping with_blockers final_checks
program = tt

revised-example :
    revised_work_record plain "2026-01-01T00:00:00Z" submitted_work assignment ≡ ok assigned_work
unfolding program
revised-example = refl

first_details-AreFields : AreFields first_details
unfolding program
first_details-AreFields =
    let actor : AreFields worker = (refl, tt, (refl, tt, tt)) in
    (
      refl,
      tt,
      (refl, tt, (refl, tt, (refl, tt, (refl, (refl, tt, (refl, tt, (refl, actor, tt))), tt)))),
    )

revised-keeps_request_example :
    get "objective" (fields_of (get "details" assigned_work))
    ≡ get "objective" (fields_of (get "details" submitted_work))
unfolding program
revised-keeps_request_example =
    revised-keeps_request plain "2026-01-01T00:00:00Z" submitted_work assignment assigned_work
      "objective" refl refl

revised-is_legal_example :
    work_semantic_diagnostics plain assigned_work (submitted_work ∷ []) ≡ ok []
unfolding program
revised-is_legal_example =
    revised-is_legal plain "2026-01-01T00:00:00Z" submitted_work assignment assigned_work
      submitted_work [] (pos 1) refl first_details-AreFields refl refl

revised-Follows_example :
    Follows plain submitted_work
      (fields_of (get "metadata" submitted_work))
      (fields_of (get "metadata" assigned_work))
unfolding program
revised-Follows_example =
    revised-Follows plain "2026-01-01T00:00:00Z" submitted_work assignment assigned_work refl

revised-conflict_example :
    revised_work_record plain "2026-01-01T00:00:00Z" assigned_work assignment
    ≡ err (refused "WORK_CONFLICT" "expectedPreviousDigest is stale or missing")
unfolding program canonical_digest
revised-conflict_example =
    revised-conflict plain "2026-01-01T00:00:00Z" "2026-01-01T00:00:00Z" submitted_work assignment
      assignment assigned_work assigned_work refl refl
      (distinct (digest_of plain assigned_work) (digest_of plain submitted_work) refl)

revised-Settled_example :
    (target coordination : String) × (get "state" (fields_of (get "details" assigned_work))
      ≡ text target)
    × (coordination_state plain (fields_of (get "details" assigned_work)) ≡ coordination)
    × Settled false target coordination (fields_of (get "details" assigned_work))
unfolding program
revised-Settled_example =
    revised-Settled plain "2026-01-01T00:00:00Z" submitted_work assignment assigned_work refl

checked_coordination-verifying_example :
    checked_coordination plain "failed"
      (field "coordinationState" (text "VERIFYING") end)
      (field "state" (text "failed") end)
    ≡ err (rejected "VERIFYING" "ABANDONED")
unfolding program
checked_coordination-verifying_example =
    checked_coordination-verifying plain "failed" (field "coordinationState" (text "VERIFYING") end)
      (field "state" (text "failed") end) refl refl refl

coordination_state-valid_example :
    is_coordination_state (coordination_state plain first_details) ≡ true
coordination_state-valid_example = coordination_state-valid plain first_details

revised-IsSingle_example :
    IsSingle
      (primary_repository plain (fields_of (get "details" cancelled_hygiene)))
      (affected_repositories plain (fields_of (get "details" cancelled_hygiene)))
unfolding program primary_repository affected_repositories resolve_all canonical_project_identity
    each
revised-IsSingle_example =
    revised-IsSingle plain "2026-01-01T00:00:00Z" hygiene_work cancellation cancelled_hygiene refl
      refl refl

revised-terminal_example :
    (get "state" (fields_of (get "details" completed_with_attachments)) ≡ text "completed")
    × (has "attachments" attachment ≡ true)
unfolding program mapping_list each
revised-terminal_example =
    revised-terminal plain "2026-01-01T00:00:00Z" completed_work attachment
      completed_with_attachments refl refl

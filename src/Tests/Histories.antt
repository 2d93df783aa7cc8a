-- ===== src/Tests/Histories.antt =====
-- Submissions, histories and the choice of work on small inputs.
use mncs_commons.Base.{
  ◌↔◌, pos, ◌≡◌, refl, List, [], ◌∷◌, strip, is_space, is_blank, has_nul, keep, none, ◌≤◌,
}
use mncs_commons.Json.{obj, Fields, truthy, end, get, get_or, has, set, fields_of, lookup, pop}
use mncs_commons.Result.{ok, each}
use mncs_commons.Models.{digest_of, child}
use mncs_commons.Lifecycle.{
  derive_for_domain, walk, visit, apply, validate_transition, event_domain, target_digest,
  allowed_transitions, is_known, initial_state,
}
use mncs_commons.Work.States.{
  coordination_state, implied_coordination, allowed_work_transitions,
  allowed_coordination_transitions, request_state, is_coordination_state,
}
use mncs_commons.Work.Readers.{
  bounded_text, is_bounded, actor_of, optional_mapping, mapping, to_int, string_list, mapping_list,
  bounded_priority, optional_text,
}
use mncs_commons.Work.Hygiene.{hygiene_scope_invalid}
use mncs_commons.Work.Lineage.{
  work_semantic_diagnostics, revision_of, latest_from, against_latest, mutations, lineage_checks,
}
use mncs_commons.Work.Revise.{
  revised_work_record, revise, target_state, next_metadata, next_event, next_coordination,
  checked_coordination, with_claim, with_follow_ons, with_relations, with_fields, with_attachments,
  with_routing, with_attempt, with_mapping, with_blockers, final_checks,
}
use mncs_commons.Samples.{
  plain, submitted_work, assignment, assigned_work, request, identity, no_lane, no_proposal,
}
use mncs_commons.Json.Equality.{py_eq}
use mncs_commons.Work.History.{
  Projection, project_work_history, projection_of, entry_of, state_of, links, check_link,
  check_previous,
}
use mncs_commons.Work.History.Revised.{project-revised}
use mncs_commons.Work.Submit.Readers.{read_identity, read_lane, read_proposal, observed}
use mncs_commons.Work.Submit.{
  new_work_record, submitted_record, check_submission, read_routing, submitted_envelope,
  submitted_details, submitted_relations,
}
use mncs_commons.Work.Submit.Initial.{new-is_initial, new-projects}
use mncs_commons.Work.Listing.{list_work, work_ids}
use mncs_commons.Lists.{Occurs, Every}
use mncs_commons.Work.Listing.Sound.{IsProjected, Passes, list_work-Passes}
use mncs_commons.Work.Next.{
  next_work, ids, active_repositories, all_dependencies, filter_eligible, is_eligible,
  in_repository, any_open, rank_of, item_repositories, stands_before, insert_ranked, sort_ranked,
}
use mncs_commons.Work.Next.Ready.{IsOffered, next_work-IsOffered}

program : Unit {0}
unfolding truthy strip is_space is_blank has_nul get get_or has set pop lookup digest_of child
    derive_for_domain walk visit apply validate_transition event_domain target_digest
    allowed_transitions is_known initial_state coordination_state implied_coordination
    allowed_work_transitions allowed_coordination_transitions request_state is_coordination_state
    is_bounded bounded_text actor_of optional_mapping mapping to_int hygiene_scope_invalid
    work_semantic_diagnostics revision_of latest_from against_latest mutations lineage_checks
    revised_work_record revise target_state next_metadata next_event next_coordination
    checked_coordination with_claim with_follow_ons with_relations with_fields with_attachments
    with_routing with_attempt with_mapping with_blockers final_checks
program = tt

abbrev new_work : Fields
new_work = submitted_record "2026-01-01T00:00:00Z" identity no_lane no_proposal request end

new_work-example : new_work_record plain "2026-01-01T00:00:00Z" "0" request ≡ ok new_work
unfolding program read_identity read_lane read_proposal check_submission read_routing
    new_work_record submitted_record string_list mapping_list bounded_priority optional_text
    is_coordination_state observed submitted_envelope submitted_details submitted_relations each
new_work-example = refl

new-is_initial_example : work_semantic_diagnostics plain new_work [] ≡ ok []
new-is_initial_example =
    new-is_initial plain "2026-01-01T00:00:00Z" "0" request new_work new_work-example

new-projects_example :
    (state_of plain new_work ≡ "submitted")
    × (project_work_history plain (new_work ∷ []) "work:1"
        ≡ ok (
            projection_of plain "work:1" new_work
              (entry_of plain 1 (fields_of (get_or "metadata" (obj end) new_work)) new_work ∷ [])))
unfolding program submitted_record submitted_details submitted_envelope
new-projects_example =
    new-projects plain "2026-01-01T00:00:00Z" "0" request new_work "work:1" new_work-example refl

abbrev submitted_view : Projection
submitted_view =
    projection_of plain "work:1" submitted_work
      (entry_of plain 1 (fields_of (get "metadata" submitted_work)) submitted_work ∷ [])

project-revised_example :
    project_work_history plain (submitted_work ∷ assigned_work ∷ []) "work:1"
    ≡ ok (
        projection_of plain "work:1" assigned_work (
          entry_of plain 1 (fields_of (get "metadata" submitted_work)) submitted_work
          ∷ entry_of plain 2 (fields_of (get "metadata" assigned_work)) assigned_work
          ∷ []))
unfolding program project_work_history links check_link check_previous keep py_eq
project-revised_example =
    project-revised plain "2026-01-01T00:00:00Z" (submitted_work ∷ []) "work:1" submitted_view
      assignment assigned_work refl refl

next_work-example :
    next_work plain (submitted_work ∷ []) none "" [] (pos 100) ≡ ok (submitted_view ∷ [])
unfolding program project_work_history links check_link check_previous keep py_eq each list_work
    work_ids next_work active_repositories all_dependencies filter_eligible is_eligible
    in_repository any_open rank_of item_repositories stands_before insert_ranked sort_ranked
next_work-example = refl

next_work-IsOffered_example :
    (1 ≤ 100)
    × ((completed : List Projection) × (list_work plain
            (submitted_work ∷ [])
            []
            []
            ("COMPLETE" ∷ [])
          ≡ ok completed)
        × Every
            (IsOffered plain (submitted_work ∷ []) none "" [] (ids completed))
            (submitted_view ∷ []))
next_work-IsOffered_example =
    next_work-IsOffered plain (submitted_work ∷ []) none "" [] (pos 100) (submitted_view ∷ [])
      next_work-example

list_work-example :
    list_work plain (submitted_work ∷ []) ("submitted" ∷ []) [] [] ≡ ok (submitted_view ∷ [])
unfolding program project_work_history links check_link check_previous keep py_eq each list_work
    work_ids
list_work-example = refl

list_work-Passes_example :
    Every (IsProjected plain (submitted_work ∷ [])) (submitted_view ∷ [])
    × (Occurs submitted_view (submitted_view ∷ [])
        ↔ Passes plain ("submitted" ∷ []) [] [] submitted_view)
unfolding program project_work_history links check_link check_previous keep py_eq each list_work
    work_ids
list_work-Passes_example =
    list_work-Passes plain (submitted_work ∷ []) ("submitted" ∷ []) [] [] (submitted_view ∷ [])
      "work:1" submitted_view list_work-example refl refl

-- ===== src/Tests/Semantics.antt =====
-- The program on small inputs: records that depend on each other, and revisions of one record.
use mncs_commons.Models.{child}
use mncs_commons.Json.Equality.{py_eq}
use mncs_commons.Base.{pos, keep, ◌≢◌, ◌∷◌, String, true, [], ◌≡◌, ◌↔◌}
use mncs_commons.Json.{num, text, obj, Fields, end, field, get, get_or, lookup, truthy}
use mncs_commons.Semantic.{
  bind, bindings_from, conflict, conflicts, self_relations, self_replication, revision_checks,
  fresh_checks, record_semantic_diagnostics,
}
use mncs_commons.Semantic.Graph.{
  identity, visit, Edges, out_of_fuel, logical_id, known_from, add_edge, relate, relate_all,
  edges_from, relation_edges, visit_each, search, has_cycle,
}
use mncs_commons.Semantic.Paths.{Reaches}
use mncs_commons.Semantic.Cycle.{has_cycle-Reaches, search-in_time}
use mncs_commons.Producer.{or_empty, accepted, producer_references}
use mncs_commons.Work.Lineage.{revision_of, latest_from, work_semantic_diagnostics}
use mncs_commons.Work.Readers.{to_int}

-- Records that depend on each other, and their edges.
abbrev loop : Edges
loop = ("a", "b" ∷ []) ∷ ("b", "a" ∷ []) ∷ []

has_cycle-Reaches_example : (has_cycle loop ≡ true) ↔ ((a : String) × Reaches loop a a)
has_cycle-Reaches_example = has_cycle-Reaches loop

search-in_time_example : search loop ≢ out_of_fuel
search-in_time_example = search-in_time loop

unfoldable pub semantics : Unit {0}
unfolding truthy get get_or lookup identity logical_id known_from add_edge relate relate_all
    edges_from relation_edges visit_each visit search has_cycle bind bindings_from conflict
    conflicts self_relations self_replication revision_checks fresh_checks
    record_semantic_diagnostics or_empty accepted producer_references revision_of latest_from
    work_semantic_diagnostics to_int keep child py_eq
semantics = tt

abbrev first_revision : Fields
first_revision =
    field "contentDigest" (text "sha256:r1")
      (field "metadata" (obj (field "recordId" (text "obs:1") end)) end)

abbrev second_revision : Fields
second_revision = field "contentDigest" (text "sha256:r2") (
    field "metadata"
      (obj (
        field "recordId" (text "obs:1")
          (field "revision" (num (pos 2)) (field "previousDigest" (text "sha256:r1") end))))
      end)

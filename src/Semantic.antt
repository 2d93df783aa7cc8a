-- ===== src/Semantic.antt =====
-- src/mncs_commons/semantic.py: the checks of a record against the records that the store holds.
pub mod Graph
pub mod Paths
pub mod Endings
pub mod Cycle
pub mod Accepted
use mncs_commons.Base.{
  ℕ, zero, suc, pos, suc_ℤ, ℤ, ◌+◌, String, ◌<>◌, Bool, true, false, not, ◌&&◌, ◌||◌, Option, none,
  some, List, [], ◌∷◌, ◌++◌, ◌==◌, any, contains, insert, is_some, length, if◌then◌else◌, keep,
}
use mncs_commons.Json.{
  Json, text, num, arr, nil, obj, Fields, get, get_or, equals, truthy, fields_of, is_mapping,
}
use mncs_commons.Json.Equality.{py_eq}
use mncs_commons.Result.{Runtime, Result, ok, err, ◌>>=◌}
use mncs_commons.Models.{Diagnostic, diagnostic, report_if, str}
use mncs_commons.Lane.{in_texts}
use mncs_commons.Work.Lineage.{revision_of, latest_from, work_semantic_diagnostics}
use mncs_commons.Work.Revise.{listed}
use mncs_commons.Producer.{ProducerReference, producer_references}
use mncs_commons.Validation.{indexed}
use mncs_commons.Semantic.Graph.{has_cycle, identity, logical_id, relation_edges}

-- `reference_bindings`, by stable identifier.
abbrev pub Bindings : Type 0
Bindings = List (String × ProducerReference)

abbrev pub bound_to : Bindings → String → Option ProducerReference
bound_to [] name = none
bound_to ((k, reference) ∷ rest) name = if k == name then some reference else bound_to rest name

-- `setdefault`
unfoldable pub bind : ProducerReference → Bindings → Bindings
bind reference bindings =
    if is_some (bound_to bindings reference.stable_id)
    then bindings
    else (reference.stable_id, reference) ∷ bindings

abbrev bind_all : List ProducerReference → Bindings → Bindings
unfolding bind
bind_all [] bindings = bindings
bind_all (reference ∷ references) bindings = bind_all references (bind reference bindings)

unfoldable pub bindings_from : Bindings → List Fields → Result Bindings
unfolding bind
bindings_from bindings [] = ok bindings
bindings_from bindings (value ∷ values) = do
  references ← producer_references value
  bindings_from (bind_all references bindings) values

abbrev same_producer : ProducerReference → ProducerReference → Bool
same_producer a b =
    a.producer == b.producer
    && a.record_kind == b.record_kind
    && a.schema_version == b.schema_version

abbrev digests_differ : Option String → Option String → Bool
digests_differ (some d) (some e) = not (d == e)
digests_differ _ _ = false

unfoldable pub conflict : String → Option ProducerReference → ProducerReference → List Diagnostic
conflict path none current = []
conflict path (some prior) current =
    if not (same_producer prior current)
    then diagnostic "PRODUCER_REFERENCE_CONFLICT" path
        "stable producer identity is already bound to different producer metadata"
      ∷ []
    else report_if (digests_differ prior.content_digest current.content_digest)
        "PRODUCER_DIGEST_CONFLICT" path
        "stable producer identity is already bound to a different content digest"

-- The loop over the references of the candidate. A reference in conflict has a binding already, so
-- that binding it again changes nothing.
unfoldable pub conflicts : ℕ → Bindings → List ProducerReference → List Diagnostic
unfolding conflict bind
conflicts n bindings [] = []
conflicts n bindings (reference ∷ references) =
    conflict (indexed "details.producerReferences" n) (bound_to bindings reference.stable_id)
      reference
    ++ conflicts (n + 1) (bind reference bindings) references

-- `target in {candidate_identity, candidate_logical}`
abbrev is_self : Runtime → Fields → String → Bool
unfolding identity logical_id
is_self R candidate target = target == identity R candidate || target == logical_id R candidate

unfoldable pub self_relations : Runtime → Fields → ℕ → List Json → List Diagnostic
unfolding identity logical_id
self_relations R candidate n [] = []
self_relations R candidate n (relation ∷ relations) =
    report_if
      (is_mapping relation
        && is_self R candidate (str R (get_or "target" (text "") (fields_of relation))))
      "SELF_RELATION" (indexed "relationships" n) "relation target is the record itself"
    ++ self_relations R candidate (n + 1) relations

unfoldable pub self_replication : Runtime → Fields → List Diagnostic
unfolding identity logical_id
self_replication R candidate =
    let details = get "details" candidate in
    report_if
      (equals (get "kind" candidate) "Replication"
        && is_mapping details
        && is_self R candidate (str R (get "targetRecord" (fields_of details))))
      "SELF_REPLICATION" "details.targetRecord" "a replication cannot target itself"

-- Whether the candidate names the revision after the latest, and its digest.
abbrev pub is_next : Runtime → Fields → ℤ → Fields → Bool
unfolding identity
is_next R candidate n latest =
    let metadata = fields_of (get "metadata" candidate) in
    py_eq (get "revision" metadata) (num (suc_ℤ n))
    && equals (get "previousDigest" metadata) (identity R latest)

-- The check of the revision, against the records with the same logical identifier.
unfoldable pub revision_checks : Runtime → Fields → List Fields → Result (List Diagnostic)
unfolding identity revision_of latest_from
revision_checks R candidate [] = ok []
revision_checks R candidate (first ∷ others) = do
  n ← revision_of R (num (pos 1)) first
  latest ← latest_from R first n others
  m ← revision_of R (num (pos 1)) latest
  ok (
      report_if (not (is_next R candidate m latest)) "REVISION_REQUIRED" "metadata"
        "a changed logical record requires the next revision and previousDigest")

-- The checks of a record that is not there yet.
unfoldable pub fresh_checks :
    Runtime → Fields → List Fields → List Fields → Result (List Diagnostic)
unfolding revision_checks work_semantic_diagnostics bindings_from producer_references conflicts
    self_relations self_replication relation_edges has_cycle
fresh_checks R candidate same records = do
  revision ← revision_checks R candidate same
  work ← work_semantic_diagnostics R candidate same
  bindings ← bindings_from [] records
  references ← producer_references candidate
  relations ← listed (get_or "relationships" (arr nil) candidate)
  edges ← relation_edges R (records ++ candidate ∷ [])
  ok (
      revision
      ++ work
      ++ conflicts 0 bindings references
      ++ self_relations R candidate 0 relations
      ++ self_replication R candidate
      ++ report_if (has_cycle edges) "RELATION_CYCLE" "relationships"
          "supersedes and depends_on relationships must remain acyclic")

abbrev pub same_logical : Runtime → Fields → List Fields → List Fields
unfolding logical_id keep
same_logical R candidate records =
    keep (λ item. logical_id R item == logical_id R candidate) records

abbrev pub holds_identity : Runtime → Fields → List Fields → Bool
unfolding identity
holds_identity R candidate same = any (λ item. identity R item == identity R candidate) same

-- `record_semantic_diagnostics`
unfoldable pub record_semantic_diagnostics :
    Runtime → Fields → List Fields → Result (List Diagnostic)
unfolding fresh_checks
record_semantic_diagnostics R candidate records =
    let same = same_logical R candidate records in
    if holds_identity R candidate same then ok [] else fresh_checks R candidate same records

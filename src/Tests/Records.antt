-- ===== src/Tests/Records.antt =====
-- The program on small inputs: references, and the checks of records and events.
mod Ledger
use mncs_commons.Lane.{in_texts}
use mncs_commons.Models.{child}
use mncs_commons.Json.Equality.{py_eq}
use mncs_commons.Base.{
  ◌++◌, some, pos, none, keep, ◌≢◌, ◌∷◌, String, true, false, [], ◌≡◌, refl, strip, is_space,
  is_blank, has_nul, is_hex, ◌↔◌, ℕ, ◌<◌, ◌≤◌, drop, length,
}
use mncs_commons.Json.{
  null, num, bool, text, arr, obj, nil, Fields, end, field, get, get_or, has, set, lookup, pop,
  truthy,
}
use mncs_commons.Result.{Runtime, ok, Result, err}
use mncs_commons.Canonical.{canonical_digest, plain_digest, canonical_json}
use mncs_commons.Samples.{plain}
use mncs_commons.Validation.{
  is_supported_version, valid_digest, string_checks, unknown_fields, key_checks, timestamp_checks,
  author_checks, metadata_fields, metadata_checks, indexed, each_checks, evidence_item,
  evidence_checks,
}
use mncs_commons.Validation.Common.{
  has_slash, is_extension, relation_fields, relationship_checks, subject_fields, scope_fields,
  statement_fields, provenance_fields, confidence_fields, security_fields, lifecycle_fields,
  reproduction_fields, common_record_checks,
}
use mncs_commons.Validation.Details.{
  required_reports, kind_reports, kind_checks, details_checks, record_kinds,
}
use mncs_commons.Validation.Documents.{
  target_fields, required_fields, digest_checks, digest_match, record_faults, validate_record,
  event_faults, validate_event,
}
use mncs_commons.Validation.Sound.{
  NamesTargetAndStates, IsProposedAndUntrusted, validate_record_sound, validate_event_sound,
}
use mncs_commons.Semantic.{
  bind, bindings_from, conflict, conflicts, self_relations, self_replication, revision_checks,
  fresh_checks, record_semantic_diagnostics,
}
use mncs_commons.Semantic.Graph.{
  identity, visit, Edges, out_of_fuel, logical_id, known_from, add_edge, relate, relate_all,
  edges_from, relation_edges, visit_each, search, has_cycle,
}
use mncs_commons.Semantic.Paths.{Reaches}
use mncs_commons.Semantic.Cycle.{has_cycle-Reaches, search-in_time}
use mncs_commons.Semantic.Accepted.{IsSuccessor, IsAcyclic}
use mncs_commons.Store.{
  Limits, Tail, Transaction, Store, limits, stem_of, content_file, row_bytes, bytes_of, rows_from,
  read_rows, tail_from_rows, is_last, is_fresh, rebuild_tail, load_tail, make_row,
}
use mncs_commons.Store.Add.{
  add_snapshot, require_no_pending, reloaded, with_digest, candidate_of, payloads, is_held,
  accept_record, add_record,
}
use mncs_commons.Store.Add.Full.{IsRefused, add_record-IsRefused}
use mncs_commons.Store.Sync.{Page, scan, digest_at, check_cursor, sync_since, is_wanted}
use mncs_commons.Store.Sync.Pages.{sync_since_exact, sync_since_advances, sync_since_bounded}
use mncs_commons.Store.Recover.{
  identity_checks, verify_journal, restore, recover_one, Journal, first_matching,
}
use mncs_commons.Store.Recover.Restored.{IsPlaced, recover_one-IsPlaced}
use mncs_commons.Producer.{
  or_empty, accepted, producer_references, normalize_producer_reference, read_reference,
  family_text, is_family_text, family_text_if_given, read_digest, exact_digest, read_artifact,
  read_scope, unknown_keys,
}
use mncs_commons.Work.Lineage.{revision_of, latest_from, work_semantic_diagnostics}
use mncs_commons.Work.Readers.{to_int}
use mncs_commons.Store.Journal.{put_file, perform, perform_all, journal_of, commit_writes, commit}
use mncs_commons.Store.Journal.Committed.{IsTailOf}
use mncs_commons.Store.Verify.{
  link_checks, entry_checks, payload_checks, verify_rows, referenced, orphans, verify,
}
use mncs_commons.Store.Add.Intact.{add_record-verifies}
use mncs_commons.Producer.Settled.{normalize-normalize}

program : Unit {0}
unfolding truthy strip is_space is_blank has_nul is_hex get get_or has set lookup pop family_text
    is_family_text family_text_if_given read_digest exact_digest read_artifact read_scope
    unknown_keys read_reference normalize_producer_reference
program = tt

checking : Unit {0}
unfolding is_supported_version valid_digest string_checks unknown_fields key_checks timestamp_checks
    author_checks metadata_fields metadata_checks indexed each_checks evidence_item evidence_checks
    has_slash is_extension relation_fields relationship_checks subject_fields scope_fields
    statement_fields provenance_fields confidence_fields security_fields lifecycle_fields
    reproduction_fields common_record_checks required_reports kind_reports kind_checks
    details_checks required_fields digest_checks digest_match record_faults validate_record
    event_faults validate_event canonical_digest target_fields
checking = tt

-- A hash that gives one digest.
abbrev pub hashed : Runtime
hashed = record plain {
  sha256 = λ s. "0123456789abcdef0123456789abcdef0123456789abcdef0123456789abcdef";
}

abbrev own_digest : String
own_digest = "sha256:0123456789abcdef0123456789abcdef0123456789abcdef0123456789abcdef"

abbrev padded_reference : Fields
padded_reference = field "producer" (text " lab ") (
    field "recordKind" (text "run")
      (field "schemaVersion" (text "v1") (field "stableId" (text "run:1") end)))

abbrev settled_reference : Fields
settled_reference = field "schema" (text "commons.mncs.dev/producer-reference/v0alpha1") (
    field "producer" (text "lab") (
      field "recordKind" (text "run")
        (field "schemaVersion" (text "v1") (field "stableId" (text "run:1") end))))

normalize-normalize_example : normalize_producer_reference settled_reference ≡ ok settled_reference
unfolding program
normalize-normalize_example = normalize-normalize padded_reference settled_reference refl

abbrev agent : Fields
agent = field "type" (text "agent") (field "id" (text "agent:1") end)

-- A record of an observation, with its digest.
abbrev observation : Fields
observation = field "apiVersion" (text "commons.mncs.dev/v0alpha1") (
    field "kind" (text "Observation") (
      field "contentDigest" (text own_digest) (
        field "metadata"
          (obj (
            field "recordId" (text "obs:1")
              (field "createdAt" (text "2026-01-01T00:00:00Z") (field "author" (obj agent) end))))
          (field "subject" (obj (field "type" (text "tool") (field "identity" (text "tool:1") end)))
            (field "scope" (obj end) (
              field "statement" (obj (field "summary" (text "it ran") end)) (
                field "evidence" (arr nil) (
                  field "dependencies" (arr nil) (
                    field "affectedContracts" (arr nil) (
                      field "provenance" (obj (field "producer" (obj agent) end)) (
                        field "confidence"
                          (obj (field "level" (text "high") (field "rationale" (text "seen") end)))
                          (field "security"
                            (obj (
                              field "sensitivity" (text "public") (
                                field "executableAttachments" (bool false)
                                  (field "instructionsAreUntrusted" (bool true) end))))
                            (field "lifecycle" (obj (field "initialState" (text "proposed") end)) (
                              field "relationships" (arr nil) (
                                field "details" (obj (field "outcome" (text "PASS") end))
                                  end)))))))))))))))

clean : validate_record hashed (obj observation) ≡ ok []
unfolding program checking
clean = refl

validate_record_sound_example :
    (get "contentDigest" observation ≡ text (canonical_digest hashed observation))
    × (valid_digest (get "contentDigest" observation) ≡ true)
    × (in_texts record_kinds (get "kind" observation) ≡ true)
    × IsProposedAndUntrusted observation
unfolding program checking
validate_record_sound_example = validate_record_sound hashed observation refl refl

abbrev review : Fields
review = field "apiVersion" (text "commons.mncs.dev/v0alpha1") (
    field "kind" (text "LifecycleEvent") (
      field "contentDigest" (text own_digest) (
        field "metadata"
          (obj (field "createdAt" (text "2026-01-01T00:00:00Z") (field "author" (obj agent) end)))
          (field "target" (obj (field "contentDigest" (text own_digest) end)) (
            field "transition"
              (obj (field "from" (text "proposed") (field "to" (text "reproduced") end)))
              (field "authority"
                (obj (
                  field "domain" (text "lab")
                    (field "actor" (text "agent:1") (field "rationale" (text "ran again") end))))
                (field "evidence" (arr nil) end)))))))

validate_event_sound_example :
    (get "contentDigest" review ≡ text (canonical_digest hashed review))
    × (valid_digest (get "contentDigest" review) ≡ true)
    × NamesTargetAndStates review
unfolding program checking
validate_event_sound_example = validate_event_sound hashed review refl refl

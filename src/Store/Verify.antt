-- ===== src/Store/Verify.antt =====
-- store.py: `verify`, the check of the whole store.
pub mod Extended
pub mod Intact
pub mod Placed
pub mod Grown
use mncs_commons.Base.{
  ℕ, ◌+◌, pos, String, ◌<>◌, not, ◌&&◌, Option, none, some, List, [], ◌∷◌, ◌++◌, ◌==◌, contains,
  if◌then◌else◌,
}
use mncs_commons.Json.{
  Json, null, num, obj, Fields, end, field, get, equals, is_mapping, is_text, fields_of,
}
use mncs_commons.Json.Equality.{py_eq}
use mncs_commons.Result.{Runtime, Result, ok, err, refused, uncaught, ◌>>=◌}
use mncs_commons.Models.{Diagnostic, diagnostic, report_if, str, valid}
use mncs_commons.Canonical.{canonical_json, canonical_digest, plain_digest}
use mncs_commons.Validation.{indexed}
use mncs_commons.Validation.Documents.{validate_record, validate_event}
use mncs_commons.Store.{Limits, Transaction, Files, Store, content_file, read_rows}

-- `{key: row.get(key) for key in …}`
abbrev pub body_of : Fields → Fields
body_of row = field "sequence" (get "sequence" row) (
    field "entryType" (get "entryType" row)
      (field "previousDigest" (get "previousDigest" row) (field "payload" (get "payload" row) end)))

-- The links of one row: its number, the digest before it and its own.
unfoldable pub link_checks : Runtime → String → ℕ → Json → Fields → List Diagnostic
link_checks R path n previous row =
    let expected = plain_digest R (body_of row) in
    report_if (not (py_eq (get "sequence" row) (num (pos n)))) "SEQUENCE_MISMATCH" path
      "ledger sequence is not contiguous"
    ++ report_if (not (py_eq (get "previousDigest" row) previous)) "PREVIOUS_DIGEST_MISMATCH" path
        "ledger hash link is broken"
    ++ report_if (not (equals (get "entryDigest" row) expected)) "ENTRY_DIGEST_MISMATCH" path
        ("expected " <> expected)

abbrev relocated : String → List Diagnostic → List Diagnostic
relocated path [] = []
relocated path (d ∷ ds) = diagnostic d.code (path <> "." <> d.path) d.message ∷ relocated path ds

abbrev file_checks : String → Option String → String → List Diagnostic
file_checks path none content =
    diagnostic "CONTENT_FILE_MISSING" path "content file is missing" ∷ []
file_checks path (some held) content =
    report_if (not (held == content)) "CONTENT_FILE_MISMATCH" path "content file differs"

-- The checks of a record's or an event's row, after its validation.
unfoldable pub entry_checks :
    Runtime → Store → String → String → Fields → List Diagnostic → List Diagnostic
unfolding content_file
entry_checks R s path entry_type payload report =
    let digest = get "contentDigest" payload in
    (if valid report then [] else relocated path report)
    ++ report_if (is_text digest && not (equals digest (canonical_digest R payload)))
        "CONTENT_DIGEST_MISMATCH" path ("content digest for " <> entry_type <> " is wrong")
    ++ file_checks path (content_file s entry_type (str R digest)) (canonical_json (obj payload))

-- `store-snapshot` of a snapshot row
abbrev pub snapshot_schema : String
snapshot_schema = "commons.mncs.dev/store-snapshot/v0alpha1"

unfoldable pub payload_checks : Runtime → Store → String → Json → Json → Result (List Diagnostic)
unfolding entry_checks
payload_checks R s path entry_type (obj payload) =
    let as_record = (do
      report ← validate_record R (obj payload)
      ok (entry_checks R s path "record" payload report)) in
    if equals entry_type "snapshot"
    then ok (
        report_if (not (equals (get "schema_version" payload) snapshot_schema)) "SNAPSHOT_INVALID"
          path "snapshot schema is unsupported")
    else if equals entry_type "record"
    then as_record
    else if equals entry_type "event"
    then ok (entry_checks R s path "event" payload (validate_event R (obj payload)))
    else ok
        (diagnostic "UNKNOWN_ENTRY_TYPE" path "entry type must be record, event, or snapshot" ∷ [])
payload_checks R s path entry_type _ =
    ok (diagnostic "PAYLOAD_INVALID" path "ledger payload must be an object" ∷ [])

-- The loop over the rows, from the number and the digest that the next one must have.
unfoldable pub verify_rows : Runtime → Store → ℕ → Json → List Fields → Result (List Diagnostic)
unfolding indexed link_checks payload_checks
verify_rows R s n previous [] = ok []
verify_rows R s n previous (row ∷ rows) =
    let path = indexed "ledger.jsonl" n in
    do
      content ← payload_checks R s path (get "entryType" row) (get "payload" row)
      rest ← verify_rows R s (n + 1) (get "entryDigest" row) rows
      ok (link_checks R path n previous row ++ content ++ rest)

-- `referenced_records` or `referenced_events`
unfoldable pub referenced : Runtime → String → List Fields → List String
referenced R entry_type [] = []
referenced R entry_type (row ∷ rows) =
    let rest = referenced R entry_type rows in
    let payload = get "payload" row in
    if is_mapping payload && equals (get "entryType" row) entry_type
    then str R (get "contentDigest" (fields_of payload)) ∷ rest
    else rest

unfoldable pub orphans : String → String → List String → Files → List Diagnostic
orphans code path digests [] = []
orphans code path digests ((stem, content) ∷ rest) =
    report_if (not (contains digests ("sha256:" <> stem))) code (path <> stem <> ".json")
      "content file is not linked from ledger"
    ++ orphans code path digests rest

abbrev pub pending : List Transaction → List Diagnostic
pending [] = []
pending (t ∷ ts) =
    diagnostic "PENDING_TRANSACTION" t.name
      "transaction is recoverable or must be inspected explicitly"
    ∷ pending ts

abbrev pub checked_rows : Runtime → Store → Result (List Fields) → Result (List Diagnostic)
unfolding verify_rows referenced orphans
checked_rows R s (err (refused code message)) =
    ok (diagnostic "LEDGER_READ_FAILED" "ledger.jsonl" message ∷ [])
checked_rows R s (err (uncaught name)) = err (uncaught name)
checked_rows R s (ok rows) = do
  found ← verify_rows R s 1 null rows
  ok (
      pending s.transactions
      ++ found
      ++ orphans "ORPHAN_RECORD" "records/" (referenced R "record" rows) s.records
      ++ orphans "ORPHAN_EVENT" "events/" (referenced R "event" rows) s.events)

-- `verify`: the store is valid where there is no diagnostic.
unfoldable pub verify : Runtime → Limits → Store → Result (List Diagnostic)
unfolding read_rows verify_rows referenced orphans
verify R L s = checked_rows R s (read_rows R L s)

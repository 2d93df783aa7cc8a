-- ===== src/Store/Add.antt =====
-- store.py: adding records, events and snapshots.
pub mod Intact
pub mod Full
use mncs_commons.Base.{
  String, ◌<>◌, Bool, true, false, not, ◌&&◌, Option, none, some, List, [], ◌∷◌, if◌then◌else◌,
}
use mncs_commons.Json.{
  Json, text, obj, Fields, end, get, get_or, has, set, equals, is_mapping, fields_of,
}
use mncs_commons.Json.Equality.{py_eq}
use mncs_commons.Result.{Runtime, Result, ok, err, uncaught, require, ◌>>=◌, ◌>>◌}
use mncs_commons.Models.{Diagnostic, str, valid, child, as_dict}
use mncs_commons.Canonical.{canonical_json, canonical_digest}
use mncs_commons.Lifecycle.{derive_lifecycle, validate_transition, transition_state, is_empty}
use mncs_commons.Semantic.{record_semantic_diagnostics}
use mncs_commons.Validation.Documents.{validate_record, validate_event}
use mncs_commons.Store.{
  Limits, Store, store_error, store_refuses, content_file, read_rows, load_tail, make_row, bytes_of,
}
use mncs_commons.Store.Journal.{commit, collides, perform_all, append_row, write_tail, tail_after}

-- `_require_no_pending`
unfoldable pub require_no_pending : Store → Result (Unit {0})
require_no_pending s = elim s.transactions [
  | [] ↦ ok tt
  | _ ∷ _ ↦ store_refuses "pending transaction requires explicit store recover"
]

-- `json.loads(canonical_json(value))`
abbrev loaded_or_raise : Option Json → Result Fields
loaded_or_raise none = err (uncaught "JSONDecodeError")
loaded_or_raise (some v) = as_dict v

unfoldable pub reloaded : Runtime → Fields → Result Fields
reloaded R value = loaded_or_raise (R.loads (canonical_json (obj value)))

-- `_with_digest`
unfoldable pub with_digest : Runtime → Fields → Result Fields
unfolding reloaded
with_digest R value = do
  result ← reloaded R value
  reloaded R (set "contentDigest" (text (canonical_digest R result)) result)

-- What is validated and added for a given value.
unfoldable pub candidate_of : Runtime → Fields → Result Fields
unfolding with_digest
candidate_of R value =
    let made = with_digest R value in if has "contentDigest" value then ok value else made

-- `"; ".join(item.message for item in …)`
abbrev messages : List Diagnostic → String
messages [] = ""
messages (d ∷ []) = d.message
messages (d ∷ e ∷ ds) = d.message <> "; " <> messages (e ∷ ds)

-- `_payloads_from_rows`
unfoldable pub payloads : String → List Fields → List Fields
payloads entry_type [] = []
payloads entry_type (row ∷ rows) =
    let rest = payloads entry_type rows in
    let payload = get "payload" row in
    if equals (get "entryType" row) entry_type && is_mapping payload
    then fields_of payload ∷ rest
    else rest

-- Whether a row of that type holds the digest; its payload is read as a dict.
unfoldable pub is_held : String → String → List Fields → Result Bool
is_held entry_type digest [] = ok false
is_held entry_type digest (row ∷ rows) =
    let rest = is_held entry_type digest rows in
    let here = (do
      payload ← child "payload" row
      if equals (get "contentDigest" payload) digest then ok true else rest) in
    if equals (get "entryType" row) entry_type then here else rest

-- `add_record`, up to the commit: the candidate, its digest, and whether the ledger holds it.
unfoldable pub accept_record : Runtime → Limits → Store → Fields → Result (Fields × Bool)
unfolding require_no_pending candidate_of content_file read_rows payloads is_held
accept_record R L s value = do
  require_no_pending s
  candidate ← candidate_of R value
  report ← validate_record R (obj candidate)
  require (valid report) store_error ("record rejected: " <> messages report)
  let digest = str R (get "contentDigest" candidate) in
      (do
        require (not (collides (content_file s "record" digest) (canonical_json (obj candidate))))
            store_error ("record path collision for " <> digest)
        rows ← read_rows R L s
        faults ← record_semantic_diagnostics R candidate (payloads "record" rows)
        require (is_empty faults) store_error ("record rejected: " <> messages faults)
        held ← is_held "record" digest rows
        ok (candidate, held))

-- `add_record`: the store after it, and the digest of the record.
unfoldable pub add_record : Runtime → Limits → String → Store → Fields → Result (Store × String)
unfolding accept_record commit
add_record R L name s value = do
  (candidate, held) ← accept_record R L s value
  let digest = str R (get "contentDigest" candidate) in
      let committed = (do after ← commit R L s name "record" candidate; ok (after, digest)) in
      if held then ok (s, digest) else committed

-- `next((…), None)` over the records with a digest.
abbrev with_content_digest : Json → List Fields → Option Fields
with_content_digest digest [] = none
with_content_digest digest (value ∷ values) =
    if py_eq (get "contentDigest" value) digest
    then some value
    else with_content_digest digest values

abbrev target_or_raise : Option Fields → Result Fields
target_or_raise none = store_refuses "lifecycle event target is not present locally"
target_or_raise (some value) = ok value

-- The domain that `add_event` projects the lifecycle in.
unfoldable pub domain_asked : Runtime → Fields → String
domain_asked R candidate = elim (get_or "authority" (obj end) candidate) [
  | obj authority ↦ str R (get_or "domain" (text "") authority)
  | _ ↦ ""
]

-- The part of `add_event` after an event is known to be new: its transition from the state that its
-- target has in its domain.
unfoldable pub check_transition : Runtime → List Fields → Fields → Result (Unit {0})
unfolding payloads domain_asked
check_transition R rows candidate = do
  target ← child "target" candidate
  value ←
      target_or_raise
        (with_content_digest (text (str R (get "contentDigest" target))) (payloads "record" rows))
  current ← derive_lifecycle R value (payloads "event" rows) (some (domain_asked R candidate))
  transition ← child "transition" candidate
  let report =
        validate_transition R (transition_state current) (str R (get "to" transition)) candidate in
      require (valid report) store_error ("event transition rejected: " <> messages report)

-- `add_event`: the store after it, and the digest of the event.
unfoldable pub add_event : Runtime → Limits → String → Store → Fields → Result (Store × String)
unfolding require_no_pending candidate_of read_rows is_held check_transition commit
add_event R L name s value = do
  require_no_pending s
  candidate ← candidate_of R value
  let report = validate_event R (obj candidate) in
      (do
        require (valid report) store_error ("event rejected: " <> messages report)
        rows ← read_rows R L s
        let digest = str R (get "contentDigest" candidate) in
            (do
              held ← is_held "event" digest rows
              let committed = (do
                check_transition R rows candidate
                after ← commit R L s name "event" candidate
                ok (after, digest)) in
                  if held then ok (s, digest) else committed))

-- `add_snapshot`: a row without a content file, and without a journal.
unfoldable pub add_snapshot : Runtime → Limits → Store → Fields → Result (Store × Fields)
unfolding require_no_pending load_tail make_row perform_all bytes_of
add_snapshot R L s payload = do
  require_no_pending s
  (tail, loaded) ← load_tail R L s
  let row = make_row R "snapshot" payload tail in
      ok (perform_all (append_row row ∷ write_tail (tail_after R loaded row tail) ∷ []) loaded, row)

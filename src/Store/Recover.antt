-- ===== src/Store/Recover.antt =====
-- store.py: the check of a journal, and the recovery of transactions that were cut off.
pub mod Restored
pub mod Appended
use mncs_commons.Base.{
  contains, ◌+◌, pos, String, ◌<>◌, Bool, true, false, not, ◌&&◌, ◌||◌, Option, none, some, List,
  [], ◌∷◌, ◌++◌, ◌==◌, all, last?, length, leb, if◌then◌else◌,
}
use mncs_commons.Json.{Json, null, num, text, obj, Fields, get, has, equals, is_mapping, fields_of}
use mncs_commons.Json.Equality.{py_eq}
use mncs_commons.Result.{Runtime, Result, ok, err, Error, refused, uncaught, require, ◌>>=◌, ◌>>◌}
use mncs_commons.Models.{Diagnostic, diagnostic, str}
use mncs_commons.Canonical.{canonical_json, canonical_digest, plain_digest}
use mncs_commons.Work.Readers.{to_int}
use mncs_commons.Store.{Limits, Transaction, Store, store_error, content_file, read_rows, bytes_of}
use mncs_commons.Store.Journal.{
  Write, perform_all, write_content, append_row, write_tail, remove_transaction, content_path,
  collides,
}
use mncs_commons.Store.Verify.{verify}

-- `journal_path.read_bytes()`
abbrev read_journal : Option Fields → Result Fields
read_journal none = err (uncaught "FileNotFoundError")
read_journal (some journal) = ok journal

-- `value[key].encode("utf-8")`
abbrev encoded : Json → Result String
encoded (text s) = ok s
encoded _ = err (uncaught "AttributeError")

abbrev loads_or_raise : Option Json → Result Json
loads_or_raise none = err (uncaught "JSONDecodeError")
loads_or_raise (some v) = ok v

abbrev required_keys : List String
required_keys = "entryType" ∷ "contentDigest" ∷ "contentPath" ∷ "content" ∷ "ledgerRow" ∷ []

-- What a journal that was verified holds.
pub record Journal : Type 0 where
  pub entry_type : String
  pub digest : String
  pub content : String
  pub payload : Fields
  pub row : Fields
  pub previous : Json

abbrev is_entry_type : Json → Bool
is_entry_type v = equals v "record" || equals v "event"

abbrev same_parts : List String → List String → Bool
same_parts [] [] = true
same_parts (p ∷ ps) (q ∷ qs) = p == q && same_parts ps qs
same_parts _ _ = false

-- The first part of a path is one of the two directories of content files.
abbrev is_in_content : List String → Bool
is_in_content [] = false
is_in_content (first ∷ rest) = first == "records" || first == "events"

-- The tests of a journal's path: it stays inside the store, and is the path of the digest. (For a
-- digest that begins with a slash `relative_to` raises; here it fails a later test.)
unfoldable pub path_checks : Runtime → String → Fields → Result (Unit {0})
path_checks R name value = do
  let (absolute, parts) = R.path (str R (get "contentPath" value))
  require (not absolute && not (contains parts "..") && is_in_content parts) store_error
      ("unsafe transaction content path: " <> name)
  let expected =
        R.path (content_path (str R (get "entryType" value)) (str R (get "contentDigest" value))) in
      require (same_parts parts expected.1) store_error
        ("transaction content path mismatch: " <> name)

-- The tests of a journal that hold its path, content and row against each other.
unfoldable pub identity_checks :
    Runtime → String → Fields → String → Fields → Fields → Result (Unit {0})
unfolding path_checks
identity_checks R name value content payload row = do
  path_checks R name value
  require
      (canonical_json (obj payload) == content
        && py_eq (get "contentDigest" payload) (get "contentDigest" value))
      store_error ("transaction content identity mismatch: " <> name)
  require (equals (get "contentDigest" value) (canonical_digest R payload)) store_error
      ("transaction content digest mismatch: " <> name)
  require (equals (get "ledgerRowBytesDigest" value) (plain_digest R row)) store_error
      ("transaction ledger identity mismatch: " <> name)
  require
      (py_eq (get "entryType" row) (get "entryType" value)
        && py_eq (get "payload" row) (obj payload))
      store_error ("transaction ledger payload mismatch: " <> name)

-- `_verify_journal`
unfoldable pub verify_journal : Runtime → Limits → Transaction → Result Journal
unfolding identity_checks
verify_journal R L t = do
  value ← read_journal t.journal
  require (leb (R.size (canonical_json (obj value))) L.transaction_bytes) store_error
      ("transaction journal exceeds bounded read limit: " <> t.name)
  require (py_eq (get "version" value) (num (pos 1))) store_error
      ("unsupported transaction journal: " <> t.name)
  require (all (λ k. has k value) required_keys) store_error
      ("incomplete transaction journal: " <> t.name)
  content ← encoded (get "content" value)
  payload ← loads_or_raise (R.loads content)
  require (is_mapping payload && is_mapping (get "ledgerRow" value)) store_error
      ("invalid transaction payload: " <> t.name)
  require (is_entry_type (get "entryType" value)) store_error
      ("invalid transaction entry type: " <> t.name)
  identity_checks R t.name value content (fields_of payload) (fields_of (get "ledgerRow" value))
  ok (record {
    entry_type = str R (get "entryType" value);
    digest = str R (get "contentDigest" value);
    content = content;
    payload = fields_of payload;
    row = fields_of (get "ledgerRow" value);
    previous = get "previousEntryDigest" value;
  })

-- `rows[-1].get("entryDigest") if rows else None`
abbrev pub last_entry : Option Fields → Json
last_entry none = null
last_entry (some row) = get "entryDigest" row

abbrev pub first_matching : Json → List Fields → Option Fields
first_matching digest [] = none
first_matching digest (row ∷ rows) =
    if py_eq (get "entryDigest" row) digest then some row else first_matching digest rows

abbrev pub content_write : Journal → Option String → List Write
content_write j none = write_content j.entry_type j.digest j.content ∷ []
content_write j (some held) = []

abbrev pub holds : Option String → String → Bool
holds none content = false
holds (some held) content = held == content

-- A row that is in the ledger already, or is appended with its content.
unfoldable pub restore : Runtime → Store → String → Journal → Option Fields → Result Store
unfolding content_file bytes_of perform_all
restore R s name j (some row) = do
  require (py_eq (obj row) (obj j.row)) store_error
      ("transaction conflicts with committed ledger: " <> name)
  ok s
restore R s name j none = do
  require
      (py_eq (last_entry (last? s.rows)) j.previous
        && py_eq (get "sequence" j.row) (num (pos (length s.rows + 1))))
      store_error ("transaction cannot be safely recovered: " <> name)
  require (not (collides (content_file s j.entry_type j.digest) j.content)) store_error
      ("transaction content collision: " <> name)
  sequence ← to_int R (get "sequence" j.row)
  ok (
      perform_all
        (content_write j (content_file s j.entry_type j.digest)
          ++ append_row j.row
            ∷ write_tail (record {
              sequence = sequence;
              entry_digest = get "entryDigest" j.row;
              ledger_bytes = bytes_of R (s.rows ++ j.row ∷ []);
            })
            ∷ [])
        s)

-- `_recover_one_locked`
unfoldable pub recover_one : Runtime → Limits → Store → Transaction → Result Store
unfolding verify_journal read_rows restore content_file perform_all
recover_one R L s t = do
  j ← verify_journal R L t
  rows ← read_rows R L s
  restored ← restore R s t.name j (first_matching (get "entryDigest" j.row) rows)
  require (holds (content_file restored j.entry_type j.digest) j.content) store_error
      ("transaction content is not committed: " <> t.name)
  ok (perform_all (remove_transaction t.name ∷ []) restored)

-- What `except (OSError, StoreError, ValueError, json.JSONDecodeError)` catches.
abbrev is_caught : Error → Bool
is_caught (refused code message) = true
is_caught (uncaught name) =
    name == "FileNotFoundError" || name == "JSONDecodeError" || name == "ValueError"

abbrev message_of : Error → String
message_of (refused code message) = message
message_of (uncaught name) = name

-- The loop of `recover`: the store after it, and the diagnostic of a transaction that failed.
unfoldable pub recover_each :
    Runtime → Limits → Store → List Transaction → Result (Store × List Diagnostic)
unfolding recover_one
recover_each R L s [] = ok (s, [])
recover_each R L s (t ∷ ts) = elim (recover_one R L s t) [
  | ok recovered ↦ recover_each R L recovered ts
  | err raised ↦
      if is_caught raised
      then ok (s, diagnostic "RECOVERY_FAILED" t.name (message_of raised) ∷ [])
      else err raised
]

abbrev verified_unless :
    Runtime → Limits → Store → List Diagnostic → Result (Store × List Diagnostic)
unfolding verify
verified_unless R L s (d ∷ ds) = ok (s, d ∷ ds)
verified_unless R L s [] = do found ← verify R L s; ok (s, found)

-- `recover`
unfoldable pub recover : Runtime → Limits → Store → Result (Store × List Diagnostic)
unfolding recover_each verify
recover R L s = do
  (recovered, failed) ← recover_each R L s s.transactions
  verified_unless R L recovered failed

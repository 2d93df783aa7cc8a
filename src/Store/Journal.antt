-- ===== src/Store/Journal.antt =====
-- store.py: a commit as the writes that it makes, one after the other, the check of a journal, and
-- the recovery of a transaction that was cut off.
pub mod Committed
use mncs_commons.Base.{
  suc_ℤ, ◌+◌, pos, String, ◌<>◌, Bool, false, not, Option, none, some, List, [], ◌∷◌, ◌++◌, ◌==◌,
  leb, if◌then◌else◌, is_some,
}
use mncs_commons.Json.{num, text, obj, Fields, end, field, get}
use mncs_commons.Result.{Runtime, Result, ok, require, ◌>>=◌, ◌>>◌}
use mncs_commons.Models.{str}
use mncs_commons.Canonical.{canonical_json, plain_digest}
use mncs_commons.Store.{
  Limits, Tail, Transaction, Files, Store, store_error, stem_of, content_file, row_bytes, bytes_of,
  load_tail, make_row,
}

-- One write to the disk.
pub data Write : Type 0 where
  make_directory : String → Write
  write_journal : String → Fields → Write
  write_staged : String → String → Write
  write_content : String → String → String → Write
  append_row : Fields → Write
  write_tail : Tail → Write
  remove_transaction : String → Write

-- `_atomic_write` of a file.
unfoldable pub put_file : String → String → Files → Files
put_file stem content [] = (stem, content) ∷ []
put_file stem content ((k, old) ∷ rest) =
    if k == stem then (k, content) ∷ rest else (k, old) ∷ put_file stem content rest

abbrev with_journal : String → Fields → List Transaction → List Transaction
with_journal name journal [] = []
with_journal name journal (t ∷ ts) =
    if t.name == name
    then record t { journal = some journal } ∷ ts
    else t ∷ with_journal name journal ts

abbrev with_staged : String → String → List Transaction → List Transaction
with_staged name content [] = []
with_staged name content (t ∷ ts) =
    if t.name == name
    then record t { content = some content } ∷ ts
    else t ∷ with_staged name content ts

abbrev pub without : String → List Transaction → List Transaction
without name [] = []
without name (t ∷ ts) = if t.name == name then ts else t ∷ without name ts

unfoldable pub perform : Write → Store → Store
unfolding put_file stem_of
perform (make_directory name) s = record s {
  transactions = s.transactions ++ record { name = name; journal = none; content = none } ∷ [];
}
perform (write_journal name journal) s = record s {
  transactions = with_journal name journal s.transactions;
}
perform (write_staged name content) s = record s {
  transactions = with_staged name content s.transactions;
}
perform (write_content entry_type digest content) s =
    if entry_type == "record"
    then record s { records = put_file (stem_of digest) content s.records }
    else record s { events = put_file (stem_of digest) content s.events }
perform (append_row row) s = record s { rows = s.rows ++ row ∷ [] }
perform (write_tail tail) s = record s { tail = some tail }
perform (remove_transaction name) s = record s { transactions = without name s.transactions }

unfoldable pub perform_all : List Write → Store → Store
unfolding perform
perform_all [] s = s
perform_all (write ∷ writes) s = perform_all writes (perform write s)

-- The path that a journal names, relative to the store.
abbrev pub content_path : String → String → String
unfolding stem_of
content_path entry_type digest =
    (if entry_type == "record" then "records/" else "events/") <> stem_of digest <> ".json"

-- The journal of `_stage_transaction`.
unfoldable pub journal_of : Runtime → Store → String → Fields → Fields → Tail → Fields
unfolding bytes_of row_bytes stem_of
journal_of R s entry_type payload row tail =
    let digest = str R (get "contentDigest" payload) in
    field "version" (num (pos 1)) (
      field "entryType" (text entry_type) (
        field "contentDigest" (get "contentDigest" payload) (
          field "contentPath" (text (content_path entry_type digest)) (
            field "content" (text (canonical_json (obj payload))) (
              field "ledgerRow" (obj row) (
                field "ledgerRowBytesDigest" (text (plain_digest R row)) (
                  field "previousEntryDigest" tail.entry_digest (
                    field "sequence" (num (suc_ℤ tail.sequence)) (
                      field "ledgerBytesAfter" (num (pos (bytes_of R s.rows + row_bytes R row)))
                        end)))))))))

-- The tail that `_finish_transaction` writes once the row is there.
abbrev pub tail_after : Runtime → Store → Fields → Tail → Tail
unfolding bytes_of
tail_after R s row tail = record {
  sequence = suc_ℤ tail.sequence;
  entry_digest = get "entryDigest" row;
  ledger_bytes = bytes_of R (s.rows ++ row ∷ []);
}

-- The writes of `_stage_transaction`, then those of `_finish_transaction`.
unfoldable pub commit_writes :
    Runtime → Store → String → String → Fields → Fields → Tail → List Write
unfolding journal_of bytes_of content_file
commit_writes R s name entry_type payload row tail =
    let digest = str R (get "contentDigest" payload) in
    let content = canonical_json (obj payload) in
    let after =
      append_row row ∷ write_tail (tail_after R s row tail) ∷ remove_transaction name ∷ [] in
    make_directory name
    ∷ write_journal name (journal_of R s entry_type payload row tail)
    ∷ write_staged name content
    ∷ (if is_some (content_file s entry_type digest)
        then after
        else write_content entry_type digest content ∷ after)

-- The file under the content's path holds another text.
abbrev pub collides : Option String → String → Bool
collides none content = false
collides (some old) content = not (old == content)

-- `_commit`, under the name that `mkdtemp` gives. A collision is found after the staging, whose
-- writes stay on the disk.
unfoldable pub commit : Runtime → Limits → Store → String → String → Fields → Result Store
unfolding load_tail make_row journal_of commit_writes perform_all content_file
commit R L s name entry_type payload = do
  (tail, loaded) ← load_tail R L s
  let row = make_row R entry_type payload tail in
      (do
        require
            (leb (R.size (canonical_json (obj (journal_of R loaded entry_type payload row tail))))
              L.transaction_bytes)
            store_error "transaction exceeds bounded journal size"
        require
            (not (
              collides (content_file loaded entry_type (str R (get "contentDigest" payload)))
                (canonical_json (obj payload))))
            store_error "content path collision"
        ok (perform_all (commit_writes R loaded name entry_type payload row tail) loaded))

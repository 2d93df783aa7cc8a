-- ===== src/Store/Sync.antt =====
-- store.py: reading the ledger in slices (`sync_since`), and finding a document by its digest.
pub mod Numbered
pub mod Slices
pub mod Cursors
pub mod Pages
use mncs_commons.Base.{
  true, false, ℕ, zero, suc, ◌+◌, ◌-◌, ℤ, pos, negsuc, String, Bool, true, not, ◌&&◌, ◌||◌, Option,
  none, some, List, [], ◌∷◌, drop, length, leb, ltb, suc_ℤ, ltb_ℤ, eqb_ℤ, if◌then◌else◌,
}
use mncs_commons.Json.{
  Json, null, num, text, Fields, end, field, get, get_or, equals, is_mapping, is_null, fields_of,
}
use mncs_commons.Json.Equality.{py_eq}
use mncs_commons.Result.{Runtime, Result, ok, err, uncaught, require, reject, ◌>>=◌, ◌>>◌}
use mncs_commons.Models.{str}
use mncs_commons.Work.Readers.{to_int}
use mncs_commons.Store.{Limits, Store, store_error, store_refuses, read_rows}

-- `_cursor_for`, where the store's identity (the digest of its path) is given.
abbrev pub cursor_for : String → ℤ → Json → Fields
cursor_for store_id sequence entry_digest =
    field "storeId" (text store_id)
      (field "sequence" (num sequence) (field "entryDigest" entry_digest end))

-- What `sync_since` returns, but for the constant `exchangeVersion`.
pub record Page : Type 0 where
  pub entries : List Fields
  pub next_cursor : Fields
  pub has_more : Bool
  pub truncated : Bool

-- Whether a row is of the kind asked for.
abbrev pub is_wanted : Option String → Fields → Bool
is_wanted none row = true
is_wanted (some kind) row =
    let payload = get "payload" row in
    is_mapping payload && equals (get "kind" (fields_of payload)) kind

-- The loop of `sync_since`: the rows selected, and the number of the last row scanned, where that
-- was `scanned` before and `room` more rows fit.
unfoldable pub scan : Runtime → Option String → ℤ → ℕ → List Fields → Result (List Fields × ℤ)
scan R kind scanned room [] = ok ([], scanned)
scan R kind scanned zero (row ∷ rows) = ok ([], scanned)
scan R kind scanned (suc room) (row ∷ rows) = do
  number ← to_int R (get_or "sequence" (num (suc_ℤ scanned)) row)
  elim (is_wanted kind row) [
    | true ↦ do (more, last) ← scan R kind number room rows; ok (row ∷ more, last)
    | false ↦ scan R kind number (suc room) rows
  ]

-- `rows[index]`, from the front.
abbrev pub item : ℕ → List Fields → Result Fields
item n [] = err (uncaught "IndexError")
item zero (row ∷ rows) = ok row
item (suc n) (row ∷ rows) = item n rows

abbrev from_end : ℕ → List Fields → Result Fields
from_end n rows =
    if leb (n + 2) (length rows)
    then item (length rows - (n + 2)) rows
    else err (uncaught "IndexError")

-- The entry digest of `rows[scanned - 1] if scanned else None`, as it is, or as a text.
unfoldable pub digest_at : List Fields → ℤ → (Fields → Json) → Result Json
digest_at rows (pos zero) read = ok null
digest_at rows (pos (suc n)) read = do row ← item n rows; ok (read row)
digest_at rows (negsuc n) read = do row ← from_end n rows; ok (read row)

abbrev pub sequence_or_refuse : Result ℤ → Result ℤ
sequence_or_refuse (ok n) = ok n
sequence_or_refuse (err raised) = store_refuses "INVALID_CURSOR: sequence is not an integer"

-- The tests of a cursor: where the slice begins.
unfoldable pub check_cursor : Runtime → String → List Fields → Option Fields → Result ℤ
unfolding digest_at
check_cursor R store_id rows none = ok (pos 0)
check_cursor R store_id rows (some cursor) = do
  require (equals (get "storeId" cursor) store_id) store_error
      "INVALID_CURSOR: cursor belongs to another store"
  sequence ← sequence_or_refuse (to_int R (get_or "sequence" (num (negsuc 0)) cursor))
  let entry_digest = get "entryDigest" cursor in
      (do
        reject (ltb_ℤ sequence (pos 0) || ltb_ℤ (pos (length rows)) sequence) store_error
            "STALE_CURSOR: cursor sequence is outside the ledger"
        reject (eqb_ℤ sequence (pos 0) && not (is_null entry_digest)) store_error
            "INVALID_CURSOR: empty cursor must not have an entry digest"
        held ← digest_at rows sequence (get "entryDigest")
        reject (not (eqb_ℤ sequence (pos 0)) && not (py_eq held entry_digest)) store_error
            "STALE_CURSOR: cursor entry digest does not match ledger"
        ok sequence)

-- `rows[sequence:]` of a sequence that was checked.
abbrev pub rows_after : ℤ → List Fields → List Fields
rows_after (pos n) rows = drop n rows
rows_after (negsuc n) rows = rows

abbrev pub page_of : String → ℕ → List Fields → List Fields → ℤ → Json → Page
page_of store_id limit rows selected scanned entry_digest = record {
  entries = selected;
  next_cursor = cursor_for store_id scanned entry_digest;
  has_more = ltb_ℤ scanned (pos (length rows));
  truncated = leb limit (length selected) && ltb_ℤ scanned (pos (length rows));
}

-- `sync_since`
unfoldable pub sync_since :
    Runtime → Limits → String → Store → Option Fields → ℕ → Option String → Result Page
unfolding read_rows scan check_cursor digest_at
sync_since R L store_id s cursor limit kind = do
  reject (ltb limit 1 || ltb L.sync_entries limit) store_error "sync limit is out of bounds"
  rows ← read_rows R L s
  sequence ← check_cursor R store_id rows cursor
  (selected, scanned) ← scan R kind sequence limit (rows_after sequence rows)
  entry_digest ← digest_at rows scanned (λ row. text (str R (get "entryDigest" row)))
  ok (page_of store_id limit rows selected scanned entry_digest)

-- ===== src/Store.antt =====
-- src/mncs_commons/store.py: the files of a store, its bounds, and the ledger with its cached tail.
-- A ledger line, a journal and the tail file are held as the documents that their texts stand for,
-- the content files as texts. The store is initialized, and the caller holds the writer's lock.
pub mod Journal
pub mod Verify
pub mod Add
pub mod Sync
pub mod Recover
pub mod Files
use package.text.Mathlib.Text.{starts_with}
use mncs_commons.Base.{
  ℕ, zero, suc, ◌+◌, ℤ, pos, negsuc, suc_ℤ, String, ◌<>◌, Bool, true, false, not, ◌&&◌, ◌||◌,
  Option, none, some, List, [], ◌∷◌, ◌++◌, ◌==◌, eqb, leb, length, last?, skip, if◌then◌else◌,
  is_some,
}
use mncs_commons.Json.{
  Json, null, num, text, obj, Fields, end, field, get, set, equals, is_mapping, is_null, fields_of,
}
use mncs_commons.Json.Equality.{py_eq}
use mncs_commons.Result.{Runtime, Result, ok, err, refused, require, ◌>>=◌, ◌>>◌}
use mncs_commons.Models.{str}
use mncs_commons.Canonical.{canonical_json, plain_digest, decimal}

-- `MAX_LEDGER_LINE_BYTES` and the like.
pub record Limits : Type 0 where
  pub line_bytes : ℕ
  pub ledger_bytes : ℕ
  pub ledger_rows : ℕ
  pub transaction_bytes : ℕ
  pub sync_entries : ℕ

abbrev pub limits : Limits
limits = record {
  line_bytes = 8388608;
  ledger_bytes = 67108864;
  ledger_rows = 100000;
  transaction_bytes = 16777216;
  sync_entries = 1000;
}

-- `_LedgerTail`
pub record Tail : Type 0 where
  pub sequence : ℤ
  pub entry_digest : Json
  pub ledger_bytes : ℕ

-- A directory under `.transactions`: `journal.json` and `content.json`, `none` for a missing file.
pub record Transaction : Type 0 where
  pub name : String
  pub journal : Option Fields
  pub content : Option String

-- The files of one directory, by their stems.
abbrev pub Files : Type 0
Files = List (String × String)

pub record Store : Type 0 where
  pub rows : List Fields
  pub records : Files
  pub events : Files
  pub transactions : List Transaction
  pub tail : Option Tail

-- `raise StoreError(message)`
abbrev pub store_error : String
store_error = "STORE"

abbrev pub store_refuses {ℓ} : {A : Type ℓ} → String → Result A
store_refuses message = err (refused store_error message)

-- The text of a file, `none` if it is not there.
abbrev pub file : Files → String → Option String
file [] stem = none
file ((k, content) ∷ rest) stem = if k == stem then some content else file rest stem

-- `digest.removeprefix("sha256:")`
unfoldable pub stem_of : String → String
stem_of digest = if starts_with digest "sha256:" then skip 7 digest else digest

-- The directory of `_content_path`.
abbrev pub directory : String → Store → Files
directory entry_type s = if entry_type == "record" then s.records else s.events

unfoldable pub content_file : Store → String → String → Option String
unfolding stem_of
content_file s entry_type digest = file (directory entry_type s) (stem_of digest)

-- The bytes of one line, with its line feed, and of the whole ledger.
unfoldable pub row_bytes : Runtime → Fields → ℕ
row_bytes R row = R.size (canonical_json (obj row)) + 1

unfoldable pub bytes_of : Runtime → List Fields → ℕ
unfolding row_bytes
bytes_of R [] = 0
bytes_of R (row ∷ rows) = row_bytes R row + bytes_of R rows

-- `_rows`, from the bytes and lines read before.
unfoldable pub rows_from : Runtime → Limits → ℕ → ℕ → List Fields → Result (Unit {0})
unfolding row_bytes
rows_from R L total n [] = ok tt
rows_from R L total n (row ∷ rows) =
    let total' = total + row_bytes R row in
    require (leb total' L.ledger_bytes && leb (n + 1) L.ledger_rows) store_error
      "ledger exceeds bounded storage read limit"
    >> (require (leb (row_bytes R row) L.line_bytes) store_error
          ("ledger line " <> decimal (n + 1) <> " exceeds bounded read limit")
        >> rows_from R L total' (n + 1) rows)

-- `_rows`
unfoldable pub read_rows : Runtime → Limits → Store → Result (List Fields)
unfolding rows_from
read_rows R L s = do rows_from R L 0 0 s.rows; ok s.rows

abbrev pub last_digest : Runtime → Option Fields → Json
last_digest R none = null
last_digest R (some row) = text (str R (get "entryDigest" row))

-- `_tail_from_rows`
unfoldable pub tail_from_rows : Runtime → List Fields → Tail
unfolding bytes_of
tail_from_rows R rows = record {
  sequence = pos (length rows);
  entry_digest = last_digest R (last? rows);
  ledger_bytes = bytes_of R rows;
}

abbrev is_natural : ℤ → Bool
is_natural (pos n) = true
is_natural (negsuc n) = false

-- The last line that is read back for a tail, if it fits into the window that is read.
unfoldable pub is_last : Runtime → Limits → Tail → Option Fields → Bool
unfolding row_bytes
is_last R L tail none = false
is_last R L tail (some row) =
    leb (row_bytes R row) L.line_bytes
    && py_eq (get "sequence" row) (num tail.sequence)
    && py_eq (get "entryDigest" row) tail.entry_digest

abbrev is_empty_tail : Tail → Bool
is_empty_tail tail = py_eq (num tail.sequence) (num (pos 0)) && is_null tail.entry_digest

-- Whether the cached tail is taken.
unfoldable pub is_fresh : Runtime → Limits → List Fields → Tail → Bool
unfolding bytes_of is_last
is_fresh R L rows tail =
    eqb tail.ledger_bytes (bytes_of R rows)
    && is_natural tail.sequence
    && (is_empty_tail tail || is_last R L tail (last? rows))

unfoldable pub rebuild_tail : Runtime → Limits → Store → Result (Tail × Store)
unfolding read_rows tail_from_rows
rebuild_tail R L s = do
  rows ← read_rows R L s
  let tail = tail_from_rows R rows in ok (tail, record s { tail = some tail })

abbrev pub cached_tail : Runtime → Limits → Store → Option Tail → Result (Tail × Store)
unfolding is_fresh rebuild_tail
cached_tail R L s none = rebuild_tail R L s
cached_tail R L s (some tail) =
    if is_fresh R L s.rows tail then ok (tail, s) else rebuild_tail R L s

-- `_load_tail_locked`
unfoldable pub load_tail : Runtime → Limits → Store → Result (Tail × Store)
unfolding is_fresh rebuild_tail
load_tail R L s = cached_tail R L s s.tail

-- `body` of `_make_ledger_row`
abbrev pub row_body : String → Fields → Tail → Fields
row_body entry_type payload tail = field "sequence" (num (suc_ℤ tail.sequence)) (
    field "entryType" (text entry_type)
      (field "previousDigest" tail.entry_digest (field "payload" (obj payload) end)))

-- `_make_ledger_row`
unfoldable pub make_row : Runtime → String → Fields → Tail → Fields
make_row R entry_type payload tail =
    let body = row_body entry_type payload tail in
    set "entryDigest" (text (plain_digest R body)) body

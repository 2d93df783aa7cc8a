-- ===== src/Store/Add/Full.antt =====
-- store.py: `add_record` to a ledger that is as long as it may be.
use mncs_commons.Store.Journal.Committed.{
  read_rows-rows, IsTailOf, load_tail-IsLoaded, commit-IsCommitted, record-rows,
}
use mncs_commons.Store.Journal.{perform_all, commit_writes, collides, journal_of, commit}
use mncs_commons.Store.{
  Tail, content_file, is_fresh, cached_tail, rebuild_tail, load_tail, tail_from_rows, Limits, Store,
  store_error, row_bytes, rows_from, read_rows, make_row,
}
use mncs_commons.Store.Add.{
  require_no_pending, candidate_of, payloads, is_held, accept_record, add_record,
}
use mncs_commons.Validation.Documents.{validate_record}
use mncs_commons.Semantic.{record_semantic_diagnostics}
use mncs_commons.Lifecycle.{is_empty}
use mncs_commons.Canonical.{canonical_json}
use mncs_commons.Models.{str, valid}
use mncs_commons.Json.{get, obj, Fields}
use mncs_commons.Result.{
  require-eq-ok, Runtime, Result, ok, err, refused, require, ◌>>=◌, ◌>>◌, >>=-eq-ok, ok-injective,
}
use mncs_commons.Base.{
  Option, none, some, not, sym, Bool-cases, inl, inr, ℕ, suc, ◌+◌, ◌≤◌, ◌<◌, String, Bool, true,
  false, ◌&&◌, List, [], ◌∷◌, ◌++◌, ◌≡◌, refl, ap, ◌∙◌, arith, leb, length,
}

-- A call that raises the store's own error.
abbrev pub IsRefused {ℓ} : {A : Type ℓ} → Result A → Type ℓ
IsRefused call = (message : String) × (call ≡ err (refused store_error message))

require-IsRefused :
    (b : Bool) (message : String) (rest : Result (Unit {0}))
    → (b ≡ true → IsRefused rest)
    → IsRefused (require b store_error message >> rest)
require-IsRefused true message rest h = h refl
require-IsRefused false message rest h = (message, refl)

rows_from-IsRefused :
    (R : Runtime) (L : Limits) (total n : ℕ) (rows : List Fields)
    → n ≤ L.ledger_rows
    → L.ledger_rows < n + length rows
    → IsRefused (rows_from R L total n rows)
unfolding rows_from
rows_from-IsRefused R L total n [] below above = absurd (ground arith)
rows_from-IsRefused R L total n (row ∷ rows) below above =
    require-IsRefused (leb (total + row_bytes R row) L.ledger_bytes && leb (n + 1) L.ledger_rows) _
      _
      (λ fits. require-IsRefused (leb (row_bytes R row) L.line_bytes) _ _ (λ short.
        rows_from-IsRefused R L (total + row_bytes R row) (n + 1) rows (ground (arith, fits))
          (ground (arith, above))))

length-append : (rows : List Fields) (row : Fields) → length (rows ++ row ∷ []) ≡ suc (length rows)
length-append [] row = refl
length-append (first ∷ rows) row = ap suc (length-append rows row)

bind-IsRefused :
    (call : Result (Unit {0})) (rows : List Fields)
    → IsRefused call
    → IsRefused (call >>= λ done. ok rows)
bind-IsRefused call rows (message, e) = (message, rw e refl)

long-IsRefused :
    (R : Runtime) (L : Limits) (s : Store)
    → L.ledger_rows < length s.rows
    → IsRefused (read_rows R L s)
unfolding read_rows
long-IsRefused R L s long =
    bind-IsRefused (rows_from R L 0 0 s.rows) s.rows
      (rows_from-IsRefused R L 0 0 s.rows (ground arith) (ground arith))

commit-long :
    (R : Runtime) (L : Limits) (s after : Store) (name : String) (payload : Fields)
    → IsTailOf R s.rows s.tail
    → commit R L s name "record" payload ≡ ok after
    → length after.rows ≡ suc (length s.rows)
commit-long R L s after name payload is_tail h =
    let (tail, loaded, e, (free, made)) = commit-IsCommitted R L s after name "record" payload h in
    let (true_tail, is_loaded) = load_tail-IsLoaded R L s loaded tail is_tail e in
    let grown : after.rows ≡ loaded.rows ++ make_row R "record" payload tail ∷ [] =
      ap (λ x. x.rows) made
      ∙ record-rows R loaded name payload (make_row R "record" payload tail) tail in
    ap length grown
    ∙ length-append loaded.rows (make_row R "record" payload tail)
    ∙ ap (λ x. suc (length x.rows)) is_loaded

-- What an accepted record was read against: rows within the bounds, and no other content in its file.
accept-Free :
    (R : Runtime) (L : Limits) (s : Store) (value : Fields) (p : Fields × Bool)
    → accept_record R L s value ≡ ok p
    → (read_rows R L s ≡ ok s.rows)
      × (not (
            collides
              (content_file s "record" (str R (get "contentDigest" p.0)))
              (canonical_json (obj p.0)))
          ≡ true)
unfolding accept_record
accept-Free R L s value p h =
    let (u, e0, r0) = >>=-eq-ok (require_no_pending s) _ h in
    let (made, e1, r1) = >>=-eq-ok (candidate_of R value) _ r0 in
    let (report, e2, r2) = >>=-eq-ok (validate_record R (obj made)) _ r1 in
    let (v, e3, r3) = >>=-eq-ok (require (valid report) store_error _) _ r2 in
    let (w, e4, r4) =
      >>=-eq-ok
        (require
          (not (
            collides (content_file s "record" (str R (get "contentDigest" made)))
              (canonical_json (obj made))))
          store_error _)
        _ r3 in
    let (rows, e5, r5) = >>=-eq-ok (read_rows R L s) _ r4 in
    let (faults, e6, r6) =
      >>=-eq-ok (record_semantic_diagnostics R made (payloads "record" rows)) _ r5 in
    let (x, e7, r7) = >>=-eq-ok (require (is_empty faults) store_error _) _ r6 in
    let (held, e8, r8) =
      >>=-eq-ok (is_held "record" (str R (get "contentDigest" made)) rows) _ r7 in
    let both : (made, held) ≡ p = ok-injective r8 in
    rw (← both) ((e5 ∙ ap ok (sym (read_rows-rows R L s rows e5)), require-eq-ok _ _ _ e4))

-- The store once its tail was read or made.
abbrev rebuilt : Runtime → Store → Store
rebuilt R s = record s { tail = some (tail_from_rows R s.rows) }

cached-loads :
    (R : Runtime) (L : Limits) (s : Store) (o : Option Tail)
    → read_rows R L s ≡ ok s.rows
    → (tail : Tail) × (loaded : Store) × (cached_tail R L s o ≡ ok (tail, loaded))
unfolding cached_tail rebuild_tail
cached-loads R L s none read = (tail_from_rows R s.rows, rebuilt R s, rw read refl)
cached-loads R L s (some held) read = elim (Bool-cases (is_fresh R L s.rows held)) [
  | inl fresh ↦ (held, s, rw fresh refl)
  | inr stale ↦ (tail_from_rows R s.rows, rebuilt R s, rw (stale, read) refl)
]

-- The size of the journal that a commit to the store writes.
abbrev pub journal_size : Runtime → Store → Fields → ℕ
journal_size R s candidate =
    let tail = tail_from_rows R s.rows in
    R.size (
      canonical_json
        (obj (journal_of R s "record" candidate (make_row R "record" candidate tail) tail)))

commit-succeeds :
    (R : Runtime) (L : Limits) (s : Store) (name : String) (payload : Fields)
    → IsTailOf R s.rows s.tail
    → read_rows R L s ≡ ok s.rows
    → leb (journal_size R s payload) L.transaction_bytes ≡ true
    → not (
        collides
          (content_file s "record" (str R (get "contentDigest" payload)))
          (canonical_json (obj payload)))
      ≡ true
    → (after : Store) × (commit R L s name "record" payload ≡ ok after)
unfolding commit load_tail journal_of content_file
commit-succeeds R L s name payload t read short free =
    let (tail, loaded, e) = cached-loads R L s s.tail read in
    let (is_tail, is_loaded) = load_tail-IsLoaded R L s loaded tail t e in
    let known : cached_tail R L s s.tail ≡ ok (tail_from_rows R s.rows, rebuilt R s) =
      e ∙ ap (λ x. ok (tail, x)) is_loaded ∙ ap (λ x. ok (x, record s { tail = some x })) is_tail in
    let true_tail = tail_from_rows R s.rows in
    (
      perform_all
          (commit_writes R (rebuilt R s) name "record" payload
            (make_row R "record" payload true_tail) true_tail)
          (rebuilt R s),
      rw (known, short, free) refl,
    )

-- Where the cached tail, if there is one, is that of the ledger, a record that is new and accepted, with
-- a journal of a size that may be written, is added even to a ledger that holds as many rows as may be
-- read, and then every reading of the ledger is refused.
pub add_record-IsRefused :
    (R : Runtime) (L : Limits) (name : String) (s : Store) (value candidate : Fields)
    → IsTailOf R s.rows s.tail
    → length s.rows ≡ L.ledger_rows
    → accept_record R L s value ≡ ok (candidate, false)
    → leb (journal_size R s candidate) L.transaction_bytes ≡ true
    → (after : Store) × (digest : String) × (add_record R L name s value ≡ ok (after, digest))
      × IsRefused (read_rows R L after)
unfolding add_record
add_record-IsRefused R L name s value candidate t full new short =
    let (read, free) = accept-Free R L s value (candidate, false) new in
    let (after, made) = commit-succeeds R L s name candidate t read short free in
    let longer = commit-long R L s after name candidate t made in
    (
      after,
      str R (get "contentDigest" candidate),
      rw (new, made) refl,
      long-IsRefused R L after (omega arith),
    )

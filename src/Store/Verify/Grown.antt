-- ===== src/Store/Verify/Grown.antt =====
-- store.py: a store that verifies still does once a record is committed to it.
use mncs_commons.Base.{
  ℕ, ◌+◌, pos, suc_ℤ, String, ◌<>◌, true, false, not, some, List, [], ◌∷◌, ◌++◌, ◌==◌, ◌≡◌, refl,
  sym, ap, arith, eq_refl, Bool-cases, inl, inr, last?, length, contains, contains-append,
}
use mathlib.Core.Path.{subst}
use mncs_commons.Json.{Json, null, num, text, obj, Fields, get, equals, lookup, set}
use mncs_commons.Json.Equality.{py_eq}
use mncs_commons.Result.{Runtime, ok}
use mncs_commons.Lists.{append-nil}
use mncs_commons.Models.{report_if-not}
use mncs_commons.Canonical.{canonical_json, canonical_digest}
use mncs_commons.Validation.{indexed, valid_digest}
use mncs_commons.Validation.Documents.{validate_record}
use mncs_commons.Store.{Tail, Store, stem_of, content_file, last_digest, tail_from_rows, make_row}
use mncs_commons.Store.Journal.{perform_all, commit_writes, collides}
use mncs_commons.Store.Journal.Committed.{
  IsTailOf, record-rows, record-records, record-events, record-tail, record-transactions,
}
use mncs_commons.Store.Files.{stem_of-digest, orphans-more}
use mncs_commons.Store.Verify.{link_checks, entry_checks, payload_checks, verify_rows, referenced}
use mncs_commons.Store.Verify.Extended.{
  file_checks-held, Extends, IsVerified, end_of, verify_rows-Extends, verify_rows-append,
  last_digest-end_of, py_eq-last_digest, referenced-append,
}
use mncs_commons.Store.Verify.Intact.{IsIntact}
use mncs_commons.Store.Verify.Placed.{grown, grown-orphans, grown-others, grown-own}

-- The row of a record that was found without fault, after a ledger that verifies.
module _ (R : Runtime) (s t : Store) (payload : Fields) (d : String)
    (is_digest : get "contentDigest" payload ≡ text d) (own : d ≡ canonical_digest R payload)
    (clean : validate_record R (obj payload) ≡ ok [])
    (held : content_file t "record" d ≡ some (canonical_json (obj payload))) where
  own-digest : not (equals (get "contentDigest" payload) (canonical_digest R payload)) ≡ false
  own-digest = rw (is_digest, own) (ap not (eq_refl (canonical_digest R payload)))

  entry-clean : (path : String) → entry_checks R t path "record" payload [] ≡ []
  unfolding entry_checks
  entry-clean path =
      append-nil _ _ (rw (own-digest, is_digest) refl)
        (file_checks-held path _ (canonical_json (obj payload)) (rw is_digest held))

  payload-clean : (path : String) → payload_checks R t path (text "record") (obj payload) ≡ ok []
  unfolding payload_checks
  payload-clean path = rw (clean, entry-clean path) refl

  -- Its links, from the tail of the ledger.
  link-clean :
      (path : String) (tail : Tail) (n : ℕ) (previous : Json)
      → py_eq (num (suc_ℤ tail.sequence)) (num (pos n)) ≡ true
      → py_eq tail.entry_digest previous ≡ true
      → link_checks R path n previous (make_row R "record" payload tail) ≡ []
  unfolding link_checks make_row get set lookup py_eq
  link-clean path tail n previous numbered linked =
      append-nil _ _
        (append-nil _ _ (report_if-not _ _ _ _ numbered) (report_if-not _ _ _ _ linked))
        (report_if-not _ _ _ _ (eq_refl _))

module _ (R : Runtime) (s : Store) (name : String) (payload : Fields) (d : String)
    (is_digest : get "contentDigest" payload ≡ text d) (own : d ≡ canonical_digest R payload)
    (good : valid_digest (text d) ≡ true) (clean : validate_record R (obj payload) ≡ ok []) where
  abbrev content : String
  content = canonical_json (obj payload)

  abbrev row : Fields
  row = make_row R "record" payload (tail_from_rows R s.rows)

  abbrev after : Store
  after = perform_all (commit_writes R s name "record" payload row (tail_from_rows R s.rows)) s

  after-records : after.records ≡ grown (stem_of d) content s.records
  unfolding content_file
  after-records = rw (record-records R s name payload row (tail_from_rows R s.rows), is_digest) refl

  after-Extends : Extends s after
  unfolding content_file
  after-Extends entry_type digest held h = elim (Bool-cases (entry_type == "record")) [
    | inl is_record ↦
        rw (is_record, after-records)
          (grown-others (stem_of d) content s.records (stem_of digest) held (rw is_record at h))
    | inr is_event ↦
        rw (is_event, record-events R s name payload row (tail_from_rows R s.rows))
          (rw is_event at h)
  ]

  after-held :
      collides (content_file s "record" d) content ≡ false
      → content_file after "record" d ≡ some content
  unfolding content_file
  after-held h = rw after-records (grown-own (stem_of d) content s.records h)

  row-linked :
      (rows : List Fields)
      → verify_rows R s 1 null rows ≡ ok []
      → py_eq (last_digest R (last? rows)) (end_of null rows) ≡ true
  unfolding py_eq
  row-linked [] h = refl
  row-linked (first ∷ rows) h =
      rw (← last_digest-end_of R s 1 null first rows h) (py_eq-last_digest R (last? (first ∷ rows)))

  row-IsVerified :
      verify_rows R s 1 null s.rows ≡ ok []
      → collides (content_file s "record" d) content ≡ false
      → IsVerified R after (1 + length s.rows) (end_of null s.rows) row []
  unfolding verify_rows get set lookup make_row py_eq tail_from_rows
  row-IsVerified h c = (
    payload-clean R s after payload d is_digest own clean (after-held c)
        (indexed "ledger.jsonl" (1 + length s.rows)),
    link-clean R s after payload d is_digest own clean (after-held c)
        (indexed "ledger.jsonl" (1 + length s.rows)) (tail_from_rows R s.rows) (1 + length s.rows)
        (end_of null s.rows) (ground arith) (row-linked s.rows h),
    refl,
  )

  after-rows : after.rows ≡ s.rows ++ row ∷ []
  after-rows = record-rows R s name payload row (tail_from_rows R s.rows)

  row-referenced : referenced R "record" (row ∷ []) ≡ d ∷ []
  unfolding referenced make_row get set lookup
  row-referenced = rw is_digest refl

  linked-more :
      (entry_type e : String)
      → contains (referenced R entry_type s.rows) e ≡ true
      → contains (referenced R entry_type (s.rows ++ row ∷ [])) e ≡ true
  linked-more entry_type e h = rw (referenced-append R entry_type s.rows (row ∷ [])) (
      ground (
        arith,
        contains-append (referenced R entry_type s.rows) (referenced R entry_type (row ∷ [])) e,
      ))

  linked-own : contains (referenced R "record" (s.rows ++ row ∷ [])) ("sha256:" <> stem_of d) ≡ true
  linked-own =
      rw (stem_of-digest d good, referenced-append R "record" s.rows (row ∷ []), row-referenced)
        (ground (arith, contains-append (referenced R "record" s.rows) (d ∷ []) d, eq_refl d))

  pub grown-IsIntact :
      collides (content_file s "record" d) content ≡ false → IsIntact R s → IsIntact R after
  grown-IsIntact c (rows, none', records, events) = (
    subst (λ rs. verify_rows R after 1 null rs ≡ ok []) (sym after-rows)
        (verify_rows-append R after 1 null s.rows row
          (verify_rows-Extends R s after 1 null s.rows after-Extends rows) (row-IsVerified rows c)),
    record-transactions R s name payload row (tail_from_rows R s.rows) none',
    rw (after-rows, after-records)
        (grown-orphans _ _ _ (stem_of d) content s.records linked-own
          (orphans-more _ _ _ _ s.records (linked-more "record") records)),
    rw (after-rows, record-events R s name payload row (tail_from_rows R s.rows))
        (orphans-more _ _ _ _ s.events (linked-more "event") events),
  )

  length-append : (rows : List Fields) → length (rows ++ row ∷ []) ≡ length rows + 1
  length-append [] = refl
  length-append (first ∷ rows) = ground (arith, length-append rows)

  last?-append : (rows : List Fields) → last? (rows ++ row ∷ []) ≡ some row
  last?-append [] = refl
  last?-append (first ∷ []) = refl
  last?-append (first ∷ second ∷ rows) = last?-append (second ∷ rows)

  pub grown-IsTailOf : IsTailOf R after.rows after.tail
  unfolding tail_from_rows make_row get set lookup
  grown-IsTailOf =
      rw (record-tail R s name payload row (tail_from_rows R s.rows), after-rows)
        (rw (length-append s.rows, last?-append s.rows) refl)

-- ===== src/Store/Verify/Extended.antt =====
-- store.py: `verify` of a ledger that has grown by a row.
use mncs_commons.Base.{
  ℕ, ◌+◌, String, true, Option, none, some, List, [], ◌∷◌, ◌++◌, ◌≡◌, refl, ◌∙◌, arith, eq_iff,
  eq_refl, Bool-cases, inl, inr, last?, length, ap,
}
use mathlib.Core.Path.{subst}
use mncs_commons.Validation.Sound.{equals-text}
use mncs_commons.Json.{Json, text, obj, Fields, get, equals}
use mncs_commons.Json.Equality.{py_eq}
use mncs_commons.Result.{Runtime, ok, >>=-eq-ok, ok-injective}
use mncs_commons.Lists.{append-nil, append-nil-left, append-nil-right}
use mncs_commons.Models.{Diagnostic, report_if-nil, report_if-not, not-false, str}
use mncs_commons.Canonical.{canonical_json, plain_digest}
use mncs_commons.Validation.{indexed}
use mncs_commons.Validation.Documents.{validate_record}
use mncs_commons.Store.{Store, content_file, last_digest}
use mncs_commons.Store.Verify.{
  link_checks, file_checks, entry_checks, payload_checks, verify_rows, referenced, body_of,
}

-- The content files of one store are those of another, and perhaps more.
abbrev pub Extends : Store → Store → Type 0
Extends s t =
    (entry_type digest held : String)
    → content_file s entry_type digest ≡ some held
    → content_file t entry_type digest ≡ some held

file_checks-some :
    (path : String) (o : Option String) (content : String)
    → file_checks path o content ≡ []
    → (o ≡ some content)
file_checks-some path none content h = cc
file_checks-some path (some held) content h =
    let same = not-false _ (report_if-nil _ _ _ _ h) in ground (arith, eq_iff held content, same)

pub file_checks-held :
    (path : String) (o : Option String) (content : String)
    → o ≡ some content
    → file_checks path o content ≡ []
file_checks-held path o content h = rw h (report_if-not _ _ _ _ (eq_refl content))

entry-Extends :
    (R : Runtime) (s t : Store) (path entry_type : String) (payload : Fields)
    (report : List Diagnostic)
    → Extends s t
    → entry_checks R s path entry_type payload report ≡ []
    → entry_checks R t path entry_type payload report ≡ []
unfolding entry_checks
entry-Extends R s t path entry_type payload report more h = append-nil _ _ (append-nil-left _ _ h) (
    file_checks-held path _ (canonical_json (obj payload)) (
      more entry_type (str R (get "contentDigest" payload)) _
        (file_checks-some path _ _ (append-nil-right _ _ h))))

payload-Extends :
    (R : Runtime) (s t : Store) (path : String) (entry_type payload : Json)
    → Extends s t
    → payload_checks R s path entry_type payload ≡ ok []
    → payload_checks R t path entry_type payload ≡ ok []
unfolding payload_checks
payload-Extends R s t path entry_type (obj payload) more h =
    elim (Bool-cases (equals entry_type "snapshot")) [
      | inl snapshot ↦ rw snapshot (rw snapshot at h)
      | inr other ↦ elim (Bool-cases (equals entry_type "record")) [
        | inl as_record ↦
            let (report, e, r) =
              >>=-eq-ok (validate_record R (obj payload)) _ (rw (other, as_record) at h) in
            rw
              (
                other,
                as_record,
                e,
                entry-Extends R s t path "record" payload report more (ok-injective r),
              )
              refl
        | inr others ↦ elim (Bool-cases (equals entry_type "event")) [
          | inl as_event ↦
              let held = ok-injective (rw (other, others, as_event) at h) in
              rw (other, others, as_event, entry-Extends R s t path "event" payload _ more held)
                refl
          | inr unknown ↦ rw (other, others, unknown) (rw (other, others, unknown) at h)
        ]
      ]
    ]
payload-Extends R s t path entry_type _ more h = h

-- A verified row, with the rows after it.
abbrev pub IsVerified : Runtime → Store → ℕ → Json → Fields → List Fields → Type 0
IsVerified R s n previous row rows =
    (payload_checks R s (indexed "ledger.jsonl" n) (get "entryType" row) (get "payload" row)
      ≡ ok [])
    × (link_checks R (indexed "ledger.jsonl" n) n previous row ≡ [])
    × (verify_rows R s (n + 1) (get "entryDigest" row) rows ≡ ok [])

pub verify_rows-cons :
    (R : Runtime) (s : Store) (n : ℕ) (previous : Json) (row : Fields) (rows : List Fields)
    → verify_rows R s n previous (row ∷ rows) ≡ ok []
    → IsVerified R s n previous row rows
unfolding verify_rows
verify_rows-cons R s n previous row rows h =
    let (content, e1, r1) =
      >>=-eq-ok
        (payload_checks R s (indexed "ledger.jsonl" n) (get "entryType" row) (get "payload" row)) _
        h in
    let (rest, e2, r2) = >>=-eq-ok (verify_rows R s (n + 1) (get "entryDigest" row) rows) _ r1 in
    let all = ok-injective r2 in
    let front = append-nil-left _ _ all in
    (
      e1 ∙ ap ok (append-nil-right _ _ front),
      append-nil-left _ _ front,
      e2 ∙ ap ok (append-nil-right _ _ all),
    )

cons-verify_rows :
    (R : Runtime) (s : Store) (n : ℕ) (previous : Json) (row : Fields) (rows : List Fields)
    → IsVerified R s n previous row rows
    → verify_rows R s n previous (row ∷ rows) ≡ ok []
unfolding verify_rows
cons-verify_rows R s n previous row rows h = rw (h.0, h.1, h.2) refl

pub verify_rows-Extends :
    (R : Runtime) (s t : Store) (n : ℕ) (previous : Json) (rows : List Fields)
    → Extends s t
    → verify_rows R s n previous rows ≡ ok []
    → verify_rows R t n previous rows ≡ ok []
unfolding verify_rows
verify_rows-Extends R s t n previous [] more h = refl
verify_rows-Extends R s t n previous (row ∷ rows) more h =
    let (content, link, rest) = verify_rows-cons R s n previous row rows h in
    cons-verify_rows R t n previous row rows (
      payload-Extends R s t _ (get "entryType" row) (get "payload" row) more content,
      link,
      verify_rows-Extends R s t (n + 1) (get "entryDigest" row) rows more rest,
    )

-- The digest that the row after those must name.
abbrev pub end_of : Json → List Fields → Json
end_of previous [] = previous
end_of previous (row ∷ rows) = end_of (get "entryDigest" row) rows

pub verify_rows-append :
    (R : Runtime) (s : Store) (n : ℕ) (previous : Json) (rows : List Fields) (row : Fields)
    → verify_rows R s n previous rows ≡ ok []
    → IsVerified R s (n + length rows) (end_of previous rows) row []
    → verify_rows R s n previous (rows ++ row ∷ []) ≡ ok []
unfolding verify_rows
verify_rows-append R s n previous [] row h k =
    cons-verify_rows R s n previous row []
      (subst (λ m. IsVerified R s m previous row []) (omega arith) k)
verify_rows-append R s n previous (first ∷ rows) row h k =
    let (content, link, rest) = verify_rows-cons R s n previous first rows h in
    cons-verify_rows R s n previous first (rows ++ row ∷ []) (
      content,
      link,
      verify_rows-append R s (n + 1) (get "entryDigest" first) rows row rest (
          subst (λ m. IsVerified R s m (end_of (get "entryDigest" first) rows) row []) (omega arith)
            k),
    )

-- The last row of a verified ledger has a text for its digest, which the next row is linked to.
pub link-text :
    (R : Runtime) (path : String) (n : ℕ) (previous : Json) (row : Fields)
    → link_checks R path n previous row ≡ []
    → (d : String) × (get "entryDigest" row ≡ text d)
unfolding link_checks
link-text R path n previous row h =
    let same = not-false _ (report_if-nil _ _ _ _ (append-nil-right _ _ h)) in
    (plain_digest R (body_of row), equals-text _ _ same)

pub last_digest-end_of :
    (R : Runtime) (s : Store) (n : ℕ) (previous : Json) (row : Fields) (rows : List Fields)
    → verify_rows R s n previous (row ∷ rows) ≡ ok []
    → last_digest R (last? (row ∷ rows)) ≡ end_of previous (row ∷ rows)
last_digest-end_of R s n previous row [] h =
    let (content, link, rest) = verify_rows-cons R s n previous row [] h in
    let (d, e) = link-text R _ n previous row link in rw e refl
last_digest-end_of R s n previous row (next ∷ rows) h =
    let (content, link, rest) = verify_rows-cons R s n previous row (next ∷ rows) h in
    last_digest-end_of R s (n + 1) (get "entryDigest" row) next rows rest

pub py_eq-last_digest :
    (R : Runtime) (o : Option Fields) → py_eq (last_digest R o) (last_digest R o) ≡ true
unfolding py_eq
py_eq-last_digest R none = refl
py_eq-last_digest R (some row) = eq_refl (str R (get "entryDigest" row))

pub referenced-append :
    (R : Runtime) (entry_type : String) (rows more : List Fields)
    → referenced R entry_type (rows ++ more)
      ≡ referenced R entry_type rows ++ referenced R entry_type more
unfolding referenced
referenced-append R entry_type [] more = refl
referenced-append R entry_type (row ∷ rows) more =
    ground (arith, referenced-append R entry_type rows more)

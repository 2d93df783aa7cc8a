-- ===== src/Store/Recover/Restored.antt =====
-- store.py: the store that the recovery of a transaction leaves.
use mncs_commons.Store.Recover.{
  path_checks, identity_checks, read_journal, required_keys, encoded, loads_or_raise, is_entry_type,
  Journal, verify_journal, first_matching, restore, recover_one, holds, content_write, last_entry,
}
use mncs_commons.Json.{Json, text, equals, has, is_mapping, fields_of, num, obj, Fields, get}
use mncs_commons.Canonical.{canonical_json, canonical_digest, plain_digest}
use mncs_commons.Models.{str}
use mncs_commons.Base.{
  leb, all, ◌+◌, pos, String, Bool, true, false, not, ◌&&◌, Option, none, some, [], ◌∷◌, ◌++◌, ◌==◌,
  ◌≡◌, ◌⊎◌, inl, inr, refl, sym, ap, ◌∙◌, eq_iff, Bool-cases, last?, length,
}
use mathlib.Core.Path.{subst}
use mncs_commons.Store.Journal.Committed.{read_rows-rows}
use mncs_commons.Store.Journal.{collides, perform, perform_all, append_row, write_tail, without}
use mncs_commons.Json.Equality.{py_eq}
use mncs_commons.Result.{Runtime, ok, require, >>=-eq-ok, ok-injective, require-eq-ok}
use mncs_commons.Work.Readers.{to_int}
use mncs_commons.Store.{Limits, Tail, Transaction, Store, store_error, content_file, read_rows}

-- The row of a journal is in the ledger: it was there already, or now it is the last, with the next
-- number, and the journal names the digest of the row before.
abbrev pub IsPlaced : Store → Store → Journal → Option Fields → Type 0
IsPlaced s after j found =
    ((row : Fields) × (found ≡ some row)
      × (py_eq (obj row) (obj j.row) ≡ true)
      × (after.rows ≡ s.rows))
    ⊎ ((found ≡ none)
        × (py_eq (last_entry (last? s.rows)) j.previous ≡ true)
        × (py_eq (get "sequence" j.row) (num (pos (length s.rows + 1))) ≡ true)
        × (after.rows ≡ s.rows ++ j.row ∷ []))

holds-some : (o : Option String) (content : String) → holds o content ≡ true → o ≡ some content
holds-some none content h = cc
holds-some (some held) content h = ap some ((eq_iff held content).0 h)

and-left : (a b : Bool) → (a && b) ≡ true → a ≡ true
and-left true b h = refl
and-left false b h = cc

and-right : (a b : Bool) → (a && b) ≡ true → b ≡ true
and-right true b h = h
and-right false b h = cc

written-rows :
    (j : Journal) (o : Option String) (row : Fields) (tail : Tail) (s : Store)
    → (perform_all (content_write j o ++ append_row row ∷ write_tail tail ∷ []) s).rows
      ≡ s.rows ++ row ∷ []
unfolding perform_all perform
written-rows j none row tail s = elim (Bool-cases (j.entry_type == "record")) [
  | inl is_record ↦ rw is_record refl
  | inr is_event ↦ rw is_event refl
]
written-rows j (some held) row tail s = refl

restore-IsPlaced :
    (R : Runtime) (s t : Store) (name : String) (j : Journal) (found : Option Fields)
    → restore R s name j found ≡ ok t
    → IsPlaced s t j found
unfolding restore
restore-IsPlaced R s t name j (some row) h =
    let (u, e, r) = >>=-eq-ok (require (py_eq (obj row) (obj j.row)) store_error _) _ h in
    inl (row, refl, require-eq-ok _ _ _ e, ap (λ x. x.rows) (sym (ok-injective r)))
restore-IsPlaced R s t name j none h =
    let (u, e0, r0) =
      >>=-eq-ok
        (require
          (py_eq (last_entry (last? s.rows)) j.previous
            && py_eq (get "sequence" j.row) (num (pos (length s.rows + 1))))
          store_error _)
        _ h in
    let (v, e1, r1) =
      >>=-eq-ok
        (require (not (collides (content_file s j.entry_type j.digest) j.content)) store_error _) _
        r0 in
    let (sequence, e2, r2) = >>=-eq-ok (to_int R (get "sequence" j.row)) _ r1 in
    let linked = require-eq-ok _ _ _ e0 in
    let made = ap (λ x. x.rows) (sym (ok-injective r2)) in
    inr (
      refl,
      and-left _ _ linked,
      and-right _ _ linked,
      made ∙ written-rows j (content_file s j.entry_type j.digest) j.row _ s,
    )

-- A journal's content is the text of its payload, under the payload's own digest, and its row holds
-- that payload.
abbrev pub IsOwn : Runtime → Journal → Type 0
IsOwn R j =
    (j.content ≡ canonical_json (obj j.payload))
    × (j.digest ≡ canonical_digest R j.payload)
    × (py_eq (get "payload" j.row) (obj j.payload) ≡ true)

str-own : (R : Runtime) (v : Json) (s : String) → equals v s ≡ true → str R v ≡ s
str-own R (text t) s h = (eq_iff t s).0 h
str-own R _ s h = cc

identity_checks-own :
    (R : Runtime) (name : String) (value : Fields) (content : String) (payload row : Fields)
    → identity_checks R name value content payload row ≡ ok tt
    → (content ≡ canonical_json (obj payload))
      × (str R (get "contentDigest" value) ≡ canonical_digest R payload)
      × (py_eq (get "payload" row) (obj payload) ≡ true)
unfolding identity_checks
identity_checks-own R name value content payload row h =
    let (u0, e0, r0) = >>=-eq-ok (path_checks R name value) _ h in
    let (u1, e1, r1) =
      >>=-eq-ok
        (require
          (canonical_json (obj payload) == content
            && py_eq (get "contentDigest" payload) (get "contentDigest" value))
          store_error _)
        _ r0 in
    let (u2, e2, r2) =
      >>=-eq-ok (require (equals (get "contentDigest" value) (canonical_digest R payload)) _ _) _
        r1 in
    let (u3, e3, r3) =
      >>=-eq-ok (require (equals (get "ledgerRowBytesDigest" value) (plain_digest R row)) _ _) _
        r2 in
    let same = and-left _ _ (require-eq-ok _ _ _ e1) in
    (
      sym ((eq_iff (canonical_json (obj payload)) content).0 same),
      str-own R _ _ (require-eq-ok _ _ _ e2),
      and-right _ _ (require-eq-ok _ _ _ r3),
    )

verify_journal-IsOwn :
    (R : Runtime) (L : Limits) (t : Transaction) (j : Journal)
    → verify_journal R L t ≡ ok j
    → IsOwn R j
unfolding verify_journal
verify_journal-IsOwn R L t j h =
    let (value, e0, r0) = >>=-eq-ok (read_journal t.journal) _ h in
    let (u1, e1, r1) =
      >>=-eq-ok (require (leb (R.size (canonical_json (obj value))) L.transaction_bytes) _ _) _
        r0 in
    let (u2, e2, r2) = >>=-eq-ok (require (py_eq (get "version" value) (num (pos 1))) _ _) _ r1 in
    let (u3, e3, r3) = >>=-eq-ok (require (all (λ k. has k value) required_keys) _ _) _ r2 in
    let (content, e4, r4) = >>=-eq-ok (encoded (get "content" value)) _ r3 in
    let (payload, e5, r5) = >>=-eq-ok (loads_or_raise (R.loads content)) _ r4 in
    let (u6, e6, r6) =
      >>=-eq-ok (require (is_mapping payload && is_mapping (get "ledgerRow" value)) _ _) _ r5 in
    let (u7, e7, r7) = >>=-eq-ok (require (is_entry_type (get "entryType" value)) _ _) _ r6 in
    let (u8, e8, r8) =
      >>=-eq-ok
        (identity_checks R t.name value content (fields_of payload)
          (fields_of (get "ledgerRow" value)))
        _ r7 in
    rw (← ok-injective r8) (identity_checks-own R t.name value content _ _ e8)

pub recover_one-IsPlaced :
    (R : Runtime) (L : Limits) (s after : Store) (t : Transaction)
    → recover_one R L s t ≡ ok after
    → (j : Journal) × (verify_journal R L t ≡ ok j)
      × IsOwn R j
      × IsPlaced s after j (first_matching (get "entryDigest" j.row) s.rows)
      × (content_file after j.entry_type j.digest ≡ some j.content)
unfolding recover_one perform_all perform content_file
recover_one-IsPlaced R L s after t h =
    let (j, e0, r0) = >>=-eq-ok (verify_journal R L t) _ h in
    let (rows, e1, r1) = >>=-eq-ok (read_rows R L s) _ r0 in
    let (restored, e2, r2) =
      >>=-eq-ok (restore R s t.name j (first_matching (get "entryDigest" j.row) rows)) _ r1 in
    let (u, e3, r3) =
      >>=-eq-ok
        (require (holds (content_file restored j.entry_type j.digest) j.content) store_error _) _
        r2 in
    let made : record restored { transactions = without t.name restored.transactions } ≡ after =
      ok-injective r3 in
    let held = holds-some _ _ (require-eq-ok _ _ _ e3) in
    let is_rows : rows ≡ s.rows = sym (read_rows-rows R L s rows e1) in
    rw (← made) (
      (
        j,
        e0,
        verify_journal-IsOwn R L t j e0,
        subst (λ rs. IsPlaced s restored j (first_matching (get "entryDigest" j.row) rs)) is_rows
            (restore-IsPlaced R s restored t.name j _ e2),
        held,
      ))

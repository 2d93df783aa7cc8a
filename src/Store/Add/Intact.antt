-- ===== src/Store/Add/Intact.antt =====
-- store.py: a store that verifies still does after `add_record`.
use mncs_commons.Store.Verify.Intact.{IsIntact, verify-IsIntact, IsIntact-verify}
use mncs_commons.Base.{
  some, String, Bool, true, false, not, [], ◌≡◌, refl, sym, ap, ◌∙◌, if◌then◌else◌,
}
use mathlib.Core.Path.{subst}
use mncs_commons.Json.{null, text, obj, Fields, get, is_null}
use mncs_commons.Result.{Runtime, Result, ok, ◌>>=◌, require, >>=-eq-ok, ok-injective}
use mncs_commons.Models.{str, valid}
use mncs_commons.Canonical.{canonical_json, canonical_digest}
use mncs_commons.Validation.{valid_digest}
use mncs_commons.Validation.Documents.{validate_record}
use mncs_commons.Validation.Sound.{validate_record_sound}
use mncs_commons.Store.{
  Limits, Tail, Store, content_file, read_rows, tail_from_rows, make_row, store_error,
}
use mncs_commons.Store.Journal.{commit, perform_all, commit_writes, collides}
use mncs_commons.Store.Journal.Committed.{IsTailOf, load_tail-IsLoaded, commit-IsCommitted}
use mncs_commons.Store.Verify.{verify}
use mncs_commons.Store.Verify.Grown.{grown-IsIntact, grown-IsTailOf}
use mncs_commons.Store.Verify.Extended.{verify_rows-Extends}
use mncs_commons.Lifecycle.{is_empty}
use mncs_commons.Semantic.{record_semantic_diagnostics}
use mncs_commons.Store.Add.{
  payloads, is_held, require_no_pending, candidate_of, accept_record, add_record,
}

-- A store that verifies, with the tail of its ledger in the cache, or none.
abbrev pub IsSound : Runtime → Store → Type 0
IsSound R s = IsIntact R s × IsTailOf R s.rows s.tail

-- The cached tail is no part of what is verified.
retailed-IsIntact :
    (R : Runtime) (s : Store) (tail : Tail)
    → IsIntact R s
    → IsIntact R (record s { tail = some tail })
unfolding content_file
retailed-IsIntact R s tail (rows, none', records, events) = (
  verify_rows-Extends R s (record s { tail = some tail }) 1 null s.rows (λ t d held h. h) rows,
  none',
  records,
  events,
)

loaded-IsSound :
    (R : Runtime) (s loaded after : Store) (name : String) (payload : Fields) (tail : Tail)
    → get "contentDigest" payload ≡ text (canonical_digest R payload)
    → valid_digest (text (canonical_digest R payload)) ≡ true
    → validate_record R (obj payload) ≡ ok []
    → IsIntact R s
    → tail ≡ tail_from_rows R s.rows
    → loaded ≡ record s { tail = some tail }
    → collides
        (content_file loaded "record" (str R (get "contentDigest" payload)))
        (canonical_json (obj payload))
      ≡ false
    → after
      ≡ perform_all
          (commit_writes R loaded name "record" payload (make_row R "record" payload tail) tail)
          loaded
    → IsSound R after
loaded-IsSound R s loaded after name payload tail d good clean intact is_tail is_loaded free made =
    let here = subst (IsIntact R) (sym is_loaded) (retailed-IsIntact R s tail intact) in
    let tail_here : tail ≡ tail_from_rows R loaded.rows =
      is_tail ∙ ap (λ x. tail_from_rows R x.rows) (sym is_loaded) in
    let free_here : collides (content_file loaded "record" (canonical_digest R payload))
          (canonical_json (obj payload))
        ≡ false =
      rw d at free in
    let committed : Tail → Store = λ t.
      perform_all (commit_writes R loaded name "record" payload (make_row R "record" payload t) t)
        loaded in
    subst (IsSound R) (sym (made ∙ ap committed tail_here)) (
      grown-IsIntact R loaded name payload (canonical_digest R payload) d refl good clean free_here
          here,
      grown-IsTailOf R loaded name payload (canonical_digest R payload) d refl good clean,
    )

commit-IsSound :
    (R : Runtime) (L : Limits) (s after : Store) (name : String) (payload : Fields)
    → get "contentDigest" payload ≡ text (canonical_digest R payload)
    → valid_digest (text (canonical_digest R payload)) ≡ true
    → validate_record R (obj payload) ≡ ok []
    → IsSound R s
    → commit R L s name "record" payload ≡ ok after
    → IsSound R after
commit-IsSound R L s after name payload d good clean (intact, is_tail) h =
    let (tail, loaded, e, (free, made)) = commit-IsCommitted R L s after name "record" payload h in
    let (true_tail, is_loaded) = load_tail-IsLoaded R L s loaded tail is_tail e in
    loaded-IsSound R s loaded after name payload tail d good clean intact true_tail is_loaded free
      made

accept-candidate :
    (R : Runtime) (L : Limits) (s : Store) (value candidate : Fields) (p : Fields × Bool)
    → candidate_of R value ≡ ok candidate
    → accept_record R L s value ≡ ok p
    → p.0 ≡ candidate
unfolding accept_record
accept-candidate R L s value candidate p c h =
    let (u, e0, r0) = >>=-eq-ok (require_no_pending s) _ h in
    let (made, e1, r1) = >>=-eq-ok (candidate_of R value) _ r0 in
    let (report, e2, r2) = >>=-eq-ok (validate_record R (obj made)) _ r1 in
    let (v, e3, r3) = >>=-eq-ok (require (valid report) store_error _) _ r2 in
    let (w, e4, r4) =
      >>=-eq-ok
        (require
          (not (
            collides (content_file s "record" (str R (get "contentDigest" made)))
              (canonical_json (obj made))))
          store_error _)
        _ r3 in
    let (rows, e5, r5) = >>=-eq-ok (read_rows R L s) _ r4 in
    let (faults, e6, r6) =
      >>=-eq-ok (record_semantic_diagnostics R made (payloads "record" rows)) _ r5 in
    let (x, e7, r7) = >>=-eq-ok (require (is_empty faults) store_error _) _ r6 in
    let (held, e8, r8) =
      >>=-eq-ok (is_held "record" (str R (get "contentDigest" made)) rows) _ r7 in
    let both = ok-injective r8 in sym (ap (λ q. q.0) both) ∙ ok-injective (sym e1 ∙ c)

-- What `add_record` returns of a record that it accepted.
abbrev ending : Runtime → Limits → Store → String → String → Fields → Bool → Result (Store × String)
ending R L s name digest payload true = ok (s, digest)
ending R L s name digest payload false = commit R L s name "record" payload >>= λ t. ok (t, digest)

ending-if :
    (R : Runtime) (L : Limits) (s : Store) (name digest : String) (payload : Fields) (held : Bool)
    (whole : Result (Store × String))
    → (if◌then◌else◌ {A = Result (Store × String)} held
        (ok (s, digest))
        (commit R L s name "record" payload >>= λ t. ok (t, digest)))
      ≡ whole
    → ending R L s name digest payload held ≡ whole
ending-if R L s name digest payload true whole h = h
ending-if R L s name digest payload false whole h = h

record-IsSound :
    (R : Runtime) (L : Limits) (s after : Store) (name digest' digest : String) (payload : Fields)
    (held : Bool)
    → is_null (get "contentDigest" payload) ≡ false
    → validate_record R (obj payload) ≡ ok []
    → IsSound R s
    → ending R L s name digest' payload held ≡ ok (after, digest)
    → IsSound R after
record-IsSound R L s after name digest' digest payload true given clean sound h =
    let both = ok-injective h in subst (IsSound R) (ap (λ q. q.0) both) sound
record-IsSound R L s after name digest' digest payload false given clean sound h =
    let (t, e, r) = >>=-eq-ok (commit R L s name "record" payload) _ h in
    let both = ok-injective r in
    let facts = validate_record_sound R payload given clean in
    let good = facts.1 in
    subst (IsSound R) (ap (λ q. q.0) both)
      (commit-IsSound R L s t name payload facts.0 (rw facts.0 at good) clean sound e)

-- Where the store verifies, its cached tail is that of the ledger, and the record carries a digest
-- and is found without fault, the store that `add_record` returns verifies too, so long as its ledger
-- can still be read, and its cached tail is again that of the ledger.
pub add_record-verifies :
    (R : Runtime) (L : Limits) (name : String) (s after : Store) (value candidate : Fields)
    (digest : String)
    → verify R L s ≡ ok []
    → IsTailOf R s.rows s.tail
    → candidate_of R value ≡ ok candidate
    → is_null (get "contentDigest" candidate) ≡ false
    → validate_record R (obj candidate) ≡ ok []
    → add_record R L name s value ≡ ok (after, digest)
    → read_rows R L after ≡ ok after.rows
    → (verify R L after ≡ ok []) × IsTailOf R after.rows after.tail
unfolding add_record
add_record-verifies R L name s after value candidate digest v t made given clean h read =
    let (p, e, r) = >>=-eq-ok (accept_record R L s value) _ h in
    let same = accept-candidate R L s value candidate p made e in
    let (intact, tail) =
      record-IsSound R L s after name _ digest p.0 p.1 (rw same given) (rw same clean)
        (verify-IsIntact R L s v, t) (ending-if R L s name _ p.0 p.1 _ r) in
    (IsIntact-verify R L after read intact, tail)

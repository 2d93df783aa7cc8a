-- ===== src/Store/Journal/Committed.antt =====
-- store.py: the store that a commit leaves.
use mncs_commons.Base.{
  leb, String, Bool, true, false, not, Option, none, some, List, [], ◌∷◌, ◌++◌, ◌≡◌, refl, sym,
  eq_refl, Bool-cases, inl, inr, is_some, if◌then◌else◌, ap, ◌∙◌,
}
use mncs_commons.Json.{obj, Fields, get}
use mncs_commons.Result.{Runtime, ok, require, >>=-eq-ok, ok-injective, require-eq-ok}
use mncs_commons.Models.{str}
use mncs_commons.Canonical.{canonical_json}
use mncs_commons.Store.{
  rows_from, cached_tail, Limits, Tail, Store, store_error, stem_of, content_file, read_rows,
  tail_from_rows, is_fresh, rebuild_tail, load_tail, make_row,
}
use mncs_commons.Store.Journal.{
  put_file, perform, perform_all, journal_of, tail_after, commit_writes, collides, commit,
}

-- The cached tail, if there is one, is that of the ledger.
abbrev pub IsTailOf : Runtime → List Fields → Option Tail → Type 0
IsTailOf R rows none = Unit
IsTailOf R rows (some tail) = tail ≡ tail_from_rows R rows

pub read_rows-rows :
    (R : Runtime) (L : Limits) (s : Store) (rows : List Fields)
    → read_rows R L s ≡ ok rows
    → s.rows ≡ rows
unfolding read_rows
read_rows-rows R L s rows h =
    let (u, e, r) = >>=-eq-ok (rows_from R L 0 0 s.rows) _ h in ok-injective r

-- What a tail that was loaded is, and the store with it.
abbrev pub IsLoaded : Runtime → Store → Store → Tail → Type 0
IsLoaded R s t tail = (tail ≡ tail_from_rows R s.rows) × (t ≡ record s { tail = some tail })

rebuild-IsLoaded :
    (R : Runtime) (L : Limits) (s t : Store) (tail : Tail)
    → rebuild_tail R L s ≡ ok (tail, t)
    → IsLoaded R s t tail
unfolding rebuild_tail
rebuild-IsLoaded R L s t tail h =
    let (rows, e, r) = >>=-eq-ok (read_rows R L s) _ h in
    let both = ok-injective r in
    let made : tail_from_rows R rows ≡ tail = ap (λ p. p.0) both in
    let kept : record s { tail = some (tail_from_rows R rows) } ≡ t = ap (λ p. p.1) both in
    (
      sym made ∙ ap (tail_from_rows R) (sym (read_rows-rows R L s rows e)),
      sym kept ∙ ap (λ x. record s { tail = some x }) made,
    )

cached-IsLoaded :
    (R : Runtime) (L : Limits) (s t : Store) (tail : Tail) (o : Option Tail)
    → s.tail ≡ o
    → IsTailOf R s.rows o
    → cached_tail R L s o ≡ ok (tail, t)
    → IsLoaded R s t tail
unfolding cached_tail
cached-IsLoaded R L s t tail none same is_tail h = rebuild-IsLoaded R L s t tail h
cached-IsLoaded R L s t tail (some held) same is_tail h =
    elim (Bool-cases (is_fresh R L s.rows held)) [
      | inl fresh ↦
          let both = ok-injective (rw fresh at h) in
          let taken : held ≡ tail = ap (λ p. p.0) both in
          let kept : s ≡ t = ap (λ p. p.1) both in
          (sym taken ∙ is_tail, sym kept ∙ ap (λ x. record s { tail = x }) (same ∙ ap some taken))
      | inr stale ↦ rebuild-IsLoaded R L s t tail (rw stale at h)
    ]

-- The tail that is loaded is that of the ledger, and nothing but the cached tail changes.
pub load_tail-IsLoaded :
    (R : Runtime) (L : Limits) (s t : Store) (tail : Tail)
    → IsTailOf R s.rows s.tail
    → load_tail R L s ≡ ok (tail, t)
    → IsLoaded R s t tail
unfolding load_tail
load_tail-IsLoaded R L s t tail is_tail h = cached-IsLoaded R L s t tail s.tail refl is_tail h

-- The writes of a commit that returns.
abbrev pub IsCommitted : Runtime → Store → Store → String → String → Fields → Tail → Type 0
IsCommitted R loaded after name entry_type payload tail =
    (collides (content_file loaded entry_type (str R (get "contentDigest" payload)))
        (canonical_json (obj payload))
      ≡ false)
    × (after
        ≡ perform_all
            (commit_writes R loaded name entry_type payload (make_row R entry_type payload tail)
              tail)
            loaded)

not-true : (b : Bool) → not b ≡ true → b ≡ false
not-true false h = refl
not-true true h = cc

pub commit-IsCommitted :
    (R : Runtime) (L : Limits) (s after : Store) (name entry_type : String) (payload : Fields)
    → commit R L s name entry_type payload ≡ ok after
    → (tail : Tail) × (loaded : Store) × (load_tail R L s ≡ ok (tail, loaded))
      × IsCommitted R loaded after name entry_type payload tail
unfolding commit
commit-IsCommitted R L s after name entry_type payload h =
    let (p, e, r) = >>=-eq-ok (load_tail R L s) _ h in
    let (u, e1, r1) =
      >>=-eq-ok
        (require
          (leb
            (R.size (
              canonical_json (
                obj (journal_of R p.1 entry_type payload (make_row R entry_type payload p.0) p.0))))
            L.transaction_bytes)
          store_error "transaction exceeds bounded journal size")
        _ r in
    let (v, e2, r2) =
      >>=-eq-ok
        (require
          (not (
            collides (content_file p.1 entry_type (str R (get "contentDigest" payload)))
              (canonical_json (obj payload))))
          store_error "content path collision")
        _ r1 in
    (p.0, p.1, e, (not-true _ (require-eq-ok _ _ _ e2), sym (ok-injective r2)))

-- The parts of the store after the writes of a record's commit, where no transaction is pending.
pub record-rows :
    (R : Runtime) (s : Store) (name : String) (payload row : Fields) (tail : Tail)
    → (perform_all (commit_writes R s name "record" payload row tail) s).rows ≡ s.rows ++ row ∷ []
unfolding commit_writes perform_all perform
record-rows R s name payload row tail =
    elim (Bool-cases (is_some (content_file s "record" (str R (get "contentDigest" payload))))) [
      | inl held ↦ rw held refl
      | inr new ↦ rw new refl
    ]

pub record-events :
    (R : Runtime) (s : Store) (name : String) (payload row : Fields) (tail : Tail)
    → (perform_all (commit_writes R s name "record" payload row tail) s).events ≡ s.events
unfolding commit_writes perform_all perform
record-events R s name payload row tail =
    elim (Bool-cases (is_some (content_file s "record" (str R (get "contentDigest" payload))))) [
      | inl held ↦ rw held refl
      | inr new ↦ rw new refl
    ]

pub record-tail :
    (R : Runtime) (s : Store) (name : String) (payload row : Fields) (tail : Tail)
    → (perform_all (commit_writes R s name "record" payload row tail) s).tail
      ≡ some (tail_after R s row tail)
unfolding commit_writes perform_all perform
record-tail R s name payload row tail =
    elim (Bool-cases (is_some (content_file s "record" (str R (get "contentDigest" payload))))) [
      | inl held ↦ rw held refl
      | inr new ↦ rw new refl
    ]

pub record-records :
    (R : Runtime) (s : Store) (name : String) (payload row : Fields) (tail : Tail)
    → (perform_all (commit_writes R s name "record" payload row tail) s).records ≡ (
        if is_some (content_file s "record" (str R (get "contentDigest" payload)))
        then s.records
        else put_file
            (stem_of (str R (get "contentDigest" payload)))
            (canonical_json (obj payload))
            s.records)
unfolding commit_writes perform_all perform
record-records R s name payload row tail =
    elim (Bool-cases (is_some (content_file s "record" (str R (get "contentDigest" payload))))) [
      | inl held ↦ rw held refl
      | inr new ↦ rw new refl
    ]

pub record-transactions :
    (R : Runtime) (s : Store) (name : String) (payload row : Fields) (tail : Tail)
    → s.transactions ≡ []
    → (perform_all (commit_writes R s name "record" payload row tail) s).transactions ≡ []
unfolding commit_writes perform_all perform
record-transactions R s name payload row tail none' =
    elim (Bool-cases (is_some (content_file s "record" (str R (get "contentDigest" payload))))) [
      | inl held ↦ rw (held, none', eq_refl name, eq_refl name, eq_refl name) refl
      | inr new ↦ rw (new, none', eq_refl name, eq_refl name, eq_refl name) refl
    ]

-- ===== src/Work/History/Revised.antt =====
-- What `revised_work_record` of work.py writes, and how `project_work_history` reads it.
use mncs_commons.Base.{
  suc, ◌≤◌, pos, ℤ, true, ◌≡◌, refl, sym, ap, ◌∙◌, Option, some, none, List, [], ◌∷◌, ◌++◌, arith,
  last?, length, String, keep,
}
use mncs_commons.Json.{num, Fields, get, fields_of}
use mncs_commons.Json.Equality.{py_eq}
use mncs_commons.Result.{Runtime, ok, >>=-eq-ok, ok-injective}
use mncs_commons.Work.Revise.{revised_work_record}
use mncs_commons.Work.Revise.Inversion.{Parts, revised_work_record-Parts}
use mncs_commons.Work.Revise.Outcome.{metadata_of_next}
use mncs_commons.Work.History.{
  project_last, Entry, Projection, entry_of, is_revision_of, keyed_by_revision, sort_revisions,
  items_in, links, projection_of, project_work_history,
}
use mncs_commons.Work.History.Sorting.{
  AreKept, keyed-AreKept, sort-AreKept, last-AreKept, keyed-append, sort-all_below, sort-append,
  items_in-append, all-keep, keep-append, all_below,
}
use mncs_commons.Work.History.Links.{
  count_from, count_from_lem, Last, links-Last, links-append, links-all_below,
}
use mncs_commons.Work.History.Steps.{check_link-next, child-of, is_revision-next, key-next}

last-append : (items : List Fields) (item : Fields) → last? (items ++ item ∷ []) ≡ some item
last-append [] item = refl
last-append (first ∷ []) item = refl
last-append (first ∷ second ∷ items) item = last-append (second ∷ items) item

module _ {R : Runtime} {now : String} {current transition next : Fields}
    (p : Parts R now current transition next) (id : String) (keys : List (ℤ × Fields))
    (entries : List Entry) (kept : AreKept R (is_revision_of id) keys)
    (links_ok : links R 1 none (items_in (sort_revisions keys)) ≡ ok entries)
    (is_last : last? (items_in (sort_revisions keys)) ≡ some current) where
  last_round : Last R 1 none current entries
  last_round = links-Last R 1 none (items_in (sort_revisions keys)) current entries links_ok is_last

  same_metadata : last_round.metadata ≡ p.metadata
  same_metadata =
      ok-injective
        (sym last_round.has_metadata ∙ child-of "metadata" current p.metadata p.has_metadata)

  current-numbered : py_eq (get "revision" p.metadata) (num (pos last_round.number)) ≡ true
  current-numbered = rw (← same_metadata) last_round.is_numbered

  kept-next : is_revision_of id next ≡ true
  kept-next =
      is_revision-next p id
      ∙ last-AreKept R (is_revision_of id) (sort_revisions keys) current
          (sort-AreKept R (is_revision_of id) keys kept) is_last

  sorted-next :
      items_in (sort_revisions (keys ++ (pos (suc last_round.number), next) ∷ []))
      ≡ items_in (sort_revisions keys) ++ next ∷ []
  sorted-next =
      let l : count_from 1 entries ≤ suc last_round.number = rw last_round.is_next (ground arith) in
      let below : all_below (pos (suc last_round.number)) (sort_revisions keys) ≡ true =
        links-all_below R (is_revision_of id) 1 none (sort_revisions keys) entries _
          (sort-AreKept R (is_revision_of id) keys kept) links_ok l in
      ap items_in (
        sort-append (pos (suc last_round.number)) next keys
          (sym (sort-all_below (pos (suc last_round.number)) keys) ∙ below))
      ∙ items_in-append (sort_revisions keys) (pos (suc last_round.number)) next

  links-next :
      links R 1 none (items_in (sort_revisions keys) ++ next ∷ [])
      ≡ ok (entries ++ entry_of R (suc (length entries)) p.metadata' next ∷ [])
  links-next =
      let one_more : count_from 1 entries ≡ suc (length entries) =
        ground (arith, count_from_lem 1 entries) in
      let added =
        links-append R 1 none (items_in (sort_revisions keys)) next p.metadata' entries links_ok
          (child-of "metadata" next p.metadata' (metadata_of_next p))
          (rw (last_round.is_next, last_round.is_latest)
            (check_link-next p last_round.number last_round.metadata current-numbered)) in
      added ∙ ap (λ n. ok (entries ++ entry_of R n p.metadata' next ∷ [])) one_more

  project-next :
      project_last R id
        (items_in (sort_revisions (keys ++ (pos (suc last_round.number), next) ∷ [])))
        (last? (items_in (sort_revisions (keys ++ (pos (suc last_round.number), next) ∷ []))))
      ≡ ok (
          projection_of R id next
            (entries ++ entry_of R (suc (length entries)) p.metadata' next ∷ []))
  project-next =
      rw (sorted-next, last-append (items_in (sort_revisions keys)) next, links-next) refl

-- A projection, taken apart.
record Projected (R : Runtime) (records : List Fields) (id : String) (view : Projection)
    : Type 0 where
  keys : List (ℤ × Fields)
  entries : List Entry
  keys_ok : keyed_by_revision R (keep (is_revision_of id) records) ≡ ok keys
  links_ok : links R 1 none (items_in (sort_revisions keys)) ≡ ok entries
  is_last : last? (items_in (sort_revisions keys)) ≡ some view.current
  is_view : view ≡ projection_of R id view.current entries

sorted-Projected :
    (R : Runtime) (records : List Fields) (id : String) (view : Projection)
    (keys : List (ℤ × Fields)) (found : Option Fields)
    → keyed_by_revision R (keep (is_revision_of id) records) ≡ ok keys
    → last? (items_in (sort_revisions keys)) ≡ found
    → project_last R id (items_in (sort_revisions keys)) found ≡ ok view
    → Projected R records id view
sorted-Projected R records id view keys none k l h = cc
sorted-Projected R records id view keys (some current) k l h =
    let (entries, e, r) = >>=-eq-ok (links R 1 none (items_in (sort_revisions keys))) _ h in
    let same : projection_of R id current entries ≡ view = ok-injective r in
    let same_current : current ≡ view.current = ap (λ v. v.current) same in
    record {
      keys = keys;
      entries = entries;
      keys_ok = k;
      links_ok = e;
      is_last = l ∙ ap some same_current;
      is_view = sym same ∙ ap (λ c. projection_of R id c entries) same_current;
    }

project-Projected :
    (R : Runtime) (records : List Fields) (id : String) (view : Projection)
    → project_work_history R records id ≡ ok view
    → Projected R records id view
unfolding project_work_history
project-Projected R records id view h =
    let (keys, e, r) = >>=-eq-ok (keyed_by_revision R (keep (is_revision_of id) records)) _ h in
    sorted-Projected R records id view keys _ e refl r

project-extended :
    (R : Runtime) (now : String) (records : List Fields) (id : String) (view : Projection)
    (transition next : Fields) (p : Parts R now view.current transition next)
    (q : Projected R records id view)
    → project_work_history R (records ++ next ∷ []) id
      ≡ ok (
          projection_of R id next
            (q.entries ++ entry_of R (suc (length q.entries)) p.metadata' next ∷ []))
unfolding project_work_history
project-extended R now records id view transition next p q =
    let kept =
      keyed-AreKept R (is_revision_of id) (keep (is_revision_of id) records) q.keys
        (all-keep (is_revision_of id) records) q.keys_ok in
    let number = current-numbered p id q.keys q.entries kept q.links_ok q.is_last in
    let more =
      keyed-append R (is_revision_of id) (keep (is_revision_of id) records) next _ q.keys q.keys_ok
        (key-next p _ number) in
    rw
      (
        keep-append (is_revision_of id) records next
            (kept-next p id q.keys q.entries kept q.links_ok q.is_last),
        more,
      )
      (project-next p id q.keys q.entries kept q.links_ok q.is_last)

-- A history that projects to a current record still projects when a revision of that record is
-- added at its end: to that revision, which is listed last, under the next number.
pub project-revised :
    (R : Runtime) (now : String) (records : List Fields) (id : String) (view : Projection)
    (transition next : Fields)
    → project_work_history R records id ≡ ok view
    → revised_work_record R now view.current transition ≡ ok next
    → project_work_history R (records ++ next ∷ []) id
      ≡ ok (
          projection_of R id next (
            view.history
            ++ entry_of R (suc (length view.history)) (fields_of (get "metadata" next)) next ∷ []))
project-revised R now records id view transition next h revised =
    let q = project-Projected R records id view h in
    let p = revised_work_record-Parts R now view.current transition next revised in
    let same : q.entries ≡ view.history = sym (ap (λ v. v.history) q.is_view) in
    let metadata : p.metadata' ≡ fields_of (get "metadata" next) =
      sym (ap fields_of (metadata_of_next p)) in
    project-extended R now records id view transition next p q
    ∙ ap
        (λ es.
          ok (projection_of R id next (es ++ entry_of R (suc (length es)) p.metadata' next ∷ [])))
        same
    ∙ ap
        (λ m. ok (
          projection_of R id next
            (view.history ++ entry_of R (suc (length view.history)) m next ∷ [])))
        metadata

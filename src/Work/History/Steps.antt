-- ===== src/Work/History/Steps.antt =====
-- work.py: a revision that `revised_work_record` writes follows the one that it revises, in the sense of `project_work_history`.
use mncs_commons.Base.{
  ℕ, suc, eqb, ◌&&◌, pos, Bool, true, ◌≡◌, refl, sym, ap, ◌∙◌, Option, some, none, ◌||◌, arith,
  String, or_else, contains, ◌==◌, eq_refl,
}
use mncs_commons.Json.{Json, null, num, text, obj, Fields, end, get, get_or, lookup, has}
use mncs_commons.Json.Equality.{py_eq}
use mncs_commons.Result.{Runtime, ok, ok-injective}
use mncs_commons.Models.{str, child}
use mncs_commons.Work.States.{allowed_work_transitions}
use mncs_commons.Work.Lineage.{revision_of}
use mncs_commons.Work.Revise.Inversion.{Parts}
use mncs_commons.Work.Revise.Request.{
  details_of_next, state_of_next, event_of_next, request_of_next, details-Framed,
}
use mncs_commons.Work.Revise.Successor.{target_state-allowed, next_event-states}
use mncs_commons.Work.Revise.Outcome.{Follows, next_metadata-Follows, metadata_of_next}
use mncs_commons.Work.History.{
  Entry, entry_of, is_revision_of, details_of, state_of, check_link, check_previous,
}
use mncs_commons.Work.History.Links.{to_int-numbered}

eqb_refl : (n : ℕ) → eqb n n ≡ true
eqb_refl n = ground arith

get_or-of :
    (k : String) (d : Json) (fs : Fields) (v : Fields) → get k fs ≡ obj v → get_or k d fs ≡ obj v
unfolding get get_or
get_or-of k d fs v h = of_option (lookup k fs) h
  where
    of_option : (o : Option Json) → or_else o null ≡ obj v → or_else o d ≡ obj v
    of_option none e = cc
    of_option (some w) e = e

pub child-of : (k : String) (fs v : Fields) → get k fs ≡ obj v → child k fs ≡ ok v
unfolding child
child-of k fs v h = rw (get_or-of k (obj end) fs v h) refl

-- What a round asks of a revision after another.
check_previous-holds :
    (R : Runtime) (before : Entry) (metadata item event : Fields)
    → get "previousDigest" metadata ≡ text before.digest
    → (state_of R item == before.state
        || contains (allowed_work_transitions before.state) (state_of R item))
      ≡ true
    → get "stateEvent" (details_of item) ≡ obj event
    → get "from" event ≡ text before.state
    → check_previous R (some before) metadata item ≡ ok tt
unfolding check_previous
check_previous-holds R before metadata item event d s e f =
    rw
      (
        d,
        eq_refl before.digest,
        s,
        get_or-of "stateEvent" (obj end) (details_of item) event e,
        f,
        eq_refl before.state,
      )
      refl

or-swap : (a b c : Bool) → (c || (a && b)) ≡ true → (a || c) ≡ true
or-swap a b c h = ground arith

module _ {R : Runtime} {now : String} {current transition next : Fields}
    (p : Parts R now current transition next) where
  pub is_revision-next : (id : String) → is_revision_of id next ≡ is_revision_of id current
  is_revision-next id =
      rw (details_of_next p, p.has_details)
        (rw ((details-Framed p).same "workProtocol" refl, request_of_next p "workId" refl) refl)

  state_of-next : state_of R next ≡ p.target
  state_of-next = rw (details_of_next p) (rw (state_of_next p) refl)

  state_of-current : state_of R current ≡ str R (get "state" p.details)
  state_of-current = rw p.has_details refl

  follows : Follows R current p.metadata p.metadata'
  follows = next_metadata-Follows R now current p.actor p.metadata p.metadata' p.metadata_ok

  -- The round that reads the revision accepts it, after the one that read the revised record.
  check_previous-next :
      (k : ℕ) (m : Fields)
      → check_previous R (some (entry_of R k m current)) p.metadata' next ≡ ok tt
  check_previous-next k m =
      let previous = str R (get "state" p.details) in
      check_previous-holds R (entry_of R k m current) p.metadata' next p.event follows.0
        (rw (state_of-next, state_of-current)
          (or-swap _ (has "attachments" transition) _
            (target_state-allowed previous p.target transition p.target_ok)))
        (rw (details_of_next p) (event_of_next p))
        (rw state_of-current (next_event-states previous p.target p.actor _ p.event p.event_ok).0)

  -- The number of the revision, where the revised record has the number before it.
  revision-next :
      (k : ℕ)
      → py_eq (get "revision" p.metadata) (num (pos k)) ≡ true
      → get "revision" p.metadata' ≡ num (pos (suc k))
  revision-next k e =
      let (n, read, written) = follows.1 in
      let same : pos k ≡ n =
        ok-injective (sym (to_int-numbered R p.metadata (num (pos 1)) k e) ∙ read) in
      written ∙ (rw (← same) (ap (λ t. num (pos t)) (ground arith)))

  pub check_link-next :
      (k : ℕ) (m : Fields)
      → py_eq (get "revision" p.metadata) (num (pos k)) ≡ true
      → check_link R (suc k) (some (entry_of R k m current)) p.metadata' next ≡ ok tt
  unfolding check_link py_eq
  check_link-next k m e = rw (revision-next k e, eqb_refl (suc k)) (check_previous-next k m)

  pub key-next :
      (k : ℕ)
      → py_eq (get "revision" p.metadata) (num (pos k)) ≡ true
      → revision_of R (num (pos 0)) next ≡ ok (pos (suc k))
  unfolding revision_of py_eq
  key-next k e = rw (child-of "metadata" next p.metadata' (metadata_of_next p)) (
      to_int-numbered R p.metadata' (num (pos 0)) (suc k)
        (rw (revision-next k e) (eqb_refl (suc k))))

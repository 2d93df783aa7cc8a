-- ===== src/Work/Revise/Legal.antt =====
-- The revision that `revised_work_record` returns, against `work_semantic_diagnostics`.
use mncs_commons.Base.{
  pos, ℤ, String, ◌≡◌, refl, ap, Bool, true, false, not, ◌&&◌, ◌||◌, List, [], ◌∷◌, arith, ◌==◌,
  contains, eq_refl, Bool-cases, inl, inr,
}
use mncs_commons.Json.{num, obj, text, Fields, get, has, fields_of}
use mncs_commons.Json.Reflexive.{AreFields}
use mncs_commons.Result.{Runtime, ok}
use mncs_commons.Models.{str}
use mncs_commons.Work.States.{
  allowed_work_transitions, allowed_coordination_transitions, coordination_state,
}
use mncs_commons.Work.Lineage.{
  immutable_fields, mutations, lineage_checks, against_latest, work_semantic_diagnostics,
  latest_from, revision_of, is_work,
}
use mncs_commons.Work.Revise.{revised_work_record}
use mncs_commons.Work.Revise.Inversion.{Parts, revised_work_record-Parts}
use mncs_commons.Work.Revise.Request.{
  details_of_next, state_of_next, event_of_next, coordination_of_next, request_of_next,
  details-Framed,
}
use mncs_commons.Work.Revise.Successor.{
  target_state-allowed, next_event-states, coordination_state-of_text, checked_coordination-allowed,
  mutations-nil,
}

-- A check whose condition is false reports nothing.
abbrev or-report : Bool → Bool → Bool
or-report same listed = not same && not listed

or-report-false : (a b c : Bool) → (b || (a && c)) ≡ true → (not a && not b) ≡ false
or-report-false a b c h = ground arith

or-report-false' : (a b : Bool) → (a || b) ≡ true → (not a && not b) ≡ false
or-report-false' a b h = ground arith

-- The three checks, for details with known state, event and coordination state.
lineage_checks-nil :
    (R : Runtime) (details before event : Fields) (state next : String)
    → get "state" details ≡ text state
    → get "stateEvent" details ≡ obj event
    → coordination_state R details ≡ next
    → get "from" event ≡ text (str R (get "state" before))
    → (not (state == str R (get "state" before))
        && not (contains (allowed_work_transitions (str R (get "state" before))) state))
      ≡ false
    → (not (next == coordination_state R before)
        && not (contains (allowed_coordination_transitions (coordination_state R before)) next))
      ≡ false
    → lineage_checks R details before ≡ []
unfolding lineage_checks
lineage_checks-nil R details before event state next hs he hc hf move comove =
    rw (hs, he, hc, hf, move, comove, eq_refl (str R (get "state" before))) refl

module _ {R : Runtime} {now : String} {current transition next : Fields}
    (p : Parts R now current transition next) where
  lineage-of_Parts : lineage_checks R p.details' p.details ≡ []
  lineage-of_Parts =
      let previous = str R (get "state" p.details) in
      let allowed =
        checked_coordination-allowed R p.target p.details transition _ p.coordination_ok in
      lineage_checks-nil R p.details' p.details p.event p.target p.coordination (state_of_next p)
        (event_of_next p)
        (coordination_state-of_text R p.details' p.coordination (coordination_of_next p) allowed.0)
        (next_event-states previous p.target p.actor _ p.event p.event_ok).0
        (or-report-false _ _ (has "attachments" transition)
          (target_state-allowed previous p.target transition p.target_ok))
        (or-report-false' _ _ allowed.1)

  mutations-of_Parts : AreFields p.details → mutations p.details' p.details immutable_fields ≡ []
  mutations-of_Parts w = mutations-nil p.details' p.details immutable_fields w (request_of_next p)

  is_work-next : is_work (obj p.details') ≡ is_work (obj p.details)
  is_work-next = rw ((details-Framed p).same "workProtocol" refl) refl

  against_latest-nil :
      AreFields p.details
      → is_work (obj p.details) ≡ true
      → against_latest R p.details' (obj p.details) ≡ []
  unfolding against_latest
  against_latest-nil w work = rw (work, mutations-of_Parts w, lineage-of_Parts) refl

-- A revision of the latest record of a history passes the check that the store makes of it against
-- that history, where no dict of the record holds a key twice.
pub revised-is_legal :
    (R : Runtime) (now : String) (current transition next first : Fields) (others : List Fields)
    (n : ℤ)
    → revised_work_record R now current transition ≡ ok next
    → AreFields (fields_of (get "details" current))
    → revision_of R (num (pos 1)) first ≡ ok n
    → latest_from R first n others ≡ ok current
    → work_semantic_diagnostics R next (first ∷ others) ≡ ok []
unfolding work_semantic_diagnostics
revised-is_legal R now current transition next first others n h w e l =
    let p = revised_work_record-Parts R now current transition next h in
    let w' : AreFields p.details = rw p.has_details at w in
    elim (Bool-cases (is_work (obj p.details))) [
      | inl work ↦
          rw (details_of_next p, is_work-next p, work, e, l, p.has_details)
            (ap ok (against_latest-nil p w' work))
      | inr other ↦ rw (details_of_next p, is_work-next p, other) refl
    ]

-- ===== src/Work/Revise/Outcome.antt =====
-- What a revision that `revised_work_record` returns says: its place in the history, and what its
-- states call for.
use mncs_commons.Base.{
  inr, inl, Bool-cases, ◌<>◌, ℤ, suc_ℤ, pos, String, ◌≡◌, ◌≢◌, sym, refl, ◌∙◌, Bool, true, false,
  not, ◌&&◌, [], ◌∷◌, arith, ◌==◌, eq_iff, contains,
}
use mncs_commons.Json.{
  has, Json, num, obj, text, Fields, get, get_or, equals, truthy, is_mapping, fields_of,
}
use mncs_commons.Json.Laws.{get-set}
use mncs_commons.Result.{
  Error, Runtime, ok, err, refused, reject, >>=-eq-ok, ok-injective, reject-eq-ok,
}
use mncs_commons.Models.{digest_of}
use mncs_commons.Work.Readers.{to_int}
use mncs_commons.Work.States.{
  coordination_state, implied_coordination, allowed_coordination_transitions,
}
use mncs_commons.Work.Revise.{
  allowed_coordination_transitions, implied_coordination, revised_work_record, next_metadata,
  revise_parts, revise, final_checks, next_coordination, checked_coordination, has_outcome,
  has_evidence,
}
use mncs_commons.Work.Revise.Frame.{with_relations-Framed}
use mncs_commons.Work.Revise.Inversion.{Parts, revised_work_record-Parts}
use mncs_commons.Work.Revise.Request.{details_of_next, state_of_next, coordination_of_next}
use mncs_commons.Work.Revise.Successor.{coordination_state-of_text, checked_coordination-allowed}

-- The metadata of a revision, at the fields that place it in the history.
abbrev pub Follows : Runtime → Fields → Fields → Fields → Type 0
Follows R current before after =
    (get "previousDigest" after ≡ text (digest_of R current))
    × ((n : ℤ) × (to_int R (get_or "revision" (num (pos 1)) before) ≡ ok n)
        × (get "revision" after ≡ num (suc_ℤ n)))

pub next_metadata-Follows :
    (R : Runtime) (now : String) (current actor metadata after : Fields)
    → next_metadata R now (digest_of R current) actor metadata ≡ ok after
    → Follows R current metadata after
unfolding next_metadata
next_metadata-Follows R now current actor metadata after h =
    let (n, e, h1) = >>=-eq-ok (to_int R (get_or "revision" (num (pos 1)) metadata)) _ h in
    rw (← ok-injective h1) (rw get-set, (n, e, simp get-set))

module _ {R : Runtime} {now : String} {current transition next : Fields}
    (p : Parts R now current transition next) where
  pub metadata_of_next : get "metadata" next ≡ obj p.metadata'
  metadata_of_next =
      rw (p.is_next, get-set)
        ((with_relations-Framed transition _ p.candidate p.relations_ok).same "metadata" refl
          ∙ rw get-set)

-- A revision names the digest of the record that it revises, and its number is one more than that
-- record's.
pub revised-Follows :
    (R : Runtime) (now : String) (current transition next : Fields)
    → revised_work_record R now current transition ≡ ok next
    → Follows R current (fields_of (get "metadata" current)) (fields_of (get "metadata" next))
revised-Follows R now current transition next h =
    let p = revised_work_record-Parts R now current transition next h in
    rw (p.has_metadata, metadata_of_next p)
      (next_metadata-Follows R now current p.actor p.metadata p.metadata' p.metadata_ok)

revise_parts-stale :
    (R : Runtime) (now : String) (current transition : Fields) (details metadata : Json)
    → is_mapping details ≡ true
    → is_mapping metadata ≡ true
    → equals (get "expectedPreviousDigest" transition) (digest_of R current) ≡ false
    → revise_parts R now current details metadata transition
      ≡ err (refused "WORK_CONFLICT" "expectedPreviousDigest is stale or missing")
unfolding revise
revise_parts-stale R now current transition (obj details) (obj metadata) d m stale = rw stale
revise_parts-stale R now current transition (obj details) _ d m stale = cc
revise_parts-stale R now current transition _ metadata d m stale = cc

stale-digest :
    (expected : Json) (old new : String)
    → equals expected old ≡ true
    → new ≢ old
    → equals expected new ≡ false
stale-digest (text t) old new h apart = elim (Bool-cases (t == new)) [
  | inl same ↦
      let is_old : t ≡ old = (eq_iff t old).0 h in
      let is_new : t ≡ new = (eq_iff t new).0 same in absurd (apart (sym is_new ∙ is_old))
  | inr other ↦ other
]
stale-digest _ old new h apart = cc

-- Of two transitions that each revise the same record, the one that comes second is a conflict once
-- the first was applied, if the revision has another digest than the record.
pub revised-conflict :
    (R : Runtime) (now later : String) (current first second next other : Fields)
    → revised_work_record R now current first ≡ ok next
    → revised_work_record R later current second ≡ ok other
    → digest_of R next ≢ digest_of R current
    → revised_work_record R later next second
      ≡ err (refused "WORK_CONFLICT" "expectedPreviousDigest is stale or missing")
unfolding revised_work_record
revised-conflict R now later current first second next other h k apart =
    let p = revised_work_record-Parts R now current first next h in
    let q = revised_work_record-Parts R later current second other k in
    rw (q.no_unknown, details_of_next p, metadata_of_next p)
      (revise_parts-stale R later next second (obj p.details') (obj p.metadata') refl refl
        (stale-digest _ (digest_of R current) (digest_of R next) q.is_fresh apart))

-- What the states of a revision call for, of its details.
pub record Settled (laned : Bool) (target coordination : String) (details : Fields) : Type 0 where
  pub blocked_has_blockers : target ≡ "blocked" → truthy (get "blockers" details) ≡ true
  pub coordination_blocked_has_blockers :
      coordination ≡ "BLOCKED" → truthy (get "blockers" details) ≡ true
  pub completed_has_outcome : target ≡ "completed" → has_outcome (get "result" details) ≡ true
  pub failed_has_outcome : target ≡ "failed" → has_outcome (get "result" details) ≡ true
  pub active_has_claim :
      laned ≡ true
      → contains ("CLAIMED" ∷ "IN_PROGRESS" ∷ "VERIFYING" ∷ []) coordination ≡ true
      → is_mapping (get "claim" details) ≡ true
  pub complete_has_evidence :
      laned ≡ true → coordination ≡ "COMPLETE" → has_evidence (get "result" details) ≡ true

equal-true : (s t : String) → s ≡ t → (s == t) ≡ true
equal-true s t h = ground (arith, eq_iff s t)

final_checks-Settled :
    (target coordination : String) (laned : Bool) (details : Fields)
    → final_checks target coordination laned details ≡ ok tt
    → Settled laned target coordination details
unfolding final_checks
final_checks-Settled target coordination laned details h =
    let blockers = truthy (get "blockers" details) in
    let outcome = has_outcome (get "result" details) in
    let (u1, e1, h1) = >>=-eq-ok (reject (target == "blocked" && not blockers) _ _) _ h in
    let (u2, e2, h2) =
      >>=-eq-ok (reject (contains ("completed" ∷ "failed" ∷ []) target && not outcome) _ _) _ h1 in
    let (u3, e3, h3) =
      >>=-eq-ok
        (reject
          (laned
            && contains ("CLAIMED" ∷ "IN_PROGRESS" ∷ "VERIFYING" ∷ []) coordination
            && not (is_mapping (get "claim" details)))
          _ _)
        _ h2 in
    let (u4, e4, h4) = >>=-eq-ok (reject (coordination == "BLOCKED" && not blockers) _ _) _ h3 in
    let b1 = reject-eq-ok _ _ _ e1 in
    let b2 = reject-eq-ok _ _ _ e2 in
    let b3 = reject-eq-ok _ _ _ e3 in
    let b4 = reject-eq-ok _ _ _ e4 in
    let b5 = reject-eq-ok _ _ _ h4 in
    record {
      blocked_has_blockers = λ e. ground (arith, equal-true target "blocked");
      coordination_blocked_has_blockers =
          λ e. ground (arith, equal-true coordination "BLOCKED", b4);
      completed_has_outcome = λ e. ground (arith, eq_iff "completed" target, b2);
      failed_has_outcome = λ e. ground (arith, eq_iff "failed" target, b2);
      active_has_claim = λ l a. ground (arith, b3);
      complete_has_evidence = λ l e. ground (arith, equal-true coordination "COMPLETE", b5);
    }

-- A revision that is blocked, in its work state or its coordination state, has blockers; one that is
-- completed or failed has a terminal outcome. Where the revised work has a lane, a revision whose
-- coordination state is claimed, in progress or verifying has a claim, and one whose coordination
-- state is complete has evidence.
pub revised-Settled :
    (R : Runtime) (now : String) (current transition next : Fields)
    → revised_work_record R now current transition ≡ ok next
    → (target coordination : String) × (get "state" (fields_of (get "details" next)) ≡ text target)
      × (coordination_state R (fields_of (get "details" next)) ≡ coordination)
      × Settled
          (truthy (get "lane" (fields_of (get "details" current))))
          target
          coordination
          (fields_of (get "details" next))
revised-Settled R now current transition next h =
    let p = revised_work_record-Parts R now current transition next h in
    let allowed =
      checked_coordination-allowed R p.target p.details transition _ p.coordination_ok in
    rw (p.has_details, details_of_next p)
      ((
        p.target,
        p.coordination,
        state_of_next p,
        coordination_state-of_text R p.details' p.coordination (coordination_of_next p) allowed.0,
        final_checks-Settled p.target p.coordination _ p.details' p.final_ok,
      ))

abbrev pub rejected : String → String → Error
rejected previous next =
    refused "WORK_COORDINATION_TRANSITION_REJECTED"
      (previous <> " -> " <> next <> " is not allowed")

-- Where the coordination state is `VERIFYING` and the transition names none itself, a move to
-- `running`, `failed` or `cancelled` is refused: the coordination state that the work state implies
-- does not follow `VERIFYING`.
pub checked_coordination-verifying :
    (R : Runtime) (target : String) (details transition : Fields)
    → coordination_state R details ≡ "VERIFYING"
    → has "coordinationState" transition ≡ false
    → contains ("running" ∷ "failed" ∷ "cancelled" ∷ []) target ≡ true
    → checked_coordination R target details transition
      ≡ err (rejected "VERIFYING" (implied_coordination target "VERIFYING"))
unfolding checked_coordination next_coordination implied_coordination
    allowed_coordination_transitions
checked_coordination-verifying R target details transition now none_given m =
    elim (Bool-cases (target == "running")) [
      | inl e ↦
          let same : target ≡ "running" = ground (arith, eq_iff target "running") in
          rw (same, now, none_given) refl
      | inr n1 ↦ elim (Bool-cases (target == "failed")) [
        | inl e ↦
            let same : target ≡ "failed" = ground (arith, eq_iff target "failed") in
            rw (same, now, none_given) refl
        | inr n2 ↦
            let e : target ≡ "cancelled" = ground (
              arith,
              eq_iff target "running",
              eq_iff target "failed",
              eq_iff "cancelled" target,
              eq_iff "running" target,
              eq_iff "failed" target,
            ) in
            rw (e, now, none_given) refl
      ]
    ]

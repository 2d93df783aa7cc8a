-- ===== src/Work/Revise/Request.antt =====
-- `revised_work_record` of work.py: the fields of a revision, and those of the request.
use mncs_commons.Base.{
  String, ◌≡◌, refl, ◌∙◌, Bool, true, false, not, List, [], ◌∷◌, ◌++◌, arith, eq_iff, contains, all,
}
use mncs_commons.Json.{obj, text, Fields, get, fields_of}
use mncs_commons.Json.Laws.{get-set}
use mncs_commons.Result.{Runtime, ok}
use mncs_commons.Work.Lineage.{immutable_fields}
use mncs_commons.Work.Revise.{revised_work_record, restated}
use mncs_commons.Work.Revise.Frame.{
  Framed, Framed-trans, late_fields, with_claim-Framed, with_follow_ons-Framed, with_fields-Framed,
}
use mncs_commons.Work.Revise.Inversion.{Parts, revised_work_record-Parts}

all-contains :
    (p : String → Bool) (xs : List String) (k : String)
    → all p xs ≡ true
    → contains xs k ≡ true
    → p k ≡ true
all-contains p [] k h m = cc
all-contains p (x ∷ xs) k h m = ground (arith, all-contains p xs k, eq_iff x k)

not-true : {b : Bool} → not b ≡ true → b ≡ false
not-true {b} h = ground arith

abbrev pub restated_fields : List String
restated_fields = "state" ∷ "requestState" ∷ "stateEvent" ∷ "coordinationState" ∷ []

-- The fields of the details that a revision may write.
abbrev pub written_fields : List String
written_fields = restated_fields ++ ("claim" ∷ []) ++ ("followOnRequests" ∷ []) ++ late_fields

restated-Framed :
    (details : Fields) (target : String) (event : Fields) (coordination : String)
    → Framed restated_fields details (restated details target event coordination)
restated-Framed details target event coordination = record {
  same = λ k h. simp get-set (ground arith);
}

module _ {R : Runtime} {now : String} {current transition next : Fields}
    (p : Parts R now current transition next) where
  pub fields-Framed :
      Framed
        (("claim" ∷ []) ++ ("followOnRequests" ∷ []) ++ late_fields)
        (restated p.details p.target p.event p.coordination)
        p.details'
  fields-Framed =
      Framed-trans ("claim" ∷ []) _ (with_claim-Framed transition _ p.claimed p.claim_ok) (
        Framed-trans ("followOnRequests" ∷ []) late_fields
          (with_follow_ons-Framed transition p.claimed p.followed p.follow_ok)
          (with_fields-Framed transition p.followed p.details' p.fields_ok))

  pub details-Framed : Framed written_fields p.details p.details'
  details-Framed =
      Framed-trans restated_fields _ (restated-Framed p.details p.target p.event p.coordination)
        fields-Framed

  pub details_of_next : get "details" next ≡ obj p.details'
  details_of_next = rw p.is_next (rw get-set)

  pub state_of_next : get "state" p.details' ≡ text p.target
  state_of_next = fields-Framed.same "state" refl ∙ simp get-set

  pub event_of_next : get "stateEvent" p.details' ≡ obj p.event
  event_of_next = fields-Framed.same "stateEvent" refl ∙ simp get-set

  pub coordination_of_next : get "coordinationState" p.details' ≡ text p.coordination
  coordination_of_next = fields-Framed.same "coordinationState" refl ∙ simp get-set

  pub request_of_next :
      (name : String)
      → contains immutable_fields name ≡ true
      → get name p.details' ≡ get name p.details
  request_of_next name h =
      details-Framed.same name (
        not-true (all-contains (λ n. not (contains written_fields n)) immutable_fields name refl h))

-- A revision keeps every field of the request that the code calls immutable.
pub revised-keeps_request :
    (R : Runtime) (now : String) (current transition next : Fields) (name : String)
    → revised_work_record R now current transition ≡ ok next
    → contains immutable_fields name ≡ true
    → get name (fields_of (get "details" next)) ≡ get name (fields_of (get "details" current))
revised-keeps_request R now current transition next name h m =
    let p = revised_work_record-Parts R now current transition next h in
    rw (details_of_next p, p.has_details) (request_of_next p name m)

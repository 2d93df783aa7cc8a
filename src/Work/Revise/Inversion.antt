-- ===== src/Work/Revise/Inversion.antt =====
-- What a revision that `revised_work_record` returns is made of.
use mncs_commons.Base.{String, ◌≡◌, refl, sym, true, false}
use mncs_commons.Json.{Json, obj, Fields, get, set, pop, equals, truthy}
use mncs_commons.Result.{
  Runtime, ok, require, reject, >>=-eq-ok, ok-injective, require-eq-ok, reject-eq-ok,
}
use mncs_commons.Models.{str, digest_of}
use mncs_commons.Work.Readers.{actor_of}
use mncs_commons.Work.Hygiene.{hygiene_scope_invalid}
use mncs_commons.Work.Revise.{
  revise_parts, hygiene_message, has_unknown, transition_fields, target_state, next_metadata,
  next_event, checked_coordination, restated, with_claim, with_follow_ons, with_fields,
  with_relations, final_checks, revise, revised_work_record,
}

-- The values that the code computes on the way to a revision, with the equations between them.
pub record Parts (R : Runtime) (now : String) (current transition next : Fields) : Type 0 where
  pub details : Fields
  pub metadata : Fields
  pub target : String
  pub actor : Fields
  pub metadata' : Fields
  pub event : Fields
  pub coordination : String
  pub claimed : Fields
  pub followed : Fields
  pub candidate : Fields
  pub details' : Fields
  pub has_details : get "details" current ≡ obj details
  pub has_metadata : get "metadata" current ≡ obj metadata
  pub no_unknown : has_unknown transition_fields transition ≡ false
  pub is_fresh : equals (get "expectedPreviousDigest" transition) (digest_of R current) ≡ true
  pub target_ok : target_state (str R (get "state" details)) transition ≡ ok target
  pub actor_ok : actor_of (get "actor" transition) "actor" ≡ ok actor
  pub metadata_ok : next_metadata R now (digest_of R current) actor metadata ≡ ok metadata'
  pub event_ok :
      next_event (str R (get "state" details)) target actor (get "reason" transition) ≡ ok event
  pub coordination_ok : checked_coordination R target details transition ≡ ok coordination
  pub hygiene_ok : hygiene_scope_invalid R (restated details target event coordination) ≡ false
  pub claim_ok : with_claim transition (restated details target event coordination) ≡ ok claimed
  pub follow_ok : with_follow_ons transition claimed ≡ ok followed
  pub relations_ok :
      with_relations transition (set "metadata" (obj metadata') (pop "contentDigest" current))
      ≡ ok candidate
  pub fields_ok : with_fields transition followed ≡ ok details'
  pub final_ok : final_checks target coordination (truthy (get "lane" details)) details' ≡ ok tt
  pub is_next : next ≡ set "details" (obj details') candidate

module _ (R : Runtime) (now : String) (current transition next : Fields) where
  revise-Parts :
      (details metadata : Fields)
      → get "details" current ≡ obj details
      → get "metadata" current ≡ obj metadata
      → has_unknown transition_fields transition ≡ false
      → revise R now current details metadata transition ≡ ok next
      → Parts R now current transition next
  unfolding revise
  revise-Parts details metadata hd hm hu h =
      let previous = str R (get "state" details) in
      let digest = digest_of R current in
      let (u1, e1, h1) =
        >>=-eq-ok
          (require (equals (get "expectedPreviousDigest" transition) digest) "WORK_CONFLICT"
            "expectedPreviousDigest is stale or missing")
          _ h in
      let (target, e2, h2) = >>=-eq-ok (target_state previous transition) _ h1 in
      let (actor, e3, h3) = >>=-eq-ok (actor_of (get "actor" transition) "actor") _ h2 in
      let (metadata', e4, h4) = >>=-eq-ok (next_metadata R now digest actor metadata) _ h3 in
      let (event, e5, h5) =
        >>=-eq-ok (next_event previous target actor (get "reason" transition)) _ h4 in
      let (coordination, e6, h6) =
        >>=-eq-ok (checked_coordination R target details transition) _ h5 in
      let (u7, e7, h7) =
        >>=-eq-ok
          (reject (hygiene_scope_invalid R (restated details target event coordination))
            "WORK_HYGIENE_REPOSITORY_SCOPE_INVALID" hygiene_message)
          _ h6 in
      let (claimed, e8, h8) =
        >>=-eq-ok (with_claim transition (restated details target event coordination)) _ h7 in
      let (followed, e9, h9) = >>=-eq-ok (with_follow_ons transition claimed) _ h8 in
      let (candidate, e10, h10) =
        >>=-eq-ok
          (with_relations transition (set "metadata" (obj metadata') (pop "contentDigest" current)))
          _ h9 in
      let (details', e11, h11) = >>=-eq-ok (with_fields transition followed) _ h10 in
      let (u12, e12, h12) =
        >>=-eq-ok (final_checks target coordination (truthy (get "lane" details)) details') _ h11 in
      record {
        details = details;
        metadata = metadata;
        target = target;
        actor = actor;
        metadata' = metadata';
        event = event;
        coordination = coordination;
        claimed = claimed;
        followed = followed;
        candidate = candidate;
        details' = details';
        has_details = hd;
        has_metadata = hm;
        no_unknown = hu;
        is_fresh = require-eq-ok _ _ _ e1;
        target_ok = e2;
        actor_ok = e3;
        metadata_ok = e4;
        event_ok = e5;
        coordination_ok = e6;
        hygiene_ok = reject-eq-ok _ _ _ e7;
        claim_ok = e8;
        follow_ok = e9;
        relations_ok = e10;
        fields_ok = e11;
        final_ok = e12;
        is_next = sym (ok-injective h12);
      }

  revise_parts-Parts :
      (d m : Json)
      → get "details" current ≡ d
      → get "metadata" current ≡ m
      → has_unknown transition_fields transition ≡ false
      → revise_parts R now current d m transition ≡ ok next
      → Parts R now current transition next
  revise_parts-Parts (obj details) (obj metadata) hd hm hu h =
      revise-Parts details metadata hd hm hu h
  revise_parts-Parts _ _ hd hm hu h = cc

  pub revised_work_record-Parts :
      revised_work_record R now current transition ≡ ok next → Parts R now current transition next
  unfolding revised_work_record
  revised_work_record-Parts h =
      let (u, e, h1) =
        >>=-eq-ok
          (reject (has_unknown transition_fields transition) "WORK_INVALID"
            "work transition contains unexpected fields")
          _ h in
      revise_parts-Parts (get "details" current) (get "metadata" current) refl refl
        (reject-eq-ok _ _ _ e) h1

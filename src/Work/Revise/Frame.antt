-- ===== src/Work/Revise/Frame.antt =====
-- What each step of `revised_work_record` writes, and what it leaves as it was.
use mncs_commons.Base.{
  inr, inl, Bool-cases, contains-append, String, ◌≡◌, refl, sym, Bool, true, false, List, [], ◌∷◌,
  ◌++◌, arith, contains, if◌then◌else◌,
}
use mncs_commons.Json.{nil, get_or, Json, obj, arr, Fields, get, has, set, texts, from_list}
use mncs_commons.Json.Laws.{get-set}
use mncs_commons.Result.{Result, ok, err, ◌>>=◌, >>=-eq-ok, ok-injective}
use mncs_commons.Work.Readers.{
  string_list, mapping_list, mapping, is_bounded_int, optional_mapping, invalid,
}
use mncs_commons.Work.Revise.{
  listed, with_relations, with_fields, with_claim, read_claim, with_follow_ons, with_attachments,
  with_routing, routed, with_attempt, with_mapping, with_blockers,
}

-- `b` has what `a` has under every key that is not in the list.
pub record Framed (ks : List String) (a b : Fields) : Type 0 where
  pub same : (k : String) → contains ks k ≡ false → get k b ≡ get k a

pub Framed-refl : (ks : List String) (a : Fields) → Framed ks a a
Framed-refl ks a = record { same = λ k h. refl }

pub Framed-set : (name : String) (v : Json) (a : Fields) → Framed (name ∷ []) a (set name v a)
Framed-set name v a = record { same = λ k h. rw get-set (ground arith) }

pub Framed-trans :
    (ks ls : List String) {a b c : Fields} → Framed ks a b → Framed ls b c → Framed (ks ++ ls) a c
Framed-trans ks ls f g = record {
  same = λ k h. ground (arith, contains-append ks ls k, f.same k, g.same k);
}

-- `if name in transition: details[name] = …`
written-Framed :
    {A : Type 0} (given : Bool) (read : Result A) (f : A → Json) (name : String) (d d' : Fields)
    → (if given then (read >>= λ v. ok (set name (f v) d)) else ok d) ≡ ok d'
    → Framed (name ∷ []) d d'
written-Framed true (ok v) f name d d' h = rw (sym (ok-injective h)) (Framed-set name (f v) d)
written-Framed true (err e) f name d d' h = cc
written-Framed false read f name d d' h = rw (sym (ok-injective h)) (Framed-refl _ d)

module _ (t d d' : Fields) where
  pub with_claim-Framed : with_claim t d ≡ ok d' → Framed ("claim" ∷ []) d d'
  unfolding with_claim
  with_claim-Framed h =
      written-Framed (has "claim" t) (read_claim (get "claim" t)) (λ c. c) "claim" d d' h

  pub with_follow_ons-Framed : with_follow_ons t d ≡ ok d' → Framed ("followOnRequests" ∷ []) d d'
  unfolding with_follow_ons
  with_follow_ons-Framed h =
      written-Framed (has "followOnRequests" t)
        (string_list (get "followOnRequests" t) "followOnRequests") (λ r. arr (texts r))
        "followOnRequests" d d' h

  with_attachments-Framed : with_attachments t d ≡ ok d' → Framed ("attachments" ∷ []) d d'
  unfolding with_attachments
  with_attachments-Framed h =
      written-Framed (has "attachments" t) (mapping_list (get "attachments" t) "attachments")
        (λ r. arr (from_list r)) "attachments" d d' h

  with_blockers-Framed : with_blockers t d ≡ ok d' → Framed ("blockers" ∷ []) d d'
  unfolding with_blockers
  with_blockers-Framed h =
      written-Framed (has "blockers" t) (string_list (get "blockers" t) "blockers")
        (λ r. arr (texts r)) "blockers" d d' h

  with_mapping-Framed : (name : String) → with_mapping name t d ≡ ok d' → Framed (name ∷ []) d d'
  unfolding with_mapping
  with_mapping-Framed name h =
      written-Framed (has name t) (mapping (get name t) name) obj name d d' h

  with_attempt-Framed : with_attempt t d ≡ ok d' → Framed ("attempt" ∷ []) d d'
  unfolding with_attempt
  with_attempt-Framed h =
      written-Framed (has "attempt" t)
        (if is_bounded_int 10000 (get "attempt" t)
          then ok (get "attempt" t)
          else invalid "attempt must be an integer between 0 and 10000")
        (λ v. v) "attempt" d d' (ground arith)

  with_routing-Framed : with_routing t d ≡ ok d' → Framed ("routing" ∷ []) d d'
  unfolding with_routing
  with_routing-Framed h =
      let (routing, _, h1) = >>=-eq-ok (optional_mapping (get "routing" d) "routing") _ h in
      let (routing', _, h2) =
        >>=-eq-ok (routed t ("fabricJobId" ∷ "workerId" ∷ "modelId" ∷ []) routing) _ h1 in
      rw (sym (ok-injective h2)) (Framed-set "routing" (obj routing') d)

-- The fields that `with_fields` may write.
abbrev pub late_fields : List String
late_fields = "attachments" ∷ "routing" ∷ "attempt" ∷ "progress" ∷ "result" ∷ "blockers" ∷ []

pub with_fields-Framed : (t d d' : Fields) → with_fields t d ≡ ok d' → Framed late_fields d d'
unfolding with_fields
with_fields-Framed t d d' h =
    let (d3, e3, h3) = >>=-eq-ok (with_attachments t d) _ h in
    let (d4, e4, h4) = >>=-eq-ok (with_routing t d3) _ h3 in
    let (d5, e5, h5) = >>=-eq-ok (with_attempt t d4) _ h4 in
    let (d6, e6, h6) = >>=-eq-ok (with_mapping "progress" t d5) _ h5 in
    let (d7, e7, h7) = >>=-eq-ok (with_mapping "result" t d6) _ h6 in
    Framed-trans ("attachments" ∷ []) _ (with_attachments-Framed t d d3 e3) (
      Framed-trans ("routing" ∷ []) _ (with_routing-Framed t d3 d4 e4) (
        Framed-trans ("attempt" ∷ []) _ (with_attempt-Framed t d4 d5 e5) (
          Framed-trans ("progress" ∷ []) _ (with_mapping-Framed t d5 d6 "progress" e6) (
            Framed-trans ("result" ∷ []) _ (with_mapping-Framed t d6 d7 "result" e7)
              (with_blockers-Framed t d7 d' h7)))))

-- The relations that the transition adds stand in the record, beside its details and metadata.
pub with_relations-Framed :
    (t c c' : Fields) → with_relations t c ≡ ok c' → Framed ("relationships" ∷ []) c c'
unfolding with_relations
with_relations-Framed t c c' h = elim (Bool-cases (has "followOnRequests" t)) [
  | inl given ↦
      let g = rw given at h in
      let (requests, _, h1) =
        >>=-eq-ok (string_list (get "followOnRequests" t) "followOnRequests") _ g in
      let (existing, _, h2) = >>=-eq-ok (listed (get_or "relationships" (arr nil) c)) _ h1 in
      rw (sym (ok-injective h2)) (Framed-set "relationships" _ c)
  | inr absent ↦ rw (sym (ok-injective (rw absent at h))) (Framed-refl _ c)
]

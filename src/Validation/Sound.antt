-- ===== src/Validation/Sound.antt =====
-- validation.py: what holds of a document that is found without fault.
use mncs_commons.Base.{String, true, false, List, [], ◌∷◌, ◌≡◌, refl, ◌∙◌, arith, eq_iff}
use mncs_commons.Json.{Json, text, obj, Fields, get, equals, is_null, fields_of}
use mncs_commons.Result.{Runtime, ok, >>=-eq-ok, ok-injective}
use mncs_commons.Lists.{append-nil-left, append-nil-right}
use mncs_commons.Models.{Diagnostic, report_if-nil, not-false}
use mncs_commons.Canonical.{canonical_digest}
use mncs_commons.Lane.{in_texts, is_true}
use mncs_commons.Validation.{object_checks, valid_digest}
use mncs_commons.Validation.Common.{security_fields, lifecycle_fields, common_record_checks}
use mncs_commons.Validation.Details.{record_kinds, details_checks}
use mncs_commons.Validation.Documents.{
  lifecycle_states, target_fields, transition_fields, digest_checks, digest_match, record_faults,
  validate_record, event_faults, validate_event,
}

pub equals-text : (j : Json) (s : String) → equals j s ≡ true → j ≡ text s
equals-text (text t) s h = ground (arith, eq_iff t s)
equals-text _ s h = cc

match-nil :
    (R : Runtime) (value : Fields) (ds : List Diagnostic)
    → digest_match R value ds ≡ []
    → (ds ≡ [])
      × (is_null (get "contentDigest" value) ≡ false
          → get "contentDigest" value ≡ text (canonical_digest R value))
unfolding digest_match
match-nil R value [] h = (
  refl,
  λ given. let off = report_if-nil _ _ _ _ h in equals-text _ _ (not-false _ (rw given at off)),
)
match-nil R value (d ∷ ds) h = cc

object-nil :
    (path : String) (checks : Fields → List Diagnostic) (j : Json)
    → object_checks path checks j ≡ []
    → (fs : Fields) × (j ≡ obj fs) × (checks fs ≡ [])
object-nil path checks (obj fs) h = (fs, refl, h)
object-nil path checks _ h = cc

digest-valid : (j : Json) → is_null j ≡ false → digest_checks j ≡ [] → valid_digest j ≡ true
unfolding digest_checks
digest-valid j given h =
    let off = report_if-nil _ _ _ _ h in not-false (valid_digest j) (rw given at off)

-- What the fields of a record's `lifecycle` and `security` must be.
abbrev pub IsProposedAndUntrusted : Fields → Type 0
IsProposedAndUntrusted value =
    (equals (get "initialState" (fields_of (get "lifecycle" value))) "proposed" ≡ true)
    × (is_true (get "instructionsAreUntrusted" (fields_of (get "security" value))) ≡ true)

lifecycle-proposed :
    (fs : Fields) → lifecycle_fields fs ≡ [] → equals (get "initialState" fs) "proposed" ≡ true
unfolding lifecycle_fields
lifecycle-proposed fs h =
    let l1 = append-nil-left _ _ h in not-false _ (report_if-nil _ _ _ _ (append-nil-right _ _ l1))

security-untrusted :
    (fs : Fields) → security_fields fs ≡ [] → is_true (get "instructionsAreUntrusted" fs) ≡ true
unfolding security_fields
security-untrusted fs h = not-false _ (report_if-nil _ _ _ _ (append-nil-right _ _ h))

common_sound :
    (R : Runtime) (value : Fields)
    → common_record_checks R value ≡ []
    → IsProposedAndUntrusted value
unfolding common_record_checks
common_sound R value h =
    let l1 = append-nil-left _ _ h in
    let l2 = append-nil-left _ _ l1 in
    let (lifecycle, e1, p) =
      object-nil "lifecycle" lifecycle_fields (get "lifecycle" value) (append-nil-right _ _ l2) in
    let l3 = append-nil-left _ _ l2 in
    let (security, e2, u) =
      object-nil "security" security_fields (get "security" value) (append-nil-right _ _ l3) in
    (rw e1 (lifecycle-proposed lifecycle p), rw e2 (security-untrusted security u))

-- A record found without fault that carries a digest carries its own; it is of a known kind, begins
-- as proposed, and holds its instructions for untrusted.
pub validate_record_sound :
    (R : Runtime) (value : Fields)
    → is_null (get "contentDigest" value) ≡ false
    → validate_record R (obj value) ≡ ok []
    → (get "contentDigest" value ≡ text (canonical_digest R value))
      × (valid_digest (get "contentDigest" value) ≡ true)
      × (in_texts record_kinds (get "kind" value) ≡ true)
      × IsProposedAndUntrusted value
unfolding validate_record record_faults
validate_record_sound R value given h =
    let (faults, e, r) = >>=-eq-ok (record_faults R value) _ h in
    let (more, e1, r1) =
      >>=-eq-ok (details_checks R value (get "kind" value) (get "details" value)) _ e in
    let (clean, own) = match-nil R value faults (ok-injective r) in
    let l0 = ok-injective r1 ∙ clean in
    let l1 = append-nil-left _ _ l0 in
    let l2 = append-nil-left _ _ l1 in
    let l3 = append-nil-left _ _ l2 in
    let l4 = append-nil-left _ _ l3 in
    (
      own given,
      digest-valid (get "contentDigest" value) given (append-nil-right _ _ l3),
      not-false _ (report_if-nil _ _ _ _ (append-nil-right _ _ l4)),
      common_sound R value (append-nil-right _ _ l1),
    )

-- What the fields of an event's `target` and `transition` must be.
abbrev pub NamesTargetAndStates : Fields → Type 0
NamesTargetAndStates value =
    (valid_digest (get "contentDigest" (fields_of (get "target" value))) ≡ true)
    × (in_texts lifecycle_states (get "from" (fields_of (get "transition" value))) ≡ true)
    × (in_texts lifecycle_states (get "to" (fields_of (get "transition" value))) ≡ true)

target_digest-valid :
    (fs : Fields) → target_fields fs ≡ [] → valid_digest (get "contentDigest" fs) ≡ true
unfolding target_fields
target_digest-valid fs h = not-false _ (report_if-nil _ _ _ _ (append-nil-right _ _ h))

transition_states-known :
    (fs : Fields)
    → transition_fields fs ≡ []
    → (in_texts lifecycle_states (get "from" fs) ≡ true)
      × (in_texts lifecycle_states (get "to" fs) ≡ true)
transition_states-known fs h = (
  not-false _ (report_if-nil _ _ _ _ (append-nil-left _ _ h)),
  not-false _ (report_if-nil _ _ _ _ (append-nil-right _ _ h)),
)

-- An event found without fault that carries a digest carries its own; it names its target by a
-- digest, and its transition names two lifecycle states.
pub validate_event_sound :
    (R : Runtime) (value : Fields)
    → is_null (get "contentDigest" value) ≡ false
    → validate_event R (obj value) ≡ []
    → (get "contentDigest" value ≡ text (canonical_digest R value))
      × (valid_digest (get "contentDigest" value) ≡ true)
      × NamesTargetAndStates value
unfolding validate_event event_faults
validate_event_sound R value given h =
    let (clean, own) = match-nil R value (event_faults R value) h in
    let l1 = append-nil-left _ _ clean in
    let l2 = append-nil-left _ _ l1 in
    let l3 = append-nil-left _ _ l2 in
    let l4 = append-nil-left _ _ l3 in
    let (target, e1, t) =
      object-nil "target" target_fields (get "target" value) (append-nil-right _ _ l4) in
    let (transition, e2, u) =
      object-nil "transition" transition_fields (get "transition" value)
        (append-nil-right _ _ l3) in
    let (from, to) = transition_states-known transition u in
    (
      own given,
      digest-valid (get "contentDigest" value) given (append-nil-right _ _ clean),
      (rw e1 (target_digest-valid target t), rw e2 from, rw e2 to),
    )

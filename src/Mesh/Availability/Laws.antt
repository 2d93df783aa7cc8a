-- ===== src/Mesh/Availability/Laws.antt =====
-- mesh/availability.py: references that are read and written, and the merge of tiers.
use mncs_commons.Base.{
  ◌⊎◌, ℕ, pos, String, ◌≡◌, refl, sym, ap, ◌∙◌, Bool, true, Option, none, some, arith, leb, ◌≤◌,
  Bool-cases, inl, inr, if◌then◌else◌,
}
use mncs_commons.Json.{Json, null, bool, num, text, arr, obj, get, get_or, lookup}
use mncs_commons.Result.{Runtime, ok, ◌>>=◌, >>=-eq-ok, ok-injective}
use mncs_commons.Models.{str}
use mncs_commons.Mesh.Availability.{
  Availability, unavailable, source_available, local, mirrored, durable, canonical, name_of,
  retention_priority, merge_availability, EvidenceReference, is_short, bounded, bounded_if_given,
  bounded_size, known_availability, from_mapping, as_fields, max_evidence_bytes,
}

known-name_of : (a : Availability) → known_availability (name_of a) ≡ ok a
unfolding known_availability
known-name_of unavailable = refl
known-name_of source_available = refl
known-name_of local = refl
known-name_of mirrored = refl
known-name_of durable = refl
known-name_of canonical = refl

abbrev fits : ℕ → Option String → Bool
fits maximum none = true
fits maximum (some s) = is_short maximum s

abbrev size_fits : Option ℕ → Bool
size_fits none = true
size_fits (some n) = leb n max_evidence_bytes

abbrev reference :
    String → Availability → Option String → Option ℕ → Option String → EvidenceReference
reference digest a media size provenance = record {
  digest = digest;
  availability = a;
  media_type = media;
  size_bytes = size;
  provenance = provenance;
}

bounded-short :
    (maximum : ℕ) (name : String) (j : Json) (s : String)
    → bounded maximum name j ≡ ok s
    → is_short maximum s ≡ true
unfolding bounded
bounded-short maximum name (text t) s h = elim (Bool-cases (is_short maximum t)) [
  | inl fit ↦ let same : t ≡ s = ok-injective (rw fit at h) in rw (← same) fit
  | inr long ↦ let never = rw long at h in cc
]
bounded-short maximum name _ s h = cc

some-fits :
    (maximum : ℕ) (name : String) (j : Json) (o : Option String)
    → (bounded maximum name j >>= λ s. ok (some s)) ≡ ok o
    → fits maximum o ≡ true
some-fits maximum name j o h =
    let (s, e, r) = >>=-eq-ok (bounded maximum name j) _ h in
    rw (← ok-injective r) (bounded-short maximum name j s e)

given-fits :
    (maximum : ℕ) (name : String) (j : Json) (o : Option String)
    → bounded_if_given maximum name j ≡ ok o
    → fits maximum o ≡ true
unfolding bounded_if_given
given-fits maximum name null o h = rw (← ok-injective h) refl
given-fits maximum name (bool b) o h = some-fits maximum name (bool b) o h
given-fits maximum name (num n) o h = some-fits maximum name (num n) o h
given-fits maximum name (text t) o h = some-fits maximum name (text t) o h
given-fits maximum name (arr vs) o h = some-fits maximum name (arr vs) o h
given-fits maximum name (obj fs) o h = some-fits maximum name (obj fs) o h

size-fits : (j : Json) (o : Option ℕ) → bounded_size j ≡ ok o → size_fits o ≡ true
unfolding bounded_size
size-fits null o h = rw (← ok-injective h) refl
size-fits (num (pos n)) o h = elim (Bool-cases (leb n max_evidence_bytes)) [
  | inl fit ↦ let same : some n ≡ o = ok-injective (rw fit at h) in rw (← same) fit
  | inr large ↦ let never = rw large at h in cc
]
size-fits _ o h = cc

-- A reference within the bounds is read back from what it is written as.
as_fields-fits :
    (R : Runtime) (digest : String) (a : Availability) (media : Option String) (size : Option ℕ)
    (provenance : Option String)
    → is_short 256 digest ≡ true
    → fits 128 media ≡ true
    → size_fits size ≡ true
    → fits 512 provenance ≡ true
    → from_mapping R (obj (as_fields (reference digest a media size provenance)))
      ≡ ok (reference digest a media size provenance)
unfolding from_mapping bounded bounded_if_given bounded_size get get_or lookup
as_fields-fits R digest a none none none d m s p = rw (d, known-name_of a) refl
as_fields-fits R digest a none none (some q) d m s p = rw (d, known-name_of a, p) refl
as_fields-fits R digest a none (some n) none d m s p = rw (d, known-name_of a, s) refl
as_fields-fits R digest a none (some n) (some q) d m s p = rw (d, known-name_of a, s, p) refl
as_fields-fits R digest a (some t) none none d m s p = rw (d, known-name_of a, m) refl
as_fields-fits R digest a (some t) none (some q) d m s p = rw (d, known-name_of a, m, p) refl
as_fields-fits R digest a (some t) (some n) none d m s p = rw (d, known-name_of a, m, s) refl
as_fields-fits R digest a (some t) (some n) (some q) d m s p = rw (d, known-name_of a, m, s, p) refl

-- A reference that was read is read back, the same, from what it is written as.
pub from_mapping-as_fields :
    (R : Runtime) (value : Json) (reference' : EvidenceReference)
    → from_mapping R value ≡ ok reference'
    → from_mapping R (obj (as_fields reference')) ≡ ok reference'
unfolding from_mapping
from_mapping-as_fields R (obj fs) reference' h' =
    let (d, e1, r1) = >>=-eq-ok (bounded 256 "digest" (get "digest" fs)) _ h' in
    let (a, e2, r2) =
      >>=-eq-ok (known_availability (str R (get_or "availability" (text "UNAVAILABLE") fs))) _ r1 in
    let (m, e3, r3) = >>=-eq-ok (bounded_if_given 128 "mediaType" (get "mediaType" fs)) _ r2 in
    let (n, e4, r4) = >>=-eq-ok (bounded_size (get "sizeBytes" fs)) _ r3 in
    let (p, e5, r5) = >>=-eq-ok (bounded_if_given 512 "provenance" (get "provenance" fs)) _ r4 in
    rw (← ok-injective r5) (
      as_fields-fits R d a m n p (bounded-short 256 "digest" _ d e1)
        (given-fits 128 "mediaType" _ m e3) (size-fits _ n e4) (given-fits 512 "provenance" _ p e5))
from_mapping-as_fields R _ reference' h = cc

abbrev of_priority : ℕ → Availability
of_priority n =
    if leb n 0
    then unavailable
    else if leb n 1
    then source_available
    else if leb n 2
    then local
    else if leb n 3
    then mirrored
    else if leb n 4
    then durable
    else canonical

of_priority-inverse : (a : Availability) → of_priority (retention_priority a) ≡ a
of_priority-inverse unavailable = refl
of_priority-inverse source_available = refl
of_priority-inverse local = refl
of_priority-inverse mirrored = refl
of_priority-inverse durable = refl
of_priority-inverse canonical = refl

priority-injective : (a b : Availability) → retention_priority a ≡ retention_priority b → a ≡ b
priority-injective a b e = sym (of_priority-inverse a) ∙ ap of_priority e ∙ of_priority-inverse b

-- Two tiers merge to the higher one: the merge is one of the two, and its priority is at least that of
-- either. The merge is commutative and associative.
pub merge_availability-join :
    (a b c : Availability)
    → ((merge_availability a b ≡ a) ⊎ (merge_availability a b ≡ b))
      × (merge_availability a b ≡ merge_availability b a)
      × (merge_availability (merge_availability a b) c
          ≡ merge_availability a (merge_availability b c))
      × (retention_priority a ≤ retention_priority (merge_availability a b))
      × (retention_priority b ≤ retention_priority (merge_availability a b))
unfolding merge_availability
merge_availability-join a b c = (
  elim (Bool-cases (leb (retention_priority b) (retention_priority a))) [
    | inl first ↦ inl (rw first refl)
    | inr second ↦ inr (rw second refl)
  ],
  ground (arith, priority-injective a b),
  ground (arith, priority-injective a b, priority-injective b c, priority-injective a c),
  ground arith,
  ground arith,
)

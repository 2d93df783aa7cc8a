-- ===== src/Producer/Texts.antt =====
-- family.py: the texts and the digests that the readers of a reference return are read as they are.
use mncs_commons.Base.{
  ℕ, String, ◌≡◌, refl, true, Option, none, some, arith, Bool-cases, inl, inr, strip, strip-strip,
  is_blank-strip, count-strip, has_nul-strip, is_hex, skip,
}
use mncs_commons.Json.{Json, null, bool, num, text, arr, obj}
use mncs_commons.Result.{ok, require, ◌>>=◌, >>=-eq-ok, ok-injective, require-eq-ok}
use mncs_commons.Producer.{
  is_family_text, family_text, family_text_if_given, exact_digest, is_reference_digest, read_digest,
}

-- A text that `_text` returned is one that it returns as it is.
abbrev pub IsSettled : ℕ → String → Type 0
IsSettled maximum s = (is_family_text maximum s ≡ true) × (strip s ≡ s)

abbrev pub IsSettledIfGiven : ℕ → Option String → Type 0
IsSettledIfGiven maximum none = Unit
IsSettledIfGiven maximum (some s) = IsSettled maximum s

strip-IsSettled :
    (maximum : ℕ) (s : String) → is_family_text maximum s ≡ true → IsSettled maximum (strip s)
unfolding is_family_text
strip-IsSettled maximum s h =
    (ground (arith, is_blank-strip s, count-strip s, has_nul-strip s), strip-strip s)

pub text-IsSettled :
    (maximum : ℕ) (name : String) (j : Json) (s : String)
    → family_text maximum name j ≡ ok s
    → IsSettled maximum s
unfolding family_text
text-IsSettled maximum name (text t) s h = elim (Bool-cases (is_family_text maximum t)) [
  | inl fit ↦
      let same : strip t ≡ s = ok-injective (rw fit at h) in
      rw (← same) (strip-IsSettled maximum t fit)
  | inr unfit ↦ let never = rw unfit at h in cc
]
text-IsSettled maximum name _ s h = cc

pub settled-text :
    (maximum : ℕ) (name s : String) → IsSettled maximum s → family_text maximum name (text s) ≡ ok s
unfolding family_text
settled-text maximum name s h = rw (h.0, h.1) refl

some-IsSettled :
    (maximum : ℕ) (name : String) (j : Json) (o : Option String)
    → (family_text maximum name j >>= λ s. ok (some s)) ≡ ok o
    → IsSettledIfGiven maximum o
some-IsSettled maximum name j o h =
    let (s, e, r) = >>=-eq-ok (family_text maximum name j) _ h in
    rw (← ok-injective r) (text-IsSettled maximum name j s e)

pub given-IsSettled :
    (maximum : ℕ) (name : String) (j : Json) (o : Option String)
    → family_text_if_given maximum name j ≡ ok o
    → IsSettledIfGiven maximum o
unfolding family_text_if_given
given-IsSettled maximum name null o h = rw (← ok-injective h) tt
given-IsSettled maximum name (bool b) o h = some-IsSettled maximum name (bool b) o h
given-IsSettled maximum name (num n) o h = some-IsSettled maximum name (num n) o h
given-IsSettled maximum name (text t) o h = some-IsSettled maximum name (text t) o h
given-IsSettled maximum name (arr vs) o h = some-IsSettled maximum name (arr vs) o h
given-IsSettled maximum name (obj fs) o h = some-IsSettled maximum name (obj fs) o h

abbrev pub IsExact : Option String → Type 0
IsExact none = Unit
IsExact (some s) = (is_reference_digest s ≡ true) × (is_hex (skip 7 s) ≡ true)

settled-IsExact : (d o : Option String) → exact_digest d ≡ ok o → (o ≡ d) × IsExact o
unfolding exact_digest
settled-IsExact none o h = rw (← ok-injective h) ((refl, tt))
settled-IsExact (some s) o h =
    let (u, e1, r1) = >>=-eq-ok (require (is_reference_digest s) _ _) _ h in
    let (v, e2, r2) = >>=-eq-ok (require (is_hex (skip 7 s)) _ _) _ r1 in
    rw (← ok-injective r2) (
      (
        refl,
        (require-eq-ok (is_reference_digest s) _ _ e1, require-eq-ok (is_hex (skip 7 s)) _ _ e2),
      ))

pub digest-IsSettled :
    (j : Json) (o : Option String) → read_digest j ≡ ok o → IsSettledIfGiven 80 o × IsExact o
unfolding read_digest
digest-IsSettled j o h =
    let (d, e, r) = >>=-eq-ok (family_text_if_given 80 "contentDigest" j) _ h in
    let (same, exact) = settled-IsExact d o r in
    (rw same (given-IsSettled 80 "contentDigest" j d e), exact)

settled-given :
    (maximum : ℕ) (name : String) (s : String)
    → IsSettled maximum s
    → family_text_if_given maximum name (text s) ≡ ok (some s)
unfolding family_text_if_given
settled-given maximum name s h = rw (settled-text maximum name s h) refl

pub settled-digest :
    (s : String) → IsSettled 80 s → IsExact (some s) → read_digest (text s) ≡ ok (some s)
unfolding read_digest exact_digest
settled-digest s h e = rw (settled-given 80 "contentDigest" s h, e.0, e.1) refl

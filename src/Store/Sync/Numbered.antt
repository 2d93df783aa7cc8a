-- ===== src/Store/Sync/Numbered.antt =====
-- store.py: a ledger that verifies numbers its rows from one, and what `sync_since` reads of them.
use mncs_commons.Base.{
  ℕ, zero, suc, ◌+◌, ◌≤◌, pos, negsuc, String, true, false, List, [], ◌∷◌, ◌≡◌, refl, sym, ◌∙◌,
  arith, Option-cases, inl, inr, drop, length,
}
use mathlib.Core.Path.{subst}
use mncs_commons.Json.{Json, bool, num, text, Fields, get, get_or, lookup}
use mncs_commons.Json.Equality.{py_eq}
use mncs_commons.Result.{Runtime, ok}
use mncs_commons.Lists.{append-nil-left}
use mncs_commons.Models.{report_if-nil, not-false}
use mncs_commons.Work.Readers.{to_int}
use mncs_commons.Store.{Store}
use mncs_commons.Store.Verify.{verify_rows, link_checks}
use mncs_commons.Store.Verify.Extended.{verify_rows-cons, link-text}
use mncs_commons.Store.Sync.{item}

-- The numbers that the loop reads are those of the rows, and the digests are texts.
abbrev pub IsNumbered : Runtime → ℕ → List Fields → Type 0
IsNumbered R n [] = Unit
IsNumbered R n (row ∷ rows) =
    ((d : Json) → to_int R (get_or "sequence" d row) ≡ ok (pos (suc n)))
    × ((e : String) × (get "entryDigest" row ≡ text e))
    × IsNumbered R (suc n) rows

int-of_eq :
    (R : Runtime) (v : Json) (n : ℕ) → py_eq v (num (pos n)) ≡ true → to_int R v ≡ ok (pos n)
unfolding py_eq to_int
int-of_eq R (num (pos m)) n h = ground arith
int-of_eq R (num (negsuc m)) n h = cc
int-of_eq R (bool true) n h = ground arith
int-of_eq R (bool false) n h = ground arith
int-of_eq R _ n h = cc

int-of_get :
    (R : Runtime) (d : Json) (row : Fields) (n : ℕ)
    → py_eq (get "sequence" row) (num (pos n)) ≡ true
    → to_int R (get_or "sequence" d row) ≡ ok (pos n)
unfolding get get_or py_eq
int-of_get R d row n h = elim (Option-cases (lookup "sequence" row)) [
  | inl none' ↦ let never = rw none' at h in cc
  | inr (v, is_v) ↦ rw is_v (int-of_eq R v n (rw is_v at h))
]

pub verified-IsNumbered :
    (R : Runtime) (s : Store) (n : ℕ) (previous : Json) (rows : List Fields)
    → verify_rows R s (suc n) previous rows ≡ ok []
    → IsNumbered R n rows
unfolding link_checks
verified-IsNumbered R s n previous [] h = tt
verified-IsNumbered R s n previous (row ∷ rows) h =
    let (content, link, rest) = verify_rows-cons R s (suc n) previous row rows h in
    let front = append-nil-left _ _ (append-nil-left _ _ link) in
    let numbered = not-false _ (report_if-nil _ _ _ _ front) in
    (
      (λ d. int-of_get R d row (suc n) numbered),
      link-text R _ (suc n) previous row link,
      verified-IsNumbered R s (suc n) (get "entryDigest" row) rows
          (subst (λ m. verify_rows R s m (get "entryDigest" row) rows ≡ ok []) (omega arith) rest),
    )

drop-nil : (n : ℕ) → drop {A = Fields} n [] ≡ []
drop-nil zero = refl
drop-nil (suc n) = refl

pub drop-drop : (n k : ℕ) (rows : List Fields) → drop k (drop n rows) ≡ drop (n + k) rows
drop-drop zero k rows = subst (λ m. drop k rows ≡ drop m rows) (omega arith) refl
drop-drop (suc n) k [] = drop-nil k ∙ sym (drop-nil (suc n + k))
drop-drop (suc n) k (row ∷ rows) =
    let same : suc (n + k) ≡ suc n + k = omega arith in
    subst (λ m. drop k (drop n rows) ≡ drop m (row ∷ rows)) same (drop-drop n k rows)

pub length-drop :
    (n : ℕ) (rows : List Fields) → n ≤ length rows → length (drop n rows) + n ≡ length rows
length-drop zero rows h = ground arith
length-drop (suc n) [] h = ground arith
length-drop (suc n) (row ∷ rows) h = ground (arith, length-drop n rows)

pub drop-IsNumbered :
    (R : Runtime) (m n : ℕ) (rows : List Fields)
    → IsNumbered R m rows
    → IsNumbered R (m + n) (drop n rows)
drop-IsNumbered R m zero rows h = subst (λ i. IsNumbered R i rows) (omega arith) h
drop-IsNumbered R m (suc n) [] h = tt
drop-IsNumbered R m (suc n) (row ∷ rows) (number, digest, rest) =
    subst (λ i. IsNumbered R i (drop n rows)) (omega arith) (drop-IsNumbered R (suc m) n rows rest)

pub item-text :
    (R : Runtime) (n j : ℕ) (rows : List Fields)
    → IsNumbered R n rows
    → suc j ≤ length rows
    → (row : Fields) × (item j rows ≡ ok row) × ((e : String) × (get "entryDigest" row ≡ text e))
item-text R n j [] h le = absurd (ground arith)
item-text R n zero (row ∷ rows) (number, digest, rest) le = (row, refl, digest)
item-text R n (suc j) (row ∷ rows) (number, digest, rest) le =
    item-text R (suc n) j rows rest (ground arith)

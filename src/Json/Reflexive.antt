-- ===== src/Json/Reflexive.antt =====
-- Python's `==` between a document and itself, and documents in which no dict holds a key twice.
use mncs_commons.Base.{
  inr, inl, Bool-cases, ℕ, String, ◌≡◌, ◌≢◌, refl, true, false, none, some, arith, ◌==◌, eq_iff,
  eq_refl, eqb, eqb_ℤ, ℤ, pos, negsuc,
}
use mncs_commons.Json.{
  get, Json, null, bool, num, text, arr, obj, Items, nil, cons, Fields, end, field, lookup,
}
use mncs_commons.Json.Equality.{py_eq, eq_items, within, size_fields}

abbrev mutual
  pub IsWellFormed : Json → Type 0
  IsWellFormed null = Unit
  IsWellFormed (bool b) = Unit
  IsWellFormed (num n) = Unit
  IsWellFormed (text s) = Unit
  IsWellFormed (arr vs) = AreItems vs
  IsWellFormed (obj fs) = AreFields fs

  pub AreItems : Items → Type 0
  AreItems nil = Unit
  AreItems (cons v vs) = IsWellFormed v × AreItems vs

  pub AreFields : Fields → Type 0
  AreFields end = Unit
  AreFields (field k v fs) = (lookup k fs ≡ none) × IsWellFormed v × AreFields fs

eqb_refl : (n : ℕ) → eqb n n ≡ true
eqb_refl n = ground arith

eqb_ℤ-refl : (n : ℤ) → eqb_ℤ n n ≡ true
eqb_ℤ-refl (pos n) = ground arith
eqb_ℤ-refl (negsuc n) = ground arith

mutual
  unfolding py_eq lookup

  py_eq_self : (v : Json) → IsWellFormed v → py_eq v v ≡ true
  py_eq_self null h = refl
  py_eq_self (bool true) h = refl
  py_eq_self (bool false) h = refl
  py_eq_self (num n) h = eqb_ℤ-refl n
  py_eq_self (text s) h = eq_refl s
  py_eq_self (arr vs) h = eq_items_self vs h
  py_eq_self (obj fs) h = rw (eqb_refl (size_fields fs)) (within_self fs fs h (λ k n. refl))

  eq_items_self : (vs : Items) → AreItems vs → eq_items vs vs ≡ true
  eq_items_self nil h = refl
  eq_items_self (cons v vs) h = rw (py_eq_self v h.0) (eq_items_self vs h.1)

  within_self :
      (fs gs : Fields)
      → AreFields fs
      → ((k : String) → lookup k fs ≢ none → lookup k gs ≡ lookup k fs)
      → within fs gs ≡ true
  within_self end gs h same = refl
  within_self (field k v fs) gs h same =
      let found : lookup k gs ≡ some v = ground (arith, same k, eq_refl k) in
      rw (found, py_eq_self v h.1)
        (within_self fs gs h.2 (λ j n. ground (arith, same j, eq_iff k j, h.0)))

pub py_eq_refl : (v : Json) → IsWellFormed v → py_eq v v ≡ true
py_eq_refl v h = py_eq_self v h

-- What a well-formed dict holds is well formed, a missing key included.
pub get-IsWellFormed : (k : String) (fs : Fields) → AreFields fs → IsWellFormed (get k fs)
unfolding get lookup
get-IsWellFormed k end h = tt
get-IsWellFormed k (field j v fs) h = elim (Bool-cases (j == k)) [
  | inl this ↦ rw this h.1
  | inr other ↦ rw other (get-IsWellFormed k fs h.2)
]

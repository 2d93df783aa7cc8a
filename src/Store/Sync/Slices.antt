-- ===== src/Store/Sync/Slices.antt =====
-- store.py: what the loop of `sync_since` selects of the rows after a cursor.
use mncs_commons.Base.{
  ℕ, zero, suc, ◌+◌, ◌≤◌, ℤ, pos, negsuc, ltb_ℤ, String, false, ◌||◌, Option, List, [], ◌∷◌, ◌++◌,
  ◌≡◌, refl, ap, arith, Bool-cases, inl, inr, keep, drop, length,
}
use mncs_commons.Json.{Fields}
use mncs_commons.Result.{Runtime, Result, ok}
use mncs_commons.Store.Sync.{is_wanted, scan}
use mncs_commons.Store.Sync.Numbered.{IsNumbered}

-- What a scan from the row after `n` returns: rows that with the wanted ones after the last scanned
-- are all the wanted ones.
abbrev IsSlice : Option String → ℕ → ℕ → List Fields → List Fields → ℕ → Type 0
IsSlice kind n room rows selected k =
    (selected ++ keep (is_wanted kind) (drop k rows) ≡ keep (is_wanted kind) rows)
    × (length selected ≤ room)
    × (k ≤ length rows)
    × (1 ≤ room → 1 ≤ length rows → 1 ≤ k)

abbrev scanned : List Fields → ℕ → Result (List Fields × ℤ)
scanned rows n = ok (rows, pos n)

counted : (rows : List Fields) (n m : ℕ) → n ≡ m → scanned rows n ≡ scanned rows m
counted rows n m same = ap (scanned rows) same

pub within-natural :
    (z : ℤ) (size : ℕ)
    → (ltb_ℤ z (pos 0) || ltb_ℤ (pos size) z) ≡ false
    → (n : ℕ) × (z ≡ pos n) × (n ≤ size)
within-natural (pos n) size h = (n, refl, ground arith)
within-natural (negsuc n) size h = absurd (ground arith)

pub scan-IsSlice :
    (R : Runtime) (kind : Option String) (n room : ℕ) (rows : List Fields)
    → IsNumbered R n rows
    → (selected : List Fields) × (k : ℕ) × (scan R kind (pos n) room rows
        ≡ ok (selected, pos (n + k)))
      × IsSlice kind n room rows selected k
unfolding scan keep
scan-IsSlice R kind n room [] h =
    ([], 0, counted [] n (n + 0) (omega arith), (refl, ground arith, ground arith, (λ a b. b)))
scan-IsSlice R kind n zero (row ∷ rows) h =
    ([], 0, counted [] n (n + 0) (omega arith), (refl, ground arith, ground arith, (λ a b. a)))
scan-IsSlice R kind n (suc room) (row ∷ rows) (number, digest, rest) =
    elim (Bool-cases (is_wanted kind row)) [
      | inl wanted ↦
          let (selected, k, e, (all, short, within, on)) =
            scan-IsSlice R kind (suc n) room rows rest in
          (
            row ∷ selected,
            suc k,
            rw (number, wanted, e) (counted (row ∷ selected) (suc n + k) (n + suc k) (omega arith)),
            (rw wanted (ap (λ x. row ∷ x) all), ground arith, ground arith, (λ a b. ground arith)),
          )
      | inr passed ↦
          let (selected, k, e, (all, short, within, on)) =
            scan-IsSlice R kind (suc n) (suc room) rows rest in
          (
            selected,
            suc k,
            rw (number, passed, e) (counted selected (suc n + k) (n + suc k) (omega arith)),
            (rw passed all, short, ground arith, (λ a b. ground arith)),
          )
    ]

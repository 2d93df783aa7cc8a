-- ===== src/Store/Sync/Cursors.antt =====
-- store.py: the cursors that `sync_since` accepts.
use mncs_commons.Base.{
  ℕ, zero, suc, ◌≤◌, ℤ, pos, negsuc, ltb_ℤ, eqb_ℤ, String, false, not, ◌||◌, Option, none, some,
  List, ◌≡◌, refl, sym, ◌∙◌, arith, eq_refl, length, ◌&&◌,
}
use mncs_commons.Json.{equals, is_null, Json, num, text, Fields, get, get_or, lookup}
use mncs_commons.Json.Equality.{py_eq}
use mncs_commons.Result.{require, Runtime, ok, >>=-eq-ok, ok-injective, reject, reject-eq-ok}
use mncs_commons.Work.Readers.{to_int}
use mncs_commons.Store.{store_error}
use mncs_commons.Models.{str}
use mncs_commons.Store.Sync.{cursor_for, sequence_or_refuse, digest_at, check_cursor}
use mncs_commons.Store.Sync.Numbered.{IsNumbered, item-text}
use mncs_commons.Store.Sync.Slices.{within-natural}

-- A cursor is checked to a number within the ledger.
pub checked-natural :
    (R : Runtime) (id : String) (rows : List Fields) (cursor : Option Fields) (z : ℤ)
    → check_cursor R id rows cursor ≡ ok z
    → (n : ℕ) × (z ≡ pos n) × (n ≤ length rows)
unfolding check_cursor
checked-natural R id rows none z h = (0, sym (ok-injective h), ground arith)
checked-natural R id rows (some cursor) z h =
    let (u, e0, r0) = >>=-eq-ok (require (equals (get "storeId" cursor) id) store_error _) _ h in
    let (w, e1, r1) =
      >>=-eq-ok (sequence_or_refuse (to_int R (get_or "sequence" (num (negsuc 0)) cursor))) _ r0 in
    let (v, e2, r2) =
      >>=-eq-ok (reject (ltb_ℤ w (pos 0) || ltb_ℤ (pos (length rows)) w) store_error _) _ r1 in
    let (x, e3, r3) =
      >>=-eq-ok (reject (eqb_ℤ w (pos 0) && not (is_null (get "entryDigest" cursor))) store_error _)
        _ r2 in
    let (held, e4, r4) = >>=-eq-ok (digest_at rows w (get "entryDigest")) _ r3 in
    let (y, e5, r5) =
      >>=-eq-ok
        (reject (not (eqb_ℤ w (pos 0)) && not (py_eq held (get "entryDigest" cursor))) store_error
          _)
        _ r4 in
    let same : w ≡ z = ok-injective r5 in
    let (n, is_n, within) = within-natural w (length rows) (reject-eq-ok _ _ _ e2) in
    (n, sym same ∙ is_n, within)

in_range : (m size : ℕ) → m ≤ size → (ltb_ℤ (pos m) (pos 0) || ltb_ℤ (pos size) (pos m)) ≡ false
in_range m size h = ground arith

-- The cursor after a row of the ledger is accepted, and names that row.
pub cursor-accepted :
    (R : Runtime) (id : String) (m : ℕ) (rows : List Fields) (digest : Json)
    → IsNumbered R 0 rows
    → m ≤ length rows
    → digest_at rows (pos m) (λ row. text (str R (get "entryDigest" row))) ≡ ok digest
    → check_cursor R id rows (some (cursor_for id (pos m) digest)) ≡ ok (pos m)
unfolding check_cursor digest_at get get_or lookup to_int py_eq
cursor-accepted R id zero rows digest h le e =
    rw (← ok-injective e) (rw (eq_refl id, in_range zero (length rows) le) refl)
cursor-accepted R id (suc j) rows digest h le e =
    let (row, is_row, (d, is_d)) = item-text R 0 j rows h le in
    let same : text d ≡ digest = ok-injective (rw (is_row, is_d) at e) in
    let large : eqb_ℤ (pos (suc j)) (pos 0) ≡ false = ground arith in
    rw (← same)
      (rw (eq_refl id, in_range (suc j) (length rows) le, large, is_row, is_d, eq_refl d) refl)

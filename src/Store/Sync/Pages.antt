-- ===== src/Store/Sync/Pages.antt =====
-- store.py: what the pages of `sync_since` hold, in a store that verifies.
use mncs_commons.Base.{
  ℕ, ◌+◌, ◌≤◌, ◌<◌, ℤ, pos, ltb_ℤ, String, true, false, ◌||◌, Option, some, List, [], ◌++◌, ◌≡◌,
  sym, ◌∙◌, arith, keep, drop, length, ltb,
}
use mathlib.Core.Path.{subst}
use mncs_commons.Json.{Json, null, text, Fields, get}
use mncs_commons.Result.{Runtime, ok, >>=-eq-ok, ok-injective, reject, reject-eq-ok}
use mncs_commons.Store.{Limits, Store, store_error, read_rows}
use mncs_commons.Store.Verify.{verify}
use mncs_commons.Store.Verify.Intact.{verify-IsIntact}
use mncs_commons.Models.{str}
use mncs_commons.Store.Journal.Committed.{read_rows-rows}
use mncs_commons.Store.Sync.{
  rows_after, page_of, Page, is_wanted, scan, digest_at, check_cursor, sync_since,
}
use mncs_commons.Store.Sync.Numbered.{
  IsNumbered, verified-IsNumbered, drop-IsNumbered, drop-drop, length-drop,
}
use mncs_commons.Store.Sync.Slices.{scan-IsSlice}
use mncs_commons.Store.Sync.Cursors.{checked-natural, cursor-accepted}

-- A page from the row after `n` that goes on for `k` rows.
abbrev IsPage :
    Runtime → Limits → String → Store → Option Fields → Option String → ℕ → Page → ℕ → ℕ → Type 0
IsPage R L id s cursor kind limit page n k =
    (check_cursor R id s.rows cursor ≡ ok (pos n))
    × (check_cursor R id s.rows (some page.next_cursor) ≡ ok (pos (n + k)))
    × (page.entries ++ keep (is_wanted kind) (drop (n + k) s.rows)
        ≡ keep (is_wanted kind) (drop n s.rows))
    × (length page.entries ≤ limit)
    × (limit ≤ L.sync_entries)
    × (page.has_more ≡ true → 1 ≤ k)

paged_at :
    (R : Runtime) (L : Limits) (id : String) (s : Store) (cursor : Option Fields) (limit : ℕ)
    (kind : Option String) (page : Page)
    → IsNumbered R 0 s.rows
    → (n : ℕ) → n ≤ length s.rows
    → (ltb limit 1 || ltb L.sync_entries limit) ≡ false
    → check_cursor R id s.rows cursor ≡ ok (pos n)
    → (p : List Fields × ℤ) → scan R kind (pos n) limit (drop n s.rows) ≡ ok p
    → (digest : Json)
    → digest_at s.rows p.1 (λ row. text (str R (get "entryDigest" row))) ≡ ok digest
    → page_of id limit s.rows p.0 p.1 digest ≡ page
    → (n' : ℕ) × (k : ℕ) × IsPage R L id s cursor kind limit page n' k
paged_at R L id s cursor limit kind page numbered n within bounded at_n p e digest e4 made =
    let (selected, k, e', (all, short, inside, on)) = scan-IsSlice R kind n limit (drop n s.rows) (
      subst (λ m. IsNumbered R m (drop n s.rows)) (omega arith)
        (drop-IsNumbered R 0 n s.rows numbered)) in
    let same : (selected, pos (n + k)) ≡ p = ok-injective (sym e' ∙ e) in
    let at_next = rw (← same) at e4 in
    let is_page = rw (← same) at made in
    let sizes = length-drop n s.rows within in
    let inside_all : n + k ≤ length s.rows = ground (arith, sizes, inside) in
    let fits : limit ≤ L.sync_entries = ground arith in
    let forward : ltb_ℤ (pos (n + k)) (pos (length s.rows)) ≡ true → 1 ≤ k =
      λ more. on (ground arith) (ground (arith, sizes, more)) in
    rw (← is_page) (
      (
        n,
        k,
        (
          at_n,
          cursor-accepted R id (n + k) s.rows digest numbered inside_all at_next,
          rw (← drop-drop n k s.rows) all,
          short,
          fits,
          forward,
        ),
      ))

paged_from :
    (R : Runtime) (L : Limits) (id : String) (s : Store) (cursor : Option Fields) (limit : ℕ)
    (kind : Option String) (page : Page)
    → IsNumbered R 0 s.rows
    → (rows : List Fields) → rows ≡ s.rows
    → (n : ℕ) (z : ℤ) → z ≡ pos n
    → n ≤ length rows
    → (ltb limit 1 || ltb L.sync_entries limit) ≡ false
    → check_cursor R id rows cursor ≡ ok z
    → (p : List Fields × ℤ) → scan R kind z limit (rows_after z rows) ≡ ok p
    → (digest : Json) → digest_at rows p.1 (λ row. text (str R (get "entryDigest" row))) ≡ ok digest
    → page_of id limit rows p.0 p.1 digest ≡ page
    → (n' : ℕ) × (k : ℕ) × IsPage R L id s cursor kind limit page n' k
paged_from R L id s cursor limit kind page numbered rows is_rows n z is_n within bounded e2 p e3
      digest e4 made =
    let at_n = rw (is_rows, is_n) at e2 in
    let scanned_from = rw (is_rows, is_n) at e3 in
    let at_end = rw is_rows at e4 in
    let is_page = rw is_rows at made in
    let below : n ≤ length s.rows = rw (← is_rows) within in
    paged_at R L id s cursor limit kind page numbered n below bounded at_n p scanned_from digest
      at_end is_page

paged :
    (R : Runtime) (L : Limits) (id : String) (s : Store) (cursor : Option Fields) (limit : ℕ)
    (kind : Option String) (page : Page)
    → verify R L s ≡ ok []
    → sync_since R L id s cursor limit kind ≡ ok page
    → (n : ℕ) × (k : ℕ) × IsPage R L id s cursor kind limit page n k
unfolding sync_since
paged R L id s cursor limit kind page v h =
    let (u, e0, r0) =
      >>=-eq-ok (reject (ltb limit 1 || ltb L.sync_entries limit) store_error _) _ h in
    let (rows, e1, r1) = >>=-eq-ok (read_rows R L s) _ r0 in
    let (z, e2, r2) = >>=-eq-ok (check_cursor R id rows cursor) _ r1 in
    let (p, e3, r3) = >>=-eq-ok (scan R kind z limit (rows_after z rows)) _ r2 in
    let (digest, e4, r4) =
      >>=-eq-ok (digest_at rows p.1 (λ row. text (str R (get "entryDigest" row)))) _ r3 in
    let is_rows : rows ≡ s.rows = sym (read_rows-rows R L s rows e1) in
    let numbered = verified-IsNumbered R s 0 null s.rows (verify-IsIntact R L s v).0 in
    let (n, is_n, within) = checked-natural R id rows cursor z e2 in
    paged_from R L id s cursor limit kind page numbered rows is_rows n z is_n within
      (reject-eq-ok _ _ _ e0) e2 p e3 digest e4 (ok-injective r4)

-- In a store that verifies, the entries of a page with the wanted rows after its next cursor are the
-- wanted rows after its own cursor, in their order: a reader that goes on skips nothing and reads
-- nothing twice. The next cursor is one that the store accepts.
pub sync_since_exact :
    (R : Runtime) (L : Limits) (id : String) (s : Store) (cursor : Option Fields) (limit : ℕ)
    (kind : Option String) (page : Page)
    → verify R L s ≡ ok []
    → sync_since R L id s cursor limit kind ≡ ok page
    → (n : ℕ) × (m : ℕ) × (check_cursor R id s.rows cursor ≡ ok (pos n))
      × (check_cursor R id s.rows (some page.next_cursor) ≡ ok (pos m))
      × (page.entries ++ keep (is_wanted kind) (drop m s.rows)
          ≡ keep (is_wanted kind) (drop n s.rows))
sync_since_exact R L id s cursor limit kind page v h =
    let (n, k, (at_n, at_next, all, short, fits, on)) = paged R L id s cursor limit kind page v h in
    (n, n + k, at_n, at_next, all)

-- In a store that verifies, a page that says there is more has a next cursor after its own.
pub sync_since_advances :
    (R : Runtime) (L : Limits) (id : String) (s : Store) (cursor : Option Fields) (limit : ℕ)
    (kind : Option String) (page : Page)
    → verify R L s ≡ ok []
    → sync_since R L id s cursor limit kind ≡ ok page
    → page.has_more ≡ true
    → (n : ℕ) × (m : ℕ) × (check_cursor R id s.rows cursor ≡ ok (pos n))
      × (check_cursor R id s.rows (some page.next_cursor) ≡ ok (pos m))
      × (n < m)
sync_since_advances R L id s cursor limit kind page v h more =
    let (n, k, (at_n, at_next, all, short, fits, on)) = paged R L id s cursor limit kind page v h in
    let forward = on more in (n, n + k, at_n, at_next, omega arith)

-- In a store that verifies, a page has at most as many entries as were asked for, and never more than
-- the store's bound.
pub sync_since_bounded :
    (R : Runtime) (L : Limits) (id : String) (s : Store) (cursor : Option Fields) (limit : ℕ)
    (kind : Option String) (page : Page)
    → verify R L s ≡ ok []
    → sync_since R L id s cursor limit kind ≡ ok page
    → (length page.entries ≤ limit) × (length page.entries ≤ L.sync_entries)
sync_since_bounded R L id s cursor limit kind page v h =
    let (n, k, (at_n, at_next, all, short, fits, on)) = paged R L id s cursor limit kind page v h in
    (short, omega arith)

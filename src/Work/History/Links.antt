-- ===== src/Work/History/Links.antt =====
-- A history that the loop accepts: the numbers of its revisions, and one more revision at its end.
use mncs_commons.Base.{
  ℕ, suc, ◌+◌, ◌≤◌, pos, negsuc, ℤ, eqb_ℤ, Bool, true, false, ◌≡◌, refl, sym, ap, ◌∙◌, Option, some,
  none, List, [], ◌∷◌, ◌++◌, arith, last?, or_else, length,
}
use mncs_commons.Json.{Json, null, bool, num, text, arr, obj, Fields, get, get_or, lookup}
use mncs_commons.Json.Equality.{py_eq}
use mncs_commons.Result.{Runtime, ok, require, >>=-eq-ok, ok-injective, require-eq-ok}
use mncs_commons.Models.{child}
use mncs_commons.Work.Readers.{to_int}
use mncs_commons.Work.Lineage.{revision_of}
use mncs_commons.Work.History.{Entry, entry_of, check_link, links, items_in}
use mncs_commons.Work.History.Sorting.{AreKept, all_below}

eqb_ℤ-eq : (n : ℤ) (k : ℕ) → eqb_ℤ n (pos k) ≡ true → n ≡ pos k
eqb_ℤ-eq (pos a) k h = let same : a ≡ k = ground arith in ap pos same
eqb_ℤ-eq (negsuc a) k h = cc

numbered :
    (R : Runtime) (o : Option Json) (d : Json) (k : ℕ)
    → py_eq (or_else o null) (num (pos k)) ≡ true
    → to_int R (or_else o d) ≡ ok (pos k)
unfolding py_eq to_int
numbered R none d k h = cc
numbered R (some (num n)) d k h = ap ok (eqb_ℤ-eq n k h)
numbered R (some (bool true)) d k h = ap ok (eqb_ℤ-eq (pos 1) k h)
numbered R (some (bool false)) d k h = ap ok (eqb_ℤ-eq (pos 0) k h)
numbered R (some null) d k h = cc
numbered R (some (text s)) d k h = cc
numbered R (some (arr vs)) d k h = cc
numbered R (some (obj fs)) d k h = cc

-- A revision that equals a number is that number, whatever stands for a missing one.
pub to_int-numbered :
    (R : Runtime) (metadata : Fields) (d : Json) (k : ℕ)
    → py_eq (get "revision" metadata) (num (pos k)) ≡ true
    → to_int R (get_or "revision" d metadata) ≡ ok (pos k)
unfolding get get_or
to_int-numbered R metadata d k h = numbered R (lookup "revision" metadata) d k h

-- The number that the round after these entries expects.
abbrev pub count_from : ℕ → List Entry → ℕ
count_from n [] = n
count_from n (e ∷ es) = count_from (suc n) es

pub count_from_lem : (n : ℕ) (es : List Entry) → count_from n es ≡ n + length es
count_from_lem n [] = ground arith
count_from_lem n (e ∷ es) = ground (arith, count_from_lem (suc n) es)

abbrev pub latest : Option Entry → List Entry → Option Entry
latest before [] = before
latest before (e ∷ es) = latest (some e) es

module _ (R : Runtime) where
  -- One round of the loop, taken apart.
  pub record Round (n : ℕ) (before : Option Entry) (item : Fields) (items : List Fields)
      (es : List Entry) : Type 0 where
    pub metadata : Fields
    pub rest : List Entry
    pub has_metadata : child "metadata" item ≡ ok metadata
    pub checked : check_link R n before metadata item ≡ ok tt
    pub rest_ok : links R (suc n) (some (entry_of R n metadata item)) items ≡ ok rest
    pub is_all : es ≡ entry_of R n metadata item ∷ rest

  pub links-Round :
      (n : ℕ) (before : Option Entry) (item : Fields) (items : List Fields) (es : List Entry)
      → links R n before (item ∷ items) ≡ ok es
      → Round n before item items es
  unfolding links
  links-Round n before item items es h =
      let (metadata, e1, r1) = >>=-eq-ok (child "metadata" item) _ h in
      let (u, e2, r2) = >>=-eq-ok (check_link R n before metadata item) _ r1 in
      let (rest, e3, r3) =
        >>=-eq-ok (links R (suc n) (some (entry_of R n metadata item)) items) _ r2 in
      record {
        metadata = metadata;
        rest = rest;
        has_metadata = e1;
        checked = e2;
        rest_ok = e3;
        is_all = sym (ok-injective r3);
      }

  pub check_link-numbered :
      (n : ℕ) (before : Option Entry) (metadata item : Fields)
      → check_link R n before metadata item ≡ ok tt
      → py_eq (get "revision" metadata) (num (pos n)) ≡ true
  unfolding check_link
  check_link-numbered n before metadata item h =
      let (u, e, r) =
        >>=-eq-ok
          (require (py_eq (get "revision" metadata) (num (pos n))) "WORK_HISTORY_INVALID"
            "work revisions are not contiguous")
          _ h in
      require-eq-ok _ _ _ e

  pub links-append :
      (n : ℕ) (before : Option Entry) (items : List Fields) (item metadata : Fields)
      (es : List Entry)
      → links R n before items ≡ ok es
      → child "metadata" item ≡ ok metadata
      → check_link R (count_from n es) (latest before es) metadata item ≡ ok tt
      → links R n before (items ++ item ∷ [])
        ≡ ok (es ++ entry_of R (count_from n es) metadata item ∷ [])
  unfolding links
  links-append n before [] item metadata es h m c =
      let none_yet : [] ≡ es = ok-injective h in
      let c' = rw (← none_yet) at c in rw (← none_yet) (rw (m, c') refl)
  links-append n before (first ∷ items) item metadata es h m c =
      let round = links-Round n before first items es h in
      let c' = rw round.is_all at c in
      rw (round.is_all, round.has_metadata, round.checked)
        (rw (links-append (suc n) _ items item metadata round.rest round.rest_ok m c') refl)

  -- What the loop knows of the last revision.
  pub record Last (n : ℕ) (before : Option Entry) (item : Fields) (es : List Entry) : Type 0 where
    pub number : ℕ
    pub metadata : Fields
    pub has_metadata : child "metadata" item ≡ ok metadata
    pub is_numbered : py_eq (get "revision" metadata) (num (pos number)) ≡ true
    pub is_next : count_from n es ≡ suc number
    pub is_latest : latest before es ≡ some (entry_of R number metadata item)

  pub links-Last :
      (n : ℕ) (before : Option Entry) (items : List Fields) (item : Fields) (es : List Entry)
      → links R n before items ≡ ok es
      → last? items ≡ some item
      → Last n before item es
  links-Last n before [] item es h l = cc
  links-Last n before (first ∷ []) item es h l =
      let same : first ≡ item = cc in
      let round = links-Round n before first [] es h in
      let nothing : [] ≡ round.rest = ok-injective (unfold links in round.rest_ok) in
      rw (← same, round.is_all, ← nothing)
        (record {
          number = n;
          metadata = round.metadata;
          has_metadata = round.has_metadata;
          is_numbered = check_link-numbered n before round.metadata first round.checked;
          is_next = refl;
          is_latest = refl;
        })
  links-Last n before (first ∷ second ∷ items) item es h l =
      let round = links-Round n before first (second ∷ items) es h in
      let p = links-Last (suc n) _ (second ∷ items) item round.rest round.rest_ok l in
      rw round.is_all (record {
        number = p.number;
        metadata = p.metadata;
        has_metadata = p.has_metadata;
        is_numbered = p.is_numbered;
        is_next = p.is_next;
        is_latest = p.is_latest;
      })

  key-numbered :
      (item metadata : Fields) (n : ℤ) (k : ℕ)
      → revision_of R (num (pos 0)) item ≡ ok n
      → child "metadata" item ≡ ok metadata
      → py_eq (get "revision" metadata) (num (pos k)) ≡ true
      → n ≡ pos k
  unfolding revision_of
  key-numbered item metadata n k r m e =
      let read : to_int R (get_or "revision" (num (pos 0)) metadata) ≡ ok n = rw m at r in
      ok-injective (sym read ∙ to_int-numbered R metadata (num (pos 0)) k e)

  -- No key is above the number that comes next.
  pub links-all_below :
      (kept : Fields → Bool) (n : ℕ) (before : Option Entry) (keys : List (ℤ × Fields))
      (es : List Entry) (b : ℕ)
      → AreKept R kept keys
      → links R n before (items_in keys) ≡ ok es
      → count_from n es ≤ b
      → all_below (pos b) keys ≡ true
  links-all_below kept n before [] es b k h l = refl
  links-all_below kept n before ((m, item) ∷ rest) es b k h l =
      let round = links-Round n before item (items_in rest) es h in
      let e : m ≡ pos n =
        key-numbered item round.metadata m n k.0.0 round.has_metadata
          (check_link-numbered n before round.metadata item round.checked) in
      let l' : count_from (suc n) round.rest ≤ b = rw round.is_all at l in
      let others = links-all_below kept (suc n) _ rest round.rest b k.1 round.rest_ok l' in
      rw (e, others) (ground (arith, count_from_lem (suc n) round.rest))

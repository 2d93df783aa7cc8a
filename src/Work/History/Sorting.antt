-- ===== src/Work/History/Sorting.antt =====
-- The sort by revision: what it keeps, and where a greatest revision goes.
use mncs_commons.Base.{
  ℤ, leb_ℤ, pos, Bool, true, ◌≡◌, refl, ap, ◌∙◌, List, [], ◌∷◌, ◌++◌, arith, Bool-cases, inl, inr,
  keep, all, last?, some, ◌&&◌,
}
use mncs_commons.Json.{num, Fields}
use mncs_commons.Result.{Runtime, ok, >>=-eq-ok, ok-injective}
use mncs_commons.Work.Lineage.{revision_of}
use mncs_commons.Work.History.{keyed_by_revision, insert_revision, sort_revisions, items_in}

module _ (R : Runtime) (kept : Fields → Bool) where
  -- Each item has its own revision as its key, and is one of those kept.
  abbrev pub AreKept : List (ℤ × Fields) → Type 0
  AreKept [] = Unit
  AreKept ((n, item) ∷ rest) =
      ((revision_of R (num (pos 0)) item ≡ ok n) × (kept item ≡ true)) × AreKept rest

  pub keyed-AreKept :
      (items : List Fields) (keys : List (ℤ × Fields))
      → all kept items ≡ true
      → keyed_by_revision R items ≡ ok keys
      → AreKept keys
  keyed-AreKept [] keys h e = rw (← ok-injective e) tt
  keyed-AreKept (item ∷ items) keys h e =
      let (n, e1, r1) = >>=-eq-ok (revision_of R (num (pos 0)) item) _ e in
      let (rest, e2, r2) = >>=-eq-ok (keyed_by_revision R items) _ r1 in
      rw (← ok-injective r2) (((e1, ground arith), keyed-AreKept items rest (ground arith) e2))

  insert-AreKept :
      (n : ℤ) (item : Fields) (keys : List (ℤ × Fields))
      → revision_of R (num (pos 0)) item ≡ ok n
      → kept item ≡ true
      → AreKept keys
      → AreKept (insert_revision n item keys)
  insert-AreKept n item [] e k h = ((e, k), tt)
  insert-AreKept n item ((m, other) ∷ rest) e k h = elim (Bool-cases (leb_ℤ n m)) [
    | inl before ↦ rw before ((e, k), h)
    | inr after ↦ rw after (h.0, insert-AreKept n item rest e k h.1)
  ]

  pub sort-AreKept : (keys : List (ℤ × Fields)) → AreKept keys → AreKept (sort_revisions keys)
  sort-AreKept [] h = tt
  sort-AreKept ((n, item) ∷ rest) h =
      insert-AreKept n item (sort_revisions rest) h.0.0 h.0.1 (sort-AreKept rest h.1)

  pub last-AreKept :
      (keys : List (ℤ × Fields)) (item : Fields)
      → AreKept keys
      → last? (items_in keys) ≡ some item
      → kept item ≡ true
  last-AreKept [] item h e = cc
  last-AreKept ((n, first) ∷ []) item h e = let same : first ≡ item = cc in rw (← same) h.0.1
  last-AreKept ((n, first) ∷ (m, second) ∷ rest) item h e =
      last-AreKept ((m, second) ∷ rest) item h.1 e

  pub keyed-append :
      (items : List Fields) (item : Fields) (n : ℤ) (keys : List (ℤ × Fields))
      → keyed_by_revision R items ≡ ok keys
      → revision_of R (num (pos 0)) item ≡ ok n
      → keyed_by_revision R (items ++ item ∷ []) ≡ ok (keys ++ (n, item) ∷ [])
  keyed-append [] item n keys e r = rw (r, ← ok-injective e) refl
  keyed-append (first ∷ items) item n keys e r =
      let (m, e1, r1) = >>=-eq-ok (revision_of R (num (pos 0)) first) _ e in
      let (rest, e2, r2) = >>=-eq-ok (keyed_by_revision R items) _ r1 in
      rw (e1, keyed-append items item n rest e2 r, ← ok-injective r2) refl

abbrev pub all_below : ℤ → List (ℤ × Fields) → Bool
all_below b [] = true
all_below b ((n, item) ∷ rest) = leb_ℤ n b && all_below b rest

insert-all_below :
    (b n : ℤ) (item : Fields) (keys : List (ℤ × Fields))
    → all_below b (insert_revision n item keys) ≡ all_below b ((n, item) ∷ keys)
insert-all_below b n item [] = refl
insert-all_below b n item ((m, other) ∷ rest) = ground (arith, insert-all_below b n item rest)

pub sort-all_below :
    (b : ℤ) (keys : List (ℤ × Fields)) → all_below b (sort_revisions keys) ≡ all_below b keys
sort-all_below b [] = refl
sort-all_below b ((n, item) ∷ rest) =
    insert-all_below b n item (sort_revisions rest)
    ∙ ap (λ t. leb_ℤ n b && t) (sort-all_below b rest)

insert-append :
    (n b : ℤ) (item other : Fields) (keys : List (ℤ × Fields))
    → leb_ℤ n b ≡ true
    → insert_revision n item (keys ++ (b, other) ∷ [])
      ≡ insert_revision n item keys ++ (b, other) ∷ []
insert-append n b item other [] h = rw h refl
insert-append n b item other ((m, first) ∷ rest) h = elim (Bool-cases (leb_ℤ n m)) [
  | inl before ↦ rw before refl
  | inr after ↦ rw (after, insert-append n b item other rest h) refl
]

-- An item after all others in the order stays the last one.
pub sort-append :
    (b : ℤ) (other : Fields) (keys : List (ℤ × Fields))
    → all_below b keys ≡ true
    → sort_revisions (keys ++ (b, other) ∷ []) ≡ sort_revisions keys ++ (b, other) ∷ []
sort-append b other [] h = refl
sort-append b other ((n, item) ∷ rest) h =
    rw (sort-append b other rest (ground arith))
      (insert-append n b item other (sort_revisions rest) (ground arith))

pub items_in-append :
    (keys : List (ℤ × Fields)) (n : ℤ) (item : Fields)
    → items_in (keys ++ (n, item) ∷ []) ≡ items_in keys ++ item ∷ []
items_in-append [] n item = refl
items_in-append ((m, first) ∷ rest) n item = rw (items_in-append rest n item)

pub all-keep : (p : Fields → Bool) (items : List Fields) → all p (keep p items) ≡ true
unfolding keep
all-keep p [] = refl
all-keep p (item ∷ items) = ground (arith, all-keep p items)

pub keep-append :
    (p : Fields → Bool) (items : List Fields) (item : Fields)
    → p item ≡ true
    → keep p (items ++ item ∷ []) ≡ keep p items ++ item ∷ []
unfolding keep
keep-append p [] item h = rw h refl
keep-append p (first ∷ items) item h =
    rw (keep-append p items item h)
      (elim (Bool-cases (p first)) [ inl kept ↦ rw kept refl | inr cut ↦ rw cut refl ])

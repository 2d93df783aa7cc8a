-- ===== src/Work/Next/Ready.antt =====
-- What `next_work` offers.
use package.text.Mathlib.Text.{starts_with}
use mncs_commons.Base.{
  ℕ, zero, suc, ℤ, ◌≤◌, String, ◌≡◌, sym, ap, ◌∙◌, true, false, not, ◌&&◌, Option, List, [], ◌∷◌,
  ◌++◌, arith, eq_iff, ◌==◌, contains, all, length, take, Bool-cases, inl, inr,
}
use mncs_commons.Json.{Fields, Json, null, bool, num, text, arr, obj, nil, get_or}
use mncs_commons.Result.{Runtime, ok, require, each, >>=-eq-ok, ok-injective}
use mncs_commons.Work.Revise.{listed}
use mncs_commons.Work.History.{Projection, details_of}
use mncs_commons.Work.Listing.{list_work, selects}
use mncs_commons.Lists.{Every}
use mncs_commons.Work.Listing.Sound.{IsProjected, list_work-Every}
use mncs_commons.Work.Next.{
  only_texts, has_text, in_repository, is_among, parent_of, any_open, is_eligible, filter_eligible,
  Ranked, stands_before, insert_ranked, sort_ranked, ranked, rank_of, projections, bound, one_lane,
  is_supported, ids, next_work, active_repositories, all_dependencies,
}

true_is_not_false : true ≡ false → ⊥
true_is_not_false e = cc

any_open-false :
    (completed : List String) (xs : List Json) (s : String)
    → any_open completed xs ≡ ok false
    → contains (only_texts xs) s ≡ true
    → starts_with s "work:" ≡ true
    → contains completed s ≡ true
unfolding any_open
any_open-false completed [] s h m w = cc
any_open-false completed (text t ∷ xs) s h m w =
    elim (Bool-cases (starts_with t "work:" && not (contains completed t))) [
      | inl waits ↦ absurd (true_is_not_false (ok-injective (rw waits at h)))
      | inr done ↦
          let rest : any_open completed xs ≡ ok false = rw done at h in
          elim (Bool-cases (t == s)) [
            | inl same ↦
                let e : t ≡ s = ground (arith, eq_iff t s) in
                let done' = rw e at done in ground arith
            | inr other ↦ any_open-false completed xs s rest (ground arith) w
          ]
    ]
any_open-false completed (null ∷ xs) s h m w = cc
any_open-false completed (bool b ∷ xs) s h m w = cc
any_open-false completed (num n ∷ xs) s h m w = cc
any_open-false completed (arr vs ∷ xs) s h m w = cc
any_open-false completed (obj fs ∷ xs) s h m w = cc

listed-has_text :
    (value : Json) (xs : List Json) (s : String)
    → listed value ≡ ok xs
    → has_text s value ≡ true
    → contains (only_texts xs) s ≡ true
listed-has_text (arr items) xs s h m = rw (← ok-injective h) m
listed-has_text null xs s h m = cc
listed-has_text (bool b) xs s h m = cc
listed-has_text (num n) xs s h m = cc
listed-has_text (text t) xs s h m = cc
listed-has_text (obj fs) xs s h m = cc

only_texts-append :
    (xs ys : List Json) (s : String)
    → contains (only_texts xs) s ≡ true
    → contains (only_texts (xs ++ ys)) s ≡ true
only_texts-append [] ys s m = cc
only_texts-append (text t ∷ xs) ys s m = ground (arith, only_texts-append xs ys s)
only_texts-append (null ∷ xs) ys s m = only_texts-append xs ys s m
only_texts-append (bool b ∷ xs) ys s m = only_texts-append xs ys s m
only_texts-append (num n ∷ xs) ys s m = only_texts-append xs ys s m
only_texts-append (arr vs ∷ xs) ys s m = only_texts-append xs ys s m
only_texts-append (obj fs ∷ xs) ys s m = only_texts-append xs ys s m

abbrev dependencies_of : Projection → Json
dependencies_of item = get_or "dependencies" (arr nil) (details_of item.current)

abbrev requirements_of : Projection → Json
requirements_of item = get_or "capabilityRequirements" (arr nil) (details_of item.current)

-- The item can start: it is in the repository asked for, its requirements are among the
-- capabilities, and the work that it depends on is completed.
pub record CanStart (R : Runtime) (repository : String) (capabilities completed : List String)
    (item : Projection) : Type 0 where
  pub in_place : in_repository R repository (details_of item.current) ≡ true
  pub is_able :
      (required : List Json)
      → listed (requirements_of item) ≡ ok required
      → all (is_among capabilities) required ≡ true
  pub is_free :
      (s : String)
      → has_text s (dependencies_of item) ≡ true
      → starts_with s "work:" ≡ true
      → contains completed s ≡ true

is_eligible-CanStart :
    (R : Runtime) (repository : String) (capabilities completed : List String) (item : Projection)
    → is_eligible R repository capabilities completed item ≡ ok true
    → CanStart R repository capabilities completed item
unfolding is_eligible
is_eligible-CanStart R repository capabilities completed item h =
    elim (Bool-cases (in_repository R repository (details_of item.current))) [
      | inr elsewhere ↦ absurd (true_is_not_false (sym (ok-injective (rw elsewhere at h))))
      | inl place ↦
          let (required, e1, r1) = >>=-eq-ok (listed (requirements_of item)) _ (rw place at h) in
          let (deps, e2, r2) = >>=-eq-ok (listed (dependencies_of item)) _ r1 in
          let (waiting, e3, r3) =
            >>=-eq-ok (any_open completed (deps ++ parent_of R (details_of item.current))) _ r2 in
          let both : (all (is_among capabilities) required && not waiting) ≡ true =
            ok-injective r3 in
          let none_waits : waiting ≡ false = ground arith in
          let able : all (is_among capabilities) required ≡ true = ground arith in
          record {
            in_place = place;
            is_able = λ other e. rw (ok-injective (sym e ∙ e1)) able;
            is_free = λ s m w.
                any_open-false completed (deps ++ parent_of R (details_of item.current)) s
                  (e3 ∙ ap ok none_waits)
                  (only_texts-append deps _ s (listed-has_text (dependencies_of item) deps s e2 m))
                  w;
          }
    ]

filter_eligible-Every :
    (R : Runtime) (repository : String) (capabilities completed : List String)
    (P : Projection → Type 0) (items chosen : List Projection)
    → Every P items
    → filter_eligible R repository capabilities completed items ≡ ok chosen
    → Every (λ item. P item × CanStart R repository capabilities completed item) chosen
unfolding filter_eligible
filter_eligible-Every R repository capabilities completed P [] chosen all_P h =
    rw (← ok-injective h) tt
filter_eligible-Every R repository capabilities completed P (item ∷ items) chosen all_P h =
    let (b, e1, r1) = >>=-eq-ok (is_eligible R repository capabilities completed item) _ h in
    let (rest, e2, r2) =
      >>=-eq-ok (filter_eligible R repository capabilities completed items) _ r1 in
    let others =
      filter_eligible-Every R repository capabilities completed P items rest all_P.1 e2 in
    rw (← ok-injective r2) (elim (Bool-cases b) [
      | inl chosen_one ↦ rw chosen_one (
          (
            (
              all_P.0,
              is_eligible-CanStart R repository capabilities completed item (e1 ∙ ap ok chosen_one),
            ),
            others,
          ))
      | inr left ↦ rw left others
    ])

module _ (P : Projection → Type 0) where
  insert_ranked-Every :
      (x : Ranked) (xs : List Ranked)
      → P x.1
      → Every P (projections xs)
      → Every P (projections (insert_ranked x xs))
  unfolding insert_ranked
  insert_ranked-Every (r, item) [] p h = (p, tt)
  insert_ranked-Every (r, item) ((q, other) ∷ rest) p h = elim (Bool-cases (stands_before r q)) [
    | inl before ↦ rw before ((p, h))
    | inr after ↦ rw after ((h.0, insert_ranked-Every (r, item) rest p h.1))
  ]

  sort_ranked-Every :
      (xs : List Ranked) → Every P (projections xs) → Every P (projections (sort_ranked xs))
  unfolding sort_ranked
  sort_ranked-Every [] h = tt
  sort_ranked-Every ((r, item) ∷ rest) h =
      insert_ranked-Every (r, item) (sort_ranked rest) h.0 (sort_ranked-Every rest h.1)

  take-Every : (n : ℕ) (xs : List Projection) → Every P xs → Every P (take n xs)
  take-Every zero xs h = tt
  take-Every (suc n) [] h = tt
  take-Every (suc n) (x ∷ xs) h = (h.0, take-Every n xs h.1)

  ranked-Every :
      (R : Runtime) (dependencies active : List String) (items : List Projection)
      (ranks : List Ranked)
      → Every P items
      → each (ranked R dependencies active) items ≡ ok ranks
      → Every P (projections ranks)
  unfolding each
  ranked-Every R dependencies active [] ranks h e = rw (← ok-injective e) tt
  ranked-Every R dependencies active (item ∷ items) ranks h e =
      let (pair, e1, r1) = >>=-eq-ok (ranked R dependencies active item) _ e in
      let (rest, e2, r2) = >>=-eq-ok (each (ranked R dependencies active) items) _ r1 in
      let (rank, e3, r3) = >>=-eq-ok (rank_of R dependencies active item) _ e1 in
      rw (← ok-injective r2, ← ok-injective r3)
        ((h.0, ranked-Every R dependencies active items rest h.1 e2))

length-take : {A : Type 0} (n : ℕ) (xs : List A) → length (take n xs) ≤ n
length-take zero xs = ground arith
length-take (suc n) [] = ground arith
length-take (suc n) (x ∷ xs) = ground (arith, length-take n xs)

abbrev pub IsOffered :
    Runtime → List Fields → Option String → String → List String → List String → Projection → Type 0
IsOffered R records lane repository capabilities completed item =
    (IsProjected R records item × (selects R [] (one_lane lane) ("AVAILABLE" ∷ []) item ≡ true))
    × CanStart R repository capabilities completed item

-- Each item that is offered is the projection of a history of the records, available, in the lane
-- and the repository asked for where these are given, and asks for no capability but those given.
-- Each of its dependencies that is a text starting with `work:` names work that is listed as
-- complete. At most `max(1, min(limit, 1000))` items are offered.
pub next_work-IsOffered :
    (R : Runtime) (records : List Fields) (lane : Option String) (repository : String)
    (capabilities : List String) (limit : ℤ) (items : List Projection)
    → next_work R records lane repository capabilities limit ≡ ok items
    → (length items ≤ bound limit)
      × ((completed : List Projection) × (list_work R records [] [] ("COMPLETE" ∷ [])
            ≡ ok completed)
          × Every (IsOffered R records lane repository capabilities (ids completed)) items)
unfolding next_work
next_work-IsOffered R records lane repository capabilities limit items h =
    let (u, e0, r0) =
      >>=-eq-ok (require (is_supported lane) "WORK_LANE_INVALID" "lane is unsupported") _ h in
    let (projected, e1, r1) =
      >>=-eq-ok (list_work R records [] (one_lane lane) ("AVAILABLE" ∷ [])) _ r0 in
    let (completed, e2, r2) = >>=-eq-ok (list_work R records [] [] ("COMPLETE" ∷ [])) _ r1 in
    let (busy, e3, r3) =
      >>=-eq-ok (list_work R records [] [] ("CLAIMED" ∷ "IN_PROGRESS" ∷ "VERIFYING" ∷ [])) _ r2 in
    let (active, e4, r4) = >>=-eq-ok (active_repositories R busy) _ r3 in
    let (everything, e5, r5) = >>=-eq-ok (list_work R records [] [] []) _ r4 in
    let (dependencies, e6, r6) = >>=-eq-ok (all_dependencies R everything) _ r5 in
    let (eligible, e7, r7) =
      >>=-eq-ok (filter_eligible R repository capabilities (ids completed) projected) _ r6 in
    let (ranks, e8, r8) = >>=-eq-ok (each (ranked R dependencies active) eligible) _ r7 in
    let listed_all = list_work-Every R records [] (one_lane lane) ("AVAILABLE" ∷ []) projected e1 in
    let ready =
      filter_eligible-Every R repository capabilities (ids completed) _ projected eligible
        listed_all e7 in
    rw (← ok-injective r8) (
      (
        length-take (bound limit) (projections (sort_ranked ranks)),
        (
          completed,
          e2,
          take-Every _ (bound limit) (projections (sort_ranked ranks)) (
              sort_ranked-Every _ ranks
                (ranked-Every _ R dependencies active eligible ranks ready e8)),
        ),
      ))

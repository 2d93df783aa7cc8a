-- ===== src/Work/Listing/Sound.antt =====
-- What `list_work` lists.
use mncs_commons.Lists.{Occurs, Every-Occurs, keep-Occurs, Every-map, Every, each-Every, keep-Every}
use mncs_commons.Lifecycle.{is_empty}
use mncs_commons.Work.Listing.{in_lanes, list_work, selects, work_ids}
use mncs_commons.Work.History.{details_of, Projection, project_work_history}
use mncs_commons.Work.States.{coordination_state}
use mncs_commons.Json.{Json, text, get, Fields}
use mncs_commons.Result.{Result, Runtime, ok, each, >>=-eq-ok, ok-injective}
use mncs_commons.Base.{
  Bool, refl, sym, ap, ◌∙◌, ◌↔◌, ◌==◌, ◌||◌, ◌&&◌, false, [], ◌∷◌, contains, arith, eq_iff,
  Bool-cases, inl, inr, String, ◌≡◌, true, List,
}

abbrev pub IsProjected : Runtime → List Fields → Projection → Type 0
IsProjected R records item = (id : String) × (project_work_history R records id ≡ ok item)

pub list_work-Every :
    (R : Runtime) (records : List Fields) (states lanes coordination : List String)
    (items : List Projection)
    → list_work R records states lanes coordination ≡ ok items
    → Every
        (λ item. IsProjected R records item × (selects R states lanes coordination item ≡ true))
        items
unfolding list_work
list_work-Every R records states lanes coordination items h =
    let (projected, e, r) =
      >>=-eq-ok (each (project_work_history R records) (work_ids records)) _ h in
    rw (← ok-injective r) (
      keep-Every (selects R states lanes coordination) (IsProjected R records) projected (
        each-Every (project_work_history R records) (IsProjected R records) (λ id item e. (id, e))
          (work_ids records) projected e))

-- What each filter that is not empty asks of an item.
pub record Passes (R : Runtime) (states lanes coordination : List String) (item : Projection)
    : Type 0 where
  pub in_state : is_empty states ≡ false → contains states item.state ≡ true
  pub in_lane :
      is_empty lanes ≡ false
      → (lane : String) × (get "lane" (details_of item.current) ≡ text lane)
        × (contains lanes lane ≡ true)
  pub in_coordination :
      is_empty coordination ≡ false
      → contains coordination (coordination_state R (details_of item.current)) ≡ true

lane-listed :
    (lanes : List String) (j : Json)
    → in_lanes lanes j ≡ true
    → (lane : String) × (j ≡ text lane) × (contains lanes lane ≡ true)
lane-listed lanes (text lane) h = (lane, refl, h)
lane-listed lanes _ h = cc

listed-lane :
    (lanes : List String) (j : Json) (lane : String)
    → j ≡ text lane
    → contains lanes lane ≡ true
    → in_lanes lanes j ≡ true
listed-lane lanes j lane e h = rw e h

given_or : (b c : Bool) → (b ≡ false → c ≡ true) → (b || c) ≡ true
given_or true c h = refl
given_or false c h = h refl

and_all : (a b c : Bool) → a ≡ true → b ≡ true → c ≡ true → (a && b && c) ≡ true
and_all a b c h k l = ground arith

selects-Passes :
    (R : Runtime) (states lanes coordination : List String) (item : Projection)
    → (selects R states lanes coordination item ≡ true) ↔ Passes R states lanes coordination item
selects-Passes R states lanes coordination item = (
  (λ h. record {
    in_state = λ given. ground (arith, h);
    in_lane = λ given. lane-listed lanes (get "lane" (details_of item.current)) (ground (arith, h));
    in_coordination = λ given. ground (arith, h);
  }),
  (λ p.
      and_all (is_empty states || contains states item.state)
        (is_empty lanes || in_lanes lanes (get "lane" (details_of item.current)))
        (is_empty coordination
          || contains coordination (coordination_state R (details_of item.current)))
        (given_or _ _ p.in_state)
        (given_or _ _ (λ given.
          let (lane, e, m) = p.in_lane given in
          listed-lane lanes (get "lane" (details_of item.current)) lane e m))
        (given_or _ _ p.in_coordination)),
)

each-Occurs :
    {A : Type 0} (f : String → Result A) (x : String) (y : A) (xs : List String) (ys : List A)
    → each f xs ≡ ok ys
    → contains xs x ≡ true
    → f x ≡ ok y
    → Occurs y ys
unfolding each
each-Occurs f x y [] ys h m e = cc
each-Occurs f x y (first ∷ xs) ys h m e =
    let (z, e1, r1) = >>=-eq-ok (f first) _ h in
    let (rest, e2, r2) = >>=-eq-ok (each f xs) _ r1 in
    rw (← ok-injective r2) (elim (Bool-cases (first == x)) [
      | inl here ↦
          let same : first ≡ x = (eq_iff first x).0 here in
          inl (ok-injective (sym e ∙ ap f (sym same) ∙ e1))
      | inr there ↦ inr (each-Occurs f x y xs rest e2 (ground (arith, m, there)) e)
    ])

-- Each item that `list_work` lists is the projection of a history of the records. The projection of
-- any work of the records is listed just where it passes each filter that is not empty: its state is
-- among the states, its lane among the lanes, its coordination state among those asked for.
pub list_work-Passes :
    (R : Runtime) (records : List Fields) (states lanes coordination : List String)
    (items : List Projection) (id : String) (item : Projection)
    → list_work R records states lanes coordination ≡ ok items
    → contains (work_ids records) id ≡ true
    → project_work_history R records id ≡ ok item
    → Every (IsProjected R records) items
      × (Occurs item items ↔ Passes R states lanes coordination item)
unfolding list_work
list_work-Passes R records states lanes coordination items id item h m e =
    let all = list_work-Every R records states lanes coordination items h in
    let (projected, e1, r1) =
      >>=-eq-ok (each (project_work_history R records) (work_ids records)) _ h in
    let there = each-Occurs (project_work_history R records) id item _ projected e1 m e in
    (
      Every-map _ (IsProjected R records) items (λ x p. p.0) all,
      (
        (λ listed.
            (selects-Passes R states lanes coordination item).0
              (Every-Occurs _ item items all listed).1),
        (λ passes. rw (← ok-injective r1) (
            keep-Occurs (selects R states lanes coordination) item projected
              ((selects-Passes R states lanes coordination item).1 passes) there)),
      ),
    )

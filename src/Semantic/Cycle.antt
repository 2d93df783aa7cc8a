-- ===== src/Semantic/Cycle.antt =====
-- semantic.py: `_has_cycle` is true just where some record reaches itself.
use mncs_commons.Base.{
  false, ℕ, zero, suc, ◌<◌, String, true, List, [], ◌∷◌, ◌==◌, ◌≡◌, ◌≢◌, ◌↔◌, refl, sym, arith,
  eq_iff, eq_refl, contains, length, Bool-cases, inl, inr,
}
use mncs_commons.Semantic.Graph.{
  Edges, targets, Search, cycle, out_of_fuel, done, closed_by, visit, sources, search, has_cycle,
}
use mncs_commons.Semantic.Paths.{
  Includes, IsOrdered, Reaches, Reaches-then, ordered-acyclic, step, then_on,
}
use mncs_commons.Semantic.Endings.{
  done-injective, each-cycle, each-done, each-in_time, ending, free, free-drop, free-nil, in_cycle,
  in_done, in_time_out,
}

targets-source :
    (edges : Edges) (n t : String)
    → contains (targets edges n) t ≡ true
    → contains (sources edges) n ≡ true
targets-source [] n t h = cc
targets-source ((k, ts) ∷ rest) n t h = ground (arith, targets-source rest n t)

length-sources : (edges : Edges) → length (sources edges) ≡ length edges
length-sources [] = refl
length-sources ((k, ts) ∷ rest) = rw (length-sources rest) refl

source-Reaches :
    (edges : Edges) {a b : String} → Reaches edges a b → contains (sources edges) a ≡ true
source-Reaches edges (step a b e) = targets-source edges a b e
source-Reaches edges (then_on a b c e r) = targets-source edges a b e

closed-done :
    (n : String) (s : Search) (w : List String)
    → closed_by n s ≡ done w
    → (u : List String) × (s ≡ done u) × (w ≡ n ∷ u)
closed-done n (done u) w h = (u, refl, sym (done-injective h))
closed-done n cycle w h = cc
closed-done n out_of_fuel w h = cc

closed-cycle : (n : String) (s : Search) → closed_by n s ≡ cycle → s ≡ cycle
closed-cycle n cycle h = refl
closed-cycle n (done u) h = cc
closed-cycle n out_of_fuel h = cc

closed-out_of_fuel : (n : String) (s : Search) → closed_by n s ≡ out_of_fuel → s ≡ out_of_fuel
closed-out_of_fuel n out_of_fuel h = refl
closed-out_of_fuel n (done u) h = cc
closed-out_of_fuel n cycle h = cc

module _ (edges : Edges) where
  under-Reaches :
      (path : List String) (n t : String)
      → ((p : String) → contains path p ≡ true → Reaches edges p n)
      → contains (targets edges n) t ≡ true
      → (p : String) → contains (n ∷ path) p ≡ true
      → Reaches edges p t
  under-Reaches path n t r c p m = elim (Bool-cases (n == p)) [
    | inl here ↦ let same : n ≡ p = (eq_iff n p).0 here in rw (← same) (step n t c)
    | inr there ↦ Reaches-then edges (r p (ground (arith, m, there))) c
  ]

  visit-cycle :
      (fuel : ℕ) (path v : List String) (n : String)
      → ((p : String) → contains path p ≡ true → Reaches edges p n)
      → visit edges fuel path v n ≡ cycle
      → (a : String) × Reaches edges a a
  unfolding visit
  visit-cycle zero path v n r h = cc
  visit-cycle (suc fuel) path v n r h = elim (Bool-cases (contains path n)) [
    | inl back ↦ (n, r n back)
    | inr on ↦ elim (Bool-cases (contains v n)) [
      | inl seen ↦ let never = rw (on, seen, visit) at h in cc
      | inr fresh ↦
          each-cycle (visit edges fuel (n ∷ path)) _ v (targets edges n)
            (λ u t c. visit-cycle fuel (n ∷ path) u t (under-Reaches path n t r c))
            (closed-cycle n _ (rw (on, fresh, visit) at h))
    ]
  ]

  visit-done :
      (fuel : ℕ) (path v : List String) (n : String) (w : List String)
      → IsOrdered edges v
      → visit edges fuel path v n ≡ done w
      → IsOrdered edges w × (contains w n ≡ true) × Includes v w
  unfolding visit
  visit-done zero path v n w o h = cc
  visit-done (suc fuel) path v n w o h = elim (Bool-cases (contains path n)) [
    | inl back ↦ let never = rw (back, visit) at h in cc
    | inr on ↦ elim (Bool-cases (contains v n)) [
      | inl seen ↦
          let same = done-injective (rw (on, seen, visit) at h) in
          (rw (← same) o, rw (← same) seen, (λ x c. rw (← same) c))
      | inr fresh ↦
          let (u, e, made) = closed-done n _ w (rw (on, fresh, visit) at h) in
          let (ou, iu, vu) =
            each-done (visit edges fuel (n ∷ path)) edges
              (λ x t y ox hx. visit-done fuel (n ∷ path) x t y ox hx) v (targets edges n) u o e in
          rw made ((iu, ou), ground (arith, eq_refl n), (λ x c. ground (arith, vu x c)))
    ]
  ]

  visit-in_time :
      (fuel : ℕ) (path v : List String) (n : String)
      → free (sources edges) path < fuel
      → visit edges fuel path v n ≢ out_of_fuel
  unfolding visit
  visit-in_time zero path v n l h = ground arith
  visit-in_time (suc fuel) path v n l h = elim (Bool-cases (contains path n)) [
    | inl back ↦ let never = rw (back, visit) at h in cc
    | inr on ↦ elim (Bool-cases (contains v n)) [
      | inl seen ↦ let never = rw (on, seen, visit) at h in cc
      | inr fresh ↦
          each-in_time (visit edges fuel (n ∷ path)) v (targets edges n)
            (λ u t c.
              visit-in_time fuel (n ∷ path) u t (
                ground
                  (arith, l, free-drop (sources edges) path n (targets-source edges n t c) on)))
            (closed-out_of_fuel n _ (rw (on, fresh, visit) at h))
    ]
  ]

-- The search has fuel enough, whatever the edges are.
pub search-in_time : (edges : Edges) → search edges ≢ out_of_fuel
unfolding search
search-in_time edges h =
    each-in_time (visit edges (suc (suc (length edges))) []) [] (sources edges)
      (λ u t c.
        visit-in_time edges (suc (suc (length edges))) [] u t
          (ground (arith, free-nil (sources edges), length-sources edges)))
      h

search-done :
    (edges : Edges) (w : List String) (a : String) → search edges ≡ done w → ¬ Reaches edges a a
unfolding search
search-done edges w a h r =
    let (o, i, v) =
      each-done (visit edges (suc (suc (length edges))) []) edges
        (λ x t y ox hx. visit-done edges (suc (suc (length edges))) [] x t y ox hx) []
        (sources edges) w tt h in
    ordered-acyclic edges w a o (i a (source-Reaches edges r)) r

search-cycle : (edges : Edges) → search edges ≡ cycle → (a : String) × Reaches edges a a
unfolding search
search-cycle edges h =
    each-cycle (visit edges (suc (suc (length edges))) []) _ [] (sources edges)
      (λ u t c. visit-cycle edges (suc (suc (length edges))) [] u t (λ p m. cc)) h

-- `_has_cycle` is true of edges just where some node reaches itself along them.
pub has_cycle-Reaches :
    (edges : Edges) → (has_cycle edges ≡ true) ↔ ((a : String) × Reaches edges a a)
unfolding has_cycle
has_cycle-Reaches edges = elim (ending (search edges)) [
  | in_cycle e ↦ ((λ h. search-cycle edges e), (λ r. rw e refl))
  | in_time_out e ↦ absurd (search-in_time edges e)
  | in_done w e ↦
      ((λ h. let never = rw e at h in cc), (λ r. absurd (search-done edges w r.0 e r.1)))
]

pub has_cycle-acyclic :
    (edges : Edges) → has_cycle edges ≡ false → (a : String) → ¬ Reaches edges a a
has_cycle-acyclic edges flat a r = let found = (has_cycle-Reaches edges).1 (a, r) in cc

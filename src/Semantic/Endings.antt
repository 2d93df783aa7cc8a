-- ===== src/Semantic/Endings.antt =====
-- semantic.py: how a visit of several nodes ends, and how many nodes are under no visit.
use mncs_commons.Base.{
  ℕ, suc, ◌≤◌, ◌<◌, String, true, false, List, [], ◌∷◌, ◌==◌, ◌≡◌, ◌≢◌, refl, arith, eq_iff,
  eq_refl, contains, length, Bool-cases, inl, inr, if◌then◌else◌,
}
use mncs_commons.Semantic.Graph.{Edges, Search, cycle, out_of_fuel, done, visit_each}
use mncs_commons.Semantic.Paths.{Includes, IsOrdered}

pub data Ending (s : Search) : Type 0 where
  in_cycle : s ≡ cycle → Ending s
  in_time_out : s ≡ out_of_fuel → Ending s
  in_done : (w : List String) → s ≡ done w → Ending s

pub ending : (s : Search) → Ending s
ending cycle = in_cycle refl
ending out_of_fuel = in_time_out refl
ending (done w) = in_done w refl

pub done-injective : {v w : List String} → done v ≡ done w → v ≡ w
done-injective h = cc

-- A visit of several nodes ends as one of their visits does.
module _ (f : List String → String → Search) where
  pub each-cycle :
      (R : Type 0) (v ts : List String)
      → ((u : List String) (t : String) → contains ts t ≡ true → f u t ≡ cycle → R)
      → visit_each f v ts ≡ cycle
      → R
  unfolding visit_each
  each-cycle R v [] one h = cc
  each-cycle R v (t ∷ ts) one h = elim (ending (f v t)) [
    | in_cycle e ↦ one v t (ground (arith, eq_refl t)) e
    | in_time_out e ↦ let never = rw (e, visit_each) at h in cc
    | in_done w e ↦
        each-cycle R w ts (λ u x c. one u x (ground (arith, c))) (rw (e, visit_each) at h)
  ]

  pub each-in_time :
      (v ts : List String)
      → ((u : List String) (t : String) → contains ts t ≡ true → f u t ≢ out_of_fuel)
      → visit_each f v ts ≢ out_of_fuel
  unfolding visit_each
  each-in_time v [] one h = cc
  each-in_time v (t ∷ ts) one h = elim (ending (f v t)) [
    | in_cycle e ↦ let never = rw (e, visit_each) at h in cc
    | in_time_out e ↦ one v t (ground (arith, eq_refl t)) e
    | in_done w e ↦
        each-in_time w ts (λ u x c. one u x (ground (arith, c))) (rw (e, visit_each) at h)
  ]

  pub each-done :
      (edges : Edges)
      → ((u : List String) (t : String) (w : List String)
          → IsOrdered edges u
          → f u t ≡ done w
          → IsOrdered edges w × (contains w t ≡ true) × Includes u w)
      → (v ts w : List String) → IsOrdered edges v
      → visit_each f v ts ≡ done w
      → IsOrdered edges w × Includes ts w × Includes v w
  unfolding visit_each
  each-done edges one v [] w o h =
      let same = done-injective h in (rw (← same) o, (λ x c. cc), (λ x c. rw (← same) c))
  each-done edges one v (t ∷ ts) w o h = elim (ending (f v t)) [
    | in_cycle e ↦ let never = rw (e, visit_each) at h in cc
    | in_time_out e ↦ let never = rw (e, visit_each) at h in cc
    | in_done u e ↦
        let (ou, ct, iu) = one v t u o e in
        let (ow, its, iw) = each-done edges one u ts w ou (rw (e, visit_each) at h) in
        (ow, (λ x c. ground (arith, eq_iff t x, its x, iw x, iw t)), (λ x c. iw x (iu x c)))
  ]

-- How many of the keys are under no visit.
pub free : List String → List String → ℕ
free [] path = 0
free (k ∷ ks) path = if contains path k then free ks path else suc (free ks path)

pub free-nil : (ks : List String) → free ks [] ≡ length ks
unfolding free
free-nil [] = refl
free-nil (k ∷ ks) = rw (free-nil ks) refl

free-cons : (ks path : List String) (n : String) → free ks (n ∷ path) ≤ free ks path
unfolding free
free-cons [] path n = ground arith
free-cons (k ∷ ks) path n = ground (arith, free-cons ks path n)

pub free-drop :
    (ks path : List String) (n : String)
    → contains ks n ≡ true
    → contains path n ≡ false
    → free ks (n ∷ path) < free ks path
unfolding free
free-drop [] path n h f = cc
free-drop (k ∷ ks) path n h f = elim (Bool-cases (k == n)) [
  | inl here ↦
      let same : k ≡ n = (eq_iff k n).0 here in
      rw same (ground (arith, eq_refl n, free-cons ks path n))
  | inr there ↦ ground (arith, eq_iff n k, eq_iff k n, free-drop ks path n (ground arith) f)
]

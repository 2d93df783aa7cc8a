-- ===== src/Semantic/Paths.antt =====
-- semantic.py: the paths along the edges between records, and lists in which the targets come after.
use mncs_commons.Base.{
  String, true, List, [], ◌∷◌, ◌==◌, ◌≡◌, arith, eq_iff, contains, Bool-cases, inl, inr,
}
use mncs_commons.Semantic.Graph.{Edges, targets}

-- The relation that the edges generate: one step or more.
pub data Reaches (edges : Edges) : String → String → Type 0 where
  step : (a b : String) → contains (targets edges a) b ≡ true → Reaches edges a b
  then_on :
      (a b c : String) → contains (targets edges a) b ≡ true → Reaches edges b c → Reaches edges a c

-- Each node's targets stand after it.
abbrev pub IsOrdered : Edges → List String → Type 0
IsOrdered edges [] = Unit
IsOrdered edges (n ∷ rest) =
    ((t : String) → contains (targets edges n) t ≡ true → contains rest t ≡ true)
    × IsOrdered edges rest

abbrev pub Includes : List String → List String → Type 0
Includes xs ys = (t : String) → contains xs t ≡ true → contains ys t ≡ true

module _ (edges : Edges) where
  pub Reaches-then :
      {a b c : String} → Reaches edges a b → contains (targets edges b) c ≡ true → Reaches edges a c
  Reaches-then (step a b e) h = then_on a b _ e (step b _ h)
  Reaches-then (then_on a d b e r) h = then_on a d _ e (Reaches-then r h)

  closed-step :
      (v : List String) (a b : String)
      → IsOrdered edges v
      → contains v a ≡ true
      → contains (targets edges a) b ≡ true
      → contains v b ≡ true
  closed-step [] a b o h e = cc
  closed-step (n ∷ rest) a b o h e = elim (Bool-cases (n == a)) [
    | inl here ↦ let same : n ≡ a = (eq_iff n a).0 here in ground (arith, o.0 b (rw same e))
    | inr there ↦ ground (arith, closed-step rest a b o.1 (ground arith) e)
  ]

  -- What is reached from an ordered list is in it.
  closed-Reaches :
      (v : List String) {a b : String}
      → IsOrdered edges v
      → contains v a ≡ true
      → Reaches edges a b
      → contains v b ≡ true
  closed-Reaches v o h (step a b e) = closed-step v a b o h e
  closed-Reaches v o h (then_on a b c e r) = closed-Reaches v o (closed-step v a b o h e) r

  -- What the first node of an ordered list reaches is in the rest.
  ahead-Reaches :
      (n : String) (rest : List String) {b : String}
      → IsOrdered edges (n ∷ rest)
      → Reaches edges n b
      → contains rest b ≡ true
  ahead-Reaches n rest o (step a b e) = o.0 b e
  ahead-Reaches n rest o (then_on a b c e r) = closed-Reaches rest o.1 (o.0 b e) r

  pub ordered-acyclic :
      (v : List String) (a : String) → IsOrdered edges v → contains v a ≡ true → ¬ Reaches edges a a
  ordered-acyclic [] a o h r = cc
  ordered-acyclic (n ∷ rest) a o h r = elim (Bool-cases (contains rest a)) [
    | inl later ↦ ordered-acyclic rest a o.1 later r
    | inr first ↦
        let same : n ≡ a = (eq_iff n a).0 (ground arith) in
        let again = ahead-Reaches a rest (rw (← same) o) r in cc
  ]

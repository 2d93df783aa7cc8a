-- ===== src/Semantic/Accepted.antt =====
-- semantic.py: what holds of a record that `record_semantic_diagnostics` finds no fault with.
use mncs_commons.Base.{ℤ, pos, leb_ℤ, true, List, [], ◌∷◌, String, ◌≡◌}
use mncs_commons.Json.{num, Fields}
use mncs_commons.Result.{Runtime, ok}
use mncs_commons.Lists.{Every}
use mncs_commons.Work.Lineage.{revision_of}
use mncs_commons.Semantic.{is_next}
use mncs_commons.Semantic.Graph.{Edges, relation_edges}
use mncs_commons.Semantic.Paths.{Reaches}

-- An item whose revision is at most `m`.
abbrev pub IsAtMost : Runtime → ℤ → Fields → Type 0
IsAtMost R m item = (k : ℤ) × (revision_of R (num (pos 1)) item ≡ ok k) × (leb_ℤ k m ≡ true)

-- The candidate is the revision after one of greatest revision among those.
abbrev pub IsSuccessor : Runtime → Fields → List Fields → Type 0
IsSuccessor R candidate [] = Unit
IsSuccessor R candidate (first ∷ others) =
    (latest : Fields) × (m : ℤ) × (revision_of R (num (pos 1)) latest ≡ ok m)
    × Every (IsAtMost R m) (first ∷ others)
    × (is_next R candidate m latest ≡ true)

-- The records with the candidate have an acyclic graph of relations.
abbrev pub IsAcyclic : Runtime → List Fields → Type 0
IsAcyclic R records =
    (edges : Edges) × (relation_edges R records ≡ ok edges) × ((a : String) → ¬ Reaches edges a a)

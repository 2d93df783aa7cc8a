-- ===== src/Semantic/Graph.antt =====
-- semantic.py: the identity of a record, the edges between records, and the search for a cycle.
use mncs_commons.Base.{
  ℕ, zero, suc, String, Bool, true, false, Option, none, some, List, [], ◌∷◌, ◌==◌, contains,
  insert, length, if◌then◌else◌,
}
use mncs_commons.Json.{Json, text, arr, nil, obj, Fields, get, get_or, truthy, fields_of}
use mncs_commons.Result.{Runtime, Result, ok, ◌>>=◌}
use mncs_commons.Models.{str}
use mncs_commons.Lane.{in_texts}
use mncs_commons.Work.Revise.{listed}

-- `str(metadata["recordId"])`, if metadata is an object and the value is truthy.
abbrev record_id : Runtime → Fields → Option String
record_id R value =
    let v = get "recordId" (fields_of (get "metadata" value)) in
    if truthy v then some (str R v) else none

abbrev identity_or : Json → Option String → String
identity_or (text s) id = s
identity_or _ (some id) = id
identity_or _ none = ""

-- `_identity`
unfoldable pub identity : Runtime → Fields → String
identity R value = identity_or (get "contentDigest" value) (record_id R value)

abbrev logical_or : Option String → String → String
logical_or (some id) s = id
logical_or none s = s

-- `_logical_id`
unfoldable pub logical_id : Runtime → Fields → String
unfolding identity
logical_id R value = logical_or (record_id R value) (identity R value)

-- `known` of `_relation_edges`: the names of a record, and its node. A later record is found first.
unfoldable pub known_from : Runtime → List (String × String) → List Fields → List (String × String)
unfolding identity logical_id
known_from R known [] = known
known_from R known (value ∷ values) =
    let node = identity R value in
    known_from R ((logical_id R value, node) ∷ (node, node) ∷ known) values

abbrev pub node_named : List (String × String) → String → Option String
node_named [] name = none
node_named ((k, node) ∷ rest) name = if k == name then some node else node_named rest name

-- The edges by source, each set as a list.
abbrev pub Edges : Type 0
Edges = List (String × List String)

-- `edges.get(node, set())`
abbrev pub targets : Edges → String → List String
targets [] node = []
targets ((k, ts) ∷ rest) node = if k == node then ts else targets rest node

-- `edges.setdefault(source, set()).add(target)`
unfoldable pub add_edge : String → String → Edges → Edges
add_edge source target [] = (source, target ∷ []) ∷ []
add_edge source target ((k, ts) ∷ rest) =
    if k == source then (k, insert target ts) ∷ rest else (k, ts) ∷ add_edge source target rest

abbrev is_ordering : Json → Bool
is_ordering relation = in_texts ("supersedes" ∷ "depends_on" ∷ []) relation

abbrev add_known : String → Option String → Edges → Edges
unfolding add_edge
add_known source none edges = edges
add_known source (some target) edges = add_edge source target edges

-- The body of the inner loop of `_relation_edges`.
unfoldable pub relate : Runtime → List (String × String) → String → Json → Edges → Edges
unfolding add_edge
relate R known source (obj relation) edges =
    if is_ordering (get "type" relation)
    then add_known source (node_named known (str R (get "target" relation))) edges
    else edges
relate R known source _ edges = edges

unfoldable pub relate_all : Runtime → List (String × String) → String → List Json → Edges → Edges
unfolding relate
relate_all R known source [] edges = edges
relate_all R known source (relation ∷ relations) edges =
    relate_all R known source relations (relate R known source relation edges)

unfoldable pub edges_from : Runtime → List (String × String) → Edges → List Fields → Result Edges
unfolding relate_all identity
edges_from R known edges [] = ok edges
edges_from R known edges (value ∷ values) = do
  relations ← listed (get_or "relationships" (arr nil) value)
  edges_from R known (relate_all R known (identity R value) relations edges) values

-- `_relation_edges`
unfoldable pub relation_edges : Runtime → List Fields → Result Edges
unfolding edges_from known_from
relation_edges R values = edges_from R (known_from R [] values) [] values

-- What a visit ends with; `done` holds the nodes visited, the last first.
pub data Search : Type 0 where
  cycle out_of_fuel : Search
  done : List String → Search

abbrev pub closed_by : String → Search → Search
closed_by node (done visited) = done (node ∷ visited)
closed_by node cycle = cycle
closed_by node out_of_fuel = out_of_fuel

-- `any(visit(target) for target in …)`, which hands the nodes visited on.
module _ (visit' : List String → String → Search) where
  unfoldable pub visit_each : List String → List String → Search
  visit_each visited [] = done visited
  visit_each visited (node ∷ nodes) = elim (visit' visited node) [
    | cycle ↦ cycle
    | out_of_fuel ↦ out_of_fuel
    | done more ↦ visit_each more nodes
  ]

-- `visit` of `_has_cycle`. The set `visiting` is as it was when a visit returns `False`.
unfoldable pub visit : Edges → ℕ → List String → List String → String → Search
unfolding visit_each
visit edges zero visiting visited node = out_of_fuel
visit edges (suc fuel) visiting visited node = elim (contains visiting node) [
  | true ↦ cycle
  | false ↦ elim (contains visited node) [
    | true ↦ done visited
    | false ↦
        closed_by node
          (visit_each (visit edges fuel (node ∷ visiting)) visited (targets edges node))
  ]
]

abbrev pub sources : Edges → List String
sources [] = []
sources ((k, ts) ∷ rest) = k ∷ sources rest

-- Each visit under way is of another source, but for the last.
unfoldable pub search : Edges → Search
unfolding visit visit_each
search edges = visit_each (visit edges (suc (suc (length edges))) []) [] (sources edges)

abbrev pub is_cycle : Search → Bool
is_cycle cycle = true
is_cycle _ = false

-- `_has_cycle`
unfoldable pub has_cycle : Edges → Bool
unfolding search
has_cycle edges = is_cycle (search edges)

-- ===== src/Work/Next.antt =====
-- `next_work` of work.py: the available work that can start, in the order in which to offer it.
pub mod Ready
use Prim.Native.String.{compare}
use Prim.Native.Nat.{Ordering}
use package.text.Mathlib.Text.{starts_with}
use mncs_commons.Base.{
  ℕ, zero, suc, ◌+◌, ℤ, pos, negsuc, ltb_ℤ, eqb_ℤ, ltb, eqb, String, Bool, true, false, not, ◌&&◌,
  ◌||◌, Option, none, some, List, [], ◌∷◌, ◌++◌, ◌==◌, any, all, contains, map, take, if◌then◌else◌,
}
use mncs_commons.Json.{
  Json, num, text, arr, nil, obj, Fields, end, get, get_or, truthy, is_list, items_of,
}
use mncs_commons.Result.{Runtime, Result, ok, err, refused, uncaught, require, each, ◌>>=◌, ◌>>◌}
use mncs_commons.Models.{str, child}
use mncs_commons.Family.{canonical_project_identity}
use mncs_commons.Lane.{lanes}
use mncs_commons.Work.Readers.{to_int}
use mncs_commons.Work.Revise.{listed}
use mncs_commons.Work.History.{Projection, details_of}
use mncs_commons.Work.Listing.{list_work}

-- `[item for item in value if isinstance(item, str)]`
abbrev pub only_texts : List Json → List String
only_texts [] = []
only_texts (text s ∷ rest) = s ∷ only_texts rest
only_texts (_ ∷ rest) = only_texts rest

abbrev own_text : Json → List String
own_text (text s) = s ∷ []
own_text _ = []

-- `_item_repos`
unfoldable pub item_repositories : Fields → Result (List String)
item_repositories details = do
  affected ← listed (get_or "affectedRepositories" (arr nil) details)
  canonical ← listed (get_or "canonicalAffectedRepositories" (arr nil) details)
  ok (only_texts affected ++ only_texts canonical ++ own_text (get "canonicalRepository" details))

-- The names that `canonical_project_identity` finds for the affected repositories.
unfoldable pub resolved_names : Runtime → List String → List String
resolved_names R [] = []
resolved_names R (repository ∷ rest) =
    let others = resolved_names R rest in
    elim (canonical_project_identity R (text repository)) [
      | none ↦ others
      | some identity ↦ identity.repository ∷ identity.project_id ∷ others
    ]

-- `active_repositories`, of each active item.
unfoldable pub active_repositories : Runtime → List Projection → Result (List String)
active_repositories R [] = ok []
active_repositories R (item ∷ items) = do
  own ← item_repositories (details_of item.current)
  affected ← listed (get_or "affectedRepositories" (arr nil) (details_of item.current))
  rest ← active_repositories R items
  ok (own ++ resolved_names R (only_texts affected) ++ rest)

-- Every dependency of every item, as often as it stands there.
unfoldable pub all_dependencies : Runtime → List Projection → Result (List String)
all_dependencies R [] = ok []
all_dependencies R (item ∷ items) = do
  own ← listed (get_or "dependencies" (arr nil) (details_of item.current))
  rest ← all_dependencies R items
  ok (map (str R) own ++ rest)

-- `dependent_counts.get(s, 0)`
abbrev pub occurrences : String → List String → ℕ
occurrences s [] = 0
occurrences s (t ∷ rest) = if t == s then suc (occurrences s rest) else occurrences s rest

abbrev pub has_text : String → Json → Bool
has_text s value = contains (only_texts (items_of value)) s

abbrev pub canonical_filter : Runtime → String → Option String
canonical_filter R repository = elim (canonical_project_identity R (text repository)) [
  | none ↦ none
  | some identity ↦ some identity.repository
]

abbrev resolves_to : Runtime → String → String → Bool
resolves_to R canonical repository = elim (canonical_filter R repository) [
  | none ↦ false
  | some found ↦ found == canonical
]

abbrev names_canonical : Runtime → Option String → Fields → Bool
names_canonical R none details = false
names_canonical R (some canonical) details =
    has_text canonical (get_or "canonicalAffectedRepositories" (arr nil) details)
    || contains (own_text (get "canonicalRepository" details)) canonical
    || any (resolves_to R canonical)
        (only_texts (items_of (get_or "affectedRepositories" (arr nil) details)))

-- Whether the item passes the repository filter; an empty one filters nothing.
unfoldable pub in_repository : Runtime → String → Fields → Bool
in_repository R repository details =
    repository == ""
    || has_text repository (get_or "affectedRepositories" (arr nil) details)
    || names_canonical R (canonical_filter R repository) details

abbrev pub is_among : List String → Json → Bool
is_among known (text s) = contains known s
is_among known _ = false

abbrev pub parent_of : Runtime → Fields → List Json
parent_of R details =
    let parent = get "parentWorkId" details in
    if truthy parent then text (str R parent) ∷ [] else []

-- `dependency.startswith("work:") and dependency not in completed`
abbrev pub is_open : List String → Json → Result Bool
is_open completed (text s) = ok (starts_with s "work:" && not (contains completed s))
is_open completed _ = err (uncaught "AttributeError")

unfoldable pub any_open : List String → List Json → Result Bool
any_open completed [] = ok false
any_open completed (dependency ∷ rest) = do
  open' ← is_open completed dependency
  if open' then ok true else any_open completed rest

-- One round of the loop over the available work.
unfoldable pub is_eligible : Runtime → String → List String → List String → Projection → Result Bool
is_eligible R repository capabilities completed item =
    let details = details_of item.current in
    let able = (do
      required ← listed (get_or "capabilityRequirements" (arr nil) details)
      dependencies ← listed (get_or "dependencies" (arr nil) details)
      waiting ← any_open completed (dependencies ++ parent_of R details)
      ok (all (is_among capabilities) required && not waiting)) in
    if in_repository R repository details then able else ok false

unfoldable pub filter_eligible :
    Runtime → String → List String → List String → List Projection → Result (List Projection)
filter_eligible R repository capabilities completed [] = ok []
filter_eligible R repository capabilities completed (item ∷ items) = do
  chosen ← is_eligible R repository capabilities completed item
  rest ← filter_eligible R repository capabilities completed items
  ok (if chosen then item ∷ rest else rest)

-- The sort key. `dependents` is counted upwards, and `idle` is whether no repository of the item is
-- active: the code sorts by their negations.
pub record Rank : Type 0 where
  pub priority : ℤ
  pub dependents : ℕ
  pub idle : Bool
  pub created_at : String
  pub work_id : String

unfoldable pub rank_of : Runtime → List String → List String → Projection → Result Rank
rank_of R dependencies active item = do
  priority ← to_int R (get_or "priority" (num (pos 100)) (details_of item.current))
  repositories ← item_repositories (details_of item.current)
  metadata ← child "metadata" item.current
  ok (record {
    priority = priority;
    dependents = occurrences item.work_id dependencies;
    idle = not (any (contains active) repositories);
    created_at = str R (get_or "createdAt" (text "") metadata);
    work_id = item.work_id;
  })

abbrev text_before : String → String → Bool → Bool
text_before s t otherwise = elim (compare s t) [
  | Ordering.lt ↦ true
  | Ordering.eq ↦ otherwise
  | Ordering.gt ↦ false
]

-- Whether an item with the first rank may stand before one with the second.
unfoldable pub stands_before : Rank → Rank → Bool
stands_before a b =
    ltb_ℤ a.priority b.priority
    || eqb_ℤ a.priority b.priority
      && (ltb b.dependents a.dependents
          || eqb a.dependents b.dependents
            && (a.idle && not b.idle
                || (a.idle || not b.idle)
                  && text_before a.created_at b.created_at (text_before a.work_id b.work_id true)))

abbrev pub Ranked : Type 0
Ranked = Rank × Projection

unfoldable pub insert_ranked : Ranked → List Ranked → List Ranked
insert_ranked x [] = x ∷ []
insert_ranked x (y ∷ rest) =
    if stands_before x.0 y.0 then x ∷ y ∷ rest else y ∷ insert_ranked x rest

unfoldable pub sort_ranked : List Ranked → List Ranked
sort_ranked [] = []
sort_ranked (x ∷ rest) = insert_ranked x (sort_ranked rest)

abbrev pub ranked : Runtime → List String → List String → Projection → Result Ranked
ranked R dependencies active item = do rank ← rank_of R dependencies active item; ok (rank, item)

abbrev pub projections : List Ranked → List Projection
projections [] = []
projections ((rank, item) ∷ rest) = item ∷ projections rest

-- `max(1, min(limit, 1000))`
abbrev pub bound : ℤ → ℕ
bound (negsuc n) = 1
bound (pos n) = if eqb n 0 then 1 else if ltb n 1000 then n else 1000

abbrev pub one_lane : Option String → List String
one_lane none = []
one_lane (some lane) = if lane == "" then [] else lane ∷ []

abbrev pub is_supported : Option String → Bool
is_supported none = true
is_supported (some lane) = contains lanes lane

abbrev pub ids : List Projection → List String
ids items = map (λ item. item.work_id) items

-- A repository that is not given is the empty text, and capabilities that are not given none.
unfoldable pub next_work :
    Runtime → List Fields → Option String → String → List String → ℤ → Result (List Projection)
next_work R records lane repository capabilities limit = do
  require (is_supported lane) "WORK_LANE_INVALID" "lane is unsupported"
  projected ← list_work R records [] (one_lane lane) ("AVAILABLE" ∷ [])
  completed ← list_work R records [] [] ("COMPLETE" ∷ [])
  busy ← list_work R records [] [] ("CLAIMED" ∷ "IN_PROGRESS" ∷ "VERIFYING" ∷ [])
  active ← active_repositories R busy
  everything ← list_work R records [] [] []
  dependencies ← all_dependencies R everything
  eligible ← filter_eligible R repository capabilities (ids completed) projected
  ranks ← each (ranked R dependencies active) eligible
  ok (take (bound limit) (projections (sort_ranked ranks)))

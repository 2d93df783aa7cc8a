-- ===== src/Work/Hygiene.antt =====
-- `_hygiene_scope_invalid` of work.py: the repositories that hygiene work names.
pub mod Scope
use mncs_commons.Base.{
  String, Bool, true, false, not, ◌||◌, Option, none, some, List, [], ◌∷◌, contains, insert,
  is_blank, length, eqb, if◌then◌else◌,
}
use mncs_commons.Json.{Json, text, arr, cons, Fields, get, equals, to_list}
use mncs_commons.Result.{Runtime}
use mncs_commons.Family.{canonical_project_identity}

-- The family's repository that a non-blank text names; `none` where the code returns True.
abbrev pub resolved : Runtime → Json → Option String
resolved R (text s) = if is_blank s then none else elim (canonical_project_identity R (text s)) [
  | none ↦ none
  | some identity ↦ some identity.repository
]
resolved R _ = none

-- `isinstance(value, str) and value.strip()`
abbrev pub is_named : Json → Bool
is_named (text s) = not (is_blank s)
is_named _ = false

unfoldable pub primary_repository : Runtime → Fields → Option String
primary_repository R details =
    if is_named (get "canonicalRepository" details)
    then resolved R (get "canonicalRepository" details)
    else resolved R (get "repository" details)

-- The set of repositories that a list names, by first occurrence.
unfoldable pub resolve_all : Runtime → List Json → Option (List String)
resolve_all R [] = some []
resolve_all R (item ∷ items) =
    let rest = resolve_all R items in
    elim (resolved R item) [
      | none ↦ none
      | some repository ↦ elim rest [ none ↦ none | some others ↦ some (insert repository others) ]
    ]

abbrev is_full_list : Json → Bool
is_full_list (arr (cons v vs)) = true
is_full_list _ = false

abbrev resolve_list : Runtime → Json → Option (List String)
resolve_list R (arr (cons v vs)) = resolve_all R (v ∷ to_list vs)
resolve_list R _ = none

unfoldable pub affected_repositories : Runtime → Fields → Option (List String)
affected_repositories R details =
    if is_full_list (get "canonicalAffectedRepositories" details)
    then resolve_list R (get "canonicalAffectedRepositories" details)
    else resolve_list R (get "affectedRepositories" details)

-- `len(affected_set) != 1` or `primary not in affected_set`
abbrev pub spreads : Option String → Option (List String) → Bool
spreads (some primary) (some affected) =
    not (eqb (length affected) 1) || not (contains affected primary)
spreads _ _ = true

unfoldable pub hygiene_scope_invalid : Runtime → Fields → Bool
hygiene_scope_invalid R details =
    if not (equals (get "lane" details) "REPO_HYGIENE")
    then false
    else if equals (get "coordinationState" details) "NEEDS_RECONCILIATION"
    then false
    else spreads (primary_repository R details) (affected_repositories R details)

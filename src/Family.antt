-- ===== src/Family.antt =====
-- src/mncs_commons/family_registry.py: the family's repositories and their spellings.
use Prim.Native.Char.{code}
use mncs_commons.Base.{
  Bool, ℕ, suc, String, ◌<>◌, false, Option, none, some, List, [], ◌∷◌, ◌++◌, ◌==◌, eqb,
  if◌then◌else◌, or_else, contains, strip, is_blank, map,
}
use mncs_commons.Json.{Json, text}
use mncs_commons.Result.{Runtime}

-- `CANONICAL_FAMILY`
abbrev pub canonical_family : List (String × String)
canonical_family =
    ("mncs", "epi13/machine-native-complexity-standard")
    ∷ ("mncds", "epi13/machine-native-complexity-development-specification")
    ∷ ("mncs-rights-provenance", "epi13/mncs-rights-provenance")
    ∷ ("mncs-language", "epi13/mncs-language")
    ∷ ("mncs-language-service", "epi13/mncs-language-service")
    ∷ ("mncs-test", "epi13/mncs-test")
    ∷ ("mncs-debug", "epi13/mncs-debug")
    ∷ ("mncs-doctor", "epi13/mncs-doctor")
    ∷ ("mncs-actions", "epi13/mncs-actions")
    ∷ ("mncs-validator-rs", "epi13/mncs-validator-rs")
    ∷ ("mncs-forge", "epi13/mncs-forge")
    ∷ ("mncs-fabric", "epi13/mncs-fabric")
    ∷ ("mncs-commons", "epi13/MNCS-Commons")
    ∷ ("mncs-ingest", "epi13/mncs-ingest")
    ∷ ("mncs-store", "epi13/mncs-store")
    ∷ ("mncs-index", "epi13/mncs-index")
    ∷ ("mncs-service", "epi13/mncs-service")
    ∷ ("mncs-harness", "epi13/mncs-harness")
    ∷ ("mncs-control-mcp", "epi13/mncs-control-mcp")
    ∷ ("mncs-atlas", "epi13/mncs-atlas")
    ∷ ("mncs-reference-studies", "epi13/mncs-reference-studies")
    ∷ ("ravel", "epi13/RAVEL")
    ∷ ("mnel", "epi13/Machine-Native-Experimental-Learning")
    ∷ ("mncs-lineage", "epi13/mncs-lineage")
    ∷ ("mncs-tui", "epi13/mncs-tui")
    ∷ []

-- `SOURCE_ID_ALIASES`
abbrev pub source_id_aliases : List (String × String)
source_id_aliases =
    ("mncs-forge-mcp", "mncs-forge")
    ∷ ("forge", "mncs-forge")
    ∷ ("mncs-control", "mncs-control-mcp")
    ∷ ("control", "mncs-control-mcp")
    ∷ ("fabric", "mncs-fabric")
    ∷ ("rights-provenance", "mncs-rights-provenance")
    ∷ ("rust-validator", "mncs-validator-rs")
    ∷ ("reference-studies", "mncs-reference-studies")
    ∷ ("commons", "mncs-commons")
    ∷ ("atlas", "mncs-atlas")
    ∷ []

-- `text.split("/")`, without the empty parts.
split_parts : String → String → List String
split_parts part String.[] = if part == "" then [] else part ∷ []
split_parts part (String.◌∷◌ c s) =
    let cut = split_parts "" s in
    let longer = split_parts (part <> String.◌∷◌ c String.[]) s in
    if eqb (code c) 47 then (if part == "" then cut else part ∷ cut) else longer

-- `text.removesuffix(suffix)`
remove_suffix : String → String → String
remove_suffix suffix String.[] = String.[]
remove_suffix suffix (String.◌∷◌ c s) =
    let rest = remove_suffix suffix s in
    if String.◌∷◌ c s == suffix then String.[] else String.◌∷◌ c rest

-- `text.count("/")`
slashes : String → ℕ
slashes String.[] = 0
slashes (String.◌∷◌ c s) = if eqb (code c) 47 then suc (slashes s) else slashes s

-- `text.rsplit("/", 1)[-1]`
last_part : String → String
unfolding slashes
last_part String.[] = String.[]
last_part (String.◌∷◌ c s) =
    let rest = last_part s in if eqb (slashes (String.◌∷◌ c s)) 0 then String.◌∷◌ c s else rest

-- `_repository_from_url` of a text
repository_from_url : Runtime → String → Option String
unfolding split_parts remove_suffix
repository_from_url R value =
    let on_github : Bool = elim (R.hostname value) [
      | none ↦ false
      | some host ↦ host == "github.com"
    ] in
    let repository : Option String = elim (split_parts "" (R.url_path value)) [
      | owner ∷ name ∷ [] ↦ some (owner <> "/" <> remove_suffix ".git" name)
      | _ ↦ none
    ] in
    if on_github then repository else none

pub record ProjectIdentity : Type 0 where
  pub project_id : String
  pub repository : String
  pub submitted : String

targets : String → List (String × String) → List String
targets project_id [] = []
targets project_id ((alias, target) ∷ rest) =
    let others = targets project_id rest in if target == project_id then alias ∷ others else others

-- The spellings of one project.
aliases : String → String → List String
unfolding targets last_part
aliases project_id expected =
    project_id
    ∷ expected
    ∷ last_part expected
    ∷ (targets project_id source_id_aliases
        ++ map (λ alias. "epi13/" <> alias) (targets project_id source_id_aliases))

find_project : Runtime → String → String → List (String × String) → Option ProjectIdentity
unfolding aliases
find_project R submitted candidate [] = none
find_project R submitted candidate ((project_id, expected) ∷ rest) =
    if contains (map R.lower (aliases project_id expected)) candidate
    then some (record { project_id = project_id; repository = expected; submitted = submitted })
    else find_project R submitted candidate rest

-- `(repository or submitted).lower()`. A repository is never empty where it is found.
candidate_name : Runtime → String → String
unfolding repository_from_url remove_suffix slashes
candidate_name R submitted =
    let plain = if eqb (slashes submitted) 1 then remove_suffix ".git" submitted else submitted in
    let chosen = or_else (repository_from_url R submitted) plain in
    R.lower (if chosen == "" then submitted else chosen)

unfoldable pub canonical_project_identity : Runtime → Json → Option ProjectIdentity
unfolding candidate_name find_project
canonical_project_identity R (text value) =
    let submitted = strip value in
    if is_blank value
    then none
    else find_project R submitted (candidate_name R submitted) canonical_family
canonical_project_identity R _ = none

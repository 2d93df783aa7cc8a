-- ===== src/Lifecycle.antt =====
-- src/mncs_commons/lifecycle.py: the lifecycle's transition table, the check of one transition, and
-- the projection of an append-only event history to a state, in one trust domain or in all.
pub mod Table
pub mod Reachability
pub mod Domains
pub mod Append
pub mod Views
use package.text.Mathlib.Text.{is_le}
use Prim.Native.String.{compare}
use mncs_commons.Base.{
  String, ◌<>◌, Bool, true, false, not, ◌&&◌, ◌||◌, Option, none, some, List, [], ◌∷◌, ◌++◌, ◌==◌,
  contains, strip, is_blank, if◌then◌else◌, or_else, map, is_some,
}
use mncs_commons.Json.{
  Json, null, text, obj, Fields, end, get, get_or, truthy, equals, is_mapping, fields_of,
}
use mncs_commons.Result.{Runtime, Result, ok, err, each, ◌>>=◌}
use mncs_commons.Models.{Diagnostic, diagnostic, valid, report_if, str, child, digest_of}

-- `_ALLOWED`
abbrev pub table : List (String × List String)
table =
    ("proposed", "reproduced" ∷ "disputed" ∷ "expired" ∷ "rejected" ∷ "withdrawn" ∷ [])
    ∷ ("reproduced", "verified" ∷ "disputed" ∷ "expired" ∷ "rejected" ∷ "withdrawn" ∷ [])
    ∷ ("verified", "accepted" ∷ "disputed" ∷ "superseded" ∷ "expired" ∷ "withdrawn" ∷ [])
    ∷ ("accepted", "superseded" ∷ "expired" ∷ "withdrawn" ∷ [])
    ∷ (
      "disputed",
      "reproduced" ∷ "verified" ∷ "superseded" ∷ "expired" ∷ "rejected" ∷ "withdrawn" ∷ [],
    )
    ∷ ("superseded", [])
    ∷ ("expired", [])
    ∷ ("rejected", "superseded" ∷ "withdrawn" ∷ [])
    ∷ ("withdrawn", [])
    ∷ []

abbrev pub row : List (String × List String) → String → Option (List String)
row [] s = none
row ((k, targets) ∷ rest) s = if k == s then some targets else row rest s

-- `current in _ALLOWED`
unfoldable pub is_known : String → Bool
is_known s = is_some (row table s)

unfoldable pub allowed_transitions : String → List String
allowed_transitions s = or_else (row table s) []

abbrev pub unreviewed_state : String
unreviewed_state = "unreviewed"

abbrev pub domain_scoped_state : String
domain_scoped_state = "domain-scoped"

unfoldable pub validate_transition : Runtime → String → String → Fields → List Diagnostic
validate_transition R current target event =
    let transition = get_or "transition" (obj end) event in
    let authority = get_or "authority" (obj end) event in
    let stale = not (is_mapping transition && equals (get "from" (fields_of transition)) current) in
    let domain = str R (get_or "domain" (text "") (fields_of authority)) in
    report_if (not (is_known current)) "UNKNOWN_CURRENT_STATE" "current"
      "current lifecycle state is unknown"
    ++ report_if (not (is_known target)) "UNKNOWN_TARGET_STATE" "transition.to"
        "target lifecycle state is unknown"
    ++ report_if (not (contains (allowed_transitions current) target)) "FORBIDDEN_TRANSITION"
        "transition" (current <> " -> " <> target <> " is not allowed")
    ++ report_if stale "STALE_TRANSITION" "transition.from" ("expected current state " <> current)
    ++ report_if (not (is_mapping authority) || is_blank domain) "AUTHORITY_DOMAIN_REQUIRED"
        "authority.domain" "every transition needs an explicit domain"

abbrev non_empty : String → Option String
non_empty s = if s == "" then none else some s

unfoldable pub event_domain : Runtime → Fields → Option String
event_domain R event = elim (get "authority" event) [
  | obj authority ↦ non_empty (strip (str R (get "domain" authority)))
  | _ ↦ none
]

unfoldable pub target_digest : Runtime → Fields → Option String
target_digest R event = elim (get "target" event) [
  | obj target ↦
      let value = get "contentDigest" target in if truthy value then some (str R value) else none
  | _ ↦ none
]

abbrev pub is_this : Option String → String → Bool
is_this none s = false
is_this (some t) s = t == s

pub record LifecycleView : Type 0 where
  pub current_state : String
  pub events : List String
  pub diagnostics : List Diagnostic
  pub domain : Option String
  pub domain_states : List (String × String)

-- `LifecycleView.transition_state`
abbrev pub transition_state : LifecycleView → String
transition_state view = if is_some view.domain then view.current_state else unreviewed_state

-- The variables of the loop in `_derive_for_domain`.
pub record Walk : Type 0 where
  pub state : String
  pub applied : List String
  pub diagnostics : List Diagnostic
  pub seen : List String

-- The end of the loop's body, once an event is known to be new and about this record and domain:
-- by its transition, if that is an object.
abbrev pub apply_transition : Runtime → String → Fields → Walk → Json → Walk
apply_transition R digest event w (obj transition) =
    let next_state = str R (get_or "to" (text "") transition) in
    let report = validate_transition R w.state next_state event in
    if valid report
    then record w { state = next_state; applied = w.applied ++ digest ∷ [] }
    else record w { diagnostics = w.diagnostics ++ report }
apply_transition R digest event w _ = record w {
  diagnostics =
      w.diagnostics
      ++ diagnostic "INVALID_TRANSITION" "transition" "transition must be an object" ∷ [];
}

unfoldable pub apply : Runtime → String → Fields → Walk → Walk
apply R digest event w = apply_transition R digest event w (get_or "transition" (obj end) event)

abbrev pub concerns : Runtime → String → String → Fields → Bool
concerns R target domain event =
    is_this (target_digest R event) target && is_this (event_domain R event) domain

-- One round of the loop.
unfoldable pub visit : Runtime → String → String → Walk → Fields → Walk
visit R target domain w event =
    let digest = digest_of R event in
    let noted = record w { seen = digest ∷ w.seen } in
    if contains w.seen digest
    then w
    else if concerns R target domain event
    then apply R digest event noted
    else noted

unfoldable pub walk : Runtime → String → String → Walk → List Fields → Walk
walk R target domain w [] = w
walk R target domain w (event ∷ events) =
    walk R target domain (visit R target domain w event) events

abbrev pub start : String → Walk
start initial = record { state = initial; applied = []; diagnostics = []; seen = [] }

-- `str(record.get("lifecycle", {}).get("initialState", "proposed"))`
unfoldable pub initial_state : Runtime → Fields → Result String
initial_state R value = do
  lifecycle ← child "lifecycle" value
  ok (str R (get_or "initialState" (text "proposed") lifecycle))

-- The view that `_derive_for_domain` returns after its loop.
abbrev pub view_of : String → Walk → LifecycleView
view_of domain w = record {
  current_state = w.state;
  events = w.applied;
  diagnostics = w.diagnostics;
  domain = some domain;
  domain_states = [];
}

unfoldable pub derive_for_domain : Runtime → Fields → List Fields → String → Result LifecycleView
derive_for_domain R value events domain = do
  initial ← initial_state R value
  ok (view_of domain (walk R (digest_of R value) domain (start initial) events))

-- Insertion into a sorted list without duplicates.
abbrev pub insert_sorted : String → List String → List String
insert_sorted s [] = s ∷ []
insert_sorted s (t ∷ rest) =
    if s == t
    then t ∷ rest
    else if is_le (compare s t)
    then s ∷ t ∷ rest
    else t ∷ insert_sorted s rest

-- `sorted({…})` over the domains of the events about one record.
unfoldable pub domains : Runtime → String → List Fields → List String
domains R target [] = []
domains R target (event ∷ events) =
    let rest = domains R target events in
    if is_this (target_digest R event) target
    then elim (event_domain R event) [ none ↦ rest | some d ↦ insert_sorted d rest ]
    else rest

abbrev all_events : List LifecycleView → List String
all_events [] = []
all_events (v ∷ vs) = v.events ++ all_events vs

abbrev all_diagnostics : List LifecycleView → List Diagnostic
all_diagnostics [] = []
all_diagnostics (v ∷ vs) = v.diagnostics ++ all_diagnostics vs

-- The views of every domain, in order (`domain_views` is this as a dict).
unfoldable pub domain_views : Runtime → Fields → List Fields → Result (List LifecycleView)
domain_views R value events =
    each (derive_for_domain R value events) (domains R (digest_of R value) events)

abbrev pub is_empty {ℓ} : {A : Type ℓ} → List A → Bool
is_empty [] = true
is_empty (x ∷ xs) = false

unfoldable pub derive_lifecycle :
    Runtime → Fields → List Fields → Option String → Result LifecycleView
derive_lifecycle R value events (some domain) = derive_for_domain R value events domain
derive_lifecycle R value events none = do
  views ← domain_views R value events
  ok (record {
    current_state = if is_empty views then "proposed" else domain_scoped_state;
    events = all_events views;
    diagnostics = all_diagnostics views;
    domain = none;
    domain_states = map (λ v. (or_else v.domain "", v.current_state)) views;
  })

-- ===== src/Work/Revise/Successor.antt =====
-- The states that `revised_work_record` of work.py writes, against the tables.
use mncs_commons.Base.{
  String, ◌≡◌, refl, ◌∙◌, ◌<>◌, Bool, true, ◌&&◌, ◌||◌, List, [], ◌∷◌, arith, ◌==◌, contains,
  or_else, Bool-cases, inl, inr, eq_refl,
}
use mncs_commons.Json.{Json, null, bool, num, arr, text, obj, Fields, get, get_or, has, set, lookup}
use mncs_commons.Json.Laws.{get-set}
use mncs_commons.Json.Reflexive.{AreFields, get-IsWellFormed, py_eq_refl}
use mncs_commons.Result.{Runtime, ok, require, ◌>>=◌, >>=-eq-ok, ok-injective, require-eq-ok}
use mncs_commons.Models.{str}
use mncs_commons.Work.States.{
  allowed_work_transitions, allowed_coordination_transitions, coordination_state, coordination_of,
  is_coordination_state, implied_coordination, implied_table, entry,
}
use mncs_commons.Work.Readers.{max_text, bounded_text}
use mncs_commons.Work.Lineage.{mutations}
use mncs_commons.Work.Revise.{
  target_state, next_event, state_event, next_coordination, checked_coordination,
}

-- The move that `target_state` admits: along the table, or none where attachments are given.
pub target_state-allowed :
    (previous target : String) (transition : Fields)
    → target_state previous transition ≡ ok target
    → (contains (allowed_work_transitions previous) target
        || (target == previous && has "attachments" transition))
      ≡ true
unfolding target_state
target_state-allowed previous target transition h =
    let (t, e, h1) =
      >>=-eq-ok (bounded_text 32 (get_or "state" (text previous) transition) "state") _ h in
    let (u, e2, h2) =
      >>=-eq-ok
        (require
          (contains (allowed_work_transitions previous) t
            || (t == previous && has "attachments" transition))
          "WORK_TRANSITION_REJECTED" (previous <> " -> " <> t <> " is not allowed"))
        _ h1 in
    rw (← ok-injective h2) (require-eq-ok _ _ _ e2)

abbrev IsEventOf : String → String → Fields → Fields → Type 0
IsEventOf previous target actor event =
    (get "from" event ≡ text previous)
    × (get "to" event ≡ text target)
    × (get "actor" event ≡ obj actor)

with_reason :
    (previous target : String) (actor : Fields) (reason : Json) (event : Fields)
    → (bounded_text max_text reason "reason" >>= λ r.
        ok (set "reason" (text r) (state_event previous target actor)))
      ≡ ok event
    → IsEventOf previous target actor event
with_reason previous target actor reason event h =
    let (r, e, h1) = >>=-eq-ok (bounded_text max_text reason "reason") _ h in
    rw (← ok-injective h1) (
      (
        get-set "from" _ _ _ ∙ (unfold get lookup in refl),
        get-set "to" _ _ _ ∙ (unfold get lookup in refl),
        get-set "actor" _ _ _ ∙ (unfold get lookup in refl),
      ))

-- The event names the states before and after, and the actor.
pub next_event-states :
    (previous target : String) (actor : Fields) (reason : Json) (event : Fields)
    → next_event previous target actor reason ≡ ok event
    → IsEventOf previous target actor event
unfolding next_event
next_event-states previous target actor null event h =
    rw (← ok-injective h) (unfold get lookup in (refl, refl, refl))
next_event-states previous target actor (bool b) event h =
    with_reason previous target actor (bool b) event h
next_event-states previous target actor (num n) event h =
    with_reason previous target actor (num n) event h
next_event-states previous target actor (text s) event h =
    with_reason previous target actor (text s) event h
next_event-states previous target actor (arr a) event h =
    with_reason previous target actor (arr a) event h
next_event-states previous target actor (obj o) event h =
    with_reason previous target actor (obj o) event h

abbrev all_valid : List (String × String) → Bool
all_valid [] = true
all_valid ((k, v) ∷ rest) = is_coordination_state v && all_valid rest

entry-valid :
    (table : List (String × String)) (s d : String)
    → all_valid table ≡ true
    → is_coordination_state d ≡ true
    → is_coordination_state (or_else (entry table s) d) ≡ true
entry-valid [] s d valid h = h
entry-valid ((k, v) ∷ rest) s d valid h = ground (arith, entry-valid rest s d)

implied-valid :
    (s d : String)
    → is_coordination_state d ≡ true
    → is_coordination_state (implied_coordination s d) ≡ true
unfolding implied_coordination
implied-valid s d h = entry-valid implied_table s d (unfold is_coordination_state in refl) h

coordination_of-valid :
    (R : Runtime) (j : Json) (details : Fields)
    → is_coordination_state (coordination_of R j details) ≡ true
coordination_of-valid R (text s) details = elim (Bool-cases (is_coordination_state s)) [
  | inl known ↦ rw known known
  | inr other ↦ rw other (
      implied-valid (str R (get "state" details)) "AVAILABLE"
        (unfold is_coordination_state in refl))
]
coordination_of-valid R _ details =
    implied-valid (str R (get "state" details)) "AVAILABLE" (unfold is_coordination_state in refl)

-- A record is always in one of the nine coordination states.
pub coordination_state-valid :
    (R : Runtime) (details : Fields) → is_coordination_state (coordination_state R details) ≡ true
unfolding coordination_state
coordination_state-valid R details =
    coordination_of-valid R (get "coordinationState" details) details

pub coordination_state-of_text :
    (R : Runtime) (details : Fields) (s : String)
    → get "coordinationState" details ≡ text s
    → is_coordination_state s ≡ true
    → coordination_state R details ≡ s
unfolding coordination_state
coordination_state-of_text R details s e known = rw e (rw known)

next_coordination-valid :
    (R : Runtime) (target : String) (details transition : Fields) (next : String)
    → next_coordination R target details transition ≡ ok next
    → is_coordination_state next ≡ true
unfolding next_coordination
next_coordination-valid R target details transition next h =
    elim (Bool-cases (has "coordinationState" transition)) [
      | inl given ↦
          let g = rw given at h in
          let (c, e, h1) =
            >>=-eq-ok (bounded_text 32 (get "coordinationState" transition) "coordinationState") _
              g in
          let (u, e2, h2) =
            >>=-eq-ok
              (require (is_coordination_state c) "WORK_COORDINATION_STATE_INVALID"
                "coordinationState is unsupported")
              _ h1 in
          rw (← ok-injective h2) (require-eq-ok _ _ _ e2)
      | inr absent ↦
          rw (← ok-injective (rw absent at h)) (
            implied-valid target (coordination_state R details)
              (coordination_state-valid R details))
    ]

pub checked_coordination-allowed :
    (R : Runtime) (target : String) (details transition : Fields) (next : String)
    → checked_coordination R target details transition ≡ ok next
    → (is_coordination_state next ≡ true)
      × ((next == coordination_state R details
            || contains (allowed_coordination_transitions (coordination_state R details)) next)
          ≡ true)
unfolding checked_coordination
checked_coordination-allowed R target details transition next h =
    let previous = coordination_state R details in
    let (c, e, h1) = >>=-eq-ok (next_coordination R target details transition) _ h in
    let (u, e2, h2) =
      >>=-eq-ok
        (require (c == previous || contains (allowed_coordination_transitions previous) c)
          "WORK_COORDINATION_TRANSITION_REJECTED" (previous <> " -> " <> c <> " is not allowed"))
        _ h1 in
    rw (← ok-injective h2)
      (next_coordination-valid R target details transition c e, require-eq-ok _ _ _ e2)

pub mutations-nil :
    (details before : Fields) (names : List String)
    → AreFields before
    → ((name : String) → contains names name ≡ true → get name details ≡ get name before)
    → mutations details before names ≡ []
unfolding mutations
mutations-nil details before [] w same = refl
mutations-nil details before (name ∷ names) w same = rw (same name (ground (arith, eq_refl name))) (
    rw (py_eq_refl (get name before) (get-IsWellFormed name before w))
      (mutations-nil details before names w (λ n m. same n (ground arith))))

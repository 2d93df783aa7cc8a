-- ===== src/Work/States.antt =====
-- src/mncs_commons/work.py: the states of work, of its coordination, and their transitions.
use mncs_commons.Base.{
  contains, String, Bool, false, Option, none, some, List, [], ◌∷◌, ◌==◌, if◌then◌else◌, or_else,
}
use mncs_commons.Json.{Json, text, Fields, get}
use mncs_commons.Result.{Runtime}
use mncs_commons.Models.{str}
use mncs_commons.Lifecycle.{row}

abbrev pub work_protocol : String
work_protocol = "commons.mncs.dev/work-record/v0alpha1"

-- `_COORDINATION_TRANSITIONS`
abbrev pub coordination_table : List (String × List String)
coordination_table =
    ("AVAILABLE", "CLAIMED" ∷ "ABANDONED" ∷ "SUPERSEDED" ∷ [])
    ∷ ("CLAIMED", "IN_PROGRESS" ∷ "BLOCKED" ∷ "ABANDONED" ∷ "SUPERSEDED" ∷ [])
    ∷ (
      "IN_PROGRESS",
      "BLOCKED" ∷ "VERIFYING" ∷ "COMPLETE" ∷ "ABANDONED" ∷ "NEEDS_RECONCILIATION" ∷ [],
    )
    ∷ ("BLOCKED", "CLAIMED" ∷ "IN_PROGRESS" ∷ "ABANDONED" ∷ "NEEDS_RECONCILIATION" ∷ [])
    ∷ ("VERIFYING", "COMPLETE" ∷ "BLOCKED" ∷ "NEEDS_RECONCILIATION" ∷ [])
    ∷ ("NEEDS_RECONCILIATION", "CLAIMED" ∷ "IN_PROGRESS" ∷ "ABANDONED" ∷ [])
    ∷ ("COMPLETE", [])
    ∷ ("ABANDONED", [])
    ∷ ("SUPERSEDED", [])
    ∷ []

-- `_TRANSITIONS`
abbrev pub work_table : List (String × List String)
work_table =
    ("submitted", "accepted" ∷ "assigned" ∷ "failed" ∷ "cancelled" ∷ [])
    ∷ ("accepted", "assigned" ∷ "queued" ∷ "failed" ∷ "cancelled" ∷ [])
    ∷ ("assigned", "queued" ∷ "running" ∷ "blocked" ∷ "retrying" ∷ "failed" ∷ "cancelled" ∷ [])
    ∷ ("queued", "assigned" ∷ "running" ∷ "blocked" ∷ "retrying" ∷ "failed" ∷ "cancelled" ∷ [])
    ∷ (
      "running",
      "checkpointed" ∷ "blocked" ∷ "retrying" ∷ "completed" ∷ "failed" ∷ "cancelled" ∷ [],
    )
    ∷ (
      "checkpointed",
      "running" ∷ "blocked" ∷ "retrying" ∷ "completed" ∷ "failed" ∷ "cancelled" ∷ [],
    )
    ∷ ("blocked", "assigned" ∷ "queued" ∷ "running" ∷ "retrying" ∷ "failed" ∷ "cancelled" ∷ [])
    ∷ ("retrying", "assigned" ∷ "queued" ∷ "running" ∷ "blocked" ∷ "failed" ∷ "cancelled" ∷ [])
    ∷ ("completed", [])
    ∷ ("failed", [])
    ∷ ("cancelled", [])
    ∷ []

-- `WORK_STATES`
abbrev pub work_states : List String
work_states =
    "submitted" ∷ "accepted" ∷ "assigned" ∷ "queued" ∷ "running" ∷ "checkpointed" ∷ "blocked"
    ∷ "retrying" ∷ "completed" ∷ "failed" ∷ "cancelled" ∷ []

-- `WORK_COORDINATION_STATES`
abbrev pub coordination_states : List String
coordination_states =
    "AVAILABLE" ∷ "CLAIMED" ∷ "IN_PROGRESS" ∷ "BLOCKED" ∷ "VERIFYING" ∷ "COMPLETE" ∷ "ABANDONED"
    ∷ "SUPERSEDED" ∷ "NEEDS_RECONCILIATION" ∷ []

unfoldable pub is_work_state : String → Bool
is_work_state s = contains work_states s

unfoldable pub is_coordination_state : String → Bool
is_coordination_state s = contains coordination_states s

-- `value in WORK_STATES`, for any value
abbrev pub in_work_states : Json → Bool
in_work_states (text s) = is_work_state s
in_work_states _ = false

abbrev pub in_coordination_states : Json → Bool
in_coordination_states (text s) = is_coordination_state s
in_coordination_states _ = false

unfoldable pub allowed_work_transitions : String → List String
allowed_work_transitions s = or_else (row work_table s) []

unfoldable pub allowed_coordination_transitions : String → List String
allowed_coordination_transitions s = or_else (row coordination_table s) []

-- The coordination state that a work state stands for, in `coordination_state` and in
-- `revised_work_record`.
abbrev pub implied_table : List (String × String)
implied_table =
    ("submitted", "AVAILABLE")
    ∷ ("accepted", "AVAILABLE")
    ∷ ("assigned", "CLAIMED")
    ∷ ("queued", "CLAIMED")
    ∷ ("running", "IN_PROGRESS")
    ∷ ("checkpointed", "VERIFYING")
    ∷ ("blocked", "BLOCKED")
    ∷ ("retrying", "NEEDS_RECONCILIATION")
    ∷ ("completed", "COMPLETE")
    ∷ ("failed", "ABANDONED")
    ∷ ("cancelled", "ABANDONED")
    ∷ []

abbrev pub entry : List (String × String) → String → Option String
entry [] s = none
entry ((k, v) ∷ rest) s = if k == s then some v else entry rest s

unfoldable pub implied_coordination : String → String → String
implied_coordination s default = or_else (entry implied_table s) default

abbrev pub coordination_of : Runtime → Json → Fields → String
coordination_of R (text s) details =
    if is_coordination_state s
    then s
    else implied_coordination (str R (get "state" details)) "AVAILABLE"
coordination_of R _ details = implied_coordination (str R (get "state" details)) "AVAILABLE"

unfoldable pub coordination_state : Runtime → Fields → String
coordination_state R details = coordination_of R (get "coordinationState" details) details

-- `_request_state`
unfoldable pub request_state : String → String
request_state s =
    if s == "completed"
    then "completed"
    else if s == "failed"
    then "unable_to_complete"
    else if s == "cancelled"
    then "withdrawn"
    else if s == "submitted"
    then "open"
    else "claimed"

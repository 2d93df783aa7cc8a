-- ===== src/Lane.antt =====
-- src/mncs_commons/lane_policy.py: the work lanes, what each may write, and the check of a
-- request's lane against its declared impact and scope.
pub mod Consistent
use mncs_commons.Base.{
  String, Bool, false, not, ◌&&◌, Option, none, some, List, [], ◌∷◌, ◌==◌, any, contains,
  if◌then◌else◌,
}
use mncs_commons.Json.{Json, null, bool, text, Fields, get, items_of}

-- `LANES`
abbrev pub lanes : List String
lanes =
    "DOCUMENTATION" ∷ "CONVERSION_PREP" ∷ "VERIFICATION" ∷ "REPO_LOCAL" ∷ "REPO_HYGIENE"
    ∷ "SHARED_CORE" ∷ []

pub record LanePolicy : Type 0 where
  pub lane : String
  pub read : List String
  pub write : List String
  pub may_publish : List String
  pub must_not_modify : List String
  pub exclusive : Bool

abbrev pub shared_forbidden : List String
shared_forbidden =
    "mncs-language/compiler/**" ∷ "mncs-language/src/**" ∷ "mncs-language/stdlib/**"
    ∷ "Commons protocol/schema semantics" ∷ "Fabric protocol semantics" ∷ "Harness policy semantics"
    ∷ "family-wide semantic schemas" ∷ "conformance and evaluator semantics" ∷ []

abbrev pub publish : List String
publish = "observations" ∷ "findings" ∷ "work_requests" ∷ "blockers" ∷ "handoffs" ∷ []

-- The chain of `if selected is …` in `lane_policy`.
abbrev write_scope : String → List String
write_scope lane =
    if lane == "DOCUMENTATION"
    then "assigned_repo/docs/**" ∷ "assigned_repo/README*" ∷ "assigned_repo/examples/**" ∷ []
    else if lane == "CONVERSION_PREP"
    then "assigned_repo/**" ∷ []
    else if lane == "VERIFICATION"
    then "assigned_repo/tests/**" ∷ "assigned_repo/fixtures/**" ∷ "assigned_repo/.github/**" ∷ []
    else if lane == "REPO_LOCAL"
    then "assigned_repo/**" ∷ []
    else if lane == "REPO_HYGIENE"
    then "assigned_repo/.github/**" ∷ "assigned_repo/tests/**" ∷ "assigned_repo/fixtures/**"
      ∷ "assigned_repo/**" ∷ []
    else "explicitly-authorized-shared-core/**" ∷ []

-- `none` is the `ValueError` for a text that is no lane.
unfoldable pub lane_policy : String → Option LanePolicy
lane_policy lane =
    let shared = lane == "SHARED_CORE" in
    if contains lanes lane
    then some (record {
      lane = lane;
      read = "mncs-family/**" ∷ [];
      write = write_scope lane;
      may_publish = publish;
      must_not_modify = if shared then [] else shared_forbidden;
      exclusive = shared;
    })
    else none

-- `value in lanes`, for any value
abbrev pub is_lane : Json → Bool
is_lane (text lane) = contains lanes lane
is_lane _ = false

abbrev pub is_true : Json → Bool
is_true (bool b) = b
is_true _ = false

abbrev pub in_texts : List String → Json → Bool
in_texts allowed (text s) = contains allowed s
in_texts allowed _ = false

-- `forbidden` is a list, and holds an item that the policy does not forbid.
abbrev pub widens : LanePolicy → Json → Bool
widens policy forbidden =
    any (λ item. not (in_texts policy.must_not_modify item)) (items_of forbidden)

-- The rest of `validate_lane_request`, for a known lane.
abbrev pub lane_diagnostics : String → LanePolicy → Fields → List (String × String)
lane_diagnostics lane policy details =
    let impact = is_true (get "sharedCoreImpact" details) in
    if lane == "SHARED_CORE" && not impact
    then ("WORK_SHARED_CORE_IMPACT_REQUIRED", "details.sharedCoreImpact") ∷ []
    else if not (lane == "SHARED_CORE") && impact
    then ("WORK_SAFE_LANE_SHARED_CORE", "details.sharedCoreImpact") ∷ []
    else if widens policy (get "forbiddenWriteScope" details)
    then ("WORK_FORBIDDEN_SCOPE_INVALID", "details.forbiddenWriteScope") ∷ []
    else []

abbrev pub lane_text_diagnostics : String → Option LanePolicy → Fields → List (String × String)
lane_text_diagnostics lane none details = ("WORK_LANE_INVALID", "details.lane") ∷ []
lane_text_diagnostics lane (some policy) details = lane_diagnostics lane policy details

-- By the value of `lane`.
abbrev pub lane_value_diagnostics : Json → Fields → List (String × String)
lane_value_diagnostics null details = []
lane_value_diagnostics (text lane) details = lane_text_diagnostics lane (lane_policy lane) details
lane_value_diagnostics _ details = ("WORK_LANE_INVALID", "details.lane") ∷ []

unfoldable pub validate_lane_request : Fields → List (String × String)
validate_lane_request details = lane_value_diagnostics (get "lane" details) details

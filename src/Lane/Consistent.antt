-- ===== src/Lane/Consistent.antt =====
-- lane_policy.py: the requests that `validate_lane_request` has nothing to say about.
use mncs_commons.Base.{
  String, ◌≡◌, refl, sym, ap, ◌∙◌, Bool, true, false, some, [], ◌==◌, arith, contains,
}
use mncs_commons.Json.{text, Fields, get}
use mncs_commons.Lane.{
  LanePolicy, lanes, lane_policy, is_true, widens, lane_diagnostics, lane_text_diagnostics,
  validate_lane_request,
}

some-injective : {A : Type 0} {x y : A} → some x ≡ some y → x ≡ y
some-injective h = cc

known-exclusive :
    (lane : String) (policy : LanePolicy) (b : Bool)
    → contains lanes lane ≡ b
    → lane_policy lane ≡ some policy
    → policy.exclusive ≡ (lane == "SHARED_CORE")
unfolding lane_policy
known-exclusive lane policy true k h = ap (λ p. p.exclusive) (sym (some-injective (rw k at h)))
known-exclusive lane policy false k h = let never = rw k at h in cc

diagnostics-nil :
    (lane : String) (policy : LanePolicy) (details : Fields)
    → lane_diagnostics lane policy details ≡ []
    → (is_true (get "sharedCoreImpact" details) ≡ (lane == "SHARED_CORE"))
      × (widens policy (get "forbiddenWriteScope" details) ≡ false)
diagnostics-nil lane policy details h = (ground arith, ground arith)

-- A request with a lane that `validate_lane_request` has nothing to report of declares an impact on
-- the shared core exactly where its lane is the exclusive one, and lists as forbidden only what its
-- lane forbids.
pub validate_lane_request-nil :
    (details : Fields) (lane : String) (policy : LanePolicy)
    → get "lane" details ≡ text lane
    → lane_policy lane ≡ some policy
    → validate_lane_request details ≡ []
    → (is_true (get "sharedCoreImpact" details) ≡ policy.exclusive)
      × (widens policy (get "forbiddenWriteScope" details) ≡ false)
unfolding validate_lane_request
validate_lane_request-nil details lane policy e k h =
    let by_policy : lane_text_diagnostics lane (lane_policy lane) details ≡ [] = rw e at h in
    let none_reported : lane_diagnostics lane policy details ≡ [] = rw k at by_policy in
    let found = diagnostics-nil lane policy details none_reported in
    (found.0 ∙ sym (known-exclusive lane policy (contains lanes lane) refl k), found.1)

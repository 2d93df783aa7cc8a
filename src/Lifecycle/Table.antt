-- ===== src/Lifecycle/Table.antt =====
-- Facts about the transition table of lifecycle.py.
use mncs_commons.Base.{String, ◌≡◌, true, arith, eq_iff, contains}
use mncs_commons.Lifecycle.{allowed_transitions}

-- Only a verified record can become accepted.
pub allowed-accepted :
    (s : String) → contains (allowed_transitions s) "accepted" ≡ true → s ≡ "verified"
unfolding allowed_transitions
allowed-accepted s h = ground (
  arith,
  eq_iff "proposed" s,
  eq_iff "reproduced" s,
  eq_iff "verified" s,
  eq_iff "accepted" s,
  eq_iff "disputed" s,
  eq_iff "superseded" s,
  eq_iff "expired" s,
  eq_iff "rejected" s,
  eq_iff "withdrawn" s,
)

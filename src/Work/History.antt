-- ===== src/Work/History.antt =====
-- `project_work_history` of work.py: the state of work, from its revisions.
pub mod Sorting
pub mod Links
pub mod Steps
pub mod Revised
use mncs_commons.Base.{
  ℕ, suc, pos, ℤ, leb_ℤ, String, Bool, ◌&&◌, ◌||◌, not, Option, none, some, List, [], ◌∷◌, ◌==◌,
  keep, last?, contains, if◌then◌else◌, map,
}
use mncs_commons.Json.{
  Json, num, text, obj, Fields, end, get, get_or, is_null, is_mapping, is_text, equals, fields_of,
}
use mncs_commons.Json.Equality.{py_eq}
use mncs_commons.Result.{refused, err, Runtime, Result, ok, require, reject, each, ◌>>=◌, ◌>>◌}
use mncs_commons.Models.{str, child, digest_of}
use mncs_commons.Lifecycle.{is_empty}
use mncs_commons.Work.States.{work_protocol, allowed_work_transitions, coordination_state}
use mncs_commons.Work.Lineage.{revision_of, is_work}

-- A round of the loop, as the history lists it. Its digest and state are the `previous_digest` and
-- the `previous_state` of the next round.
pub record Entry : Type 0 where
  pub revision : ℕ
  pub digest : String
  pub created_at : Json
  pub state : String
  pub event : Json

-- The filter that selects the revisions of one work.
abbrev pub is_revision_of : String → Fields → Bool
is_revision_of work_id item =
    is_work (get "details" item) && equals (get "workId" (fields_of (get "details" item))) work_id

-- `selected.sort(key=…)`, with each key computed once; the sort is stable.
abbrev pub keyed_by_revision : Runtime → List Fields → Result (List (ℤ × Fields))
keyed_by_revision R [] = ok []
keyed_by_revision R (item ∷ items) = do
  n ← revision_of R (num (pos 0)) item
  rest ← keyed_by_revision R items
  ok ((n, item) ∷ rest)

abbrev pub insert_revision : ℤ → Fields → List (ℤ × Fields) → List (ℤ × Fields)
insert_revision n item [] = (n, item) ∷ []
insert_revision n item ((m, other) ∷ rest) =
    if leb_ℤ n m then (n, item) ∷ (m, other) ∷ rest else (m, other) ∷ insert_revision n item rest

abbrev pub sort_revisions : List (ℤ × Fields) → List (ℤ × Fields)
sort_revisions [] = []
sort_revisions ((n, item) ∷ rest) = insert_revision n item (sort_revisions rest)

abbrev pub items_in : List (ℤ × Fields) → List Fields
items_in [] = []
items_in ((n, item) ∷ rest) = item ∷ items_in rest

abbrev pub details_of : Fields → Fields
details_of item = fields_of (get "details" item)

abbrev pub state_of : Runtime → Fields → String
state_of R item = str R (get "state" (details_of item))

abbrev pub entry_of : Runtime → ℕ → Fields → Fields → Entry
entry_of R n metadata item = record {
  revision = n;
  digest = digest_of R item;
  created_at = get "createdAt" metadata;
  state = state_of R item;
  event = get_or "stateEvent" (obj end) (details_of item);
}

-- The first round has no entry before it.
unfoldable pub check_previous : Runtime → Option Entry → Fields → Fields → Result (Unit {0})
check_previous R none metadata item =
    require (is_null (get "previousDigest" metadata) && state_of R item == "submitted")
      "WORK_HISTORY_INVALID" "first work revision is invalid"
check_previous R (some before) metadata item = do
  require (equals (get "previousDigest" metadata) before.digest) "WORK_HISTORY_INVALID"
      "work revision lineage is broken"
  require
      (state_of R item == before.state
        || contains (allowed_work_transitions before.state) (state_of R item))
      "WORK_HISTORY_INVALID" "work state history is invalid"
  let event = get_or "stateEvent" (obj end) (details_of item)
  require (is_mapping event && equals (get "from" (fields_of event)) before.state)
      "WORK_HISTORY_INVALID" "work state event is stale"

unfoldable pub check_link : Runtime → ℕ → Option Entry → Fields → Fields → Result (Unit {0})
check_link R n before metadata item = do
  require (py_eq (get "revision" metadata) (num (pos n))) "WORK_HISTORY_INVALID"
      "work revisions are not contiguous"
  check_previous R before metadata item

-- The loop over the sorted revisions, from the one expected to have the number `n`.
unfoldable pub links : Runtime → ℕ → Option Entry → List Fields → Result (List Entry)
unfolding check_link
links R n before [] = ok []
links R n before (item ∷ items) = do
  metadata ← child "metadata" item
  check_link R n before metadata item
  rest ← links R (suc n) (some (entry_of R n metadata item)) items
  ok (entry_of R n metadata item ∷ rest)

-- The dict that `project_work_history` returns, without its two constant fields.
pub record Projection : Type 0 where
  pub work_id : String
  pub state : String
  pub coordination : String
  pub lane : Json
  pub current_digest : String
  pub current : Fields
  pub history : List Entry

-- The last round's state and digest are those of the last revision.
abbrev pub projection_of : Runtime → String → Fields → List Entry → Projection
projection_of R work_id current history = record {
  work_id = work_id;
  state = state_of R current;
  coordination = coordination_state R (details_of current);
  lane = get "lane" (details_of current);
  current_digest = digest_of R current;
  current = current;
  history = history;
}

abbrev not_found : {A : Type 0} → Result A
not_found = err (refused "WORK_NOT_FOUND" "work record was not found")

-- By the last of the sorted revisions: an empty selection is the one that has none.
abbrev pub project_last : Runtime → String → List Fields → Option Fields → Result Projection
project_last R work_id sorted none = not_found
project_last R work_id sorted (some current) = do
  history ← links R 1 none sorted
  ok (projection_of R work_id current history)

abbrev pub project_sorted : Runtime → String → List Fields → Result Projection
project_sorted R work_id sorted = project_last R work_id sorted (last? sorted)

unfoldable pub project_work_history : Runtime → List Fields → String → Result Projection
project_work_history R records work_id = do
  keys ← keyed_by_revision R (keep (is_revision_of work_id) records)
  project_sorted R work_id (items_in (sort_revisions keys))

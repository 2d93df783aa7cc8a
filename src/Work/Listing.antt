-- ===== src/Work/Listing.antt =====
-- `list_work` of work.py: the projections of all work, filtered.
pub mod Sound
use mncs_commons.Base.{
  String, Bool, true, false, ◌&&◌, ◌||◌, List, [], ◌∷◌, contains, keep, if◌then◌else◌,
}
use mncs_commons.Json.{Json, text, Fields, get}
use mncs_commons.Result.{Runtime, Result, ok, each, ◌>>=◌}
use mncs_commons.Lifecycle.{insert_sorted, is_empty}
use mncs_commons.Work.States.{coordination_state}
use mncs_commons.Work.Lineage.{is_work}
use mncs_commons.Work.History.{Projection, project_work_history, details_of}

abbrev add_id : Json → List String → List String
add_id (text id) ids = insert_sorted id ids
add_id _ ids = ids

-- `work_ids`: each identity once, in order.
unfoldable pub work_ids : List Fields → List String
work_ids [] = []
work_ids (item ∷ items) =
    let rest = work_ids items in
    if is_work (get "details" item) then add_id (get "workId" (details_of item)) rest else rest

abbrev in_lanes : List String → Json → Bool
in_lanes lanes (text lane) = contains lanes lane
in_lanes lanes _ = false

-- The three filters; an empty set filters nothing.
abbrev pub selects : Runtime → List String → List String → List String → Projection → Bool
selects R states lanes coordination item =
    (is_empty states || contains states item.state)
    && (is_empty lanes || in_lanes lanes (get "lane" (details_of item.current)))
    && (is_empty coordination
        || contains coordination (coordination_state R (details_of item.current)))

unfoldable pub list_work :
    Runtime → List Fields → List String → List String → List String → Result (List Projection)
unfolding work_ids
list_work R records states lanes coordination = do
  projected ← each (project_work_history R records) (work_ids records)
  ok (keep (selects R states lanes coordination) projected)

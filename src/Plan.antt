-- ===== src/Plan.antt =====
-- frontend/src/screens/ProjectPlan.tsx: the path of an item in the plan, and the parents that it may have.
pub mod Path
mod Tests
use ai_erp.Base.{
  ℕ, zero, suc, String, Bool, true, false, ◌||◌, Option, none, some, List, [], ◌∷◌, str_eq, any,
}
use ai_erp.Base.Dict.{Dict, get}
use ai_erp.Overview.{PlanKind, epic, topic, task, milestone, PlanItem, truthy, by_id, parent_of}

-- `seen.has(id)`
abbrev pub was_seen : String → List String → Bool
was_seen id seen = any (λ s. str_eq s id) seen

-- The loop of `pathFor`: `none` where the fuel does not suffice.
unfoldable pub walk :
    ℕ → Dict PlanItem → Option PlanItem → List String → List String → Option (List String)
walk zero m current path seen = none
walk (suc fuel) m none path seen = some path
walk (suc fuel) m (some i) path seen = elim (was_seen i.id seen) [
  | true ↦ some path
  | false ↦ walk fuel m (parent_of m i) (i.title ∷ path) (i.id ∷ seen)
]

-- The titles that `pathFor` joins, the outermost first.
abbrev pub path_for : ℕ → Dict PlanItem → PlanItem → Option (List String)
path_for fuel m item = walk fuel m (some item) [] []

abbrev pub item_or : PlanItem → Option PlanItem → PlanItem
item_or item none = item
item_or item (some i) = i

-- `none` is the root of the project.
abbrev pub parent_path_for : ℕ → Dict PlanItem → PlanItem → Option (Option (List String))
parent_path_for fuel m item = elim (truthy item.parent_id) [
  | none ↦ none
  | some p ↦ some (path_for fuel m (item_or item (get p m)))
]

abbrev pub is_epic : PlanKind → Bool
is_epic epic = true
is_epic _ = false

abbrev pub is_topic : PlanKind → Bool
is_topic topic = true
is_topic _ = false

unfoldable pub valid_parent : PlanKind → Option PlanItem → Bool
valid_parent epic none = true
valid_parent milestone none = true
valid_parent topic none = false
valid_parent task none = false
valid_parent topic (some p) = is_epic p.kind
valid_parent task (some p) = is_epic p.kind || is_topic p.kind
valid_parent milestone (some p) = is_epic p.kind || is_topic p.kind
valid_parent epic (some p) = false

-- ===== src/Overview.antt =====
-- frontend/src/project-overview.ts: what the overview shows of a project's plan and schedules. Texts
-- of dates are compared by their characters.
pub mod Ancestors
pub mod Selection
pub mod Paging
pub mod Loaded
mod Tests
use ai_erp.Base.{
  ℕ, zero, suc, String, Bool, true, false, not, ◌&&◌, ◌||◌, Option, none, some, List, [], ◌∷◌, ◌++◌,
  if◌then◌else◌, str_eq, take, is_some, map,
}
use ai_erp.Base.Text.{codes, is_empty}
use ai_erp.Base.Dict.{Dict, get, put}

pub data PlanKind : Type 0 where
  epic topic task milestone : PlanKind

pub data PlanState : Type 0 where
  backlog ready in_progress blocked done cancelled : PlanState

pub data ForecastState : Type 0 where
  empty undated incomplete complete : ForecastState

pub record PlanSummary : Type 0 where
  pub task_count : ℕ
  pub done_count : ℕ
  pub blocked_count : ℕ
  pub overdue_count : ℕ
  pub progress_percent : Option ℕ
  pub forecast_state : ForecastState
  pub outside_target : Bool

-- The members that the overview reads; `null` is `none`.
pub record PlanItem : Type 0 where
  pub id : String
  pub parent_id : Option String
  pub kind : PlanKind
  pub title : String
  pub assignee_id : Option String
  pub state : PlanState
  pub target_start : Option String
  pub target_end : Option String
  pub deadline : Option String
  pub sort_order : ℕ
  pub blocker_ids : List String
  pub summary : PlanSummary

pub record PlanSnapshot : Type 0 where
  pub as_of_date : String
  pub items : List PlanItem
  pub summary : PlanSummary
  pub complete : Bool

-- A text that is neither `null` nor empty.
abbrev pub truthy : Option String → Option String
truthy none = none
truthy (some s) = if is_empty (codes s) then none else some s

-- `new Map(items.map(row => [row.id, row]))`
unfoldable pub by_id : List PlanItem → Dict PlanItem → Dict PlanItem
by_id [] m = m
by_id (i ∷ is) m = by_id is (put i.id i m)

abbrev pub parent_of : Dict PlanItem → PlanItem → Option PlanItem
parent_of m i = elim (truthy i.parent_id) [ none ↦ none | some p ↦ get p m ]

-- The loop of `planPath`, the outermost title first: `none` where the fuel does not suffice.
unfoldable pub climb : ℕ → Dict PlanItem → PlanItem → List String → Option (List String)
climb zero m current path = none
climb (suc fuel) m current path = elim (parent_of m current) [
  | none ↦ some path
  | some parent ↦ climb fuel m parent (parent.title ∷ path)
]

abbrev pub plan_path : ℕ → List PlanItem → PlanItem → Option (List String)
plan_path fuel items item = climb fuel (by_id items []) item []

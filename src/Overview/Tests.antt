-- ===== src/Overview/Tests.antt =====
-- A plan of one epic with two tasks, a server with a few schedules, and the theorems at them.
use Prim.Native.Nat.{Ordering}
use ai_erp.Base.{
  ℕ, ◌≡◌, refl, String, true, false, none, some, List, [], ◌∷◌, map, str_eq, if◌then◌else◌, ◌==◌,
  ltb,
}
use ai_erp.Base.Dict.{get, put}
use ai_erp.Overview.{
  PlanItem, PlanSummary, PlanSnapshot, epic, task, blocked, ready, complete, by_id, climb,
  plan_path,
}
use ai_erp.Overview.Selection.{
  insert_by, sort_by, select_risks, select_goals, select_my_active_tasks, compare_risks, is_overdue,
  is_blocked, reasons_of,
}
use ai_erp.Overview.Selection.Flags.{IsFair, is_goal, is_risk, is_task_of, select-IsFair}
use ai_erp.Overview.Paging.{Schedule}

abbrev no_work : PlanSummary
no_work = record {
  task_count = 0;
  done_count = 0;
  blocked_count = 0;
  overdue_count = 0;
  progress_percent = none;
  forecast_state = complete;
  outside_target = false;
}

abbrev goal : PlanItem
goal = record {
  id = "e";
  parent_id = none;
  kind = epic;
  title = "Goal";
  assignee_id = none;
  state = ready;
  target_start = none;
  target_end = none;
  deadline = none;
  sort_order = 0;
  blocker_ids = [];
  summary = no_work;
}

abbrev first_task : PlanItem
first_task = record goal {
  id = "t";
  parent_id = some "e";
  kind = task;
  title = "First";
  assignee_id = some "m";
}

abbrev held_task : PlanItem
held_task = record first_task { id = "u"; parent_id = some "t"; title = "Held"; state = blocked }

abbrev rows : List PlanItem
rows = goal ∷ first_task ∷ held_task ∷ []

abbrev small_plan : PlanSnapshot
small_plan = record { as_of_date = "2026-01-02"; items = rows; summary = no_work; complete = true }

abbrev depth : String → ℕ
depth id = if str_eq id "e" then 0 else if str_eq id "t" then 1 else 2

abbrev all_equal : String → String → Ordering
all_equal a b = Ordering.eq

held_path : plan_path 3 rows held_task ≡ some ("Goal" ∷ "First" ∷ [])
unfolding by_id climb get put
held_path = refl

held_first : map (λ s. s.row.id) (select_risks all_equal 3 small_plan 1) ≡ "u" ∷ []
unfolding sort_by insert_by compare_risks is_overdue reasons_of
held_first = refl

select-IsFair_example :
    (IsFair
      (λ i. str_eq i.id "e")
      is_goal
      (λ i. ltb 0 i.summary.blocked_count)
      1
      rows
      (select_goals all_equal 3 small_plan 1))
    × (IsFair
        (λ i. str_eq i.id "e")
        (is_risk "2026-01-02")
        is_blocked
        1
        rows
        (select_risks all_equal 3 small_plan 1))
    × (IsFair
        (λ i. str_eq i.id "e")
        (is_task_of "m")
        is_blocked
        1
        rows
        (select_my_active_tasks all_equal 3 small_plan "m" 1))
select-IsFair_example = select-IsFair all_equal 3 small_plan "m" 1 (λ i. str_eq i.id "e")

abbrev page_key : ℕ → String
page_key page = if page == 0 then "overview:0" else "overview:n"

abbrev two_schedules : List Schedule
two_schedules = record { id = "a"; title = "x" } ∷ record { id = "b"; title = "y" } ∷ []

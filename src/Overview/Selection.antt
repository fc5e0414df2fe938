-- ===== src/Overview/Selection.antt =====
-- What the overview picks from a plan: goals, risks, milestones and the user's own tasks.
pub mod Counts
pub mod Flags
use Prim.Native.Nat.{compare, Ordering}
use ai_erp.Base.{
  ℕ, String, Bool, true, false, not, ◌&&◌, ◌||◌, Option, none, some, List, [], ◌∷◌, ◌++◌, ltb,
  if◌then◌else◌, str_eq, take, map, select, is_some, is_value,
}
use ai_erp.Base.Text.{codes, is_empty}
use ai_erp.Calendar.Lanes.{code_point_compare, then_by, is_after}
use ai_erp.Overview.{
  PlanItem, PlanSnapshot, PlanKind, epic, task, milestone, PlanState, in_progress, blocked, done,
  cancelled, ForecastState, incomplete, truthy, plan_path,
}

unfoldable pub insert_by {ℓ} : {A : Type ℓ} → (A → A → Ordering) → A → List A → List A
insert_by order a [] = a ∷ []
insert_by order a (b ∷ bs) = if is_after (order a b) then b ∷ insert_by order a bs else a ∷ b ∷ bs

-- The stable sort of the language.
unfoldable pub sort_by {ℓ} : {A : Type ℓ} → (A → A → Ordering) → List A → List A
unfolding insert_by
sort_by order [] = []
sort_by order (a ∷ as') = insert_by order a (sort_by order as')

-- `value ? value.slice(0, 10) : null`
abbrev pub date_value : Option String → Option (List ℕ)
date_value value = elim (truthy value) [ none ↦ none | some s ↦ some (take 10 (codes s)) ]

-- `a ?? b`
abbrev pub or_date : Option (List ℕ) → Option (List ℕ) → Option (List ℕ)
or_date none b = b
or_date (some a) b = some a

abbrev pub applicable_date : PlanItem → Option (List ℕ)
applicable_date i =
    or_date (date_value i.deadline) (or_date (date_value i.target_end) (date_value i.target_start))

unfoldable pub compare_date : Option (List ℕ) → Option (List ℕ) → Ordering
unfolding code_point_compare
compare_date none none = Ordering.eq
compare_date none (some b) = Ordering.gt
compare_date (some a) none = Ordering.lt
compare_date (some a) (some b) = code_point_compare a b

abbrev pub is_before : Ordering → Bool
is_before Ordering.lt = true
is_before _ = false

abbrev pub is_closed : PlanState → Bool
is_closed done = true
is_closed cancelled = true
is_closed _ = false

abbrev pub is_cancelled : PlanState → Bool
is_cancelled cancelled = true
is_cancelled _ = false

abbrev pub is_kind : PlanKind → PlanKind → Bool
is_kind epic epic = true
is_kind task task = true
is_kind milestone milestone = true
is_kind _ _ = false

abbrev pub passed : Option (List ℕ) → List ℕ → Bool
passed none as_of = false
passed (some date) as_of = is_before (code_point_compare date as_of)

unfoldable pub is_overdue : PlanItem → String → Bool
unfolding code_point_compare
is_overdue i as_of =
    not (is_closed i.state)
    && passed (or_date (date_value i.deadline) (date_value i.target_end)) (codes as_of)

-- `item.state === "BLOCKED" || item.blockerIds.length > 0`
abbrev pub is_blocked : PlanItem → Bool
is_blocked i = elim i.state [
  | blocked ↦ true
  | _ ↦ elim i.blocker_ids [ [] ↦ false | b ∷ bs ↦ true ]
]

abbrev pub is_unplanned : PlanItem → Bool
is_unplanned i = not (is_some (truthy i.target_start)) || not (is_some (truthy i.target_end))

abbrev pub is_unassigned : PlanItem → Bool
is_unassigned i = not (is_some (truthy i.assignee_id))

abbrev pub is_started : PlanItem → Bool
is_started i = elim i.state [ in_progress ↦ true | _ ↦ false ]

abbrev pub is_off_target : PlanItem → Bool
is_off_target i =
    i.summary.outside_target || elim i.summary.forecast_state [ incomplete ↦ true | _ ↦ false ]

-- `Number(b) - Number(a)` of two flags.
abbrev pub flag_first : Bool → Bool → Ordering
flag_first true false = Ordering.lt
flag_first false true = Ordering.gt
flag_first _ _ = Ordering.eq

-- An item as it is shown: its path, and whether it is blocked and overdue.
pub record Shown : Type 0 where
  pub row : PlanItem
  pub path : Option (List String)
  pub is_held : Bool
  pub overdue : Bool

pub data RiskReason : Type 0 where
  risk_blocked risk_overdue risk_unplanned risk_unassigned : RiskReason

abbrev pub reason_if : Bool → RiskReason → List RiskReason
reason_if true r = r ∷ []
reason_if false r = []

-- `collate` is `localeCompare`; `fuel` bounds the climb to the outermost ancestor.
module _ (collate : String → String → Ordering) (fuel : ℕ) where
  abbrev pub by_order : PlanItem → PlanItem → Ordering
  by_order a b = then_by (compare a.sort_order b.sort_order) (collate a.id b.id)

  abbrev pub by_date : PlanItem → PlanItem → Ordering
  by_date a b = then_by (compare_date (applicable_date a) (applicable_date b)) (by_order a b)

  unfoldable pub compare_goals : Shown → Shown → Ordering
  compare_goals a b = then_by (flag_first a.is_held b.is_held) (
      then_by (flag_first a.overdue b.overdue)
        (then_by (flag_first (is_off_target a.row) (is_off_target b.row)) (by_order a.row b.row)))

  abbrev pub goal_of : PlanSnapshot → PlanItem → Shown
  goal_of p i = record {
    row = i;
    path = plan_path fuel p.items i;
    is_held = ltb 0 i.summary.blocked_count;
    overdue = ltb 0 i.summary.overdue_count;
  }

  abbrev pub ranked_goals : PlanSnapshot → List Shown
  ranked_goals p =
      sort_by compare_goals
        (map (goal_of p) (select (λ i. is_kind i.kind epic && not (is_cancelled i.state)) p.items))

  abbrev pub select_goals : PlanSnapshot → ℕ → List Shown
  select_goals p cap = take cap (ranked_goals p)

  abbrev pub task_of : PlanSnapshot → PlanItem → Shown
  task_of p i = record {
    row = i;
    path = plan_path fuel p.items i;
    is_held = is_blocked i;
    overdue = is_overdue i p.as_of_date;
  }

  unfoldable pub reasons_of : Shown → List RiskReason
  reasons_of s =
      reason_if s.is_held risk_blocked
      ++ reason_if s.overdue risk_overdue
      ++ reason_if (is_unplanned s.row) risk_unplanned
      ++ reason_if (is_unassigned s.row) risk_unassigned

  abbrev pub has_reason : List RiskReason → Bool
  has_reason [] = false
  has_reason (r ∷ rs) = true

  unfoldable pub compare_risks : Shown → Shown → Ordering
  compare_risks a b = then_by (flag_first a.is_held b.is_held) (
      then_by (flag_first a.overdue b.overdue) (
        then_by (flag_first (is_unplanned a.row) (is_unplanned b.row))
          (then_by (flag_first (is_unassigned a.row) (is_unassigned b.row)) (by_date a.row b.row))))

  abbrev pub ranked_risks : PlanSnapshot → List Shown
  ranked_risks p = sort_by compare_risks (
      select (λ s. has_reason (reasons_of s))
        (map (task_of p) (select (λ i. is_kind i.kind task && not (is_closed i.state)) p.items)))

  abbrev pub select_risks : PlanSnapshot → ℕ → List Shown
  select_risks p cap = take cap (ranked_risks p)

  unfoldable pub compare_tasks : Shown → Shown → Ordering
  compare_tasks a b = then_by (flag_first a.is_held b.is_held) (
      then_by (flag_first a.overdue b.overdue)
        (then_by (flag_first (is_started a.row) (is_started b.row)) (by_date a.row b.row)))

  abbrev pub is_mine : String → PlanItem → Bool
  is_mine user i = elim i.assignee_id [ none ↦ false | some a ↦ str_eq a user ]

  abbrev pub ranked_tasks : PlanSnapshot → String → List Shown
  ranked_tasks p user = sort_by compare_tasks (
      map (task_of p)
        (select (λ i. is_kind i.kind task && is_mine user i && not (is_closed i.state)) p.items))

  abbrev pub select_my_active_tasks : PlanSnapshot → String → ℕ → List Shown
  select_my_active_tasks p user cap = take cap (ranked_tasks p user)

  -- A milestone with its path; its date is `applicable_date`.
  abbrev pub select_milestones : PlanSnapshot → ℕ → List (PlanItem × Option (List String))
  select_milestones p cap = take cap (
      sort_by (λ a b. by_date a.0 b.0)
        (map (λ i. (i, plan_path fuel p.items i))
          (select (λ i. is_kind i.kind milestone && not (is_cancelled i.state)) p.items)))

-- `planProgress`: the percentage is shown only for a complete plan with tasks.
pub record PlanProgress : Type 0 where
  pub done_count : ℕ
  pub task_count : ℕ
  pub percent : Option ℕ
  pub complete : Bool
  pub empty : Bool

abbrev pub plan_progress : PlanSnapshot → PlanProgress
plan_progress p = record {
  done_count = p.summary.done_count;
  task_count = p.summary.task_count;
  percent = if p.complete && ltb 0 p.summary.task_count then p.summary.progress_percent else none;
  complete = p.complete;
  empty = p.complete && not (ltb 0 p.summary.task_count);
}

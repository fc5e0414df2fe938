-- ===== src/Overview/Selection/Flags.antt =====
-- Blocked items come first, and are left out last.
use Prim.Native.Nat.{Ordering}
use ai_erp.Base.{
  ℕ, ◌≤◌, ◌≡◌, refl, String, Bool, true, false, not, ◌&&◌, ◌||◌, List, arith, take, length,
  length-take, map, select, min, ap, ◌∙◌, sym, subst, ltb, str_eq, none, some,
}
use ai_erp.Overview.{PlanItem, PlanSnapshot, epic, task, done, cancelled}
use ai_erp.Overview.Selection.{
  Shown, sort_by, compare_goals, compare_risks, compare_tasks, goal_of, task_of, is_kind,
  is_cancelled, is_closed, is_blocked, is_overdue, is_unplanned, is_unassigned, is_mine, has_reason,
  reasons_of, select_goals, select_risks, select_my_active_tasks,
}
use ai_erp.Overview.Selection.Counts.{
  flags_first, Asks, sort_by-flags_first, count, held, count-sort_by, count-take-le,
  flags_first-take, take-flags_first, length-count, count-map-select, count-select, count-same,
}

-- What is shown of the items that qualify: as many as there are and the cap allows, among them as many
-- blocked ones as there are and the cap allows, these first, and, of those with a property `q`, no more
-- than there are.
abbrev pub IsFair :
    (PlanItem → Bool)
    → (PlanItem → Bool)
    → (PlanItem → Bool)
    → ℕ
    → List PlanItem
    → List Shown
    → Type 0
IsFair q qualifies blocks cap items shown =
    (length shown ≡ min cap (count qualifies items))
    × (count (λ s. s.is_held) shown ≡ min cap (count (λ i. qualifies i && blocks i) items))
    × (flags_first shown ≡ true)
    × (count (λ s. q s.row) shown ≤ count (λ i. qualifies i && q i) items)

sort_by-IsFair :
    (order : Shown → Shown → Ordering) (f : PlanItem → Shown) (q qualifies blocks : PlanItem → Bool)
    (cap : ℕ) (items : List PlanItem) (ss : List Shown)
    → Asks order
    → ((r : Shown → Bool) → count r ss ≡ count (λ i. qualifies i && r (f i)) items)
    → ((i : PlanItem) → (qualifies i && true) ≡ qualifies i)
    → ((i : PlanItem) → (f i).is_held ≡ blocks i)
    → ((i : PlanItem) → (f i).row ≡ i)
    → IsFair q qualifies blocks cap items (take cap (sort_by order ss))
sort_by-IsFair order f q qualifies blocks cap items ss asks counts unit flag row =
    let all = length-count ss ∙ counts (λ s. true) ∙ count-same _ qualifies items unit in
    let blocked_ones =
      counts held
      ∙ count-same _ (λ i. qualifies i && blocks i) items
          (λ i. ap (λ b. qualifies i && b) (flag i)) in
    let those =
      counts (λ s. q s.row)
      ∙ count-same _ (λ i. qualifies i && q i) items (λ i. ap (λ j. qualifies i && q j) (row i)) in
    (
      length-take cap (sort_by order ss)
          ∙ ap (min cap) (
              length-count (sort_by order ss)
              ∙ count-sort_by order (λ s. true) ss
              ∙ sym (length-count ss)
              ∙ all),
      flags_first-take cap (sort_by order ss) (sort_by-flags_first order asks ss)
          ∙ ap (min cap) (count-sort_by order held ss ∙ blocked_ones),
      take-flags_first cap (sort_by order ss) (sort_by-flags_first order asks ss),
      subst (λ n. count (λ s. q s.row) (take cap (sort_by order ss)) ≤ n)
          (count-sort_by order (λ s. q s.row) ss ∙ those)
          (count-take-le (λ s. q s.row) cap (sort_by order ss)),
    )

-- An epic that is not cancelled.
abbrev pub is_goal : PlanItem → Bool
is_goal i = elim i.kind [ epic ↦ elim i.state [ cancelled ↦ false | _ ↦ true ] | _ ↦ false ]

-- A task that is neither done nor cancelled.
abbrev pub is_open_task : PlanItem → Bool
is_open_task i = elim i.kind [
  | task ↦ elim i.state [ done ↦ false | cancelled ↦ false | _ ↦ true ]
  | _ ↦ false
]

-- An open task that is blocked, overdue, without its dates or without an assignee.
abbrev pub is_risk : String → PlanItem → Bool
is_risk as_of i =
    is_open_task i && (is_blocked i || is_overdue i as_of || is_unplanned i || is_unassigned i)

-- An open task of a user.
abbrev pub is_task_of : String → PlanItem → Bool
is_task_of user i = is_open_task i && elim i.assignee_id [ none ↦ false | some a ↦ str_eq a user ]

module _ (collate : String → String → Ordering) (fuel : ℕ) where
  Asks-compare_goals : Asks (compare_goals collate fuel)
  unfolding compare_goals
  Asks-compare_goals a b later h = ground arith

  Asks-compare_risks : Asks (compare_risks collate fuel)
  unfolding compare_risks
  Asks-compare_risks a b later h = ground arith

  Asks-compare_tasks : Asks (compare_tasks collate fuel)
  unfolding compare_tasks
  Asks-compare_tasks a b later h = ground arith

  goals-counts :
      (p : PlanSnapshot) (r : Shown → Bool) (is : List PlanItem)
      → count r (
          map
            (goal_of collate fuel p)
            (select (λ i. is_kind i.kind epic && not (is_cancelled i.state)) is))
        ≡ count (λ i. is_goal i && r (goal_of collate fuel p i)) is
  goals-counts p r is =
      count-map-select r _ (goal_of collate fuel p) is
      ∙ count-same
          (λ i. (is_kind i.kind epic && not (is_cancelled i.state)) && r (goal_of collate fuel p i))
          (λ i. is_goal i && r (goal_of collate fuel p i)) is (λ i. ground arith)

  risks-counts :
      (p : PlanSnapshot) (r : Shown → Bool) (is : List PlanItem)
      → count r (
          select
            (λ s. has_reason collate fuel (reasons_of collate fuel s))
            (map
              (task_of collate fuel p)
              (select (λ i. is_kind i.kind task && not (is_closed i.state)) is)))
        ≡ count (λ i. is_risk p.as_of_date i && r (task_of collate fuel p i)) is
  unfolding reasons_of
  risks-counts p r is =
      count-select r _ _
      ∙ count-map-select (λ t. has_reason collate fuel (reasons_of collate fuel t) && r t) _
          (task_of collate fuel p) is
      ∙ count-same
          (λ i.
            (is_kind i.kind task && not (is_closed i.state))
            && (has_reason collate fuel (reasons_of collate fuel (task_of collate fuel p i))
                && r (task_of collate fuel p i)))
          (λ i. is_risk p.as_of_date i && r (task_of collate fuel p i)) is (λ i. ground arith)

  tasks-counts :
      (p : PlanSnapshot) (user : String) (r : Shown → Bool) (is : List PlanItem)
      → count r (
          map (task_of collate fuel p) (
            select
              (λ i. is_kind i.kind task && is_mine collate fuel user i && not (is_closed i.state))
              is))
        ≡ count (λ i. is_task_of user i && r (task_of collate fuel p i)) is
  tasks-counts p user r is =
      count-map-select r _ (task_of collate fuel p) is
      ∙ count-same
          (λ i.
            (is_kind i.kind task && is_mine collate fuel user i && not (is_closed i.state))
            && r (task_of collate fuel p i))
          (λ i. is_task_of user i && r (task_of collate fuel p i)) is (λ i. ground arith)

  -- Whatever the order of texts: of a plan's goals (epics not cancelled), risks (open tasks that are
  -- blocked, overdue, without dates or without an assignee) and open tasks of a user, as many are shown
  -- as there are, up to the cap; of those that are blocked, as many as there are, up to the cap, and before
  -- the others, so that none is left out while another that is not blocked is shown; and none that is not in the plan, or
  -- more often than there.
  pub select-IsFair :
      (p : PlanSnapshot) (user : String) (cap : ℕ) (q : PlanItem → Bool)
      → (IsFair q is_goal
          (λ i. ltb 0 i.summary.blocked_count)
          cap
          p.items
          (select_goals collate fuel p cap))
        × (IsFair q (is_risk p.as_of_date) is_blocked cap p.items (select_risks collate fuel p cap))
        × (IsFair q
            (is_task_of user)
            is_blocked
            cap
            p.items
            (select_my_active_tasks collate fuel p user cap))
  select-IsFair p user cap q = (
    sort_by-IsFair _ (goal_of collate fuel p) q is_goal _ cap p.items _ Asks-compare_goals
        (λ r. goals-counts p r p.items) (λ i. ground arith) (λ i. refl) (λ i. refl),
    sort_by-IsFair _ (task_of collate fuel p) q (is_risk p.as_of_date) is_blocked cap p.items _
        Asks-compare_risks (λ r. risks-counts p r p.items) (λ i. ground arith) (λ i. refl)
        (λ i. refl),
    sort_by-IsFair _ (task_of collate fuel p) q (is_task_of user) is_blocked cap p.items _
        Asks-compare_tasks (λ r. tasks-counts p user r p.items) (λ i. ground arith) (λ i. refl)
        (λ i. refl),
  )

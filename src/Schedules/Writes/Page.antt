-- ===== src/Schedules/Writes/Page.antt =====
-- frontend/src/screens/Schedules.tsx: the dialog of times and the gestures, and every event of the page.
use ai_erp.Base.{ℕ, Bool, not, ◌||◌, Option, none, some, List, [], ◌∷◌, if◌then◌else◌, is_some}
use ai_erp.Session.{SessionEvent, happen}
use ai_erp.State.Denials.{Outcome}
use ai_erp.State.Events.{StoreEvent, apply_event}
use ai_erp.ScheduleTime.{CalendarSchedule, ScheduleTimeChange}
use ai_erp.Schedules.Writes.{
  Rules, Token, drag, dialog, same_token, is_gesture, is_dialog, RangeRead, CalendarPage, has_id,
  drop_overtaken, editable, is_locked, release,
}
use ai_erp.Schedules.Writes.Saving.{save_change, end_write}
use ai_erp.Schedules.Writes.Restoring.{retry_recovery, end_recovery}

module _ {R : Type 0} (rules : Rules R) where
  unfoldable pub open_edit : CalendarSchedule → CalendarPage R → CalendarPage R
  unfolding has_id
  open_edit s d =
      if not (editable rules.can_edit_as d.role s) || is_locked s.id d
      then d
      else record d { active = some (dialog s.id); dialog_schedule = some s; feedback = none }

  -- `change` is what the fields of the dialog give, `none` where they are no times, and `is_valid` the
  -- test of the change.
  unfoldable pub submit_dialog :
      (ScheduleTimeChange → Bool) → Option ScheduleTimeChange → ℕ → CalendarPage R → CalendarPage R
  unfolding save_change
  submit_dialog is_valid none now d = d
  submit_dialog is_valid (some change) now d = elim d.dialog_schedule [
    | none ↦ d
    | some s ↦
        if is_valid change
        then save_change rules s change d.active now (record d { dialog_schedule = none })
        else d
  ]

  -- `confirmed` is the answer of the guard of unsaved changes.
  unfoldable pub close_dialog : Bool → CalendarPage R → CalendarPage R
  close_dialog confirmed d =
      if confirmed
      then (let e = if is_dialog d.active then record d { active = none } else d in
          record e { dialog_schedule = none })
      else d

  -- The effect when the period, the zone or a filter changes.
  unfoldable pub change_context : CalendarPage R → CalendarPage R
  change_context d =
      let e = if is_gesture d.active then record d { active = none } else d in
      record e { dialog_schedule = none }

  -- A gesture takes the token if nothing holds it, and gives it back.
  unfoldable pub begin_drag : CalendarSchedule → ℕ → CalendarPage R → CalendarPage R
  begin_drag s pointer d =
      if is_some d.active then d else record d { active = some (drag s.id pointer) }

  unfoldable pub end_drag : CalendarSchedule → ℕ → CalendarPage R → CalendarPage R
  unfolding same_token
  end_drag s pointer d = release (some (drag s.id pointer)) d

  -- A gesture that ends with other times.
  unfoldable pub drop :
      CalendarSchedule → ScheduleTimeChange → ℕ → ℕ → CalendarPage R → CalendarPage R
  unfolding save_change end_drag
  drop s change pointer now d =
      end_drag s pointer (save_change rules s change (some (drag s.id pointer)) now d)

-- What the user does, what the server answers, what the page around it does, and the session.
pub data PageEvent (R : Type 0) : Type 0 where
  saves : CalendarSchedule → ScheduleTimeChange → Option Token → ℕ → PageEvent R
  ends_write :
      ℕ
      → Outcome CalendarSchedule
      → Outcome CalendarSchedule
      → Outcome (Option R)
      → Outcome RangeRead
      → List StoreEvent
      → PageEvent R
  retries changes_context : PageEvent R
  ends_recovery :
      ℕ
      → Outcome CalendarSchedule
      → Outcome (Option R)
      → Outcome RangeRead
      → List StoreEvent
      → PageEvent R
  opens : CalendarSchedule → PageEvent R
  submits : Option ScheduleTimeChange → ℕ → PageEvent R
  closes : Bool → PageEvent R
  begins_drag ends_drag : CalendarSchedule → ℕ → PageEvent R
  drops : CalendarSchedule → ScheduleTimeChange → ℕ → ℕ → PageEvent R
  reads_rows : List CalendarSchedule → PageEvent R
  reads_role : Option R → PageEvent R
  blocks : Bool → PageEvent R
  in_session : SessionEvent → PageEvent R
  in_store : StoreEvent → PageEvent R

module _ {R : Type 0} (rules : Rules R) (is_valid : ScheduleTimeChange → Bool) where
  unfoldable pub step : PageEvent R → CalendarPage R → CalendarPage R
  unfolding save_change end_write retry_recovery end_recovery open_edit submit_dialog close_dialog
      change_context begin_drag end_drag drop drop_overtaken
  step (saves s change owner now) d = save_change rules s change owner now d
  step (ends_write n written latest role target during) d =
      end_write rules n written latest role target during d
  step retries d = retry_recovery rules d
  step changes_context d = change_context rules d
  step (ends_recovery n latest role target during) d =
      end_recovery rules n latest role target during d
  step (opens s) d = open_edit rules s d
  step (submits change now) d = submit_dialog rules is_valid change now d
  step (closes confirmed) d = close_dialog rules confirmed d
  step (begins_drag s pointer) d = begin_drag rules s pointer d
  step (ends_drag s pointer) d = end_drag rules s pointer d
  step (drops s change pointer now) d = drop rules s change pointer now d
  step (reads_rows rows) d = record d { overrides = drop_overtaken rows d.overrides }
  step (reads_role role) d = record d { role = role }
  step (blocks b) d = record d { blocked = b }
  step (in_session e) d = record d { session = happen e d.session }
  step (in_store e) d = record d { store = apply_event e d.store }

  unfoldable pub run_page : List (PageEvent R) → CalendarPage R → CalendarPage R
  unfolding step
  run_page [] d = d
  run_page (e ∷ es) d = run_page es (step e d)

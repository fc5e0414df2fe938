-- ===== src/Schedules/Writes/Restoring.antt =====
-- frontend/src/screens/Schedules.tsx: `recover` and `retryRecovery`, which find out what became of a
-- write.
use ai_erp.Base.{
  ℕ, suc, Bool, false, ◌&&◌, Option, none, some, List, [], ◌∷◌, ◌++◌, if◌then◌else◌, get_elem?,
  is_some,
}
use ai_erp.Base.Dict.{put}
use ai_erp.Base.Lists.{remove_at}
use ai_erp.Session.{is_session_context_active, capture_session}
use ai_erp.State.Denials.{Outcome, value, clear_access_denial}
use ai_erp.State.Events.{StoreEvent}
use ai_erp.ScheduleTime.{CalendarSchedule, ScheduleTimeChange, is_committed}
use ai_erp.Schedules.Writes.{
  Rules, RangeRead, range_read, Feedback, target_denied, state_unknown, reflected, checked,
  no_edit_role, Recovering, CalendarPage, has_id, add_id, delete_id, is_id, role_outcome,
  is_refused,
}
use ai_erp.Schedules.Writes.Saving.{reads}

module _ {R : Type 0} (rules : Rules R) where
  -- `retryRecovery`, whose button is disabled while a recovery waits, and `recover` up to its reads.
  unfoldable pub retry_recovery : CalendarPage R → CalendarPage R
  unfolding has_id capture_session
  retry_recovery d = elim d.recovery_schedule [
    | none ↦ d
    | some s ↦ if is_some d.recovering_id then d else record d {
      locked_ids = add_id s.id d.locked_ids;
      recovering_id = some s.id;
      recoveries =
          d.recoveries
          ++ record {
            schedule = s;
            context = capture_session d.session;
            intent = d.recovery_intent;
          }
            ∷ [];
    }
  ]

  abbrev pub matches_intent : Option ScheduleTimeChange → CalendarSchedule → Bool
  matches_intent none latest = false
  matches_intent (some intent) latest = is_committed rules.date_parse latest intent

  abbrev pub recovered_feedback : Option ScheduleTimeChange → CalendarSchedule → Bool → Feedback
  recovered_feedback intent latest may_edit =
      if may_edit
      then (if matches_intent intent latest then reflected else checked)
      else no_edit_role

  -- The three reads of `recover` are settled.
  unfoldable pub on_recovered :
      Recovering
      → Outcome CalendarSchedule
      → Outcome R
      → Outcome RangeRead
      → CalendarPage R
      → CalendarPage R
  unfolding put delete_id clear_access_denial
  on_recovered r (value latest) (value role) (value range_read) d =
      let e = record d {
        overrides = put r.schedule.id latest d.overrides;
        feedback = some (recovered_feedback r.intent latest (rules.can_edit_as role latest));
      } in
      if rules.can_edit_as role latest
      then record e {
        locked_ids = delete_id r.schedule.id e.locked_ids;
        store = clear_access_denial (rules.key r.schedule.id) e.store;
        recovery_schedule = none;
      }
      else e
  on_recovered r latest role target d = record d { feedback = some state_unknown }

  unfoldable pub target_or_recovered :
      Recovering
      → Outcome CalendarSchedule
      → Outcome R
      → Outcome RangeRead
      → CalendarPage R
      → CalendarPage R
  unfolding on_recovered delete_id
  target_or_recovered r latest role target d =
      if rules.in_workspace && is_refused target
      then record d {
        denied_calls = suc d.denied_calls;
        locked_ids = delete_id r.schedule.id d.locked_ids;
        recovery_schedule = none;
        recovery_intent = none;
        feedback = some target_denied;
      }
      else on_recovered r latest role target d

  unfoldable pub end_recovery :
      ℕ
      → Outcome CalendarSchedule
      → Outcome (Option R)
      → Outcome RangeRead
      → List StoreEvent
      → CalendarPage R
      → CalendarPage R
  unfolding reads target_or_recovered is_session_context_active remove_at
  end_recovery n latest role target during d = elim (get_elem? d.recoveries n) [
    | none ↦ d
    | some r ↦
        let e =
          reads rules r.schedule latest role during
            (record d { recoveries = remove_at n d.recoveries }) in
        if is_session_context_active (some r.context) e.session
        then (let f = target_or_recovered r latest (role_outcome role) target e in
            if is_id f.recovering_id r.schedule.id then record f { recovering_id = none } else f)
        else e
  ]

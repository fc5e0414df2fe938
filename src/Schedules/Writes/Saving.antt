-- ===== src/Schedules/Writes/Saving.antt =====
-- frontend/src/screens/Schedules.tsx: `saveChange`, from its guards to the end of its refresh.
use ai_erp.Base.{
  ℕ, suc, not, ◌&&◌, Option, none, some, List, [], ◌∷◌, ◌++◌, if◌then◌else◌, get_elem?,
}
use ai_erp.Base.Dict.{put, remove}
use ai_erp.Base.Lists.{remove_at}
use ai_erp.Session.{is_session_context_active, capture_session}
use ai_erp.State.Denials.{
  Failure, Outcome, is_access_error, record_access_denial, clear_access_denial, begin_access_read,
  access_read_settled,
}
use ai_erp.State.Events.{StoreEvent, run as run_store}
use ai_erp.ScheduleTime.{
  CalendarSchedule, ScheduleTimeChange, ScheduleTimeMutationResult, saved, rejected, recovered,
  locked, execute_schedule_time_mutation,
}
use ai_erp.Schedules.Writes.{
  Rules, Token, write, same_token, RangeRead, saving, saved_times, target_denied, result_unknown,
  refused, role_missing, not_committed, committed, After, after_saved, after_recovered, Write,
  CalendarPage, has_id, add_id, delete_id, role_outcome, read_role, asks_server, is_denied,
  may_save, release, is_same_time,
}

abbrev pub new_write : CalendarSchedule → ScheduleTimeChange → ℕ → ℕ → Write
new_write s change now context = record {
  schedule = s;
  change = change;
  context = context;
  token = write s.id now;
  after = none;
}

module _ {R : Type 0} (rules : Rules R) where
  -- `saveChange` up to its request; `now` is the time.
  unfoldable pub save_change :
      CalendarSchedule → ScheduleTimeChange → Option Token → ℕ → CalendarPage R → CalendarPage R
  unfolding has_id same_token capture_session
  save_change s change owner now d =
      if not (may_save rules.can_edit_as s owner d)
      then d
      else if is_same_time rules.date_parse s change
      then release owner d
      else record d {
        active = some (write s.id now);
        pending_id = some s.id;
        feedback = some saving;
        sent = d.sent ++ (s.id, change) ∷ [];
        writes = d.writes ++ new_write s change now (capture_session d.session) ∷ [];
      }

  -- `finally`
  unfoldable pub finish : Write → CalendarPage R → CalendarPage R
  unfolding is_session_context_active same_token
  finish w d =
      let e =
        if is_session_context_active (some w.context) d.session
        then record d { pending_id = none }
        else d in
      release (some w.token) e

  -- The role and the schedule that the reads after a lost answer leave.
  unfoldable pub reads :
      CalendarSchedule
      → Outcome CalendarSchedule
      → Outcome (Option R)
      → List StoreEvent
      → CalendarPage R
      → CalendarPage R
  unfolding access_read_settled begin_access_read run_store
  reads s latest role during d = record d {
    store =
        access_read_settled (rules.key s.id) (begin_access_read (rules.key s.id) d.store) latest
          (run_store during d.store);
    role = read_role role d.role;
  }

  -- The branches that are done when the result is there.
  unfoldable pub on_rejected : Write → Failure → CalendarPage R → CalendarPage R
  unfolding record_access_denial has_id
  on_rejected w e d =
      let f = record d { feedback = some (refused e) } in
      if not (is_access_error e)
      then record f { recovery_schedule = some w.schedule; recovery_intent = none }
      else (let g = record f { store = record_access_denial (rules.key w.schedule.id) f.store } in
          if rules.in_workspace then record g { denied_calls = suc g.denied_calls } else record g {
            recovery_schedule = some w.schedule;
            recovery_intent = none;
            locked_ids = add_id w.schedule.id g.locked_ids;
          })

  unfoldable pub on_locked : Write → Option Failure → CalendarPage R → CalendarPage R
  unfolding has_id
  on_locked w target d =
      if rules.in_workspace && is_denied target
      then record d {
        denied_calls = suc d.denied_calls;
        recovery_schedule = none;
        recovery_intent = none;
        feedback = some target_denied;
      }
      else record d {
        recovery_schedule = some w.schedule;
        recovery_intent = some w.change;
        locked_ids = add_id w.schedule.id d.locked_ids;
        feedback = some result_unknown;
      }

  -- The row is shown at once, and the write waits for `refreshSchedule`.
  unfoldable pub refreshing : Write → CalendarSchedule → After → CalendarPage R → CalendarPage R
  unfolding put
  refreshing w latest after d = record d {
    overrides = put w.schedule.id latest d.overrides;
    writes = d.writes ++ record w { after = some after } ∷ [];
  }

  unfoldable pub on_result : Write → ScheduleTimeMutationResult → CalendarPage R → CalendarPage R
  unfolding on_rejected on_locked refreshing finish
  on_result w (saved latest) d = refreshing w latest after_saved d
  on_result w (rejected e) d = finish w (on_rejected w e d)
  on_result w (locked e target) d = finish w (on_locked w target d)
  on_result w (recovered latest is_written may_edit cause) d =
      refreshing w latest (after_recovered is_written may_edit cause) d

  -- The request of a write is answered, and so are the reads where they are made.
  unfoldable pub answered :
      Write
      → Outcome CalendarSchedule
      → Outcome CalendarSchedule
      → Outcome (Option R)
      → Outcome RangeRead
      → List StoreEvent
      → CalendarPage R
      → CalendarPage R
  unfolding reads on_result finish is_session_context_active
  answered w written latest role target during d =
      let e = if asks_server written then reads w.schedule latest role during d else d in
      if is_session_context_active (some w.context) e.session
      then on_result w
          (execute_schedule_time_mutation rules.date_parse rules.can_edit_as w.change written latest
            (role_outcome role) target)
          e
      else finish w e

  -- The end of a write when its refresh is over.
  unfoldable pub on_refreshed : Write → After → CalendarPage R → CalendarPage R
  unfolding is_session_context_active remove has_id delete_id clear_access_denial
  on_refreshed w after_saved d =
      if is_session_context_active (some w.context) d.session
      then record d { overrides = remove w.schedule.id d.overrides; feedback = some saved_times }
      else d
  on_refreshed w (after_recovered is_written may_edit cause) d =
      if may_edit
      then record d {
        locked_ids = delete_id w.schedule.id d.locked_ids;
        recovery_schedule = none;
        recovery_intent = none;
        store = clear_access_denial (rules.key w.schedule.id) d.store;
        feedback = some (if is_written then committed else not_committed cause);
      }
      else record d {
        recovery_schedule = some w.schedule;
        recovery_intent = some w.change;
        locked_ids = add_id w.schedule.id d.locked_ids;
        feedback = some (role_missing cause);
      }

  -- A write that waits goes on: with its answer, or with the end of its refresh.
  unfoldable pub end_write :
      ℕ
      → Outcome CalendarSchedule
      → Outcome CalendarSchedule
      → Outcome (Option R)
      → Outcome RangeRead
      → List StoreEvent
      → CalendarPage R
      → CalendarPage R
  unfolding answered on_refreshed finish remove_at
  end_write n written latest role target during d = elim (get_elem? d.writes n) [
    | none ↦ d
    | some w ↦
        let e = record d { writes = remove_at n d.writes } in
        elim w.after [
          | none ↦ answered w written latest role target during e
          | some after ↦ finish w (on_refreshed w after e)
        ]
  ]

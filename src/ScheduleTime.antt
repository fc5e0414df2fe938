-- ===== src/ScheduleTime.antt =====
-- frontend/src/schedule-time-mutation.ts: writing new times of a schedule, and finding out what became
-- of a write whose answer was lost. The four promises are their outcomes; `Date.parse` and
-- `localDateTimeToUtc` are parameters, `none` for a text that is no date.
pub mod Recovery
mod Tests
use ai_erp.Base.{
  ℕ, String, Bool, true, false, not, ◌&&◌, ◌||◌, Option, none, some, leb, ltb, ◌==◌, if◌then◌else◌,
  str_eq, is_value,
}
use ai_erp.State.Denials.{Failure, api_error, other_error, Outcome, value, failed}

pub record CalendarSchedule : Type 0 where
  pub id : String
  pub title : String
  pub starts_at : String
  pub ends_at : String
  pub row_version : ℕ
  pub created_by : String

pub record ScheduleTimeChange : Type 0 where
  pub starts_at : String
  pub ends_at : String

-- `edited === original ? kept : localDateTimeToUtc(edited, zone)`
kept_or : (String → String → Option String) → String → String → String → String → Option String
kept_or to_utc edited original kept zone =
    if str_eq edited original then some kept else to_utc edited zone

join_times : Option String → Option String → Option ScheduleTimeChange
join_times (some s) (some e) = some (record { starts_at = s; ends_at = e })
join_times _ _ = none

-- `none` is the exception of `localDateTimeToUtc`.
pub preserve_schedule_time_instants :
    (String → String → Option String)
    → CalendarSchedule
    → String
    → String
    → String
    → String
    → String
    → Option ScheduleTimeChange
unfolding kept_or join_times
preserve_schedule_time_instants to_utc schedule start end original_start original_end zone =
    join_times (kept_or to_utc start original_start schedule.starts_at zone)
      (kept_or to_utc end original_end schedule.ends_at zone)

pub data Cause : Type 0 where
  conflict uncertain : Cause

pub data ScheduleTimeMutationResult : Type 0 where
  saved : CalendarSchedule → ScheduleTimeMutationResult
  rejected : Failure → ScheduleTimeMutationResult
  recovered : CalendarSchedule → Bool → Bool → Cause → ScheduleTimeMutationResult
  locked : Failure → Option Failure → ScheduleTimeMutationResult

-- A refusal that proves that nothing was written.
abbrev pub is_definitive : Failure → Bool
is_definitive (api_error status) = leb 400 status && ltb status 500 && not (status == 409)
is_definitive other_error = false

abbrev pub cause_of : Failure → Cause
cause_of (api_error status) = if status == 409 then conflict else uncertain
cause_of other_error = uncertain

-- `Date.parse(a) === Date.parse(b)`, false where either is no date
abbrev pub same_instant : (String → Option ℕ) → String → String → Bool
same_instant date_parse a b = same (date_parse a) (date_parse b)
  where
    same : Option ℕ → Option ℕ → Bool
    same a none = false
    same a (some m) = is_value a m

abbrev pub is_committed : (String → Option ℕ) → CalendarSchedule → ScheduleTimeChange → Bool
is_committed date_parse latest change =
    same_instant date_parse latest.starts_at change.starts_at
    && same_instant date_parse latest.ends_at change.ends_at

abbrev target_error : {T : Type 0} → Outcome T → Option Failure
target_error (value t) = none
target_error (failed e) = some e

-- What the latest schedule, the role and the refreshed target decide after a write that failed.
unfoldable recover :
    {R T : Type 0} (date_parse : String → Option ℕ) (can_edit : R → CalendarSchedule → Bool)
    → ScheduleTimeChange
    → Failure
    → Outcome CalendarSchedule
    → Outcome R
    → Outcome T
    → ScheduleTimeMutationResult
recover date_parse can_edit change error (value latest) (value role) (value target) =
    recovered latest (is_committed date_parse latest change) (can_edit role latest) (cause_of error)
recover date_parse can_edit change error (failed e) role target = locked e (target_error target)
recover date_parse can_edit change error (value latest) (failed e) target =
    locked e (target_error target)
recover date_parse can_edit change error (value latest) (value role) (failed e) = locked e (some e)

unfoldable pub execute_schedule_time_mutation :
    {R T : Type 0} (date_parse : String → Option ℕ) (can_edit : R → CalendarSchedule → Bool)
    → ScheduleTimeChange
    → Outcome CalendarSchedule
    → Outcome CalendarSchedule
    → Outcome R
    → Outcome T
    → ScheduleTimeMutationResult
unfolding recover
execute_schedule_time_mutation date_parse can_edit change (value written) latest role target =
    saved written
execute_schedule_time_mutation date_parse can_edit change (failed error) latest role target =
    if is_definitive error
    then rejected error
    else recover date_parse can_edit change error latest role target

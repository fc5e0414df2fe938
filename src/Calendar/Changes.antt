-- ===== src/Calendar/Changes.antt =====
-- frontend/src/screens/calendar-direct-manipulation.ts: the times that a move or a resize gives. Instants
-- are milliseconds, civil days are numbers, local times are minutes from the first of them, and a text
-- of a day and a minute is that local time.
pub mod Moves
mod Tests
use ai_erp.Base.{
  ℕ, ◌+◌, ◌-◌, ◌*◌, ◌/◌, ◌%◌, String, Bool, true, false, not, ◌&&◌, Option, none, some, ◌==◌, ltb,
  leb, if◌then◌else◌,
}
use ai_erp.Time.Resolve.{
  Resolved, instant, malformed, unknown_zone, no_such_time, ambiguous, local_date_time_to_utc,
}
use ai_erp.Calendar.Snap.{snap_quarter_minute}

pub record Times : Type 0 where
  pub starts_at : ℕ
  pub ends_at : ℕ

pub data CalendarChange : Type 0 where
  move start end : CalendarChange

-- A day and a minute of it, in sixtieths of a minute.
pub record LocalPoint : Type 0 where
  pub day : ℕ
  pub minute : ℕ

-- What an edit sends of a schedule.
pub record Body : Type 0 where
  pub title : String
  pub description : Option String
  pub times : Times
  pub row_version : ℕ

abbrev pub minute_ms : ℕ
minute_ms = 60000

abbrev pub add_sub : ℕ → Resolved → Option ℕ
add_sub sub (instant t) = some (t * minute_ms + sub)
add_sub sub _ = none

abbrev pub both : Option ℕ → Option ℕ → Option Times
both (some s) (some e) = some (record { starts_at = s; ends_at = e })
both _ _ = none

abbrev pub with_start : Times → Option ℕ → Option Times
with_start times none = none
with_start times (some s) = some (record times { starts_at = s })

abbrev pub with_end : Times → Option ℕ → Option Times
with_end times none = none
with_end times (some e) = some (record times { ends_at = e })

-- `local_of` is the local minute that the zone shows at a minute; `none` is an exception.
module _ (local_of : ℕ → ℕ) where
  -- `localSubminute`: the local time, and the seconds and milliseconds together.
  abbrev pub to_local : ℕ → ℕ
  to_local i = local_of (i / minute_ms)

  abbrev pub sub_minute : ℕ → ℕ
  sub_minute i = i % minute_ms

  unfoldable pub local_to_utc : ℕ → ℕ → Option ℕ
  unfolding local_date_time_to_utc
  local_to_utc local sub = add_sub sub (local_date_time_to_utc local_of true (some local))

  -- The differences of days and of minutes are given by their ends. A day is added before the minutes
  -- are subtracted, and taken off after the division.
  unfoldable pub shifted_local : ℕ → ℕ → ℕ → ℕ → ℕ → Option ℕ
  unfolding local_to_utc
  shifted_local i from_day to_day from_minute to_minute =
      let local = to_local i in
      let total = local % 1440 + 1440 + to_minute - from_minute in
      let day = local / 1440 + to_day + total / 1440 - from_day - 1 in
      local_to_utc (day * 1440 + total % 1440) (sub_minute i)

  -- The day of the last millisecond.
  abbrev pub end_day : Times → ℕ
  end_day times = to_local (times.ends_at - 1) / 1440

  -- The end is the midnight behind the last day.
  abbrev pub end_is_boundary : Times → Bool
  end_is_boundary times =
      not (to_local times.ends_at / 1440 == end_day times) && to_local times.ends_at % 1440 == 0

  unfoldable pub apply_month_change : Times → ℕ → ℕ → CalendarChange → Option Times
  unfolding shifted_local local_to_utc
  apply_month_change times day drop_day move =
      both (shifted_local times.starts_at day drop_day 0 0)
        (shifted_local times.ends_at day drop_day 0 0)
  apply_month_change times day drop_day start = with_start times (
      local_to_utc (drop_day * 1440 + to_local times.starts_at % 1440) (sub_minute times.starts_at))
  apply_month_change times day drop_day end = with_end times (
      if end_is_boundary times
      then local_to_utc ((drop_day + 1) * 1440) 0
      else local_to_utc (drop_day * 1440 + to_local times.ends_at % 1440)
          (sub_minute times.ends_at))

  unfoldable pub apply_week_move : Times → LocalPoint → LocalPoint → Option Times
  unfolding shifted_local snap_quarter_minute
  apply_week_move times origin point =
      let from = snap_quarter_minute origin.minute in
      let to = snap_quarter_minute point.minute in
      both (shifted_local times.starts_at origin.day point.day from to)
        (shifted_local times.ends_at origin.day point.day from to)

  -- A change that is no move.
  unfoldable pub apply_week_resize : Times → LocalPoint → Bool → Option Times
  unfolding local_to_utc snap_quarter_minute
  apply_week_resize times point at_start =
      let minute = snap_quarter_minute point.minute in
      let local = if minute == 1440 then (point.day + 1) * 1440 else point.day * 1440 + minute in
      if at_start
      then with_start times (local_to_utc local 0)
      else with_end times (local_to_utc local 0)

unfoldable pub is_valid_change : Times → ℕ → Bool
is_valid_change times minimum_minutes =
    ltb times.starts_at times.ends_at
    && leb (times.starts_at + minimum_minutes * minute_ms) times.ends_at

-- `schedule.description ?? null`
abbrev pub edit_body : String → Option String → ℕ → Times → Body
edit_body title description row_version times = record {
  title = title;
  description = description;
  times = times;
  row_version = row_version;
}

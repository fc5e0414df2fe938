-- ===== src/Calendar/Lanes.antt =====
-- `layoutWeekDay` and `weekLaneLayout`: the events of a day, sorted and put into lanes side by side.
-- Times of the day are in milliseconds, and days are numbers in their order.
pub mod Apart
pub mod Minimal
pub mod Sorting
use Prim.Native.Nat.{compare, Ordering}
use ai_erp.Base.{
  ℕ, zero, suc, ◌-◌, String, Bool, true, false, not, ◌||◌, List, [], ◌∷◌, ◌++◌, ltb, leb, min, max,
  if◌then◌else◌, length,
}
use ai_erp.Base.Text.{codes}

pub record Event : Type 0 where
  pub id : String
  pub title : String
  pub starts_at : ℕ
  pub ends_at : ℕ

pub record DayLayout : Type 0 where
  pub schedule : Event
  pub start : ℕ
  pub finish : ℕ
  pub lane : ℕ

-- A time zone: the civil day of an instant, and its time of day.
pub record Zone : Type 0 where
  pub day_of : ℕ → ℕ
  pub time_of : ℕ → ℕ

abbrev pub day_ms : ℕ
day_ms = 86400000

pub record Span : Type 0 where
  pub start_day : ℕ
  pub end_day : ℕ

unfoldable pub event_span : Zone → Event → Span
event_span z e = record { start_day = z.day_of e.starts_at; end_day = z.day_of (e.ends_at - 1) }

pub record Position : Type 0 where
  pub start : ℕ
  pub finish : ℕ
  pub duration : ℕ

-- `eventDayMinute`; minutes, seconds and milliseconds together are the time of day.
unfoldable pub event_day_minute : Zone → Event → ℕ → Position
event_day_minute z e day =
    let start = if ltb (z.day_of e.starts_at) day then 0 else z.time_of e.starts_at in
    let finish = if ltb day (z.day_of e.ends_at) then day_ms else z.time_of e.ends_at in
    record { start = min day_ms start; finish = min day_ms finish; duration = finish - start }

-- The later comparison decides where the earlier one does not.
abbrev pub then_by : Ordering → Ordering → Ordering
then_by Ordering.eq later = later
then_by Ordering.lt later = Ordering.lt
then_by Ordering.gt later = Ordering.gt

unfoldable pub code_point_compare : List ℕ → List ℕ → Ordering
code_point_compare [] [] = Ordering.eq
code_point_compare [] (b ∷ bs) = Ordering.lt
code_point_compare (a ∷ as') [] = Ordering.gt
code_point_compare (a ∷ as') (b ∷ bs) = then_by (compare a b) (code_point_compare as' bs)

unfoldable pub compare_layout : DayLayout → DayLayout → Ordering
compare_layout a b = then_by (compare a.start b.start) (
    then_by (compare a.finish b.finish) (
      then_by (code_point_compare (codes a.schedule.title) (codes b.schedule.title))
        (code_point_compare (codes a.schedule.id) (codes b.schedule.id))))

abbrev pub is_after : Ordering → Bool
is_after Ordering.gt = true
is_after _ = false

-- The stable sort of the language, by the comparison above.
unfoldable pub insert_layout : DayLayout → List DayLayout → List DayLayout
unfolding compare_layout
insert_layout a [] = a ∷ []
insert_layout a (b ∷ bs) =
    if is_after (compare_layout a b) then b ∷ insert_layout a bs else a ∷ b ∷ bs

unfoldable pub sort_layouts : List DayLayout → List DayLayout
unfolding insert_layout
sort_layouts [] = []
sort_layouts (a ∷ as') = insert_layout a (sort_layouts as')

unfoldable pub occurrences_of : Zone → ℕ → List Event → List DayLayout
unfolding event_span event_day_minute
occurrences_of z day [] = []
occurrences_of z day (e ∷ es) =
    let span = event_span z e in
    let position = event_day_minute z e day in
    let here : DayLayout = record {
      schedule = e;
      start = position.start;
      finish = position.finish;
      lane = 0;
    } in
    if ltb day span.start_day || ltb span.end_day day
    then occurrences_of z day es
    else here ∷ occurrences_of z day es

-- `laneEnds.findIndex(end => end <= occurrence.start)`, or the number of lanes.
unfoldable pub lane_for : ℕ → List ℕ → ℕ
lane_for start [] = 0
lane_for start (e ∷ es) = if leb e start then 0 else suc (lane_for start es)

-- `laneEnds[lane] = end`, for a lane that exists or is the next one.
unfoldable pub set_lane : List ℕ → ℕ → ℕ → List ℕ
set_lane [] n v = v ∷ []
set_lane (e ∷ es) zero v = v ∷ es
set_lane (e ∷ es) (suc n) v = e ∷ set_lane es n v

unfoldable pub assign_lanes : List ℕ → List DayLayout → List DayLayout × List ℕ
assign_lanes ends [] = ([], ends)
assign_lanes ends (o ∷ os) =
    let lane = lane_for o.start ends in
    let (rest, final) = assign_lanes (set_lane ends lane o.finish) os in
    (record o { lane = lane } ∷ rest, final)

pub record WeekDay : Type 0 where
  pub occurrences : List DayLayout
  pub day_lane_count : ℕ

unfoldable pub layout_week_day : Zone → ℕ → List Event → WeekDay
layout_week_day z day rows =
    let (placed, ends) = assign_lanes [] (sort_layouts (occurrences_of z day rows)) in
    record { occurrences = placed; day_lane_count = length ends }

-- `Math.max(1, ...byDay.map(item => item.dayLaneCount))`
unfoldable pub global_lane_count : Zone → List ℕ → List Event → ℕ
global_lane_count z [] rows = 1
global_lane_count z (day ∷ days) rows =
    max (layout_week_day z day rows).day_lane_count (global_lane_count z days rows)

-- ===== src/Calendar/Tests.antt =====
-- Runs of the calendar, and its theorems at concrete inputs.
use ai_erp.Base.{ℕ, ◌/◌, ◌%◌, ◌*◌, ◌+◌, ◌≤◌, ◌<◌, ◌≡◌, refl, ◌⊎◌, List, [], ◌∷◌, map, arith, All}
use ai_erp.Calendar.Snap.{snap_quarter_minute}
use ai_erp.Calendar.Lanes.{
  Event, Zone, day_ms, occurrences_of, layout_week_day, sort_layouts, assign_lanes,
  code_point_compare, lane_for, set_lane,
}
use ai_erp.Calendar.Lanes.Apart.{NoClash, layout_week_day-NoClash}
use ai_erp.Calendar.Lanes.Sorting.{count_cover}
use ai_erp.Calendar.Lanes.Minimal.{day_lane_count-count_cover}

snaps : (snap_quarter_minute (7 * 60 + 29) ≡ 0) × (snap_quarter_minute (7 * 60 + 30) ≡ 15)
unfolding snap_quarter_minute
snaps = (refl, refl)

abbrev utc : Zone
utc = record { day_of = λ t. t / day_ms; time_of = λ t. t % day_ms }

abbrev busy_day : List Event
busy_day =
    record { id = "b"; title = "y"; starts_at = 200; ends_at = 400 }
    ∷ record { id = "a"; title = "x"; starts_at = 100; ends_at = 300 }
    ∷ record { id = "c"; title = "z"; starts_at = 300; ends_at = 500 }
    ∷ []

lanes : map (λ o. o.lane) (layout_week_day utc 0 busy_day).occurrences ≡ 0 ∷ 1 ∷ 0 ∷ []
unfolding layout_week_day assign_lanes sort_layouts occurrences_of lane_for set_lane
    code_point_compare
lanes = refl

layout_week_day-NoClash_example :
    NoClash (layout_week_day utc 0 busy_day).occurrences
    × All
        (λ p. p.lane < (layout_week_day utc 0 busy_day).day_lane_count)
        (layout_week_day utc 0 busy_day).occurrences
unfolding occurrences_of
layout_week_day-NoClash_example = layout_week_day-NoClash utc 0 busy_day (omega arith)

day_lane_count-count_cover_example :
    ((t : ℕ)
      → count_cover t (occurrences_of utc 0 busy_day)
        ≤ (layout_week_day utc 0 busy_day).day_lane_count)
    × (((layout_week_day utc 0 busy_day).day_lane_count ≡ 0)
        ⊎ ((t : ℕ) × ((layout_week_day utc 0 busy_day).day_lane_count
              ≡ count_cover t (occurrences_of utc 0 busy_day))))
unfolding occurrences_of
day_lane_count-count_cover_example = day_lane_count-count_cover utc 0 busy_day (omega arith)

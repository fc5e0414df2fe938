-- ===== src/Calendar/Changes/Tests.antt =====
-- A meeting in Seoul that is moved and resized.
use ai_erp.Base.{ℕ, ◌+◌, ◌-◌, ◌*◌, ◌≡◌, refl, arith, false, some}
use ai_erp.Calendar.Snap.{snap_quarter_minute}
use ai_erp.Calendar.Changes.{
  Times, LocalPoint, end, apply_month_change, apply_week_move, apply_week_resize,
}
use ai_erp.Calendar.Changes.Moves.{IsShifted, apply_week_move-IsShifted}

abbrev seoul_minute : ℕ → ℕ
seoul_minute t = t + 540

-- From 9:00:05 to 10:00 of the day 100.
abbrev meeting : Times
meeting = record { starts_at = 100 * 86400000 + 5000; ends_at = 100 * 86400000 + 3600000 }

-- From 9:10 to 8:55 of the next day, in sixtieths.
abbrev from_point : LocalPoint
from_point = record { day = 100; minute = 550 * 60 }

abbrev to_point : LocalPoint
to_point = record { day = 101; minute = 535 * 60 }

abbrev moved : Times
moved = record { starts_at = 101 * 86400000 + 5000 - 900000; ends_at = 101 * 86400000 + 2700000 }

moves : apply_week_move seoul_minute meeting from_point to_point ≡ some moved
unfolding apply_week_move
moves = refl

months :
    apply_month_change seoul_minute meeting 100 102 end
    ≡ some (record meeting { ends_at = 102 * 86400000 + 3600000 })
unfolding apply_month_change
months = refl

apply_week_move-IsShifted_example :
    IsShifted seoul_minute meeting.starts_at moved.starts_at 100 101
      (snap_quarter_minute from_point.minute)
      (snap_quarter_minute to_point.minute)
    × IsShifted seoul_minute meeting.ends_at moved.ends_at 100 101
        (snap_quarter_minute from_point.minute)
        (snap_quarter_minute to_point.minute)
apply_week_move-IsShifted_example =
    apply_week_move-IsShifted seoul_minute meeting moved from_point to_point (omega arith)
      (omega arith) moves

abbrev resized : Times
resized = record meeting { ends_at = 101 * 86400000 }

resizes : apply_week_resize seoul_minute meeting to_point false ≡ some resized
unfolding apply_week_resize
resizes = refl

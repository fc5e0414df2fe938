-- ===== src/Calendar/Snap.antt =====
-- `snapQuarterMinute`: a pointer's minute of the day, to the nearest quarter of an hour. The minute is
-- given in sixtieths, since a pointer stands between minutes; a minute before the day is 0.
use ai_erp.Base.{ℕ, ◌+◌, ◌*◌, ◌/◌, ◌%◌, ◌≤◌, ◌≡◌, arith, min}

-- `Math.max(0, Math.min(1440, minute))`, in sixtieths of a minute
abbrev clamp_day : ℕ → ℕ
clamp_day sixtieths = min (1440 * 60) sixtieths

-- `Math.floor(clamped / 15 + 0.5)`, over the common denominator 1800
unfoldable pub snap_quarter_minute : ℕ → ℕ
snap_quarter_minute sixtieths = min 1440 ((clamp_day sixtieths * 2 + 900) / 1800 * 15)

-- The result is a quarter of the day, at most 7.5 minutes from a pointer within the day (halves go
-- up), and a pointer on a quarter stays there.
pub snap_quarter_minute_near :
    (sixtieths : ℕ)
    → sixtieths ≤ 86400
    → (snap_quarter_minute sixtieths % 15 ≡ 0)
      × (snap_quarter_minute sixtieths ≤ 1440)
      × (snap_quarter_minute sixtieths * 60 ≤ sixtieths + 450)
      × (sixtieths ≤ snap_quarter_minute sixtieths * 60 + 449)
      × (snap_quarter_minute (snap_quarter_minute sixtieths * 60) ≡ snap_quarter_minute sixtieths)
unfolding snap_quarter_minute
snap_quarter_minute_near x h = (omega arith, omega arith, omega arith, omega arith, omega arith)

-- A later pointer is never snapped to an earlier quarter.
snap_quarter_minute_mono : (a b : ℕ) → a ≤ b → snap_quarter_minute a ≤ snap_quarter_minute b
unfolding snap_quarter_minute
snap_quarter_minute_mono a b h = omega arith

-- ===== src/Time.antt =====
-- frontend/src/time.ts: `civilDateBoundary` finds the first instant of a civil date by bisection.
-- Instants are milliseconds, and dates are numbers of days, both from the epoch of the clock.
pub mod Boundary
pub mod Resolve
pub mod Views
mod Tests
use ai_erp.Base.{
  ℕ, zero, suc, ◌+◌, ◌-◌, ◌*◌, ◌/◌, Bool, true, false, not, Option, none, some, ltb, ◌==◌,
  if◌then◌else◌,
}

abbrev pub day_ms : ℕ
day_ms = 86400000

-- Enough for four days, since 345600000 ≤ 2 ^ 29.
abbrev pub bisection_fuel : ℕ
bisection_fuel = 29

-- What the function returns or throws; `unfinished` where the fuel did not suffice.
pub data Found : Type 0 where
  first_at : ℕ → Found
  invalid_date invalid_zone missing_date unfinished : Found

-- `localDate`: the date of an instant in a zone.
module _ (date_of : ℕ → ℕ) (date : ℕ) where
  -- The two ends after one step.
  unfoldable pub narrow : ℕ → ℕ → ℕ × ℕ
  narrow lower upper =
      let middle = (lower + upper) / 2 in
      if ltb (date_of middle) date then (middle, upper) else (lower, middle)

  -- The loop, which leaves `upper`.
  unfoldable pub bisect : ℕ → ℕ → ℕ → Option ℕ
  unfolding narrow
  bisect zero lower upper = if ltb 1 (upper - lower) then none else some upper
  bisect (suc fuel) lower upper =
      let (l, u) = narrow lower upper in
      let rest = bisect fuel l u in if ltb 1 (upper - lower) then rest else some upper

  abbrev pub boundary_at : Option ℕ → Found
  boundary_at none = unfinished
  boundary_at (some upper) = if date_of upper == date then first_at upper else missing_date

  -- From a date whose text is valid, in a zone that is valid; the two days before it are on the clock.
  unfoldable pub civil_date_boundary : Bool → Bool → Found
  unfolding bisect
  civil_date_boundary valid_date valid_zone =
      if not valid_date
      then invalid_date
      else if not valid_zone
      then invalid_zone
      else boundary_at
          (bisect bisection_fuel (date * day_ms - 2 * day_ms) (date * day_ms + 2 * day_ms))

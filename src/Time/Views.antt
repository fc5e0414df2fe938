-- ===== src/Time/Views.antt =====
-- `viewWindow`: the days that the calendar shows around a date, and the instants that bound them.
use ai_erp.Base.{
  ℕ, zero, suc, ◌+◌, ◌-◌, ◌%◌, ◌≤◌, ◌<◌, ◌≡◌, Bool, true, ◌&&◌, List, [], ◌∷◌, arith, ◌==◌, leb,
  ltb, Bool-cases, inl, inr,
}
use ai_erp.Time.{Found, civil_date_boundary}
use ai_erp.Time.Resolve.{elem}

pub data View : Type 0 where
  month week : View

pub record ViewWindow : Type 0 where
  pub from : Found
  pub to : Found
  pub days : List ℕ

-- `getUTCDay`: the first day of the clock is a Thursday.
abbrev pub weekday : ℕ → ℕ
weekday date = (date + 4) % 7

-- `Array.from({ length }, (_, i) => shiftDate(start, i))`
unfoldable pub days_from : ℕ → ℕ → List ℕ
days_from start zero = []
days_from start (suc n) = start ∷ days_from (suc start) n

abbrev pub shown_days : View → ℕ
shown_days month = 42
shown_days week = 7

-- `first_of` is the first day of the month of a date, the date of the text `YYYY-MM-01`.
module _ (first_of : ℕ → ℕ) where
  abbrev pub initial : View → ℕ → ℕ
  initial month date = first_of date
  initial week date = date

  abbrev pub start_of : View → ℕ → ℕ
  start_of view date = let day = initial view date in day - (weekday day + 6) % 7

  -- `date_of` is the date of an instant in the zone.
  unfoldable pub view_window : (ℕ → ℕ) → Bool → View → ℕ → ViewWindow
  unfolding civil_date_boundary days_from
  view_window date_of valid_zone view date =
      let start = start_of view date in
      record {
        from = civil_date_boundary date_of start true valid_zone;
        to = civil_date_boundary date_of (start + shown_days view) true valid_zone;
        days = days_from start (shown_days view);
      }

elem-days_from : (d start n : ℕ) → elem d (days_from start n) ≡ (leb start d && ltb d (start + n))
unfolding days_from
elem-days_from d start zero = ground arith
elem-days_from d start (suc n) = elim (Bool-cases (start == d)) [
  | inl same ↦
      let here : start ≡ d = ground arith in rw here (ground (arith, elem-days_from d (suc d) n))
  | inr other ↦ ground (arith, elem-days_from d (suc start) n)
]

start_of-monday :
    (day : ℕ)
    → 6 ≤ day
    → (weekday (day - (weekday day + 6) % 7) ≡ 1) × (day ≤ day - (weekday day + 6) % 7 + 6)
start_of-monday day late = (omega arith, omega arith)

elem-shown : (d start n : ℕ) → start ≤ d → d < start + n → elem d (days_from start n) ≡ true
elem-shown d start n low high = ground (arith, elem-days_from d start n)

-- Behind the first six days of the clock, for months of at most 31 days that begin no later than their
-- dates: the days that are shown begin with a Monday; the week that is shown has the date; and the month
-- that is shown has all its 31 days, the date among them.
pub view_window-covers :
    (first_of date_of : ℕ → ℕ) (valid_zone : Bool) (date day : ℕ)
    → 6 ≤ first_of date
    → first_of date ≤ date
    → date < first_of date + 31
    → first_of date ≤ day
    → day < first_of date + 31
    → (weekday (start_of first_of week date) ≡ 1)
      × (weekday (start_of first_of month date) ≡ 1)
      × (elem date (view_window first_of date_of valid_zone week date).days ≡ true)
      × (elem date (view_window first_of date_of valid_zone month date).days ≡ true)
      × (elem day (view_window first_of date_of valid_zone month date).days ≡ true)
unfolding view_window
view_window-covers first_of date_of valid_zone date day late before within low high =
    let (monday, near) = start_of-monday date (omega arith) in
    let (first_monday, first_near) = start_of-monday (first_of date) late in
    (
      monday,
      first_monday,
      elem-shown date (start_of first_of week date) 7 (omega arith) (omega (arith, near)),
      elem-shown date (start_of first_of month date) 42 (omega arith) (omega (arith, first_near)),
      elem-shown day (start_of first_of month date) 42 (omega arith) (omega (arith, first_near)),
    )

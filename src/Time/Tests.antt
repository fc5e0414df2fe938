-- ===== src/Time/Tests.antt =====
-- A zone nine hours ahead of the meridian.
use ai_erp.Base.{
  ℕ, ◌+◌, ◌/◌, ◌≤◌, ◌<◌, ◌≡◌, ◌==◌, ◌⊎◌, inl, inr, Bool-cases, refl, arith, true, some, ltb,
  if◌then◌else◌,
}
use ai_erp.Time.{day_ms, first_at, missing_date, narrow, bisect, civil_date_boundary}
use ai_erp.Time.Resolve.{local_date_time_to_utc, verdict, instant, ambiguous, elem}
use ai_erp.Time.Resolve.Reference.{search, local_date_time_to_utc-search}
use ai_erp.Time.Views.{month, week, weekday, start_of, view_window, view_window-covers}
use ai_erp.Time.Boundary.{civil_date_boundary_first}

abbrev seoul : ℕ → ℕ
seoul t = (t + 32400000) / day_ms

seoul_day : civil_date_boundary seoul 20000 true true ≡ first_at 1727967600000
unfolding civil_date_boundary bisect narrow
seoul_day = refl

civil_date_boundary_first_example :
    ((u : ℕ) × (civil_date_boundary seoul 20000 true true ≡ first_at u)
      × (seoul u ≡ 20000)
      × ((t : ℕ) → (u ≤ t) ⊎ (seoul t < 20000)))
    ⊎ ((civil_date_boundary seoul 20000 true true ≡ missing_date)
        × ((t : ℕ) → (seoul t < 20000) ⊎ (20000 < seoul t)))
civil_date_boundary_first_example =
    civil_date_boundary_first seoul 20000 (λ s t h. omega arith) (λ t. (omega arith, omega arith))
      (omega arith)

-- Nine hours ahead, and a zone that goes back an hour at an instant, all in minutes.
abbrev seoul_minute : ℕ → ℕ
seoul_minute t = t + 540

abbrev going_back : ℕ → ℕ
going_back t = if ltb t 10000 then t + 120 else t + 60

resolved : local_date_time_to_utc seoul_minute true (some 20000) ≡ instant 19460
unfolding local_date_time_to_utc
resolved = refl

resolved_twice : local_date_time_to_utc going_back true (some 10100) ≡ ambiguous
unfolding local_date_time_to_utc
resolved_twice = refl

-- Each of its two offsets holds for six hours and more.
going_back_steady :
    (t : ℕ)
    → (from : ℕ) × (from ≤ t)
      × (t ≤ from + 360)
      × ((s : ℕ) → from ≤ s → s ≤ from + 360 → going_back s + t ≡ going_back t + s)
going_back_steady t = elim (Bool-cases (ltb t 10000)) [
  | inl early ↦ elim (Bool-cases (ltb t 9639)) [
    | inl long_before ↦ (t, omega arith, omega arith, λ s l u. ground arith)
    | inr close ↦ (9639, ground arith, ground arith, λ s l u. ground arith)
  ]
  | inr late ↦ (t, omega arith, omega arith, λ s l u. ground arith)
]

local_date_time_to_utc-search_example :
    local_date_time_to_utc going_back true (some 10100)
    ≡ verdict (search (λ t. going_back t == 10100) 7940 4321)
local_date_time_to_utc-search_example =
    local_date_time_to_utc-search going_back 10100 (λ s. (ground arith, ground arith))
      going_back_steady (omega arith)

-- A month of 31 days that begins on the day 20000.
abbrev first_day : ℕ → ℕ
first_day date = 20000

view_window-covers_example :
    (weekday (start_of first_day week 20012) ≡ 1)
    × (weekday (start_of first_day month 20012) ≡ 1)
    × (elem 20012 (view_window first_day seoul true week 20012).days ≡ true)
    × (elem 20012 (view_window first_day seoul true month 20012).days ≡ true)
    × (elem 20030 (view_window first_day seoul true month 20012).days ≡ true)
view_window-covers_example =
    view_window-covers first_day seoul true 20012 20030 (omega arith) (omega arith) (omega arith)
      (omega arith) (omega arith)

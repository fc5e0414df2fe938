-- ===== src/Time/Boundary.antt =====
-- The bisection ends with the first instant of the date.
use ai_erp.Base.{
  ℕ, zero, suc, ◌+◌, ◌-◌, ◌*◌, ◌/◌, ◌≤◌, ◌<◌, ◌≡◌, refl, true, false, some, arith, ltb, ◌==◌,
  Bool-cases, inl, inr, ◌⊎◌,
}
use ai_erp.Time.{
  day_ms, first_at, missing_date, narrow, bisect, bisection_fuel, civil_date_boundary,
}

-- The gap that some fuel closes.
reach : ℕ → ℕ
reach zero = 1
reach (suc fuel) = 2 * reach fuel

module _ (date_of : ℕ → ℕ) (date : ℕ) where
  -- The date is reached after the lower end, and at the upper end at the latest.
  abbrev Spans : ℕ → ℕ → Type 0
  Spans lower upper = (lower < upper) × (date_of lower < date) × (date ≤ date_of upper)

  -- The instant is the first at which the date is reached.
  abbrev Reached : ℕ → Type 0
  Reached r = (0 < r) × (date_of (r - 1) < date) × (date ≤ date_of r)

  narrow-Spans :
      (lower upper n : ℕ)
      → Spans lower upper
      → 1 < upper - lower
      → upper - lower ≤ 2 * n
      → Spans (narrow date_of date lower upper).0 (narrow date_of date lower upper).1
        × ((narrow date_of date lower upper).1 - (narrow date_of date lower upper).0 ≤ n)
  unfolding narrow
  narrow-Spans lower upper n (order, below, above) wide gap =
      elim (Bool-cases (ltb (date_of ((lower + upper) / 2)) date)) [
        | inl low ↦ rw (low, narrow) ((omega arith, ground arith, above), omega arith)
        | inr high ↦ rw (high, narrow) ((omega arith, below, ground arith), omega arith)
      ]

  closed : (lower upper : ℕ) → Spans lower upper → upper - lower ≤ 1 → Reached upper
  closed lower upper (order, below, above) h =
      let e : upper - 1 ≡ lower = omega arith in (omega arith, rw e below, above)

  bisect-Reached :
      (fuel lower upper : ℕ)
      → Spans lower upper
      → upper - lower ≤ reach fuel
      → (r : ℕ) × (bisect date_of date fuel lower upper ≡ some r) × Reached r
  unfolding bisect reach
  bisect-Reached zero lower upper spans gap =
      let stop : ltb 1 (upper - lower) ≡ false = ground arith in
      (upper, rw (stop, bisect) refl, closed lower upper spans gap)
  bisect-Reached (suc fuel) lower upper spans gap = elim (Bool-cases (ltb 1 (upper - lower))) [
    | inl wide ↦
        let (inner, short) = narrow-Spans lower upper (reach fuel) spans (ground arith) gap in
        let (r, ends, at) =
          bisect-Reached fuel (narrow date_of date lower upper).0
            (narrow date_of date lower upper).1 inner short in
        (r, rw (wide, bisect) ends, at)
    | inr stop ↦ (upper, rw (stop, bisect) refl, closed lower upper spans (ground arith))
  ]

-- Four days of milliseconds are closed by the fuel.
wide_enough :
    (date : ℕ) → date * day_ms + 2 * day_ms - (date * day_ms - 2 * day_ms) ≤ reach bisection_fuel
unfolding reach
wide_enough date = omega arith

before_or_from : (t r : ℕ) → (t < r) ⊎ (r ≤ t)
before_or_from t r = elim (Bool-cases (ltb t r)) [
  | inl h ↦ inl (ground arith)
  | inr h ↦ inr (ground arith)
]

met_or_past :
    (date d : ℕ)
    → date ≤ d
    → (((d == date) ≡ true) × (d ≡ date)) ⊎ (((d == date) ≡ false) × (date < d))
met_or_past date d h = elim (Bool-cases (d == date)) [
  | inl e ↦ inl (e, ground arith)
  | inr e ↦ inr (e, ground arith)
]

-- For a zone in which dates do not fall and differ from the date at the meridian by one day at most:
-- of a valid date, from the third day of the clock on, either the first instant is found, or the date
-- is reported as missing and no instant has it. The loop never runs out of fuel.
pub civil_date_boundary_first :
    (date_of : ℕ → ℕ) (date : ℕ)
    → ((s t : ℕ) → s ≤ t → date_of s ≤ date_of t)
    → ((t : ℕ) → (date_of t ≤ t / day_ms + 1) × (t / day_ms ≤ date_of t + 1))
    → 2 ≤ date
    → ((u : ℕ) × (civil_date_boundary date_of date true true ≡ first_at u)
        × (date_of u ≡ date)
        × ((t : ℕ) → (u ≤ t) ⊎ (date_of t < date)))
      ⊎ ((civil_date_boundary date_of date true true ≡ missing_date)
          × ((t : ℕ) → (date_of t < date) ⊎ (date < date_of t)))
unfolding civil_date_boundary
civil_date_boundary_first date_of date rises near late =
    let lower = date * day_ms - 2 * day_ms in
    let upper = date * day_ms + 2 * day_ms in
    let start : Spans date_of date lower upper =
      (omega arith, omega (arith, near lower), omega (arith, near upper)) in
    let (r, ends, (positive, before, reached)) =
      bisect-Reached date_of date bisection_fuel lower upper start (wide_enough date) in
    elim (met_or_past date (date_of r) reached) [
      | inl (here, same) ↦ inl (
        r,
        rw (ends, here) refl,
        same,
        λ t. elim (before_or_from t r) [
          | inl earlier ↦
              let below : date_of t ≤ date_of (r - 1) = rises t (r - 1) (omega arith) in
              inr (omega arith)
          | inr later ↦ inl later
        ],
      )
      | inr (gone, beyond) ↦ inr (
        rw (ends, gone) refl,
        λ t. elim (before_or_from t r) [
          | inl earlier ↦
              let below : date_of t ≤ date_of (r - 1) = rises t (r - 1) (omega arith) in
              inl (omega arith)
          | inr later ↦ let above : date_of r ≤ date_of t = rises r t later in inr (omega arith)
        ],
      )
    ]

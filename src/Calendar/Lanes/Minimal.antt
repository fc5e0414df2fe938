-- ===== src/Calendar/Lanes/Minimal.antt =====
-- A day has no more lanes than it needs: as many as events that cover one time.
use ai_erp.Base.{
  ℕ, suc, ◌+◌, ◌≤◌, ◌<◌, ◌≡◌, refl, ◌⊎◌, inl, inr, List, [], ◌∷◌, arith, leb, ltb, if◌then◌else◌,
  length, All, Bool-cases, ◌∙◌,
}
use native.Mathlib.Nat.{le_trans}
use ai_erp.Calendar.Lanes.Apart.{assign_lanes-le, length-set_lane, lane_for-le}
use ai_erp.Calendar.Lanes.{
  DayLayout, lane_for, set_lane, assign_lanes, Zone, Event, layout_week_day, sort_layouts,
  occurrences_of,
}
use ai_erp.Calendar.Lanes.Sorting.{
  FromStart, count_cover, count_cover-before, sort_layouts-FromStart, sort_layouts-All,
  sort_layouts-count_cover,
}

-- An event that lasts.
abbrev pub IsLasting : DayLayout → Type 0
IsLasting o = o.start < o.finish

-- How many lanes are taken beyond the time `t`.
abbrev busy : ℕ → List ℕ → ℕ
busy t [] = 0
busy t (e ∷ es) = (if ltb t e then 1 else 0) + busy t es

busy-le : (t : ℕ) (ends : List ℕ) → busy t ends ≤ length ends
busy-le t [] = omega arith
busy-le t (e ∷ es) = ground (arith, busy-le t es)

-- The lane that is taken was free, so one lane more is busy, if the event goes on beyond `t`.
busy-set_lane :
    (t s v : ℕ) (ends : List ℕ)
    → s ≤ t
    → busy t (set_lane ends (lane_for s ends) v) ≡ busy t ends + (if ltb t v then 1 else 0)
unfolding lane_for set_lane
busy-set_lane t s v [] h = ground arith
busy-set_lane t s v (e ∷ es) h = ground (arith, busy-set_lane t s v es h)

-- A lane is opened only where every lane is busy.
opens :
    (t v : ℕ) (ends : List ℕ)
    → (length (set_lane ends (lane_for t ends) v) ≡ length ends)
      ⊎ ((length (set_lane ends (lane_for t ends) v) ≡ suc (length ends))
          × (busy t ends ≡ length ends))
unfolding lane_for set_lane
opens t v [] = inr (refl, refl)
opens t v (e ∷ es) = ground (arith, opens t v es)

-- The lanes in use after all events, if it is more than those at the start, are needed at one time.
lanes_needed :
    (ends : List ℕ) (seen os : List DayLayout) (lo : ℕ)
    → ((t : ℕ) → lo ≤ t → busy t ends ≤ count_cover t seen)
    → FromStart lo os
    → All IsLasting os
    → (length (assign_lanes ends os).1 ≡ length ends)
      ⊎ ((t : ℕ) × (length (assign_lanes ends os).1 ≤ count_cover t seen + count_cover t os))
unfolding assign_lanes count_cover
lanes_needed ends seen [] lo inv sorted lasting = inl refl
lanes_needed ends seen (o ∷ os) lo inv (p, sorted) (q, lasting) = conclude (
    lanes_needed (set_lane ends (lane_for o.start ends) o.finish) (o ∷ seen) os o.start
      (λ t h. ground (arith, busy-set_lane t o.start o.finish ends h, inv t (le_trans p h))) sorted
      lasting)
  where
    final : ℕ
    final = length (assign_lanes (set_lane ends (lane_for o.start ends) o.finish) os).1

    conclude :
        (final ≡ length (set_lane ends (lane_for o.start ends) o.finish))
          ⊎ ((t : ℕ) × (final ≤ count_cover t (o ∷ seen) + count_cover t os))
        → (final ≡ length ends) ⊎ ((t : ℕ) × (final ≤ count_cover t seen + count_cover t (o ∷ os)))
    conclude (inr (t, h)) = inr (t, omega (arith, h))
    conclude (inl h) = elim (opens o.start o.finish ends) [
      | inl same ↦ inl (h ∙ same)
      | inr (grown, full) ↦ inr (o.start, ground (arith, h, grown, full, inv o.start p, q))
    ]

-- At every time there is a lane for each event that covers it.
covers_fit :
    (t : ℕ) (ends : List ℕ) (os : List DayLayout) (lo : ℕ)
    → FromStart lo os
    → count_cover t os + busy t ends ≤ length (assign_lanes ends os).1
unfolding assign_lanes count_cover
covers_fit t ends [] lo sorted = omega (arith, busy-le t ends)
covers_fit t ends (o ∷ os) lo (p, sorted) = elim (Bool-cases (leb o.start t)) [
  | inl begun ↦ ground (
    arith,
    begun,
    busy-set_lane t o.start o.finish ends,
    covers_fit t (set_lane ends (lane_for o.start ends) o.finish) os o.start sorted,
  )
  | inr later ↦ ground (
    arith,
    later,
    count_cover-before t o.start os sorted,
    busy-le t ends,
    length-set_lane ends (lane_for o.start ends) o.finish (lane_for-le o.start ends),
    assign_lanes-le (set_lane ends (lane_for o.start ends) o.finish) os,
  )
]

-- The lane count of a day is the largest number of its events that cover one time: no time has more,
-- and with any event at all some time has as many. So no layout without overlap has fewer lanes.
pub day_lane_count-count_cover :
    (z : Zone) (day : ℕ) (rows : List Event)
    → All IsLasting (occurrences_of z day rows)
    → ((t : ℕ)
        → count_cover t (occurrences_of z day rows) ≤ (layout_week_day z day rows).day_lane_count)
      × (((layout_week_day z day rows).day_lane_count ≡ 0)
          ⊎ ((t : ℕ) × ((layout_week_day z day rows).day_lane_count
                ≡ count_cover t (occurrences_of z day rows))))
unfolding layout_week_day count_cover
day_lane_count-count_cover z day rows h = (
  fits,
  elim (lanes_needed [] [] os 0 (λ t _. omega arith) sorted (sort_layouts-All IsLasting _ h)) [
    | inl e ↦ inl e
    | inr (t, le) ↦ inr (t, omega (arith, le, fits t, sort_layouts-count_cover t occs))
  ],
)
  where
    occs : List DayLayout
    occs = occurrences_of z day rows

    os : List DayLayout
    os = sort_layouts occs

    sorted : FromStart 0 os
    sorted = sort_layouts-FromStart occs

    fits : (t : ℕ) → count_cover t occs ≤ length (assign_lanes [] os).1
    fits t = omega (arith, covers_fit t [] os 0 sorted, sort_layouts-count_cover t occs)

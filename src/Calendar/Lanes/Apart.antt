-- ===== src/Calendar/Lanes/Apart.antt =====
-- Events in one lane do not overlap, and lanes are numbered without a gap.
use ai_erp.Base.{
  ℕ, zero, suc, ◌≤◌, ◌<◌, ◌≡◌, refl, ◌≢◌, Bool, true, not, ◌||◌, some, List, [], ◌∷◌, arith, leb,
  ◌==◌, length, get_elem?, All, ap, inl, inr, Bool-cases,
}
use ai_erp.Calendar.Lanes.Sorting.{sort_layouts-All}
use native.Mathlib.Decide.{ℕ_discrete}
use ai_erp.Calendar.Lanes.{
  DayLayout, lane_for, set_lane, assign_lanes, Zone, Event, layout_week_day, sort_layouts,
  occurrences_of,
}

-- An event that ends no earlier than it starts.
abbrev pub IsProper : DayLayout → Type 0
IsProper o = o.start ≤ o.finish

-- The later one is in another lane, or starts when the earlier one has ended.
abbrev pub is_apart : DayLayout → DayLayout → Bool
is_apart o p = not (p.lane == o.lane) || leb o.finish p.start

abbrev pub NoClash : List DayLayout → Type 0
NoClash [] = Unit
NoClash (o ∷ os) = All (λ p. is_apart o p ≡ true) os × NoClash os

pub lane_for-le : (s : ℕ) (ends : List ℕ) → lane_for s ends ≤ length ends
unfolding lane_for
lane_for-le s [] = omega arith
lane_for-le s (e ∷ es) = ground (arith, lane_for-le s es)

lane_for-free : (s : ℕ) (ends : List ℕ) (v : ℕ) → get_elem? ends (lane_for s ends) ≡ some v → v ≤ s
unfolding lane_for
lane_for-free s [] v h = cc
lane_for-free s (e ∷ es) v h = elim (Bool-cases (leb e s)) [
  | inl free ↦ ground (arith)
  | inr busy ↦ lane_for-free s es v (rw busy at h)
]

get_elem?-set_lane :
    (ends : List ℕ) (k v : ℕ) → k ≤ length ends → get_elem? (set_lane ends k v) k ≡ some v
unfolding set_lane
get_elem?-set_lane [] zero v h = refl
get_elem?-set_lane [] (suc k) v h = absurd (omega arith)
get_elem?-set_lane (e ∷ es) zero v h = refl
get_elem?-set_lane (e ∷ es) (suc k) v h = get_elem?-set_lane es k v (omega arith)

get_elem?-set_lane_ne :
    (ends : List ℕ) (k l v w : ℕ)
    → k ≢ l
    → get_elem? ends l ≡ some w
    → get_elem? (set_lane ends k v) l ≡ some w
unfolding set_lane
get_elem?-set_lane_ne [] k l v w n h = cc
get_elem?-set_lane_ne (e ∷ es) zero zero v w n h = absurd (n refl)
get_elem?-set_lane_ne (e ∷ es) zero (suc l) v w n h = h
get_elem?-set_lane_ne (e ∷ es) (suc k) zero v w n h = h
get_elem?-set_lane_ne (e ∷ es) (suc k) (suc l) v w n h =
    get_elem?-set_lane_ne es k l v w (λ q. n (ap suc q)) h

-- Everything in the lane `l` starts no earlier than `v`.
abbrev StartsAfter : ℕ → ℕ → List DayLayout → Type 0
StartsAfter l v [] = Unit
StartsAfter l v (p ∷ ps) = ((not (p.lane == l) || leb v p.start) ≡ true) × StartsAfter l v ps

StartsAfter-le : (l v w : ℕ) (ps : List DayLayout) → v ≤ w → StartsAfter l w ps → StartsAfter l v ps
StartsAfter-le l v w [] h k = tt
StartsAfter-le l v w (p ∷ ps) h (q, k) = (ground arith, StartsAfter-le l v w ps h k)

after_end :
    (ends : List ℕ) (os : List DayLayout) (l v : ℕ)
    → All IsProper os
    → get_elem? ends l ≡ some v
    → StartsAfter l v (assign_lanes ends os).0
unfolding assign_lanes
after_end ends [] l v proper h = tt
after_end ends (o ∷ os) l v (p, proper) h = elim (ℕ_discrete (lane_for o.start ends) l) [
  | yes same ↦
      let free : v ≤ o.start = lane_for-free o.start ends v (rw same h) in
      (
        ground arith,
        StartsAfter-le l v o.finish _ (omega arith) (
            after_end (set_lane ends (lane_for o.start ends) o.finish) os l o.finish proper (
              rw same (
                get_elem?-set_lane ends l o.finish
                  (omega (arith, lane_for-le o.start ends, same))))),
      )
  | no other ↦ (
    ground arith,
    after_end (set_lane ends (lane_for o.start ends) o.finish) os l v proper
        (get_elem?-set_lane_ne ends (lane_for o.start ends) l o.finish v other h),
  )
]

StartsAfter-is_apart :
    (o : DayLayout) (l : ℕ) (ps : List DayLayout)
    → StartsAfter l o.finish ps
    → All (λ p. is_apart (record o { lane = l }) p ≡ true) ps
StartsAfter-is_apart o l [] k = tt
StartsAfter-is_apart o l (p ∷ ps) (q, k) = (q, StartsAfter-is_apart o l ps k)

pub assign_lanes-NoClash :
    (ends : List ℕ) (os : List DayLayout) → All IsProper os → NoClash (assign_lanes ends os).0
unfolding assign_lanes
assign_lanes-NoClash ends [] h = tt
assign_lanes-NoClash ends (o ∷ os) (p, h) =
    let k = lane_for o.start ends in
    (
      StartsAfter-is_apart o k _ (
          after_end (set_lane ends k o.finish) os k o.finish h
            (get_elem?-set_lane ends k o.finish (lane_for-le o.start ends))),
      assign_lanes-NoClash (set_lane ends k o.finish) os h,
    )

pub length-set_lane :
    (ends : List ℕ) (k v : ℕ)
    → k ≤ length ends
    → (length ends ≤ length (set_lane ends k v)) × (k < length (set_lane ends k v))
unfolding set_lane
length-set_lane [] zero v h = omega arith
length-set_lane [] (suc k) v h = absurd (omega arith)
length-set_lane (e ∷ es) zero v h = omega arith
length-set_lane (e ∷ es) (suc k) v h =
    let ih = length-set_lane es k v (omega arith) in omega (arith, ih)

pub assign_lanes-le :
    (ends : List ℕ) (os : List DayLayout) → length ends ≤ length (assign_lanes ends os).1
unfolding assign_lanes
assign_lanes-le ends [] = omega arith
assign_lanes-le ends (o ∷ os) =
    let k = lane_for o.start ends in
    omega (
      arith,
      assign_lanes-le (set_lane ends k o.finish) os,
      length-set_lane ends k o.finish (lane_for-le o.start ends),
    )

assign_lanes-bounded :
    (ends : List ℕ) (os : List DayLayout)
    → All (λ p. p.lane < length (assign_lanes ends os).1) (assign_lanes ends os).0
unfolding assign_lanes
assign_lanes-bounded ends [] = tt
assign_lanes-bounded ends (o ∷ os) =
    let k = lane_for o.start ends in
    (
      omega (
        arith,
        assign_lanes-le (set_lane ends k o.finish) os,
        length-set_lane ends k o.finish (lane_for-le o.start ends),
      ),
      assign_lanes-bounded (set_lane ends k o.finish) os,
    )

-- In the layout of a day, of any two events in one lane the one listed later starts when the other
-- has ended, and every lane number is below the day's lane count, if every event of the day ends no
-- earlier than it starts there.
pub layout_week_day-NoClash :
    (z : Zone) (day : ℕ) (rows : List Event)
    → All IsProper (occurrences_of z day rows)
    → NoClash (layout_week_day z day rows).occurrences
      × All
          (λ p. p.lane < (layout_week_day z day rows).day_lane_count)
          (layout_week_day z day rows).occurrences
unfolding layout_week_day
layout_week_day-NoClash z day rows h =
    let os = sort_layouts (occurrences_of z day rows) in
    (assign_lanes-NoClash [] os (sort_layouts-All IsProper _ h), assign_lanes-bounded [] os)

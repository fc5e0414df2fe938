-- ===== src/Calendar/Changes/Moves.antt =====
-- A move shifts both ends by one local amount, and a resize leaves the other end.
use ai_erp.Base.{
  ℕ, ◌+◌, ◌-◌, ◌*◌, ◌/◌, ◌%◌, ◌≤◌, ◌<◌, ◌≡◌, refl, Bool, true, false, Option, none, some, List, [],
  ◌∷◌, arith, ◌==◌, select, all, if◌then◌else◌, ap, ◌∙◌,
}
use ai_erp.Time.Resolve.{
  Resolved, instant, malformed, unknown_zone, no_such_time, ambiguous, verdict, candidates,
  local_date_time_to_utc,
}
use ai_erp.Calendar.Snap.{snap_quarter_minute}
use ai_erp.Calendar.Changes.{
  Times, LocalPoint, minute_ms, add_sub, both, with_start, with_end, to_local, sub_minute,
  local_to_utc, shifted_local, apply_week_move, apply_week_resize,
}

all-select : (p : ℕ → Bool) (xs : List ℕ) → all p (select p xs) ≡ true
all-select p [] = refl
all-select p (x ∷ xs) = ground (arith, all-select p xs)

verdict-all :
    (p : ℕ → Bool) (xs : List ℕ) (t : ℕ) → all p xs ≡ true → verdict xs ≡ instant t → p t ≡ true
verdict-all p [] t h k = absurd (ground arith)
verdict-all p (x ∷ []) t h k = ground arith
verdict-all p (x ∷ y ∷ xs) t h k = absurd (ground arith)

module _ (local_of : ℕ → ℕ) where
  -- The instant of a local time shows it.
  pub local_date_time_to_utc-shows :
      (local t : ℕ)
      → local_date_time_to_utc local_of true (some local) ≡ instant t
      → local_of t ≡ local
  unfolding local_date_time_to_utc
  local_date_time_to_utc-shows local t h =
      let shows =
        verdict-all (λ i. local_of i == local)
          (select (λ i. local_of i == local) (candidates local_of local)) t
          (all-select (λ i. local_of i == local) (candidates local_of local)) h in
      ground (arith, shows)

  add_sub-some :
      (sub : ℕ) (r : Resolved) (i : ℕ)
      → add_sub sub r ≡ some i
      → (t : ℕ) × (r ≡ instant t) × (i ≡ t * minute_ms + sub)
  add_sub-some sub (instant t) i h = (t, refl, ground arith)
  add_sub-some sub malformed i h = absurd (ground arith)
  add_sub-some sub unknown_zone i h = absurd (ground arith)
  add_sub-some sub no_such_time i h = absurd (ground arith)
  add_sub-some sub ambiguous i h = absurd (ground arith)

  local_to_utc-shows :
      (local sub i : ℕ)
      → sub < minute_ms
      → local_to_utc local_of local sub ≡ some i
      → (to_local local_of i ≡ local) × (sub_minute local_of i ≡ sub)
  unfolding local_to_utc
  local_to_utc-shows local sub i small h =
      let (t, resolved, here) =
        add_sub-some sub (local_date_time_to_utc local_of true (some local)) i h in
      let whole : i / minute_ms ≡ t = omega arith in
      (ap local_of whole ∙ local_date_time_to_utc-shows local t resolved, omega arith)

  -- What a shift promises of one end.
  pub record IsShifted (i j from_day to_day from_minute to_minute : ℕ) : Type 0 where
    pub local_shift :
        to_local local_of j + (from_day * 1440 + from_minute)
        ≡ to_local local_of i + (to_day * 1440 + to_minute)
    pub sub_kept : sub_minute local_of j ≡ sub_minute local_of i

  shifted_local-IsShifted :
      (i j from_day to_day from_minute to_minute : ℕ)
      → from_minute ≤ 1440
      → from_day + 1 ≤ to_local local_of i / 1440 + to_day
      → shifted_local local_of i from_day to_day from_minute to_minute ≡ some j
      → IsShifted i j from_day to_day from_minute to_minute
  unfolding shifted_local
  shifted_local-IsShifted i j from_day to_day from_minute to_minute small early h =
      let local = to_local local_of i in
      let total = local % 1440 + 1440 + to_minute - from_minute in
      let day = local / 1440 + to_day + total / 1440 - from_day - 1 in
      let sub : sub_minute local_of i < minute_ms = omega arith in
      let (shown, kept) =
        local_to_utc-shows (day * 1440 + total % 1440) (sub_minute local_of i) j sub h in
      record { local_shift = omega (arith, shown); sub_kept = kept }

both-some :
    (a b : Option ℕ) (times : Times)
    → both a b ≡ some times
    → (a ≡ some times.starts_at) × (b ≡ some times.ends_at)
both-some none b times h = absurd (ground arith)
both-some (some s) none times h = absurd (ground arith)
both-some (some s) (some e) times h = ground arith

snap-le : (x : ℕ) → snap_quarter_minute x ≤ 1440
unfolding snap_quarter_minute
snap-le x = omega arith

-- A move in the week that is possible shifts the local times of both ends by the same amount, from the
-- point where the gesture began to the one where it ended, both snapped, and keeps the seconds of each,
-- if it does not lead before the days of the clock.
pub apply_week_move-IsShifted :
    (local_of : ℕ → ℕ) (times new : Times) (origin point : LocalPoint)
    → origin.day + 1 ≤ to_local local_of times.starts_at / 1440 + point.day
    → origin.day + 1 ≤ to_local local_of times.ends_at / 1440 + point.day
    → apply_week_move local_of times origin point ≡ some new
    → IsShifted local_of times.starts_at new.starts_at origin.day point.day
        (snap_quarter_minute origin.minute)
        (snap_quarter_minute point.minute)
      × IsShifted local_of times.ends_at new.ends_at origin.day point.day
          (snap_quarter_minute origin.minute)
          (snap_quarter_minute point.minute)
unfolding apply_week_move
apply_week_move-IsShifted local_of times new origin point early_start early_end h =
    let from = snap_quarter_minute origin.minute in
    let to = snap_quarter_minute point.minute in
    let (s, e) =
      both-some (shifted_local local_of times.starts_at origin.day point.day from to)
        (shifted_local local_of times.ends_at origin.day point.day from to) new h in
    (
      shifted_local-IsShifted local_of times.starts_at new.starts_at origin.day point.day from to
          (snap-le origin.minute) early_start s,
      shifted_local-IsShifted local_of times.ends_at new.ends_at origin.day point.day from to
          (snap-le origin.minute) early_end e,
    )

-- The end that a resize changes, and the one that it keeps.
abbrev pub changed_end : Bool → Times → ℕ
changed_end true times = times.starts_at
changed_end false times = times.ends_at

abbrev pub kept_end : Bool → Times → ℕ
kept_end true times = times.ends_at
kept_end false times = times.starts_at

with_start-some :
    (times new : Times) (o : Option ℕ)
    → with_start times o ≡ some new
    → (o ≡ some new.starts_at) × (new.ends_at ≡ times.ends_at)
with_start-some times new none h = absurd (ground arith)
with_start-some times new (some s) h = ground arith

with_end-some :
    (times new : Times) (o : Option ℕ)
    → with_end times o ≡ some new
    → (o ≡ some new.ends_at) × (new.starts_at ≡ times.starts_at)
with_end-some times new none h = absurd (ground arith)
with_end-some times new (some e) h = ground arith

-- The local time of a snapped point, whether or not it is the end of its day.
snapped :
    (day minute : ℕ)
    → (if minute == 1440 then (day + 1) * 1440 else day * 1440 + minute) ≡ day * 1440 + minute
snapped day minute = ground arith

-- A resize in the week that is possible puts the end that it changes on the quarter of an hour nearest
-- to the pointer, without seconds, and keeps the other end.
apply_week_resize-snapped :
    (local_of : ℕ → ℕ) (times new : Times) (point : LocalPoint) (at_start : Bool)
    → apply_week_resize local_of times point at_start ≡ some new
    → (kept_end at_start new ≡ kept_end at_start times)
      × (to_local local_of (changed_end at_start new)
          ≡ point.day * 1440 + snap_quarter_minute point.minute)
      × (sub_minute local_of (changed_end at_start new) ≡ 0)
unfolding apply_week_resize
apply_week_resize-snapped local_of times new point true h =
    let minute = snap_quarter_minute point.minute in
    let local = if minute == 1440 then (point.day + 1) * 1440 else point.day * 1440 + minute in
    let (found, kept) = with_start-some times new (local_to_utc local_of local 0) h in
    let (shown, sub) = local_to_utc-shows local_of local 0 new.starts_at (omega arith) found in
    (kept, shown ∙ snapped point.day minute, sub)
apply_week_resize-snapped local_of times new point false h =
    let minute = snap_quarter_minute point.minute in
    let local = if minute == 1440 then (point.day + 1) * 1440 else point.day * 1440 + minute in
    let (found, kept) = with_end-some times new (local_to_utc local_of local 0) h in
    let (shown, sub) = local_to_utc-shows local_of local 0 new.ends_at (omega arith) found in
    (kept, shown ∙ snapped point.day minute, sub)

-- ===== src/Schedules/Gesture/Drops.antt =====
-- What is shown while an event is dragged is what its drop hands over.
use ai_erp.Base.{
  ℕ, ◌≡◌, refl, true, not, ◌||◌, Option, none, some, List, [], ◌∷◌, ◌++◌, arith, if◌then◌else◌,
  Bool-cases, inl, inr, ap, ◌∙◌, Option-cases, sym,
}
use mathlib.Core.List.{append-nil}
use ai_erp.Calendar.Changes.{Times, CalendarChange, LocalPoint, is_valid_change}
use ai_erp.Schedules.Gesture.{
  CalendarEvent, Pointer, Gesture, EventState, Preview, times_shown, unusable, Next, nothing,
  exception, times_of, next_times, preview_of, preview_at, dropped, dropped_at, commit, same_times,
  minimum, is_far, clear, move_to, finish,
}

-- What a drop hands over where a preview is shown, for an event at `times`.
abbrev pub handed : Times → Option Preview → List Times
handed times none = []
handed times (some unusable) = []
handed times (some (times_shown t)) = if same_times t times then [] else t ∷ []

abbrev pub listed {ℓ} : {A : Type ℓ} → Option A → List A
listed none = []
listed (some a) = a ∷ []

module _ (event : CalendarEvent) where
  dropped-preview_of :
      (change : CalendarChange) (n : Next)
      → listed (dropped event change n) ≡ handed event.times (preview_of event change n)
  dropped-preview_of change nothing = refl
  dropped-preview_of change exception = refl
  dropped-preview_of change (times_of t) =
      elim (Bool-cases (is_valid_change t (minimum event.view change))) [
        | inl q ↦ elim (Bool-cases (same_times t event.times)) [
          | inl r ↦ rw (q, r) refl
          | inr r ↦ rw (q, r) refl
        ]
        | inr q ↦ rw (q) refl
      ]

  dropped_at-preview_at :
      (origin : LocalPoint) (change : CalendarChange) (p : Pointer) (target : Option ℕ)
      → listed (dropped_at event origin change p target)
        ≡ handed event.times (preview_at event origin change p target)
  dropped_at-preview_at origin change p none = refl
  dropped_at-preview_at origin change p (some target) =
      dropped-preview_of change (next_times event origin change target p.cell_minute)

  clear_rests :
      (d : EventState)
      → (let s = clear event d in
          (s.committed ≡ d.committed) × (s.gesture ≡ none) × (s.preview ≡ none))
  unfolding clear
  clear_rests d = elim (Option-cases d.gesture) [
    | inl h ↦ (ground (arith, h), ground (arith, h), ground (arith, h))
    | inr (g, h) ↦ (ground (arith, h), ground (arith, h), ground (arith, h))
  ]

  -- A pointer past the six pixels.
  move_to-past :
      (p : Pointer) (d : EventState) (g : Gesture)
      → d.gesture ≡ some g
      → g.moved || is_far g p ≡ true
      → move_to event p d ≡ record d {
        moved = d.moved || not g.moved;
        gesture = some (record g { moved = true });
        preview = preview_at event g.origin g.change p p.cell_day;
      }
  unfolding move_to
  move_to-past p d g h far = ground (arith, h, far)

  commit-committed :
      (g : Gesture) (o : Option Times) (d : EventState)
      → (commit event g o d).committed ≡ d.committed ++ listed o
  commit-committed g none d = sym (append-nil d.committed)
  commit-committed g (some t) d = refl

  -- A pointer that is past the six pixels, and released where it moved last, hands over the times that
  -- are shown there where they are not the event's own, and nothing where none are shown; the gesture
  -- is over.
  pub finish-move_to :
      (p : Pointer) (d : EventState) (g : Gesture)
      → d.gesture ≡ some g
      → g.moved || is_far g p ≡ true
      → (let s = move_to event p d in
          let e = finish event p s in
          (e.committed ≡ d.committed ++ handed event.times s.preview)
          × (e.gesture ≡ none)
          × (e.preview ≡ none))
  unfolding finish
  finish-move_to p d g h far =
      let target = p.cell_day in
      let given = dropped_at event g.origin g.change p target in
      let moved : Gesture = record g { moved = true } in
      let s : EventState = record d {
        moved = d.moved || not g.moved;
        gesture = some moved;
        preview = preview_at event g.origin g.change p target;
      } in
      let (a, b, c) = clear_rests (commit event moved given s) in
      let kept = commit-committed moved given s in
      rw (move_to-past p d g h far) (
        a ∙ kept ∙ ap (λ l. d.committed ++ l) (dropped_at-preview_at g.origin g.change p target),
        b,
        c,
      )

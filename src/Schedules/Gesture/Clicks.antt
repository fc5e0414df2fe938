-- ===== src/Schedules/Gesture/Clicks.antt =====
-- A click is no gesture.
use ai_erp.Base.{
  ◌≡◌, refl, true, false, not, ◌||◌, none, some, List, [], ◌∷◌, arith, ◌==◌, is_some, all,
  Bool-cases, Option-cases, inl, inr, ap, ◌∙◌,
}
use ai_erp.Calendar.Changes.{CalendarChange}
use ai_erp.Schedules.Writes.Single.{same_token_refl}
use ai_erp.Schedules.Gesture.{
  CalendarEvent, Pointer, Gesture, EventState, is_far, clear, origin_minute, begin, move_to, finish,
}

module _ (event : CalendarEvent) where
  -- The moves of the pointer, one after the other.
  unfoldable pub run_moves : List Pointer → EventState → EventState
  unfolding move_to
  run_moves [] d = d
  run_moves (p ∷ ps) d = run_moves ps (move_to event p d)

  run_moves-none : (ps : List Pointer) (d : EventState) → d.gesture ≡ none → run_moves ps d ≡ d
  unfolding run_moves move_to
  run_moves-none [] d h = refl
  run_moves-none (p ∷ ps) d h =
      let still : move_to event p d ≡ d = ground (arith, h) in
      ap (run_moves ps) still ∙ run_moves-none ps d h

  run_moves-near :
      (ps : List Pointer) (g : Gesture) (d : EventState)
      → d.gesture ≡ some g
      → g.moved ≡ false
      → all (λ p. not (is_far g p)) ps ≡ true
      → run_moves ps d ≡ d
  unfolding run_moves move_to
  run_moves-near [] g d h k near = refl
  run_moves-near (p ∷ ps) g d h k near =
      let still : move_to event p d ≡ d = ground (arith, h, k) in
      ap (run_moves ps) still ∙ run_moves-near ps g d h k (ground arith)

  -- What `begin` leaves when it begins a gesture.
  begin-started :
      (p : Pointer) (change : CalendarChange) (d : EventState) (g : Gesture)
      → d.gesture ≡ none
      → (begin event p change d).gesture ≡ some g
      → (let s = begin event p change d in
          (g.moved ≡ false)
          × (s.moved ≡ false)
          × (s.active ≡ some g.token)
          × (s.committed ≡ d.committed))
  unfolding begin
  begin-started p change d g h k =
      elim (Bool-cases
        (not event.editable || p.is_touch || not (p.button == 0) || is_some d.active)) [
          | inl q ↦ absurd (ground (arith, h, k, q))
          | inr q ↦ elim (Option-cases (origin_minute event p.cell_minute)) [
            | inl e ↦ absurd (ground (arith, h, k, q, e))
            | inr (m, e) ↦ (
              ground (arith, h, k, q, e),
              ground (arith, h, k, q, e),
              ground (arith, h, k, q, e),
              ground (arith, h, k, q, e),
            )
          ]
        ]

  -- A release of a gesture that did not move.
  finish-still :
      (p : Pointer) (d : EventState) (g : Gesture)
      → d.gesture ≡ some g
      → g.moved ≡ false
      → d.moved ≡ false
      → d.active ≡ some g.token
      → (let s = finish event p d in
          (s.committed ≡ d.committed) × (s.active ≡ none) × (s.gesture ≡ none) × (s.moved ≡ false))
  unfolding finish clear
  finish-still p d g h k l a =
      let own = same_token_refl g.token in
      (
        ground (arith, h, k, l, a, own),
        ground (arith, h, k, l, a, own),
        ground (arith, h, k, l, a, own),
        ground (arith, h, k, l, a, own),
      )

  -- From rest, a press, moves within six pixels and a release hand nothing over, free the page's token,
  -- and leave the link of the event to be followed.
  finish-click :
      (p₀ p₁ : Pointer) (change : CalendarChange) (ps : List Pointer) (d : EventState) (g : Gesture)
      → d.gesture ≡ none
      → (begin event p₀ change d).gesture ≡ some g
      → all (λ p. not (is_far g p)) ps ≡ true
      → (let s = finish event p₁ (run_moves ps (begin event p₀ change d)) in
          (s.committed ≡ d.committed) × (s.active ≡ none) × (s.gesture ≡ none) × (s.moved ≡ false))
  finish-click p₀ p₁ change ps d g h k near =
      let s₀ = begin event p₀ change d in
      let (stays, unmoved, holds, same) = begin-started p₀ change d g h k in
      let still : run_moves ps s₀ ≡ s₀ = run_moves-near ps g s₀ k stays near in
      let (a, b, c, e) = finish-still p₁ s₀ g k stays unmoved holds in
      rw (still) (a ∙ same, b, c, e)

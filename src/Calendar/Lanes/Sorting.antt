-- ===== src/Calendar/Lanes/Sorting.antt =====
-- What the sort of a day's events keeps, and that it orders them by their start.
use ai_erp.Base.{
  ℕ, ◌+◌, ◌≤◌, ◌<◌, ◌≡◌, refl, true, false, List, [], ◌∷◌, arith, leb, ltb, ◌&&◌, if◌then◌else◌,
  All, Bool-cases, inl, inr, ◌∙◌, ap,
}
use ai_erp.Calendar.Lanes.{DayLayout, compare_layout, is_after, insert_layout, sort_layouts}

-- The starts do not fall, and the first is not below `lo`.
abbrev pub FromStart : ℕ → List DayLayout → Type 0
FromStart lo [] = Unit
FromStart lo (o ∷ os) = (lo ≤ o.start) × FromStart o.start os

-- How many of the events cover the time `t`.
unfoldable pub count_cover : ℕ → List DayLayout → ℕ
count_cover t [] = 0
count_cover t (o ∷ os) = (if leb o.start t && ltb t o.finish then 1 else 0) + count_cover t os

pub count_cover-before :
    (t lo : ℕ) (os : List DayLayout) → FromStart lo os → t < lo → count_cover t os ≡ 0
unfolding count_cover
count_cover-before t lo [] sorted h = refl
count_cover-before t lo (o ∷ os) (p, sorted) h =
    ground (arith, count_cover-before t o.start os sorted)

after-start : (a b : DayLayout) → is_after (compare_layout a b) ≡ true → b.start ≤ a.start
unfolding compare_layout
after-start a b h = ground arith

not_after-start : (a b : DayLayout) → is_after (compare_layout a b) ≡ false → a.start ≤ b.start
unfolding compare_layout
not_after-start a b h = ground arith

insert_layout-FromStart :
    (lo : ℕ) (a : DayLayout) (bs : List DayLayout)
    → lo ≤ a.start
    → FromStart lo bs
    → FromStart lo (insert_layout a bs)
unfolding insert_layout
insert_layout-FromStart lo a [] h k = (h, tt)
insert_layout-FromStart lo a (b ∷ bs) h (p, k) = elim (Bool-cases (is_after (compare_layout a b))) [
  | inl after ↦
      rw (after, insert_layout) (p, insert_layout-FromStart b.start a bs (after-start a b after) k)
  | inr before ↦ rw (before, insert_layout) (h, (not_after-start a b before, k))
]

pub sort_layouts-FromStart : (os : List DayLayout) → FromStart 0 (sort_layouts os)
unfolding sort_layouts
sort_layouts-FromStart [] = tt
sort_layouts-FromStart (a ∷ as') =
    insert_layout-FromStart 0 a (sort_layouts as') (omega arith) (sort_layouts-FromStart as')

module _ (P : DayLayout → Type 0) where
  insert_layout-All :
      (a : DayLayout) (bs : List DayLayout) → P a → All P bs → All P (insert_layout a bs)
  unfolding insert_layout
  insert_layout-All a [] p k = (p, tt)
  insert_layout-All a (b ∷ bs) p (q, k) = elim (Bool-cases (is_after (compare_layout a b))) [
    | inl after ↦ rw (after, insert_layout) (q, insert_layout-All a bs p k)
    | inr before ↦ rw (before, insert_layout) (p, (q, k))
  ]

  pub sort_layouts-All : (os : List DayLayout) → All P os → All P (sort_layouts os)
  unfolding sort_layouts
  sort_layouts-All [] k = tt
  sort_layouts-All (a ∷ as') (p, k) =
      insert_layout-All a (sort_layouts as') p (sort_layouts-All as' k)

insert_layout-count_cover :
    (t : ℕ) (a : DayLayout) (bs : List DayLayout)
    → count_cover t (insert_layout a bs) ≡ count_cover t (a ∷ bs)
unfolding insert_layout count_cover
insert_layout-count_cover t a [] = refl
insert_layout-count_cover t a (b ∷ bs) = elim (Bool-cases (is_after (compare_layout a b))) [
  | inl after ↦ rw (after, insert_layout) (omega (arith, insert_layout-count_cover t a bs))
  | inr before ↦ rw (before, insert_layout) refl
]

-- Sorting the events of a day keeps, at every time, the number of events that cover it.
pub sort_layouts-count_cover :
    (t : ℕ) (os : List DayLayout) → count_cover t (sort_layouts os) ≡ count_cover t os
unfolding sort_layouts count_cover
sort_layouts-count_cover t [] = refl
sort_layouts-count_cover t (a ∷ as') =
    insert_layout-count_cover t a (sort_layouts as')
    ∙ ap (λ n. (if leb a.start t && ltb t a.finish then 1 else 0) + n)
        (sort_layouts-count_cover t as')

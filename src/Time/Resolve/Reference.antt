-- ===== src/Time/Resolve/Reference.antt =====
-- The resolution of a local time against a search of every instant.
use ai_erp.Base.{
  ℕ, zero, suc, ◌+◌, ◌-◌, ◌*◌, ◌/◌, ◌≤◌, ◌<◌, ◌≡◌, refl, Bool, true, false, not, ◌&&◌, ◌||◌, some,
  List, [], ◌∷◌, arith, ◌==◌, leb, ltb, map, select, if◌then◌else◌, Bool-cases, inl, inr, sym, ap,
  ◌∙◌,
}
use ai_erp.Time.Resolve.{
  sample_hours, elem, distinct_numbers, verdict, candidate, candidates, local_date_time_to_utc,
}

-- The instants of a span that pass a test, by trying each of them.
abbrev pub search : (ℕ → Bool) → ℕ → ℕ → List ℕ
search p from zero = []
search p from (suc n) = let rest = search p (suc from) n in if p from then from ∷ rest else rest

-- No number is twice in a list.
abbrev no_twice : List ℕ → Bool
no_twice [] = true
no_twice (x ∷ xs) = not (elem x xs) && no_twice xs

verdict-elem :
    (xs ys : List ℕ)
    → no_twice xs ≡ true
    → no_twice ys ≡ true
    → ((t : ℕ) → elem t xs ≡ elem t ys)
    → verdict xs ≡ verdict ys
verdict-elem [] [] h k e = refl
verdict-elem [] (y ∷ ys) h k e = absurd (ground (arith, e y))
verdict-elem (x ∷ xs) [] h k e = absurd (ground (arith, e x))
verdict-elem (x ∷ []) (y ∷ []) h k e = ground (arith, e x)
verdict-elem (x ∷ []) (y ∷ z ∷ ys) h k e = absurd (ground (arith, e y, e z))
verdict-elem (x ∷ w ∷ xs) (y ∷ []) h k e = absurd (ground (arith, e x, e w))
verdict-elem (x ∷ w ∷ xs) (y ∷ z ∷ ys) h k e = refl

elem-distinct_numbers : (t : ℕ) (xs : List ℕ) → elem t (distinct_numbers xs) ≡ elem t xs
unfolding distinct_numbers
elem-distinct_numbers t [] = refl
elem-distinct_numbers t (x ∷ xs) = elim (Bool-cases (elem x (distinct_numbers xs))) [
  | inl twice ↦ elim (Bool-cases (x == t)) [
    | inl same ↦
        let here : x ≡ t = ground arith in
        rw (twice, same) (ap (λ i. elem i (distinct_numbers xs)) (sym here) ∙ twice)
    | inr other ↦ rw (twice, other) (elem-distinct_numbers t xs)
  ]
  | inr new ↦ rw new (ap (λ b. (x == t) || b) (elem-distinct_numbers t xs))
]

distinct_numbers-no_twice : (xs : List ℕ) → no_twice (distinct_numbers xs) ≡ true
unfolding distinct_numbers
distinct_numbers-no_twice [] = refl
distinct_numbers-no_twice (x ∷ xs) = ground (arith, distinct_numbers-no_twice xs)

elem-select : (p : ℕ → Bool) (t : ℕ) (xs : List ℕ) → elem t (select p xs) ≡ (p t && elem t xs)
elem-select p t [] = ground arith
elem-select p t (x ∷ xs) = elim (Bool-cases (x == t)) [
  | inl same ↦ let here : x ≡ t = ground arith in rw here (ground (arith, elem-select p t xs))
  | inr other ↦ ground (arith, elem-select p t xs)
]

select-no_twice : (p : ℕ → Bool) (xs : List ℕ) → no_twice xs ≡ true → no_twice (select p xs) ≡ true
select-no_twice p [] h = refl
select-no_twice p (x ∷ xs) h = ground (arith, select-no_twice p xs, elem-select p x xs)

search-late : (p : ℕ → Bool) (t from n : ℕ) → t < from → elem t (search p from n) ≡ false
search-late p t from zero h = refl
search-late p t from (suc n) h = ground (arith, search-late p t (suc from) n)

search-no_twice : (p : ℕ → Bool) (from n : ℕ) → no_twice (search p from n) ≡ true
search-no_twice p from zero = refl
search-no_twice p from (suc n) =
    ground (arith, search-no_twice p (suc from) n, search-late p from (suc from) n)

elem-search :
    (p : ℕ → Bool) (t from n : ℕ)
    → elem t (search p from n) ≡ (p t && (leb from t && ltb t (from + n)))
elem-search p t from zero = ground arith
elem-search p t from (suc n) = elim (Bool-cases (from == t)) [
  | inl same ↦
      let here : from ≡ t = ground arith in rw here (ground (arith, elem-search p t (suc t) n))
  | inr other ↦ ground (arith, elem-search p t (suc from) n)
]

elem-map : (f : ℕ → ℕ) (x : ℕ) (xs : List ℕ) → elem x xs ≡ true → elem (f x) (map f xs) ≡ true
elem-map f x [] h = absurd (ground arith)
elem-map f x (y ∷ xs) h = elim (Bool-cases (y == x)) [
  | inl same ↦ let here : y ≡ x = ground arith in rw here (ground arith)
  | inr other ↦ ground (arith, elem-map f x xs)
]

elem-map_near :
    (f : ℕ → ℕ) (low high t : ℕ) (xs : List ℕ)
    → ((x : ℕ) → (low ≤ f x) × (f x ≤ high))
    → elem t (map f xs) ≡ true
    → (low ≤ t) × (t ≤ high)
elem-map_near f low high t [] near h = absurd (ground arith)
elem-map_near f low high t (x ∷ xs) near h = elim (Bool-cases (f x == t)) [
  | inl same ↦
      let here : f x ≡ t = ground arith in let (l, u) = near x in (ground arith, ground arith)
  | inr other ↦ elem-map_near f low high t xs near (ground arith)
]

==-true : (a b : ℕ) → (a == b) ≡ true → a ≡ b
==-true a b h = ground arith

both-hidden : (p e s x y : Bool) → x ≡ (p && e) → y ≡ (p && s) → p ≡ false → x ≡ y
both-hidden p e s x y h k q = ground arith

both-shown : (p e s x y : Bool) → x ≡ (p && e) → y ≡ (p && s) → e ≡ true → s ≡ true → x ≡ y
both-shown p e s x y h k i j = ground arith

module _ (local_of : ℕ → ℕ) (local : ℕ) where
  -- The zone is never more than 36 hours away from the meridian.
  abbrev IsNear : Type 0
  IsNear = (s : ℕ) → (s ≤ local_of s + 2160) × (local_of s ≤ s + 2160)

  -- Whatever instant shows the local time, its offset is the zone's at one of the samples.
  abbrev IsSampled : Type 0
  IsSampled =
      (t : ℕ)
      → local_of t ≡ local
      → (hours : ℕ) × (elem hours sample_hours ≡ true)
        × (local_of (local + hours * 60 - 2160) + t ≡ local + (local + hours * 60 - 2160))

  candidate-near :
      (hours : ℕ)
      → IsNear
      → 2160 ≤ local
      → (local - 2160 ≤ candidate local_of local hours)
        × (candidate local_of local hours ≤ local + 2160)
  candidate-near hours near late =
      let (before, after) = near (local + hours * 60 - 2160) in (omega arith, omega arith)

  shown-elem : (t : ℕ) → IsSampled → local_of t ≡ local → elem t (candidates local_of local) ≡ true
  unfolding candidates
  shown-elem t sampled h =
      let (hours, sample, offset) = sampled t h in
      let here : candidate local_of local hours ≡ t = omega arith in
      elem-distinct_numbers t (map (λ i. candidate local_of local i) sample_hours)
      ∙ ap (λ i. elem i (map (λ j. candidate local_of local j) sample_hours)) (sym here)
      ∙ elem-map (λ i. candidate local_of local i) hours sample_hours sample

  elem-near :
      (t : ℕ)
      → IsNear
      → 2160 ≤ local
      → elem t (candidates local_of local) ≡ true
      → (local - 2160 ≤ t) × (t ≤ local + 2160)
  unfolding candidates
  elem-near t near late h =
      elem-map_near (λ i. candidate local_of local i) (local - 2160) (local + 2160) t sample_hours
        (λ hours. candidate-near hours near late)
        (sym (elem-distinct_numbers t (map (λ i. candidate local_of local i) sample_hours)) ∙ h)

  span-near :
      (t : ℕ)
      → 2160 ≤ local
      → local - 2160 ≤ t
      → t ≤ local + 2160
      → (leb (local - 2160) t && ltb t (local - 2160 + 4321)) ≡ true
  span-near t late low high = ground arith

  same-elem :
      (t : ℕ)
      → IsNear
      → IsSampled
      → 2160 ≤ local
      → elem t (select (λ i. local_of i == local) (candidates local_of local))
        ≡ elem t (search (λ i. local_of i == local) (local - 2160) 4321)
  same-elem t near sampled late =
      let left = elem-select (λ i. local_of i == local) t (candidates local_of local) in
      let right = elem-search (λ i. local_of i == local) t (local - 2160) 4321 in
      elim (Bool-cases (local_of t == local)) [
        | inr hidden ↦ both-hidden _ _ _ _ _ left right hidden
        | inl shown ↦
            let there = shown-elem t sampled (==-true (local_of t) local shown) in
            let (low, high) = elem-near t near late there in
            both-shown _ _ _ _ _ left right there (span-near t late low high)
      ]

elem-sample_hours : (k : ℕ) → k ≤ 12 → elem (6 * k) sample_hours ≡ true
elem-sample_hours k h = ground arith

-- The first sample at or after an instant near the local time.
next_sample :
    (local from : ℕ)
    → local ≤ from + 2160
    → from ≤ local + 1800
    → 2160 ≤ local
    → (k : ℕ) × (k ≤ 12)
      × (from ≤ local + 6 * k * 60 - 2160)
      × (local + 6 * k * 60 - 2160 ≤ from + 360)
next_sample local from low high late =
    ((from + 2160 - local + 359) / 360, omega arith, omega arith, omega arith)

-- If the zone is never more than 30 hours away from the meridian, and every instant stands in a span of
-- six hours in which the offset is the same: the local time, which is not among the first 36 hours of
-- the clock, is resolved as the search of every instant within 36 hours of it finds, to the only one
-- that shows it, to none, or as ambiguous.
pub local_date_time_to_utc-search :
    (local_of : ℕ → ℕ) (local : ℕ)
    → ((s : ℕ) → (s ≤ local_of s + 1800) × (local_of s ≤ s + 1800))
    → ((t : ℕ)
        → (from : ℕ) × (from ≤ t)
          × (t ≤ from + 360)
          × ((s : ℕ) → from ≤ s → s ≤ from + 360 → local_of s + t ≡ local_of t + s))
    → 2160 ≤ local
    → local_date_time_to_utc local_of true (some local)
      ≡ verdict (search (λ t. local_of t == local) (local - 2160) 4321)
unfolding local_date_time_to_utc candidates
local_date_time_to_utc-search local_of local near steady late =
    verdict-elem _ _
      (select-no_twice (λ t. local_of t == local) (candidates local_of local)
        (distinct_numbers-no_twice (map (λ i. candidate local_of local i) sample_hours)))
      (search-no_twice (λ t. local_of t == local) (local - 2160) 4321)
      (λ t.
        same-elem local_of local t (λ s. let (l, u) = near s in (omega arith, omega arith)) sampled
          late)
  where
    sampled :
        (t : ℕ)
        → local_of t ≡ local
        → (hours : ℕ) × (elem hours sample_hours ≡ true)
          × (local_of (local + hours * 60 - 2160) + t ≡ local + (local + hours * 60 - 2160))
    sampled t shown =
        let (below, above) = near t in
        let (from, before, after, same) = steady t in
        let (k, bound, first, last) = next_sample local from (omega arith) (omega arith) late in
        (
          6 * k,
          elem-sample_hours k bound,
          same (local + 6 * k * 60 - 2160) first last
              ∙ ap (λ i. i + (local + 6 * k * 60 - 2160)) shown,
        )

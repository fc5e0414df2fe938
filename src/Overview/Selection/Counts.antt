-- ===== src/Overview/Selection/Counts.antt =====
-- Sorting keeps the rows and puts the blocked ones first; a cut keeps the first of them.
use Prim.Native.Nat.{Ordering}
use ai_erp.Base.{
  ℕ, zero, suc, ◌≤◌, ◌≡◌, refl, Bool, true, false, not, ◌&&◌, ◌||◌, List, [], ◌∷◌, arith, any, take,
  length, map, select, min, ◌+◌, if◌then◌else◌, Bool-cases, inl, inr,
}
use ai_erp.Calendar.Lanes.{is_after}
use ai_erp.Overview.{PlanItem}
use ai_erp.Overview.Selection.{Shown, insert_by, sort_by}

-- No flagged row stands behind one without the flag.
unfoldable pub flags_first : List Shown → Bool
flags_first [] = true
flags_first (s ∷ ss) = (s.is_held || not (any (λ t. t.is_held) ss)) && flags_first ss

-- The order asks for the flag first.
abbrev pub Asks : (Shown → Shown → Ordering) → Type 0
Asks order =
    (a b : Shown) (later : Bool)
    → is_after (order a b) ≡ later
    → ((later && a.is_held && not b.is_held) || (not later && b.is_held && not a.is_held)) ≡ false

module _ (order : Shown → Shown → Ordering) (asks : Asks order) where
  any-insert_by :
      (a : Shown) (ss : List Shown)
      → any (λ t. t.is_held) (insert_by order a ss) ≡ (a.is_held || any (λ t. t.is_held) ss)
  unfolding insert_by
  any-insert_by a [] = refl
  any-insert_by a (s ∷ ss) = ground (arith, any-insert_by a ss)

  insert_by-flags_first :
      (a : Shown) (ss : List Shown)
      → flags_first ss ≡ true
      → flags_first (insert_by order a ss) ≡ true
  unfolding insert_by flags_first
  insert_by-flags_first a [] h = ground arith
  insert_by-flags_first a (s ∷ ss) h = elim (Bool-cases (is_after (order a s))) [
    | inl later ↦
        rw later
          (ground (arith, asks a s true later, any-insert_by a ss, insert_by-flags_first a ss))
    | inr here ↦ rw here (ground (arith, asks a s false here))
  ]

  pub sort_by-flags_first : (ss : List Shown) → flags_first (sort_by order ss) ≡ true
  unfolding sort_by flags_first
  sort_by-flags_first [] = refl
  sort_by-flags_first (s ∷ ss) = insert_by-flags_first s (sort_by order ss) (sort_by-flags_first ss)

-- How many pass a test.
abbrev pub count {ℓ} : {A : Type ℓ} → (A → Bool) → List A → ℕ
count p [] = 0
count p (x ∷ xs) = (if p x then 1 else 0) + count p xs

abbrev pub held : Shown → Bool
held s = s.is_held

module _ (order : Shown → Shown → Ordering) (q : Shown → Bool) where
  count-insert_by :
      (a : Shown) (ss : List Shown) → count q (insert_by order a ss) ≡ count q (a ∷ ss)
  unfolding insert_by
  count-insert_by a [] = refl
  count-insert_by a (s ∷ ss) = ground (arith, count-insert_by a ss)

  pub count-sort_by : (ss : List Shown) → count q (sort_by order ss) ≡ count q ss
  unfolding sort_by
  count-sort_by [] = refl
  count-sort_by (s ∷ ss) = rw (count-insert_by s (sort_by order ss), count-sort_by ss) refl

pub count-take-le :
    (q : Shown → Bool) (cap : ℕ) (ss : List Shown) → count q (take cap ss) ≤ count q ss
count-take-le q zero ss = omega arith
count-take-le q (suc cap) [] = omega arith
count-take-le q (suc cap) (s ∷ ss) = let rest = count-take-le q cap ss in omega arith

count-none : (ss : List Shown) → any held ss ≡ false → count held ss ≡ 0
count-none [] h = refl
count-none (s ∷ ss) h = ground (arith, count-none ss)

pub flags_first-take :
    (cap : ℕ) (ss : List Shown)
    → flags_first ss ≡ true
    → count held (take cap ss) ≡ min cap (count held ss)
unfolding flags_first
flags_first-take zero ss h = omega arith
flags_first-take (suc cap) [] h = omega arith
flags_first-take (suc cap) (s ∷ ss) h = elim (Bool-cases (s.is_held)) [
  | inl flag ↦ let rest = flags_first-take cap ss (ground arith) in rw (flag, rest) (omega arith)
  | inr plain ↦
      let nobody = count-none ss (ground arith) in
      let fewer = count-take-le held cap ss in rw (plain, nobody) (omega (arith, nobody, fewer))
]

any-take :
    (n : ℕ) (ss : List Shown)
    → any (λ t. t.is_held) ss ≡ false
    → any (λ t. t.is_held) (take n ss) ≡ false
any-take zero ss h = refl
any-take (suc n) [] h = refl
any-take (suc n) (s ∷ ss) h = ground (arith, any-take n ss)

pub take-flags_first :
    (n : ℕ) (ss : List Shown) → flags_first ss ≡ true → flags_first (take n ss) ≡ true
unfolding flags_first
take-flags_first zero ss h = refl
take-flags_first (suc n) [] h = refl
take-flags_first (suc n) (s ∷ ss) h = ground (arith, take-flags_first n ss, any-take n ss)

pub length-count : {A : Type 0} (xs : List A) → length xs ≡ count (λ x. true) xs
length-count [] = refl
length-count (x ∷ xs) = omega (arith, length-count xs)

pub count-map-select :
    (q : Shown → Bool) (p : PlanItem → Bool) (f : PlanItem → Shown) (is : List PlanItem)
    → count q (map f (select p is)) ≡ count (λ i. p i && q (f i)) is
count-map-select q p f [] = refl
count-map-select q p f (i ∷ is) = ground (arith, count-map-select q p f is)

pub count-select :
    (q p : Shown → Bool) (ss : List Shown) → count q (select p ss) ≡ count (λ s. p s && q s) ss
count-select q p [] = refl
count-select q p (s ∷ ss) = ground (arith, count-select q p ss)

pub count-same :
    (p q : PlanItem → Bool) (is : List PlanItem)
    → ((i : PlanItem) → p i ≡ q i)
    → count p is ≡ count q is
count-same p q [] h = refl
count-same p q (i ∷ is) h = rw (h i, count-same p q is h) refl

-- ===== src/Overview/Ancestors.antt =====
-- When the climb from an item to its outermost ancestor ends.
use ai_erp.Base.{
  ℕ, zero, suc, ◌+◌, ◌≤◌, ◌<◌, ◌≡◌, refl, String, Bool, true, none, some, List, [], ◌∷◌, arith, ltb,
  length, all, Option-cases, inl, inr,
}
use ai_erp.Base.Dict.{Dict, get, put, get-put}
use ai_erp.Overview.{PlanItem, by_id, parent_of, truthy, climb, plan_path}

-- The parent that an item has in the plan lies above it.
abbrev pub lies_below : (String → ℕ) → Dict PlanItem → PlanItem → Bool
lies_below depth m i = elim (parent_of m i) [
  | none ↦ true
  | some parent ↦ ltb (depth parent.id) (depth i.id)
]

-- Whatever is found by an id was there before or is a row.
get-by_id :
    (q : PlanItem → Bool) (rows : List PlanItem) (m : Dict PlanItem)
    → all q rows ≡ true
    → ((k : String) (i : PlanItem) → get k m ≡ some i → q i ≡ true)
    → (k : String) (i : PlanItem) → get k (by_id rows m) ≡ some i
    → q i ≡ true
unfolding by_id
get-by_id q [] m h old k i e = old k i e
get-by_id q (r ∷ rs) m h old k i e =
    get-by_id q rs (put r.id r m) (ground arith)
      (λ j w found. ground (arith, get-put j r.id r m, old j w)) k i e

found-parent_of :
    (q : PlanItem → Bool) (m : Dict PlanItem) (i parent : PlanItem)
    → ((k : String) (j : PlanItem) → get k m ≡ some j → q j ≡ true)
    → parent_of m i ≡ some parent
    → q parent ≡ true
found-parent_of q m i parent ok e = elim (Option-cases (truthy i.parent_id)) [
  | inl none_there ↦ absurd (ground arith)
  | inr (k, there) ↦ ok k parent (ground arith)
]

-- The climb from `i` ends with one path, whatever fuel above its depth is given.
abbrev pub Ends : (String → ℕ) → Dict PlanItem → PlanItem → List String → Type 0
Ends depth m i path =
    (p : List String) × (length p ≤ length path + depth i.id)
    × ((fuel : ℕ) → depth i.id < fuel → climb fuel m i path ≡ some p)

module _ (depth : String → ℕ) (m : Dict PlanItem) where
  climb-stop : (i : PlanItem) (path : List String) → parent_of m i ≡ none → Ends depth m i path
  unfolding climb
  climb-stop i path e = (
    path,
    omega arith,
    λ fuel h.
        elim fuel as (λ n. depth i.id < n → climb n m i path ≡ some path) [
          | zero ↦ λ k. absurd (omega arith)
          | suc n ↦ λ k. rw (e, climb) refl
        ]
          h,
  )

  climb-up :
      (i parent : PlanItem) (path : List String)
      → parent_of m i ≡ some parent
      → depth parent.id < depth i.id
      → Ends depth m parent (parent.title ∷ path)
      → Ends depth m i path
  unfolding climb
  climb-up i parent path e h (p, short, ends) = (
    p,
    omega arith,
    λ fuel k.
        elim fuel as (λ n. depth i.id < n → climb n m i path ≡ some p) [
          | zero ↦ λ j. absurd (omega arith)
          | suc n ↦ λ j. rw (e, climb) (ends n (omega arith))
        ]
          k,
  )

  climb-Ends :
      (d : ℕ) (i : PlanItem) (path : List String)
      → ((k : String) (j : PlanItem) → get k m ≡ some j → lies_below depth m j ≡ true)
      → lies_below depth m i ≡ true
      → depth i.id ≤ d
      → Ends depth m i path
  climb-Ends zero i path ok below h = elim (Option-cases (parent_of m i)) [
    | inl e ↦ climb-stop i path e
    | inr (parent, e) ↦
        let lower : depth parent.id < depth i.id = ground arith in absurd (omega arith)
  ]
  climb-Ends (suc d) i path ok below h = elim (Option-cases (parent_of m i)) [
    | inl e ↦ climb-stop i path e
    | inr (parent, e) ↦
        let lower : depth parent.id < depth i.id = ground arith in
        climb-up i parent path e lower (
          climb-Ends d parent (parent.title ∷ path) ok
            (found-parent_of (lies_below depth m) m i parent ok e) (omega arith))
  ]

no_row : (k : String) (i : PlanItem) → get k [] ≡ some i → ⊥
unfolding get
no_row k i e = ground arith

ends_at :
    (depth : String → ℕ) (items : List PlanItem) (item : PlanItem)
    → all (lies_below depth (by_id items [])) items ≡ true
    → lies_below depth (by_id items []) item ≡ true
    → Ends depth (by_id items []) item []
ends_at depth items item rows below =
    climb-Ends depth (by_id items []) (depth item.id) item []
      (get-by_id (lies_below depth (by_id items [])) items [] rows (λ k i e. absurd (no_row k i e)))
      below (omega arith)

-- If every row of a plan, and the item, lies below the parent that it has there, `planPath` ends
-- with one path, no longer than the item is deep, whatever fuel above that depth is given.
plan_path-Ends :
    (depth : String → ℕ) (items : List PlanItem) (item : PlanItem)
    → all (lies_below depth (by_id items [])) items ≡ true
    → lies_below depth (by_id items []) item ≡ true
    → (p : List String) × (length p ≤ depth item.id)
      × ((fuel : ℕ) → depth item.id < fuel → plan_path fuel items item ≡ some p)
plan_path-Ends depth items item rows below =
    let (p, short, ends) = ends_at depth items item rows below in (p, omega arith, ends)

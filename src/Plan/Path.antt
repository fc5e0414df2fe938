-- ===== src/Plan/Path.antt =====
-- The path of an item ends in every plan, also where items are their own ancestors.
use ai_erp.Base.{
  ℕ, zero, suc, ◌+◌, ◌≤◌, ◌<◌, ◌≡◌, refl, String, true, false, Option, none, some, List, [], ◌∷◌,
  arith, str_eq, eq_refl, length, if◌then◌else◌, Bool-cases, Option-cases, inl, inr,
}
use ai_erp.Base.Dict.{Dict, get}
use ai_erp.Overview.{PlanItem, truthy, parent_of}
use ai_erp.Plan.{was_seen, walk, path_for}

-- How many rows of the plan are not on the path yet.
unfoldable unseen : List String → Dict PlanItem → ℕ
unseen seen [] = 0
unseen seen ((k, i) ∷ m) = let rest = unseen seen m in if was_seen i.id seen then rest else suc rest

unseen_more :
    (x : String) (seen : List String) (m : Dict PlanItem) → unseen (x ∷ seen) m ≤ unseen seen m
unfolding unseen
unseen_more x seen [] = omega arith
unseen_more x seen ((k, i) ∷ m) = let rest = unseen_more x seen m in ground arith

unseen_all : (m : Dict PlanItem) → unseen [] m ≤ length m
unfolding unseen
unseen_all [] = omega arith
unseen_all ((k, i) ∷ m) = let rest = unseen_all m in ground arith

unseen_found :
    (k : String) (i : PlanItem) (seen : List String) (m : Dict PlanItem)
    → get k m ≡ some i
    → was_seen i.id seen ≡ false
    → unseen (i.id ∷ seen) m < unseen seen m
unfolding unseen get
unseen_found k i seen [] e new = absurd (ground arith)
unseen_found k i seen ((j, r) ∷ m) e new = elim (Bool-cases (str_eq j k)) [
  | inl q ↦
      let more = unseen_more i.id seen m in
      let own = eq_refl i.id in
      let same : r ≡ i = ground arith in
      let fresh : was_seen r.id seen ≡ false = rw (same) new in
      let counted : str_eq i.id r.id ≡ true = rw (same) own in ground arith
  | inr q ↦ let rest = unseen_found k i seen m (ground arith) new in ground arith
]

-- A row of the plan, or none.
abbrev InPlan : Dict PlanItem → Option PlanItem → Type 0
InPlan m o = (i : PlanItem) → o ≡ some i → (k : String) × (get k m ≡ some i)

parent_of-InPlan : (m : Dict PlanItem) (i : PlanItem) → InPlan m (parent_of m i)
parent_of-InPlan m i j e = elim (Option-cases (truthy i.parent_id)) [
  | inl q ↦ absurd (ground arith)
  | inr (k, q) ↦ (k, ground arith)
]

-- A walk over no more than `n` rows ends with one path, whatever fuel above `n` is given.
abbrev Ends : ℕ → Dict PlanItem → Option PlanItem → List String → List String → Type 0
Ends n m o path seen =
    (p : List String) × (length p ≤ length path + n)
    × ((fuel : ℕ) → n < fuel → walk fuel m o path seen ≡ some p)

walk_stop :
    (n : ℕ) (m : Dict PlanItem) (o : Option PlanItem) (path seen : List String)
    → ((fuel : ℕ) → walk (suc fuel) m o path seen ≡ some path)
    → Ends n m o path seen
walk_stop n m o path seen stops = (
  path,
  omega arith,
  λ fuel h.
      elim fuel as (λ f. n < f → walk f m o path seen ≡ some path) [
        | zero ↦ λ k. absurd (omega arith)
        | suc f ↦ λ k. stops f
      ]
        h,
)

walk_on :
    (n : ℕ) (m : Dict PlanItem) (i : PlanItem) (path seen : List String)
    → was_seen i.id seen ≡ false
    → Ends n m (parent_of m i) (i.title ∷ path) (i.id ∷ seen)
    → Ends (suc n) m (some i) path seen
unfolding walk
walk_on n m i path seen new (p, short, ends) = (
  p,
  omega arith,
  λ fuel h.
      elim fuel as (λ f. suc n < f → walk f m (some i) path seen ≡ some p) [
        | zero ↦ λ k. absurd (omega arith)
        | suc f ↦ λ k. rw (new, walk) (ends f (omega arith))
      ]
        h,
)

walk-Ends :
    (n : ℕ) (m : Dict PlanItem) (o : Option PlanItem) (path seen : List String)
    → InPlan m o
    → unseen seen m ≤ n
    → Ends n m o path seen
unfolding walk
walk-Ends n m none path seen known h = walk_stop n m none path seen (λ fuel. refl)
walk-Ends zero m (some i) path seen known h = elim (Bool-cases (was_seen i.id seen)) [
  | inl q ↦ walk_stop 0 m (some i) path seen (λ fuel. rw (q, walk) refl)
  | inr q ↦
      let (k, there) = known i refl in
      let less = unseen_found k i seen m there q in absurd (omega arith)
]
walk-Ends (suc n) m (some i) path seen known h = elim (Bool-cases (was_seen i.id seen)) [
  | inl q ↦ walk_stop (suc n) m (some i) path seen (λ fuel. rw (q, walk) refl)
  | inr q ↦
      let (k, there) = known i refl in
      let less = unseen_found k i seen m there q in
      walk_on n m i path seen q (
        walk-Ends n m (parent_of m i) (i.title ∷ path) (i.id ∷ seen) (parent_of-InPlan m i)
          (omega arith))
]

-- Whatever parents the items of a plan have, also where items are their own ancestors, `pathFor` ends
-- with one path, with no more titles than the plan has rows and one, whatever fuel above that is given.
pub path_for-Ends :
    (m : Dict PlanItem) (item : PlanItem)
    → (p : List String) × (length p ≤ length m + 1)
      × ((fuel : ℕ) → length m + 1 < fuel → path_for fuel m item ≡ some p)
path_for-Ends m item =
    let all_rows = unseen_all m in
    let fewer = unseen_more item.id [] m in
    let rest : Ends (length m) m (parent_of m item) (item.title ∷ []) (item.id ∷ []) =
      walk-Ends (length m) m (parent_of m item) (item.title ∷ []) (item.id ∷ [])
        (parent_of-InPlan m item) (omega arith) in
    let (p, short, ends) = walk_on (length m) m item [] [] refl rest in
    (p, omega arith, λ fuel h. ends fuel (omega arith))

-- ===== src/Unsaved/Guard.antt =====
-- A draft is left only with the user's consent.
use ai_erp.Base.{
  ℕ, ◌≡◌, refl, Bool, true, false, not, ◌&&◌, List, [], ◌∷◌, arith, Bool-cases, inl, inr, ap, sym,
  ◌∙◌,
}
use ai_erp.Base.Text.{text_eq}
use ai_erp.Unsaved.{
  Editor, route_base, on_route_change, confirm_discard, become, EditorEvent, navigates, asks,
  becomes, saves, step, run,
}

text_eq→path : (s t : List ℕ) → text_eq s t ≡ true → s ≡ t
unfolding text_eq
text_eq→path [] [] h = refl
text_eq→path [] (d ∷ t) h = absurd (ground arith)
text_eq→path (c ∷ s) [] h = absurd (ground arith)
text_eq→path (c ∷ s) (d ∷ t) h =
    let same : c ≡ d = ground arith in rw same (ap (λ u. d ∷ u) (text_eq→path s t (ground arith)))

-- The draft is kept, and the window shows a view of the editor with this base.
pub record IsKept (base : List ℕ) (e : Editor) : Type 0 where
  pub dirty : e.dirty ≡ true
  pub settled : e.restoring ≡ false
  pub here : route_base e.route ≡ base

-- The user neither agrees to leave nor saves.
abbrev pub refuses : EditorEvent → Bool
refuses (navigates next first second) = not first && not second
refuses (asks answer) = not answer
refuses (becomes dirty) = dirty
refuses saves = false

abbrev pub all_refuse : List EditorEvent → Bool
all_refuse [] = true
all_refuse (x ∷ xs) = refuses x && all_refuse xs

-- After a change that is refused the location is the route again.
on_route_change-IsKept :
    (base : List ℕ) (e : Editor)
    → IsKept base e
    → IsKept base (on_route_change false e)
      × ((on_route_change false e).location ≡ (on_route_change false e).route)
unfolding on_route_change
on_route_change-IsKept base e h = elim (Bool-cases (text_eq e.location e.route)) [
  | inl same ↦
      rw (h.settled, same, on_route_change)
        (
          record { dirty = h.dirty; settled = refl; here = h.here },
          text_eq→path e.location e.route same,
        )
  | inr other ↦ elim (Bool-cases (text_eq (route_base e.location) (route_base e.route))) [
    | inl inside ↦
        let there : route_base e.location ≡ base =
          text_eq→path (route_base e.location) (route_base e.route) inside ∙ h.here in
        rw (h.settled, other, inside, on_route_change)
          (record { dirty = h.dirty; settled = refl; here = there }, refl)
    | inr outside ↦
        rw (h.settled, other, outside, h.dirty, on_route_change)
          (record { dirty = refl; settled = refl; here = h.here }, refl)
  ]
]

abbrev pub At : Editor → Type 0
At e = e.location ≡ e.route

step-IsKept :
    (base : List ℕ) (x : EditorEvent) (e : Editor)
    → refuses x ≡ true
    → IsKept base e
    → At e
    → IsKept base (step x e) × At (step x e)
unfolding step confirm_discard become
step-IsKept base (navigates next true second) e r h at = absurd (ground arith)
step-IsKept base (navigates next false true) e r h at = absurd (ground arith)
step-IsKept base (navigates next false false) e r h at =
    let moved : Editor = record e { location = next } in
    let kept : IsKept base moved = record { dirty = h.dirty; settled = h.settled; here = h.here } in
    on_route_change-IsKept base (on_route_change false moved)
      (on_route_change-IsKept base moved kept).0
step-IsKept base (asks true) e r h at = absurd (ground arith)
step-IsKept base (asks false) e r h at =
    rw (h.dirty, step) (record { dirty = refl; settled = h.settled; here = h.here }, at)
step-IsKept base (becomes true) e r h at =
    (record { dirty = refl; settled = h.settled; here = h.here }, at)
step-IsKept base (becomes false) e r h at = absurd (ground arith)
step-IsKept base saves e r h at = absurd (ground arith)

run-IsKept :
    (base : List ℕ) (xs : List EditorEvent) (e : Editor)
    → all_refuse xs ≡ true
    → IsKept base e
    → At e
    → IsKept base (run xs e) × At (run xs e)
unfolding run
run-IsKept base [] e r h at = (h, at)
run-IsKept base (x ∷ xs) e r h at =
    let (kept, there) = step-IsKept base x e (ground arith) h at in
    run-IsKept base xs (step x e) (ground arith) kept there

-- From an editor with a draft, at its route and not restoring it, over any navigations and questions
-- in which the user never agrees to leave, and without saving, the draft is kept and the window shows
-- a route of the editor with the same base.
pub run-draft_kept :
    (xs : List EditorEvent) (e : Editor)
    → all_refuse xs ≡ true
    → e.dirty ≡ true
    → e.restoring ≡ false
    → e.location ≡ e.route
    → ((run xs e).dirty ≡ true)
      × ((run xs e).location ≡ (run xs e).route)
      × (route_base (run xs e).location ≡ route_base e.location)
run-draft_kept xs e r dirty settled at =
    let start : IsKept (route_base e.location) e = record {
      dirty = dirty;
      settled = settled;
      here = ap route_base (sym at);
    } in
    let (kept, there) = run-IsKept (route_base e.location) xs e r start at in
    (kept.dirty, there, ap route_base there ∙ kept.here)

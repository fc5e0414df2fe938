-- ===== src/Unsaved.antt =====
-- frontend/src/unsaved-changes.ts: the guard of an editor with a draft, with the location of the
-- window. Routes are texts as lists of code points.
pub mod Guard
mod Tests
use ai_erp.Base.{ℕ, ◌+◌, Bool, true, false, not, ◌||◌, List, [], ◌∷◌, ◌++◌, ◌==◌, if◌then◌else◌}
use ai_erp.Base.Text.{text_eq}

-- `dirtyRef`, `routeRef`, `restoringRef`, the location, and how often the user was asked.
pub record Editor : Type 0 where
  pub dirty : Bool
  pub route : List ℕ
  pub restoring : Bool
  pub location : List ℕ
  pub asked : ℕ

-- The text before the first of a character, and the text behind it.
unfoldable pub before : ℕ → List ℕ → List ℕ
before m [] = []
before m (c ∷ s) = if c == m then [] else c ∷ before m s

unfoldable pub behind : ℕ → List ℕ → List ℕ
behind m [] = []
behind m (c ∷ s) = if c == m then s else behind m s

-- `routeBase`: the route without the query of its fragment.
unfoldable pub route_base : List ℕ → List ℕ
unfolding before behind
route_base route = before b'#' route ++ before b'?' (behind b'#' route)

unfoldable pub mark_saved : Editor → Editor
mark_saved e = record e { dirty = false }

-- The effect on `dirty`.
unfoldable pub become : Bool → Editor → Editor
become dirty e = record e { dirty = dirty }

-- `answer` is what `window.confirm` returns if it is called.
unfoldable pub confirm_discard : Bool → Editor → Editor × Bool
confirm_discard answer e =
    if not e.dirty
    then (e, true)
    else (record e { dirty = not answer; asked = e.asked + 1 }, answer)

-- `onRouteChange` while the route is restored.
abbrev pub restored : Editor → Editor
restored e = record e { restoring = false; route = e.location }

-- `replaceState`, and the event that it dispatches, which comes back to `onRouteChange`.
abbrev pub restore : Editor → Editor
restore e = restored (record e { restoring = true; location = e.route })

abbrev pub leave : Editor → Editor
leave e = record e { dirty = false; route = e.location }

unfoldable pub on_route_change : Bool → Editor → Editor
unfolding route_base text_eq
on_route_change answer e =
    if e.restoring
    then restored e
    else if text_eq e.location e.route
    then e
    else if text_eq (route_base e.location) (route_base e.route)
    then record e { route = e.location }
    else if not e.dirty
    then leave e
    else if answer
    then leave (record e { asked = e.asked + 1 })
    else restore (record e { asked = e.asked + 1 })

-- Whether the browser warns before the page is unloaded.
abbrev pub on_before_unload : Editor → Bool
on_before_unload e = e.dirty

-- A navigation calls `onRouteChange` for `popstate` and for `hashchange`, each with its answer.
pub data EditorEvent : Type 0 where
  navigates : List ℕ → Bool → Bool → EditorEvent
  asks : Bool → EditorEvent
  becomes : Bool → EditorEvent
  saves : EditorEvent

unfoldable pub step : EditorEvent → Editor → Editor
unfolding on_route_change confirm_discard become mark_saved
step (navigates next first second) e =
    on_route_change second (on_route_change first (record e { location = next }))
step (asks answer) e = (confirm_discard answer e).0
step (becomes dirty) e = become dirty e
step saves e = mark_saved e

unfoldable pub run : List EditorEvent → Editor → Editor
unfolding step
run [] e = e
run (x ∷ xs) e = run xs (step x e)

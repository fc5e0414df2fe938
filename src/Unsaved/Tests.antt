-- ===== src/Unsaved/Tests.antt =====
-- A draft that the user does not want to leave.
use ai_erp.Base.{◌≡◌, refl, true, false, List, [], ◌∷◌}
use ai_erp.Base.Text.{codes, text_eq}
use ai_erp.Unsaved.{
  Editor, route_base, before, behind, EditorEvent, navigates, run, step, on_route_change,
}
use ai_erp.Unsaved.Guard.{run-draft_kept}

abbrev draft : Editor
draft = record {
  dirty = true;
  route = codes "/#/plan";
  restoring = false;
  location = codes "/#/plan";
  asked = 0;
}

abbrev refused : List EditorEvent
refused =
    navigates (codes "/#/plan?view=b") false false ∷ navigates (codes "/#/files") false false ∷ []

refused-ends :
    run refused draft
    ≡ record draft { route = codes "/#/plan?view=b"; location = codes "/#/plan?view=b"; asked = 1 }
unfolding run step on_route_change route_base before behind text_eq
refused-ends = refl

run-draft_kept_example :
    ((run refused draft).dirty ≡ true)
    × ((run refused draft).location ≡ (run refused draft).route)
    × (route_base (run refused draft).location ≡ route_base (codes "/#/plan"))
run-draft_kept_example = run-draft_kept refused draft refl refl refl refl

-- ===== src/ScheduleForm/Versions.antt =====
-- Which version of a schedule a save is about.
use ai_erp.Base.{
  ℕ, ◌≡◌, refl, arith, Bool, true, false, not, ◌&&◌, Option, none, some, is_some, all, List, [],
  ◌∷◌, All, All-append, if◌then◌else◌, ◌∙◌,
}
use ai_erp.ScheduleForm.{
  Zones, Texts, Schedule, Draft, draft_of, values_read, set_title, set_description, set_start,
  set_end, set_zone, set_member, set_external, set_value,
}
use ai_erp.ScheduleForm.Body.{Access, ScheduleProperty, Built, invalid, built, build_body}
use ai_erp.ScheduleForm.Conflict.{
  Sent, Form, Edit, of_title, of_description, of_external, of_start, of_end, of_zone, of_member,
  of_value, FormEvent, edits, reads_values, submits, answers, retries, takes_latest, rereads,
  changes_query, Answer, accepted, refused, conflicted, apply_edit, is_disabled, sends_nothing,
  on_built, submit, on_answer, on_latest, step, run, form_of,
}

-- The user decides nothing about a conflict.
abbrev pub is_undecided : FormEvent → Bool
is_undecided retries = false
is_undecided takes_latest = false
is_undecided _ = true

abbrev pub IsOf : ℕ → Sent → Type 0
IsOf v q = q.row_version ≡ some v

-- The draft is of version `v`, and so is all that was sent.
abbrev KeepsVersion : ℕ → Form → Type 0
KeepsVersion v f = (f.draft.row_version ≡ some v) × All (IsOf v) f.sent

module _ (zones : Zones) where
  apply_edit-version : (e : Edit) (d : Draft) → (apply_edit zones e d).row_version ≡ d.row_version
  unfolding apply_edit set_title set_description set_start set_end set_zone set_member set_external
      set_value
  apply_edit-version (of_title t) d = refl
  apply_edit-version (of_description t) d = refl
  apply_edit-version (of_external t) d = refl
  apply_edit-version (of_start t) d = ground arith
  apply_edit-version (of_end t) d = refl
  apply_edit-version (of_zone z) d = ground arith
  apply_edit-version (of_member i on) d = refl
  apply_edit-version (of_value i v) d = refl

  if_keeps :
      (v : ℕ) (b : Bool) (g f : Form)
      → KeepsVersion v g
      → KeepsVersion v f
      → KeepsVersion v (if b then g else f)
  if_keeps v true g f h k = h
  if_keeps v false g f h k = k

  on_latest_keeps :
      (v : ℕ) (latest : Option Schedule) (f : Form)
      → KeepsVersion v f
      → KeepsVersion v (on_latest zones latest f)
  on_latest_keeps v none f h = h
  on_latest_keeps v (some s) f h = h

  module _ (texts : Texts) (properties : List ScheduleProperty) (s : Schedule) where
    on_built_keeps :
        (v : ℕ) (b : Built) (f : Form)
        → KeepsVersion v f
        → KeepsVersion v (on_built zones texts properties (some s) (λ g. g) b f)
    on_built_keeps v (invalid e) f h = h
    on_built_keeps v (built b) f (h, k) = (
      h,
      All-append (IsOf v) f.sent
          (record { body = b; row_version = f.draft.row_version; values = f.draft.values } ∷ []) k
          (h, tt),
    )

    on_answer_keeps :
        (v : ℕ) (active still : Bool) (answer : Answer) (f : Form)
        → KeepsVersion v f
        → KeepsVersion v (on_answer zones texts properties (some s) active still answer f)
    unfolding on_answer
    on_answer_keeps v active still accepted f h =
        let f = record f { is_pending = false } in
        if_keeps v active (record f { saved = true }) f h h
    on_answer_keeps v active still (refused access) f h = h
    on_answer_keeps v active still (conflicted latest) f h =
        let f = record f { is_pending = false; is_error = true } in
        if_keeps v (is_some (some s) && active && still) (on_latest zones latest f) f
          (on_latest_keeps v latest f h) h

    step-KeepsVersion :
        (v : ℕ) (a : Access) (e : FormEvent) (f : Form)
        → is_undecided e ≡ true
        → KeepsVersion v f
        → KeepsVersion v (step zones texts properties (some s) a e f)
    unfolding step submit values_read
    step-KeepsVersion v a (edits e) f t (h, k) =
        if_keeps v (is_disabled zones texts properties (some s) a f) f
          (record f { draft = apply_edit zones e f.draft }) (h, k)
          (apply_edit-version e f.draft ∙ h, k)
    step-KeepsVersion v a (reads_values vs) f t (h, k) = (ground (arith, h), k)
    step-KeepsVersion v a submits f t h =
        if_keeps v (sends_nothing zones texts properties (some s) a f) f
          (on_built zones texts properties (some s) (λ g. g)
            (build_body zones texts properties (some s) f.draft) f)
          h (on_built_keeps v (build_body zones texts properties (some s) f.draft) f h)
    step-KeepsVersion v a (answers active still answer) f t h =
        if_keeps v f.is_pending (on_answer zones texts properties (some s) active still answer f) f
          (on_answer_keeps v active still answer f h) h
    step-KeepsVersion v a retries f t h = absurd (ground arith)
    step-KeepsVersion v a takes_latest f t h = absurd (ground arith)
    step-KeepsVersion v a (rereads latest) f t h =
        if_keeps v
          (is_some (some s)
            && f.is_error
            && f.draft.conflict_read_failed
            && not (is_disabled zones texts properties (some s) a f))
          (on_latest zones latest f) f (on_latest_keeps v latest f h) h
    step-KeepsVersion v a (changes_query agrees p) f t h = h

    run-KeepsVersion :
        (v : ℕ) (es : List (Access × FormEvent)) (f : Form)
        → all (λ e. is_undecided e.1) es ≡ true
        → KeepsVersion v f
        → KeepsVersion v (run zones texts properties (some s) es f)
    unfolding run
    run-KeepsVersion v [] f t h = h
    run-KeepsVersion v ((a, e) ∷ es) f t h =
        run-KeepsVersion v es (step zones texts properties (some s) a e f) (ground arith)
          (step-KeepsVersion v a e f (ground arith) h)

    -- Until the user decides about a conflict, whatever is edited and answered and however often it is
    -- submitted, each save of the form of a schedule is about the version that the form was opened with.
    pub run-IsOf :
        (es : List (Access × FormEvent))
        → all (λ e. is_undecided e.1) es ≡ true
        → All
            (IsOf s.row_version)
            (run zones texts properties (some s) es (form_of zones (draft_of zones s))).sent
    run-IsOf es t =
        (run-KeepsVersion s.row_version es (form_of zones (draft_of zones s)) t (refl, tt)).1

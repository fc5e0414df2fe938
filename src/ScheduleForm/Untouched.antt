-- ===== src/ScheduleForm/Untouched.antt =====
-- A schedule whose times are not changed keeps its instants.
use ai_erp.Base.{
  ℕ, ◌≡◌, refl, arith, eq_refl, String, Bool, true, false, Option, none, some, all, List, sym, ◌∙◌,
}
use mathlib.Core.Option.{some_inj}
use ai_erp.ScheduleForm.{
  Zones, Texts, Schedule, Baseline, Draft, seoul, shown, same_local, baseline_of, draft_of,
  set_title, set_description, set_start, set_end, set_zone, set_member, set_external, set_value,
}
use ai_erp.ScheduleForm.Prefill.{Prefilled}
use ai_erp.ScheduleForm.Body.{
  Access, ScheduleProperty, CreateBody, built, known_instant, end_instant, typed_end, build_body,
}
use ai_erp.ScheduleForm.Steps.{Core, core, run_keeps}
use ai_erp.ScheduleForm.Shown.{build_body-built}
use ai_erp.ScheduleForm.Conflict.{
  Edit, of_title, of_description, of_external, of_start, of_end, of_zone, of_member, of_value,
  FormEvent, takes_latest, apply_edit, form_of, reached,
}

pub same_local_refl : (o : Option ℕ) → same_local o o ≡ true
same_local_refl none = refl
same_local_refl (some a) = ground arith

-- The user does not take over the server's latest values.
abbrev pub is_own : FormEvent → Bool
is_own takes_latest = false
is_own _ = true

module _ (zones : Zones) where
  -- The instants that the draft of a schedule goes back to.
  abbrev HasBaseline : Schedule → Core → Type 0
  HasBaseline s c = (c.3 ≡ some (baseline_of zones s seoul)) × (c.2 ≡ none) × (c.1 ≡ true)

  apply_edit-HasBaseline :
      (s : Schedule) (e : Edit) (d : Draft)
      → HasBaseline s (core d)
      → HasBaseline s (core (apply_edit zones e d))
  unfolding apply_edit set_title set_description set_start set_end set_zone set_member set_external
      set_value
  apply_edit-HasBaseline s (of_title t) d h = h
  apply_edit-HasBaseline s (of_description t) d h = h
  apply_edit-HasBaseline s (of_external t) d h = h
  apply_edit-HasBaseline s (of_start t) d (b, a, e) = rw (e) (b, a, refl)
  apply_edit-HasBaseline s (of_end t) d (b, a, e) = (b, refl, refl)
  apply_edit-HasBaseline s (of_zone z) d (b, a, e) = rw (e) (b, a, refl)
  apply_edit-HasBaseline s (of_member i on) d h = h
  apply_edit-HasBaseline s (of_value i v) d h = h

  known_instant-back :
      (local_at : Baseline → Option ℕ) (instant_at : Baseline → ℕ) (b : Baseline)
      (o : Option Baseline) (local : Option ℕ) (z : String)
      → o ≡ some b
      → z ≡ b.zone
      → local ≡ local_at b
      → known_instant zones local_at instant_at o local z ≡ some (instant_at b)
  known_instant-back local_at instant_at b o local z h k l =
      rw (h, k, l, eq_refl b.zone, same_local_refl (local_at b)) refl

  typed_end_only : (d : Draft) → d.automatic_end ≡ none → end_instant zones d ≡ typed_end zones d
  typed_end_only d h = rw h refl

  module _ (texts : Texts) (properties : List ScheduleProperty) where
    -- Whatever else is edited, sent and answered, and also after the times or the zone were changed and
    -- changed back: where the form of a schedule shows its times in its zone again, a save sends exactly
    -- the instants of the schedule, unless the server's latest values were taken over.
    pub reached-baseline_of :
        (s : Schedule) (p : Prefilled) (es : List (Access × FormEvent)) (b : CreateBody)
        → all (λ e. is_own e.1) es ≡ true
        → (reached zones texts properties (some s) p es).fields.zone ≡ seoul
        → (reached zones texts properties (some s) p es).fields.start
          ≡ some (shown zones s.starts_at seoul)
        → (reached zones texts properties (some s) p es).fields.end
          ≡ some (shown zones s.ends_at seoul)
        → build_body zones texts properties (some s) (reached zones texts properties (some s) p es)
          ≡ built b
        → (b.starts_at ≡ s.starts_at) × (b.ends_at ≡ s.ends_at)
    reached-baseline_of s p es b own z k l h =
        let d = reached zones texts properties (some s) p es in
        let known = baseline_of zones s seoul in
        let (starts, ends, good, order) = build_body-built zones texts properties (some s) d b h in
        let (base, automatic, edited) : HasBaseline s (core d) =
          run_keeps zones texts properties (some s) (λ c. HasBaseline s c) is_own
            (λ e d t k. apply_edit-HasBaseline s e d k) (λ s d t k. absurd (ground arith))
            (λ agrees q d new t k. absurd (ground arith)) es (form_of zones (draft_of zones s)) own
            (refl, refl, refl) in
        let from =
          known_instant-back (λ b. b.start_local) (λ b. b.starts_at) known d.baseline d.fields.start
            d.fields.zone base z k in
        let till =
          known_instant-back (λ b. b.end_local) (λ b. b.ends_at) known d.baseline d.fields.end
            d.fields.zone base z l in
        (some_inj.0 (sym starts ∙ from), some_inj.0 (sym ends ∙ typed_end_only d automatic ∙ till))

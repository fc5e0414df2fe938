-- ===== src/ScheduleForm/Hour.antt =====
-- The end of a new schedule follows its start until the user sets it.
use ai_erp.Base.{
  ℕ, ◌+◌, ◌≡◌, refl, arith, String, Bool, true, false, Option, none, some, all, List, Bool-cases,
  inl, inr, ap, sym, ◌∙◌,
}
use mathlib.Core.Option.{some_inj}
use ai_erp.ScheduleForm.{
  Zones, Texts, Baseline, Draft, hour_ms, shown, to_utc, add_local_hour, with_hour, set_title,
  set_description, set_start, set_end, set_zone, set_member, set_external, set_value,
}
use ai_erp.ScheduleForm.Prefill.{context_prefill}
use ai_erp.ScheduleForm.Body.{
  Access, ScheduleProperty, CreateBody, built, known_instant, start_instant, end_instant,
  build_body,
}
use ai_erp.ScheduleForm.Steps.{Core, core, run_keeps}
use ai_erp.ScheduleForm.Shown.{build_body-built}
use ai_erp.ScheduleForm.Conflict.{
  Edit, of_title, of_description, of_external, of_start, of_end, of_zone, of_member, of_value,
  FormEvent, edits, takes_latest, changes_query, apply_edit, form_of, open_draft, reached,
}
use ai_erp.ScheduleForm.Untouched.{same_local_refl}

-- The user does not set the end, and the query stays.
abbrev pub leaves_end : FormEvent → Bool
leaves_end (edits (of_end t)) = false
leaves_end takes_latest = false
leaves_end (changes_query agrees p) = false
leaves_end _ = true

module _ (zones : Zones) where
  -- The end that is shown, and its instant, are an hour after the start, in a valid zone.
  abbrev pub Follows : Core → Type 0
  Follows c =
      (zones.valid_zone c.0.zone ≡ true → c.0.end ≡ (add_local_hour zones c.0.start c.0.zone).local)
      × (zones.valid_zone c.0.zone ≡ true
          → c.2 ≡ (add_local_hour zones c.0.start c.0.zone).instant_at)
      × (c.1 ≡ false)
      × (c.3 ≡ none)

  abbrev zone_set : String → Draft → Draft
  zone_set z d = record d { fields = record d.fields { zone = z } }

  set_zone_valid :
      (z : String) (d : Draft)
      → d.end_edited ≡ false
      → zones.valid_zone z ≡ true
      → set_zone zones z d ≡ with_hour zones (add_local_hour zones d.fields.start z) (zone_set z d)
  unfolding set_zone
  set_zone_valid z d e q = rw (e, q, set_zone) refl

  set_zone_invalid :
      (z : String) (d : Draft) → zones.valid_zone z ≡ false → set_zone zones z d ≡ zone_set z d
  unfolding set_zone
  set_zone_invalid z d q = ground (arith, q)

  set_zone-Follows :
      (z : String) (d : Draft) → Follows (core d) → Follows (core (set_zone zones z d))
  set_zone-Follows z d (l, i, e, n) = elim (Bool-cases (zones.valid_zone z)) [
    | inl q ↦ rw (set_zone_valid z d e q) (λ good. refl, λ good. refl, e, n)
    | inr q ↦
        rw (set_zone_invalid z d q)
          (λ good. absurd (ground (arith, q)), λ good. absurd (ground (arith, q)), e, n)
  ]

  apply_edit-Follows :
      (e : Edit) (d : Draft)
      → leaves_end (edits e) ≡ true
      → Follows (core d)
      → Follows (core (apply_edit zones e d))
  unfolding apply_edit set_title set_description set_start set_end set_zone set_member set_external
      set_value
  apply_edit-Follows (of_title t) d own h = h
  apply_edit-Follows (of_description t) d own h = h
  apply_edit-Follows (of_external t) d own h = h
  apply_edit-Follows (of_start t) d own (l, i, e, n) = rw (e) (λ good. refl, λ good. refl, refl, n)
  apply_edit-Follows (of_end t) d own h = absurd (ground arith)
  apply_edit-Follows (of_zone z) d own (l, i, e, n) = set_zone-Follows z d (l, i, e, n)
  apply_edit-Follows (of_member i on) d own h = h
  apply_edit-Follows (of_value i v) d own h = h

  -- What an hour after a start that is a time of the zone is.
  add_local_hour-some :
      (local : Option ℕ) (z : String) (t : ℕ)
      → to_utc zones local z ≡ some t
      → add_local_hour zones local z
        ≡ record { local = some (shown zones (t + hour_ms) z); instant_at = some (t + hour_ms) }
  unfolding add_local_hour
  add_local_hour-some local z t h = rw (h, add_local_hour) refl

  known_instant-none :
      (o : Option Baseline) (local : Option ℕ) (z : String)
      → o ≡ none
      → known_instant zones (λ b. b.start_local) (λ b. b.starts_at) o local z ≡ to_utc zones local z
  known_instant-none o local z h = rw h refl

  Follows-ends :
      (d : Draft) (s : ℕ)
      → Follows (core d)
      → zones.valid_zone d.fields.zone ≡ true
      → start_instant zones d ≡ some s
      → end_instant zones d ≡ some (s + hour_ms)
  Follows-ends d s (shows, follows, edited, base) good h =
      let z = d.fields.zone in
      let typed : to_utc zones d.fields.start z ≡ some s =
        sym (known_instant-none d.baseline d.fields.start z base) ∙ h in
      let hour = add_local_hour-some d.fields.start z s typed in
      let shown_end : d.fields.end ≡ some (shown zones (s + hour_ms) z) =
        shows good ∙ ap (λ l. l.local) hour in
      let automatic : d.automatic_end ≡ some (s + hour_ms) =
        follows good ∙ ap (λ l. l.instant_at) hour in
      rw (automatic, edited, shown_end, same_local_refl (some (shown zones (s + hour_ms) z))) refl

  -- The prefilled draft of a query without a usable end.
  opened-Follows :
      (now : ℕ) (date start_param : Option ℕ) (zone_param : Option String)
      → Follows (
          core (open_draft zones none (context_prefill zones now date start_param none zone_param)))
  unfolding context_prefill
  opened-Follows now date start_param zone_param = (λ good. refl, λ good. refl, refl, refl)

  module _ (texts : Texts) (properties : List ScheduleProperty) where
    -- The form of a new schedule, opened by a query without a usable end: as long as the user does not
    -- set the end and the query stays, whatever start, zone and other fields are set and whatever is
    -- sent and answered, a save would send an end exactly one hour after the start.
    pub reached-hour_ms :
        (now : ℕ) (date start_param : Option ℕ) (zone_param : Option String)
        (es : List (Access × FormEvent)) (b : CreateBody)
        → all (λ e. leaves_end e.1) es ≡ true
        → build_body zones texts properties none (
            reached zones texts properties none
              (context_prefill zones now date start_param none zone_param)
              es)
          ≡ built b
        → b.ends_at ≡ b.starts_at + hour_ms
    reached-hour_ms now date start_param zone_param es b own h =
        let p = context_prefill zones now date start_param none zone_param in
        let d = reached zones texts properties none p es in
        let (starts, ends, good, order) = build_body-built zones texts properties none d b h in
        let follows : Follows (core d) =
          run_keeps zones texts properties none (λ c. Follows c) leaves_end apply_edit-Follows
            (λ s d t k. absurd (ground arith)) (λ agrees q d new t k. absurd (ground arith)) es
            (form_of zones (open_draft zones none p)) own
            (opened-Follows now date start_param zone_param) in
        some_inj.0 (sym ends ∙ Follows-ends d b.starts_at follows good starts)

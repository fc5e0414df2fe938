-- ===== src/ScheduleForm/Shown.antt =====
-- What a save sends is what the form's fields show.
use ai_erp.Base.{
  ℕ, ◌/◌, ◌<◌, ◌≡◌, refl, arith, str_eq, eq_iff, String, Bool, true, false, not, ◌&&◌, ◌||◌, Option,
  none, some, is_some, all, List, [], ◌∷◌, Bool-cases, Option-cases, inl, inr, ap, sym, ◌∙◌,
}
use mathlib.Core.Option.{some_inj}
use ai_erp.Time.Resolve.{
  Resolved, instant, malformed, unknown_zone, no_such_time, ambiguous, local_date_time_to_utc,
}
use ai_erp.Calendar.Changes.Moves.{local_date_time_to_utc-shows}
use ai_erp.ScheduleForm.{
  Zones, Texts, Schedule, Baseline, Draft, minute_ms, seoul, to_ms, shown, to_utc, same_local,
  baseline_of, set_title, set_description, set_start, set_end, set_zone, set_member, set_external,
  set_value,
}
use ai_erp.ScheduleForm.Prefill.{Prefilled, on_query_change}
use ai_erp.ScheduleForm.Body.{
  Access, ScheduleProperty, FormErrors, CreateBody, built, known_instant, start_instant, typed_end,
  end_instant, errors_of, has_errors, checked_body, ends_early, build_body,
}
use ai_erp.ScheduleForm.Steps.{run_keeps}
use ai_erp.ScheduleForm.Conflict.{
  Edit, of_title, of_description, of_external, of_start, of_end, of_zone, of_member, of_value,
  FormEvent, apply_edit, apply_latest, form_of, open_draft, reached,
}

same_local-eq : (a b : Option ℕ) → same_local a b ≡ true → a ≡ b
same_local-eq none none h = refl
same_local-eq none (some b) h = absurd (ground arith)
same_local-eq (some a) none h = absurd (ground arith)
same_local-eq (some a) (some b) h = ground arith

all_events : (es : List (Access × FormEvent)) → all (λ e. true) es ≡ true
all_events [] = refl
all_events (e ∷ es) = all_events es

module _ (zones : Zones) where
  -- A baseline whose local times are those of its instants.
  abbrev pub IsShown : Option Baseline → Type 0
  IsShown o =
      (b : Baseline)
      → o ≡ some b
      → (b.start_local ≡ some (shown zones b.starts_at b.zone))
        × (b.end_local ≡ some (shown zones b.ends_at b.zone))

  resolved-shows :
      (local t : ℕ) (good : Bool) (z : String) (r : Resolved)
      → local_date_time_to_utc (zones.zone_local z) good (some local) ≡ r
      → to_ms r ≡ some t
      → local ≡ shown zones t z
  unfolding local_date_time_to_utc
  resolved-shows local t true z (instant i) e h =
      let there = local_date_time_to_utc-shows (zones.zone_local z) local i e in
      let same : t / minute_ms ≡ i = ground arith in sym (ap (zones.zone_local z) same ∙ there)
  resolved-shows local t false z (instant i) e h = absurd (ground (arith, e))
  resolved-shows local t good z malformed e h = absurd (ground arith)
  resolved-shows local t good z unknown_zone e h = absurd (ground arith)
  resolved-shows local t good z no_such_time e h = absurd (ground arith)
  resolved-shows local t good z ambiguous e h = absurd (ground arith)

  pub to_utc_shows :
      (local : Option ℕ) (z : String) (t : ℕ)
      → to_utc zones local z ≡ some t
      → local ≡ some (shown zones t z)
  unfolding to_utc local_date_time_to_utc
  to_utc_shows none z t h = absurd (ground arith)
  to_utc_shows (some local) z t h = ap some (
      resolved-shows local t (zones.valid_zone z) z
        (local_date_time_to_utc (zones.zone_local z) (zones.valid_zone z) (some local)) refl h)

  known_shows :
      (local_at : Baseline → Option ℕ) (instant_at : Baseline → ℕ) (o : Option Baseline)
      (local : Option ℕ) (z : String) (t : ℕ)
      → ((b : Baseline) → o ≡ some b → local_at b ≡ some (shown zones (instant_at b) b.zone))
      → known_instant zones local_at instant_at o local z ≡ some t
      → local ≡ some (shown zones t z)
  known_shows local_at instant_at none local z t ok h = to_utc_shows local z t h
  known_shows local_at instant_at (some b) local z t ok h =
      elim (Bool-cases (str_eq z b.zone && same_local local (local_at b))) [
        | inl q ↦
            let here : instant_at b ≡ t = ground (arith, h, q) in
            let same : z ≡ b.zone = (eq_iff z b.zone).0 (ground arith) in
            let stands : local ≡ local_at b = same_local-eq local (local_at b) (ground arith) in
            rw (same, sym here) (stands ∙ ok b refl)
        | inr q ↦ to_utc_shows local z t (ground (arith, h, q))
      ]

  start_shows :
      (d : Draft) (t : ℕ)
      → IsShown d.baseline
      → start_instant zones d ≡ some t
      → d.fields.start ≡ some (shown zones t d.fields.zone)
  start_shows d t ok h =
      known_shows (λ b. b.start_local) (λ b. b.starts_at) d.baseline d.fields.start d.fields.zone t
        (λ b e. (ok b e).0) h

  typed_end_shows :
      (d : Draft) (t : ℕ)
      → IsShown d.baseline
      → typed_end zones d ≡ some t
      → d.fields.end ≡ some (shown zones t d.fields.zone)
  typed_end_shows d t ok h =
      known_shows (λ b. b.end_local) (λ b. b.ends_at) d.baseline d.fields.end d.fields.zone t
        (λ b e. (ok b e).1) h

  end_shows :
      (d : Draft) (t : ℕ)
      → IsShown d.baseline
      → end_instant zones d ≡ some t
      → d.fields.end ≡ some (shown zones t d.fields.zone)
  end_shows d t ok h = elim (Option-cases d.automatic_end) [
    | inl q ↦ typed_end_shows d t ok (ground (arith, h, q))
    | inr (a, q) ↦
        elim (Bool-cases
          (not d.end_edited && same_local d.fields.end (some (shown zones a d.fields.zone)))) [
            | inl r ↦
                let here : a ≡ t = ground (arith, h, q, r) in
                let stands =
                  same_local-eq d.fields.end (some (shown zones a d.fields.zone)) (ground arith) in
                rw (sym here) stands
            | inr r ↦ typed_end_shows d t ok (ground (arith, h, q, r))
          ]
  ]

  -- No edit touches the baseline.
  pub apply_edit-baseline : (e : Edit) (d : Draft) → (apply_edit zones e d).baseline ≡ d.baseline
  unfolding apply_edit set_title set_description set_start set_end set_zone set_member set_external
      set_value
  apply_edit-baseline (of_title t) d = refl
  apply_edit-baseline (of_description t) d = refl
  apply_edit-baseline (of_external t) d = refl
  apply_edit-baseline (of_start t) d = ground arith
  apply_edit-baseline (of_end t) d = refl
  apply_edit-baseline (of_zone z) d = ground arith
  apply_edit-baseline (of_member i on) d = refl
  apply_edit-baseline (of_value i v) d = refl

  on_query_change-baseline :
      (agrees : Bool) (p : Prefilled) (d : Draft)
      → (on_query_change zones agrees p d).baseline ≡ d.baseline
  unfolding on_query_change
  on_query_change-baseline true p d = refl
  on_query_change-baseline false p d = refl

  module _ (texts : Texts) (properties : List ScheduleProperty) (snapshot : Option Schedule) where
    checked_built :
        (d : Draft) (errors : FormErrors) (s e : Option ℕ) (b : CreateBody)
        → checked_body zones texts properties snapshot d errors s e ≡ built b
        → (s ≡ some b.starts_at) × (e ≡ some b.ends_at) × (has_errors errors ≡ false)
    checked_built d errors (some s) (some e) b h = (ground arith, ground arith, ground arith)
    checked_built d errors (some s) none b h = absurd (ground arith)
    checked_built d errors none (some e) b h = absurd (ground arith)
    checked_built d errors none none b h = absurd (ground arith)

    no_errors : (e : FormErrors) → has_errors e ≡ false → (e.zone ≡ false) × (e.end ≡ false)
    no_errors e h = (ground (arith, h), ground (arith, h))

    in_order :
        (good : Bool) (s e : Option ℕ) (x y : ℕ)
        → s ≡ some x
        → e ≡ some y
        → good ≡ true
        → (good && (not (is_some e) || ends_early s e)) ≡ false
        → x < y
    in_order good s e x y h k g l = ground (arith, h, k, g, l)

    -- What a draft without errors is checked for.
    pub build_body-built :
        (d : Draft) (b : CreateBody)
        → build_body zones texts properties snapshot d ≡ built b
        → (start_instant zones d ≡ some b.starts_at)
          × (end_instant zones d ≡ some b.ends_at)
          × (zones.valid_zone d.fields.zone ≡ true)
          × (b.starts_at < b.ends_at)
    unfolding build_body
    build_body-built d b h =
        let start = start_instant zones d in
        let end = end_instant zones d in
        let errors = errors_of zones texts properties snapshot d start end in
        let (s, e, none_wrong) = checked_built d errors start end b h in
        let (zone_right, end_right) = no_errors errors none_wrong in
        let good : zones.valid_zone d.fields.zone ≡ true = ground (arith, zone_right) in
        (
          s,
          e,
          good,
          in_order (zones.valid_zone d.fields.zone) start end b.starts_at b.ends_at s e good
              end_right,
        )

    baseline_shows : (s : Schedule) (z : String) → IsShown (some (baseline_of zones s z))
    baseline_shows s z b e =
        let same : baseline_of zones s z ≡ b = some_inj.0 e in rw (sym same) (refl, refl)

    opened_shows : (p : Prefilled) → IsShown (open_draft zones snapshot p).baseline
    opened_shows p = elim (Option-cases snapshot) [
      | inl q ↦ rw (q) (λ b e. absurd (ground arith))
      | inr (s, q) ↦ rw (q) (baseline_shows s seoul)
    ]

    -- Whatever is edited, sent, answered and taken over from the server, what a save would send shows as
    -- the two times in the fields, in the zone of the form, which is valid, and ends after it starts.
    pub run-shown :
        (p : Prefilled) (es : List (Access × FormEvent)) (b : CreateBody)
        → build_body zones texts properties snapshot (reached zones texts properties snapshot p es)
          ≡ built b
        → (let d = reached zones texts properties snapshot p es in
            (d.fields.start ≡ some (shown zones b.starts_at d.fields.zone))
            × (d.fields.end ≡ some (shown zones b.ends_at d.fields.zone))
            × (zones.valid_zone d.fields.zone ≡ true)
            × (b.starts_at < b.ends_at))
    unfolding apply_latest on_query_change
    run-shown p es b h =
        let d = reached zones texts properties snapshot p es in
        let (s, e, good, order) = build_body-built d b h in
        let kept : IsShown d.baseline =
          run_keeps zones texts properties snapshot (λ c. IsShown c.3) (λ e. true)
            (λ e d t k. rw (apply_edit-baseline e d) k) (λ s d t k. baseline_shows s d.fields.zone)
            (λ agrees q d new t k. rw (on_query_change-baseline agrees q d) k) es
            (form_of zones (open_draft zones snapshot p)) (all_events es) (opened_shows p) in
        (start_shows d b.starts_at kept s, end_shows d b.ends_at kept e, good, order)

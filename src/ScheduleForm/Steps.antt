-- ===== src/ScheduleForm/Steps.antt =====
-- What an event leaves of a draft's times, and induction over the events of a form.
use ai_erp.Base.{
  ℕ, ◌≡◌, refl, arith, Bool, true, false, not, ◌&&◌, Option, none, some, is_some, List, [], ◌∷◌,
  if◌then◌else◌, all, Bool-cases, Option-cases, inl, inr, sym, subst,
}
use ai_erp.ScheduleForm.{Zones, Texts, Schedule, Baseline, Fields, Draft, values_read}
use ai_erp.ScheduleForm.Prefill.{Prefilled, on_query_change}
use ai_erp.ScheduleForm.Body.{Access, ScheduleProperty, Built, invalid, built, build_body}
use ai_erp.ScheduleForm.Conflict.{
  Form, Edit, FormEvent, edits, reads_values, submits, answers, retries, takes_latest, rereads,
  changes_query, Answer, accepted, refused, conflicted, apply_edit, apply_latest, reset,
  settle_conflict, is_disabled, sends_nothing, on_built, submit, on_answer, on_conflict, on_latest,
  step, run,
}

-- The part of a draft that its times depend on.
abbrev pub Core : Type 0
Core = Fields × Bool × Option ℕ × Option Baseline

abbrev pub core : Draft → Core
core d = (d.fields, d.end_edited, d.automatic_end, d.baseline)

module _ (zones : Zones) (texts : Texts) (properties : List ScheduleProperty)
    (snapshot : Option Schedule) where
  if_core :
      (b : Bool) (g f : Form)
      → core g.draft ≡ core f.draft
      → core (if b then g else f).draft ≡ core f.draft
  if_core true g f h = h
  if_core false g f h = refl

  on_built-core :
      (before : Form → Form) (b : Built) (f : Form)
      → ((g : Form) → core (before g).draft ≡ core g.draft)
      → core (on_built zones texts properties snapshot before b f).draft ≡ core f.draft
  on_built-core before (invalid e) f same = refl
  on_built-core before (built b) f same = same (record (reset zones f) { errors = none })

  submit-core :
      (a : Access) (before : Form → Form) (f : Form)
      → ((g : Form) → core (before g).draft ≡ core g.draft)
      → core (submit zones texts properties snapshot a before f).draft ≡ core f.draft
  unfolding submit
  submit-core a before f same =
      elim (Bool-cases (sends_nothing zones texts properties snapshot a f)) [
        | inl q ↦ rw (q) refl
        | inr q ↦
            rw (q)
              (on_built-core before (build_body zones texts properties snapshot f.draft) f same)
      ]

  on_latest-core :
      (latest : Option Schedule) (f : Form) → core (on_latest zones latest f).draft ≡ core f.draft
  on_latest-core none f = refl
  on_latest-core (some s) f = refl

  on_answer-core :
      (active still : Bool) (answer : Answer) (f : Form)
      → core (on_answer zones texts properties snapshot active still answer f).draft ≡ core f.draft
  unfolding on_answer
  on_answer-core active still accepted f = ground arith
  on_answer-core active still (refused access) f = refl
  on_answer-core active still (conflicted latest) f =
      let f = record f { is_pending = false; is_error = true } in
      if_core (is_some snapshot && active && still) (on_latest zones latest f) f
        (on_latest-core latest f)

  retry-core :
      (a : Access) (f : Form)
      → core (step zones texts properties snapshot a retries f).draft ≡ core f.draft
  unfolding step on_conflict
  retry-core a f = elim (Option-cases f.draft.conflict) [
    | inl q ↦ rw (q, step, on_conflict) refl
    | inr (s, q) ↦
        rw (q, step, on_conflict)
          (if_core f.is_error
            (submit zones texts properties snapshot a
              (settle_conflict zones texts properties snapshot s) f)
            f (submit-core a (settle_conflict zones texts properties snapshot s) f (λ g. refl)))
  ]

  -- Only edits, the latest values, and a new query touch the times.
  abbrev pub is_quiet : FormEvent → Bool
  is_quiet (edits e) = false
  is_quiet takes_latest = false
  is_quiet (changes_query agrees p) = false
  is_quiet _ = true

  pub step-core :
      (a : Access) (e : FormEvent) (f : Form)
      → is_quiet e ≡ true
      → core (step zones texts properties snapshot a e f).draft ≡ core f.draft
  unfolding step values_read
  step-core a (edits e) f h = absurd (ground arith)
  step-core a (reads_values vs) f h = elim (Bool-cases f.draft.values_dirty) [
    | inl q ↦ rw (q, step, values_read) refl
    | inr q ↦ rw (q, step, values_read) refl
  ]
  step-core a submits f h = submit-core a (λ g. g) f (λ g. refl)
  step-core a (answers active still answer) f h =
      if_core f.is_pending (on_answer zones texts properties snapshot active still answer f) f
        (on_answer-core active still answer f)
  step-core a retries f h = retry-core a f
  step-core a takes_latest f h = absurd (ground arith)
  step-core a (rereads latest) f h =
      if_core
        (is_some snapshot
          && f.is_error
          && f.draft.conflict_read_failed
          && not (is_disabled zones texts properties snapshot a f))
        (on_latest zones latest f) f (on_latest-core latest f)
  step-core a (changes_query agrees p) f h = absurd (ground arith)

  -- `P` of a draft's times, along events that pass a test.
  module _ {ℓ} (P : Core → Type ℓ) (test : FormEvent → Bool)
      (edit : (e : Edit) (d : Draft)
        → test (edits e) ≡ true
        → P (core d)
        → P (core (apply_edit zones e d)))
      (latest : (s : Schedule) (d : Draft)
        → test takes_latest ≡ true
        → P (core d)
        → P (core (apply_latest zones s d)))
      (query : (agrees : Bool) (p : Prefilled) (d : Draft)
        → snapshot ≡ none
        → test (changes_query agrees p) ≡ true
        → P (core d)
        → P (core (on_query_change zones agrees p d))) where
    quiet_keeps :
        (a : Access) (e : FormEvent) (f : Form)
        → is_quiet e ≡ true
        → P (core f.draft)
        → P (core (step zones texts properties snapshot a e f).draft)
    quiet_keeps a e f h k = subst P (sym (step-core a e f h)) k

    step_keeps :
        (a : Access) (e : FormEvent) (f : Form)
        → test e ≡ true
        → P (core f.draft)
        → P (core (step zones texts properties snapshot a e f).draft)
    unfolding step on_conflict
    step_keeps a (edits e) f t k =
        elim (Bool-cases (is_disabled zones texts properties snapshot a f)) [
          | inl q ↦ rw (q, step) k
          | inr q ↦ rw (q, step) (edit e f.draft t k)
        ]
    step_keeps a (reads_values vs) f t k = quiet_keeps a (reads_values vs) f refl k
    step_keeps a submits f t k = quiet_keeps a submits f refl k
    step_keeps a (answers active still answer) f t k =
        quiet_keeps a (answers active still answer) f refl k
    step_keeps a retries f t k = quiet_keeps a retries f refl k
    step_keeps a takes_latest f t k = elim (Option-cases f.draft.conflict) [
      | inl q ↦ rw (q, step, on_conflict) k
      | inr (s, q) ↦ elim (Bool-cases f.is_error) [
        | inl r ↦ rw (q, r, step, on_conflict) (latest s f.draft t k)
        | inr r ↦ rw (q, r, step, on_conflict) k
      ]
    ]
    step_keeps a (rereads l) f t k = quiet_keeps a (rereads l) f refl k
    step_keeps a (changes_query agrees p) f t k = elim (Option-cases snapshot) [
      | inl q ↦ rw (q, step) (query agrees p f.draft q t k)
      | inr (s, q) ↦ rw (q, step) k
    ]

    pub run_keeps :
        (es : List (Access × FormEvent)) (f : Form)
        → all (λ e. test e.1) es ≡ true
        → P (core f.draft)
        → P (core (run zones texts properties snapshot es f).draft)
    unfolding run
    run_keeps [] f t k = k
    run_keeps ((a, e) ∷ es) f t k =
        run_keeps es (step zones texts properties snapshot a e f) (ground arith)
          (step_keeps a e f (ground arith) k)

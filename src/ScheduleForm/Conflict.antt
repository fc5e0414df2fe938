-- ===== src/ScheduleForm/Conflict.antt =====
-- The form over its saves: `submit`, the answers, and what the user makes of a conflict.
use ai_erp.Base.{
  ℕ, String, Bool, true, false, not, ◌&&◌, ◌||◌, Option, none, some, is_some, List, [], ◌∷◌, ◌++◌,
  if◌then◌else◌,
}
use ai_erp.Base.Dict.{Dict}
use ai_erp.ScheduleForm.{
  Zones, Texts, Value, Schedule, Draft, draft_of, fields_of, baseline_of, set_title,
  set_description, set_start, set_end, set_zone, set_member, set_external, set_value, values_read,
}
use ai_erp.ScheduleForm.Prefill.{Prefilled, new_draft, on_query_change}
use ai_erp.ScheduleForm.Body.{
  Access, ScheduleProperty, FormErrors, CreateBody, Built, invalid, built, build_body,
}

-- What `save` sends; a new schedule has no version.
pub record Sent : Type 0 where
  pub body : CreateBody
  pub row_version : Option ℕ
  pub values : Dict Value

-- The draft, the errors that are shown, and the mutation `save`; `denied` is its access error.
pub record Form : Type 0 where
  pub draft : Draft
  pub errors : Option FormErrors
  pub is_pending : Bool
  pub is_error : Bool
  pub denied : Bool
  pub saved : Bool
  pub sent : List Sent

-- How a save ends. With 409 the latest schedule is read, `none` where that fails.
pub data Answer : Type 0 where
  accepted : Answer
  refused : Bool → Answer
  conflicted : Option Schedule → Answer

pub data Edit : Type 0 where
  of_title of_description of_external : List ℕ → Edit
  of_start of_end : Option ℕ → Edit
  of_zone : String → Edit
  of_member : String → Bool → Edit
  of_value : String → Value → Edit

-- In an answer, whether the session is active when it comes, and after the read of the latest.
pub data FormEvent : Type 0 where
  edits : Edit → FormEvent
  reads_values : Dict Value → FormEvent
  submits : FormEvent
  answers : Bool → Bool → Answer → FormEvent
  retries : FormEvent
  takes_latest : FormEvent
  rereads : Option Schedule → FormEvent
  changes_query : Bool → Prefilled → FormEvent

module _ (zones : Zones) where
  unfoldable pub apply_edit : Edit → Draft → Draft
  unfolding set_title set_description set_start set_end set_zone set_member set_external set_value
  apply_edit (of_title t) d = set_title zones t d
  apply_edit (of_description t) d = set_description zones t d
  apply_edit (of_external t) d = set_external zones t d
  apply_edit (of_start t) d = set_start zones t d
  apply_edit (of_end t) d = set_end zones t d
  apply_edit (of_zone z) d = set_zone zones z d
  apply_edit (of_member id on) d = set_member zones id on d
  apply_edit (of_value id v) d = set_value zones id v d

  -- The button that takes the server's latest values.
  unfoldable pub apply_latest : Schedule → Draft → Draft
  apply_latest s d =
      let zone = d.fields.zone in
      record d {
        fields = fields_of zones s zone;
        initial = fields_of zones s zone;
        end_edited = true;
        automatic_end = none;
        baseline = some (baseline_of zones s zone);
        row_version = some s.row_version;
        conflict = none;
      }

  abbrev pub reset : Form → Form
  reset f = record f { is_error = false; denied = false }

  -- `save.mutate(body)`
  abbrev pub mutate : CreateBody → Form → Form
  mutate body f =
      let d = f.draft in
      let request : Sent = record { body = body; row_version = d.row_version; values = d.values } in
      record f { is_pending = true; sent = f.sent ++ request ∷ [] }

  -- `latest` is shown beside the draft.
  abbrev pub on_latest : Option Schedule → Form → Form
  on_latest none f = record f { draft = record f.draft { conflict_read_failed = true } }
  on_latest (some s) f = record f {
    draft = record f.draft { conflict = some s; conflict_read_failed = false };
  }

  module _ (texts : Texts) (properties : List ScheduleProperty) (snapshot : Option Schedule) where
    abbrev pub is_disabled : Access → Form → Bool
    is_disabled a f =
        not a.editable || f.is_pending || f.denied || a.write_denied || not a.metadata_ready

    abbrev pub sends_nothing : Access → Form → Bool
    sends_nothing a f = is_disabled a f || not a.members_ready || not a.access_ready

    abbrev pub on_built : (Form → Form) → Built → Form → Form
    on_built before (invalid e) f = record (reset f) { errors = some e }
    on_built before (built b) f = mutate b (before (record (reset f) { errors = none }))

    -- The draft is checked, and sent if nothing is wrong with it, after `before`.
    unfoldable pub submit : Access → (Form → Form) → Form → Form
    unfolding build_body
    submit a before f =
        if sends_nothing a f
        then f
        else on_built before (build_body zones texts properties snapshot f.draft) f

    unfoldable pub on_answer : Bool → Bool → Answer → Form → Form
    on_answer active still accepted f =
        let f = record f { is_pending = false } in if active then record f { saved = true } else f
    on_answer active still (refused access) f = record f {
      is_pending = false;
      is_error = true;
      denied = access;
    }
    on_answer active still (conflicted latest) f =
        let f = record f { is_pending = false; is_error = true } in
        if is_some snapshot && active && still then on_latest latest f else f

    abbrev pub settle_conflict : Schedule → Form → Form
    settle_conflict s f = record f {
      draft = record f.draft { row_version = some s.row_version; conflict = none };
    }

    -- The two buttons of a conflict are there while the save's error is shown.
    unfoldable pub on_conflict : (Schedule → Form → Form) → Form → Form
    on_conflict act f = elim f.draft.conflict [
      | none ↦ f
      | some s ↦ if f.is_error then act s f else f
    ]

    -- An edit that is open to the user, and the other events.
    unfoldable pub step : Access → FormEvent → Form → Form
    unfolding apply_edit apply_latest submit on_answer on_conflict values_read on_query_change
    step a (edits e) f = if is_disabled a f then f else record f { draft = apply_edit e f.draft }
    step a (reads_values vs) f = record f { draft = values_read zones vs f.draft }
    step a submits f = submit a (λ g. g) f
    step a (answers active still answer) f =
        if f.is_pending then on_answer active still answer f else f
    step a retries f = on_conflict (λ s. submit a (settle_conflict s)) f
    step a takes_latest f =
        on_conflict (λ s g. reset (record g { draft = apply_latest s g.draft })) f
    step a (rereads latest) f =
        if is_some snapshot && f.is_error && f.draft.conflict_read_failed && not (is_disabled a f)
        then on_latest latest f
        else f
    step a (changes_query agrees p) f = if is_some snapshot then f else record f {
      draft = on_query_change zones agrees p f.draft;
      errors = if agrees then none else f.errors;
    }

    -- Events with what is known of the rights at each.
    unfoldable pub run : List (Access × FormEvent) → Form → Form
    unfolding step
    run [] f = f
    run ((a, e) ∷ es) f = run es (step a e f)

  abbrev pub form_of : Draft → Form
  form_of d = record {
    draft = d;
    errors = none;
    is_pending = false;
    is_error = false;
    denied = false;
    saved = false;
    sent = [];
  }

  -- The form as it opens: for a schedule, or prefilled.
  abbrev pub open_draft : Option Schedule → Prefilled → Draft
  open_draft none p = new_draft zones p
  open_draft (some s) p = draft_of zones s

  -- The draft after the events.
  abbrev pub reached :
      Texts
      → List ScheduleProperty
      → Option Schedule
      → Prefilled
      → List (Access × FormEvent)
      → Draft
  reached texts properties snapshot p es =
      (run texts properties snapshot es (form_of (open_draft snapshot p))).draft

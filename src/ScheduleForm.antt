-- ===== src/ScheduleForm.antt =====
-- frontend/src/screens/ScheduleForm.tsx: the draft of a schedule and its edits. Instants are whole
-- milliseconds, local times minutes, `none` where a field holds no date and time.
pub mod Prefill
pub mod Emails
pub mod Body
pub mod Conflict
pub mod Steps
pub mod Shown
pub mod Untouched
pub mod Hour
pub mod Versions
pub mod Rights
mod Tests
use ai_erp.Base.{
  ℕ, ◌+◌, ◌*◌, ◌/◌, ◌==◌, str_eq, String, Bool, true, false, not, ◌&&◌, ◌||◌, Option, none, some,
  List, [], ◌∷◌, ◌++◌, any, select, map, if◌then◌else◌,
}
use ai_erp.Base.Text.{codes, text_eq, is_empty}
use ai_erp.Base.Dict.{Dict, put}
use ai_erp.Time.Resolve.{Resolved, instant, local_date_time_to_utc}

-- The zones, as `Intl` knows them: the local time that a zone shows at a minute, and which names are
-- those of zones.
pub record Zones : Type 0 where
  pub zone_local : String → ℕ → ℕ
  pub valid_zone : String → Bool

-- The class `\s` of regular expressions, and the method `trim` of texts.
pub record Texts : Type 0 where
  pub is_space : ℕ → Bool
  pub trim : List ℕ → List ℕ

-- The value of a property. A number that is not finite is `not_finite`.
pub data Value : Type 0 where
  unset : Value
  text_value : List ℕ → Value
  checked : Bool → Value
  finite : ℕ → Value
  not_finite : Value

pub record Participant : Type 0 where
  pub member_user_id : Option String
  pub external_email : Option (List ℕ)

-- `Schedule`, as far as the form reads it.
pub record Schedule : Type 0 where
  pub id : String
  pub title : List ℕ
  pub description : Option (List ℕ)
  pub starts_at : ℕ
  pub ends_at : ℕ
  pub participants : List Participant
  pub row_version : ℕ

-- `instantBaseline`
pub record Baseline : Type 0 where
  pub zone : String
  pub start_local : Option ℕ
  pub end_local : Option ℕ
  pub starts_at : ℕ
  pub ends_at : ℕ

-- `initialDraft`
pub record Fields : Type 0 where
  pub title : List ℕ
  pub description : List ℕ
  pub zone : String
  pub start : Option ℕ
  pub end : Option ℕ
  pub ids : List String
  pub external : List ℕ

pub record Draft : Type 0 where
  pub fields : Fields
  pub initial : Fields
  pub end_edited : Bool
  pub automatic_end : Option ℕ
  pub baseline : Option Baseline
  pub row_version : Option ℕ
  pub values : Dict Value
  pub values_dirty : Bool
  pub conflict : Option Schedule
  pub conflict_read_failed : Bool

abbrev pub minute_ms : ℕ
minute_ms = 60000

abbrev pub hour_ms : ℕ
hour_ms = 3600000

abbrev pub seoul : String
seoul = "Asia/Seoul"

-- What `addLocalHour` returns, and `contextPrefill`'s fields of times.
pub record LocalHour : Type 0 where
  pub local : Option ℕ
  pub instant_at : Option ℕ

abbrev pub to_ms : Resolved → Option ℕ
to_ms (instant t) = some (t * minute_ms)
to_ms _ = none

abbrev pub member_ids : List Participant → List String
member_ids [] = []
member_ids (p ∷ ps) = elim p.member_user_id [ none ↦ member_ids ps | some id ↦ id ∷ member_ids ps ]

abbrev pub emails_of : List Participant → List (List ℕ)
emails_of [] = []
emails_of (p ∷ ps) = elim p.external_email [ none ↦ emails_of ps | some e ↦ e ∷ emails_of ps ]

-- `.join(between)`
unfoldable pub joined : List ℕ → List (List ℕ) → List ℕ
joined between [] = []
joined between (e ∷ []) = e
joined between (e ∷ f ∷ es) = e ++ between ++ joined between (f ∷ es)

-- `description ?? ""`
abbrev pub or_empty : Option (List ℕ) → List ℕ
or_empty none = []
or_empty (some t) = t

abbrev pub same_local : Option ℕ → Option ℕ → Bool
same_local none none = true
same_local (some a) (some b) = a == b
same_local _ _ = false

abbrev pub id_text : List String → List ℕ
id_text ids = joined (codes ",") (map codes ids)

-- `dirty`
unfoldable pub is_dirty : Draft → Bool
unfolding joined
is_dirty d =
    let a = d.fields in
    let b = d.initial in
    not (text_eq a.title b.title)
    || not (text_eq a.description b.description)
    || not (str_eq a.zone b.zone)
    || not (same_local a.start b.start)
    || not (same_local a.end b.end)
    || not (text_eq (id_text a.ids) (id_text b.ids))
    || not (text_eq a.external b.external)
    || d.values_dirty

module _ (zones : Zones) where
  -- `utcToLocalDateTime`
  abbrev pub shown : ℕ → String → ℕ
  shown ms zone = zones.zone_local zone (ms / minute_ms)

  -- `localDateTimeToUtc`; `none` is an exception.
  unfoldable pub to_utc : Option ℕ → String → Option ℕ
  unfolding local_date_time_to_utc
  to_utc local zone =
      to_ms (local_date_time_to_utc (zones.zone_local zone) (zones.valid_zone zone) local)

  unfoldable pub add_local_hour : Option ℕ → String → LocalHour
  unfolding to_utc
  add_local_hour value zone = elim (to_utc value zone) [
    | none ↦ record { local = value; instant_at = none }
    | some t ↦ record { local = some (shown (t + hour_ms) zone); instant_at = some (t + hour_ms) }
  ]

  abbrev pub fields_of : Schedule → String → Fields
  fields_of s zone = record {
    title = s.title;
    description = or_empty s.description;
    zone = zone;
    start = some (shown s.starts_at zone);
    end = some (shown s.ends_at zone);
    ids = member_ids s.participants;
    external = joined (codes ", ") (emails_of s.participants);
  }

  abbrev pub baseline_of : Schedule → String → Baseline
  baseline_of s zone = record {
    zone = zone;
    start_local = some (shown s.starts_at zone);
    end_local = some (shown s.ends_at zone);
    starts_at = s.starts_at;
    ends_at = s.ends_at;
  }

  -- The draft that the editor opens with for a schedule.
  abbrev pub draft_of : Schedule → Draft
  draft_of s = record {
    fields = fields_of s seoul;
    initial = fields_of s seoul;
    end_edited = true;
    automatic_end = none;
    baseline = some (baseline_of s seoul);
    row_version = some s.row_version;
    values = [];
    values_dirty = false;
    conflict = none;
    conflict_read_failed = false;
  }

  -- The inputs of the form.
  unfoldable pub set_title : List ℕ → Draft → Draft
  set_title t d = record d { fields = record d.fields { title = t } }

  unfoldable pub set_description : List ℕ → Draft → Draft
  set_description t d = record d { fields = record d.fields { description = t } }

  abbrev pub with_hour : LocalHour → Draft → Draft
  with_hour h d = record d {
    fields = record d.fields { end = h.local };
    automatic_end = h.instant_at;
  }

  unfoldable pub set_start : Option ℕ → Draft → Draft
  unfolding add_local_hour
  set_start t d =
      let moved : Draft = record d { fields = record d.fields { start = t } } in
      if d.end_edited then moved else with_hour (add_local_hour t d.fields.zone) moved

  unfoldable pub set_end : Option ℕ → Draft → Draft
  set_end t d = record d {
    fields = record d.fields { end = t };
    end_edited = true;
    automatic_end = none;
  }

  unfoldable pub set_zone : String → Draft → Draft
  unfolding add_local_hour
  set_zone zone d =
      let moved : Draft = record d { fields = record d.fields { zone = zone } } in
      if not d.end_edited && zones.valid_zone zone
      then with_hour (add_local_hour d.fields.start zone) moved
      else moved

  unfoldable pub set_member : String → Bool → Draft → Draft
  set_member id on d =
      let ids =
        if on then d.fields.ids ++ id ∷ [] else select (λ i. not (str_eq i id)) d.fields.ids in
      record d { fields = record d.fields { ids = ids } }

  unfoldable pub set_external : List ℕ → Draft → Draft
  set_external t d = record d { fields = record d.fields { external = t } }

  unfoldable pub set_value : String → Value → Draft → Draft
  set_value id v d = record d { values = put id v d.values; values_dirty = true }

  -- The values of the record arrive, or arrive again.
  unfoldable pub values_read : Dict Value → Draft → Draft
  values_read vs d = if d.values_dirty then d else record d { values = vs }

-- ===== src/ScheduleForm/Body.antt =====
-- `buildBody` of the form: the checks of a draft, and what is sent of it.
use ai_erp.Base.{
  ℕ, leb, str_eq, String, Bool, true, false, not, ◌&&◌, ◌||◌, Option, none, some, is_some, List, [],
  ◌∷◌, any, if◌then◌else◌,
}
use ai_erp.Base.Text.{is_empty}
use ai_erp.Base.Dict.{Dict, get}
use ai_erp.ScheduleForm.{
  Zones, Texts, Value, not_finite, Schedule, Baseline, Draft, shown, to_utc, same_local,
}
use ai_erp.ScheduleForm.Emails.{is_email, emails_in}

-- What the screen knows of the rights and of the reads.
pub record Access : Type 0 where
  pub editable : Bool
  pub write_denied : Bool
  pub metadata_ready : Bool
  pub members_ready : Bool
  pub access_ready : Bool

pub record ScheduleProperty : Type 0 where
  pub id : String
  pub is_number : Bool

-- Which fields have an error; the texts are left out.
pub record FormErrors : Type 0 where
  pub title : Bool
  pub zone : Bool
  pub start : Bool
  pub end : Bool
  pub external : Bool
  pub properties : List String

-- `CreateBody`
pub record CreateBody : Type 0 where
  pub title : List ℕ
  pub description : Option (List ℕ)
  pub starts_at : ℕ
  pub ends_at : ℕ
  pub member_participant_ids : List String
  pub external_attendee_emails : List (List ℕ)

pub data Built : Type 0 where
  invalid : FormErrors → Built
  built : CreateBody → Built

abbrev pub is_filled {ℓ} : {A : Type ℓ} → List A → Bool
is_filled [] = false
is_filled (a ∷ rest) = true

abbrev pub has_errors : FormErrors → Bool
has_errors e = e.title || e.zone || e.start || e.end || e.external || is_filled e.properties

abbrev pub is_not_finite : Option Value → Bool
is_not_finite (some not_finite) = true
is_not_finite _ = false

unfoldable pub bad_numbers : Dict Value → List ScheduleProperty → List String
bad_numbers values [] = []
bad_numbers values (p ∷ ps) =
    let rest = bad_numbers values ps in
    if p.is_number && is_not_finite (get p.id values) then p.id ∷ rest else rest

-- `startsAt && endsAt && endsAt <= startsAt`
abbrev pub ends_early : Option ℕ → Option ℕ → Bool
ends_early (some s) (some e) = leb e s
ends_early _ _ = false

-- An empty description of a schedule that has none stays none.
abbrev pub sent_description : Option Schedule → List ℕ → Option (List ℕ)
sent_description none t = some t
sent_description (some s) t = if is_empty t && not (is_some s.description) then none else some t

module _ (zones : Zones) where
  -- The instant of the baseline where its local time is shown in its zone, or that of what is shown.
  abbrev pub known_instant :
      (Baseline → Option ℕ) → (Baseline → ℕ) → Option Baseline → Option ℕ → String → Option ℕ
  known_instant local_at instant_at none local zone = to_utc zones local zone
  known_instant local_at instant_at (some b) local zone =
      if str_eq zone b.zone && same_local local (local_at b)
      then some (instant_at b)
      else to_utc zones local zone

  abbrev pub start_instant : Draft → Option ℕ
  start_instant d =
      known_instant (λ b. b.start_local) (λ b. b.starts_at) d.baseline d.fields.start d.fields.zone

  abbrev pub typed_end : Draft → Option ℕ
  typed_end d =
      known_instant (λ b. b.end_local) (λ b. b.ends_at) d.baseline d.fields.end d.fields.zone

  -- The automatic end, as long as it is the one that is shown.
  abbrev pub end_instant : Draft → Option ℕ
  end_instant d = elim d.automatic_end [
    | none ↦ typed_end d
    | some t ↦
        if not d.end_edited && same_local d.fields.end (some (shown zones t d.fields.zone))
        then some t
        else typed_end d
  ]

  module _ (texts : Texts) (properties : List ScheduleProperty) (snapshot : Option Schedule) where
    abbrev pub errors_of : Draft → Option ℕ → Option ℕ → FormErrors
    errors_of d start end =
        let good = zones.valid_zone d.fields.zone in
        record {
          title = is_empty (texts.trim d.fields.title);
          zone = not good;
          start = good && not (is_some start);
          end = good && (not (is_some end) || ends_early start end);
          external =
              any (λ e. not (is_email texts.is_space false e))
                (emails_in texts.is_space texts.trim d.fields.external);
          properties = bad_numbers d.values properties;
        }

    abbrev pub body_of : Draft → ℕ → ℕ → CreateBody
    body_of d start end = record {
      title = d.fields.title;
      description = sent_description snapshot d.fields.description;
      starts_at = start;
      ends_at = end;
      member_participant_ids = d.fields.ids;
      external_attendee_emails = emails_in texts.is_space texts.trim d.fields.external;
    }

    -- Without errors, both instants are there.
    abbrev pub checked_body : Draft → FormErrors → Option ℕ → Option ℕ → Built
    checked_body d errors (some s) (some e) =
        if has_errors errors then invalid errors else built (body_of d s e)
    checked_body d errors _ _ = invalid errors

    unfoldable pub build_body : Draft → Built
    unfolding to_utc is_email emails_in bad_numbers
    build_body d =
        let start = start_instant d in
        let end = end_instant d in checked_body d (errors_of d start end) start end

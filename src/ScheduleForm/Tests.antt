-- ===== src/ScheduleForm/Tests.antt =====
-- A form whose zones are nine hours ahead, and the form of one schedule.
use ai_erp.Base.{
  ℕ, ◌+◌, ◌*◌, ◌%◌, ◌≤◌, ◌<◌, ◌==◌, ◌≡◌, refl, String, Bool, true, false, none, some, List, [], ◌∷◌,
  All,
}
use ai_erp.Base.Text.{codes}
use ai_erp.Base.Dict.{get, put}
use ai_erp.Session.{terminates}
use ai_erp.State.{empty_store}
use ai_erp.State.Denials.{record_access_denial, has_access_denial}
use ai_erp.State.Events.{denies}
use ai_erp.ScheduleForm.{
  Zones, Texts, Schedule, Draft, hour_ms, to_utc, add_local_hour, joined, draft_of, set_title,
  set_start, set_zone,
}
use ai_erp.ScheduleForm.Prefill.{Prefilled, context_prefill, default_start, default_start_soon}
use ai_erp.ScheduleForm.Emails.{is_email, emails_in, split_commas}
use ai_erp.ScheduleForm.Body.{Access, CreateBody, built, build_body, bad_numbers}
use ai_erp.ScheduleForm.Conflict.{
  of_title, of_start, of_zone, FormEvent, edits, submits, answers, refused, conflicted, apply_edit,
  submit, on_answer, step, run, form_of, reached,
}
use ai_erp.ScheduleForm.Shown.{run-shown}
use ai_erp.ScheduleForm.Untouched.{reached-baseline_of}
use ai_erp.ScheduleForm.Hour.{reached-hour_ms}
use ai_erp.ScheduleForm.Rights.{
  FormPage, RightsEvent, in_form, in_store, in_session, recovers, form_step, rights_step,
  run_rights,
}
use ai_erp.ScheduleForm.Rights.Held.{run_rights-IsHeld}
use ai_erp.ScheduleForm.Versions.{IsOf, run-IsOf}

abbrev ahead : String → ℕ → ℕ
ahead z t = t + 540

abbrev any_zone : String → Bool
any_zone z = true

abbrev space : ℕ → Bool
space c = c == b' '

abbrev untrimmed : List ℕ → List ℕ
untrimmed t = t

abbrev sky : Zones
sky = record { zone_local = ahead; valid_zone = any_zone }

abbrev plain_texts : Texts
plain_texts = record { is_space = space; trim = untrimmed }

-- At twenty seconds past a full minute.
abbrev meeting : Schedule
meeting = record {
  id = "s";
  title = codes "Plan";
  description = none;
  starts_at = 600000 * 60000 + 20000;
  ends_at = 600060 * 60000 + 20000;
  participants = record { member_user_id = none; external_email = some (codes "a@b.c") } ∷ [];
  row_version = 4;
}

abbrev open_access : Access
open_access = record {
  editable = true;
  write_denied = false;
  metadata_ready = true;
  members_ready = true;
  access_ready = true;
}

abbrev moved_and_back : List (Access × FormEvent)
moved_and_back =
    (open_access, edits (of_title (codes "Plans")))
    ∷ (open_access, edits (of_start (some 600600)))
    ∷ (open_access, edits (of_zone "UTC"))
    ∷ (open_access, edits (of_zone "Asia/Seoul"))
    ∷ (open_access, edits (of_start (some 600540)))
    ∷ (open_access, submits)
    ∷ (open_access, answers true true (conflicted none))
    ∷ []

abbrev sent_back : CreateBody
sent_back = record {
  title = codes "Plans";
  description = none;
  starts_at = 600000 * 60000 + 20000;
  ends_at = 600060 * 60000 + 20000;
  member_participant_ids = [];
  external_attendee_emails = codes "a@b.c" ∷ [];
}

abbrev prefill : Prefilled
prefill = context_prefill sky 0 none none none none

abbrev back : Draft
back = reached sky plain_texts [] (some meeting) prefill moved_and_back

built_back : build_body sky plain_texts [] (some meeting) back ≡ built sent_back
unfolding build_body run step apply_edit submit on_answer to_utc is_email emails_in bad_numbers
    set_title set_start set_zone joined
built_back = refl

run-shown_example :
    (back.fields.start ≡ some 600540)
    × (back.fields.end ≡ some 600600)
    × (any_zone back.fields.zone ≡ true)
    × (sent_back.starts_at < sent_back.ends_at)
unfolding joined run step
run-shown_example =
    run-shown sky plain_texts [] (some meeting) prefill moved_and_back sent_back built_back

reached-baseline_of_example :
    (sent_back.starts_at ≡ meeting.starts_at) × (sent_back.ends_at ≡ meeting.ends_at)
unfolding run step apply_edit submit on_answer build_body set_title set_start set_zone is_email
    emails_in to_utc joined
reached-baseline_of_example =
    reached-baseline_of sky plain_texts [] meeting prefill moved_and_back sent_back refl refl refl
      refl built_back

run-IsOf_example :
    All
      (IsOf 4)
      (run sky plain_texts []
        (some meeting)
        moved_and_back
        (form_of sky (draft_of sky meeting))).sent
run-IsOf_example = run-IsOf sky plain_texts [] meeting moved_and_back refl

-- A new schedule whose start is set.
abbrev started : List (Access × FormEvent)
started =
    (open_access, edits (of_title (codes "New")))
    ∷ (open_access, edits (of_start (some 700000)))
    ∷ (open_access, edits (of_zone "UTC"))
    ∷ []

abbrev new_body : CreateBody
new_body = record {
  title = codes "New";
  description = some [];
  starts_at = 699460 * 60000;
  ends_at = 699520 * 60000;
  member_participant_ids = [];
  external_attendee_emails = [];
}

built_new :
    build_body sky plain_texts [] none (reached sky plain_texts [] none prefill started)
    ≡ built new_body
unfolding build_body run step apply_edit to_utc emails_in bad_numbers set_title set_start set_zone
    add_local_hour split_commas
built_new = refl

reached-hour_ms_example : new_body.ends_at ≡ new_body.starts_at + hour_ms
reached-hour_ms_example =
    reached-hour_ms sky plain_texts [] 0 none none none started new_body refl built_new

default_start_soon_example :
    (default_start sky 61000 % 30 ≡ 0)
    × (61000 + 540 * 60000 ≤ default_start sky 61000 * 60000)
    × (default_start sky 61000 * 60000 < 61000 + 540 * 60000 + 30 * 60000)
default_start_soon_example = default_start_soon sky 61000 (λ t. refl)

-- A save that waits is refused, and sent again, in a session that then ends.
abbrev asked : FormPage
asked = record {
  form = record (form_of sky (draft_of sky meeting)) { is_pending = true };
  store = empty_store;
  session = record {
    generation = 1;
    terminated = false;
    browser = record {
      has_window = true;
      storage_works = true;
      google_return = none;
      invitation = none;
      expired_events = 0;
    };
  };
}

abbrev denied_page : FormPage
denied_page =
    rights_step sky plain_texts [] (some meeting) "schedule-write:p:s"
      (in_form open_access (answers true true (refused true))) asked

abbrev stubborn : List RightsEvent
stubborn =
    in_form open_access submits
    ∷ in_store (denies "project:p")
    ∷ recovers
        (record { membership = true; before = []; people = false; latest = true; after = [] })
    ∷ in_form open_access submits
    ∷ in_session (terminates none)
    ∷ []

run_rights-IsHeld_example :
    (has_access_denial "schedule-write:p:s"
        (run_rights sky plain_texts []
          (some meeting)
          "schedule-write:p:s"
          stubborn
          denied_page).store
      ≡ true)
    × ((run_rights sky plain_texts []
          (some meeting)
          "schedule-write:p:s"
          stubborn
          denied_page).form.sent
        ≡ denied_page.form.sent)
unfolding rights_step form_step record_access_denial has_access_denial put get
run_rights-IsHeld_example =
    run_rights-IsHeld sky plain_texts [] (some meeting) "schedule-write:p:s" stubborn denied_page
      refl refl

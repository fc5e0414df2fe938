-- ===== src/Schedules/Writes/Tests.antt =====
-- A page on which a change of times is sent, its answer is lost, and it is recovered.
use ai_erp.Base.{
  ℕ, ◌≤◌, ◌≡◌, refl, String, str_eq, Bool, true, false, Option, none, some, List, [], ◌∷◌, length,
  if◌then◌else◌,
}
use ai_erp.Session.{is_session_context_active}
use ai_erp.State.{empty_store}
use ai_erp.State.Denials.{api_error, other_error, value, failed}
use ai_erp.ScheduleTime.{CalendarSchedule, ScheduleTimeChange, execute_schedule_time_mutation}
use ai_erp.Schedules.Writes.{
  Rules, CalendarPage, Token, write, range_read, Write, Recovering, has_id, saved_times,
}
use ai_erp.Schedules.Writes.Saving.{new_write, save_change, end_write}
use ai_erp.Schedules.Writes.Page.{
  PageEvent, saves, ends_write, retries, begins_drag, drops, opens, run_page,
}
use ai_erp.Schedules.Writes.Tokens.{run_page-single}
use ai_erp.Schedules.Writes.Single.{IsSafe}
use ai_erp.Schedules.Writes.Held.{sent_of}
use ai_erp.Schedules.Writes.Locked.{run_page-held}
use ai_erp.Schedules.Writes.Outcomes.{IsUncertain, end_write-lost}

abbrev meeting : CalendarSchedule
meeting = record {
  id = "s";
  title = "t";
  starts_at = "09:00Z";
  ends_at = "10:00Z";
  row_version = 4;
  created_by = "u";
}

abbrev later : ScheduleTimeChange
later = record { starts_at = "11:00Z"; ends_at = "12:00Z" }

-- A parser that knows four texts.
abbrev clock : String → Option ℕ
clock t =
    if str_eq t "09:00Z"
    then some 540
    else if str_eq t "10:00Z"
    then some 600
    else if str_eq t "11:00Z"
    then some 660
    else if str_eq t "12:00Z"
    then some 720
    else none

abbrev anyone : ℕ → CalendarSchedule → Bool
anyone role s = true

abbrev any_change : ScheduleTimeChange → Bool
any_change c = true

abbrev same_key : String → String
same_key id = id

abbrev open_rules : Rules ℕ
open_rules = record {
  date_parse = clock;
  can_edit_as = anyone;
  key = same_key;
  in_workspace = false;
}

abbrev idle_page : CalendarPage ℕ
idle_page = record {
  session = record {
    generation = 1;
    terminated = false;
    browser = record {
      has_window = true;
      storage_works = true;
      google_return = none;
      invitation = none;
      expired_events = 0;
    };
  };
  store = empty_store;
  blocked = false;
  role = some 0;
  active = none;
  pending_id = none;
  locked_ids = [];
  overrides = [];
  recovery_schedule = none;
  recovery_intent = none;
  recovering_id = none;
  dialog_schedule = none;
  feedback = none;
  denied_calls = 0;
  writes = [];
  recoveries = [];
  sent = [];
}

abbrev first_write : Write
first_write = new_write meeting later 7 1

abbrev busy_page : CalendarPage ℕ
busy_page = record idle_page {
  active = some (write "s" 7);
  pending_id = some "s";
  writes = first_write ∷ [];
  sent = ("s", later) ∷ [];
}

abbrev lost_page : CalendarPage ℕ
lost_page = record idle_page {
  locked_ids = "s" ∷ [];
  recovery_schedule = some meeting;
  recovery_intent = some later;
  sent = ("s", later) ∷ [];
}

abbrev first_recovery : Recovering
first_recovery = record { schedule = meeting; context = 1; intent = some later }

abbrev asked_page : CalendarPage ℕ
asked_page = record lost_page { recovering_id = some "s"; recoveries = first_recovery ∷ [] }

-- A drop sends one change, and a second drop and the dialog are kept out.
abbrev gestures : List (PageEvent ℕ)
gestures =
    begins_drag meeting 1
    ∷ drops meeting later 1 7
    ∷ begins_drag meeting 2
    ∷ drops meeting later 2 8
    ∷ opens meeting
    ∷ []

gestures_send : (run_page open_rules any_change gestures idle_page).sent ≡ ("s", later) ∷ []
unfolding run_page
gestures_send = refl

-- The write and its refresh end.
saved_page :
    (run_page open_rules any_change
      (ends_write 0
          (value meeting)
          (failed other_error)
          (failed other_error)
          (failed other_error)
          []
        ∷ ends_write 0
            (value meeting)
            (failed other_error)
            (failed other_error)
            (failed other_error)
            []
        ∷ [])
      busy_page).feedback
    ≡ some saved_times
unfolding run_page execute_schedule_time_mutation
saved_page = refl

run_page-single_example :
    IsSafe (run_page open_rules any_change gestures idle_page)
    × (length (run_page open_rules any_change gestures idle_page).writes ≤ 1)
run_page-single_example = run_page-single open_rules any_change gestures idle_page refl refl

run_page-held_example :
    (has_id "s"
        (run_page open_rules any_change
          (saves meeting later none 9 ∷ retries ∷ gestures)
          lost_page).locked_ids
      ≡ true)
    × (sent_of "s"
          (run_page open_rules any_change
            (saves meeting later none 9 ∷ retries ∷ gestures)
            lost_page).sent
        ≡ later ∷ [])
unfolding has_id
run_page-held_example =
    run_page-held open_rules any_change "s" (saves meeting later none 9 ∷ retries ∷ gestures)
      lost_page refl refl refl

end_write-lost_example :
    IsUncertain first_write (
      end_write open_rules 0
        (failed (api_error 500))
        (value meeting)
        (failed other_error)
        (value range_read)
        []
        busy_page)
    × ((change : ScheduleTimeChange) (owner : Option Token) (now : ℕ)
        → save_change open_rules meeting change owner now (
            end_write open_rules 0
              (failed (api_error 500))
              (value meeting)
              (failed other_error)
              (value range_read)
              []
              busy_page)
          ≡ end_write open_rules 0
              (failed (api_error 500))
              (value meeting)
              (failed other_error)
              (value range_read)
              []
              busy_page)
unfolding is_session_context_active
end_write-lost_example =
    end_write-lost open_rules first_write (api_error 500) (value meeting) (failed other_error)
      (value range_read) [] busy_page refl refl refl refl refl refl refl

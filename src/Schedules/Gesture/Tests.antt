-- ===== src/Schedules/Gesture/Tests.antt =====
-- An event from nine to ten, in a week whose zone is the universal one.
use ai_erp.Base.{ℕ, ◌≡◌, refl, true, false, Option, none, some, [], ◌++◌, ◌+◌, ◌*◌}
use ai_erp.Time.Views.{week}
use ai_erp.Calendar.Changes.{Times, move, apply_week_move, is_valid_change, local_to_utc}
use ai_erp.Schedules.Writes.{Token, drag, write}
use ai_erp.Schedules.Gesture.{
  CalendarEvent, Pointer, Gesture, EventState, times_shown, is_far, begin, move_to, finish,
}
use ai_erp.Schedules.Gesture.Drops.{handed, finish-move_to}

abbrev universal : ℕ → ℕ
universal t = t

abbrev nine_to_ten : Times
nine_to_ten = record {
  starts_at = 3 * 1440 * 60000 + 540 * 60000;
  ends_at = 3 * 1440 * 60000 + 600 * 60000;
}

abbrev writes_once : Times → Token → Option Token → Option Token
writes_once t token active = some (write "s" 1)

abbrev event : CalendarEvent
event = record {
  local_of = universal;
  id = "s";
  times = nine_to_ten;
  day = 3;
  start_minute = 540 * 60;
  view = week;
  editable = true;
  on_commit = writes_once;
}

abbrev at_place : ℕ → ℕ → Pointer
at_place x y = record {
  x = x;
  y = y;
  pointer_id = 1;
  is_touch = false;
  button = 0;
  cell_day = some 3;
  cell_minute = some (60 * y);
}

abbrev rest : EventState
rest = record { gesture = none; moved = false; active = none; preview = none; committed = [] }

abbrev pressed : Gesture
pressed = record {
  x = 100;
  y = 550;
  change = move;
  moved = false;
  origin = record { day = 3; minute = 60 * 550 };
  token = drag "s" 1;
}

abbrev held : EventState
held = begin event (at_place 100 550) move rest

finish-move_to_example :
    (let s = move_to event (at_place 100 610) held in
      let e = finish event (at_place 100 610) s in
      (e.committed ≡ [] ++ handed nine_to_ten s.preview) × (e.gesture ≡ none) × (e.preview ≡ none))
unfolding begin is_far
finish-move_to_example = finish-move_to event (at_place 100 610) held pressed refl refl

abbrev an_hour_later : Times
an_hour_later = record {
  starts_at = 3 * 1440 * 60000 + 600 * 60000;
  ends_at = 3 * 1440 * 60000 + 660 * 60000;
}

shows_later : (move_to event (at_place 100 610) held).preview ≡ some (times_shown an_hour_later)
unfolding move_to begin is_far is_valid_change apply_week_move local_to_utc
shows_later = refl

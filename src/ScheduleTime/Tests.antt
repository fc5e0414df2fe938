-- ===== src/ScheduleTime/Tests.antt =====
-- Runs of the mutation of a schedule's times, and its theorems at concrete inputs.
use ai_erp.Base.{
  ℕ, ◌≡◌, ◌≤◌, ◌↔◌, ◌⊎◌, inl, inr, arith, refl, String, Bool, true, Option, none, some, str_eq,
  if◌then◌else◌,
}
use ai_erp.State.Denials.{api_error, value, failed}
use ai_erp.ScheduleTime.{
  CalendarSchedule, ScheduleTimeChange, Cause, conflict, recovered, preserve_schedule_time_instants,
  execute_schedule_time_mutation,
}
use ai_erp.ScheduleTime.Recovery.{after_write, recovered_tells}

abbrev planned : CalendarSchedule
planned = record {
  id = "s";
  title = "t";
  starts_at = "09:00Z";
  ends_at = "10:00Z";
  row_version = 4;
  created_by = "u";
}

abbrev later : ScheduleTimeChange
later = record { starts_at = "11:00Z"; ends_at = "12:00Z" }

-- A parser that knows four texts.
abbrev clock : String → Option ℕ
clock t =
    if str_eq t "09:00Z"
    then some 540
    else if str_eq t "10:00Z"
    then some 600
    else if str_eq t "11:00Z"
    then some 660
    else if str_eq t "12:00Z"
    then some 720
    else none

abbrev anyone : ℕ → CalendarSchedule → Bool
anyone role s = true

is_503 : (status : ℕ) → api_error 503 ≡ api_error status → 500 ≤ status
is_503 status same = let here : 503 ≡ status = cc same in omega arith

untouched_times :
    preserve_schedule_time_instants (λ local zone. none) planned "a" "b" "a" "b" "UTC"
    ≡ some (record { starts_at = "09:00Z"; ends_at = "10:00Z" })
unfolding preserve_schedule_time_instants
untouched_times = refl

recovered_tells_example :
    (committed : Bool) × (cause : Cause) × (execute_schedule_time_mutation {T = ℕ} clock anyone
        later
        (failed (api_error 503))
        (value (after_write planned later true))
        (value 1)
        (value 2)
      ≡ recovered (after_write planned later true) committed true cause)
    × ((committed ≡ true)
        ↔ ((true ≡ true) ⊎ ((clock "09:00Z" ≡ some 660) × (clock "10:00Z" ≡ some 720))))
    × ((cause ≡ conflict) ↔ (api_error 503 ≡ api_error 409))
recovered_tells_example =
    recovered_tells {T = ℕ} clock anyone later planned true (api_error 503) 1 2 660 720
      (λ status same. inr (inl (is_503 status same))) refl refl

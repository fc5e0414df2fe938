-- ===== src/State/Keys/Refresh.antt =====
-- Which queries a change of a schedule refreshes.
use ai_erp.Base.{String, str_eq, ◌≡◌, Bool, true, false, not, ◌&&◌, Option, none, some, arith}
use ai_erp.State.Keys.{
  Query, notifications, connection, dashboard, schedules, workspace, schedule_page, detail,
  projection, plan, workspace_query, workspace_record, refresh_schedule,
}

abbrev is_changed : String → Option String → Bool
is_changed s none = false
is_changed s (some t) = not (str_eq t "") && str_eq t s

-- The queries that a change of the schedule `s` of the project `p` concerns: those of the project's
-- schedules, the details of this schedule, the connection and the notifications, and of the plan the
-- query with the empty text.
unfoldable pub concerns : String → Option String → Query → Bool
concerns p s notifications = true
concerns p s connection = true
concerns p s (dashboard x) = str_eq p x
concerns p s (schedules x) = str_eq p x
concerns p s (workspace x) = str_eq p x
concerns p s (schedule_page x from to page) = str_eq p x
concerns p s (projection x y) = str_eq p x
concerns p s (workspace_query x view page signature) = str_eq p x
concerns p s (workspace_record x y) = str_eq p x
concerns p s (detail x y) = str_eq p x && is_changed y s
concerns p s (plan x query) = str_eq p x && str_eq "" query
concerns p s _ = false

-- `refreshSchedule` invalidates the queries that the change concerns, and no others.
pub refresh_schedule-concerns :
    (p : String) (s : Option String) (q : Query) → refresh_schedule p s q ≡ concerns p s q
unfolding refresh_schedule concerns
refresh_schedule-concerns p none q = ground arith
refresh_schedule-concerns p (some s) q = ground arith

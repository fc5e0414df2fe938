-- ===== src/Schedules/Writes.antt =====
-- frontend/src/screens/Schedules.tsx: the changes of times that the calendar sends: `saveChange`,
-- `recover`, `openEdit`, `submitDialog`, `closeDialog`, and the tokens that keep them apart. The ref
-- `activeInteraction` and the state `activeToken`, which the source sets together, are one field. An
-- event finds the page as it was rendered after the last one.
pub mod Saving
pub mod Restoring
pub mod Page
pub mod Single
pub mod Tokens
pub mod Held
pub mod Locked
pub mod Outcomes
pub mod Freed
mod Tests
use ai_erp.Base.{
  ℕ, suc, String, str_eq, Bool, true, false, not, ◌&&◌, ◌||◌, Option, none, some, List, [], ◌∷◌,
  ◌++◌, any, select, ◌==◌, leb, if◌then◌else◌, get_elem?, is_some,
}
use ai_erp.Base.Dict.{Dict, get, put, remove}
use ai_erp.Base.Lists.{remove_at, replace_at}
use ai_erp.Session.{Session, SessionEvent, happen, is_session_context_active, capture_session}
use ai_erp.State.{Store}
use ai_erp.State.Denials.{
  Failure, api_error, other_error, Outcome, value, failed, is_access_error, record_access_denial,
  clear_access_denial, begin_access_read, access_read_settled,
}
use ai_erp.State.Events.{StoreEvent, run as run_store, apply_event}
use ai_erp.ScheduleTime.{
  CalendarSchedule, ScheduleTimeChange, Cause, ScheduleTimeMutationResult, saved, rejected,
  recovered, locked, same_instant, is_committed, is_definitive, execute_schedule_time_mutation,
}

-- `drag:<id>:<pointer>`, `dialog:<id>` and `write:<id>:<time>`.
pub data Token : Type 0 where
  drag : String → ℕ → Token
  dialog : String → Token
  write : String → ℕ → Token

unfoldable pub same_token : Token → Token → Bool
same_token (drag a n) (drag b m) = str_eq a b && n == m
same_token (dialog a) (dialog b) = str_eq a b
same_token (write a n) (write b m) = str_eq a b && n == m
same_token _ _ = false

abbrev pub is_token : Option Token → Token → Bool
is_token none t = false
is_token (some u) t = same_token u t

-- `activeInteraction.current && activeInteraction.current !== ownerToken`
abbrev pub held_by_other : Option Token → Option Token → Bool
held_by_other none owner = false
held_by_other (some t) none = true
held_by_other (some t) (some owner) = not (same_token t owner)

-- `startsWith("drag:")` or `startsWith("dialog:")`
abbrev pub is_gesture : Option Token → Bool
is_gesture (some (drag a n)) = true
is_gesture (some (dialog a)) = true
is_gesture _ = false

abbrev pub is_dialog : Option Token → Bool
is_dialog (some (dialog a)) = true
is_dialog _ = false

-- The range that is shown is read again; its rows are in the query cache.
pub data RangeRead : Type 0 where
  range_read : RangeRead

-- What the page tells the user.
pub data Feedback : Type 0 where
  saving saved_times target_denied result_unknown state_unknown reflected : Feedback
  refused : Failure → Feedback
  role_missing not_committed : Cause → Feedback
  committed checked no_edit_role : Feedback

-- What is left to do for a write when its refresh ends.
pub data After : Type 0 where
  after_saved : After
  after_recovered : Bool → Bool → Cause → After

-- A call of `saveChange` that has sent its request.
pub record Write : Type 0 where
  pub schedule : CalendarSchedule
  pub change : ScheduleTimeChange
  pub context : ℕ
  pub token : Token
  pub after : Option After

-- A call of `recover` that waits for its reads.
pub record Recovering : Type 0 where
  pub schedule : CalendarSchedule
  pub context : ℕ
  pub intent : Option ScheduleTimeChange

-- What the page goes by: `Date.parse`, the rights of a role on a schedule, the key of a schedule's
-- refusals, and whether the page is one of the workspace.
pub record Rules (R : Type 0) : Type 0 where
  pub date_parse : String → Option ℕ
  pub can_edit_as : R → CalendarSchedule → Bool
  pub key : String → String
  pub in_workspace : Bool

-- The state of the page; `role` is that of the user in the project, `writes` and `recoveries` are the
-- calls that wait, and `sent` the requests so far.
pub record CalendarPage (R : Type 0) : Type 0 where
  pub session : Session
  pub store : Store
  pub blocked : Bool
  pub role : Option R
  pub active : Option Token
  pub pending_id : Option String
  pub locked_ids : List String
  pub overrides : Dict CalendarSchedule
  pub recovery_schedule : Option CalendarSchedule
  pub recovery_intent : Option ScheduleTimeChange
  pub recovering_id : Option String
  pub dialog_schedule : Option CalendarSchedule
  pub feedback : Option Feedback
  pub denied_calls : ℕ
  pub writes : List Write
  pub recoveries : List Recovering
  pub sent : List (String × ScheduleTimeChange)

-- `new Set(previous).add(id)` and `delete(id)`.
unfoldable pub has_id : String → List String → Bool
has_id id [] = false
has_id id (x ∷ xs) = str_eq x id || has_id id xs

abbrev pub add_id : String → List String → List String
add_id id xs = if has_id id xs then xs else id ∷ xs

unfoldable pub delete_id : String → List String → List String
delete_id id [] = []
delete_id id (x ∷ xs) = if str_eq x id then delete_id id xs else x ∷ delete_id id xs

abbrev pub is_id : Option String → String → Bool
is_id none id = false
is_id (some x) id = str_eq x id

abbrev pub role_outcome : {R : Type 0} → Outcome (Option R) → Outcome R
role_outcome (value (some r)) = value r
role_outcome (value none) = failed other_error
role_outcome (failed e) = failed e

-- The role that the query of the project has after a read.
abbrev pub read_role : {R : Type 0} → Outcome (Option R) → Option R → Option R
read_role (value r) role = r
read_role (failed e) role = role

abbrev pub asks_server : Outcome CalendarSchedule → Bool
asks_server (value s) = false
asks_server (failed e) = not (is_definitive e)

abbrev pub is_denied : Option Failure → Bool
is_denied none = false
is_denied (some e) = is_access_error e

abbrev pub is_refused : Outcome RangeRead → Bool
is_refused (value t) = false
is_refused (failed e) = is_access_error e

-- The row of the server is as new as the one that stands over it.
abbrev pub is_overtaken : Dict CalendarSchedule → CalendarSchedule → Bool
is_overtaken overrides row = elim (get row.id overrides) [
  | none ↦ false
  | some o ↦ leb o.row_version row.row_version
]

-- The effect that drops the rows that the server has overtaken.
unfoldable pub drop_overtaken :
    List CalendarSchedule → Dict CalendarSchedule → Dict CalendarSchedule
drop_overtaken [] overrides = overrides
drop_overtaken (row ∷ rows) overrides =
    drop_overtaken rows (if is_overtaken overrides row then remove row.id overrides else overrides)

abbrev pub editable :
    {R : Type 0} → (R → CalendarSchedule → Bool) → Option R → CalendarSchedule → Bool
editable can_edit_as none s = false
editable can_edit_as (some r) s = can_edit_as r s

module _ {R : Type 0} where
  abbrev pub is_locked : String → CalendarPage R → Bool
  is_locked id d =
      d.blocked
      || is_some d.pending_id
      || has_id id d.locked_ids
      || is_some d.recovering_id
      || is_some d.active

  -- The guard of `saveChange`.
  abbrev pub may_save :
      (R → CalendarSchedule → Bool) → CalendarSchedule → Option Token → CalendarPage R → Bool
  may_save can_edit_as s owner d =
      not d.blocked
      && not (held_by_other d.active owner)
      && not (is_some d.pending_id)
      && not (has_id s.id d.locked_ids)
      && editable can_edit_as d.role s

  -- `if (activeInteraction.current === token)` the interaction ends.
  abbrev pub release : Option Token → CalendarPage R → CalendarPage R
  release none d = d
  release (some t) d = if is_token d.active t then record d { active = none } else d

abbrev pub is_same_time : (String → Option ℕ) → CalendarSchedule → ScheduleTimeChange → Bool
is_same_time date_parse s change =
    same_instant date_parse change.starts_at s.starts_at
    && same_instant date_parse change.ends_at s.ends_at

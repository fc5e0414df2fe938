-- ===== src/Schedules/Workspace.antt =====
-- frontend/src/screens/Schedules.tsx: `readWorkspaceCalendar`, the schedules of a period, read in
-- pages of a hundred.
pub mod Complete
pub mod Loaded
mod Tests
use ai_erp.Base.{
  ℕ, zero, suc, ◌+◌, String, Bool, true, false, not, ◌&&◌, ◌||◌, Option, none, some, List, [], ◌∷◌,
  leb, ◌==◌, length, if◌then◌else◌,
}
use ai_erp.Base.Dict.{Dict, values}
use ai_erp.Base.Keyed.{set_all}
use ai_erp.State.{Store}
use ai_erp.State.Denials.{
  Failure, api_error, other_error, Outcome, value, failed, is_access_error, begin_access_read,
  access_read_settled,
}
use ai_erp.State.Events.{StoreEvent, run}

-- A record with the id of its schedule; what else it has is not read here.
pub record WorkspaceRecord : Type 0 where
  pub schedule_id : String
  pub title : String

abbrev pub record_id : WorkspaceRecord → String
record_id r = r.schedule_id

-- `groups` are the keys of the groups.
pub record WorkspacePage : Type 0 where
  pub records : List WorkspaceRecord
  pub total : ℕ
  pub has_more : Bool
  pub groups : List String

pub data Reason : Type 0 where
  page_failed capped pages_left : Reason

pub record WorkspaceCalendar : Type 0 where
  pub records : List WorkspaceRecord
  pub total : ℕ
  pub has_more : Bool
  pub groups : List String
  pub partial : Bool
  pub reason : Option Reason

-- What the pages read so far have set.
pub record Progress : Type 0 where
  pub found : Dict WorkspaceRecord
  pub total : ℕ
  pub groups : List String

abbrev pub start_progress : Progress
start_progress = record { found = []; total = 0; groups = [] }

abbrev pub max_pages : ℕ
max_pages = 10

unfoldable pub add_page : WorkspacePage → Progress → Progress
unfolding set_all
add_page p g = record {
  found = set_all record_id p.records g.found;
  total = p.total;
  groups = p.groups;
}

abbrev pub whole : Progress → WorkspaceCalendar
whole g = record {
  records = values g.found;
  total = g.total;
  has_more = false;
  groups = g.groups;
  partial = false;
  reason = none;
}

abbrev pub part : Progress → Reason → WorkspaceCalendar
part g reason = record {
  records = values g.found;
  total = g.total;
  has_more = true;
  groups = g.groups;
  partial = true;
  reason = some reason;
}

-- The `catch` of a page.
unfoldable pub on_page_failed : Bool → Failure → Progress → Outcome WorkspaceCalendar
on_page_failed require_complete e g =
    if require_complete || is_access_error e || length g.found == 0
    then failed e
    else value (part g page_failed)

-- After the last page that may be read.
unfoldable pub on_pages_left : Bool → Progress → Outcome WorkspaceCalendar
on_pages_left require_complete g =
    if require_complete
    then failed other_error
    else value (part g (if leb 1000 (length g.found) then capped else pages_left))

-- What the answer for a page decides; `later` reads the pages behind it.
abbrev pub on_answer :
    Bool
    → Progress
    → Store
    → (WorkspacePage → Store × Outcome WorkspaceCalendar)
    → Outcome WorkspacePage
    → Store × Outcome WorkspaceCalendar
on_answer require_complete g t later (failed e) = (t, on_page_failed require_complete e g)
on_answer require_complete g t later (value p) =
    if p.has_more then later p else (t, value (whole (add_page p g)))

-- `key` gives the access key of a page, `reader` what `api.workspaceQuery` answers for it, and
-- `waiting` what happens to the store meanwhile.
module _ (key : ℕ → String) (reader : ℕ → Outcome WorkspacePage)
    (waiting : ℕ → List StoreEvent) where
  -- `accessRead` of one page.
  abbrev pub after_page : ℕ → Store → Store
  after_page page s =
      access_read_settled (key page) (begin_access_read (key page) s) (reader page)
        (run (waiting page) s)

  -- The loop, with the pages that are left.
  unfoldable pub read_pages : Bool → ℕ → ℕ → Progress → Store → Store × Outcome WorkspaceCalendar
  unfolding add_page on_page_failed on_pages_left
  read_pages require_complete zero page g s = (s, on_pages_left require_complete g)
  read_pages require_complete (suc left) page g s =
      let t = after_page page s in
      on_answer require_complete g t
        (λ p. read_pages require_complete left (page + 1) (add_page p g) t) (reader page)

  abbrev pub read_workspace_calendar : Bool → Store → Store × Outcome WorkspaceCalendar
  read_workspace_calendar require_complete s =
      read_pages require_complete max_pages 0 start_progress s

-- ===== src/State/Keys.antt =====
-- state.ts: the keys of the queries, and `refreshSchedule`, which invalidates every query whose key begins
-- with one of a list.
pub mod Refresh
use ai_erp.Base.{
  ℕ, String, str_eq, Bool, true, false, not, ◌&&◌, ◌||◌, Option, none, some, List, [], ◌∷◌, ◌++◌,
  ◌==◌, any, if◌then◌else◌,
}

-- An element of a key.
pub data Part : Type 0 where
  word : String → Part
  count : ℕ → Part

abbrev pub same_part : Part → Part → Bool
same_part (word a) (word b) = str_eq a b
same_part (count m) (count n) = m == n
same_part _ _ = false

-- The queries of the screens, with what their keys are made of.
pub data Query : Type 0 where
  configuration me projects notifications connection : Query
  google_connection drive_files google_calendars : Query
  dashboard schedules members project_files project_calendar workspace : String → Query
  invitation mail mail_detail mail_send : String → Query
  schedule_page : String → String → String → ℕ → Query
  detail : String → String → Query
  projection : String → Option String → Query
  plan : String → String → Query
  workspace_query : String → String → ℕ → String → Query
  workspace_record : String → String → Query

-- `s ? [..., s] : [...]`
abbrev pub or_whole : String → Option String → List Part
or_whole p none = word p ∷ []
or_whole p (some s) = if str_eq s "" then word p ∷ [] else word p ∷ word s ∷ []

-- `keys`, and the key of a page of schedules.
unfoldable pub keys : Query → List Part
keys configuration = word "configuration" ∷ []
keys me = word "me" ∷ []
keys projects = word "projects" ∷ []
keys notifications = word "notifications" ∷ []
keys connection = word "connection" ∷ []
keys google_connection = word "google-connection" ∷ []
keys drive_files = word "google-drive-files" ∷ []
keys google_calendars = word "google-calendars" ∷ []
keys (dashboard p) = word "dashboard" ∷ word p ∷ []
keys (schedules p) = word "schedules" ∷ word p ∷ []
keys (members p) = word "members" ∷ word p ∷ []
keys (project_files p) = word "project-files" ∷ word p ∷ []
keys (project_calendar p) = word "project-calendar" ∷ word p ∷ []
keys (workspace p) = word "schedule-workspace" ∷ word p ∷ []
keys (invitation t) = word "invite" ∷ word t ∷ []
keys (mail folder) = word "google-mail" ∷ word folder ∷ []
keys (mail_detail id) = word "google-mail-detail" ∷ word id ∷ []
keys (mail_send id) = word "google-mail-send" ∷ word id ∷ []
keys (schedule_page p from to page) =
    word "schedules" ∷ word p ∷ word from ∷ word to ∷ count page ∷ []
keys (detail p s) = word "schedule" ∷ word p ∷ word s ∷ []
keys (projection p s) = word "projection" ∷ or_whole p s
keys (plan p query) = word "project-plan" ∷ word p ∷ word query ∷ []
keys (workspace_query p view page signature) =
    word "schedule-workspace-query" ∷ word p ∷ word view ∷ count page ∷ word signature ∷ []
keys (workspace_record p s) = word "schedule-workspace-record" ∷ word p ∷ word s ∷ []

-- `invalidateQueries({ queryKey })`: the key begins with the given one.
unfoldable pub begins_with : List Part → List Part → Bool
begins_with [] key = true
begins_with (a ∷ as') [] = false
begins_with (a ∷ as') (b ∷ bs) = same_part a b && begins_with as' bs

abbrev pub detail_key : String → Option String → List (List Part)
detail_key p none = []
detail_key p (some s) = if str_eq s "" then [] else (word "schedule" ∷ word p ∷ word s ∷ []) ∷ []

unfoldable pub refreshed_keys : String → Option String → List (List Part)
unfolding keys
refreshed_keys p s =
    keys (schedules p)
    ∷ keys (dashboard p)
    ∷ keys (projection p none)
    ∷ keys connection
    ∷ keys notifications
    ∷ keys (plan p "")
    ∷ keys (workspace p)
    ∷ (word "schedule-workspace-query" ∷ word p ∷ [])
    ∷ (word "schedule-workspace-record" ∷ word p ∷ [])
    ∷ detail_key p s

-- Whether `refreshSchedule` invalidates a query.
unfoldable pub refresh_schedule : String → Option String → Query → Bool
unfolding refreshed_keys begins_with keys
refresh_schedule p s q = any (λ k. begins_with k (keys q)) (refreshed_keys p s)

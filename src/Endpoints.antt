-- ===== src/Endpoints.antt =====
-- frontend/src/api/client.ts: the table of endpoints, each with its method and its path. Texts are
-- lists of code points; bodies are left out.
pub mod Paths
mod Tests
use ai_erp.Base.{ℕ, List, [], ◌∷◌, ◌++◌, Bool, true, false, if◌then◌else◌}
use ai_erp.Base.Text.{codes, is_empty}

pub data Method : Type 0 where
  get post patch delete : Method

-- A text argument that is encoded is given as it is before the encoding.
pub data Endpoint : Type 0 where
  configuration me logout create_project google_connection connect_google disconnect_google
        send_mail calendar reconnect :
      Endpoint
  projects creation_options notifications : ℕ → Endpoint
  dashboard create invite invitation resolve_accept resolve_reject read_notification
        share_invitation create_share_invitation revoke_share_invitation project_invitation
        join_project_invitation attach_project_file mail_detail mail_send_receipt google_calendars
        project_calendar bind_project_calendar unbind_project_calendar save_plan create_plan_item
        workspace workspace_property_create workspace_view_create workspace_dashboard
        workspace_query workspace_record_create :
      List ℕ → Endpoint
  schedules : List ℕ → List ℕ → List ℕ → ℕ → Endpoint
  detail edit confirm cancel acknowledge role drive_files project_files remove_project_file
        projection retry_projection plan update_plan_item workspace_property_edit
        workspace_view_edit workspace_record workspace_record_edit workspace_values_edit :
      List ℕ → List ℕ → Endpoint
  members : List ℕ → ℕ → Endpoint
  mail_messages : List ℕ → List ℕ → List ℕ → Endpoint
  plan_history : List ℕ → List ℕ → ℕ → ℕ → Endpoint

abbrev pub page_size : ℕ
page_size = 20

-- `${query ? `?${query}` : ""}`
abbrev pub query_part : List ℕ → List ℕ
query_part query = if is_empty query then [] else b'?' ∷ query

unfoldable pub method_of : Endpoint → Method
method_of logout = post
method_of create_project = post
method_of (create _) = post
method_of (edit _ _) = patch
method_of (confirm _ _) = post
method_of (cancel _ _) = post
method_of (acknowledge _ _) = post
method_of (invite _) = post
method_of (resolve_accept _) = post
method_of (resolve_reject _) = post
method_of (read_notification _) = post
method_of (role _ _) = patch
method_of (create_share_invitation _) = post
method_of (revoke_share_invitation _) = delete
method_of (join_project_invitation _) = post
method_of connect_google = post
method_of disconnect_google = delete
method_of (attach_project_file _) = post
method_of (remove_project_file _ _) = delete
method_of send_mail = post
method_of (bind_project_calendar _) = post
method_of (unbind_project_calendar _) = delete
method_of reconnect = post
method_of (retry_projection _ _) = post
method_of (save_plan _) = patch
method_of (create_plan_item _) = post
method_of (update_plan_item _ _) = patch
method_of (workspace_property_create _) = post
method_of (workspace_property_edit _ _) = patch
method_of (workspace_view_create _) = post
method_of (workspace_view_edit _ _) = patch
method_of (workspace_dashboard _) = patch
method_of (workspace_query _) = post
method_of (workspace_record_create _) = post
method_of (workspace_record_edit _ _) = patch
method_of (workspace_values_edit _ _) = patch
method_of _ = get

-- `segment` is `encodeURIComponent`, `print` the decimal text of a number.
module _ (segment : List ℕ → List ℕ) (print : ℕ → List ℕ) where
  abbrev pub base : List ℕ → List ℕ
  base p = codes "/api/v1/projects/" ++ segment p

  abbrev pub item : List ℕ → List ℕ → List ℕ
  item p s = base p ++ codes "/schedules/" ++ segment s

  unfoldable pub path_of : Endpoint → List ℕ
  path_of configuration = codes "/api/v1/system/configuration"
  path_of me = codes "/api/v1/me"
  path_of logout = codes "/api/v1/logout"
  path_of (projects page) = codes "/api/v1/projects?page=" ++ print page ++ codes "&limit=100"
  path_of (creation_options page) =
      codes "/api/v1/projects/creation-options?page=" ++ print page ++ codes "&limit=100"
  path_of create_project = codes "/api/v1/projects"
  path_of (dashboard p) = base p ++ codes "/dashboard"
  path_of (schedules p from to page) =
      base p
      ++ codes "/schedules?page="
      ++ print page
      ++ codes "&limit="
      ++ print page_size
      ++ codes "&from="
      ++ segment from
      ++ codes "&to="
      ++ segment to
  path_of (detail p s) = item p s ++ codes "?historyLimit=100"
  path_of (create p) = base p ++ codes "/schedules"
  path_of (edit p s) = item p s
  path_of (confirm p s) = item p s ++ codes "/confirm"
  path_of (cancel p s) = item p s ++ codes "/cancel"
  path_of (acknowledge p s) = item p s ++ codes "/acknowledge"
  path_of (invite group) = codes "/api/v1/groups/" ++ segment group ++ codes "/invitations"
  path_of (invitation token) = codes "/api/v1/invitations/" ++ segment token
  path_of (resolve_accept token) = codes "/api/v1/invitations/" ++ segment token ++ codes "/accept"
  path_of (resolve_reject token) = codes "/api/v1/invitations/" ++ segment token ++ codes "/reject"
  path_of (notifications page) =
      codes "/api/v1/notifications?page=" ++ print page ++ codes "&limit=100"
  path_of (read_notification id) = codes "/api/v1/notifications/" ++ segment id ++ codes "/read"
  path_of (members p page) = base p ++ codes "/members?page=" ++ print page ++ codes "&limit=100"
  path_of (role p user) = base p ++ codes "/members/" ++ segment user
  path_of (share_invitation p) = base p ++ codes "/share-invitation"
  path_of (create_share_invitation p) = base p ++ codes "/share-invitation"
  path_of (revoke_share_invitation p) = base p ++ codes "/share-invitation"
  path_of (project_invitation code) = codes "/api/v1/project-invitations/" ++ segment code
  path_of (join_project_invitation code) =
      codes "/api/v1/project-invitations/" ++ segment code ++ codes "/join"
  path_of google_connection = codes "/api/v1/google/connection"
  path_of connect_google = codes "/api/v1/google/connect"
  path_of disconnect_google = codes "/api/v1/google/connection"
  path_of (drive_files query page_token) =
      codes "/api/v1/google/drive/files?query="
      ++ segment query
      ++ codes "&pageToken="
      ++ segment page_token
  path_of (project_files p page) = base p ++ codes "/files?page=" ++ segment page
  path_of (attach_project_file p) = base p ++ codes "/files"
  path_of (remove_project_file p reference_id) = base p ++ codes "/files/" ++ segment reference_id
  path_of (mail_messages folder query page_token) =
      codes "/api/v1/google/mail/messages?folder="
      ++ folder
      ++ codes "&query="
      ++ segment query
      ++ codes "&pageToken="
      ++ segment page_token
  path_of (mail_detail id) = codes "/api/v1/google/mail/messages/" ++ segment id
  path_of send_mail = codes "/api/v1/google/mail/send"
  path_of (mail_send_receipt request_id) = codes "/api/v1/google/mail/sends/" ++ segment request_id
  path_of (google_calendars page_token) =
      codes "/api/v1/google/calendars?pageToken=" ++ segment page_token
  path_of (project_calendar p) = base p ++ codes "/calendar"
  path_of (bind_project_calendar p) = base p ++ codes "/calendar"
  path_of (unbind_project_calendar p) = base p ++ codes "/calendar"
  path_of calendar = codes "/api/v1/calendar/connection"
  path_of reconnect = codes "/api/v1/calendar/reconnect"
  path_of (projection p s) = item p s ++ codes "/calendar"
  path_of (retry_projection p s) = item p s ++ codes "/calendar/retry"
  path_of (plan p query) = base p ++ codes "/plan" ++ query_part query
  path_of (save_plan p) = base p ++ codes "/plan"
  path_of (create_plan_item p) = base p ++ codes "/plan/items"
  path_of (update_plan_item p id) = base p ++ codes "/plan/items/" ++ segment id
  path_of (plan_history p id page limit) =
      base p
      ++ codes "/plan/items/"
      ++ segment id
      ++ codes "/history?page="
      ++ print page
      ++ codes "&limit="
      ++ print limit
  path_of (workspace p) = base p ++ codes "/schedule-workspace"
  path_of (workspace_property_create p) = base p ++ codes "/schedule-workspace/properties"
  path_of (workspace_property_edit p property_id) =
      base p ++ codes "/schedule-workspace/properties/" ++ segment property_id
  path_of (workspace_view_create p) = base p ++ codes "/schedule-workspace/views"
  path_of (workspace_view_edit p view_id) =
      base p ++ codes "/schedule-workspace/views/" ++ segment view_id
  path_of (workspace_dashboard p) = base p ++ codes "/schedule-workspace/dashboard"
  path_of (workspace_query p) = base p ++ codes "/schedule-workspace/query"
  path_of (workspace_record p s) = base p ++ codes "/schedule-workspace/records/" ++ segment s
  path_of (workspace_record_create p) = base p ++ codes "/schedule-workspace/records"
  path_of (workspace_record_edit p s) = base p ++ codes "/schedule-workspace/records/" ++ segment s
  path_of (workspace_values_edit p s) =
      base p ++ codes "/schedule-workspace/records/" ++ segment s ++ codes "/values"

-- ===== src/Routes/Links.antt =====
-- The links that the screens use, and the way back from a link to its screen.
use ai_erp.Base.{ℕ, Bool, true, false, not, ◌&&◌, List, [], ◌∷◌, ◌++◌, ◌==◌, all, length}
use ai_erp.Base.Text.{codes, is_id_char, text_eq, is_empty}
use ai_erp.Routes.{
  Screen, invite, join, account, drive, mail, notifications, calendar, projects, not_found, google,
  dashboard, invite_create, members, files, calendar_settings, workspace, plan, schedule_new,
  schedule_edit, detail, is_code_char, upper,
}

abbrev pub under_project : List ℕ → List ℕ → List ℕ
under_project id rest = codes "/projects/" ++ id ++ rest

unfoldable pub path_of : Screen → List ℕ
path_of (invite t) = codes "/invitations/" ++ t
path_of (join c) = codes "/join/" ++ c
path_of account = codes "/account"
path_of (google query) = codes "/account/google"
path_of drive = codes "/account/drive"
path_of mail = codes "/account/mail"
path_of notifications = codes "/notifications"
path_of calendar = codes "/calendar"
path_of projects = codes "/"
path_of not_found = []
path_of (dashboard id) = under_project id []
path_of (invite_create id) = under_project id (codes "/invitations/new")
path_of (members id) = under_project id (codes "/members")
path_of (files id) = under_project id (codes "/files")
path_of (calendar_settings id) = under_project id (codes "/calendar")
path_of (workspace id) = under_project id (codes "/schedules")
path_of (plan id) = under_project id (codes "/plan")
path_of (schedule_new id query) = under_project id (codes "/schedules/new")
path_of (schedule_edit id s query) = under_project id (codes "/schedules/" ++ s ++ codes "/edit")
path_of (detail id s) = under_project id (codes "/schedules/" ++ s ++ [])

abbrev pub query_of : Screen → List ℕ
query_of (google query) = query
query_of (schedule_new id query) = query
query_of (schedule_edit id s query) = query
query_of _ = []

abbrev pub query_part : List ℕ → List ℕ
query_part [] = []
query_part (c ∷ query) = b'?' ∷ c ∷ query

abbrev pub link_of : Screen → List ℕ
link_of s = b'#' ∷ path_of s ++ query_part (query_of s)

abbrev pub is_id : List ℕ → Bool
is_id id = not (is_empty id) && all is_id_char id

-- Sixteen letters and digits, none in lower case.
abbrev pub is_code : List ℕ → Bool
is_code c = all (λ d. is_code_char d && upper d == d) c && length c == 16

abbrev pub has_no_mark : List ℕ → Bool
has_no_mark = all (λ c. not (c == b'?'))

-- The screens that have a link: ids, tokens and codes in their form, no question mark in the query,
-- and no detail of a schedule with the id `new`.
unfoldable pub has_link : Screen → Bool
has_link (invite t) = is_id t
has_link (join c) = is_code c
has_link not_found = false
has_link (google query) = has_no_mark query
has_link (dashboard id) = is_id id
has_link (invite_create id) = is_id id
has_link (members id) = is_id id
has_link (files id) = is_id id
has_link (calendar_settings id) = is_id id
has_link (workspace id) = is_id id
has_link (plan id) = is_id id
has_link (schedule_new id query) = is_id id && has_no_mark query
has_link (schedule_edit id s query) = is_id id && is_id s && has_no_mark query
has_link (detail id s) = is_id id && is_id s && not (text_eq s (codes "new"))
has_link _ = true

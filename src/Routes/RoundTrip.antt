-- ===== src/Routes/RoundTrip.antt =====
-- A link leads back to its screen.
use ai_erp.Base.{
  ℕ, ◌≡◌, refl, true, false, not, ◌&&◌, some, List, [], ◌∷◌, ◌++◌, arith, ◌==◌, all, ◌∙◌, ap, subst,
}
use ai_erp.Base.Text.{codes, text_eq, strip_prefix}
use ai_erp.Routes.{
  Screen, invite, join, account, drive, mail, notifications, calendar, projects, not_found, google,
  dashboard, invite_create, members, files, calendar_settings, workspace, plan, schedule_new,
  schedule_edit, detail, screen_of, route_of, before_mark, after_mark, is_code_char, upper,
  strip_any_case, invite_token, join_code, project_screen, is_line_end, or_root,
}
use ai_erp.Routes.Links.{
  under_project, path_of, query_of, query_part, link_of, is_id, has_no_mark, has_link,
}
use ai_erp.Routes.Matching.{
  append-nil, invite_token-link, join_code-link, all-append, id-plain, project_match-link,
  project_match-alone, project_screen-edit, project_screen-detail,
}

-- The screens under a project.
screen_of-project :
    (id rest query : List ℕ) (s : Screen)
    → is_id id ≡ true
    → all (λ d. not (is_line_end d)) rest ≡ true
    → project_screen id rest query ≡ some s
    → screen_of (under_project id (b'/' ∷ rest)) query ≡ s
unfolding screen_of invite_token join_code strip_prefix strip_any_case upper text_eq
screen_of-project id rest query s h plain e = rw (project_match-link id rest h plain, e) refl

schedule-plain :
    (s t : List ℕ)
    → is_id s ≡ true
    → all (λ d. not (is_line_end d)) t ≡ true
    → all (λ d. not (is_line_end d)) (codes "schedules/" ++ s ++ t) ≡ true
schedule-plain s t h k =
    rw (all-append (λ d. not (is_line_end d)) s t, (id-plain s (ground arith)).1, k) refl

pub screen_of-path_of : (s : Screen) → has_link s ≡ true → screen_of (path_of s) (query_of s) ≡ s
unfolding screen_of path_of has_link invite_token join_code strip_prefix strip_any_case upper
    text_eq project_screen
screen_of-path_of (invite t) h = rw (invite_token-link t h) refl
screen_of-path_of (join c) h = rw (join_code-link c h) refl
screen_of-path_of not_found h = absurd (ground arith)
screen_of-path_of (dashboard id) h = rw (project_match-alone id h) refl
screen_of-path_of (invite_create id) h = screen_of-project id _ [] _ h refl refl
screen_of-path_of (members id) h = screen_of-project id _ [] _ h refl refl
screen_of-path_of (files id) h = screen_of-project id _ [] _ h refl refl
screen_of-path_of (calendar_settings id) h = screen_of-project id _ [] _ h refl refl
screen_of-path_of (workspace id) h = screen_of-project id _ [] _ h refl refl
screen_of-path_of (plan id) h = screen_of-project id _ [] _ h refl refl
screen_of-path_of (schedule_new id query) h =
    screen_of-project id _ query _ (ground arith) refl refl
screen_of-path_of (schedule_edit id s query) h =
    screen_of-project id _ query _ (ground arith)
      (schedule-plain s (codes "/edit") (ground arith) refl)
      (project_screen-edit id s query (ground arith))
screen_of-path_of (detail id s) h =
    screen_of-project id _ [] _ (ground arith) (schedule-plain s [] (ground arith) refl)
      (project_screen-detail id s [] (ground arith) (ground arith))
screen_of-path_of account h = refl
screen_of-path_of drive h = refl
screen_of-path_of mail h = refl
screen_of-path_of notifications h = refl
screen_of-path_of calendar h = refl
screen_of-path_of projects h = refl
screen_of-path_of (google query) h = refl

before_mark-link :
    (path query : List ℕ) → has_no_mark path ≡ true → before_mark (path ++ query_part query) ≡ path
unfolding before_mark
before_mark-link [] [] h = refl
before_mark-link [] (c ∷ q) h = refl
before_mark-link (c ∷ path) query h =
    let no : c == b'?' ≡ false = ground arith in
    rw no (ap (λ t. c ∷ t) (before_mark-link path query (ground arith)))

after_mark-link :
    (path query : List ℕ) → has_no_mark path ≡ true → after_mark (path ++ query_part query) ≡ query
unfolding after_mark
after_mark-link [] [] h = refl
after_mark-link [] (c ∷ q) h = refl
after_mark-link (c ∷ path) query h =
    let no : c == b'?' ≡ false = ground arith in rw no (after_mark-link path query (ground arith))

before_mark-whole : (q : List ℕ) → has_no_mark q ≡ true → before_mark q ≡ q
before_mark-whole q h = subst (λ t. before_mark t ≡ q) (append-nil q) (before_mark-link q [] h)

project-no_mark :
    (id rest : List ℕ) → is_id id ≡ true → has_no_mark (under_project id rest) ≡ has_no_mark rest
project-no_mark id rest h =
    rw (all-append (λ c. not (c == b'?')) id rest, (id-plain id (ground arith)).0) refl

schedule-no_mark :
    (s t : List ℕ)
    → is_id s ≡ true
    → has_no_mark t ≡ true
    → has_no_mark (codes "/schedules/" ++ s ++ t) ≡ true
schedule-no_mark s t h k =
    rw (all-append (λ c. not (c == b'?')) s t, (id-plain s (ground arith)).0, k) refl

code-no_mark :
    (c : List ℕ) → all (λ d. is_code_char d && upper d == d) c ≡ true → has_no_mark c ≡ true
unfolding is_code_char
code-no_mark [] h = refl
code-no_mark (d ∷ c) h = ground (arith, code-no_mark c)

path_of-no_mark : (s : Screen) → has_link s ≡ true → has_no_mark (path_of s) ≡ true
unfolding path_of has_link
path_of-no_mark (invite t) h = (id-plain t (ground arith)).0
path_of-no_mark (join c) h = code-no_mark c (ground arith)
path_of-no_mark not_found h = refl
path_of-no_mark (dashboard id) h = project-no_mark id _ h
path_of-no_mark (invite_create id) h = project-no_mark id _ h
path_of-no_mark (members id) h = project-no_mark id _ h
path_of-no_mark (files id) h = project-no_mark id _ h
path_of-no_mark (calendar_settings id) h = project-no_mark id _ h
path_of-no_mark (workspace id) h = project-no_mark id _ h
path_of-no_mark (plan id) h = project-no_mark id _ h
path_of-no_mark (schedule_new id query) h = project-no_mark id _ (ground arith)
path_of-no_mark (schedule_edit id s query) h =
    project-no_mark id _ (ground arith) ∙ schedule-no_mark s (codes "/edit") (ground arith) refl
path_of-no_mark (detail id s) h =
    project-no_mark id _ (ground arith) ∙ schedule-no_mark s [] (ground arith) refl
path_of-no_mark account h = refl
path_of-no_mark drive h = refl
path_of-no_mark mail h = refl
path_of-no_mark notifications h = refl
path_of-no_mark calendar h = refl
path_of-no_mark projects h = refl
path_of-no_mark (google query) h = refl

query_of-no_mark : (s : Screen) → has_link s ≡ true → has_no_mark (query_of s) ≡ true
unfolding has_link
query_of-no_mark s h = ground arith

path_of-root :
    (s : Screen) (t : List ℕ) → has_link s ≡ true → or_root (path_of s ++ t) ≡ path_of s ++ t
unfolding path_of has_link
path_of-root s t h = ground arith

-- Every screen that has a link is the one that its link leads to.
pub route_of-link_of : (s : Screen) → has_link s ≡ true → route_of (link_of s) ≡ s
unfolding route_of
route_of-link_of s h =
    rw
      (
        path_of-root s (query_part (query_of s)) h,
        before_mark-link (path_of s) (query_of s) (path_of-no_mark s h),
        after_mark-link (path_of s) (query_of s) (path_of-no_mark s h),
        before_mark-whole (query_of s) (query_of-no_mark s h),
      )
      (screen_of-path_of s h)

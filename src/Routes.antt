-- ===== src/Routes.antt =====
-- frontend/src/App.tsx: the screen that `Routes` shows for the hash of the location. Texts are lists
-- of code points.
pub mod Links
pub mod Matching
pub mod RoundTrip
mod Tests
use ai_erp.Base.{
  ℕ, ◌+◌, ◌-◌, Bool, true, false, not, ◌&&◌, ◌||◌, Option, none, some, List, [], ◌∷◌, ◌++◌, leb,
  ◌==◌, all, map, length, if◌then◌else◌,
}
use ai_erp.Base.Text.{codes, is_id_char, strip_prefix, span, text_eq, is_empty}

-- The screens with what they are given.
pub data Screen : Type 0 where
  invite join : List ℕ → Screen
  account drive mail notifications calendar projects not_found : Screen
  google : List ℕ → Screen
  dashboard invite_create members files calendar_settings workspace plan : List ℕ → Screen
  schedule_new : List ℕ → List ℕ → Screen
  schedule_edit : List ℕ → List ℕ → List ℕ → Screen
  detail : List ℕ → List ℕ → Screen

abbrev pub or_screen : Option Screen → Screen → Screen
or_screen none later = later
or_screen (some s) later = s

-- `([A-Za-z0-9_-]+)` and what follows it.
abbrev pub nonempty_id : List ℕ × List ℕ → Option (List ℕ × List ℕ)
nonempty_id ([], rest) = none
nonempty_id (c ∷ id, rest) = some (c ∷ id, rest)

unfoldable pub take_id : List ℕ → Option (List ℕ × List ℕ)
unfolding span is_id_char
take_id t = nonempty_id (span is_id_char t)

-- `([A-Za-z0-9_-]+)` up to the end.
abbrev pub at_end : Option (List ℕ × List ℕ) → Option (List ℕ)
at_end (some (id, [])) = some id
at_end _ = none

abbrev pub if_some : {A B : Type 0} → Option A → (A → Option B) → Option B
if_some none f = none
if_some (some a) f = f a

-- `/^\/invitations\/([A-Za-z0-9_-]+)$/`
unfoldable pub invite_token : List ℕ → Option (List ℕ)
unfolding strip_prefix take_id
invite_token path = if_some (strip_prefix (codes "/invitations/") path) (λ t. at_end (take_id t))

-- `[0-9A-HJKMNP-TV-Za-z]` with the flag `i`: every letter and digit.
unfoldable pub is_code_char : ℕ → Bool
is_code_char c =
    (leb b'0' c && leb c b'9') || (leb b'A' c && leb c b'Z') || (leb b'a' c && leb c b'z')

-- `toUpperCase` of a letter or digit.
unfoldable pub upper : ℕ → ℕ
upper c = if leb b'a' c && leb c b'z' then c - 32 else c

-- The text behind a literal prefix, in whatever case: the flag `i`.
unfoldable pub strip_any_case : List ℕ → List ℕ → Option (List ℕ)
unfolding upper
strip_any_case [] s = some s
strip_any_case (c ∷ p) [] = none
strip_any_case (c ∷ p) (d ∷ s) = if upper c == upper d then strip_any_case p s else none

abbrev pub code_of : List ℕ → Option (List ℕ)
code_of t = if all is_code_char t && length t == 16 then some (map upper t) else none

-- `/^\/join\/([0-9A-HJKMNP-TV-Za-z]{16})$/i`, the code in upper case.
unfoldable pub join_code : List ℕ → Option (List ℕ)
unfolding strip_any_case is_code_char upper
join_code path = if_some (strip_any_case (codes "/join/") path) code_of

-- What `.` does not match.
abbrev pub is_line_end : ℕ → Bool
is_line_end c = c == 10 || c == 13 || c == 8232 || c == 8233

-- `(?:\/(.*))?$`, where a missing group is the empty text.
abbrev pub rest_of : List ℕ → Option (List ℕ)
rest_of [] = some []
rest_of (c ∷ rest) = if c == b'/' && all (λ d. not (is_line_end d)) rest then some rest else none

-- `/^\/projects\/([A-Za-z0-9_-]+)(?:\/(.*))?$/`
unfoldable pub project_match : List ℕ → Option (List ℕ × List ℕ)
unfolding strip_prefix take_id
project_match path =
    if_some (strip_prefix (codes "/projects/") path)
      (λ t. if_some (take_id t) (λ m. if_some (rest_of m.1) (λ rest. some (m.0, rest))))

-- `/^schedules\/([A-Za-z0-9_-]+)\/edit$/`
unfoldable pub edit_match : List ℕ → Option (List ℕ)
unfolding strip_prefix take_id text_eq
edit_match rest =
    if_some (strip_prefix (codes "schedules/") rest)
      (λ t. if_some (take_id t) (λ m. if text_eq m.1 (codes "/edit") then some m.0 else none))

-- `/^schedules\/([A-Za-z0-9_-]+)$/`
unfoldable pub detail_match : List ℕ → Option (List ℕ)
unfolding strip_prefix take_id
detail_match rest = if_some (strip_prefix (codes "schedules/") rest) (λ t. at_end (take_id t))

abbrev pub when : Bool → Screen → Option Screen
when b s = if b then some s else none

-- The first screen of a list of tests that fits.
abbrev pub first : List (Option Screen) → Option Screen
first [] = none
first (none ∷ os) = first os
first (some s ∷ os) = some s

-- The screens of a project; `query` is the text behind the question mark.
unfoldable pub project_screen : List ℕ → List ℕ → List ℕ → Option Screen
unfolding edit_match detail_match text_eq
project_screen id rest query = first (
    when (is_empty rest) (dashboard id)
    ∷ when (text_eq rest (codes "invitations/new")) (invite_create id)
    ∷ when (text_eq rest (codes "members")) (members id)
    ∷ when (text_eq rest (codes "files")) (files id)
    ∷ when (text_eq rest (codes "calendar")) (calendar_settings id)
    ∷ when (text_eq rest (codes "schedules")) (workspace id)
    ∷ when (text_eq rest (codes "plan")) (plan id)
    ∷ when (text_eq rest (codes "schedules/new")) (schedule_new id query)
    ∷ if_some (edit_match rest) (λ s. some (schedule_edit id s query))
    ∷ if_some (detail_match rest) (λ s. some (detail id s))
    ∷ [])

unfoldable pub screen_of : List ℕ → List ℕ → Screen
unfolding invite_token join_code project_match project_screen text_eq
screen_of path query =
    or_screen
      (first (
        if_some (invite_token path) (λ t. some (invite t))
        ∷ if_some (join_code path) (λ c. some (join c))
        ∷ when (text_eq path (codes "/account")) account
        ∷ when (text_eq path (codes "/account/google")) (google query)
        ∷ when (text_eq path (codes "/account/drive")) drive
        ∷ when (text_eq path (codes "/account/mail")) mail
        ∷ when (text_eq path (codes "/notifications")) notifications
        ∷ when (text_eq path (codes "/calendar")) calendar
        ∷ if_some (project_match path) (λ m. project_screen m.0 m.1 query)
        ∷ when (text_eq path (codes "/")) projects
        ∷ []))
      not_found

-- `split("?", 2)`: the text up to the first question mark, and from there up to the second.
unfoldable pub before_mark : List ℕ → List ℕ
before_mark [] = []
before_mark (c ∷ s) = if c == b'?' then [] else c ∷ before_mark s

unfoldable pub after_mark : List ℕ → List ℕ
after_mark [] = []
after_mark (c ∷ s) = if c == b'?' then s else after_mark s

-- `window.location.hash.replace(/^#/, "") || "/"`
abbrev pub without_hash : List ℕ → List ℕ
without_hash [] = []
without_hash (c ∷ s) = if c == b'#' then s else c ∷ s

abbrev pub or_root : List ℕ → List ℕ
or_root [] = codes "/"
or_root (c ∷ s) = c ∷ s

unfoldable pub route_of : List ℕ → Screen
unfolding screen_of before_mark after_mark
route_of hash =
    let path = or_root (without_hash hash) in
    screen_of (before_mark path) (before_mark (after_mark path))

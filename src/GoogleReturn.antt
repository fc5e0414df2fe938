-- ===== src/GoogleReturn.antt =====
-- frontend/src/google-return-context.ts: the way back to a project's files after a visit to the
-- Google settings, kept in the session storage for ten minutes.
pub mod Laws
mod Tests
use ai_erp.Base.{
  ℕ, ◌-◌, String, Bool, true, false, not, ◌&&◌, ◌||◌, Option, none, some, List, [], ◌∷◌, ltb, leb,
  if◌then◌else◌, str_eq,
}
use ai_erp.Base.Text.{codes, is_id_char, strip_prefix, span, text_eq, is_empty}
use ai_erp.Browser.{
  Browser, Stored, empty, malformed, scalar, object, Field, missing, text, number, other, Number,
  finite, infinite,
}

abbrev pub max_age_ms : ℕ
max_age_ms = 600000

pub record GoogleReturnContext : Type 0 where
  pub user_id : String
  pub return_to : String
  pub created_at : ℕ

files_tail : List ℕ × List ℕ → Bool
files_tail (id, rest) = not (is_empty id) && text_eq rest (codes "/files")

-- /^\/projects\/[A-Za-z0-9_-]+\/files$/
pub is_google_project_files_path : String → Bool
unfolding strip_prefix span is_id_char text_eq files_tail
is_google_project_files_path value = elim (strip_prefix (codes "/projects/") (codes value)) [
  | none ↦ false
  | some rest ↦ files_tail (span is_id_char rest)
]

-- `Date.now() - createdAt` lies between 0 and the maximum.
abbrev pub is_fresh : ℕ → ℕ → Bool
is_fresh now created_at = leb created_at now && leb (now - created_at) max_age_ms

checked_context : Field → Field → Field → ℕ → Option GoogleReturnContext
unfolding is_google_project_files_path
checked_context (text user) (text path) (number (finite created)) now =
    if not (str_eq user "") && is_google_project_files_path path && is_fresh now created
    then some (record { user_id = user; return_to = path; created_at = created })
    else none
checked_context _ _ _ now = none

parse_stored : Stored → ℕ → Option GoogleReturnContext
unfolding checked_context
parse_stored (object user path created) now = checked_context user path created now
parse_stored _ now = none

-- `readStoredContext`; the exception of a storage that does not work is caught.
pub read_stored_context : Browser → ℕ → Option GoogleReturnContext
unfolding parse_stored
read_stored_context b now =
    if b.has_window && b.storage_works
    then elim b.google_return [ none ↦ none | some stored ↦ parse_stored stored now ]
    else none

unfoldable pub clear_google_return_context : Browser → Browser
clear_google_return_context b =
    if b.has_window && b.storage_works then record b { google_return = none } else b

is_savable : String → String → Number → ℕ → Bool
unfolding is_google_project_files_path
is_savable user path infinite now = false
is_savable user path (finite created) now =
    not (str_eq user "") && is_google_project_files_path path && is_fresh now created

pub save_google_return_context : Browser → String → String → Number → ℕ → Browser × Bool
unfolding is_savable clear_google_return_context
save_google_return_context b user path created now =
    if is_savable user path created now
    then (if b.has_window && b.storage_works
        then (
          record b { google_return = some (object (text user) (text path) (number created)) },
          true,
        )
        else (b, false))
    else (clear_google_return_context b, false)

-- `context?.userId === userId ? context : undefined`
own_context : String → Option GoogleReturnContext → Option GoogleReturnContext
own_context user none = none
own_context user (some c) = if str_eq c.user_id user then some c else none

pub get_google_return_context : Browser → String → ℕ → Option GoogleReturnContext
unfolding read_stored_context own_context
get_google_return_context b user now = own_context user (read_stored_context b now)

pub consume_google_return_context : Browser → String → ℕ → Browser × Option GoogleReturnContext
unfolding read_stored_context own_context clear_google_return_context
consume_google_return_context b user now =
    (clear_google_return_context b, own_context user (read_stored_context b now))

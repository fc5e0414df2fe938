-- ===== src/GoogleReturn/Laws.antt =====
-- What a stored Google return context can and cannot do.
use ai_erp.Base.{
  ℕ, ◌+◌, ◌≤◌, ◌≡◌, refl, ◌≢◌, ◌&&◌, String, Bool, true, false, Option, none, some, arith, eq_iff,
  if◌then◌else◌, str_eq,
}
use ai_erp.Browser.{Browser, Stored, object, Field, text, number, finite}
use ai_erp.GoogleReturn.{
  GoogleReturnContext, is_google_project_files_path, max_age_ms, checked_context, parse_stored,
  read_stored_context, save_google_return_context, get_google_return_context,
  consume_google_return_context, own_context,
}

-- A context that may be followed: for this user, to a project's files, at most ten minutes old.
pub record IsSound (user : String) (now : ℕ) (c : GoogleReturnContext) : Type 0 where
  pub owned : c.user_id ≡ user
  pub named : user ≢ ""
  pub safe_path : is_google_project_files_path c.return_to ≡ true
  pub past : c.created_at ≤ now
  pub recent : now ≤ c.created_at + max_age_ms

record IsChecked (now : ℕ) (c : GoogleReturnContext) : Type 0 where
  named : c.user_id ≢ ""
  safe_path : is_google_project_files_path c.return_to ≡ true
  past : c.created_at ≤ now
  recent : now ≤ c.created_at + max_age_ms

checked_context-IsChecked :
    (user path created : Field) (now : ℕ) (c : GoogleReturnContext)
    → checked_context user path created now ≡ some c
    → IsChecked now c
unfolding checked_context
checked_context-IsChecked (text u) (text p) (number (finite t)) now c h =
    ground (arith, eq_iff u "")
checked_context-IsChecked _ _ _ now c h = cc

parse_stored-IsChecked :
    (s : Stored) (now : ℕ) (c : GoogleReturnContext) → parse_stored s now ≡ some c → IsChecked now c
unfolding parse_stored
parse_stored-IsChecked (object u p t) now c h = checked_context-IsChecked u p t now c h
parse_stored-IsChecked _ now c h = cc

read_stored_context-IsChecked :
    (b : Browser) (now : ℕ) (c : GoogleReturnContext)
    → read_stored_context b now ≡ some c
    → IsChecked now c
unfolding read_stored_context
read_stored_context-IsChecked b now c h = go b.has_window b.storage_works b.google_return h
  where
    go :
        (w s : Bool) (e : Option Stored)
        → (if w && s then elim e [ none ↦ none | some stored ↦ parse_stored stored now ] else none)
          ≡ some c
        → IsChecked now c
    go true true (some stored) p = parse_stored-IsChecked stored now c p
    go true true none p = cc
    go true false e p = cc
    go false s e p = cc

own_context-IsSound :
    (user : String) (now : ℕ) (o : Option GoogleReturnContext) (c : GoogleReturnContext)
    → ((d : GoogleReturnContext) → o ≡ some d → IsChecked now d)
    → own_context user o ≡ some c
    → IsSound user now c
unfolding own_context
own_context-IsSound user now none c k h = cc
own_context-IsSound user now (some d) c k h =
    let checked : IsChecked now d = k d refl in ground (arith, checked, eq_iff d.user_id user)

-- Whatever text the session storage holds, a context that is handed to a user was stored for that
-- user, leads to the files of a project, and is from the last ten minutes.
pub get_google_return_context-IsSound :
    (b : Browser) (user : String) (now : ℕ) (c : GoogleReturnContext)
    → get_google_return_context b user now ≡ some c
    → IsSound user now c
unfolding get_google_return_context
get_google_return_context-IsSound b user now c h =
    own_context-IsSound user now (read_stored_context b now) c
      (λ d. read_stored_context-IsChecked b now d) h

-- With a working storage, a context that was saved is found by its user for ten minutes and by no
-- other user; consuming it hands it out and leaves nothing to be found.
get-save_google_return_context :
    (b : Browser) (user reader path : String) (created saved now : ℕ)
    → (save_google_return_context b user path (finite created) saved).1 ≡ true
    → created ≤ now
    → now ≤ created + max_age_ms
    → (get_google_return_context
          (save_google_return_context b user path (finite created) saved).0
          reader
          now
        ≡ (if str_eq user reader
            then some (record { user_id = user; return_to = path; created_at = created })
            else none))
      × ((consume_google_return_context
            (save_google_return_context b user path (finite created) saved).0
            user
            now).1
          ≡ some (record { user_id = user; return_to = path; created_at = created }))
      × (get_google_return_context
            (consume_google_return_context
              (save_google_return_context b user path (finite created) saved).0
              user
              now).0
            reader
            now
          ≡ none)
unfolding save_google_return_context get_google_return_context consume_google_return_context
    read_stored_context
get-save_google_return_context b user reader path created saved now h p q = (
  ground (arith, eq_iff user reader, eq_iff user ""),
  ground (arith, eq_iff user user, eq_iff user ""),
  ground arith,
)

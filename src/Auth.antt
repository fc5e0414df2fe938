-- ===== src/Auth.antt =====
-- frontend/src/screens/Account.tsx: `Auth`, the gate before every screen, and `AccountSwitch`, with
-- the link to an invitation that the session storage keeps while the user signs in.
pub mod Links
pub mod Return
mod Tests
use ai_erp.Base.{
  ℕ, String, str_eq, Bool, true, false, not, ◌&&◌, ◌||◌, Option, none, some, List, [], ◌∷◌, or_else,
  if◌then◌else◌, ◌==◌,
}
use ai_erp.Base.Text.{codes, is_id_char, strip_prefix}
use ai_erp.Browser.{Browser}
use ai_erp.Session.{Session, terminate_session, capture_session, is_session_context_active}
use ai_erp.State.Denials.{Failure, api_error}
use ai_erp.Invitations.{is_symbol, is_invitation_code, nonempty_all}

-- The window: the session with its browser, and the hash of the location.
pub record Window : Type 0 where
  pub session : Session
  pub hash : String

abbrev pub matches : (List ℕ → Bool) → Option (List ℕ) → Bool
matches p none = false
matches p (some rest) = p rest

-- `/^#\/(?:invitations\/[A-Za-z0-9_-]+|join\/[0-9A-HJKMNP-TV-Z]{16})$/`
unfoldable pub is_invitation_hash : String → Bool
unfolding strip_prefix is_id_char is_symbol
is_invitation_hash hash =
    matches (nonempty_all is_id_char) (strip_prefix (codes "#/invitations/") (codes hash))
    || matches is_invitation_code (strip_prefix (codes "#/join/") (codes hash))

-- `sessionStorage.setItem` and `removeItem`; the browser throws where the storage cannot be used.
unfoldable pub put_invitation : Option String → Window → Option Window
put_invitation entry w =
    let b = w.session.browser in
    if b.storage_works
    then some
        (record w { session = record w.session { browser = record b { invitation = entry } } })
    else none

-- The saved link, if the page has none of its own and the link is one of an invitation.
unfoldable pub restored_hash : Option String → String → String
unfolding is_invitation_hash
restored_hash saved hash =
    let value = or_else saved "" in
    if (str_eq hash "" || str_eq hash "#/") && is_invitation_hash value then value else hash

-- The effect of a user who is signed in.
unfoldable pub on_ready : Bool → Bool → Window → Option Window
unfolding put_invitation restored_hash
on_ready me_success session_expired w =
    if not me_success || session_expired
    then some w
    else put_invitation none (record w { hash = restored_hash w.session.browser.invitation w.hash })

-- A link to an invitation is saved before the page is left.
unfoldable pub save_continuation : Window → Option Window
unfolding is_invitation_hash put_invitation
save_continuation w = if is_invitation_hash w.hash then put_invitation (some w.hash) w else some w

-- `onClick` of the link to the sign-in.
unfoldable pub on_login_click : Window → Option Window
unfolding save_continuation
on_login_click w = save_continuation w

-- `onMutate` of the logout: the page and the captured session.
abbrev pub with_context : Option Window → Option (Window × ℕ)
with_context none = none
with_context (some w) = some (w, capture_session w.session)

unfoldable pub on_logout : Window → Option (Window × ℕ)
unfolding save_continuation capture_session
on_logout w = with_context (save_continuation w)

-- `onSuccess` of the logout.
unfoldable pub on_logged_out : ℕ → Window → Window
unfolding terminate_session is_session_context_active
on_logged_out context w =
    if is_session_context_active (some context) w.session
    then record w { session = (terminate_session none w.session).0 }
    else w

-- `onError` of the logout: the failure to be shown.
unfoldable pub on_logout_error : ℕ → Failure → Option Failure → Window → Option Failure
unfolding is_session_context_active
on_logout_error context e shown w =
    if is_session_context_active (some context) w.session then some e else shown

-- What the gate reads of its two queries.
pub record Configuration : Type 0 where
  pub is_ready : Bool
  pub login_url : Option String

pub data MeQuery : Type 0 where
  me_waits : MeQuery
  me_fails : Failure → MeQuery
  me_success : MeQuery

pub data View : Type 0 where
  configuration_state no_login me_state children : View
  sign_in : Bool → String → View

abbrev pub is_unauthorized : Failure → Bool
is_unauthorized (api_error status) = status == 401
is_unauthorized _ = false

abbrev pub me_view : Bool → String → MeQuery → View
me_view true url me = sign_in true url
me_view false url me_waits = me_state
me_view false url (me_fails e) = if is_unauthorized e then sign_in false url else me_state
me_view false url me_success = children

-- `config.data.login !== "READY" || !config.data.loginUrl`
abbrev pub login_view : Bool → Option String → MeQuery → Bool → View
login_view false url me expired = no_login
login_view true none me expired = no_login
login_view true (some url) me expired = if str_eq url "" then no_login else me_view expired url me

-- `configuration` is `none` until the query of the configuration succeeds.
unfoldable pub auth_view : Option Configuration → MeQuery → Bool → View
auth_view none me expired = configuration_state
auth_view (some c) me expired = login_view c.is_ready c.login_url me expired

-- `enabled` of the query of the user.
abbrev pub me_enabled : Option Configuration → Bool → Bool
me_enabled none expired = false
me_enabled (some c) expired = c.is_ready && not expired

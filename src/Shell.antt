-- ===== src/Shell.antt =====
-- frontend/src/App.tsx: `App`, the start of a session and what the page makes of its end.
pub mod Expiry
mod Tests
use ai_erp.Base.{ℕ, Bool, true, false, ◌&&◌, ◌||◌, Option, none, some, List, ◌==◌, if◌then◌else◌}
use ai_erp.Session.{
  Session, SessionEvent, begin_session_boundary, terminate_session, is_session_active,
}
use ai_erp.State.{Store, reset_access_state}
use ai_erp.Api.{Thrown, api_error, Result, returned, thrown, Response, parse}

pub record App : Type 0 where
  pub session : Session
  pub store : Store
  pub expired : Bool

-- The initial state of the page.
unfoldable pub start_app : Session → Store → App
unfolding begin_session_boundary reset_access_state
start_app s store = record {
  session = begin_session_boundary s;
  store = reset_access_state store;
  expired = false;
}

-- `error.sessionGeneration === undefined || isSessionActive(error.sessionGeneration)`
abbrev pub concerns : Option ℕ → Session → Bool
concerns none s = true
concerns (some g) s = is_session_active g s

-- `onError` of the query and of the mutation cache.
unfoldable pub on_error : Thrown → App → App
unfolding terminate_session is_session_active
on_error (api_error status problem generation) a =
    if status == 401 && concerns generation a.session
    then record a { session = (terminate_session generation a.session).0; expired = true }
    else a
on_error _ a = a

-- The listener of the event that ends a session.
unfoldable pub mark_expired : App → App
unfolding terminate_session
mark_expired a = record a { session = (terminate_session none a.session).0; expired = true }

-- The session has changed, and the listener is called if it has dispatched its event.
unfoldable pub after_session : Session → App → App
unfolding mark_expired
after_session s a =
    if s.browser.expired_events == a.session.browser.expired_events
    then record a { session = s }
    else mark_expired (record a { session = s })

abbrev pub settled : {A : Type 0} → Result A → App → App
settled (returned v) a = a
settled (thrown e) a = on_error e a

-- A query or a mutation is answered: the client reads the answer, and the cache hears of its error.
module _ {A : Type 0} where
  unfoldable pub answered : Response A → ℕ → Bool → List SessionEvent → App → App
  unfolding parse after_session on_error
  answered r g allow waiting a =
      let (s, result) = parse r (some g) allow true waiting a.session in
      settled result (after_session s a)

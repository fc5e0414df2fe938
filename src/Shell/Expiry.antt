-- ===== src/Shell/Expiry.antt =====
-- How the page hears of the end of its session.
use ai_erp.Base.{ℕ, ◌≡◌, Bool, true, false, some, List, arith, if◌then◌else◌, Bool-cases, inl, inr}
use ai_erp.Browser.{dispatch_expired}
use ai_erp.GoogleReturn.{clear_google_return_context}
use ai_erp.Session.{Session, SessionEvent, terminate_session, is_session_active}
use ai_erp.Api.{Response, parse, no_problem, api_error, thrown}
use ai_erp.Shell.{App, on_error, mark_expired, after_session, answered}

parse-401 :
    {A : Type 0} (r : Response A) (g : ℕ) (allow : Bool) (waiting : List SessionEvent) (s : Session)
    → r.status ≡ 401
    → parse r (some g) allow true waiting s ≡ (
      if is_session_active g s then (terminate_session (some g) s).0 else s,
      thrown (api_error 401 no_problem (some g)),
    )
unfolding parse
parse-401 r g allow waiting s h = ground arith

-- What the page holds after the answer: the session ended with one event, or nothing new.
abbrev pub expired_by : ℕ → App → App
expired_by g a =
    if is_session_active g a.session
    then record a { session = (terminate_session (some g) a.session).0; expired = true }
    else a

heard :
    (g : ℕ) (a : App)
    → a.session.browser.has_window ≡ true
    → is_session_active g a.session ≡ true
    → on_error
        (api_error 401 no_problem (some g))
        (after_session (terminate_session (some g) a.session).0 a)
      ≡ record a { session = (terminate_session (some g) a.session).0; expired = true }
unfolding after_session mark_expired on_error terminate_session is_session_active dispatch_expired
    clear_google_return_context
heard g a w live = ground arith

unheard :
    (g : ℕ) (a : App)
    → is_session_active g a.session ≡ false
    → on_error (api_error 401 no_problem (some g)) (after_session a.session a) ≡ a
unfolding after_session on_error
unheard g a over = ground arith

-- In a page with a window, an answer 401 to a request of the live session ends the session with one
-- event and marks the page as expired, though the listener of the event and the cache both hear of
-- it; an answer 401 to a request of an earlier session changes nothing.
pub answered-401 :
    {A : Type 0} (r : Response A) (g : ℕ) (allow : Bool) (waiting : List SessionEvent) (a : App)
    → r.status ≡ 401
    → a.session.browser.has_window ≡ true
    → answered r g allow waiting a ≡ expired_by g a
unfolding answered
answered-401 r g allow waiting a h w = elim (Bool-cases (is_session_active g a.session)) [
  | inl live ↦ rw (parse-401 r g allow waiting a.session h, live) (heard g a w live)
  | inr over ↦ rw (parse-401 r g allow waiting a.session h, over) (unheard g a over)
]

-- ===== src/Session.antt =====
-- frontend/src/session.ts: the session's generation counter and its end. The two module variables
-- and the browser they act on are one record.
pub mod Laws
mod Tests
use ai_erp.Base.{
  ℕ, suc, Bool, true, false, not, ◌&&◌, Option, none, some, List, [], ◌∷◌, ◌==◌, if◌then◌else◌,
}
use ai_erp.Browser.{Browser, dispatch_expired}
use ai_erp.GoogleReturn.{clear_google_return_context}

pub record Session : Type 0 where
  pub generation : ℕ
  pub terminated : Bool
  pub browser : Browser

unfoldable pub begin_session_boundary : Session → Session
begin_session_boundary s = record s { generation = suc s.generation; terminated = false }

abbrev pub current_session_generation : Session → ℕ
current_session_generation s = s.generation

-- `expectedGeneration !== undefined && expectedGeneration !== generation`
abbrev pub is_stale : Option ℕ → ℕ → Bool
is_stale none g = false
is_stale (some e) g = not (e == g)

-- The new state, and whether this call ended the session.
unfoldable pub terminate_session : Option ℕ → Session → Session × Bool
unfolding clear_google_return_context dispatch_expired
terminate_session expected s =
    if is_stale expected s.generation then (s, false) else if s.terminated then (s, false) else (
      record {
        generation = suc s.generation;
        terminated = true;
        browser = dispatch_expired (clear_google_return_context s.browser);
      },
      true,
    )

unfoldable pub is_session_active : ℕ → Session → Bool
is_session_active expected s = not s.terminated && expected == s.generation

unfoldable pub capture_session : Session → ℕ
capture_session s = current_session_generation s

-- A context that is not one of `captureSession` is `none`.
unfoldable pub is_session_context_active : Option ℕ → Session → Bool
unfolding is_session_active
is_session_context_active none s = false
is_session_context_active (some g) s = is_session_active g s

-- What else may happen to the session while a caller waits.
pub data SessionEvent : Type 0 where
  begins : SessionEvent
  terminates : Option ℕ → SessionEvent

unfoldable pub happen : SessionEvent → Session → Session
unfolding begin_session_boundary terminate_session
happen begins s = begin_session_boundary s
happen (terminates expected) s = (terminate_session expected s).0

unfoldable pub run : List SessionEvent → Session → Session
unfolding happen
run [] s = s
run (e ∷ es) s = run es (happen e s)

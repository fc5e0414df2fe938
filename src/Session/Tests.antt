-- ===== src/Session/Tests.antt =====
-- Runs of the session boundary, and its theorems at concrete inputs.
use ai_erp.Base.{◌≡◌, refl, true, false, none, some, [], ◌∷◌}
use ai_erp.Browser.{empty}
use ai_erp.Session.{
  Session, is_session_active, begins, terminates, run, capture_session, is_session_context_active,
}
use ai_erp.Session.Laws.{captured_stays_inactive}

abbrev live : Session
live = record {
  generation = 3;
  terminated = false;
  browser = record {
    has_window = true;
    storage_works = true;
    google_return = some empty;
    invitation = none;
    expired_events = 0;
  };
}

reborn : is_session_active 5 (run (terminates (some 3) ∷ begins ∷ []) live) ≡ true
unfolding run is_session_active
reborn = refl

captured_stays_inactive_example :
    is_session_context_active
      (some (capture_session live))
      (run (terminates none ∷ begins ∷ []) live)
    ≡ false
unfolding run is_session_context_active capture_session
captured_stays_inactive_example =
    captured_stays_inactive live (terminates none ∷ []) (begins ∷ []) refl

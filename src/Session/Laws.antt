-- ===== src/Session/Laws.antt =====
-- How the end of a session reaches every caller that waits.
use ai_erp.Base.{
  ℕ, suc, ◌≤◌, ◌≡◌, refl, true, false, Option, none, some, List, [], ◌∷◌, ◌++◌, arith, Bool-cases,
  inl, inr,
}
use ai_erp.Session.{
  Session, terminate_session, is_session_active, is_stale, SessionEvent, begins, terminates, happen,
  run, capture_session, is_session_context_active,
}

-- A generation that is no more than the current one, and not active.
pub record IsPast (g : ℕ) (s : Session) : Type 0 where
  pub reached : g ≤ s.generation
  pub ended : is_session_active g s ≡ false

happen-IsPast : (e : SessionEvent) (g : ℕ) (s : Session) → IsPast g s → IsPast g (happen e s)
unfolding happen is_session_active
happen-IsPast begins g s h = ground arith
happen-IsPast (terminates expected) g s h = ground arith

pub run-IsPast : (es : List SessionEvent) (g : ℕ) (s : Session) → IsPast g s → IsPast g (run es s)
unfolding run
run-IsPast [] g s h = h
run-IsPast (e ∷ es) g s h = run-IsPast es g (happen e s) (happen-IsPast e g s h)

happen-le : (e : SessionEvent) (s : Session) → s.generation ≤ (happen e s).generation
unfolding happen
happen-le begins s = ground arith
happen-le (terminates expected) s = ground arith

pub run-le : (es : List SessionEvent) (s : Session) → s.generation ≤ (run es s).generation
unfolding run
run-le [] s = omega arith
run-le (e ∷ es) s = omega (arith, run-le es (happen e s), happen-le e s)

pub run-append : (es fs : List SessionEvent) (s : Session) → run (es ++ fs) s ≡ run fs (run es s)
unfolding run
run-append [] fs s = refl
run-append (e ∷ es) fs s = run-append es fs (happen e s)

-- Who is active after some events was active before them.
pub active-run :
    (es : List SessionEvent) (g : ℕ) (s : Session)
    → g ≤ s.generation
    → is_session_active g (run es s) ≡ true
    → is_session_active g s ≡ true
active-run es g s reached h = elim (Bool-cases (is_session_active g s)) [
  | inl live ↦ live
  | inr over ↦
      let past : IsPast g (run es s) =
        run-IsPast es g s (record { reached = reached; ended = over }) in
      cc (past.ended)
]

-- A context captured at any moment that is found inactive after some events stays inactive
-- whatever happens then: no later login or logout makes an old context active again.
pub captured_stays_inactive :
    (s : Session) (es fs : List SessionEvent)
    → is_session_context_active (some (capture_session s)) (run es s) ≡ false
    → is_session_context_active (some (capture_session s)) (run (es ++ fs) s) ≡ false
unfolding is_session_context_active capture_session
captured_stays_inactive s es fs h =
    rw (run-append es fs s)
      ((run-IsPast fs s.generation (run es s) (record { reached = run-le es s; ended = h })).ended)

-- While the browser works, one call of those with no expectation or with the current generation
-- ends a live session: it dispatches one event, forgets the Google return context, leaves no
-- captured context active and returns true. Every further call returns false and changes nothing
-- until a new session begins.
terminate_session_once :
    (s : Session) (expected again : Option ℕ) (g : ℕ)
    → s.terminated ≡ false
    → is_stale expected s.generation ≡ false
    → s.browser.has_window ≡ true
    → s.browser.storage_works ≡ true
    → ((terminate_session expected s).1 ≡ true)
      × ((terminate_session expected s).0.browser.expired_events ≡ suc s.browser.expired_events)
      × ((terminate_session expected s).0.browser.google_return ≡ none)
      × (is_session_active g (terminate_session expected s).0 ≡ false)
      × (terminate_session again (terminate_session expected s).0
          ≡ ((terminate_session expected s).0, false))
unfolding terminate_session is_session_active
terminate_session_once s expected again g live fits window works =
    (ground arith, ground arith, ground arith, ground arith, ground arith)

-- A call that expects a generation that is not active leaves the session as it is.
pub terminate_session_stale :
    (s : Session) (old : ℕ)
    → is_session_active old s ≡ false
    → terminate_session (some old) s ≡ (s, false)
unfolding terminate_session is_session_active
terminate_session_stale s old h = ground arith

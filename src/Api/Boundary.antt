-- ===== src/Api/Boundary.antt =====
-- No answer crosses the end of the session in which it was asked for.
use ai_erp.Base.{
  ℕ, suc, ◌≡◌, refl, ◌≤◌, length, inl, inr, String, Bool, true, false, not, ◌&&◌, Option, none,
  some, List, arith, Bool-cases, all,
}
use ai_erp.Session.{Session, terminate_session, is_session_active, SessionEvent, run}
use ai_erp.Session.Laws.{IsPast, run-IsPast}
use ai_erp.Api.{
  Response, Result, returned, thrown, api_error, no_problem, is_ok, parse, Exchange, is_public_path,
  arrived, read, Csrf, Mutation, is_logout, own_logout, settle, send, with_csrf, mutate,
}

abbrev pub is_returned : {A : Type 0} → Result A → Bool
is_returned (returned v) = true
is_returned (thrown e) = false

terminate-IsPast :
    (g : ℕ) (s : Session) → is_session_active g s ≡ true → IsPast g (terminate_session (some g) s).0
unfolding terminate_session is_session_active
terminate-IsPast g s h = record { reached = ground arith; ended = ground arith }

module _ {A : Type 0} where
  parse-active :
      (r : Response A) (g : ℕ) (during : List SessionEvent) (s : Session)
      → is_returned (parse r (some g) false true during s).1 ≡ true
      → is_session_active g (parse r (some g) false true during s).0 ≡ true
  unfolding parse
  parse-active r g during s h = ground arith

  arrived-active :
      (path : String) (g : ℕ) (x : Exchange A) (r : Option (Response A)) (s : Session)
      → is_public_path path ≡ false
      → is_returned (arrived path g x r s).1 ≡ true
      → is_session_active g (arrived path g x r s).0 ≡ true
  unfolding arrived
  arrived-active path g x none s p h = cc
  arrived-active path g x (some r) s p h = rw p (parse-active r g x.during s (rw p at h))

  -- A read of a protected path hands out a value only while the session that it was made for is
  -- active, also if that session ended and another began while the read waited.
  read_returned_active :
      (path : String) (g : ℕ) (x : Exchange A) (s : Session)
      → is_public_path path ≡ false
      → is_returned (read path g x s).1 ≡ true
      → is_session_active g (read path g x s).0 ≡ true
  unfolding read
  read_returned_active path g x s p h = arrived-active path g x x.response (run x.before s) p h

  -- Of two reads of one live session that both answer 401, the first ends the session with one
  -- event and the second changes nothing; both fail with the status 401.
  parse_401_once :
      (r q : Response A) (g : ℕ) (during later : List SessionEvent) (s : Session)
      → is_session_active g s ≡ true
      → r.status ≡ 401
      → q.status ≡ 401
      → s.browser.has_window ≡ true
      → (is_session_active g (parse r (some g) false true during s).0 ≡ false)
        × ((parse r (some g) false true during s).0.browser.expired_events
            ≡ suc s.browser.expired_events)
        × ((parse r (some g) false true during s).1 ≡ thrown (api_error 401 no_problem (some g)))
        × (parse q (some g) false true later (parse r (some g) false true during s).0 ≡ (
          (parse r (some g) false true during s).0,
          thrown (api_error 401 no_problem (some g)),
        ))
  unfolding parse
  parse_401_once r q g during later s live e f w =
      (ground arith, ground arith, ground arith, ground arith)

  -- The session of every request that was sent is the one that the change was asked for in.
  abbrev SentIn : ℕ → Mutation A → Type 0
  SentIn g m = all (λ q. is_session_active g q.session) m.sent ≡ true

  with_csrf-SentIn :
      (path method : String) (body : Option String) (g : ℕ) (x : Exchange A) (s : Session)
      (c : Result Csrf)
      → SentIn g (with_csrf path method body g x s c)
  unfolding with_csrf send
  with_csrf-SentIn path method body g x s (thrown e) = refl
  with_csrf-SentIn path method body g x s (returned none) = refl
  with_csrf-SentIn path method body g x s (returned (some csrf)) = ground arith

  with_csrf-length :
      (path method : String) (body : Option String) (g : ℕ) (x : Exchange A) (s : Session)
      (c : Result Csrf)
      → length (with_csrf path method body g x s c).sent ≤ 1
  unfolding with_csrf send
  with_csrf-length path method body g x s (thrown e) = omega arith
  with_csrf-length path method body g x s (returned none) = omega arith
  with_csrf-length path method body g x s (returned (some csrf)) = ground arith

  -- A changing request is sent at most once, and only while the session in which the change was
  -- asked for is active, whatever happens while the token is fetched.
  pub mutate_sent_active :
      (path method : String) (body : Option String) (c : Exchange Csrf) (x : Exchange A)
      (s : Session)
      → (all (λ q. is_session_active s.generation q.session) (mutate path method body c x s).sent
          ≡ true)
        × (length (mutate path method body c x s).sent ≤ 1)
  unfolding mutate
  mutate_sent_active path method body c x s =
      let t = read "/api/v1/csrf" s.generation c s in
      (
        with_csrf-SentIn path method body s.generation x t.0 t.1,
        with_csrf-length path method body s.generation x t.0 t.1,
      )

  parse-needs :
      (r : Response A) (g : ℕ) (during : List SessionEvent) (s : Session)
      → is_returned (parse r (some g) false true during s).1 ≡ true
      → (is_ok r.status && is_session_active g s) ≡ true
  unfolding parse
  parse-needs r g during s h = ground arith

  -- With a terminated success allowed, a call does nothing to a session of a later generation but
  -- wait.
  parse-IsPast :
      (r : Response A) (g : ℕ) (during : List SessionEvent) (s : Session)
      → IsPast g s
      → IsPast g (parse r (some g) true true during s).0
  unfolding parse
  parse-IsPast r g during s h =
      let waited : IsPast g (run during s) = run-IsPast during g s h in ground (arith, waited)

  own_logout-active :
      (path : String) (g : ℕ) (r : Response A) (s : Session)
      → own_logout path g r s ≡ (is_logout path && is_ok r.status && is_session_active g s)
  unfolding own_logout
  own_logout-active path g r s = refl

  settle-active :
      (path : String) (g : ℕ) (during : List SessionEvent) (r : Option (Response A)) (s : Session)
      → is_returned (settle path g during r s).1 ≡ true
      → is_session_active g (settle path g during r s).0 ≡ not (is_logout path)
  unfolding settle
  settle-active path g during none s h = cc
  settle-active path g during (some r) s h = elim (Bool-cases (own_logout path g r s)) [
    | inl own ↦
        let past : IsPast g (parse r (some g) true true during (terminate_session (some g) s).0).0 =
          parse-IsPast r g during (terminate_session (some g) s).0
            (terminate-IsPast g s (ground (arith, own_logout-active path g r s))) in
        rw own (ground (arith, past.ended, own_logout-active path g r s))
    | inr foreign ↦
        let back : is_returned (parse r (some g) false true during s).1 ≡ true = rw foreign at h in
        rw foreign (
          ground (
            arith,
            parse-active r g during s back,
            parse-needs r g during s back,
            own_logout-active path g r s,
          ))
  ]

  with_csrf-active :
      (path method : String) (body : Option String) (g : ℕ) (x : Exchange A) (s : Session)
      (c : Result Csrf)
      → is_returned (with_csrf path method body g x s c).result ≡ true
      → is_session_active g (with_csrf path method body g x s c).session ≡ not (is_logout path)
  unfolding with_csrf send
  with_csrf-active path method body g x s (thrown e) h = cc
  with_csrf-active path method body g x s (returned none) h = ground arith
  with_csrf-active path method body g x s (returned (some csrf)) h =
      elim (Bool-cases (is_session_active g s)) [
        | inl live ↦
            rw live (settle-active path g x.during x.response (run x.before s) (rw live at h))
        | inr over ↦ cc (rw over at h)
      ]

  -- A change that succeeds leaves the session in which it was asked for active if it was no logout,
  -- and ended if it was the logout.
  pub mutate_returned_active :
      (path method : String) (body : Option String) (c : Exchange Csrf) (x : Exchange A)
      (s : Session)
      → is_returned (mutate path method body c x s).result ≡ true
      → is_session_active s.generation (mutate path method body c x s).session
        ≡ not (is_logout path)
  unfolding mutate
  mutate_returned_active path method body c x s h =
      let t = read "/api/v1/csrf" s.generation c s in
      with_csrf-active path method body s.generation x t.0 t.1 h

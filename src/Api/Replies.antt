-- ===== src/Api/Replies.antt =====
-- What a call that stays within its session answers.
use ai_erp.Base.{ℕ, ◌≡◌, refl, ◌≢◌, ◌≤◌, String, true, false, Option, some, List, [], ◌∷◌, arith}
use native.Mathlib.Nat.{le_trans}
use ai_erp.Session.{Session, is_session_active, SessionEvent, run}
use ai_erp.Session.Laws.{active-run, run-le}
use ai_erp.Api.{
  Response, returned, thrown, api_error, problem_of, is_ok, parse, Exchange, is_public_path,
  arrived, read, Csrf, is_logout, own_logout, settle, send, with_csrf, mutate,
}

module _ {A : Type 0} where
  -- Within its session a response that is no 401 is answered by its body: a refusal by an error
  -- with its status and what its body says, a success by its value.
  parse_refused :
      (r : Response A) (g : ℕ) (during : List SessionEvent) (s : Session)
      → is_session_active g s ≡ true
      → is_session_active g (run during s) ≡ true
      → r.status ≢ 401
      → is_ok r.status ≡ false
      → parse r (some g) false true during s
        ≡ (run during s, thrown (api_error r.status (problem_of r.problem) (some g)))
  unfolding parse
  parse_refused r g during s live still n f = ground arith

  parse_accepted :
      (r : Response A) (v : A) (g : ℕ) (during : List SessionEvent) (s : Session)
      → is_session_active g s ≡ true
      → is_session_active g (run during s) ≡ true
      → is_ok r.status ≡ true
      → r.status ≢ 204
      → r.value ≡ some v
      → parse r (some g) false true during s ≡ (run during s, returned (some v))
  unfolding parse
  parse_accepted r v g during s live still o n e = ground arith

  -- A read of a protected path that is refused, while its session lasts, fails with the status and
  -- the readable members of the refusal.
  pub read_refused :
      (path : String) (x : Exchange A) (r : Response A) (s : Session)
      → is_public_path path ≡ false
      → x.response ≡ some r
      → r.status ≢ 401
      → is_ok r.status ≡ false
      → is_session_active s.generation (run x.during (run x.before s)) ≡ true
      → read path s.generation x s ≡ (
        run x.during (run x.before s),
        thrown (api_error r.status (problem_of r.problem) (some s.generation)),
      )
  unfolding read arrived
  read_refused path x r s p e n f live =
      rw (e, arrived, p)
        (parse_refused r s.generation x.during (run x.before s)
          (active-run x.during s.generation (run x.before s) (run-le x.before s) live) live n f)

  read_accepted :
      (path : String) (x : Exchange A) (r : Response A) (v : A) (g : ℕ) (s : Session)
      → is_public_path path ≡ false
      → x.response ≡ some r
      → is_ok r.status ≡ true
      → r.status ≢ 204
      → r.value ≡ some v
      → g ≤ (run x.before s).generation
      → is_session_active g (run x.during (run x.before s)) ≡ true
      → read path g x s ≡ (run x.during (run x.before s), returned (some v))
  unfolding read arrived
  read_accepted path x r v g s p e o n q reached live =
      rw (e, arrived, p)
        (parse_accepted r v g x.during (run x.before s)
          (active-run x.during g (run x.before s) reached live) live o n q)

  send_accepted :
      (path method : String) (body : Option String) (g : ℕ) (csrf : Csrf) (x : Exchange A)
      (r : Response A) (v : A) (s : Session)
      → is_logout path ≡ false
      → x.response ≡ some r
      → is_ok r.status ≡ true
      → r.status ≢ 204
      → r.value ≡ some v
      → g ≤ s.generation
      → is_session_active g (run x.during (run x.before s)) ≡ true
      → send path method body g csrf x s ≡ record {
        session = run x.during (run x.before s);
        sent = record { path = path; method = method; body = body; csrf = csrf; session = s } ∷ [];
        result = returned (some v);
      }
  unfolding send settle own_logout
  send_accepted path method body g csrf x r v s p e o n q reached live =
      rw (e, settle, p)
        (rw (
          parse_accepted r v g x.during (run x.before s)
            (active-run x.during g (run x.before s) (le_trans reached (run-le x.before s)) live)
            live o n q))

module _ {A : Type 0} where
  -- A change that is no logout succeeds if its session lasts and the server answers both requests:
  -- the one request sent carries the token that was read, and the answer's value is handed out.
  pub mutate_succeeds :
      (path method : String) (body : Option String) (c : Exchange Csrf) (rc : Response Csrf)
      (csrf : Csrf) (x : Exchange A) (r : Response A) (v : A) (s : Session)
      → is_logout path ≡ false
      → c.response ≡ some rc
      → is_ok rc.status ≡ true
      → rc.status ≢ 204
      → rc.value ≡ some csrf
      → x.response ≡ some r
      → is_ok r.status ≡ true
      → r.status ≢ 204
      → r.value ≡ some v
      → is_session_active s.generation (run x.during (run x.before (run c.during (run c.before s))))
        ≡ true
      → mutate path method body c x s ≡ record {
        session = run x.during (run x.before (run c.during (run c.before s)));
        sent =
            record {
              path = path;
              method = method;
              body = body;
              csrf = csrf;
              session = run c.during (run c.before s);
            }
            ∷ [];
        result = returned (some v);
      }
  unfolding mutate with_csrf
  mutate_succeeds path method body c rc csrf x r v s p ec oc nc qc e o n q live =
      let t = run c.during (run c.before s) in
      let reached : s.generation ≤ t.generation =
        le_trans (run-le c.before s) (run-le c.during (run c.before s)) in
      let waited : is_session_active s.generation (run x.before t) ≡ true =
        active-run x.during s.generation (run x.before t) (le_trans reached (run-le x.before t))
          live in
      let at_send : is_session_active s.generation t ≡ true =
        active-run x.before s.generation t reached waited in
      rw
        (read_accepted "/api/v1/csrf" c rc csrf s.generation s refl ec oc nc qc (run-le c.before s)
          at_send)
        (rw at_send
          (send_accepted path method body s.generation csrf x r v t p e o n q reached live))

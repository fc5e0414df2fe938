-- ===== src/ProjectStart/Retry.antt =====
-- What a page sends while the result of a request is not known.
use ai_erp.Base.{
  ℕ, zero, suc, ◌≡◌, refl, String, Bool, true, false, not, ◌&&◌, ◌||◌, Option, none, some, List, [],
  ◌∷◌, inl, inr, arith, All, All-append, Bool-cases, Option-cases, get_elem?, subst,
}
use ai_erp.Base.Dict.{get-put_self}
use ai_erp.Session.{is_session_context_active}
use ai_erp.State.{CreateAttempt}
use ai_erp.State.Attempts.{get_create_attempt}
use ai_erp.State.Denials.{Outcome, value, failed}
use ai_erp.Base.Lists.{remove_at}
use ai_erp.ProjectStart.{
  Body, Created, Request, Page, PageEvent, submits, checks_result, replies, invalidates, in_session,
  step, run, submit, check_result, reply, settle, on_error, finish, invalidated, start, put_attempt,
  created, is_refusal,
}
use ai_erp.ProjectStart.Attempt.{attempt_of}

abbrev pub body_of : CreateAttempt → Body
body_of a = record { name = a.name; request_id = a.request_id }

-- An answer that does not tell whether the project was created.
abbrev pub is_unknown : Outcome String → Bool
is_unknown (value id) = false
is_unknown (failed e) = not (is_refusal e)

-- No event but a definitive answer is excluded.
abbrev pub tells_nothing : PageEvent → Bool
tells_nothing (replies n o) = is_unknown (created o)
tells_nothing _ = true

abbrev pub none_tells : List PageEvent → Bool
none_tells [] = true
none_tells (e ∷ es) = tells_nothing e && none_tells es

abbrev pub Waits : Body → Request → Type 0
Waits b r = (r.body ≡ b) × (r.answered ≡ none)

-- The attempt is `b`, uncertain or pending, and nothing but `b` is open or was sent.
pub record IsRetry (key : String) (b : Body) (p : Page) : Type 0 where
  pub attempt : CreateAttempt
  pub found : attempt_of key p ≡ some attempt
  pub same : body_of attempt ≡ b
  pub undecided : (attempt.uncertain || attempt.pending) ≡ true
  pub waiting : All (Waits b) p.open_requests
  pub only : All (λ c. c ≡ b) p.sent

module _ {A : Type 0} (P : A → Type 0) where
  All-get_elem? : (n : ℕ) (xs : List A) (x : A) → All P xs → get_elem? xs n ≡ some x → P x
  All-get_elem? n [] x h e = absurd (ground arith)
  All-get_elem? zero (y ∷ ys) x (p, h) e = subst P (ground arith) p
  All-get_elem? (suc n) (y ∷ ys) x (p, h) e = All-get_elem? n ys x h e

  All-remove_at : (n : ℕ) (xs : List A) → All P xs → All P (remove_at n xs)
  unfolding remove_at
  All-remove_at n [] h = tt
  All-remove_at zero (y ∷ ys) (p, h) = h
  All-remove_at (suc n) (y ∷ ys) (p, h) = (p, All-remove_at n ys h)

module _ (key : String) (trim : String → String) (b : Body) where
  start-IsRetry :
      (c : Body) (p : Page) → c ≡ b → IsRetry key b p → IsRetry key b (start key trim c p)
  unfolding start put_attempt
  start-IsRetry c p e h = record {
    attempt = record {
      name = c.name;
      request_id = c.request_id;
      uncertain = false;
      pending = true;
    };
    found = rw get-put_self refl;
    same = e;
    undecided = refl;
    waiting = All-append (Waits b) p.open_requests _ h.waiting ((e, refl), tt);
    only = All-append (λ x. x ≡ b) p.sent _ h.only (e, tt);
  }

  submit-IsRetry :
      (mutating : Bool) (name fresh : String) (p : Page)
      → IsRetry key b p
      → submit key trim mutating name fresh p ≡ p
  unfolding submit get_create_attempt
  submit-IsRetry mutating name fresh p h = rw (h.found, submit) (ground (arith, h.undecided))

  check_result-IsRetry : (p : Page) → IsRetry key b p → IsRetry key b (check_result key trim p)
  unfolding check_result get_create_attempt
  check_result-IsRetry p h = elim (Bool-cases (h.attempt.uncertain && not h.attempt.pending)) [
    | inl free ↦ rw (h.found, check_result, free) (start-IsRetry _ p h.same h)
    | inr busy ↦ rw (h.found, check_result, busy) h
  ]

  settle-IsRetry :
      (n : ℕ) (r : Request) (o : Outcome String) (p : Page)
      → is_unknown o ≡ true
      → Waits b r
      → IsRetry key b p
      → IsRetry key b (settle key trim n r o p)
  unfolding settle on_error put_attempt
  settle-IsRetry n r (value id) p u w h = absurd (ground arith)
  settle-IsRetry n r (failed e) p u (same, fresh) h =
      let rest = All-remove_at (Waits b) n p.open_requests h.waiting in
      elim (Bool-cases (is_session_context_active (some r.context) p.session)) [
        | inl live ↦
            rw (live, settle)
              record {
                attempt = record {
                  name = r.body.name;
                  request_id = r.body.request_id;
                  uncertain = not (is_refusal e);
                  pending = false;
                };
                found = rw get-put_self refl;
                same = same;
                undecided = ground arith;
                waiting = rest;
                only = h.only;
              }
        | inr over ↦
            rw (over, settle)
              record {
                attempt = h.attempt;
                found = h.found;
                same = h.same;
                undecided = h.undecided;
                waiting = rest;
                only = h.only;
              }
      ]

  reply-IsRetry :
      (n : ℕ) (o : Outcome (Option Created)) (p : Page)
      → is_unknown (created o) ≡ true
      → IsRetry key b p
      → IsRetry key b (reply key trim n o p)
  unfolding reply
  reply-IsRetry n o p u h = elim (Option-cases (get_elem? p.open_requests n)) [
    | inl e ↦ rw (e, reply) h
    | inr (r, e) ↦
        let w = All-get_elem? (Waits b) n p.open_requests r h.waiting e in
        rw (e, reply, w.1) (settle-IsRetry n r (created o) p u w h)
  ]

  invalidated-IsRetry : (n : ℕ) (p : Page) → IsRetry key b p → invalidated key trim n p ≡ p
  unfolding invalidated finish
  invalidated-IsRetry n p h = elim (Option-cases (get_elem? p.open_requests n)) [
    | inl e ↦ rw (e, invalidated) refl
    | inr (r, e) ↦
        let w = All-get_elem? (Waits b) n p.open_requests r h.waiting e in
        rw (e, invalidated, w.1) refl
  ]

  step-IsRetry :
      (e : PageEvent) (p : Page)
      → tells_nothing e ≡ true
      → IsRetry key b p
      → IsRetry key b (step key trim e p)
  unfolding step
  step-IsRetry (submits mutating name fresh) p u h = rw (submit-IsRetry mutating name fresh p h) h
  step-IsRetry checks_result p u h = check_result-IsRetry p h
  step-IsRetry (replies n o) p u h = reply-IsRetry n o p u h
  step-IsRetry (invalidates n) p u h = rw (invalidated-IsRetry n p h) h
  step-IsRetry (in_session e) p u h = record {
    attempt = h.attempt;
    found = h.found;
    same = h.same;
    undecided = h.undecided;
    waiting = h.waiting;
    only = h.only;
  }

  -- While the attempt is a request `b` that is uncertain or pending, and nothing but `b` is open or
  -- was sent, this stays so over all events but a definitive answer (a created project, 400 or 409):
  -- every further request that the page sends is `b` again, with its name and identifier.
  pub run-IsRetry :
      (es : List PageEvent) (p : Page)
      → none_tells es ≡ true
      → IsRetry key b p
      → IsRetry key b (run key trim es p)
  unfolding run
  run-IsRetry [] p u h = h
  run-IsRetry (e ∷ es) p u h =
      run-IsRetry es (step key trim e p) (ground arith) (step-IsRetry e p (ground arith) h)

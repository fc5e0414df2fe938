-- ===== src/ProjectStart/Attempt.antt =====
-- The attempt that the store remembers against the requests that the page has open.
use ai_erp.Base.{
  ℕ, zero, suc, ◌≡◌, refl, String, Bool, true, false, not, ◌&&◌, ◌||◌, Option, none, some, List, [],
  ◌∷◌, inl, inr, arith, is_some, Option-cases, Bool-cases,
}
use ai_erp.Base.Dict.{get, get-put_self}
use ai_erp.State.{CreateAttempt}
use ai_erp.State.Attempts.{get_create_attempt}
use ai_erp.Session.{is_session_context_active}
use ai_erp.State.Denials.{Outcome, value, failed}
use ai_erp.Base.Lists.{remove_at, replace_at}
use ai_erp.ProjectStart.{
  Body, Created, Request, Page, PageEvent, submits, checks_result, replies, invalidates, in_session,
  step, run, submit, check_result, reply, settle, on_error, finish, invalidated, start, put_attempt,
  created, is_name, is_pending, is_uncertain,
}

-- At most one request is open, and while one is, the attempt is pending with its body.
abbrev pub IsSingle : List Request → Option CreateAttempt → Type 0
IsSingle [] attempt = Unit
IsSingle (r ∷ []) none = ⊥
IsSingle (r ∷ []) (some a) =
    (a.pending ≡ true) × (a.name ≡ r.body.name) × (a.request_id ≡ r.body.request_id)
IsSingle (r ∷ r' ∷ rs) attempt = ⊥

abbrev pub attempt_of : String → Page → Option CreateAttempt
attempt_of key p = get key p.store.create_attempts

-- A page whose attempt does not wait has no request open.
idle : (l : List Request) (a : Option CreateAttempt) → IsSingle l a → is_pending a ≡ false → l ≡ []
idle [] a h k = refl
idle (r ∷ []) none h k = absurd h
idle (r ∷ []) (some a) (h, name, id) k = absurd (ground arith)
idle (r ∷ r' ∷ rs) a h k = absurd h

module _ (key : String) (trim : String → String) where
  abbrev pub IsOrdered : Page → Type 0
  IsOrdered p = IsSingle p.open_requests (attempt_of key p)

  abbrev is_live : Request → Page → Bool
  is_live r p = is_session_context_active (some r.context) p.session

  abbrev with_open : Page → List Request → Page
  with_open p l = record p { open_requests = l }

  start-IsOrdered : (b : Body) (p : Page) → p.open_requests ≡ [] → IsOrdered (start key trim b p)
  unfolding start put_attempt
  start-IsOrdered b p h = rw (h, get-put_self) (refl, refl, refl)

  submit-IsOrdered :
      (mutating : Bool) (name fresh : String) (p : Page)
      → IsOrdered p
      → IsOrdered (submit key trim mutating name fresh p)
  unfolding submit get_create_attempt
  submit-IsOrdered mutating name fresh p h =
      let a = attempt_of key p in
      let busy : Bool = mutating || is_pending a || is_uncertain a in
      elim (Bool-cases busy) [
        | inl is_busy ↦ rw (is_busy, submit) h
        | inr free ↦ elim (Bool-cases (is_name (trim name))) [
          | inl good ↦
              rw (free, good, submit)
                (start-IsOrdered _ (record p { error = false })
                  (idle p.open_requests a h (ground arith)))
          | inr bad ↦ rw (free, bad, submit) h
        ]
      ]

  check_result-IsOrdered : (p : Page) → IsOrdered p → IsOrdered (check_result key trim p)
  unfolding check_result get_create_attempt
  check_result-IsOrdered p h = elim (Option-cases (attempt_of key p)) [
    | inl e ↦ rw (e, check_result) h
    | inr (a, e) ↦ elim (Bool-cases (a.uncertain && not a.pending)) [
      | inl free ↦
          rw (e, check_result, free)
            (start-IsOrdered _ p (idle p.open_requests (attempt_of key p) h (rw e (ground arith))))
      | inr busy ↦ rw (e, check_result, busy) h
    ]
  ]

  settle-IsOrdered :
      (r : Request) (o : Outcome String) (p : Page)
      → IsSingle (r ∷ []) (attempt_of key p)
      → IsOrdered (settle key trim 0 r o (with_open p (r ∷ [])))
  unfolding settle on_error put_attempt remove_at replace_at
  settle-IsOrdered r (failed e) p h = elim (Bool-cases (is_live r p)) [
    | inl live ↦ rw (live, settle) tt
    | inr over ↦ rw (over, settle) tt
  ]
  settle-IsOrdered r (value id) p h = elim (Bool-cases (is_live r p)) [
    | inl live ↦ rw (live, settle, get-put_self) (refl, refl, refl)
    | inr over ↦ rw (over, settle) tt
  ]

  reply-IsOrdered_at :
      (n : ℕ) (o : Outcome (Option Created)) (l : List Request) (p : Page)
      → IsSingle l (attempt_of key p)
      → IsOrdered (reply key trim n o (with_open p l))
  unfolding reply
  reply-IsOrdered_at n o [] p h = tt
  reply-IsOrdered_at zero o (r ∷ []) p h = elim (Bool-cases (is_some r.answered)) [
    | inl done ↦ rw (done, reply) h
    | inr waits ↦ rw (waits, reply) (settle-IsOrdered r (created o) p h)
  ]
  reply-IsOrdered_at (suc n) o (r ∷ []) p h = h
  reply-IsOrdered_at n o (r ∷ r' ∷ rs) p h = absurd h

  finish-IsOrdered :
      (r : Request) (o : Option String) (p : Page)
      → IsSingle (r ∷ []) (attempt_of key p)
      → IsOrdered (finish key trim 0 r o (with_open p (r ∷ [])))
  unfolding finish remove_at
  finish-IsOrdered r none p h = h
  finish-IsOrdered r (some id) p h = elim (Bool-cases (is_live r p)) [
    | inl live ↦ rw (live, finish) tt
    | inr over ↦ rw (over, finish) tt
  ]

  invalidated-IsOrdered_at :
      (n : ℕ) (l : List Request) (p : Page)
      → IsSingle l (attempt_of key p)
      → IsOrdered (invalidated key trim n (with_open p l))
  unfolding invalidated
  invalidated-IsOrdered_at n [] p h = tt
  invalidated-IsOrdered_at zero (r ∷ []) p h = finish-IsOrdered r r.answered p h
  invalidated-IsOrdered_at (suc n) (r ∷ []) p h = h
  invalidated-IsOrdered_at n (r ∷ r' ∷ rs) p h = absurd h

  step-IsOrdered : (e : PageEvent) (p : Page) → IsOrdered p → IsOrdered (step key trim e p)
  unfolding step
  step-IsOrdered (submits mutating name fresh) p h = submit-IsOrdered mutating name fresh p h
  step-IsOrdered checks_result p h = check_result-IsOrdered p h
  step-IsOrdered (replies n o) p h = reply-IsOrdered_at n o p.open_requests p h
  step-IsOrdered (invalidates n) p h = invalidated-IsOrdered_at n p.open_requests p h
  step-IsOrdered (in_session e) p h = h

  -- From a page with at most one request open, and the attempt pending with its body while one is,
  -- whatever the user, the server and the session do, no second request is open beside one that has
  -- not settled, and while one is open the attempt is pending with its name and identifier.
  pub run-IsOrdered : (es : List PageEvent) (p : Page) → IsOrdered p → IsOrdered (run key trim es p)
  unfolding run
  run-IsOrdered [] p h = h
  run-IsOrdered (e ∷ es) p h = run-IsOrdered es (step key trim e p) (step-IsOrdered e p h)

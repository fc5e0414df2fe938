-- ===== src/ProjectStart.antt =====
-- frontend/src/screens/ProjectStart.tsx: a page with the dialog that creates a project, the requests
-- that it has open, and those that it has sent.
pub mod Attempt
pub mod Outcomes
pub mod Retry
mod Tests
use ai_erp.Base.{
  ℕ, zero, suc, ◌+◌, String, Bool, true, false, not, ◌&&◌, ◌||◌, Option, none, some, List, [], ◌∷◌,
  ◌++◌, ltb, leb, ◌==◌, str_eq, if◌then◌else◌, is_some, get_elem?,
}
use ai_erp.Base.Lists.{remove_at, replace_at}
use ai_erp.Base.Text.{codes, is_empty}
use ai_erp.Browser.{Field, missing, text, number, other}
use ai_erp.Session.{Session, SessionEvent, happen, is_session_context_active, capture_session}
use ai_erp.State.{Store, CreateAttempt}
use ai_erp.State.Attempts.{get_create_attempt, set_create_attempt, clear_create_attempt}
use ai_erp.State.Denials.{Failure, api_error, other_error, Outcome, value, failed}

pub record Body : Type 0 where
  pub name : String
  pub request_id : String

-- The members of the answer that are looked at.
pub record Created : Type 0 where
  pub id : Field
  pub group_id : Field
  pub name : Field
  pub role : Field

-- A mutation that has not settled: its context, and the project once the server has created it.
pub record Request : Type 0 where
  pub body : Body
  pub context : ℕ
  pub answered : Option String

pub record Page : Type 0 where
  pub session : Session
  pub store : Store
  pub open_requests : List Request
  pub sent : List Body
  pub error : Bool
  pub opened : Option String

abbrev pub is_text : Field → Bool
is_text (text s) = true
is_text _ = false

abbrev pub id_of : Field → Outcome String
id_of (text id) = value id
id_of _ = failed other_error

-- `isProjectResponse` and the checks behind it: the id of the project, or an error. An answer that is
-- no object is `none`.
unfoldable pub checked_created : Option Created → Outcome String
checked_created none = failed other_error
checked_created (some v) =
    if is_text v.group_id && is_text v.name && is_text v.role
    then id_of v.id
    else failed other_error

-- The result of `mutationFn`.
abbrev pub created : Outcome (Option Created) → Outcome String
created (value v) = checked_created v
created (failed e) = failed e

-- `[400, 409].includes(err.status)` of an `ApiError`
abbrev pub is_refusal : Failure → Bool
is_refusal (api_error status) = status == 400 || status == 409
is_refusal other_error = false

abbrev pub is_pending : Option CreateAttempt → Bool
is_pending none = false
is_pending (some a) = a.pending

abbrev pub is_uncertain : Option CreateAttempt → Bool
is_uncertain none = false
is_uncertain (some a) = a.uncertain

-- `current?.name === trimmed ? current.requestId : crypto.randomUUID()`
abbrev pub request_id_for : Option CreateAttempt → String → String → String
request_id_for none trimmed fresh = fresh
request_id_for (some a) trimmed fresh = if str_eq a.name trimmed then a.request_id else fresh

-- `length` of a text: two units for a character outside the basic plane.
unfoldable pub utf16_length : List ℕ → ℕ
utf16_length [] = 0
utf16_length (c ∷ s) = (if ltb c 65536 then 1 else 2) + utf16_length s

abbrev pub is_name : String → Bool
is_name trimmed = not (is_empty (codes trimmed)) && leb (utf16_length (codes trimmed)) 200

-- `key` is the session of the page as a text, `trim` the method of texts.
module _ (key : String) (trim : String → String) where
  -- `setCreateAttempt(session, { ..., uncertain, pending })`
  unfoldable pub put_attempt : Body → Bool → Bool → Page → Page
  unfolding set_create_attempt
  put_attempt b uncertain pending p = record p {
    store =
        set_create_attempt key
          (record {
            name = b.name;
            request_id = b.request_id;
            uncertain = uncertain;
            pending = pending;
          })
          p.store;
  }

  -- `create.mutate`: `onMutate`, and the request is sent.
  unfoldable pub start : Body → Page → Page
  unfolding put_attempt capture_session
  start b p =
      let r : Request = record { body = b; context = capture_session p.session; answered = none } in
      put_attempt b false true
        (record p { open_requests = p.open_requests ++ r ∷ []; sent = p.sent ++ b ∷ [] })

  -- `mutating` is `create.isPending`, `fresh` the identifier that `crypto.randomUUID` would give.
  unfoldable pub submit : Bool → String → String → Page → Page
  unfolding start get_create_attempt
  submit mutating name fresh p =
      let current = get_create_attempt key p.store in
      let trimmed = trim name in
      let b : Body = record { name = trimmed; request_id = request_id_for current trimmed fresh } in
      if mutating || is_pending current || is_uncertain current
      then p
      else if not (is_name trimmed)
      then record p { error = true }
      else start b (record p { error = false })

  -- The button of the panel that is shown while the result is uncertain.
  unfoldable pub check_result : Page → Page
  unfolding start get_create_attempt
  check_result p = elim (get_create_attempt key p.store) [
    | none ↦ p
    | some a ↦
        if a.uncertain && not a.pending
        then start (record { name = a.name; request_id = a.request_id }) p
        else p
  ]

  unfoldable pub on_error : Request → Failure → Page → Page
  unfolding put_attempt is_session_context_active
  on_error r e p =
      if is_session_context_active (some r.context) p.session
      then put_attempt r.body (not (is_refusal e)) false p
      else p

  -- The request at a place has an answer that `mutationFn` turns into a project or an error.
  unfoldable pub settle : ℕ → Request → Outcome String → Page → Page
  unfolding on_error put_attempt is_session_context_active
  settle n r (failed e) p = on_error r e (record p { open_requests = remove_at n p.open_requests })
  settle n r (value id) p =
      if is_session_context_active (some r.context) p.session
      then put_attempt r.body false true (record p {
        open_requests = replace_at n (record r { answered = some id }) p.open_requests;
      })
      else record p { open_requests = remove_at n p.open_requests }

  unfoldable pub reply : ℕ → Outcome (Option Created) → Page → Page
  unfolding settle checked_created
  reply n outcome p = elim (get_elem? p.open_requests n) [
    | none ↦ p
    | some r ↦ if is_some r.answered then p else settle n r (created outcome) p
  ]

  -- The end of `onSuccess`, when the queries have been invalidated.
  unfoldable pub finish : ℕ → Request → Option String → Page → Page
  unfolding is_session_context_active clear_create_attempt
  finish n r none p = p
  finish n r (some id) p =
      let q = record p { open_requests = remove_at n p.open_requests } in
      if is_session_context_active (some r.context) p.session
      then record q { store = clear_create_attempt key q.store; opened = some id }
      else q

  unfoldable pub invalidated : ℕ → Page → Page
  unfolding finish
  invalidated n p = elim (get_elem? p.open_requests n) [
    | none ↦ p
    | some r ↦ finish n r r.answered p
  ]

-- What the user does, what the server answers, and what happens to the session.
pub data PageEvent : Type 0 where
  submits : Bool → String → String → PageEvent
  checks_result : PageEvent
  replies : ℕ → Outcome (Option Created) → PageEvent
  invalidates : ℕ → PageEvent
  in_session : SessionEvent → PageEvent

module _ (key : String) (trim : String → String) where
  unfoldable pub step : PageEvent → Page → Page
  unfolding submit check_result reply invalidated
  step (submits mutating name fresh) p = submit key trim mutating name fresh p
  step checks_result p = check_result key trim p
  step (replies n outcome) p = reply key trim n outcome p
  step (invalidates n) p = invalidated key trim n p
  step (in_session e) p = record p { session = happen e p.session }

  unfoldable pub run : List PageEvent → Page → Page
  unfolding step
  run [] p = p
  run (e ∷ es) p = run es (step e p)

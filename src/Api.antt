-- ===== src/Api.antt =====
-- frontend/src/api/client.ts: `parse`, `read` and `mutate`. What happens to the session while a call
-- waits is a list of session events; a response that never comes, and a body that cannot be read,
-- are `none`.
pub mod Boundary
pub mod Burst
pub mod Replies
mod Tests
use ai_erp.Base.{
  ℕ, String, Bool, true, false, not, ◌&&◌, Option, none, some, List, [], ◌∷◌, leb, ◌==◌,
  if◌then◌else◌, str_eq,
}
use ai_erp.Browser.{Field, missing, text, number, other}
use ai_erp.Session.{Session, terminate_session, is_session_active, SessionEvent, run}

-- An element of `fieldErrors`: no object, or the members `field` and `message`.
pub data FieldError : Type 0 where
  no_object : FieldError
  entry : Field → Field → FieldError

-- The body of a refusal: a value that is no object, or `code`, `traceId` and `fieldErrors`, the
-- last `none` where it is no array.
pub data ProblemBody : Type 0 where
  scalar : ProblemBody
  object : Field → Field → Option (List FieldError) → ProblemBody

pub record Problem : Type 0 where
  pub code : Option String
  pub trace_id : Option String
  pub field_errors : Option (List (String × String))

-- `value` is the body read as the result of a success, `problem` the body read as a refusal.
pub record Response (A : Type 0) : Type 0 where
  pub status : ℕ
  pub value : Option A
  pub problem : Option ProblemBody

pub data Thrown : Type 0 where
  api_error : ℕ → Problem → Option ℕ → Thrown
  session_terminated network_failed invalid_json type_error : Thrown

-- `returned none` is `undefined`.
pub data Result (A : Type 0) : Type 0 where
  returned : Option A → Result A
  thrown : Thrown → Result A

abbrev pub no_problem : Problem
no_problem = record { code = none; trace_id = none; field_errors = none }

abbrev pub is_ok : ℕ → Bool
is_ok status = leb 200 status && leb status 299

abbrev text_of : Field → Option String
text_of (text s) = some s
text_of _ = none

abbrev keep_texts : Field → Field → List (String × String) → List (String × String)
keep_texts (text f) (text m) rest = (f, m) ∷ rest
keep_texts _ _ rest = rest

field_errors_of : List FieldError → List (String × String)
field_errors_of [] = []
field_errors_of (no_object ∷ es) = field_errors_of es
field_errors_of (entry f m ∷ es) = keep_texts f m (field_errors_of es)

abbrev errors_of : Option (List FieldError) → Option (List (String × String))
errors_of none = none
errors_of (some es) = some (field_errors_of es)

pub problem_of : Option ProblemBody → Problem
unfolding field_errors_of
problem_of (some (object code trace errors)) = record {
  code = text_of code;
  trace_id = text_of trace;
  field_errors = errors_of errors;
}
problem_of _ = no_problem

-- `protectedRequest && expectedGeneration !== undefined && !isSessionActive(expectedGeneration)`
lost : Bool → Option ℕ → Session → Bool
unfolding is_session_active
lost protected none s = false
lost protected (some g) s = protected && not (is_session_active g s)

-- The effect of a 401.
ended_by_401 : Option ℕ → Session → Session
unfolding is_session_active terminate_session
ended_by_401 none s = (terminate_session none s).0
ended_by_401 (some g) s = if is_session_active g s then (terminate_session (some g) s).0 else s

module _ {A : Type 0} where
  -- The body of a refusal has been read.
  refuse : Response A → Option ℕ → Bool → Session → Session × Result A
  unfolding lost problem_of
  refuse r expected protected s =
      if lost protected expected s
      then (s, thrown session_terminated)
      else (s, thrown (api_error r.status (problem_of r.problem) expected))

  -- The body of a success has been read.
  accept : Option A → Option ℕ → Bool → Bool → Session → Session × Result A
  unfolding lost
  accept none expected allow protected s = (s, thrown invalid_json)
  accept (some v) expected allow protected s =
      if not allow && lost protected expected s
      then (s, thrown session_terminated)
      else (s, returned (some v))

  -- `waiting` happens while the body is read.
  unfoldable pub parse :
      Response A → Option ℕ → Bool → Bool → List SessionEvent → Session → Session × Result A
  unfolding lost ended_by_401 refuse accept
  parse r expected allow protected waiting s =
      if r.status == 401
      then (ended_by_401 expected s, thrown (api_error 401 no_problem expected))
      else if lost protected expected s && not (allow && is_ok r.status)
      then (s, thrown session_terminated)
      else if not (is_ok r.status)
      then refuse r expected protected (run waiting s)
      else if not allow && lost protected expected s
      then (s, thrown session_terminated)
      else if r.status == 204
      then (s, returned none)
      else accept r.value expected allow protected (run waiting s)

-- One exchange with the server: what happens before the response, the response, and what happens
-- while its body is read.
pub record Exchange (A : Type 0) : Type 0 where
  pub before : List SessionEvent
  pub response : Option (Response A)
  pub during : List SessionEvent

abbrev is_public_path : String → Bool
is_public_path path = str_eq path "/api/v1/system/configuration"

module _ {A : Type 0} where
  arrived : String → ℕ → Exchange A → Option (Response A) → Session → Session × Result A
  arrived path g x none s = (s, thrown network_failed)
  arrived path g x (some r) s = parse r (some g) false (not (is_public_path path)) x.during s

  pub read : String → ℕ → Exchange A → Session → Session × Result A
  read path g x s = arrived path g x x.response (run x.before s)

pub record Csrf : Type 0 where
  pub header_name : String
  pub token : String

-- A request that changes something, its body as JSON text, with the session at the moment of sending.
pub record Sent : Type 0 where
  pub path : String
  pub method : String
  pub body : Option String
  pub csrf : Csrf
  pub session : Session

pub record Mutation (A : Type 0) : Type 0 where
  pub session : Session
  pub sent : List Sent
  pub result : Result A

abbrev pub is_logout : String → Bool
is_logout path = str_eq path "/api/v1/logout"

module _ {A : Type 0} where
  -- `ownLogoutSuccess`
  own_logout : String → ℕ → Response A → Session → Bool
  unfolding is_session_active
  own_logout path g r s = is_logout path && is_ok r.status && is_session_active g s

  -- The response to the request itself.
  settle : String → ℕ → List SessionEvent → Option (Response A) → Session → Session × Result A
  settle path g during none s = (s, thrown network_failed)
  settle path g during (some r) s =
      let own = own_logout path g r s in
      parse r (some g) own true during (if own then (terminate_session (some g) s).0 else s)

  -- The request is sent.
  send : String → String → Option String → ℕ → Csrf → Exchange A → Session → Mutation A
  send path method body g csrf x s =
      let (t, r) = settle path g x.during x.response (run x.before s) in
      record {
        session = t;
        sent = record { path = path; method = method; body = body; csrf = csrf; session = s } ∷ [];
        result = r;
      }

  -- What the read of the token gave decides whether the request is sent.
  with_csrf : String → String → Option String → ℕ → Exchange A → Session → Result Csrf → Mutation A
  with_csrf path method body g x s (thrown e) = record { session = s; sent = []; result = thrown e }
  with_csrf path method body g x s (returned none) = record {
    session = s;
    sent = [];
    result = if is_session_active g s then thrown type_error else thrown session_terminated;
  }
  with_csrf path method body g x s (returned (some csrf)) =
      if is_session_active g s
      then send path method body g csrf x s
      else record { session = s; sent = []; result = thrown session_terminated }

  pub mutate : String → String → Option String → Exchange Csrf → Exchange A → Session → Mutation A
  mutate path method body c x s =
      let (t, csrf) = read "/api/v1/csrf" s.generation c s in
      with_csrf path method body s.generation x t csrf

-- ===== src/JoinPreview.antt =====
-- frontend/src/screens/Account.tsx: `JoinPreview`, the screen of an invitation code, from which the user
-- joins a project. The query of the invitation is its last status and data.
pub mod Conflict
mod Tests
use ai_erp.Base.{
  ℕ, suc, ◌+◌, ◌-◌, String, Bool, true, false, not, ◌&&◌, ◌||◌, Option, none, some, List, [], ◌∷◌,
  ◌++◌, ◌==◌, ltb, leb, if◌then◌else◌, get_elem?, is_some,
}
use ai_erp.Base.Lists.{remove_at}
use ai_erp.Base.Text.{is_empty}
use ai_erp.Session.{Session, SessionEvent, happen, run, is_session_context_active, capture_session}
use ai_erp.State.Denials.{Failure, api_error, other_error, Outcome, value, failed}

-- What is read of the invitation; `expires_at` is the instant of the text.
pub record ProjectInvitation : Type 0 where
  pub is_active : Bool
  pub expires_at : Option ℕ
  pub already_member : Bool

pub data QueryStatus : Type 0 where
  waiting error success : QueryStatus

-- `joins` are the captured sessions of the requests that are open, `conflict_reads` those of the calls
-- that wait for a read after a conflict, `sent` the number of requests, `opened` the projects that the
-- page was led to.
pub record JoinPreview : Type 0 where
  pub session : Session
  pub now : ℕ
  pub join_conflict : Bool
  pub conflict_read_failed : Bool
  pub status : QueryStatus
  pub found : Option ProjectInvitation
  pub joins : List ℕ
  pub conflict_reads : List ℕ
  pub sent : ℕ
  pub opened : List String

abbrev pub is_success : QueryStatus → Bool
is_success success = true
is_success _ = false

abbrev pub is_error : QueryStatus → Bool
is_error error = true
is_error _ = false

-- `new Date(expiresAt).getTime() > now`
abbrev pub lasts : Option ℕ → ℕ → Bool
lasts none now = false
lasts (some e) now = ltb now e

abbrev pub is_valid_at : Option ProjectInvitation → ℕ → Bool
is_valid_at none now = false
is_valid_at (some i) now = i.is_active && lasts i.expires_at now

abbrev pub is_open : Option ProjectInvitation → Bool
is_open none = false
is_open (some i) = not i.already_member

abbrev pub expiry_of : Option ProjectInvitation → Option ℕ
expiry_of none = none
expiry_of (some i) = i.expires_at

abbrev pub active : JoinPreview → Bool
active p = not p.join_conflict && is_valid_at p.found p.now

-- The button is shown and enabled.
abbrev pub shows_button : JoinPreview → Bool
shows_button p =
    is_success p.status && active p && is_open p.found && not (is_some (get_elem? p.joins 0))

-- `runJoin` at the time `clock`, with `onMutate`.
unfoldable pub run_join : ℕ → JoinPreview → JoinPreview
unfolding capture_session
run_join clock p =
    if not (active p) || not (lasts (expiry_of p.found) clock)
    then record p { now = clock }
    else record p { joins = p.joins ++ capture_session p.session ∷ []; sent = suc p.sent }

abbrev pub click : ℕ → JoinPreview → JoinPreview
click clock p = if shows_button p then run_join clock p else p

abbrev pub is_conflict : Failure → Bool
is_conflict (api_error status) = status == 409
is_conflict other_error = false

-- `onError` up to the read of the invitation.
unfoldable pub on_error : ℕ → Failure → JoinPreview → JoinPreview
unfolding is_session_context_active
on_error context e p =
    if is_session_context_active (some context) p.session && is_conflict e
    then record p {
      join_conflict = true;
      conflict_read_failed = false;
      conflict_reads = p.conflict_reads ++ context ∷ [];
    }
    else p

-- `onSuccess`, where `during` happens to the session while the projects are read again.
unfoldable pub on_success : ℕ → String → List SessionEvent → JoinPreview → JoinPreview
unfolding is_session_context_active run
on_success context project during p =
    if is_session_context_active (some context) p.session
    then (let q = record p { session = run during p.session } in
        if is_session_context_active (some context) q.session
        then record q { opened = q.opened ++ project ∷ [] }
        else q)
    else record p { session = run during p.session }

unfoldable pub reply : ℕ → Outcome String → List SessionEvent → JoinPreview → JoinPreview
unfolding on_error on_success remove_at
reply n outcome during p = elim (get_elem? p.joins n) [
  | none ↦ p
  | some context ↦
      let q = record p { joins = remove_at n p.joins } in
      elim outcome [
        | failed e ↦ on_error context e q
        | value project ↦ on_success context project during q
      ]
]

-- A read of the invitation ends.
unfoldable pub end_read : Outcome ProjectInvitation → JoinPreview → JoinPreview
end_read (value i) p = record p { status = success; found = some i }
end_read (failed e) p = record p { status = error }

-- The end of `onError`, with the read that it waited for.
unfoldable pub end_conflict_read : ℕ → Outcome ProjectInvitation → JoinPreview → JoinPreview
unfolding end_read is_session_context_active remove_at
end_conflict_read n outcome p = elim (get_elem? p.conflict_reads n) [
  | none ↦ p
  | some context ↦
      let q = end_read outcome (record p { conflict_reads = remove_at n p.conflict_reads }) in
      if is_session_context_active (some context) q.session && is_success q.status
      then record q { join_conflict = false }
      else q
]

-- The effect on the result of the query.
unfoldable pub follow_read : JoinPreview → JoinPreview
follow_read p =
    if p.join_conflict && is_error p.status
    then record p { conflict_read_failed = true }
    else if p.join_conflict && p.conflict_read_failed && is_success p.status
    then record p { join_conflict = false }
    else p

-- The effect on the time of expiry: the delay of the timer, or `none` where the time is over already or
-- too far away for a timer.
unfoldable pub start_timer : ℕ → JoinPreview → JoinPreview × Option ℕ
start_timer clock p = elim (expiry_of p.found) [
  | none ↦ (p, none)
  | some e ↦
      if leb e clock
      then (record p { now = clock }, none)
      else if ltb 2147483647 (e - clock)
      then (p, none)
      else (p, some (e - clock + 1))
]

abbrev pub fire_timer : ℕ → JoinPreview → JoinPreview
fire_timer clock p = record p { now = clock }

pub data PreviewEvent : Type 0 where
  clicks starts_timer fires_timer : ℕ → PreviewEvent
  replies : ℕ → Outcome String → List SessionEvent → PreviewEvent
  ends_read : Outcome ProjectInvitation → PreviewEvent
  ends_conflict_read : ℕ → Outcome ProjectInvitation → PreviewEvent
  follows_read : PreviewEvent
  in_session : SessionEvent → PreviewEvent

unfoldable pub step : PreviewEvent → JoinPreview → JoinPreview
unfolding run_join reply end_read end_conflict_read follow_read start_timer
step (clicks clock) p = click clock p
step (starts_timer clock) p = (start_timer clock p).0
step (fires_timer clock) p = fire_timer clock p
step (replies n outcome during) p = reply n outcome during p
step (ends_read outcome) p = end_read outcome p
step (ends_conflict_read n outcome) p = end_conflict_read n outcome p
step follows_read p = follow_read p
step (in_session e) p = record p { session = happen e p.session }

unfoldable pub run_preview : List PreviewEvent → JoinPreview → JoinPreview
unfolding step
run_preview [] p = p
run_preview (e ∷ es) p = run_preview es (step e p)

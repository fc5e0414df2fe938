-- ===== src/ShareDialog.antt =====
-- frontend/src/screens/Account.tsx: `ShareInvitationDialog`, with the requests that it has open and
-- what it has sent. The entry of the query cache is part of the state.
pub mod Single
pub mod Locked
pub mod Failures
pub mod Recovery
mod Tests
use ai_erp.Base.{
  ℕ, String, Bool, true, false, not, ◌&&◌, ◌||◌, Option, none, some, List, [], ◌∷◌, ◌++◌, ltb,
  if◌then◌else◌, get_elem?, or_else, is_some,
}
use ai_erp.Base.Dict.{get}
use ai_erp.Session.{Session, SessionEvent, happen, run, is_session_context_active, capture_session}
use ai_erp.State.{Store, ShareAttempt}
use ai_erp.State.Denials.{
  Failure, Outcome, value, failed, is_access_error, record_access_denial, clear_access_denial,
  has_access_denial, access_read_can_clear, begin_access_read, access_read_settled,
}
use ai_erp.State.Sharing.{
  get_share_attempt, get_share_read_revision, begin_share_read, set_share_attempt,
  clear_share_attempt, start_share_attempt, begin_share_recovery, is_current_share_recovery,
  clear_share_recovery, invalidate_share_recovery,
}
use ai_erp.Base.Lists.{remove_at}
use ai_erp.ProjectStart.{is_refusal}
use ai_erp.QueryCache.{
  Query, Fetch, start_fetch, cancel_queries, end_fetch, set_query_data, is_fetching,
}

-- `expires_at` is the instant of the text.
pub record Invitation : Type 0 where
  pub is_active : Bool
  pub code : Option String
  pub expires_at : Option ℕ

-- `{ state: "REVOKED", code: null, expiresAt: null }`
abbrev pub revoked : Invitation
revoked = record { is_active = false; code = none; expires_at = none }

pub data ChangeKind : Type 0 where
  creates revokes : ChangeKind

-- A mutation that has not settled.
pub record Change : Type 0 where
  pub kind : ChangeKind
  pub context : ℕ
  pub revision : ℕ

-- A call of `recover` that waits for its read.
pub record Recovering : Type 0 where
  pub revision : ℕ
  pub context : ℕ
  pub access_revision : ℕ

pub record ShareDialog : Type 0 where
  pub session : Session
  pub store : Store
  pub query : Query Invitation
  pub changes : List Change
  pub recoveries : List Recovering
  pub sent : List ChangeKind

abbrev pub is_pending : Option ShareAttempt → Bool
is_pending none = false
is_pending (some a) = a.pending

abbrev pub is_uncertain : Option ShareAttempt → Bool
is_uncertain none = false
is_uncertain (some a) = a.uncertain

abbrev pub is_completed : Option ShareAttempt → Bool
is_completed none = false
is_completed (some a) = a.completed

-- The attempt that the end of `mutationFn` leaves: only a pending one is changed.
abbrev pub completed_attempt : ShareAttempt → ℕ → ShareAttempt
completed_attempt a read_revision = record a {
  completed = true;
  completed_read_revision = some read_revision;
}

abbrev pub failed_attempt : ShareAttempt → Failure → ShareAttempt
failed_attempt a e = record a { pending = false; uncertain = not (is_refusal e); completed = false }

-- `id` is the project, `share_key` the access key of its invitation.
module _ (id : String) (share_key : String) where
  abbrev pub attempt_of : ShareDialog → Option ShareAttempt
  attempt_of d = get id d.store.share_attempts

  abbrev pub locked : ShareDialog → Bool
  locked d = is_pending (attempt_of d) || is_uncertain (attempt_of d) || is_completed (attempt_of d)

  abbrev pub can_change : ShareDialog → Bool
  can_change d =
      d.query.success
      && not (is_fetching d.query)
      && not (has_access_denial share_key d.store)
      && not (locked d)
      && not (is_some (get id d.store.share_recoveries))

  -- The query function begins: the reads of the invitation and of its access key.
  unfoldable pub refetch : ShareDialog → ShareDialog
  unfolding start_fetch begin_share_read begin_access_read
  refetch d =
      let s = (begin_share_read id d.store).0 in
      record d { store = s; query = start_fetch (begin_access_read share_key s) d.query }

  -- A fetch ends; one that was cancelled still settles its access read.
  unfoldable pub end_read : ℕ → Outcome Invitation → ShareDialog → ShareDialog
  unfolding end_fetch access_read_settled
  end_read n outcome d = elim (get_elem? d.query.fetches n) [
    | none ↦ d
    | some f ↦ record d {
      store = access_read_settled share_key f.access_revision outcome d.store;
      query = end_fetch n f outcome d.query;
    }
  ]

  -- The two effects on the result of the query.
  unfoldable pub clear_denied : ShareDialog → ShareDialog
  unfolding clear_access_denial access_read_can_clear
  clear_denied d =
      if d.query.success && not (is_fetching d.query) && access_read_can_clear share_key d.store
      then record d { store = clear_access_denial share_key d.store }
      else d

  abbrev pub read_since : Option ShareAttempt → ℕ → Bool
  read_since none revision = false
  read_since (some a) revision = a.completed && ltb (or_else a.completed_read_revision 0) revision

  unfoldable pub clear_completed : ShareDialog → ShareDialog
  unfolding clear_share_attempt
  clear_completed d =
      if d.query.success
        && not (is_fetching d.query)
        && read_since (attempt_of d) (get_share_read_revision id d.store)
      then record d { store = clear_share_attempt id d.store }
      else d

  -- `onMutate`, and the request is sent.
  unfoldable pub start : ChangeKind → ShareDialog → ShareDialog
  unfolding invalidate_share_recovery start_share_attempt set_share_attempt capture_session
  start kind d =
      let (s, revision) = start_share_attempt id (invalidate_share_recovery id d.store) in
      let attempt : ShareAttempt = record {
        pending = true;
        uncertain = false;
        revision = revision;
        completed = false;
        completed_read_revision = none;
      } in
      let change : Change = record {
        kind = kind;
        context = capture_session d.session;
        revision = revision;
      } in
      record d {
        store = set_share_attempt id attempt s;
        changes = d.changes ++ change ∷ [];
        sent = d.sent ++ kind ∷ [];
      }

  -- `mutate` and `revokeInvite`
  unfoldable pub click : ChangeKind → ShareDialog → ShareDialog
  unfolding start
  click kind d = if can_change d then start kind d else d

  -- The end of `mutationFn` in a session that is active.
  unfoldable pub put_attempt : (ShareAttempt → ShareAttempt) → ShareDialog → ShareDialog
  unfolding set_share_attempt
  put_attempt f d = elim (attempt_of d) [
    | none ↦ d
    | some a ↦ if a.pending then record d { store = set_share_attempt id (f a) d.store } else d
  ]

  -- The end of `onSuccess`.
  unfoldable pub changed : Change → Option Invitation → ShareDialog → ShareDialog
  unfolding clear_share_attempt set_query_data refetch
  changed c v d =
      let e = record d { store = clear_share_attempt id d.store } in
      elim c.kind [
        | creates ↦ record e { query = set_query_data (or_else v revoked) e.query }
        | revokes ↦ refetch (record e { query = set_query_data revoked e.query })
      ]

  -- A change succeeds: `mutationFn` and `onSuccess`, which waits for `cancelQueries`.
  unfoldable pub on_success :
      Change → Option Invitation → List SessionEvent → ShareDialog → ShareDialog
  unfolding put_attempt changed cancel_queries is_session_context_active
  on_success c v waiting d =
      if is_session_context_active (some c.context) d.session
      then (let e = put_attempt (λ a. completed_attempt a (get_share_read_revision id d.store)) d in
          let f = record e { query = cancel_queries e.query; session = run waiting e.session } in
          if is_session_context_active (some c.context) f.session then changed c v f else f)
      else record d { session = run waiting d.session }

  -- A change fails: `mutationFn` and `onError`.
  unfoldable pub on_error : Change → Failure → ShareDialog → ShareDialog
  unfolding put_attempt record_access_denial set_share_attempt refetch is_session_context_active
  on_error c e d =
      if is_session_context_active (some c.context) d.session
      then (let f = put_attempt (λ a. failed_attempt a e) d in
          let s = if is_access_error e then record_access_denial share_key f.store else f.store in
          let attempt : ShareAttempt = record {
            pending = false;
            uncertain = true;
            revision = c.revision;
            completed = false;
            completed_read_revision = none;
          } in
          refetch (record f { store = set_share_attempt id attempt s }))
      else d

  unfoldable pub settle :
      Change → Outcome (Option Invitation) → List SessionEvent → ShareDialog → ShareDialog
  unfolding on_success on_error
  settle c (value v) waiting d = on_success c v waiting d
  settle c (failed e) waiting d = on_error c e d

  unfoldable pub reply :
      ℕ → Outcome (Option Invitation) → List SessionEvent → ShareDialog → ShareDialog
  unfolding settle remove_at
  reply n outcome waiting d = elim (get_elem? d.changes n) [
    | none ↦ d
    | some c ↦ settle c outcome waiting (record d { changes = remove_at n d.changes })
  ]

  -- The part of `recover` behind `beginShareRecovery`: the queries are cancelled while `waiting`
  -- happens, and the read begins.
  unfoldable pub recovering : List SessionEvent → ℕ → Store → ShareDialog → ShareDialog
  unfolding cancel_queries is_session_context_active capture_session begin_access_read
  recovering waiting revision s d =
      let context = capture_session d.session in
      let e = record d {
        store = s;
        query = cancel_queries d.query;
        session = run waiting d.session;
      } in
      let r : Recovering = record {
        revision = revision;
        context = context;
        access_revision = begin_access_read share_key s;
      } in
      if is_session_context_active (some context) e.session
      then record e { recoveries = d.recoveries ++ r ∷ [] }
      else e

  unfoldable pub recover : List SessionEvent → ShareDialog → ShareDialog
  unfolding begin_share_recovery recovering
  recover waiting d =
      if is_pending (attempt_of d)
      then d
      else (let (s, revision) = begin_share_recovery id d.store in
          elim revision [ none ↦ d | some r ↦ recovering waiting r s d ])

  -- `finally`
  unfoldable pub end_recovery : Recovering → ShareDialog → ShareDialog
  unfolding clear_share_recovery is_session_context_active
  end_recovery r d =
      if is_session_context_active (some r.context) d.session
      then record d { store = clear_share_recovery id r.revision d.store }
      else d

  -- The answer is taken over, unless the session or another recovery has overtaken this one.
  unfoldable pub take_over : Recovering → Invitation → ShareDialog → ShareDialog
  unfolding is_session_context_active is_current_share_recovery set_query_data clear_share_attempt
      clear_access_denial access_read_can_clear
  take_over r v d =
      if is_session_context_active (some r.context) d.session
        && is_current_share_recovery id r.revision d.store
      then (let s =
            if access_read_can_clear share_key d.store
            then clear_access_denial share_key d.store
            else d.store in
          record d { query = set_query_data v d.query; store = clear_share_attempt id s })
      else d

  unfoldable pub recovered : Recovering → Outcome Invitation → ShareDialog → ShareDialog
  unfolding take_over end_recovery
  recovered r (failed e) d = end_recovery r d
  recovered r (value v) d = end_recovery r (take_over r v d)

  unfoldable pub end_recovering : ℕ → Outcome Invitation → ShareDialog → ShareDialog
  unfolding recovered access_read_settled remove_at
  end_recovering n outcome d = elim (get_elem? d.recoveries n) [
    | none ↦ d
    | some r ↦ recovered r outcome (record d {
      recoveries = remove_at n d.recoveries;
      store = access_read_settled share_key r.access_revision outcome d.store;
    })
  ]

-- What the user does, what the server answers, the effects, and what happens to the session.
pub data DialogEvent : Type 0 where
  refetches clears_denied clears_completed : DialogEvent
  ends_read : ℕ → Outcome Invitation → DialogEvent
  clicks : ChangeKind → DialogEvent
  replies : ℕ → Outcome (Option Invitation) → List SessionEvent → DialogEvent
  recovers : List SessionEvent → DialogEvent
  ends_recovery : ℕ → Outcome Invitation → DialogEvent
  in_session : SessionEvent → DialogEvent

module _ (id : String) (share_key : String) where
  unfoldable pub step : DialogEvent → ShareDialog → ShareDialog
  unfolding refetch clear_denied clear_completed end_read click reply recover end_recovering
  step refetches d = refetch id share_key d
  step clears_denied d = clear_denied id share_key d
  step clears_completed d = clear_completed id share_key d
  step (ends_read n outcome) d = end_read id share_key n outcome d
  step (clicks kind) d = click id share_key kind d
  step (replies n outcome waiting) d = reply id share_key n outcome waiting d
  step (recovers waiting) d = recover id share_key waiting d
  step (ends_recovery n outcome) d = end_recovering id share_key n outcome d
  step (in_session e) d = record d { session = happen e d.session }

  unfoldable pub run_dialog : List DialogEvent → ShareDialog → ShareDialog
  unfolding step
  run_dialog [] d = d
  run_dialog (e ∷ es) d = run_dialog es (step e d)

-- ===== src/ScheduleForm/Rights.antt =====
-- The form beside the refusals of access that state.ts keeps: a save that is refused, and `recoverAccess`.
pub mod Held
use ai_erp.Base.{
  ℕ, String, Bool, true, false, not, ◌&&◌, ◌||◌, Option, none, some, is_some, List, [], ◌∷◌,
  if◌then◌else◌,
}
use ai_erp.Session.{
  Session, SessionEvent, capture_session, is_session_context_active, run as run_session,
}
use ai_erp.State.{Store}
use ai_erp.State.Denials.{record_access_denial, has_access_denial, clear_access_denial}
use ai_erp.State.Events.{StoreEvent, apply_event}
use ai_erp.ScheduleForm.{Zones, Texts, Schedule}
use ai_erp.ScheduleForm.Body.{Access, ScheduleProperty}
use ai_erp.ScheduleForm.Conflict.{
  Form, FormEvent, answers, Answer, accepted, refused, conflicted, reset, step,
}

pub record FormPage : Type 0 where
  pub form : Form
  pub store : Store
  pub session : Session

-- What `recoverAccess` reads: whether each read succeeds, and what the session does before the second
-- two and after them.
pub record Reads : Type 0 where
  pub membership : Bool
  pub before : List SessionEvent
  pub people : Bool
  pub latest : Bool
  pub after : List SessionEvent

-- A save's answer says whether the session that it was sent in is active.
pub data RightsEvent : Type 0 where
  in_form : Access → FormEvent → RightsEvent
  in_store : StoreEvent → RightsEvent
  in_session : SessionEvent → RightsEvent
  recovers : Reads → RightsEvent

-- The access error of an answer that comes in its session.
abbrev pub is_denied_answer : FormEvent → Bool
is_denied_answer (answers active still (refused access)) = active && access
is_denied_answer _ = false

module _ (zones : Zones) (texts : Texts) (properties : List ScheduleProperty)
    (snapshot : Option Schedule) (write_access_key : String) where
  -- `writeDenied` is what the store has.
  abbrev pub access_in : Access → Store → Access
  access_in a s = record a { write_denied = has_access_denial write_access_key s }

  unfoldable pub form_step : Access → FormEvent → FormPage → FormPage
  unfolding has_access_denial step record_access_denial
  form_step a e p = record p {
    form = step zones texts properties snapshot (access_in a p.store) e p.form;
    store =
        if is_denied_answer e && p.form.is_pending
        then record_access_denial write_access_key p.store
        else p.store;
  }

  abbrev pub all_reads : Reads → Bool
  all_reads r = r.membership && r.people && (not (is_some snapshot) || r.latest)

  -- `recoverAccess`, and the button that resets the save where it succeeds.
  unfoldable pub recover_access : Reads → FormPage → FormPage
  unfolding capture_session is_session_context_active run_session clear_access_denial
  recover_access r p =
      let context = some (capture_session p.session) in
      let asked = run_session r.before p.session in
      if not (is_session_context_active context asked) || not r.membership
      then record p { session = asked }
      else let done = run_session r.after asked in
        if not (is_session_context_active context done) || not (all_reads r)
        then record p { session = done }
        else record {
          form = reset zones p.form;
          store = clear_access_denial write_access_key p.store;
          session = done;
        }

  unfoldable pub rights_step : RightsEvent → FormPage → FormPage
  unfolding form_step apply_event run_session recover_access
  rights_step (in_form a e) p = form_step a e p
  rights_step (in_store e) p = record p { store = apply_event e p.store }
  rights_step (in_session e) p = record p { session = run_session (e ∷ []) p.session }
  rights_step (recovers r) p = recover_access r p

  unfoldable pub run_rights : List RightsEvent → FormPage → FormPage
  unfolding rights_step
  run_rights [] p = p
  run_rights (e ∷ es) p = run_rights es (rights_step e p)

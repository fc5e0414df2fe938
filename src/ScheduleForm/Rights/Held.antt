-- ===== src/ScheduleForm/Rights/Held.antt =====
-- After a refused save nothing is sent until the rights have been read again.
use ai_erp.Base.{
  ◌≡◌, refl, arith, ◌+◌, str_eq, String, Bool, true, false, not, ◌&&◌, ◌||◌, Option, none, some,
  is_some, all, List, [], ◌∷◌, if◌then◌else◌, Bool-cases, Option-cases, inl, inr, ap, ◌∙◌,
}
use ai_erp.Session.{capture_session, is_session_context_active, run as run_session}
use ai_erp.Base.Dict.{get-put, get-remove}
use ai_erp.State.{Store, subscribe, unsubscribe}
use ai_erp.State.Attempts.{
  set_create_attempt, clear_create_attempt, record_creation_uncertainty, clear_creation_uncertainty,
}
use ai_erp.State.Sharing.{
  begin_share_read, set_share_attempt, clear_share_attempt, start_share_attempt,
  begin_share_recovery, clear_share_recovery, invalidate_share_recovery,
}
use ai_erp.State.Denials.{
  record_access_denial, has_access_denial, clear_access_denial, complete_access_read,
  denial_revision,
}
use ai_erp.State.Events.{StoreEvent, denies, clears_denial, resets, apply_event}
use ai_erp.ScheduleForm.{Zones, Texts, Schedule}
use ai_erp.ScheduleForm.Body.{Access, ScheduleProperty}
use ai_erp.ScheduleForm.Conflict.{
  Sent, Form, FormEvent, edits, reads_values, submits, answers, retries, takes_latest, rereads,
  changes_query, Answer, accepted, refused, conflicted, apply_latest, reset, submit, sends_nothing,
  settle_conflict, on_latest, on_answer, on_conflict, is_disabled, step,
}
use ai_erp.ScheduleForm.Rights.{
  FormPage, Reads, RightsEvent, in_form, in_store, in_session, recovers, is_denied_answer,
  access_in, all_reads, form_step, recover_access, rights_step, run_rights,
}

-- The calls of the store that do not lift a refusal.
abbrev pub leaves_denied : String → StoreEvent → Bool
leaves_denied key (clears_denial k) = not (str_eq k key)
leaves_denied key resets = false
leaves_denied key _ = true

record_access_denial_has :
    (key k : String) (s : Store)
    → has_access_denial key s ≡ true
    → has_access_denial key (record_access_denial k s) ≡ true
unfolding has_access_denial record_access_denial
record_access_denial_has key k s h =
    ground (arith, h, get-put key k (denial_revision k s + 1) s.denials)

clear_access_denial_has :
    (key k : String) (s : Store)
    → str_eq k key ≡ false
    → has_access_denial key s ≡ true
    → has_access_denial key (clear_access_denial k s) ≡ true
unfolding has_access_denial clear_access_denial
clear_access_denial_has key k s q h = ground (arith, h, q, get-remove key k s.denials)

apply_event_has :
    (key : String) (e : StoreEvent) (s : Store)
    → leaves_denied key e ≡ true
    → has_access_denial key s ≡ true
    → has_access_denial key (apply_event e s) ≡ true
unfolding apply_event has_access_denial complete_access_read set_create_attempt clear_create_attempt
    record_creation_uncertainty clear_creation_uncertainty begin_share_read set_share_attempt
    clear_share_attempt start_share_attempt begin_share_recovery clear_share_recovery
    invalidate_share_recovery subscribe unsubscribe
apply_event_has key (denies k) s t h = record_access_denial_has key k s h
apply_event_has key (clears_denial k) s t h = clear_access_denial_has key k s (ground arith) h
apply_event_has key resets s t h = absurd (ground arith)
apply_event_has key e s t h = ground (arith, h)

module _ (zones : Zones) (texts : Texts) (properties : List ScheduleProperty)
    (snapshot : Option Schedule) where
  submit_shut :
      (a : Access) (before : Form → Form) (f : Form)
      → a.write_denied ≡ true
      → submit zones texts properties snapshot a before f ≡ f
  unfolding submit
  submit_shut a before f h =
      let shut : sends_nothing zones texts properties snapshot a f ≡ true = ground (arith, h) in
      rw (shut, submit) refl

  if_sent : (b : Bool) (g f : Form) → g.sent ≡ f.sent → (if b then g else f).sent ≡ f.sent
  if_sent true g f h = h
  if_sent false g f h = refl

  on_latest_sent : (latest : Option Schedule) (f : Form) → (on_latest zones latest f).sent ≡ f.sent
  on_latest_sent none f = refl
  on_latest_sent (some s) f = refl

  on_answer_sent :
      (active still : Bool) (answer : Answer) (f : Form)
      → (on_answer zones texts properties snapshot active still answer f).sent ≡ f.sent
  unfolding on_answer
  on_answer_sent active still accepted f =
      let f = record f { is_pending = false } in if_sent active (record f { saved = true }) f refl
  on_answer_sent active still (refused access) f = refl
  on_answer_sent active still (conflicted latest) f =
      let f = record f { is_pending = false; is_error = true } in
      if_sent (is_some snapshot && active && still) (on_latest zones latest f) f
        (on_latest_sent latest f)

  on_conflict_sent :
      (act : Schedule → Form → Form) (f : Form)
      → ((s : Schedule) → (act s f).sent ≡ f.sent)
      → (on_conflict zones texts properties snapshot act f).sent ≡ f.sent
  unfolding on_conflict
  on_conflict_sent act f same = elim (Option-cases f.draft.conflict) [
    | inl q ↦ rw (q, on_conflict) refl
    | inr (s, q) ↦ rw (q, on_conflict) (if_sent f.is_error (act s f) f (same s))
  ]

  -- While the write is denied, no event sends.
  step_shut :
      (a : Access) (e : FormEvent) (f : Form)
      → a.write_denied ≡ true
      → (step zones texts properties snapshot a e f).sent ≡ f.sent
  unfolding step
  step_shut a (edits e) f h = ground arith
  step_shut a (reads_values vs) f h = refl
  step_shut a submits f h = ap (λ g. g.sent) (submit_shut a (λ g. g) f h)
  step_shut a (answers active still answer) f h =
      if_sent f.is_pending (on_answer zones texts properties snapshot active still answer f) f
        (on_answer_sent active still answer f)
  step_shut a retries f h =
      on_conflict_sent
        (λ s.
          submit zones texts properties snapshot a
            (settle_conflict zones texts properties snapshot s))
        f
        (λ s.
          ap (λ g. g.sent) (submit_shut a (settle_conflict zones texts properties snapshot s) f h))
  step_shut a takes_latest f h =
      on_conflict_sent (λ s g. reset zones (record g { draft = apply_latest zones s g.draft })) f
        (λ s. refl)
  step_shut a (rereads latest) f h =
      if_sent
        (is_some snapshot
          && f.is_error
          && f.draft.conflict_read_failed
          && not (is_disabled zones texts properties snapshot a f))
        (on_latest zones latest f) f (on_latest_sent latest f)
  step_shut a (changes_query agrees p) f h = ground arith

  module _ (key : String) where
    -- The refusal stays, and nothing further is sent.
    abbrev IsHeld : List Sent → FormPage → Type 0
    IsHeld sent p = (has_access_denial key p.store ≡ true) × (p.form.sent ≡ sent)

    -- No other call lifts the refusal, and no read of the rights succeeds.
    abbrev pub keeps_denial : RightsEvent → Bool
    keeps_denial (in_form a e) = true
    keeps_denial (in_store e) = leaves_denied key e
    keeps_denial (in_session e) = true
    keeps_denial (recovers r) = not (all_reads zones texts properties snapshot key r)

    form_step-IsHeld :
        (sent : List Sent) (a : Access) (e : FormEvent) (p : FormPage)
        → IsHeld sent p
        → IsHeld sent (form_step zones texts properties snapshot key a e p)
    unfolding form_step
    form_step-IsHeld sent a e p (d, s) =
        let same =
          step_shut (access_in zones texts properties snapshot key a p.store) e p.form d ∙ s in
        elim (Bool-cases (is_denied_answer e && p.form.is_pending)) [
          | inl q ↦ rw (q, form_step) (record_access_denial_has key key p.store d, same)
          | inr q ↦ rw (q, form_step) (d, same)
        ]

    if_IsHeld :
        (sent : List Sent) (b : Bool) (p q : FormPage)
        → (b ≡ true → IsHeld sent p)
        → (b ≡ false → IsHeld sent q)
        → IsHeld sent (if b then p else q)
    if_IsHeld sent true p q h k = h refl
    if_IsHeld sent false p q h k = k refl

    -- `recoverAccess` without one of its reads.
    recover_access-IsHeld :
        (sent : List Sent) (r : Reads) (p : FormPage)
        → all_reads zones texts properties snapshot key r ≡ false
        → IsHeld sent p
        → IsHeld sent (recover_access zones texts properties snapshot key r p)
    unfolding recover_access
    recover_access-IsHeld sent r p unread (d, s) =
        let context = some (capture_session p.session) in
        let asked = run_session r.before p.session in
        let done = run_session r.after asked in
        if_IsHeld sent (not (is_session_context_active context asked) || not r.membership)
          (record p { session = asked })
          (if not (is_session_context_active context done)
              || not (all_reads zones texts properties snapshot key r)
            then record p { session = done }
            else record {
              form = reset zones p.form;
              store = clear_access_denial key p.store;
              session = done;
            })
          (λ q. (d, s))
          (λ q.
            if_IsHeld sent
              (not (is_session_context_active context done)
                || not (all_reads zones texts properties snapshot key r))
              (record p { session = done })
              (record {
                form = reset zones p.form;
                store = clear_access_denial key p.store;
                session = done;
              })
              (λ q. (d, s)) (λ q. absurd (ground (arith, q, unread))))

    rights_step-IsHeld :
        (sent : List Sent) (e : RightsEvent) (p : FormPage)
        → keeps_denial e ≡ true
        → IsHeld sent p
        → IsHeld sent (rights_step zones texts properties snapshot key e p)
    unfolding rights_step
    rights_step-IsHeld sent (in_form a e) p t h = form_step-IsHeld sent a e p h
    rights_step-IsHeld sent (in_store e) p t (d, s) = (apply_event_has key e p.store t d, s)
    rights_step-IsHeld sent (in_session e) p t h = h
    rights_step-IsHeld sent (recovers r) p t h = recover_access-IsHeld sent r p (ground arith) h

    run-IsHeld :
        (sent : List Sent) (es : List RightsEvent) (p : FormPage)
        → all keeps_denial es ≡ true
        → IsHeld sent p
        → IsHeld sent (run_rights zones texts properties snapshot key es p)
    unfolding run_rights
    run-IsHeld sent [] p t h = h
    run-IsHeld sent (e ∷ es) p t h =
        run-IsHeld sent es (rights_step zones texts properties snapshot key e p) (ground arith)
          (rights_step-IsHeld sent e p (ground arith) h)

    -- Once a save was refused for want of rights, nothing further is sent and the refusal stays, whatever
    -- the user does in the form and the server answers, and the session and the rest of the store do,
    -- until every read of `recoverAccess` succeeds or another call lifts the refusal.
    pub run_rights-IsHeld :
        (es : List RightsEvent) (p : FormPage)
        → all keeps_denial es ≡ true
        → has_access_denial key p.store ≡ true
        → (has_access_denial key (run_rights zones texts properties snapshot key es p).store ≡ true)
          × ((run_rights zones texts properties snapshot key es p).form.sent ≡ p.form.sent)
    run_rights-IsHeld es p t h = run-IsHeld p.form.sent es p t (h, refl)

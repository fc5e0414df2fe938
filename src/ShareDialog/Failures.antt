-- ===== src/ShareDialog/Failures.antt =====
-- What a failed change leaves, and how a recovery makes the invitation changeable again.
use ai_erp.Base.{◌≡◌, refl, String, true, false, Option, none, some, List, [], ◌∷◌, arith, ◌∙◌}
use ai_erp.Base.Dict.{get-put_self}
use ai_erp.Base.Lists.{remove_at}
use ai_erp.Session.{SessionEvent, is_session_context_active}
use ai_erp.State.{ShareAttempt}
use ai_erp.State.Denials.{Failure, Outcome, failed}
use ai_erp.State.Sharing.{set_share_attempt, begin_share_read}
use ai_erp.ShareDialog.{
  ShareDialog, Change, Invitation, attempt_of, can_change, failed_attempt, DialogEvent, run_dialog,
  refetch, put_attempt, on_error, settle, reply,
}
use ai_erp.ShareDialog.Locked.{none_answered, run_dialog-held}

-- The attempt after a failure.
abbrev pub uncertain_attempt : Change → ShareAttempt
uncertain_attempt c = record {
  pending = false;
  uncertain = true;
  revision = c.revision;
  completed = false;
  completed_read_revision = none;
}

module _ (id : String) (share_key : String) where
  put_attempt-changes :
      (g : ShareAttempt → ShareAttempt) (d : ShareDialog)
      → (put_attempt id share_key g d).changes ≡ d.changes
  unfolding put_attempt
  put_attempt-changes g d = ground arith

  put_attempt-sent :
      (g : ShareAttempt → ShareAttempt) (d : ShareDialog)
      → (put_attempt id share_key g d).sent ≡ d.sent
  unfolding put_attempt
  put_attempt-sent g d = ground arith

  uncertain-locked :
      (d : ShareDialog) (a : ShareAttempt)
      → attempt_of id share_key d ≡ some a
      → a.uncertain ≡ true
      → can_change id share_key d ≡ false
  uncertain-locked d a e h = ground arith

  on_error-failed :
      (c : Change) (e : Failure) (d : ShareDialog)
      → is_session_context_active (some c.context) d.session ≡ true
      → let q = on_error id share_key c e d in
        (q.changes ≡ d.changes)
        × (attempt_of id share_key q ≡ some (uncertain_attempt c))
        × (q.sent ≡ d.sent)
  unfolding on_error refetch begin_share_read set_share_attempt
  on_error-failed c e d live =
      rw (live, on_error)
        (
          put_attempt-changes (λ a. failed_attempt a e) d,
          rw get-put_self refl,
          put_attempt-sent (λ a. failed_attempt a e) d,
        )

  reply-one :
      (c : Change) (o : Outcome (Option Invitation)) (w : List SessionEvent) (d : ShareDialog)
      → d.changes ≡ c ∷ []
      → reply id share_key 0 o w d ≡ settle id share_key c o w (record d { changes = [] })
  unfolding reply remove_at
  reply-one c o w d one = rw one refl

  -- The only open change fails in its live session, whatever the error, also one that the server has
  -- refused with 400 or 409. Whatever follows, as long as no recovery gets an answer: the attempt is
  -- uncertain, nothing can be changed, and nothing more is sent, whatever the user clicks.
  pub reply-failed :
      (c : Change) (e : Failure) (waiting : List SessionEvent) (es : List DialogEvent)
      (d : ShareDialog)
      → d.changes ≡ c ∷ []
      → is_session_context_active (some c.context) d.session ≡ true
      → none_answered es ≡ true
      → let q = run_dialog id share_key es (reply id share_key 0 (failed e) waiting d) in
        (attempt_of id share_key q ≡ some (uncertain_attempt c))
        × (can_change id share_key q ≡ false)
        × (q.sent ≡ d.sent)
  unfolding settle
  reply-failed c e waiting es d one live unanswered =
      let left : ShareDialog = record d { changes = [] } in
      let (closed, known, unsent) = on_error-failed c e left live in
      let q = on_error id share_key c e left in
      let (quiet, kept) =
        run_dialog-held id share_key es (uncertain_attempt c) q unanswered closed known refl refl in
      rw (reply-one c (failed e) waiting d one) (
        kept,
        uncertain-locked (run_dialog id share_key es q) (uncertain_attempt c) kept refl,
        quiet ∙ unsent,
      )

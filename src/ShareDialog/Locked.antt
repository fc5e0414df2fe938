-- ===== src/ShareDialog/Locked.antt =====
-- After a change whose result is not known, nothing is sent before a recovery has an answer.
use ai_erp.Base.{
  ℕ, ◌≡◌, refl, String, Bool, true, false, ◌&&◌, none, some, List, [], ◌∷◌, inl, inr, arith,
  Option-cases, get_elem?,
}
use ai_erp.Base.Lists.{remove_at}
use ai_erp.Session.{SessionEvent}
use ai_erp.State.{ShareAttempt}
use ai_erp.State.Denials.{Failure, Outcome, value, failed, clear_access_denial, access_read_settled}
use ai_erp.State.Sharing.{begin_share_read, begin_share_recovery, clear_share_recovery}
use ai_erp.ShareDialog.{
  ShareDialog, ChangeKind, Recovering, Invitation, attempt_of, can_change, refetch, end_read,
  clear_denied, clear_completed, click, reply, recovering, recover, end_recovery, recovered,
  end_recovering, DialogEvent, refetches, clears_denied, clears_completed, ends_read, clicks,
  replies, recovers, ends_recovery, in_session, step, run_dialog,
}
use ai_erp.ShareDialog.Single.{access_read_settled-SameMaps}

-- No recovery gets an answer.
abbrev pub no_answer : DialogEvent → Bool
no_answer (ends_recovery n (value v)) = false
no_answer _ = true

abbrev pub none_answered : List DialogEvent → Bool
none_answered [] = true
none_answered (e ∷ es) = no_answer e && none_answered es

module _ (id : String) (share_key : String) where
  -- No change is open, the attempt stays as it is, and so does what was sent.
  record IsHeld (a : ShareAttempt) (sent : List ChangeKind) (d : ShareDialog) : Type 0 where
    closed : d.changes ≡ []
    known : attempt_of id share_key d ≡ some a
    quiet : d.sent ≡ sent

  module _ (a : ShareAttempt) (sent : List ChangeKind) (uncertain : a.uncertain ≡ true)
      (going : a.completed ≡ false) where
    end_read-IsHeld :
        (n : ℕ) (o : Outcome Invitation) (d : ShareDialog)
        → IsHeld a sent d
        → IsHeld a sent (end_read id share_key n o d)
    unfolding end_read
    end_read-IsHeld n o d h = elim (Option-cases (get_elem? d.query.fetches n)) [
      | inl e ↦ rw (e, end_read) h
      | inr (f, e) ↦
          let same = access_read_settled-SameMaps share_key f.access_revision o d.store in
          rw (e, end_read)
            record { closed = h.closed; known = rw (same.attempts) (h.known); quiet = h.quiet }
    ]

    click-IsHeld :
        (kind : ChangeKind) (d : ShareDialog) → IsHeld a sent d → click id share_key kind d ≡ d
    unfolding click
    click-IsHeld kind d h =
        let shut : can_change id share_key d ≡ false = ground (arith, h.known) in
        rw (shut, click) refl

    end_recovery-IsHeld :
        (r : Recovering) (d : ShareDialog)
        → IsHeld a sent d
        → IsHeld a sent (end_recovery id share_key r d)
    unfolding end_recovery clear_share_recovery
    end_recovery-IsHeld r d h = ground (arith, h.closed, h.known, h.quiet)

    end_recovering-IsHeld :
        (n : ℕ) (e : Failure) (d : ShareDialog)
        → IsHeld a sent d
        → IsHeld a sent (end_recovering id share_key n (failed e) d)
    unfolding end_recovering recovered
    end_recovering-IsHeld n e d h = elim (Option-cases (get_elem? d.recoveries n)) [
      | inl none_there ↦ rw (none_there, end_recovering) h
      | inr (r, there) ↦
          let settled : ShareDialog = record d {
            recoveries = remove_at n d.recoveries;
            store =
                access_read_settled {A = Invitation} share_key r.access_revision (failed e) d.store;
          } in
          let same =
            access_read_settled-SameMaps {A = Invitation} share_key r.access_revision (failed e)
              d.store in
          let held : IsHeld a sent settled = record {
            closed = h.closed;
            known = rw (same.attempts) (h.known);
            quiet = h.quiet;
          } in
          rw (there, end_recovering) (end_recovery-IsHeld r settled held)
    ]

    recover-IsHeld :
        (w : List SessionEvent) (d : ShareDialog)
        → IsHeld a sent d
        → IsHeld a sent (recover id share_key w d)
    unfolding recover recovering begin_share_recovery
    recover-IsHeld w d h = ground (arith, h.closed, h.known, h.quiet)

    step-IsHeld :
        (e : DialogEvent) (d : ShareDialog)
        → no_answer e ≡ true
        → IsHeld a sent d
        → IsHeld a sent (step id share_key e d)
    unfolding step refetch begin_share_read clear_denied clear_access_denial clear_completed reply
    step-IsHeld refetches d q h = record { closed = h.closed; known = h.known; quiet = h.quiet }
    step-IsHeld clears_denied d q h = ground (arith, h.closed, h.known, h.quiet)
    step-IsHeld clears_completed d q h = ground (arith, h.closed, h.known, h.quiet)
    step-IsHeld (ends_read n o) d q h = end_read-IsHeld n o d h
    step-IsHeld (clicks kind) d q h = rw (click-IsHeld kind d h) h
    step-IsHeld (replies n o w) d q h =
        let nothing : get_elem? d.changes n ≡ none = rw (h.closed) refl in rw (nothing, reply) h
    step-IsHeld (recovers w) d q h = recover-IsHeld w d h
    step-IsHeld (ends_recovery n (value v)) d q h = absurd (ground arith)
    step-IsHeld (ends_recovery n (failed e)) d q h = end_recovering-IsHeld n e d h
    step-IsHeld (in_session e) d q h = record {
      closed = h.closed;
      known = h.known;
      quiet = h.quiet;
    }

    run-IsHeld :
        (es : List DialogEvent) (d : ShareDialog)
        → none_answered es ≡ true
        → IsHeld a sent d
        → IsHeld a sent (run_dialog id share_key es d)
    unfolding run_dialog
    run-IsHeld [] d q h = h
    run-IsHeld (e ∷ es) d q h =
        run-IsHeld es (step id share_key e d) (ground arith) (step-IsHeld e d (ground arith) h)

  -- While the attempt is uncertain and no change is open, nothing is sent and the attempt stays as it
  -- is, whatever the user clicks, until a recovery has read the invitation.
  pub run_dialog-held :
      (es : List DialogEvent) (a : ShareAttempt) (d : ShareDialog)
      → none_answered es ≡ true
      → d.changes ≡ []
      → attempt_of id share_key d ≡ some a
      → a.uncertain ≡ true
      → a.completed ≡ false
      → ((run_dialog id share_key es d).sent ≡ d.sent)
        × (attempt_of id share_key (run_dialog id share_key es d) ≡ some a)
  run_dialog-held es a d q closed known uncertain going =
      let held =
        run-IsHeld a d.sent uncertain going es d q
          (record { closed = closed; known = known; quiet = refl }) in
      (held.quiet, held.known)

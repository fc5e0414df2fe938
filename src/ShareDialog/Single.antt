-- ===== src/ShareDialog/Single.antt =====
-- At most one change is open at a time, and none beside a recovery that is still current.
use ai_erp.Base.{
  ℕ, zero, suc, ◌≡◌, refl, String, true, false, Option, none, some, List, [], ◌∷◌, ◌⊎◌, inl, inr,
  arith, length, ◌≤◌, Option-cases, Bool-cases, get_elem?, ◌∙◌,
}
use ai_erp.Base.Dict.{get, get-put_self, get-remove_self}
use ai_erp.Base.Lists.{remove_at}
use ai_erp.Session.{SessionEvent}
use ai_erp.State.{Store, ShareAttempt}
use ai_erp.State.Denials.{
  Outcome, value, failed, record_access_denial, clear_access_denial, access_read_settled,
  complete_access_read,
}
use ai_erp.State.Sharing.{
  invalidate_share_recovery, clear_share_recovery, is_current_share_recovery, begin_share_recovery,
  start_share_attempt, set_share_attempt, begin_share_read,
}
use ai_erp.ShareDialog.{
  ShareDialog, Change, ChangeKind, Recovering, Invitation, attempt_of, is_pending, is_completed,
  can_change, refetch, end_read, clear_denied, clear_completed, start, click, put_attempt, changed,
  on_success, on_error, settle, reply, recovering, recover, end_recovery, take_over, recovered,
  end_recovering, DialogEvent, refetches, clears_denied, clears_completed, ends_read, clicks,
  replies, recovers, ends_recovery, in_session, step, run_dialog,
}

-- While a change is open, its attempt is pending and not completed, and no recovery is current.
abbrev pub IsOpen : List Change → Option ShareAttempt → Option ℕ → Type 0
IsOpen [] a r = Unit
IsOpen (c ∷ []) (some a) none = (a.pending ≡ true) × (a.completed ≡ false)
IsOpen _ _ _ = ⊥

idle :
    (l : List Change) (a : Option ShareAttempt) (r : Option ℕ)
    → IsOpen l a r
    → is_pending a ≡ false
    → l ≡ []
idle [] a r h k = refl
idle (c ∷ []) none r h k = absurd h
idle (c ∷ []) (some a) none (p, q) k = absurd (ground arith)
idle (c ∷ []) (some a) (some r) h k = absurd h
idle (c ∷ c' ∷ l) a r h k = absurd h

finished :
    (l : List Change) (a : Option ShareAttempt) (r : Option ℕ)
    → IsOpen l a r
    → is_completed a ≡ true
    → l ≡ []
finished [] a r h k = refl
finished (c ∷ []) none r h k = absurd h
finished (c ∷ []) (some a) none (p, q) k = absurd (ground arith)
finished (c ∷ []) (some a) (some r) h k = absurd h
finished (c ∷ c' ∷ l) a r h k = absurd h

open-cases :
    (l : List Change) (a : Option ShareAttempt) (r : Option ℕ)
    → IsOpen l a r
    → (l ≡ []) ⊎ (r ≡ none)
open-cases [] a r h = inl refl
open-cases (c ∷ []) none r h = absurd h
open-cases (c ∷ []) (some a) none h = inr refl
open-cases (c ∷ []) (some a) (some r) h = absurd h
open-cases (c ∷ c' ∷ l) a r h = absurd h

IsOpen-length :
    (l : List Change) (a : Option ShareAttempt) (r : Option ℕ) → IsOpen l a r → length l ≤ 1
IsOpen-length [] a r h = omega arith
IsOpen-length (c ∷ []) a r h = omega arith
IsOpen-length (c ∷ c' ∷ l) a r h = absurd h

-- Nothing of what the invariant reads has changed.
record Same (d e : ShareDialog) : Type 0 where
  changes : e.changes ≡ d.changes
  attempts : e.store.share_attempts ≡ d.store.share_attempts
  recoveries : e.store.share_recoveries ≡ d.store.share_recoveries

pub record SameMaps (s t : Store) : Type 0 where
  pub attempts : t.share_attempts ≡ s.share_attempts
  pub recoveries : t.share_recoveries ≡ s.share_recoveries

pub access_read_settled-SameMaps :
    {A : Type 0} (key : String) (revision : ℕ) (o : Outcome A) (s : Store)
    → SameMaps s (access_read_settled key revision o s)
unfolding access_read_settled complete_access_read record_access_denial
access_read_settled-SameMaps key revision (value a) s = ground arith
access_read_settled-SameMaps key revision (failed e) s = ground arith

clear_access_denial-SameMaps : (key : String) (s : Store) → SameMaps s (clear_access_denial key s)
unfolding clear_access_denial
clear_access_denial-SameMaps key s = ground arith

module _ (id : String) (share_key : String) where
  abbrev recovery_of : ShareDialog → Option ℕ
  recovery_of d = get id d.store.share_recoveries

  abbrev pub IsSafe : ShareDialog → Type 0
  IsSafe d = IsOpen d.changes (attempt_of id share_key d) (recovery_of d)

  Same-IsSafe : (d e : ShareDialog) → Same d e → IsSafe d → IsSafe e
  Same-IsSafe d e same h = rw (same.changes, same.attempts, same.recoveries) h

  closed-IsSafe : (e : ShareDialog) → e.changes ≡ [] → IsSafe e
  closed-IsSafe e h = rw h tt

  end_read-Same :
      (n : ℕ) (o : Outcome Invitation) (d : ShareDialog) → Same d (end_read id share_key n o d)
  unfolding end_read
  end_read-Same n o d = elim (Option-cases (get_elem? d.query.fetches n)) [
    | inl e ↦ rw (e, end_read) record { changes = refl; attempts = refl; recoveries = refl }
    | inr (f, e) ↦
        let same = access_read_settled-SameMaps share_key f.access_revision o d.store in
        rw (e, end_read)
          record { changes = refl; attempts = same.attempts; recoveries = same.recoveries }
  ]

  clear_denied-Same : (d : ShareDialog) → Same d (clear_denied id share_key d)
  unfolding clear_denied clear_access_denial
  clear_denied-Same d = ground arith

  clear_completed-IsSafe : (d : ShareDialog) → IsSafe d → IsSafe (clear_completed id share_key d)
  unfolding clear_completed
  clear_completed-IsSafe d h = elim (Bool-cases (is_completed (attempt_of id share_key d))) [
    | inl done ↦
        closed-IsSafe (clear_completed id share_key d)
          (ground (arith, finished d.changes (attempt_of id share_key d) (recovery_of d) h done))
    | inr going ↦ Same-IsSafe d (clear_completed id share_key d) (ground arith) h
  ]

  invalidate_share_recovery-none :
      (s : Store) → get id (invalidate_share_recovery id s).share_recoveries ≡ none
  unfolding invalidate_share_recovery
  invalidate_share_recovery-none s = ground (arith, get-remove_self id s.share_recoveries)

  start-IsSafe :
      (kind : ChangeKind) (d : ShareDialog) → d.changes ≡ [] → IsSafe (start id share_key kind d)
  unfolding start start_share_attempt set_share_attempt
  start-IsSafe kind d h = rw (h, get-put_self, invalidate_share_recovery-none d.store) (refl, refl)

  click-IsSafe :
      (kind : ChangeKind) (d : ShareDialog) → IsSafe d → IsSafe (click id share_key kind d)
  unfolding click
  click-IsSafe kind d h = elim (Bool-cases (can_change id share_key d)) [
    | inl free ↦
        rw (free, click)
          (start-IsSafe kind d
            (idle d.changes (attempt_of id share_key d) (recovery_of d) h (ground arith)))
    | inr busy ↦ rw (busy, click) h
  ]

  settle-changes :
      (c : Change) (o : Outcome (Option Invitation)) (w : List SessionEvent) (d : ShareDialog)
      → (settle id share_key c o w d).changes ≡ d.changes
  unfolding settle on_success on_error put_attempt changed refetch
  settle-changes c (value v) w d = ground arith
  settle-changes c (failed e) w d = ground arith

  reply-IsSafe_at :
      (n : ℕ) (o : Outcome (Option Invitation)) (w : List SessionEvent) (l : List Change)
      (d : ShareDialog)
      → IsOpen l (attempt_of id share_key d) (recovery_of d)
      → IsSafe (reply id share_key n o w (record d { changes = l }))
  unfolding reply remove_at
  reply-IsSafe_at n o w [] d h = tt
  reply-IsSafe_at zero o w (c ∷ []) d h =
      closed-IsSafe (settle id share_key c o w (record d { changes = [] }))
        (settle-changes c o w (record d { changes = [] }))
  reply-IsSafe_at (suc n) o w (c ∷ []) d h = h
  reply-IsSafe_at n o w (c ∷ c' ∷ l) d h = absurd h

  recover-changes :
      (w : List SessionEvent) (d : ShareDialog) → (recover id share_key w d).changes ≡ d.changes
  unfolding recover recovering begin_share_recovery
  recover-changes w d = ground arith

  recover-IsSafe :
      (w : List SessionEvent) (d : ShareDialog) → IsSafe d → IsSafe (recover id share_key w d)
  unfolding recover
  recover-IsSafe w d h = elim (Bool-cases (is_pending (attempt_of id share_key d))) [
    | inl busy ↦ rw (busy, recover) h
    | inr free ↦
        closed-IsSafe (recover id share_key w d)
          (recover-changes w d ∙ idle d.changes (attempt_of id share_key d) (recovery_of d) h free)
  ]

  recovered-changes :
      (r : Recovering) (o : Outcome Invitation) (d : ShareDialog)
      → (recovered id share_key r o d).changes ≡ d.changes
  unfolding recovered take_over end_recovery
  recovered-changes r (value v) d = ground arith
  recovered-changes r (failed e) d = ground arith

  recovered-Same :
      (r : Recovering) (o : Outcome Invitation) (d : ShareDialog)
      → recovery_of d ≡ none
      → Same d (recovered id share_key r o d)
  unfolding recovered take_over end_recovery clear_share_recovery is_current_share_recovery
  recovered-Same r (value v) d h = ground arith
  recovered-Same r (failed e) d h = ground arith

  recovered-IsSafe :
      (r : Recovering) (o : Outcome Invitation) (d : ShareDialog)
      → IsSafe d
      → IsSafe (recovered id share_key r o d)
  recovered-IsSafe r o d h =
      elim (open-cases d.changes (attempt_of id share_key d) (recovery_of d) h) [
        | inl none_open ↦
            closed-IsSafe (recovered id share_key r o d) (recovered-changes r o d ∙ none_open)
        | inr none_current ↦
            Same-IsSafe d (recovered id share_key r o d) (recovered-Same r o d none_current) h
      ]

  end_recovering-IsSafe :
      (n : ℕ) (o : Outcome Invitation) (d : ShareDialog)
      → IsSafe d
      → IsSafe (end_recovering id share_key n o d)
  unfolding end_recovering
  end_recovering-IsSafe n o d h = elim (Option-cases (get_elem? d.recoveries n)) [
    | inl e ↦ rw (e, end_recovering) h
    | inr (r, e) ↦
        let same = access_read_settled-SameMaps share_key r.access_revision o d.store in
        rw (e, end_recovering) (recovered-IsSafe r o _ (rw (same.attempts, same.recoveries) h))
  ]

  step-IsSafe : (e : DialogEvent) (d : ShareDialog) → IsSafe d → IsSafe (step id share_key e d)
  unfolding step refetch begin_share_read
  step-IsSafe refetches d h = h
  step-IsSafe clears_denied d h = Same-IsSafe d _ (clear_denied-Same d) h
  step-IsSafe clears_completed d h = clear_completed-IsSafe d h
  step-IsSafe (ends_read n o) d h = Same-IsSafe d _ (end_read-Same n o d) h
  step-IsSafe (clicks kind) d h = click-IsSafe kind d h
  step-IsSafe (replies n o w) d h = reply-IsSafe_at n o w d.changes d h
  step-IsSafe (recovers w) d h = recover-IsSafe w d h
  step-IsSafe (ends_recovery n o) d h = end_recovering-IsSafe n o d h
  step-IsSafe (in_session e) d h = h

  run-IsSafe :
      (es : List DialogEvent) (d : ShareDialog) → IsSafe d → IsSafe (run_dialog id share_key es d)
  unfolding run_dialog
  run-IsSafe [] d h = h
  run-IsSafe (e ∷ es) d h = run-IsSafe es (step id share_key e d) (step-IsSafe e d h)

  -- From a dialog with no change open, whatever the user, the server, the effects and the session do,
  -- no second change of the invitation is open beside one that has not settled, and while one is open
  -- its attempt is pending and no recovery counts as current.
  pub run_dialog-single :
      (es : List DialogEvent) (d : ShareDialog)
      → d.changes ≡ []
      → (length (run_dialog id share_key es d).changes ≤ 1) × IsSafe (run_dialog id share_key es d)
  run_dialog-single es d h =
      let safe = run-IsSafe es d (closed-IsSafe d h) in
      (IsOpen-length (run_dialog id share_key es d).changes _ _ safe, safe)

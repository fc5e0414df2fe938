-- ===== src/Schedules/Writes/Single.antt =====
-- At most one change of times is open, and nothing else is begun beside it.
use ai_erp.Base.{
  ℕ, zero, suc, String, eq_refl, ◌≡◌, refl, Bool, true, false, Option, none, some, List, [], ◌∷◌,
  ◌++◌, arith, if◌then◌else◌, get_elem?, inl, inr, Bool-cases, Option-cases, ap, ◌∙◌,
}
use ai_erp.Base.Lists.{remove_at}
use ai_erp.Session.{is_session_context_active, capture_session}
use ai_erp.State.Denials.{Failure, Outcome}
use ai_erp.State.Events.{StoreEvent}
use ai_erp.ScheduleTime.{
  CalendarSchedule, ScheduleTimeChange, ScheduleTimeMutationResult, saved, rejected, recovered,
  locked, execute_schedule_time_mutation,
}
use ai_erp.Schedules.Writes.{
  Rules, Token, drag, dialog, write, same_token, is_gesture, is_dialog, RangeRead, After,
  after_saved, after_recovered, Write, CalendarPage, role_outcome, asks_server, may_save, release,
  is_same_time,
}
use ai_erp.Schedules.Writes.Saving.{
  new_write, save_change, finish, reads, on_rejected, on_locked, refreshing, on_result, answered,
  on_refreshed, end_write,
}

abbrev pub is_write : Option Token → Bool
is_write (some (write id now)) = true
is_write _ = false

-- Either no write is open, and no write holds the token; or one is, its schedule is pending, and its
-- token is the one that is held.
pub data IsSafe {R : Type 0} (d : CalendarPage R) : Type 0 where
  closed : d.writes ≡ [] → is_write d.active ≡ false → IsSafe d
  writing :
      (w : Write)
      → d.writes ≡ w ∷ []
      → d.pending_id ≡ some w.schedule.id
      → d.active ≡ some w.token
      → is_write (some w.token) ≡ true
      → IsSafe d

pub same_token_refl : (t : Token) → same_token t t ≡ true
unfolding same_token
same_token_refl (drag a n) = ground (arith, eq_refl a)
same_token_refl (dialog a) = eq_refl a
same_token_refl (write a n) = ground (arith, eq_refl a)

pub write-gesture : (t : Token) → is_write (some t) ≡ true → is_gesture (some t) ≡ false
write-gesture (drag a n) h = absurd (ground arith)
write-gesture (dialog a) h = absurd (ground arith)
write-gesture (write a n) h = refl

pub write-dialog : (t : Token) → is_write (some t) ≡ true → is_dialog (some t) ≡ false
write-dialog (drag a n) h = absurd (ground arith)
write-dialog (dialog a) h = absurd (ground arith)
write-dialog (write a n) h = refl

pub write-drag :
    (t : Token) (a : String) (n : ℕ) → is_write (some t) ≡ true → same_token t (drag a n) ≡ false
unfolding same_token
write-drag (drag b m) a n h = absurd (ground arith)
write-drag (dialog b) a n h = absurd (ground arith)
write-drag (write b m) a n h = refl

module _ {R : Type 0} where
  -- Nothing of what the invariant reads has changed.
  pub record Same (d e : CalendarPage R) : Type 0 where
    pub writes : e.writes ≡ d.writes
    pub pending : e.pending_id ≡ d.pending_id
    pub active : e.active ≡ d.active

  pub Same-IsSafe : (d e : CalendarPage R) → Same d e → IsSafe d → IsSafe e
  Same-IsSafe d e same (closed w a) = closed (same.writes ∙ w) (rw (same.active) a)
  Same-IsSafe d e same (writing w l p a t) =
      writing w (same.writes ∙ l) (same.pending ∙ p) (same.active ∙ a) t

  -- The token changes hands among gestures and dialogs, while no write is open.
  pub let-go : (d : CalendarPage R) → IsSafe d → d.writes ≡ [] → is_write d.active ≡ false
  let-go d (closed w a) h = a
  let-go d (writing w l p a t) h = absurd (ground (arith, l))

module _ {R : Type 0} (rules : Rules R) where
  finish-IsSafe :
      (w : Write) (d : CalendarPage R)
      → d.writes ≡ []
      → d.active ≡ some w.token
      → IsSafe (finish rules w d)
  unfolding finish
  finish-IsSafe w d l a = closed (ground arith) (ground (arith, same_token_refl w.token))

  pub release-IsSafe :
      (t : Option Token) (d : CalendarPage R) → IsSafe d → d.writes ≡ [] → IsSafe (release t d)
  release-IsSafe none d h l = h
  release-IsSafe (some t) d h l = closed (ground arith) (ground (arith, let-go d h l))

  pub save_change-IsSafe :
      (s : CalendarSchedule) (change : ScheduleTimeChange) (owner : Option Token) (now : ℕ)
      (d : CalendarPage R)
      → IsSafe d
      → IsSafe (save_change rules s change owner now d)
  unfolding save_change
  save_change-IsSafe s change owner now d (writing w l p a t) =
      let busy : may_save rules.can_edit_as s owner d ≡ false = ground arith in
      rw (busy, save_change) (writing w l p a t)
  save_change-IsSafe s change owner now d (closed l a) =
      elim (Bool-cases (may_save rules.can_edit_as s owner d)) [
        | inr busy ↦ rw (busy, save_change) (closed l a)
        | inl free ↦ elim (Bool-cases (is_same_time rules.date_parse s change)) [
          | inl same ↦ rw (free, same, save_change) (release-IsSafe owner d (closed l a) l)
          | inr other ↦
              rw (free, other, save_change)
                (writing (new_write s change now (capture_session d.session))
                  (ap (λ x. x ++ new_write s change now (capture_session d.session) ∷ []) l) refl
                  refl refl)
        ]
      ]

  on_rejected-Same :
      (w : Write) (e : Failure) (d : CalendarPage R) → Same d (on_rejected rules w e d)
  unfolding on_rejected
  on_rejected-Same w e d = ground arith

  on_locked-Same :
      (w : Write) (e : Option Failure) (d : CalendarPage R) → Same d (on_locked rules w e d)
  unfolding on_locked
  on_locked-Same w e d = ground arith

  on_refreshed-Same :
      (w : Write) (after : After) (d : CalendarPage R) → Same d (on_refreshed rules w after d)
  unfolding on_refreshed
  on_refreshed-Same w after_saved d = ground arith
  on_refreshed-Same w (after_recovered is_written may_edit cause) d = ground arith

  -- The write that goes on is the only one, and its token is held.
  record Alone (w : Write) (d : CalendarPage R) : Type 0 where
    none_left : d.writes ≡ []
    pending : d.pending_id ≡ some w.schedule.id
    token : d.active ≡ some w.token
    is_one : is_write (some w.token) ≡ true

  finish-Alone :
      (w : Write) (d e : CalendarPage R) → Alone w d → Same d e → IsSafe (finish rules w e)
  finish-Alone w d e h same = finish-IsSafe w e (same.writes ∙ h.none_left) (same.active ∙ h.token)

  refreshing-Alone :
      (w : Write) (latest : CalendarSchedule) (after : After) (d : CalendarPage R)
      → Alone w d
      → IsSafe (refreshing rules w latest after d)
  unfolding refreshing
  refreshing-Alone w latest after d h =
      writing (record w { after = some after })
        (ap (λ x. x ++ record w { after = some after } ∷ []) (h.none_left)) (h.pending) (h.token)
        (h.is_one)

  on_result-Alone :
      (w : Write) (r : ScheduleTimeMutationResult) (d : CalendarPage R)
      → Alone w d
      → IsSafe (on_result rules w r d)
  unfolding on_result
  on_result-Alone w (saved latest) d h = refreshing-Alone w latest after_saved d h
  on_result-Alone w (rejected e) d h = finish-Alone w d _ h (on_rejected-Same w e d)
  on_result-Alone w (locked e target) d h = finish-Alone w d _ h (on_locked-Same w target d)
  on_result-Alone w (recovered latest is_written may_edit cause) d h =
      refreshing-Alone w latest (after_recovered is_written may_edit cause) d h

  pub reads-Same :
      (s : CalendarSchedule) (latest : Outcome CalendarSchedule) (role : Outcome (Option R))
      (during : List StoreEvent) (d : CalendarPage R)
      → Same d (reads rules s latest role during d)
  unfolding reads
  reads-Same s latest role during d = record { writes = refl; pending = refl; active = refl }

  Alone-Same : (w : Write) (d e : CalendarPage R) → Same d e → Alone w d → Alone w e
  Alone-Same w d e same h = record {
    none_left = same.writes ∙ h.none_left;
    pending = same.pending ∙ h.pending;
    token = same.active ∙ h.token;
    is_one = h.is_one;
  }

  settled-Alone :
      (w : Write) (r : ScheduleTimeMutationResult) (e : CalendarPage R)
      → Alone w e
      → IsSafe (
          if is_session_context_active (some w.context) e.session
          then on_result rules w r e
          else finish rules w e)
  settled-Alone w r e h = elim (Bool-cases (is_session_context_active (some w.context) e.session)) [
    | inl live ↦ rw live (on_result-Alone w r e h)
    | inr over ↦ rw over (finish-IsSafe w e (h.none_left) (h.token))
  ]

  answered-Alone :
      (w : Write) (written latest : Outcome CalendarSchedule) (role : Outcome (Option R))
      (target : Outcome RangeRead) (during : List StoreEvent) (d : CalendarPage R)
      → Alone w d
      → IsSafe (answered rules w written latest role target during d)
  unfolding answered
  answered-Alone w written latest role target during d h =
      let result =
        execute_schedule_time_mutation rules.date_parse rules.can_edit_as w.change written latest
          (role_outcome role) target in
      elim (Bool-cases (asks_server written)) [
        | inl asks ↦
            rw (asks, answered)
              (settled-Alone w result _
                (Alone-Same w d _ (reads-Same w.schedule latest role during d) h))
        | inr no_need ↦ rw (no_need, answered) (settled-Alone w result d h)
      ]

  pub end_write-IsSafe :
      (n : ℕ) (written latest : Outcome CalendarSchedule) (role : Outcome (Option R))
      (target : Outcome RangeRead) (during : List StoreEvent) (d : CalendarPage R)
      → IsSafe d
      → IsSafe (end_write rules n written latest role target during d)
  unfolding end_write
  end_write-IsSafe n written latest role target during d (closed l a) =
      let nothing : get_elem? d.writes n ≡ none = rw l refl in rw (nothing, end_write) (closed l a)
  end_write-IsSafe (suc n) written latest role target during d (writing w l p a t) =
      let nothing : get_elem? d.writes (suc n) ≡ none = rw l refl in
      rw (nothing, end_write) (writing w l p a t)
  end_write-IsSafe zero written latest role target during d (writing w l p a t) =
      let there : get_elem? d.writes 0 ≡ some w = rw l refl in
      let e : CalendarPage R = record d { writes = remove_at 0 d.writes } in
      let alone : Alone w e = record {
        none_left = rw (l, remove_at) refl;
        pending = p;
        token = a;
        is_one = t;
      } in
      elim (Option-cases w.after) [
        | inl first ↦
            rw (there, first, end_write)
              (answered-Alone w written latest role target during e alone)
        | inr (after, again) ↦
            rw (there, again, end_write) (finish-Alone w e _ alone (on_refreshed-Same w after e))
      ]

-- ===== src/Schedules/Writes/Tokens.antt =====
-- What the user and the page do beside the writes, and runs of all events.
use ai_erp.Base.{
  ℕ, ◌≤◌, ◌≡◌, refl, Bool, true, false, not, ◌||◌, Option, none, some, List, [], ◌∷◌, arith, length,
  get_elem?, inl, inr, Bool-cases, Option-cases,
}
use ai_erp.Base.Lists.{remove_at}
use ai_erp.State.Denials.{Outcome, value, failed}
use ai_erp.State.Events.{StoreEvent}
use ai_erp.ScheduleTime.{CalendarSchedule, ScheduleTimeChange}
use ai_erp.Schedules.Writes.{
  Rules, drag, is_token, is_gesture, is_dialog, RangeRead, range_read, Recovering, CalendarPage,
  role_outcome, editable, is_locked,
}
use ai_erp.Schedules.Writes.Saving.{reads}
use ai_erp.Schedules.Writes.Restoring.{
  retry_recovery, on_recovered, target_or_recovered, end_recovery,
}
use ai_erp.Schedules.Writes.Page.{
  open_edit, submit_dialog, close_dialog, change_context, begin_drag, end_drag, drop, PageEvent,
  saves, ends_write, retries, changes_context, ends_recovery, opens, submits, closes, begins_drag,
  ends_drag, drops, reads_rows, reads_role, blocks, in_session, in_store, step, run_page,
}
use ai_erp.Schedules.Writes.Single.{
  is_write, IsSafe, closed, writing, Same, Same-IsSafe, release-IsSafe, save_change-IsSafe,
  end_write-IsSafe, reads-Same, write-gesture, write-dialog, write-drag,
}

module _ {R : Type 0} (rules : Rules R) where
  retry_recovery-Same : (d : CalendarPage R) → Same d (retry_recovery rules d)
  unfolding retry_recovery
  retry_recovery-Same d = ground arith

  on_recovered-Same :
      (r : Recovering) (latest : Outcome CalendarSchedule) (role : Outcome R)
      (target : Outcome RangeRead) (d : CalendarPage R)
      → Same d (on_recovered rules r latest role target d)
  unfolding on_recovered
  on_recovered-Same r (failed e) role target d = ground arith
  on_recovered-Same r (value latest) (failed e) target d = ground arith
  on_recovered-Same r (value latest) (value role) (failed e) d = ground arith
  on_recovered-Same r (value latest) (value role) (value range_read) d = ground arith

  target_or_recovered-Same :
      (r : Recovering) (latest : Outcome CalendarSchedule) (role : Outcome R)
      (target : Outcome RangeRead) (d : CalendarPage R)
      → Same d (target_or_recovered rules r latest role target d)
  unfolding target_or_recovered
  target_or_recovered-Same r latest role target d =
      ground (arith, on_recovered-Same r latest role target d)

  end_recovery-Same :
      (n : ℕ) (latest : Outcome CalendarSchedule) (role : Outcome (Option R))
      (target : Outcome RangeRead) (during : List StoreEvent) (d : CalendarPage R)
      → Same d (end_recovery rules n latest role target during d)
  unfolding end_recovery
  end_recovery-Same n latest role target during d = elim (Option-cases (get_elem? d.recoveries n)) [
    | inl none_there ↦
        rw (none_there, end_recovery) record { writes = refl; pending = refl; active = refl }
    | inr (r, there) ↦
        let e =
          reads rules r.schedule latest role during
            (record d { recoveries = remove_at n d.recoveries }) in
        let read =
          reads-Same rules r.schedule latest role during
            (record d { recoveries = remove_at n d.recoveries }) in
        let taken = target_or_recovered-Same r latest (role_outcome role) target e in
        rw (there, end_recovery)
          (ground (
            arith, read.writes, read.pending, read.active, taken.writes, taken.pending,
            taken.active,
          ))
  ]

  open_edit-IsSafe :
      (s : CalendarSchedule) (d : CalendarPage R) → IsSafe d → IsSafe (open_edit rules s d)
  unfolding open_edit
  open_edit-IsSafe s d (writing w l p a t) =
      let busy : is_locked s.id d ≡ true = ground arith in
      let shut : (not (editable rules.can_edit_as d.role s) || is_locked s.id d) ≡ true =
        ground arith in
      rw (shut, open_edit) (writing w l p a t)
  open_edit-IsSafe s d (closed l a) = closed (ground arith) (ground arith)

  submit_dialog-IsSafe :
      (is_valid : ScheduleTimeChange → Bool) (change : Option ScheduleTimeChange) (now : ℕ)
      (d : CalendarPage R)
      → IsSafe d
      → IsSafe (submit_dialog rules is_valid change now d)
  unfolding submit_dialog
  submit_dialog-IsSafe is_valid none now d h = h
  submit_dialog-IsSafe is_valid (some change) now d h = elim (Option-cases d.dialog_schedule) [
    | inl e ↦ rw (e, submit_dialog) h
    | inr (s, e) ↦ elim (Bool-cases (is_valid change)) [
      | inr no_change ↦ rw (e, no_change, submit_dialog) h
      | inl valid ↦
          rw (e, valid, submit_dialog)
            (save_change-IsSafe rules s change d.active now (record d { dialog_schedule = none })
              (Same-IsSafe d _ (record { writes = refl; pending = refl; active = refl }) h))
    ]
  ]

  close_dialog-IsSafe :
      (confirmed : Bool) (d : CalendarPage R) → IsSafe d → IsSafe (close_dialog rules confirmed d)
  unfolding close_dialog
  close_dialog-IsSafe confirmed d (closed l a) = closed (ground arith) (ground arith)
  close_dialog-IsSafe confirmed d (writing w l p a t) =
      let kept : is_dialog d.active ≡ false = rw a (write-dialog w.token t) in
      writing w (ground arith) (ground arith) (ground arith) t

  change_context-IsSafe : (d : CalendarPage R) → IsSafe d → IsSafe (change_context rules d)
  unfolding change_context
  change_context-IsSafe d (closed l a) = closed (ground arith) (ground arith)
  change_context-IsSafe d (writing w l p a t) =
      let kept : is_gesture d.active ≡ false = rw a (write-gesture w.token t) in
      writing w (ground arith) (ground arith) (ground arith) t

  begin_drag-IsSafe :
      (s : CalendarSchedule) (pointer : ℕ) (d : CalendarPage R)
      → IsSafe d
      → IsSafe (begin_drag rules s pointer d)
  unfolding begin_drag
  begin_drag-IsSafe s pointer d (closed l a) = closed (ground arith) (ground arith)
  begin_drag-IsSafe s pointer d (writing w l p a t) =
      writing w (ground arith) (ground arith) (ground arith) t

  end_drag-IsSafe :
      (s : CalendarSchedule) (pointer : ℕ) (d : CalendarPage R)
      → IsSafe d
      → IsSafe (end_drag rules s pointer d)
  unfolding end_drag
  end_drag-IsSafe s pointer d (closed l a) =
      release-IsSafe rules (some (drag s.id pointer)) d (closed l a) l
  end_drag-IsSafe s pointer d (writing w l p a t) =
      let kept : is_token d.active (drag s.id pointer) ≡ false =
        rw a (write-drag w.token s.id pointer t) in
      writing w (ground arith) (ground arith) (ground arith) t

  drop-IsSafe :
      (s : CalendarSchedule) (change : ScheduleTimeChange) (pointer now : ℕ) (d : CalendarPage R)
      → IsSafe d
      → IsSafe (drop rules s change pointer now d)
  unfolding drop
  drop-IsSafe s change pointer now d h =
      end_drag-IsSafe s pointer _
        (save_change-IsSafe rules s change (some (drag s.id pointer)) now d h)

  step-IsSafe :
      (is_valid : ScheduleTimeChange → Bool) (e : PageEvent R) (d : CalendarPage R)
      → IsSafe d
      → IsSafe (step rules is_valid e d)
  unfolding step
  step-IsSafe is_valid (saves s change owner now) d h =
      save_change-IsSafe rules s change owner now d h
  step-IsSafe is_valid (ends_write n written latest role target during) d h =
      end_write-IsSafe rules n written latest role target during d h
  step-IsSafe is_valid retries d h = Same-IsSafe d _ (retry_recovery-Same d) h
  step-IsSafe is_valid changes_context d h = change_context-IsSafe d h
  step-IsSafe is_valid (ends_recovery n latest role target during) d h =
      Same-IsSafe d _ (end_recovery-Same n latest role target during d) h
  step-IsSafe is_valid (opens s) d h = open_edit-IsSafe s d h
  step-IsSafe is_valid (submits change now) d h = submit_dialog-IsSafe is_valid change now d h
  step-IsSafe is_valid (closes confirmed) d h = close_dialog-IsSafe confirmed d h
  step-IsSafe is_valid (begins_drag s pointer) d h = begin_drag-IsSafe s pointer d h
  step-IsSafe is_valid (ends_drag s pointer) d h = end_drag-IsSafe s pointer d h
  step-IsSafe is_valid (drops s change pointer now) d h = drop-IsSafe s change pointer now d h
  step-IsSafe is_valid (reads_rows rows) d h =
      Same-IsSafe d _ (record { writes = refl; pending = refl; active = refl }) h
  step-IsSafe is_valid (reads_role role) d h =
      Same-IsSafe d _ (record { writes = refl; pending = refl; active = refl }) h
  step-IsSafe is_valid (blocks b) d h =
      Same-IsSafe d _ (record { writes = refl; pending = refl; active = refl }) h
  step-IsSafe is_valid (in_session e) d h =
      Same-IsSafe d _ (record { writes = refl; pending = refl; active = refl }) h
  step-IsSafe is_valid (in_store e) d h =
      Same-IsSafe d _ (record { writes = refl; pending = refl; active = refl }) h

  run-IsSafe :
      (is_valid : ScheduleTimeChange → Bool) (es : List (PageEvent R)) (d : CalendarPage R)
      → IsSafe d
      → IsSafe (run_page rules is_valid es d)
  unfolding run_page
  run-IsSafe is_valid [] d h = h
  run-IsSafe is_valid (e ∷ es) d h = run-IsSafe is_valid es _ (step-IsSafe is_valid e d h)

  IsSafe-length : (d : CalendarPage R) → IsSafe d → length d.writes ≤ 1
  IsSafe-length d (closed l a) = rw l (omega arith)
  IsSafe-length d (writing w l p a t) = rw l (omega arith)

  -- Whatever the user, the server, the page and the session do: at most one write is open. While one
  -- is, its schedule is the pending one and its token is held, so that no gesture or dialog begins;
  -- while none is, no write holds the token.
  pub run_page-single :
      (is_valid : ScheduleTimeChange → Bool) (es : List (PageEvent R)) (d : CalendarPage R)
      → d.writes ≡ []
      → is_write d.active ≡ false
      → IsSafe (run_page rules is_valid es d) × (length (run_page rules is_valid es d).writes ≤ 1)
  run_page-single is_valid es d l a =
      let safe = run-IsSafe is_valid es d (closed l a) in (safe, IsSafe-length _ safe)

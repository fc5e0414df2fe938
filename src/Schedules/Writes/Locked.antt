-- ===== src/Schedules/Writes/Locked.antt =====
-- A schedule whose state is not known is not written until a recovery has an answer.
use ai_erp.Base.{
  ℕ, String, ◌≡◌, refl, Bool, true, false, ◌&&◌, Option, none, some, List, [], ◌∷◌, arith, inl, inr,
  Bool-cases, Option-cases,
}
use ai_erp.ScheduleTime.{ScheduleTimeChange}
use ai_erp.Schedules.Writes.{Rules, drag, CalendarPage, has_id}
use ai_erp.Schedules.Writes.Page.{
  open_edit, submit_dialog, close_dialog, change_context, begin_drag, end_drag, drop, PageEvent,
  saves, ends_write, retries, changes_context, ends_recovery, opens, submits, closes, begins_drag,
  ends_drag, drops, reads_rows, reads_role, blocks, in_session, in_store, step, run_page,
}
use ai_erp.Base.{all}
use ai_erp.Schedules.Writes.Held.{
  sent_of, is_other, IsHeld, release-IsHeld, save_change-IsHeld, end_write-IsHeld,
  retry_recovery-IsHeld,
}

-- No recovery ends.
abbrev pub no_answer : {R : Type 0} → PageEvent R → Bool
no_answer (ends_recovery n latest role target during) = false
no_answer _ = true

abbrev pub none_answered : {R : Type 0} → List (PageEvent R) → Bool
none_answered [] = true
none_answered (e ∷ es) = no_answer e && none_answered es

module _ {R : Type 0} (rules : Rules R) (id : String) (changes : List ScheduleTimeChange) where
  submit_dialog-IsHeld :
      (is_valid : ScheduleTimeChange → Bool) (change : Option ScheduleTimeChange) (now : ℕ)
      (d : CalendarPage R)
      → IsHeld rules id changes d
      → IsHeld rules id changes (submit_dialog rules is_valid change now d)
  unfolding submit_dialog
  submit_dialog-IsHeld is_valid none now d h = h
  submit_dialog-IsHeld is_valid (some change) now d h = elim (Option-cases d.dialog_schedule) [
    | inl e ↦ rw (e, submit_dialog) h
    | inr (s, e) ↦ elim (Bool-cases (is_valid change)) [
      | inr no_change ↦ rw (e, no_change, submit_dialog) h
      | inl valid ↦
          let shut : IsHeld rules id changes (record d { dialog_schedule = none }) = record {
            held = h.held;
            others = h.others;
            quiet = h.quiet;
          } in
          rw (e, valid, submit_dialog)
            (save_change-IsHeld rules id changes s change d.active now
              (record d { dialog_schedule = none }) shut)
    ]
  ]

  step-IsHeld :
      (is_valid : ScheduleTimeChange → Bool) (e : PageEvent R) (d : CalendarPage R)
      → no_answer e ≡ true
      → IsHeld rules id changes d
      → IsHeld rules id changes (step rules is_valid e d)
  unfolding step open_edit close_dialog change_context begin_drag end_drag drop
  step-IsHeld is_valid (saves s change owner now) d q h =
      save_change-IsHeld rules id changes s change owner now d h
  step-IsHeld is_valid (ends_write n written latest role target during) d q h =
      end_write-IsHeld rules id changes n written latest role target during d h
  step-IsHeld is_valid retries d q h = retry_recovery-IsHeld rules id changes d h
  step-IsHeld is_valid changes_context d q h = ground (arith, h.held, h.others, h.quiet)
  step-IsHeld is_valid (ends_recovery n latest role target during) d q h = absurd (ground arith)
  step-IsHeld is_valid (opens s) d q h = ground (arith, h.held, h.others, h.quiet)
  step-IsHeld is_valid (submits change now) d q h = submit_dialog-IsHeld is_valid change now d h
  step-IsHeld is_valid (closes confirmed) d q h = ground (arith, h.held, h.others, h.quiet)
  step-IsHeld is_valid (begins_drag s pointer) d q h = ground (arith, h.held, h.others, h.quiet)
  step-IsHeld is_valid (ends_drag s pointer) d q h =
      release-IsHeld rules id changes (some (drag s.id pointer)) d h
  step-IsHeld is_valid (drops s change pointer now) d q h =
      release-IsHeld rules id changes (some (drag s.id pointer)) _
        (save_change-IsHeld rules id changes s change (some (drag s.id pointer)) now d h)
  step-IsHeld is_valid (reads_rows rows) d q h = record {
    held = h.held;
    others = h.others;
    quiet = h.quiet;
  }
  step-IsHeld is_valid (reads_role role) d q h = record {
    held = h.held;
    others = h.others;
    quiet = h.quiet;
  }
  step-IsHeld is_valid (blocks b) d q h = record {
    held = h.held;
    others = h.others;
    quiet = h.quiet;
  }
  step-IsHeld is_valid (in_session e) d q h = record {
    held = h.held;
    others = h.others;
    quiet = h.quiet;
  }
  step-IsHeld is_valid (in_store e) d q h = record {
    held = h.held;
    others = h.others;
    quiet = h.quiet;
  }

  run-IsHeld :
      (is_valid : ScheduleTimeChange → Bool) (es : List (PageEvent R)) (d : CalendarPage R)
      → none_answered es ≡ true
      → IsHeld rules id changes d
      → IsHeld rules id changes (run_page rules is_valid es d)
  unfolding run_page
  run-IsHeld is_valid [] d q h = h
  run-IsHeld is_valid (e ∷ es) d q h =
      run-IsHeld is_valid es _ (ground arith) (step-IsHeld is_valid e d (ground arith) h)

-- While a schedule is locked and no write of it is open, it stays locked and no change of it is sent,
-- whatever else happens on the page, until a recovery ends.
pub run_page-held :
    {R : Type 0} (rules : Rules R) (is_valid : ScheduleTimeChange → Bool) (id : String)
    (es : List (PageEvent R)) (d : CalendarPage R)
    → none_answered es ≡ true
    → has_id id d.locked_ids ≡ true
    → all (is_other id) d.writes ≡ true
    → (let e = run_page rules is_valid es d in
        (has_id id e.locked_ids ≡ true) × (sent_of id e.sent ≡ sent_of id d.sent))
run_page-held rules is_valid id es d q h k =
    let held =
      run-IsHeld rules id (sent_of id d.sent) is_valid es d q
        record { held = h; others = k; quiet = refl } in
    (held.held, held.quiet)

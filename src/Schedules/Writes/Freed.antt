-- ===== src/Schedules/Writes/Freed.antt =====
-- How a schedule is set free whose state was not known.
use ai_erp.Base.{
  ℕ, String, eq_refl, ◌≡◌, refl, true, false, none, some, List, [], ◌∷◌, arith, if◌then◌else◌,
  get_elem?, ap, ◌∙◌,
}
use ai_erp.Base.Lists.{remove_at}
use ai_erp.Session.{is_session_context_active}
use ai_erp.State.Denials.{value}
use ai_erp.State.Events.{StoreEvent}
use ai_erp.ScheduleTime.{CalendarSchedule}
use ai_erp.Schedules.Writes.{
  Rules, range_read, Recovering, CalendarPage, has_id, delete_id, is_id, may_save,
}
use ai_erp.Schedules.Writes.Saving.{reads}
use ai_erp.Schedules.Writes.Restoring.{on_recovered, target_or_recovered, end_recovery}
use ai_erp.Base.Dict.{get, get-put_self}

has_id-delete_id_self : (id : String) (xs : List String) → has_id id (delete_id id xs) ≡ false
unfolding has_id delete_id
has_id-delete_id_self id [] = refl
has_id-delete_id_self id (x ∷ xs) = ground (arith, has_id-delete_id_self id xs)

module _ {R : Type 0} (rules : Rules R) where
  -- The schedule is free, and its latest row is shown.
  record IsFree (id : String) (latest : CalendarSchedule) (d e : CalendarPage R) : Type 0 where
    unlocked : has_id id e.locked_ids ≡ false
    shown : get id e.overrides ≡ some latest
    done : e.recovery_schedule ≡ none
    role_kept : e.role ≡ d.role
    active_kept : e.active ≡ d.active
    blocked_kept : e.blocked ≡ d.blocked
    pending_kept : e.pending_id ≡ d.pending_id
    recovering_kept : e.recovering_id ≡ d.recovering_id

  taken-IsFree :
      (r : Recovering) (latest : CalendarSchedule) (role : R) (d : CalendarPage R)
      → rules.can_edit_as role latest ≡ true
      → IsFree r.schedule.id latest d
          (target_or_recovered rules r (value latest) (value role) (value range_read) d)
  unfolding target_or_recovered on_recovered
  taken-IsFree r latest role d may = ground (
    arith,
    may,
    has_id-delete_id_self r.schedule.id d.locked_ids,
    get-put_self r.schedule.id latest d.overrides,
  )

  end_recovery-taken :
      (n : ℕ) (r : Recovering) (latest : CalendarSchedule) (role : R) (during : List StoreEvent)
      (d : CalendarPage R)
      → get_elem? d.recoveries n ≡ some r
      → is_session_context_active (some r.context) d.session ≡ true
      → (let e = target_or_recovered rules r (value latest) (value role) (value range_read) (
            reads rules r.schedule
              (value latest)
              (value (some role))
              during
              (record d { recoveries = remove_at n d.recoveries })) in
          end_recovery rules n (value latest) (value (some role)) (value range_read) during d
          ≡ (if is_id e.recovering_id r.schedule.id then record e { recovering_id = none } else e))
  unfolding end_recovery reads
  end_recovery-taken n r latest role during d there live = rw (there, live, end_recovery) refl

  may_save-free :
      (s : CalendarSchedule) (role : R) (d : CalendarPage R)
      → has_id s.id d.locked_ids ≡ false
      → d.blocked ≡ false
      → d.pending_id ≡ none
      → d.active ≡ none
      → d.role ≡ some role
      → rules.can_edit_as role s ≡ true
      → may_save rules.can_edit_as s none d ≡ true
  may_save-free s role d unlocked open_page idle quiet known may =
      ground (arith, unlocked, open_page, idle, quiet, known, may)

  -- While nothing else is going on, a recovery that waits and is answered in full while its session
  -- lasts, with a role that may edit the schedule, sets it free: it is locked no more, its latest row is shown and no recovery is
  -- offered; and as nothing else is going on, a change of the schedule passes the guard again.
  end_recovery-frees :
      (n : ℕ) (r : Recovering) (latest : CalendarSchedule) (role : R) (during : List StoreEvent)
      (d : CalendarPage R)
      → get_elem? d.recoveries n ≡ some r
      → is_session_context_active (some r.context) d.session ≡ true
      → d.recovering_id ≡ some r.schedule.id
      → rules.can_edit_as role latest ≡ true
      → latest.id ≡ r.schedule.id
      → d.blocked ≡ false
      → d.pending_id ≡ none
      → d.active ≡ none
      → (let e =
            end_recovery rules n (value latest) (value (some role)) (value range_read) during d in
          (has_id r.schedule.id e.locked_ids ≡ false)
          × (get r.schedule.id e.overrides ≡ some latest)
          × (e.recovery_schedule ≡ none)
          × (e.recovering_id ≡ none)
          × (may_save rules.can_edit_as latest none e ≡ true))
  unfolding reads
  end_recovery-frees n r latest role during d there live own may same open_page idle quiet =
      let e =
        reads rules r.schedule (value latest) (value (some role)) during
          (record d { recoveries = remove_at n d.recoveries }) in
      let f = target_or_recovered rules r (value latest) (value role) (value range_read) e in
      let free = taken-IsFree r latest role e may in
      let known = free.recovering_kept ∙ own in
      let mine : is_id (some r.schedule.id) r.schedule.id ≡ true = eq_refl r.schedule.id in
      rw (end_recovery-taken n r latest role during d there live, known, mine)
        (
          free.unlocked,
          free.shown,
          free.done,
          refl,
          may_save-free latest role (record f { recovering_id = none })
              (ap (λ i. has_id i f.locked_ids) same ∙ free.unlocked) (free.blocked_kept ∙ open_page)
              (free.pending_kept ∙ idle) (free.active_kept ∙ quiet) free.role_kept may,
        )

-- ===== src/Schedules/Writes/Outcomes.antt =====
-- How a write ends whose answer was lost.
use ai_erp.Base.{
  ℕ, String, eq_refl, ◌≡◌, refl, Bool, true, false, ◌&&◌, Option, none, some, List, [], ◌∷◌, arith,
  get_elem?, ap, ◌∙◌,
}
use ai_erp.Base.Lists.{remove_at}
use ai_erp.Session.{is_session_context_active}
use ai_erp.State.Denials.{Failure, other_error, Outcome, value, failed}
use ai_erp.State.Events.{StoreEvent}
use ai_erp.ScheduleTime.{
  CalendarSchedule, ScheduleTimeChange, locked, execute_schedule_time_mutation, is_definitive,
}
use ai_erp.Schedules.Writes.{
  Rules, Token, RangeRead, range_read, Write, CalendarPage, has_id, add_id, role_outcome, is_denied,
  is_refused, may_save,
}
use ai_erp.Schedules.Writes.Saving.{
  save_change, finish, reads, on_locked, on_result, answered, end_write,
}
use ai_erp.Schedules.Writes.Single.{same_token_refl}

has_id-add_id_self : (id : String) (xs : List String) → has_id id (add_id id xs) ≡ true
unfolding has_id
has_id-add_id_self id xs = ground (arith, eq_refl id)

-- The three reads after a lost answer.
abbrev pub all_read :
    {R : Type 0} → Outcome CalendarSchedule → Outcome (Option R) → Outcome RangeRead → Bool
all_read (value latest) (value (some role)) (value range_read) = true
all_read _ _ _ = false

-- What became of the write is not known: its schedule is locked, and a recovery of it is offered.
pub record IsUncertain {R : Type 0} (w : Write) (d : CalendarPage R) : Type 0 where
  pub held : has_id w.schedule.id d.locked_ids ≡ true
  pub offered : d.recovery_schedule ≡ some w.schedule
  pub intended : d.recovery_intent ≡ some w.change
  pub settled : d.pending_id ≡ none
  pub released : d.active ≡ none
  pub alone : d.writes ≡ []

module _ {R : Type 0} (rules : Rules R) where
  finish-IsUncertain :
      (w : Write) (t : Option Failure) (d : CalendarPage R)
      → (rules.in_workspace && is_denied t) ≡ false
      → is_session_context_active (some w.context) d.session ≡ true
      → d.active ≡ some w.token
      → d.writes ≡ []
      → IsUncertain w (finish rules w (on_locked rules w t d))
  unfolding finish on_locked
  finish-IsUncertain w t d open_range live token alone = ground (
    arith,
    live,
    token,
    alone,
    open_range,
    same_token_refl w.token,
    has_id-add_id_self w.schedule.id d.locked_ids,
  )

  result-locked :
      (change : ScheduleTimeChange) (e : Failure) (latest : Outcome CalendarSchedule)
      (role : Outcome (Option R)) (target : Outcome RangeRead)
      → is_definitive e ≡ false
      → all_read latest role target ≡ false
      → (f : Failure) × (t : Option Failure) × (execute_schedule_time_mutation rules.date_parse
            rules.can_edit_as change
            (failed e)
            latest
            (role_outcome role)
            target
          ≡ locked f t)
        × (is_denied t ≡ is_refused target)
  unfolding execute_schedule_time_mutation
  result-locked change e (failed f) role (value t) h k = (f, none, rw h refl, refl)
  result-locked change e (failed f) role (failed t) h k = (f, some t, rw h refl, refl)
  result-locked change e (value l) (failed f) (value t) h k = (f, none, rw h refl, refl)
  result-locked change e (value l) (failed f) (failed t) h k = (f, some t, rw h refl, refl)
  result-locked change e (value l) (value none) (value t) h k = (other_error, none, rw h refl, refl)
  result-locked change e (value l) (value none) (failed t) h k =
      (other_error, some t, rw h refl, refl)
  result-locked change e (value l) (value (some r)) (failed t) h k = (t, some t, rw h refl, refl)
  result-locked change e (value l) (value (some r)) (value range_read) h k = absurd (ground arith)

  save_change-held :
      (s : CalendarSchedule) (change : ScheduleTimeChange) (owner : Option Token) (now : ℕ)
      (d : CalendarPage R)
      → has_id s.id d.locked_ids ≡ true
      → save_change rules s change owner now d ≡ d
  unfolding save_change
  save_change-held s change owner now d h =
      let shut : may_save rules.can_edit_as s owner d ≡ false = ground arith in
      rw (shut, save_change) refl

  answered-locked :
      (w : Write) (e f : Failure) (latest : Outcome CalendarSchedule) (role : Outcome (Option R))
      (target : Outcome RangeRead) (during : List StoreEvent) (t : Option Failure)
      (d : CalendarPage R)
      → is_definitive e ≡ false
      → is_session_context_active (some w.context) d.session ≡ true
      → execute_schedule_time_mutation rules.date_parse rules.can_edit_as w.change
          (failed e)
          latest
          (role_outcome role)
          target
        ≡ locked f t
      → answered rules w (failed e) latest role target during d
        ≡ finish rules w (on_locked rules w t (reads rules w.schedule latest role during d))
  unfolding answered on_result reads
  answered-locked w e f latest role target during t d unknown live result =
      rw (unknown, live, result, answered) refl

  end_write-first :
      (w : Write) (written latest : Outcome CalendarSchedule) (role : Outcome (Option R))
      (target : Outcome RangeRead) (during : List StoreEvent) (d : CalendarPage R)
      → get_elem? d.writes 0 ≡ some w
      → w.after ≡ none
      → end_write rules 0 written latest role target during d
        ≡ answered rules w written latest role target during
            (record d { writes = remove_at 0 d.writes })
  unfolding end_write
  end_write-first w written latest role target during d there first =
      rw (there, first, end_write) refl

  -- The only open write, whose request is not yet answered, holds its token, the request fails without proof that nothing was written, and
  -- one of the three reads that follow fails as well, while its session lasts: no write is open then
  -- and nothing is pending or held, but the schedule is locked, so that no further change of it is sent,
  -- and a recovery with the intended times is offered; unless the page is one of a workspace and the
  -- read of its range was refused.
  pub end_write-lost :
      (w : Write) (e : Failure) (latest : Outcome CalendarSchedule) (role : Outcome (Option R))
      (target : Outcome RangeRead) (during : List StoreEvent) (d : CalendarPage R)
      → d.writes ≡ w ∷ []
      → w.after ≡ none
      → d.active ≡ some w.token
      → is_session_context_active (some w.context) d.session ≡ true
      → is_definitive e ≡ false
      → all_read latest role target ≡ false
      → (rules.in_workspace && is_refused target) ≡ false
      → (let f = end_write rules 0 (failed e) latest role target during d in
          IsUncertain w f
          × ((change : ScheduleTimeChange) (owner : Option Token) (now : ℕ)
              → save_change rules w.schedule change owner now f ≡ f))
  unfolding end_write reads
  end_write-lost w e latest role target during d one first token live unknown unread open_range =
      let there : get_elem? d.writes 0 ≡ some w = rw one refl in
      let left : CalendarPage R = record d { writes = remove_at 0 d.writes } in
      let read = reads rules w.schedule latest role during left in
      let (f, t, result, refused_target) =
        result-locked w.change e latest role target unknown unread in
      let alone : read.writes ≡ [] = rw (one, remove_at) refl in
      let shown : (rules.in_workspace && is_denied t) ≡ false =
        ap (λ b. rules.in_workspace && b) refused_target ∙ open_range in
      let uncertain = finish-IsUncertain w t read shown live token alone in
      let ends =
        end_write-first w (failed e) latest role target during d there first
        ∙ answered-locked w e f latest role target during t left unknown live result in
      rw ends (
        uncertain,
        λ change owner now. save_change-held w.schedule change owner now _ (uncertain.held),
      )

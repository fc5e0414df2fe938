-- ===== src/Schedules/Writes/Held.antt =====
-- What a change of another schedule, and each answer to it, leave of a schedule that is locked.
use ai_erp.Base.{
  ℕ, zero, suc, String, str_eq, eq_iff, ◌≡◌, refl, Bool, true, false, not, Option, some, List, [],
  ◌∷◌, ◌++◌, arith, if◌then◌else◌, get_elem?, is_some, inl, inr, Bool-cases, Option-cases, ◌∙◌,
}
use ai_erp.Base.Lists.{remove_at}
use ai_erp.Session.{is_session_context_active}
use ai_erp.State.Denials.{Failure, Outcome}
use ai_erp.State.Events.{StoreEvent}
use ai_erp.ScheduleTime.{
  CalendarSchedule, ScheduleTimeChange, ScheduleTimeMutationResult, saved, rejected, recovered,
  locked, execute_schedule_time_mutation,
}
use ai_erp.Schedules.Writes.{
  Rules, Token, RangeRead, After, after_saved, after_recovered, Write, CalendarPage, has_id, add_id,
  delete_id, role_outcome, asks_server, may_save, release, is_same_time,
}
use ai_erp.Schedules.Writes.Saving.{
  save_change, finish, reads, on_rejected, on_locked, refreshing, on_result, answered, on_refreshed,
  end_write,
}
use ai_erp.Schedules.Writes.Restoring.{retry_recovery}
use ai_erp.Base.{all}

-- The changes of a schedule that were sent.
abbrev pub sent_of : String → List (String × ScheduleTimeChange) → List ScheduleTimeChange
sent_of id [] = []
sent_of id ((x, change) ∷ sent) = if str_eq x id then change ∷ sent_of id sent else sent_of id sent

-- No open write is one of the schedule.
abbrev pub is_other : String → Write → Bool
is_other id w = not (str_eq w.schedule.id id)

sent_of-append :
    (id x : String) (change : ScheduleTimeChange) (sent : List (String × ScheduleTimeChange))
    → str_eq x id ≡ false
    → sent_of id (sent ++ (x, change) ∷ []) ≡ sent_of id sent
sent_of-append id x change [] h = ground arith
sent_of-append id x change ((y, c) ∷ sent) h = ground (arith, sent_of-append id x change sent h)

has_id-delete_id :
    (id x : String) (xs : List String)
    → str_eq x id ≡ false
    → has_id id (delete_id x xs) ≡ has_id id xs
unfolding has_id delete_id
has_id-delete_id id x [] h = refl
has_id-delete_id id x (y ∷ xs) h =
    ground (arith, has_id-delete_id id x xs h, eq_iff y x, eq_iff y id, eq_iff x id)

has_id-add_id :
    (id x : String) (xs : List String) → has_id id xs ≡ true → has_id id (add_id x xs) ≡ true
unfolding has_id
has_id-add_id id x xs h = ground arith

has_id-other :
    (id x : String) (xs : List String)
    → has_id id xs ≡ true
    → has_id x xs ≡ false
    → str_eq x id ≡ false
unfolding has_id
has_id-other id x xs h k = elim (Bool-cases (str_eq x id)) [
  | inr other ↦ other
  | inl same ↦ absurd (ground (arith, eq_iff x id))
]

all-remove_at :
    (p : Write → Bool) (n : ℕ) (ws : List Write) → all p ws ≡ true → all p (remove_at n ws) ≡ true
unfolding remove_at
all-remove_at p n [] h = refl
all-remove_at p zero (w ∷ ws) h = ground arith
all-remove_at p (suc n) (w ∷ ws) h = ground (arith, all-remove_at p n ws)

all-get_elem? :
    (p : Write → Bool) (n : ℕ) (ws : List Write) (w : Write)
    → all p ws ≡ true
    → get_elem? ws n ≡ some w
    → p w ≡ true
all-get_elem? p n [] w h k = absurd (ground arith)
all-get_elem? p zero (v ∷ ws) w h k = ground arith
all-get_elem? p (suc n) (v ∷ ws) w h k = all-get_elem? p n ws w (ground arith) k

all-snoc :
    (p : Write → Bool) (ws : List Write) (w : Write)
    → all p ws ≡ true
    → p w ≡ true
    → all p (ws ++ w ∷ []) ≡ true
all-snoc p [] w h k = ground arith
all-snoc p (v ∷ ws) w h k = ground (arith, all-snoc p ws w)

module _ {R : Type 0} (rules : Rules R) (id : String) (changes : List ScheduleTimeChange) where
  pub record IsHeld (d : CalendarPage R) : Type 0 where
    pub held : has_id id d.locked_ids ≡ true
    pub others : all (is_other id) d.writes ≡ true
    pub quiet : sent_of id d.sent ≡ changes

  pub release-IsHeld : (t : Option Token) (d : CalendarPage R) → IsHeld d → IsHeld (release t d)
  release-IsHeld t d h = ground (arith, h.held, h.others, h.quiet)

  pub save_change-IsHeld :
      (s : CalendarSchedule) (change : ScheduleTimeChange) (owner : Option Token) (now : ℕ)
      (d : CalendarPage R)
      → IsHeld d
      → IsHeld (save_change rules s change owner now d)
  unfolding save_change
  save_change-IsHeld s change owner now d h =
      elim (Bool-cases (may_save rules.can_edit_as s owner d)) [
        | inr busy ↦ rw (busy, save_change) h
        | inl free ↦ elim (Bool-cases (is_same_time rules.date_parse s change)) [
          | inl same ↦ rw (free, same, save_change) (release-IsHeld owner d h)
          | inr new ↦
              let other : str_eq s.id id ≡ false =
                has_id-other id s.id d.locked_ids (h.held) (ground arith) in
              rw (free, new, save_change)
                record {
                  held = h.held;
                  others = all-snoc (is_other id) d.writes _ (h.others) (ground arith);
                  quiet = sent_of-append id s.id change d.sent other ∙ h.quiet;
                }
        ]
      ]

  finish-IsHeld : (w : Write) (d : CalendarPage R) → IsHeld d → IsHeld (finish rules w d)
  unfolding finish
  finish-IsHeld w d h = ground (arith, h.held, h.others, h.quiet)

  on_rejected-IsHeld :
      (w : Write) (e : Failure) (d : CalendarPage R) → IsHeld d → IsHeld (on_rejected rules w e d)
  unfolding on_rejected
  on_rejected-IsHeld w e d h =
      ground (arith, h.held, h.others, h.quiet, has_id-add_id id w.schedule.id d.locked_ids)

  on_locked-IsHeld :
      (w : Write) (e : Option Failure) (d : CalendarPage R)
      → IsHeld d
      → IsHeld (on_locked rules w e d)
  unfolding on_locked
  on_locked-IsHeld w e d h =
      ground (arith, h.held, h.others, h.quiet, has_id-add_id id w.schedule.id d.locked_ids)

  on_refreshed-IsHeld :
      (w : Write) (after : After) (d : CalendarPage R)
      → is_other id w ≡ true
      → IsHeld d
      → IsHeld (on_refreshed rules w after d)
  unfolding on_refreshed
  on_refreshed-IsHeld w after_saved d o h = ground (arith, h.held, h.others, h.quiet)
  on_refreshed-IsHeld w (after_recovered is_written may_edit cause) d o h = ground (
    arith,
    h.held,
    h.others,
    h.quiet,
    has_id-add_id id w.schedule.id d.locked_ids,
    has_id-delete_id id w.schedule.id d.locked_ids,
  )

  refreshing-IsHeld :
      (w : Write) (latest : CalendarSchedule) (after : After) (d : CalendarPage R)
      → is_other id w ≡ true
      → IsHeld d
      → IsHeld (refreshing rules w latest after d)
  unfolding refreshing
  refreshing-IsHeld w latest after d o h = record {
    held = h.held;
    others = all-snoc (is_other id) d.writes (record w { after = some after }) (h.others) o;
    quiet = h.quiet;
  }

  on_result-IsHeld :
      (w : Write) (r : ScheduleTimeMutationResult) (d : CalendarPage R)
      → is_other id w ≡ true
      → IsHeld d
      → IsHeld (on_result rules w r d)
  unfolding on_result
  on_result-IsHeld w (saved latest) d o h = refreshing-IsHeld w latest after_saved d o h
  on_result-IsHeld w (rejected e) d o h = finish-IsHeld w _ (on_rejected-IsHeld w e d h)
  on_result-IsHeld w (locked e target) d o h = finish-IsHeld w _ (on_locked-IsHeld w target d h)
  on_result-IsHeld w (recovered latest is_written may_edit cause) d o h =
      refreshing-IsHeld w latest (after_recovered is_written may_edit cause) d o h

  settled-IsHeld :
      (w : Write) (r : ScheduleTimeMutationResult) (e : CalendarPage R)
      → is_other id w ≡ true
      → IsHeld e
      → IsHeld (
          if is_session_context_active (some w.context) e.session
          then on_result rules w r e
          else finish rules w e)
  settled-IsHeld w r e o h =
      elim (Bool-cases (is_session_context_active (some w.context) e.session)) [
        | inl live ↦ rw live (on_result-IsHeld w r e o h)
        | inr over ↦ rw over (finish-IsHeld w e h)
      ]

  reads-IsHeld :
      (s : CalendarSchedule) (latest : Outcome CalendarSchedule) (role : Outcome (Option R))
      (during : List StoreEvent) (d : CalendarPage R)
      → IsHeld d
      → IsHeld (reads rules s latest role during d)
  unfolding reads
  reads-IsHeld s latest role during d h = record {
    held = h.held;
    others = h.others;
    quiet = h.quiet;
  }

  answered-IsHeld :
      (w : Write) (written latest : Outcome CalendarSchedule) (role : Outcome (Option R))
      (target : Outcome RangeRead) (during : List StoreEvent) (d : CalendarPage R)
      → is_other id w ≡ true
      → IsHeld d
      → IsHeld (answered rules w written latest role target during d)
  unfolding answered
  answered-IsHeld w written latest role target during d o h =
      let result =
        execute_schedule_time_mutation rules.date_parse rules.can_edit_as w.change written latest
          (role_outcome role) target in
      elim (Bool-cases (asks_server written)) [
        | inl asks ↦
            rw (asks, answered)
              (settled-IsHeld w result _ o (reads-IsHeld w.schedule latest role during d h))
        | inr no_need ↦ rw (no_need, answered) (settled-IsHeld w result d o h)
      ]

  pub end_write-IsHeld :
      (n : ℕ) (written latest : Outcome CalendarSchedule) (role : Outcome (Option R))
      (target : Outcome RangeRead) (during : List StoreEvent) (d : CalendarPage R)
      → IsHeld d
      → IsHeld (end_write rules n written latest role target during d)
  unfolding end_write
  end_write-IsHeld n written latest role target during d h =
      elim (Option-cases (get_elem? d.writes n)) [
        | inl nothing ↦ rw (nothing, end_write) h
        | inr (w, there) ↦
            let e : CalendarPage R = record d { writes = remove_at n d.writes } in
            let o = all-get_elem? (is_other id) n d.writes w (h.others) there in
            let k : IsHeld e = record {
              held = h.held;
              others = all-remove_at (is_other id) n d.writes (h.others);
              quiet = h.quiet;
            } in
            elim (Option-cases w.after) [
              | inl first ↦
                  rw (there, first, end_write)
                    (answered-IsHeld w written latest role target during e o k)
              | inr (after, again) ↦
                  rw (there, again, end_write)
                    (finish-IsHeld w _ (on_refreshed-IsHeld w after e o k))
            ]
      ]

  pub retry_recovery-IsHeld : (d : CalendarPage R) → IsHeld d → IsHeld (retry_recovery rules d)
  unfolding retry_recovery
  retry_recovery-IsHeld d h = elim (Option-cases d.recovery_schedule) [
    | inl e ↦ rw (e, retry_recovery) h
    | inr (s, e) ↦ elim (Bool-cases (is_some d.recovering_id)) [
      | inl busy ↦ rw (e, busy, retry_recovery) h
      | inr free ↦
          rw (e, free, retry_recovery)
            record {
              held = has_id-add_id id s.id d.locked_ids (h.held);
              others = h.others;
              quiet = h.quiet;
            }
    ]
  ]

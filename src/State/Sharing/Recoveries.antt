-- ===== src/State/Sharing/Recoveries.antt =====
-- Recoveries exclude each other, and one that was overtaken never becomes current again.
use ai_erp.Base.{
  ℕ, ◌+◌, ◌≤◌, ◌≡◌, String, Bool, true, false, not, ◌&&◌, ◌||◌, none, some, List, [], ◌∷◌, arith,
  eq_iff, eq_refl, str_eq, leb, ◌==◌, is_value, all,
}
use ai_erp.Base.Dict.{get, has, get-put, get-remove}
use ai_erp.State.{Store, subscribe, unsubscribe}
use ai_erp.State.Denials.{record_access_denial, clear_access_denial, complete_access_read}
use ai_erp.State.Attempts.{
  set_create_attempt, clear_create_attempt, record_creation_uncertainty, clear_creation_uncertainty,
}
use ai_erp.State.Sharing.{
  begin_share_read, set_share_attempt, clear_share_attempt, start_share_attempt,
  begin_share_recovery, clear_share_recovery, invalidate_share_recovery, is_current_share_recovery,
  share_attempt_revision,
}
use ai_erp.State.Events.{
  StoreEvent, resets, starts, begins_recovery, invalidates, sets_share, clears_recovery,
  apply_event, run,
}

-- No reset, and no attempt of the project written back at a revision below `r`.
unfoldable pub keeps_revision : String → ℕ → StoreEvent → Bool
keeps_revision p r resets = false
keeps_revision p r (sets_share q a) = not (str_eq q p) || leb r a.revision
keeps_revision p r _ = true

-- The revision `r` has been given out, and no recovery of that revision runs.
record IsOver (p : String) (r : ℕ) (s : Store) : Type 0 where
  given : r ≤ share_attempt_revision p s
  gone : is_value (get p s.share_recoveries) r ≡ false

apply_event-IsOver :
    (p : String) (r : ℕ) (e : StoreEvent) (s : Store)
    → keeps_revision p r e ≡ true
    → IsOver p r s
    → IsOver p r (apply_event e s)
unfolding apply_event keeps_revision record_access_denial clear_access_denial complete_access_read
    set_create_attempt clear_create_attempt record_creation_uncertainty clear_creation_uncertainty
    begin_share_read set_share_attempt clear_share_attempt start_share_attempt begin_share_recovery
    clear_share_recovery invalidate_share_recovery subscribe unsubscribe
apply_event-IsOver p r (starts q) s h o =
    ground
      (arith, o, eq_iff q p, get-put p q (share_attempt_revision q s + 1) s.share_attempt_revisions)
apply_event-IsOver p r (begins_recovery q) s h o = ground (
  arith,
  o,
  eq_iff q p,
  get-put p q (share_attempt_revision q s + 1) s.share_attempt_revisions,
  get-put p q (share_attempt_revision q s + 1) s.share_recoveries,
)
apply_event-IsOver p r (invalidates q) s h o = ground (arith, o, get-remove p q s.share_recoveries)
apply_event-IsOver p r (clears_recovery q v) s h o =
    ground (arith, o, get-remove p q s.share_recoveries)
apply_event-IsOver p r (sets_share q a) s h o =
    ground (arith, o, eq_iff q p, get-put p q a.revision s.share_attempt_revisions)
apply_event-IsOver p r resets s h o = cc
apply_event-IsOver p r _ s h o = ground (arith, o)

run-IsOver :
    (p : String) (r : ℕ) (es : List StoreEvent) (s : Store)
    → all (keeps_revision p r) es ≡ true
    → IsOver p r s
    → IsOver p r (run es s)
unfolding run
run-IsOver p r [] s h o = o
run-IsOver p r (e ∷ es) s h o =
    run-IsOver p r es (apply_event e s) (ground arith) (apply_event-IsOver p r e s (ground arith) o)

-- A recovery that starts finds none of its project running, is then the current one, and has the
-- revision next above the last one given out; until it ends a second start fails and changes
-- nothing.
pub begin_share_recovery_exclusive :
    (p : String) (s t : Store) (r : ℕ)
    → begin_share_recovery p s ≡ (t, some r)
    → (has p s.share_recoveries ≡ false)
      × (is_current_share_recovery p r t ≡ true)
      × (r ≡ share_attempt_revision p s + 1)
      × (share_attempt_revision p t ≡ r)
      × (begin_share_recovery p t ≡ (t, none))
unfolding begin_share_recovery is_current_share_recovery
begin_share_recovery_exclusive p s t r h = (
  ground arith,
  ground (arith, eq_refl p, get-put p p (share_attempt_revision p s + 1) s.share_recoveries),
  ground arith,
  ground (arith, eq_refl p, get-put p p (share_attempt_revision p s + 1) s.share_attempt_revisions),
  ground (arith, eq_refl p, get-put p p (share_attempt_revision p s + 1) s.share_recoveries),
)

-- A recovery that was invalidated while it ran is never taken for the current one later, as long as
-- the store is not reset and no attempt is written back at an older revision: a later recovery has
-- another revision.
pub invalidated_stays_over :
    (p : String) (r : ℕ) (s : Store) (es : List StoreEvent)
    → is_current_share_recovery p r s ≡ true
    → r ≤ share_attempt_revision p s
    → all (keeps_revision p r) es ≡ true
    → is_current_share_recovery p r (run es (invalidate_share_recovery p s)) ≡ false
unfolding is_current_share_recovery invalidate_share_recovery
invalidated_stays_over p r s es running given h =
    (run-IsOver p r es (invalidate_share_recovery p s) h (record {
      given = ground arith;
      gone = ground (arith, eq_refl p, get-remove p p s.share_recoveries);
    })).gone

-- Ending a recovery by its revision ends that recovery alone: a later one of the project and those
-- of other projects stay as they are.
pub is_current-clear_share_recovery :
    (p q : String) (r v : ℕ) (s : Store)
    → (is_current_share_recovery q v (clear_share_recovery p r s)
        ≡ (not (str_eq p q && v == r) && is_current_share_recovery q v s))
      × (has p (clear_share_recovery p r s).share_recoveries
          ≡ (not (is_current_share_recovery p r s) && has p s.share_recoveries))
unfolding clear_share_recovery is_current_share_recovery
is_current-clear_share_recovery p q r v s = (
  ground (arith, eq_iff p q, eq_refl p, get-remove q p s.share_recoveries),
  ground (arith, eq_refl p, get-remove p p s.share_recoveries),
)

-- ===== src/State/Events/Notifies.antt =====
-- The contract of `useSyncExternalStore`: no change of what the screens see goes unannounced.
use ai_erp.Base.{◌≡◌, ◌⊎◌, inl, ◌++◌, arith}
use ai_erp.State.{Store, subscribe, unsubscribe, reset_access_state}
use ai_erp.State.Denials.{record_access_denial, clear_access_denial, complete_access_read}
use ai_erp.State.Attempts.{
  set_create_attempt, clear_create_attempt, record_creation_uncertainty, clear_creation_uncertainty,
}
use ai_erp.State.Sharing.{
  begin_share_read, set_share_attempt, clear_share_attempt, start_share_attempt,
  begin_share_recovery, clear_share_recovery, invalidate_share_recovery,
}
use ai_erp.State.Events.{
  StoreEvent, completes, begins_read, starts, subscribes, unsubscribes, apply_event,
}

-- What the five hooks read is the same in both stores.
pub record SameView (s t : Store) : Type 0 where
  pub denials : t.denials ≡ s.denials
  pub uncertain_creations : t.uncertain_creations ≡ s.uncertain_creations
  pub create_attempts : t.create_attempts ≡ s.create_attempts
  pub share_attempts : t.share_attempts ≡ s.share_attempts
  pub share_recoveries : t.share_recoveries ≡ s.share_recoveries

-- Every listener has been called once more, in the order of subscription.
abbrev pub Announces : Store → Store → Type 0
Announces s t = t.notified ≡ s.notified ++ s.listeners

-- Each event either leaves alone all that the hooks read, or calls every listener.
pub apply_event-Announces :
    (e : StoreEvent) (s : Store) → SameView s (apply_event e s) ⊎ Announces s (apply_event e s)
unfolding apply_event record_access_denial clear_access_denial complete_access_read
    set_create_attempt clear_create_attempt record_creation_uncertainty clear_creation_uncertainty
    begin_share_read set_share_attempt clear_share_attempt start_share_attempt begin_share_recovery
    clear_share_recovery invalidate_share_recovery subscribe unsubscribe reset_access_state
apply_event-Announces (completes key r) s = inl (ground arith)
apply_event-Announces (subscribes l) s = inl (ground arith)
apply_event-Announces (unsubscribes l) s = inl (ground arith)
apply_event-Announces (begins_read p) s = inl (ground arith)
apply_event-Announces (starts p) s = inl (ground arith)
apply_event-Announces e s = ground arith

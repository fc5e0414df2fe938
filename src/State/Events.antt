-- ===== src/State/Events.antt =====
-- Every call of state.ts that changes the store, as one event, and runs of them.
pub mod Notifies
use ai_erp.Base.{ℕ, String, Option, none, some, List, [], ◌∷◌}
use ai_erp.State.{Store, CreateAttempt, ShareAttempt, subscribe, unsubscribe, reset_access_state}
use ai_erp.State.Denials.{record_access_denial, clear_access_denial, complete_access_read}
use ai_erp.State.Attempts.{
  set_create_attempt, clear_create_attempt, record_creation_uncertainty, clear_creation_uncertainty,
}
use ai_erp.State.Sharing.{
  begin_share_read, set_share_attempt, clear_share_attempt, start_share_attempt,
  begin_share_recovery, clear_share_recovery, invalidate_share_recovery,
}

pub data StoreEvent : Type 0 where
  denies clears_denial : String → StoreEvent
  completes : String → ℕ → StoreEvent
  resets : StoreEvent
  sets_create : String → CreateAttempt → StoreEvent
  clears_create records_uncertainty clears_uncertainty : String → StoreEvent
  begins_read starts begins_recovery invalidates clears_share : String → StoreEvent
  sets_share : String → ShareAttempt → StoreEvent
  clears_recovery : String → ℕ → StoreEvent
  subscribes unsubscribes : ℕ → StoreEvent

unfoldable pub apply_event : StoreEvent → Store → Store
apply_event (denies key) s = record_access_denial key s
apply_event (clears_denial key) s = clear_access_denial key s
apply_event (completes key revision) s = complete_access_read key revision s
apply_event resets s = reset_access_state s
apply_event (sets_create session a) s = set_create_attempt session a s
apply_event (clears_create session) s = clear_create_attempt session s
apply_event (records_uncertainty group) s = record_creation_uncertainty group s
apply_event (clears_uncertainty group) s = clear_creation_uncertainty group s
apply_event (begins_read project) s = (begin_share_read project s).0
apply_event (starts project) s = (start_share_attempt project s).0
apply_event (begins_recovery project) s = (begin_share_recovery project s).0
apply_event (invalidates project) s = invalidate_share_recovery project s
apply_event (clears_share project) s = clear_share_attempt project s
apply_event (sets_share project a) s = set_share_attempt project a s
apply_event (clears_recovery project revision) s = clear_share_recovery project revision s
apply_event (subscribes l) s = subscribe l s
apply_event (unsubscribes l) s = unsubscribe l s

unfoldable pub run : List StoreEvent → Store → Store
run [] s = s
run (e ∷ es) s = run es (apply_event e s)

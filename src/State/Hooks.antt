-- ===== src/State/Hooks.antt =====
-- state.ts: the hooks by which the screens read the store. Each hands `useSyncExternalStore` the
-- same subscription, a snapshot of the store, and the snapshot of a server.
use ai_erp.Base.{ℕ, String, Bool, false, Option, none, ◌≡◌, ◌⊎◌, inl, inr}
use ai_erp.Base.Dict.{get}
use ai_erp.State.{Store, CreateAttempt, ShareAttempt}
use ai_erp.State.Denials.{has_access_denial}
use ai_erp.State.Attempts.{get_create_attempt, has_creation_uncertainty}
use ai_erp.State.Sharing.{get_share_attempt}
use ai_erp.State.Events.{StoreEvent, apply_event}
use ai_erp.State.Events.Notifies.{Announces, apply_event-Announces}

pub record Hook (A : Type 0) : Type 0 where
  pub snapshot : Store → A
  pub server : A

pub use_access_denied : String → Hook Bool
use_access_denied key = record { snapshot = has_access_denial key; server = false }

pub use_create_attempt : String → Hook (Option CreateAttempt)
use_create_attempt session = record { snapshot = get_create_attempt session; server = none }

pub use_share_recovery : String → Hook (Option ℕ)
use_share_recovery project = record {
  snapshot = λ s. get project s.share_recoveries;
  server = none;
}

pub use_share_attempt : String → Hook (Option ShareAttempt)
use_share_attempt project = record { snapshot = get_share_attempt project; server = none }

pub use_creation_uncertainty : String → Hook Bool
use_creation_uncertainty group = record {
  snapshot = has_creation_uncertainty group;
  server = false;
}

-- The hook sees no change, or every listener is called.
abbrev pub Follows : {A : Type 0} → Hook A → Store → Store → Type 0
Follows h s t = (h.snapshot t ≡ h.snapshot s) ⊎ Announces s t

-- No call of the store changes what a mounted hook shows without calling every listener once, in
-- the order of subscription.
pub hooks-Follows :
    (e : StoreEvent) (s : Store) (key session project group : String)
    → Follows (use_access_denied key) s (apply_event e s)
      × Follows (use_create_attempt session) s (apply_event e s)
      × Follows (use_share_recovery project) s (apply_event e s)
      × Follows (use_share_attempt project) s (apply_event e s)
      × Follows (use_creation_uncertainty group) s (apply_event e s)
unfolding use_access_denied use_create_attempt use_share_recovery use_share_attempt
    use_creation_uncertainty has_access_denial get_create_attempt get_share_attempt
    has_creation_uncertainty
hooks-Follows e s key session project group = elim (apply_event-Announces e s) [
  | inr loud ↦ (inr loud, inr loud, inr loud, inr loud, inr loud)
  | inl same ↦ (
    inl (cc (same.denials)),
    inl (cc (same.create_attempts)),
    inl (cc (same.share_recoveries)),
    inl (cc (same.share_attempts)),
    inl (cc (same.uncertain_creations)),
  )
]

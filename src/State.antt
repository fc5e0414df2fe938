-- ===== src/State.antt =====
-- frontend/src/state.ts: the maps that outlive the screens, as one record, with the listeners of
-- `useSyncExternalStore` and the calls that they have had. A `Map` is an association list, a `Set`
-- of texts one with no values, and a listener is a number.
pub mod Denials
pub mod Attempts
pub mod Sharing
pub mod Events
pub mod Hooks
pub mod Lookup
pub mod Policy
pub mod Keys
mod Tests
use ai_erp.Base.{
  ℕ, String, Bool, true, false, Option, none, some, List, [], ◌∷◌, ◌++◌, ◌==◌, if◌then◌else◌, any,
}
use ai_erp.Base.Dict.{Dict}

pub record CreateAttempt : Type 0 where
  pub name : String
  pub request_id : String
  pub uncertain : Bool
  pub pending : Bool

pub record ShareAttempt : Type 0 where
  pub pending : Bool
  pub uncertain : Bool
  pub revision : ℕ
  pub completed : Bool
  pub completed_read_revision : Option ℕ

pub record Store : Type 0 where
  pub denials : Dict ℕ
  pub access_versions : Dict ℕ
  pub read_revisions : Dict ℕ
  pub uncertain_creations : Dict (Unit {0})
  pub create_attempts : Dict CreateAttempt
  pub share_attempts : Dict ShareAttempt
  pub share_attempt_revisions : Dict ℕ
  pub share_read_revisions : Dict ℕ
  pub share_recoveries : Dict ℕ
  pub listeners : List ℕ
  pub notified : List ℕ

-- `listeners.forEach((listener) => listener())`
abbrev pub notify : Store → Store
notify s = record s { notified = s.notified ++ s.listeners }

remove_listener : ℕ → List ℕ → List ℕ
remove_listener l [] = []
remove_listener l (k ∷ ks) = if k == l then remove_listener l ks else k ∷ remove_listener l ks

-- The first argument of each `useSyncExternalStore`, and the function that it returns.
unfoldable pub subscribe : ℕ → Store → Store
subscribe l s =
    if any (λ k. k == l) s.listeners then s else record s { listeners = s.listeners ++ l ∷ [] }

unfoldable pub unsubscribe : ℕ → Store → Store
unfolding remove_listener
unsubscribe l s = record s { listeners = remove_listener l s.listeners }

unfoldable pub reset_access_state : Store → Store
reset_access_state s = notify (record s {
  denials = [];
  access_versions = [];
  read_revisions = [];
  uncertain_creations = [];
  create_attempts = [];
  share_attempts = [];
  share_attempt_revisions = [];
  share_read_revisions = [];
  share_recoveries = [];
})

-- The maps of a page that has just been loaded.
abbrev pub empty_store : Store
empty_store = record {
  denials = [];
  access_versions = [];
  read_revisions = [];
  uncertain_creations = [];
  create_attempts = [];
  share_attempts = [];
  share_attempt_revisions = [];
  share_read_revisions = [];
  share_recoveries = [];
  listeners = [];
  notified = [];
}

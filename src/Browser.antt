-- ===== src/Browser.antt =====
-- What the frontend uses of the browser: whether there is a `window`, whether its session storage
-- can be used, the two entries that the frontend keeps there, and the events that it dispatches.
use ai_erp.Base.{ℕ, String, Bool, Option, suc, if◌then◌else◌}

-- A number of a parsed JSON text: whole milliseconds, or a value that is not finite.
pub data Number : Type 0 where
  finite : ℕ → Number
  infinite : Number

-- A member of a parsed JSON object.
pub data Field : Type 0 where
  missing : Field
  text : String → Field
  number : Number → Field
  other : Field

-- The entry `ai-erp.google-return` as `JSON.parse` finds it: the empty text, a text that is not
-- JSON, a value that is no object, or an object by its three members.
pub data Stored : Type 0 where
  empty malformed scalar : Stored
  object : Field → Field → Field → Stored

pub record Browser : Type 0 where
  pub has_window : Bool
  pub storage_works : Bool
  pub google_return : Option Stored
  pub invitation : Option String
  pub expired_events : ℕ

-- `window.dispatchEvent(new Event(SESSION_EXPIRED_EVENT))`, if there is a window.
unfoldable pub dispatch_expired : Browser → Browser
dispatch_expired b = if b.has_window then record b { expired_events = suc b.expired_events } else b

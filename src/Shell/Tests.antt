-- ===== src/Shell/Tests.antt =====
-- A page whose session ends by an answer.
use ai_erp.Base.{◌≡◌, refl, true, false, none, []}
use ai_erp.Session.{is_session_active}
use ai_erp.Api.{Response}
use ai_erp.Shell.{App}
use ai_erp.Shell.Expiry.{expired_by}

abbrev live_app : App
live_app = record {
  session = record {
    generation = 2;
    terminated = false;
    browser = record {
      has_window = true;
      storage_works = true;
      google_return = none;
      invitation = none;
      expired_events = 0;
    };
  };
  store = record {
    denials = [];
    access_versions = [];
    read_revisions = [];
    uncertain_creations = [];
    create_attempts = [];
    share_attempts = [];
    share_attempt_revisions = [];
    share_read_revisions = [];
    share_recoveries = [];
    listeners = [];
    notified = [];
  };
  expired = false;
}

abbrev unauthorized : Response Unit
unauthorized = record { status = 401; value = none; problem = none }

is_expired : (expired_by 2 live_app).expired ≡ true
unfolding is_session_active
is_expired = refl

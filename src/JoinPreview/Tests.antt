-- ===== src/JoinPreview/Tests.antt =====
-- An invitation whose place is taken while the user joins.
use ai_erp.Base.{◌≡◌, refl, true, false, none, some, List, [], ◌∷◌}
use ai_erp.Session.{is_session_context_active}
use ai_erp.State.Denials.{api_error, other_error, value, failed}
use ai_erp.JoinPreview.{
  JoinPreview, ProjectInvitation, success, reply, PreviewEvent, clicks, ends_conflict_read,
  follows_read, run_preview,
}
use ai_erp.JoinPreview.Conflict.{run_preview-held}

abbrev invitation : ProjectInvitation
invitation = record { is_active = true; expires_at = some 1000; already_member = false }

abbrev joining : JoinPreview
joining = record {
  session = record {
    generation = 1;
    terminated = false;
    browser = record {
      has_window = true;
      storage_works = true;
      google_return = none;
      invitation = none;
      expired_events = 0;
    };
  };
  now = 10;
  join_conflict = false;
  conflict_read_failed = false;
  status = success;
  found = some invitation;
  joins = 1 ∷ [];
  conflict_reads = [];
  sent = 1;
  opened = [];
}

abbrev retries : List PreviewEvent
retries = clicks 20 ∷ ends_conflict_read 0 (failed other_error) ∷ follows_read ∷ clicks 30 ∷ []

-- A read sets the button free.
retried :
    (run_preview
      (ends_conflict_read 0 (value invitation) ∷ clicks 30 ∷ [])
      (reply 0 (failed (api_error 409)) [] joining)).sent
    ≡ 2
unfolding run_preview reply is_session_context_active
retried = refl

run_preview-held_example :
    (run_preview retries (reply 0 (failed (api_error 409)) [] joining)).sent ≡ 1
unfolding is_session_context_active
run_preview-held_example = run_preview-held (api_error 409) [] 1 retries joining refl refl refl refl

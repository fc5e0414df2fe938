-- ===== src/ShareDialog/Tests.antt =====
-- A dialog whose change is lost, and its recovery.
use ai_erp.Base.{◌≡◌, ◌≤◌, refl, true, false, none, some, List, [], ◌∷◌, length}
use ai_erp.Base.Dict.{get}
use ai_erp.Session.{is_session_context_active}
use ai_erp.State.{empty_store}
use ai_erp.State.Denials.{api_error, value, failed}
use ai_erp.ShareDialog.{
  ShareDialog, Change, Invitation, creates, revokes, attempt_of, can_change, reply, recover,
  end_recovering, DialogEvent, clicks, recovers, ends_recovery, run_dialog,
}
use ai_erp.ShareDialog.Single.{IsSafe, run_dialog-single}
use ai_erp.ShareDialog.Failures.{uncertain_attempt, reply-failed}
use ai_erp.ShareDialog.Locked.{run_dialog-held}
use ai_erp.ShareDialog.Recovery.{recover-can_change}

abbrev invitation : Invitation
invitation = record { is_active = true; code = some "ABCD0123EFGH4567"; expires_at = some 1000 }

abbrev idle_dialog : ShareDialog
idle_dialog = record {
  session = record {
    generation = 1;
    terminated = false;
    browser = record {
      has_window = true;
      storage_works = true;
      google_return = none;
      invitation = none;
      expired_events = 0;
    };
  };
  store = empty_store;
  query = record { found = some invitation; success = true; fetches = [] };
  changes = [];
  recoveries = [];
  sent = [];
}

abbrev first_change : Change
first_change = record { kind = creates; context = 1; revision = 1 }

abbrev open_dialog : ShareDialog
open_dialog = record idle_dialog {
  store = record empty_store {
    share_attempts =
        (
          "p",
          record {
            pending = true;
            uncertain = false;
            revision = 1;
            completed = false;
            completed_read_revision = none;
          },
        )
        ∷ [];
    share_attempt_revisions = ("p", 1) ∷ [];
  };
  changes = first_change ∷ [];
  sent = creates ∷ [];
}

abbrev lost_dialog : ShareDialog
lost_dialog = record open_dialog {
  store = record empty_store {
    share_attempts = ("p", uncertain_attempt first_change) ∷ [];
    share_attempt_revisions = ("p", 1) ∷ [];
  };
  changes = [];
}

abbrev impatient : List DialogEvent
impatient =
    clicks creates
    ∷ clicks revokes
    ∷ recovers []
    ∷ ends_recovery 0 (failed (api_error 503))
    ∷ clicks creates
    ∷ []

run_dialog-single_example :
    (length (run_dialog "p" "share:p" impatient idle_dialog).changes ≤ 1)
    × IsSafe "p" "share:p" (run_dialog "p" "share:p" impatient idle_dialog)
run_dialog-single_example = run_dialog-single "p" "share:p" impatient idle_dialog refl

reply-failed_example :
    (attempt_of "p" "share:p" (
        run_dialog "p" "share:p" impatient
          (reply "p" "share:p" 0 (failed (api_error 400)) [] open_dialog))
      ≡ some (uncertain_attempt first_change))
    × (can_change "p" "share:p" (
          run_dialog "p" "share:p" impatient
            (reply "p" "share:p" 0 (failed (api_error 400)) [] open_dialog))
        ≡ false)
    × ((run_dialog "p" "share:p" impatient
          (reply "p" "share:p" 0 (failed (api_error 400)) [] open_dialog)).sent
        ≡ open_dialog.sent)
unfolding is_session_context_active get
reply-failed_example =
    reply-failed "p" "share:p" first_change (api_error 400) [] impatient open_dialog refl refl refl

run_dialog-held_example :
    ((run_dialog "p" "share:p" impatient lost_dialog).sent ≡ creates ∷ [])
    × (attempt_of "p" "share:p" (run_dialog "p" "share:p" impatient lost_dialog)
        ≡ some (uncertain_attempt first_change))
unfolding get
run_dialog-held_example =
    run_dialog-held "p" "share:p" impatient (uncertain_attempt first_change) lost_dialog refl refl
      refl refl refl

recover-can_change_example :
    (can_change "p" "share:p"
        (end_recovering "p" "share:p" 0 (value invitation) (recover "p" "share:p" [] lost_dialog))
      ≡ true)
    × ((end_recovering "p" "share:p" 0
          (value invitation)
          (recover "p" "share:p" [] lost_dialog)).query.found
        ≡ some invitation)
    × (attempt_of "p" "share:p"
          (end_recovering "p" "share:p" 0 (value invitation) (recover "p" "share:p" [] lost_dialog))
        ≡ none)
    × ((end_recovering "p" "share:p" 0
          (value invitation)
          (recover "p" "share:p" [] lost_dialog)).recoveries
        ≡ [])
unfolding get
recover-can_change_example =
    recover-can_change "p" "share:p" invitation lost_dialog refl refl refl refl

-- ===== src/State/Tests.antt =====
-- Runs of the store, and the theorems of its modules at concrete inputs.
use ai_erp.Base.{◌≡◌, refl, true, false, none, some, List, [], ◌∷◌, arith}
use ai_erp.Base.Dict.{get, put}
use ai_erp.State.{Store}
use ai_erp.State.Denials.{record_access_denial, begin_access_read, access_read_can_clear}
use ai_erp.State.Denials.Reads.{is_old, access_read_can_clear-run_old}
use ai_erp.State.Hooks.{
  Follows, use_access_denied, use_create_attempt, use_share_recovery, use_share_attempt,
  use_creation_uncertainty, hooks-Follows,
}
use ai_erp.State.Lookup.{Project}
use ai_erp.State.Events.{denies, clears_denial, completes, apply_event, run}
use ai_erp.State.Policy.{
  manager, viewer, ScheduleState, draft, Projection, failed as sync_failed, transient,
}
use ai_erp.State.Keys.{plan, refresh_schedule}
use ai_erp.State.Keys.Refresh.{concerns, refresh_schedule-concerns}

abbrev fresh : Store
fresh = record {
  denials = [];
  access_versions = [];
  read_revisions = [];
  uncertain_creations = [];
  create_attempts = [];
  share_attempts = [];
  share_attempt_revisions = [];
  share_read_revisions = [];
  share_recoveries = [];
  listeners = 1 ∷ [];
  notified = [];
}

abbrev refused : Store
refused = record fresh { denials = ("project:p", 1) ∷ []; access_versions = ("project:p", 1) ∷ [] }

abbrev recovering : Store
recovering = record fresh {
  share_attempt_revisions = ("p", 4) ∷ [];
  share_recoveries = ("p", 4) ∷ [];
}

refusal : record_access_denial "project:p" fresh ≡ record refused { notified = 1 ∷ [] }
unfolding record_access_denial get put
refusal = refl

hooks-Follows_example :
    Follows
      (use_access_denied "project:p")
      refused
      (apply_event (clears_denial "project:p") refused)
    × Follows (use_create_attempt "1") refused (apply_event (clears_denial "project:p") refused)
    × Follows (use_share_recovery "p") refused (apply_event (clears_denial "project:p") refused)
    × Follows (use_share_attempt "p") refused (apply_event (clears_denial "project:p") refused)
    × Follows
        (use_creation_uncertainty "g")
        refused
        (apply_event (clears_denial "project:p") refused)
hooks-Follows_example = hooks-Follows (clears_denial "project:p") refused "project:p" "1" "p" "g"

abbrev two_projects : List Project
two_projects = record { id = "a"; role = viewer } ∷ record { id = "b"; role = manager } ∷ []

access_read_can_clear-run_old_example :
    access_read_can_clear "project:p"
      (run (completes "project:p" 1 ∷ denies "x" ∷ []) (record_access_denial "project:p" refused))
    ≡ false
unfolding get is_old begin_access_read
access_read_can_clear-run_old_example =
    access_read_can_clear-run_old "project:p" refused (completes "project:p" 1 ∷ denies "x" ∷ [])
      (omega arith) refl

abbrev meeting : ScheduleState
meeting = record {
  participants =
      record { member_user_id = some "u"; external_email = some "x@y"; acknowledged = false }
      ∷ record { member_user_id = some "u"; external_email = none; acknowledged = true }
      ∷ [];
  business_revision = 2;
  status = draft;
  created_by = "u";
}

abbrev stuck : Projection
stuck = record { status = sync_failed; retry_classification = transient }

-- A plan with a selection of kinds is not refreshed.
refresh_schedule-concerns_example :
    refresh_schedule "p" (some "s") (plan "p" "kind=TASK")
    ≡ concerns "p" (some "s") (plan "p" "kind=TASK")
refresh_schedule-concerns_example = refresh_schedule-concerns "p" (some "s") (plan "p" "kind=TASK")

plan_not_refreshed : refresh_schedule "p" (some "s") (plan "p" "kind=TASK") ≡ false
unfolding refresh_schedule
plan_not_refreshed = refl

-- ===== src/State/Attempts.antt =====
-- state.ts: the attempts to create a project, by session, and the groups whose creations have an
-- uncertain result.
use ai_erp.Base.{String, Bool, Option, if◌then◌else◌}
use ai_erp.Base.Dict.{get, has, put, remove}
use ai_erp.State.{Store, CreateAttempt, notify}

unfoldable pub get_create_attempt : String → Store → Option CreateAttempt
get_create_attempt session s = get session s.create_attempts

unfoldable pub set_create_attempt : String → CreateAttempt → Store → Store
set_create_attempt session attempt s =
    notify (record s { create_attempts = put session attempt s.create_attempts })

unfoldable pub clear_create_attempt : String → Store → Store
clear_create_attempt session s =
    notify (record s { create_attempts = remove session s.create_attempts })

unfoldable pub record_creation_uncertainty : String → Store → Store
record_creation_uncertainty group s =
    notify (record s { uncertain_creations = put group tt s.uncertain_creations })

unfoldable pub has_creation_uncertainty : String → Store → Bool
has_creation_uncertainty group s = has group s.uncertain_creations

unfoldable pub clear_creation_uncertainty : String → Store → Store
unfolding has_creation_uncertainty
clear_creation_uncertainty group s =
    if has_creation_uncertainty group s
    then notify (record s { uncertain_creations = remove group s.uncertain_creations })
    else s

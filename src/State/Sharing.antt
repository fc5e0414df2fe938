-- ===== src/State/Sharing.antt =====
-- state.ts: the attempts to change a project's share invitation, and the recoveries that ask what
-- became of one. Revisions tell a recovery from the changes that overtook it.
pub mod Recoveries
use ai_erp.Base.{
  ℕ, ◌+◌, String, Bool, true, false, not, Option, none, some, ◌==◌, if◌then◌else◌, is_some,
  is_value, or_else,
}
use ai_erp.Base.Dict.{get, has, put, remove}
use ai_erp.State.{Store, ShareAttempt, notify}

unfoldable pub get_share_attempt : String → Store → Option ShareAttempt
get_share_attempt project s = get project s.share_attempts

abbrev pub get_share_read_revision : String → Store → ℕ
get_share_read_revision project s = or_else (get project s.share_read_revisions) 0

unfoldable pub begin_share_read : String → Store → Store × ℕ
begin_share_read project s =
    let revision = get_share_read_revision project s + 1 in
    (record s { share_read_revisions = put project revision s.share_read_revisions }, revision)

unfoldable pub set_share_attempt : String → ShareAttempt → Store → Store
set_share_attempt project attempt s = notify (record s {
  share_attempt_revisions = put project attempt.revision s.share_attempt_revisions;
  share_attempts = put project attempt s.share_attempts;
})

unfoldable pub clear_share_attempt : String → Store → Store
clear_share_attempt project s =
    notify (record s { share_attempts = remove project s.share_attempts })

abbrev pub share_attempt_revision : String → Store → ℕ
share_attempt_revision project s = or_else (get project s.share_attempt_revisions) 0

unfoldable pub next_share_attempt_revision : String → Store → Store × ℕ
next_share_attempt_revision project s =
    let revision = share_attempt_revision project s + 1 in
    (
      record s { share_attempt_revisions = put project revision s.share_attempt_revisions },
      revision,
    )

unfoldable pub start_share_attempt : String → Store → Store × ℕ
unfolding next_share_attempt_revision
start_share_attempt project s = next_share_attempt_revision project s

-- `none` while another recovery of the project runs.
unfoldable pub begin_share_recovery : String → Store → Store × Option ℕ
unfolding next_share_attempt_revision
begin_share_recovery project s =
    if has project s.share_recoveries
    then (s, none)
    else (let (s', revision) = next_share_attempt_revision project s in
        (
          notify (record s' { share_recoveries = put project revision s'.share_recoveries }),
          some revision,
        ))

unfoldable pub is_current_share_recovery : String → ℕ → Store → Bool
is_current_share_recovery project revision s = is_value (get project s.share_recoveries) revision

unfoldable pub clear_share_recovery : String → ℕ → Store → Store
unfolding is_current_share_recovery
clear_share_recovery project revision s =
    if is_current_share_recovery project revision s
    then notify (record s { share_recoveries = remove project s.share_recoveries })
    else s

unfoldable pub invalidate_share_recovery : String → Store → Store
invalidate_share_recovery project s =
    if has project s.share_recoveries
    then notify (record s { share_recoveries = remove project s.share_recoveries })
    else s

-- ===== src/State/Denials.antt =====
-- state.ts: which reads were refused (403, 404), and which later read may lift the refusal.
pub mod Reads
pub mod Settled
use ai_erp.Base.{
  ℕ, ◌+◌, String, Bool, true, false, ◌&&◌, ◌||◌, Option, none, some, ◌==◌, if◌then◌else◌, is_some,
  is_value, or_else,
}
use ai_erp.Base.Dict.{Dict, get, has, put, remove}
use ai_erp.State.{Store, notify}

-- What a promise is rejected with: an `ApiError` by its status, or anything else.
pub data Failure : Type 0 where
  api_error : ℕ → Failure
  other_error : Failure

pub data Outcome {ℓ} (A : Type ℓ) : Type ℓ where
  value : A → Outcome A
  failed : Failure → Outcome A

abbrev pub is_access_error : Failure → Bool
is_access_error (api_error status) = status == 403 || status == 404
is_access_error other_error = false

abbrev pub denial_revision : String → Store → ℕ
denial_revision key s = or_else (get key s.access_versions) 0

unfoldable pub record_access_denial : String → Store → Store
record_access_denial key s =
    let revision = denial_revision key s + 1 in
    notify (record s {
      access_versions = put key revision s.access_versions;
      denials = put key revision s.denials;
    })

unfoldable pub has_access_denial : String → Store → Bool
has_access_denial key s = has key s.denials

unfoldable pub clear_access_denial : String → Store → Store
unfolding has_access_denial
clear_access_denial key s =
    if has_access_denial key s
    then notify
        (record s { denials = remove key s.denials; read_revisions = remove key s.read_revisions })
    else s

unfoldable pub begin_access_read : String → Store → ℕ
begin_access_read key s = denial_revision key s

unfoldable pub complete_access_read : String → ℕ → Store → Store
complete_access_read key revision s =
    if denial_revision key s == revision
    then record s { read_revisions = put key revision s.read_revisions }
    else s

unfoldable pub access_read_can_clear : String → Store → Bool
unfolding has_access_denial
access_read_can_clear key s =
    is_value (get key s.read_revisions) (denial_revision key s) && has_access_denial key s

-- The end of `accessRead`, once the reader has settled: `revision` was taken when the read began,
-- and the store is the one found at the end.
unfoldable pub access_read_settled {ℓ} : {A : Type ℓ} → String → ℕ → Outcome A → Store → Store
unfolding complete_access_read record_access_denial
access_read_settled key revision (value a) s = complete_access_read key revision s
access_read_settled key revision (failed e) s =
    if is_access_error e then record_access_denial key s else s

-- ===== src/State/Policy.antt =====
-- state.ts: what a user may do with a schedule, and the status shown for its calendar copy.
pub mod Rights
use ai_erp.Base.{
  ℕ, String, Bool, true, false, not, ◌&&◌, ◌||◌, Option, none, some, List, [], ◌∷◌, if◌then◌else◌,
  str_eq, ◌==◌, find, is_some,
}

pub data Role : Type 0 where
  manager member viewer : Role

pub data ScheduleStatus : Type 0 where
  draft confirmed cancelled : ScheduleStatus

pub record Participant : Type 0 where
  pub member_user_id : Option String
  pub external_email : Option String
  pub acknowledged : Bool

-- The fields of a schedule that `acknowledgement` and `capabilities` read.
pub record ScheduleState : Type 0 where
  pub participants : List Participant
  pub business_revision : ℕ
  pub status : ScheduleStatus
  pub created_by : String

pub data Acknowledgement : Type 0 where
  not_required acknowledged pending : Acknowledgement

-- `!p.externalEmail`: absent or empty
abbrev pub is_internal : Option String → Bool
is_internal none = true
is_internal (some email) = str_eq email ""

abbrev is_user : Option String → String → Bool
is_user none user = false
is_user (some id) user = str_eq id user

abbrev pub stands_for : String → Participant → Bool
stands_for user p = is_user p.member_user_id user && is_internal p.external_email

unfoldable pub acknowledgement : ScheduleState → String → Acknowledgement
acknowledgement s user = elim (find (stands_for user) s.participants) [
  | none ↦ not_required
  | some p ↦
      if s.business_revision == 0
      then not_required
      else if p.acknowledged
      then acknowledged
      else pending
]

pub data RetryClassification : Type 0 where
  transient permanent unclassified : RetryClassification

pub data CalendarStatus : Type 0 where
  reauth_required failed pending synced not_connected : CalendarStatus
  unknown : CalendarStatus

pub record Projection : Type 0 where
  pub status : CalendarStatus
  pub retry_classification : RetryClassification

pub record Capabilities : Type 0 where
  pub create : Bool
  pub edit : Bool
  pub confirm : Bool
  pub cancel : Bool
  pub ack : Bool
  pub retry : Bool

abbrev pub is_manager : Role → Bool
is_manager manager = true
is_manager _ = false

abbrev pub is_member : Role → Bool
is_member member = true
is_member _ = false

abbrev pub is_draft : ScheduleStatus → Bool
is_draft draft = true
is_draft _ = false

abbrev pub is_confirmed : ScheduleStatus → Bool
is_confirmed confirmed = true
is_confirmed _ = false

abbrev pub is_cancelled : ScheduleStatus → Bool
is_cancelled cancelled = true
is_cancelled _ = false

abbrev is_pending : Acknowledgement → Bool
is_pending pending = true
is_pending _ = false

abbrev is_failed : CalendarStatus → Bool
is_failed failed = true
is_failed _ = false

abbrev is_transient : RetryClassification → Bool
is_transient transient = true
is_transient _ = false

abbrev is_transient_failure : Option Projection → Bool
is_transient_failure none = false
is_transient_failure (some p) = is_failed p.status && is_transient p.retry_classification

may_edit : Role → String → Option ScheduleState → Bool
may_edit role user none = false
may_edit role user (some s) =
    not (is_cancelled s.status) && (is_manager role || (is_member role && str_eq s.created_by user))

-- `schedule?.status` passes a test
status_is : (ScheduleStatus → Bool) → Option ScheduleState → Bool
status_is test none = false
status_is test (some s) = test s.status

awaits : Option ScheduleState → String → Bool
unfolding acknowledgement
awaits none user = false
awaits (some s) user = is_pending (acknowledgement s user)

unfoldable pub capabilities :
    Role → String → Option ScheduleState → Option Projection → Capabilities
unfolding may_edit status_is awaits
capabilities role user schedule projection =
    let create = is_manager role || is_member role in
    let edit = may_edit role user schedule in
    record {
      create = create;
      edit = edit;
      confirm = edit && status_is is_draft schedule;
      cancel = edit && (status_is is_draft schedule || status_is is_confirmed schedule);
      ack = create && awaits schedule user;
      retry = is_manager role && is_transient_failure projection;
    }

abbrev pub status_rank : CalendarStatus → ℕ
status_rank reauth_required = 0
status_rank failed = 1
status_rank pending = 2
status_rank synced = 3
status_rank not_connected = 4
status_rank unknown = 5

abbrev pub status_order : List CalendarStatus
status_order = reauth_required ∷ failed ∷ pending ∷ synced ∷ not_connected ∷ []

abbrev pub has_status : Option CalendarStatus → CalendarStatus → Bool
has_status none s = false
has_status (some t) s = status_rank s == status_rank t

-- The arguments are `connection?.status` and `projection?.status`.
unfoldable pub calendar_status :
    Option CalendarStatus → Option CalendarStatus → Option CalendarStatus
calendar_status connection projection =
    find (λ s. has_status connection s || has_status projection s) status_order

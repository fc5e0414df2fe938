-- ===== src/State/Policy/Rights.antt =====
-- How the capabilities of the roles compare, and what decides an acknowledgement.
use ai_erp.Base.{
  ℕ, ◌≡◌, refl, String, Bool, true, false, not, ◌||◌, Option, none, some, List, [], ◌∷◌, arith,
  str_eq, find, select, min,
}
use ai_erp.State.Policy.{
  Role, manager, member, viewer, ScheduleState, draft, confirmed, cancelled, Participant,
  is_internal, stands_for, acknowledgement, Projection, Capabilities, capabilities, CalendarStatus,
  reauth_required, failed, pending, synced, not_connected, unknown, calendar_status,
}

-- Whoever has the first has the second.
abbrev pub Implies : Bool → Bool → Type 0
Implies a b = (not a || b) ≡ true

-- Each capability of the first is one of the second.
pub record Within (c d : Capabilities) : Type 0 where
  pub create : Implies c.create d.create
  pub edit : Implies c.edit d.edit
  pub confirm : Implies c.confirm d.confirm
  pub cancel : Implies c.cancel d.cancel
  pub ack : Implies c.ack d.ack
  pub retry : Implies c.retry d.retry

-- For one user, schedule and projection: a viewer may do nothing, a member nothing that a manager
-- may not, and whoever may confirm may cancel, whoever may cancel may edit, and whoever may edit or
-- acknowledge may create.
pub capabilities_by_role :
    (role : Role) (user : String) (schedule : Option ScheduleState) (projection : Option Projection)
    → (capabilities viewer user schedule projection ≡ record {
      create = false;
      edit = false;
      confirm = false;
      cancel = false;
      ack = false;
      retry = false;
    })
      × Within
          (capabilities member user schedule projection)
          (capabilities manager user schedule projection)
      × Implies
          (capabilities role user schedule projection).confirm
          (capabilities role user schedule projection).cancel
      × Implies
          (capabilities role user schedule projection).cancel
          (capabilities role user schedule projection).edit
      × Implies
          (capabilities role user schedule projection).edit
          (capabilities role user schedule projection).create
      × Implies
          (capabilities role user schedule projection).ack
          (capabilities role user schedule projection).create
unfolding capabilities
capabilities_by_role role user schedule projection = (
  ground arith,
  record {
    create = ground arith;
    edit = ground arith;
    confirm = ground arith;
    cancel = ground arith;
    ack = ground arith;
    retry = ground arith;
  },
  ground arith,
  ground arith,
  ground arith,
  ground arith,
)

-- A cancelled schedule can be edited, confirmed and cancelled by nobody; a draft by every manager,
-- and by a member exactly if the member created it.
pub capabilities_by_status :
    (role : Role) (user : String) (s : ScheduleState) (projection : Option Projection)
    → ((capabilities role user (some (record s { status = cancelled })) projection).edit ≡ false)
      × ((capabilities role user (some (record s { status = cancelled })) projection).confirm
          ≡ false)
      × ((capabilities role user (some (record s { status = cancelled })) projection).cancel
          ≡ false)
      × ((capabilities manager user (some (record s { status = draft })) projection).confirm ≡ true)
      × ((capabilities member user (some (record s { status = draft })) projection).confirm
          ≡ str_eq s.created_by user)
      × ((capabilities member user (some (record s { status = confirmed })) projection).cancel
          ≡ str_eq s.created_by user)
unfolding capabilities
capabilities_by_status role user s projection =
    (ground arith, ground arith, ground arith, ground arith, ground arith, ground arith)

find-select_internal :
    (user : String) (ps : List Participant)
    → find (stands_for user) (select (λ p. is_internal p.external_email) ps)
      ≡ find (stands_for user) ps
find-select_internal user [] = refl
find-select_internal user (p ∷ ps) = ground (arith, find-select_internal user ps)

-- Participants with an external address never count: taking them off the schedule changes nobody's
-- acknowledgement.
pub acknowledgement-select_internal :
    (s : ScheduleState) (user : String)
    → acknowledgement
        (record s { participants = select (λ p. is_internal p.external_email) s.participants })
        user
      ≡ acknowledgement s user
unfolding acknowledgement
acknowledgement-select_internal s user =
    rw (find-select_internal user s.participants, acknowledgement)

-- How urgent a status is, most urgent first; an absent or unknown status comes last.
pub urgency : Option CalendarStatus → ℕ
urgency none = 5
urgency (some reauth_required) = 0
urgency (some failed) = 1
urgency (some pending) = 2
urgency (some synced) = 3
urgency (some not_connected) = 4
urgency (some unknown) = 5

-- The status shown is the more urgent one of the connection's and the projection's.
pub urgency-calendar_status :
    (connection projection : Option CalendarStatus)
    → urgency (calendar_status connection projection)
      ≡ min (urgency connection) (urgency projection)
unfolding urgency calendar_status
urgency-calendar_status connection projection = ground arith

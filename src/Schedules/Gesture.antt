-- ===== src/Schedules/Gesture.antt =====
-- frontend/src/screens/Schedules.tsx: the pointer on one event of the calendar, `CalendarEvent`. Pointer
-- capture is the browser's and left out; positions are whole pixels.
pub mod Clicks
pub mod Drops
mod Tests
use ai_erp.Base.{
  ℕ, ◌+◌, ◌-◌, ◌*◌, String, Bool, true, false, not, ◌&&◌, ◌||◌, Option, none, some, List, [], ◌∷◌,
  ◌++◌, ◌==◌, ltb, if◌then◌else◌, is_some,
}
use ai_erp.Time.Views.{View, month, week}
use ai_erp.Calendar.Changes.{
  Times, CalendarChange, move, start, end, LocalPoint, apply_month_change, apply_week_move,
  apply_week_resize, is_valid_change,
}
use ai_erp.Schedules.Writes.{Token, drag, same_token, is_token}

-- The schedule of an event, the cell that it stands in, and what the page makes of its token when it
-- hands a change over. `local_of` is the zone, and `start_minute` where the schedule starts in the cell,
-- in sixtieths.
pub record CalendarEvent : Type 0 where
  pub local_of : ℕ → ℕ
  pub id : String
  pub times : Times
  pub day : ℕ
  pub start_minute : ℕ
  pub view : View
  pub editable : Bool
  pub on_commit : Times → Token → Option Token → Option Token

-- A pointer's event: where it is, and the day and the minute of the cell under it. The minute is in
-- sixtieths, and `none` outside of the day's canvas.
pub record Pointer : Type 0 where
  pub x : ℕ
  pub y : ℕ
  pub pointer_id : ℕ
  pub is_touch : Bool
  pub button : ℕ
  pub cell_day : Option ℕ
  pub cell_minute : Option ℕ

pub record Gesture : Type 0 where
  pub x : ℕ
  pub y : ℕ
  pub change : CalendarChange
  pub moved : Bool
  pub origin : LocalPoint
  pub token : Token

pub data Preview : Type 0 where
  times_shown : Times → Preview
  unusable : Preview

-- `gestureRef`, `movedRef`, the page's token and preview, and the changes that were handed to the page.
pub record EventState : Type 0 where
  pub gesture : Option Gesture
  pub moved : Bool
  pub active : Option Token
  pub preview : Option Preview
  pub committed : List Times

-- What a drop at a place gives: nothing, an exception, or times.
pub data Next : Type 0 where
  nothing exception : Next
  times_of : Times → Next

abbrev pub next_of : Option Times → Next
next_of none = exception
next_of (some t) = times_of t

-- `|a - b|`
abbrev pub distance : ℕ → ℕ → ℕ
distance a b = (a - b) + (b - a)

-- `Math.hypot(...) > 6`
unfoldable pub is_far : Gesture → Pointer → Bool
is_far g p = let dx = distance p.x g.x in let dy = distance p.y g.y in ltb 36 (dx * dx + dy * dy)

abbrev pub is_week : View → Bool
is_week week = true
is_week month = false

abbrev pub is_move : CalendarChange → Bool
is_move move = true
is_move _ = false

abbrev pub is_start : CalendarChange → Bool
is_start start = true
is_start _ = false

abbrev pub minimum : View → CalendarChange → ℕ
minimum view change = if is_week view && not (is_move change) then 15 else 0

abbrev pub same_times : Times → Times → Bool
same_times a b = a.starts_at == b.starts_at && a.ends_at == b.ends_at

module _ (event : CalendarEvent) where
  abbrev pub week_drop : LocalPoint → CalendarChange → ℕ → Option ℕ → Next
  week_drop origin change target none = nothing
  week_drop origin change target (some minute) =
      let point : LocalPoint = record { day = target; minute = minute } in
      if is_move change
      then next_of (apply_week_move event.local_of event.times origin point)
      else next_of (apply_week_resize event.local_of event.times point (is_start change))

  abbrev pub next_times : LocalPoint → CalendarChange → ℕ → Option ℕ → Next
  next_times origin change target minute =
      if is_week event.view
      then week_drop origin change target minute
      else next_of (apply_month_change event.local_of event.times event.day target change)

  abbrev pub preview_of : CalendarChange → Next → Option Preview
  preview_of change nothing = none
  preview_of change exception = some unusable
  preview_of change (times_of t) =
      if is_valid_change t (minimum event.view change) then some (times_shown t) else none

  -- `clear`
  unfoldable pub clear : EventState → EventState
  unfolding same_token
  clear d = elim d.gesture [
    | none ↦ record d { preview = none }
    | some g ↦ record d {
      active = if is_token d.active g.token then none else d.active;
      gesture = none;
      preview = none;
    }
  ]

  -- The minute where a gesture begins; in the week it needs the canvas.
  abbrev pub origin_minute : Option ℕ → Option ℕ
  origin_minute minute = if is_week event.view then minute else some event.start_minute

  unfoldable pub begin : Pointer → CalendarChange → EventState → EventState
  begin p change d =
      if not event.editable || p.is_touch || not (p.button == 0) || is_some d.active
      then d
      else elim (origin_minute p.cell_minute) [
        | none ↦ record d { moved = false }
        | some minute ↦ record d {
          moved = false;
          active = some (drag event.id p.pointer_id);
          gesture = some (record {
            x = p.x;
            y = p.y;
            change = change;
            moved = false;
            origin = record { day = event.day; minute = minute };
            token = drag event.id p.pointer_id;
          });
        }
      ]

  abbrev pub preview_at : LocalPoint → CalendarChange → Pointer → Option ℕ → Option Preview
  preview_at origin change p none = none
  preview_at origin change p (some target) =
      preview_of change (next_times origin change target p.cell_minute)

  unfoldable pub move_to : Pointer → EventState → EventState
  unfolding is_far
  move_to p d = elim d.gesture [
    | none ↦ d
    | some g ↦ if not g.moved && not (is_far g p) then d else record d {
      moved = d.moved || not g.moved;
      gesture = some (record g { moved = true });
      preview = preview_at g.origin g.change p p.cell_day;
    }
  ]

  -- The times that a drop hands to the page.
  abbrev pub dropped : CalendarChange → Next → Option Times
  dropped change nothing = none
  dropped change exception = none
  dropped change (times_of t) =
      if is_valid_change t (minimum event.view change) && not (same_times t event.times)
      then some t
      else none

  abbrev pub dropped_at : LocalPoint → CalendarChange → Pointer → Option ℕ → Option Times
  dropped_at origin change p none = none
  dropped_at origin change p (some target) =
      dropped change (next_times origin change target p.cell_minute)

  abbrev pub commit : Gesture → Option Times → EventState → EventState
  commit g none d = d
  commit g (some t) d = record d {
    committed = d.committed ++ t ∷ [];
    active = event.on_commit t g.token d.active;
  }

  unfoldable pub finish : Pointer → EventState → EventState
  unfolding clear
  finish p d = elim d.gesture [
    | none ↦ d
    | some g ↦
        if g.moved || d.moved
        then clear (commit g (dropped_at g.origin g.change p p.cell_day) d)
        else clear d
  ]

  -- `Escape`, a cancelled pointer or the context menu.
  abbrev pub cancel : EventState → EventState
  cancel d = clear d

  -- The link of the event is not followed after a gesture that moved.
  abbrev pub on_click : EventState → EventState × Bool
  on_click d = (record d { moved = false }, d.moved)

-- ===== src/ScheduleForm/Prefill.antt =====
-- What a new schedule's draft opens with: `defaultStart`, `contextPrefill` and `validatedReturnContext`.
use ai_erp.Base.{
  ℕ, ◌+◌, ◌-◌, ◌*◌, ◌/◌, ◌%◌, ◌≤◌, ◌<◌, ◌≡◌, arith, ◌==◌, leb, ltb, String, Bool, true, false, not,
  ◌&&◌, ◌||◌, Option, none, some, List, [], ◌∷◌, all, any, if◌then◌else◌, or_else,
}
use ai_erp.Base.Text.{codes, text_eq, is_empty}
use ai_erp.ScheduleForm.{Zones, Fields, Draft, LocalHour, minute_ms, seoul, to_utc, add_local_hour}

-- `contextPrefill`'s result.
pub record Prefilled : Type 0 where
  pub start : Option ℕ
  pub end : Option ℕ
  pub end_instant : Option ℕ
  pub zone : String

abbrev pub valid_or_seoul : (String → Bool) → Option String → String
valid_or_seoul valid_zone none = seoul
valid_or_seoul valid_zone (some zone) = if valid_zone zone then zone else seoul

module _ (zones : Zones) where
  -- The next half hour of Seoul's clock, as local minutes.
  unfoldable pub default_start : ℕ → ℕ
  default_start now =
      let local = zones.zone_local seoul (now / minute_ms) in
      let extra = if now % minute_ms == 0 then 0 else 1 in
      let next = (local % 1440 + extra + 29) / 30 * 30 in
      if ltb next 1440
      then local / 1440 * 1440 + next
      else zones.zone_local seoul ((now + 86400000) / minute_ms) / 1440 * 1440

  -- `validDateTime` of a text that has the form of a date and time.
  abbrev pub valid_date_time : String → Option ℕ → Option ℕ
  valid_date_time zone none = none
  valid_date_time zone (some local) = elim (to_utc zones (some local) zone) [
    | none ↦ none
    | some t ↦ some local
  ]

  -- `${contextDate}T09:00`, or the default start.
  abbrev pub date_start : ℕ → Option ℕ → ℕ
  date_start now none = default_start now
  date_start now (some day) = day * 1440 + 540

  abbrev pub prefilled : String → Option ℕ → Option ℕ → LocalHour → Prefilled
  prefilled zone start none hour = record {
    start = start;
    end = hour.local;
    end_instant = hour.instant_at;
    zone = zone;
  }
  prefilled zone start (some e) hour = record {
    start = start;
    end = some e;
    end_instant = none;
    zone = zone;
  }

  -- From the parameters `date`, `start`, `end` and `zone` of a query: a day, two local times, and a
  -- name, `none` where a parameter is missing or no date or time.
  unfoldable pub context_prefill : ℕ → Option ℕ → Option ℕ → Option ℕ → Option String → Prefilled
  unfolding default_start add_local_hour to_utc
  context_prefill now date start_param end_param zone_param =
      let zone = valid_or_seoul zones.valid_zone zone_param in
      let start = or_else (valid_date_time zone start_param) (date_start now date) in
      prefilled zone (some start) (valid_date_time zone end_param)
        (add_local_hour zones (some start) zone)

  abbrev pub new_fields : Prefilled → Fields
  new_fields p = record {
    title = [];
    description = [];
    zone = p.zone;
    start = p.start;
    end = p.end;
    ids = [];
    external = [];
  }

  abbrev pub new_draft : Prefilled → Draft
  new_draft p = record {
    fields = new_fields p;
    initial = new_fields p;
    end_edited = false;
    automatic_end = p.end_instant;
    baseline = none;
    row_version = none;
    values = [];
    values_dirty = false;
    conflict = none;
    conflict_read_failed = false;
  }

  -- The query of a new schedule's form changes, and the user agrees or not.
  unfoldable pub on_query_change : Bool → Prefilled → Draft → Draft
  on_query_change agrees p d =
      if agrees
      then record d {
        fields = new_fields p;
        initial = new_fields p;
        end_edited = false;
        automatic_end = p.end_instant;
      }
      else d

  -- Where Seoul is nine hours ahead, the default start is a full or half hour of its clock, not before
  -- now, and less than half an hour away.
  pub default_start_soon :
      (now : ℕ)
      → ((t : ℕ) → zones.zone_local seoul t ≡ t + 540)
      → (default_start now % 30 ≡ 0)
        × (now + 540 * 60000 ≤ default_start now * 60000)
        × (default_start now * 60000 < now + 540 * 60000 + 30 * 60000)
  unfolding default_start
  default_start_soon now ahead =
      let here = ahead (now / minute_ms) in
      let tomorrow = ahead ((now + 86400000) / minute_ms) in ground (arith, here, tomorrow)

-- The names that a calendar's query may have.
abbrev allowed : List (List ℕ)
allowed =
    codes "view"
    ∷ codes "page"
    ∷ codes "date"
    ∷ codes "mode"
    ∷ codes "after"
    ∷ codes "before"
    ∷ codes "text"
    ∷ codes "status"
    ∷ codes "ack"
    ∷ codes "mine"
    ∷ codes "zone"
    ∷ []

abbrev pub is_digit : ℕ → Bool
is_digit c = leb b'0' c && leb c b'9'

-- `Number(digits)`
abbrev pub number_of : ℕ → List ℕ → ℕ
number_of n [] = n
number_of n (c ∷ cs) = number_of (n * 10 + (c - b'0')) cs

abbrev pub find_param : List ℕ → List (List ℕ × List ℕ) → Option (List ℕ)
find_param name [] = none
find_param name ((k, v) ∷ ps) = if text_eq k name then some v else find_param name ps

abbrev pub is_page : Option (List ℕ) → Bool
is_page none = true
is_page (some p) = not (is_empty p) && all is_digit p && leb (number_of 0 p) 10000

-- `parse` and `print` are those of `URLSearchParams`.
module _ (parse : List ℕ → List (List ℕ × List ℕ)) (print : List (List ℕ × List ℕ) → List ℕ) where
  -- From the parameter `return` of the query.
  unfoldable pub validated_return_context : Option (List ℕ) → List ℕ
  validated_return_context none = []
  validated_return_context (some raw) =
      if is_empty raw || any (λ c. c == b'#') raw
      then []
      else let params = parse raw in
        if any (λ p. not (any (text_eq p.0) allowed)) params
          || not (is_page (find_param (codes "page") params))
        then []
        else print params

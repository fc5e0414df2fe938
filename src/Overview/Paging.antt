-- ===== src/Overview/Paging.antt =====
-- `readOverviewSchedules`: the schedules of a period, page by page.
use ai_erp.Base.{
  ℕ, zero, suc, ◌+◌, String, Bool, true, false, ◌||◌, Option, none, some, List, [], ltb, ◌==◌,
  length, if◌then◌else◌,
}
use ai_erp.Base.Dict.{Dict, values}
use ai_erp.Base.Keyed.{set_all}
use ai_erp.State.{Store}
use ai_erp.State.Denials.{
  Failure, Outcome, value, failed, is_access_error, begin_access_read, access_read_settled,
}
use ai_erp.State.Events.{StoreEvent, run}

-- A row with its id; what else it has is not read here.
pub record Schedule : Type 0 where
  pub id : String
  pub title : String

pub data Reason : Type 0 where
  page_failed repeated_page page_limit : Reason

pub record LoadedSchedules : Type 0 where
  pub rows : List Schedule
  pub complete : Bool
  pub partial : Bool
  pub pages : ℕ
  pub reason : Option Reason

abbrev pub overview_page_limit : ℕ
overview_page_limit = 50

abbrev pub page_size : ℕ
page_size = 20

abbrev pub row_id : Schedule → String
row_id r = r.id

abbrev pub whole : Dict Schedule → ℕ → LoadedSchedules
whole m pages = record {
  rows = values m;
  complete = true;
  partial = false;
  pages = pages;
  reason = none;
}

abbrev pub part : Dict Schedule → ℕ → Reason → LoadedSchedules
part m pages reason = record {
  rows = values m;
  complete = false;
  partial = true;
  pages = pages;
  reason = some reason;
}

-- What the rows of a page decide; `m` holds those of the pages before it.
abbrev pub on_rows :
    List Schedule
    → Dict Schedule
    → ℕ
    → Store
    → Store × Outcome LoadedSchedules
    → Store × Outcome LoadedSchedules
on_rows rows m pages s later =
    if ltb (length rows) page_size
    then (s, value (whole (set_all row_id rows m) pages))
    else if length (set_all row_id rows m) == length m
    then (s, value (part (set_all row_id rows m) pages repeated_page))
    else later

abbrev pub on_failure : Failure → ℕ → Dict Schedule → ℕ → Store → Store × Outcome LoadedSchedules
on_failure e page m pages s =
    if page == 0 || is_access_error e then (s, failed e) else (s, value (part m pages page_failed))

-- `key` gives the access key of a page, `reader` what `api.schedules` answers for it, and `waiting`
-- what happens to the store meanwhile.
module _ (key : ℕ → String) (reader : ℕ → Outcome (List Schedule))
    (waiting : ℕ → List StoreEvent) where
  -- `accessRead` of one page.
  abbrev pub after_page : ℕ → Store → Store
  after_page page s =
      access_read_settled (key page) (begin_access_read (key page) s) (reader page)
        (run (waiting page) s)

  -- The loop, with the pages that are left.
  unfoldable pub load : ℕ → ℕ → Dict Schedule → ℕ → Store → Store × Outcome LoadedSchedules
  unfolding set_all
  load zero page m pages s = (s, value (part m pages page_limit))
  load (suc left) page m pages s =
      let t = after_page page s in
      elim (reader page) [
        | failed e ↦ on_failure e page m pages t
        | value rows ↦
            on_rows rows m (pages + 1) t
              (load left (page + 1) (set_all row_id rows m) (pages + 1) t)
      ]

  abbrev pub read_overview_schedules : Store → Store × Outcome LoadedSchedules
  read_overview_schedules s = load overview_page_limit 0 [] 0 s

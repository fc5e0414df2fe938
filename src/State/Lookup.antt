-- ===== src/State/Lookup.antt =====
-- state.ts: `useProject` looks for a project in the pages of the project list, at most 10001 of them.
pub mod Pages
use ai_erp.Base.{
  ℕ, zero, suc, ◌+◌, String, Bool, true, false, Option, none, some, List, [], ◌∷◌, ltb, str_eq,
  length, find, if◌then◌else◌,
}
use ai_erp.State.{Store}
use ai_erp.State.Denials.{Failure, Outcome, value, failed, begin_access_read, access_read_settled}
use ai_erp.State.Events.{StoreEvent, run}
use ai_erp.State.Policy.{Role}

-- The members of a project that the lookup and the capabilities read.
pub record Project : Type 0 where
  pub id : String
  pub role : Role

abbrev pub page_size : ℕ
page_size = 100

abbrev pub max_pages : ℕ
max_pages = 10001

abbrev pub has_id : String → Project → Bool
has_id id p = str_eq p.id id

-- What one page of rows decides: a result, or that the next page is read.
unfoldable pub on_page : String → List Project → Outcome (Option Project) → Outcome (Option Project)
on_page id rows later = elim (find (has_id id) rows) [
  | some p ↦ value (some p)
  | none ↦ if ltb (length rows) page_size then value none else later
]

-- The loop, with the pages that are left; `reader` is `api.projects`.
unfoldable pub look_up : ℕ → ℕ → (ℕ → Outcome (List Project)) → String → Outcome (Option Project)
unfolding on_page
look_up zero page reader id = value none
look_up (suc left) page reader id =
    let later = look_up left (page + 1) reader id in
    elim (reader page) [ value rows ↦ on_page id rows later | failed e ↦ failed e ]

-- The query function of `useProject`: `waiting` happens to the store while the pages are read.
pub project_query :
    String
    → String
    → List StoreEvent
    → (ℕ → Outcome (List Project))
    → Store
    → Store × Outcome (Option Project)
project_query key id waiting reader s =
    let outcome = look_up max_pages 0 reader id in
    (access_read_settled key (begin_access_read key s) outcome (run waiting s), outcome)

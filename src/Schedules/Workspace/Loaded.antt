-- ===== src/Schedules/Workspace/Loaded.antt =====
-- What is read of a calendar from a server that pages a list.
use ai_erp.Base.{
  ℕ, zero, suc, ◌+◌, ◌*◌, ◌≤◌, ◌<◌, min, ◌≡◌, refl, String, Bool, true, false, none, some, List,
  arith, leb, ltb, length, take, drop, if◌then◌else◌, Bool-cases, inl, inr, ap, ◌∙◌,
}
use ai_erp.Base.Keyed.{
  distinct, entries, values-entries, take-all, set_all-page, length-entries-take,
}
use ai_erp.State.{Store}
use ai_erp.State.Denials.{other_error, Outcome, value, failed}
use ai_erp.State.Events.{StoreEvent}
use ai_erp.Schedules.Workspace.{
  WorkspaceRecord, record_id, WorkspacePage, WorkspaceCalendar, Progress, capped, add_page, whole,
  on_pages_left, read_pages, read_workspace_calendar, start_progress, max_pages,
}

-- A server that answers each page with its hundred rows of a list and says whether rows follow.
abbrev pub page_of : List WorkspaceRecord → List String → ℕ → WorkspacePage
page_of rows groups page = record {
  records = take 100 (drop (page * 100) rows);
  total = length rows;
  has_more = ltb ((page + 1) * 100) (length rows);
  groups = groups;
}

abbrev pub paged : List WorkspaceRecord → List String → ℕ → Outcome WorkspacePage
paged rows groups page = value (page_of rows groups page)

-- What has been read behind some pages.
abbrev read_so_far : List WorkspaceRecord → List String → ℕ → Progress
read_so_far rows groups page = record {
  found = entries record_id (take (page * 100) rows);
  total = length rows;
  groups = groups;
}

abbrev pub all_rows : List WorkspaceRecord → List String → WorkspaceCalendar
all_rows rows groups = record {
  records = rows;
  total = length rows;
  has_more = false;
  groups = groups;
  partial = false;
  reason = none;
}

abbrev pub first_rows : List WorkspaceRecord → List String → WorkspaceCalendar
first_rows rows groups = record {
  records = take 1000 rows;
  total = length rows;
  has_more = true;
  groups = groups;
  partial = true;
  reason = some capped;
}

-- What the calendar shows of the list.
abbrev pub expected : Bool → List WorkspaceRecord → List String → Outcome WorkspaceCalendar
expected require_complete rows groups =
    if leb (length rows) 1000
    then value (all_rows rows groups)
    else if require_complete
    then failed other_error
    else value (first_rows rows groups)

add_page-page :
    (page : ℕ) (rows : List WorkspaceRecord) (groups : List String) (g : Progress)
    → distinct record_id rows ≡ true
    → g.found ≡ entries record_id (take (page * 100) rows)
    → add_page (page_of rows groups page) g ≡ read_so_far rows groups (page + 1)
unfolding add_page
add_page-page page rows groups g h e = rw (e, set_all-page record_id 100 page rows h) refl

whole-rows :
    (page : ℕ) (rows : List WorkspaceRecord) (groups : List String)
    → length rows ≤ page * 100
    → whole (read_so_far rows groups page) ≡ all_rows rows groups
whole-rows page rows groups h =
    rw (take-all (page * 100) rows h, values-entries record_id rows) refl

on_pages_left-rows :
    (require_complete : Bool) (rows : List WorkspaceRecord) (groups : List String)
    → 1000 < length rows
    → on_pages_left require_complete (read_so_far rows groups max_pages)
      ≡ expected require_complete rows groups
unfolding on_pages_left
on_pages_left-rows require_complete rows groups h =
    let long : leb (length rows) 1000 ≡ false = ground arith in
    let full : leb 1000 (min 1000 (length rows)) ≡ true = ground arith in
    rw
      (
        long,
        length-entries-take record_id 1000 rows,
        full,
        values-entries record_id (take 1000 rows),
      )
      refl

module _ (key : ℕ → String) (waiting : ℕ → List StoreEvent) (rows : List WorkspaceRecord)
    (groups : List String) (h : distinct record_id rows ≡ true) where
  read_pages-paged :
      (require_complete : Bool) (left page : ℕ) (g : Progress) (s : Store)
      → page + suc left ≡ max_pages
      → g.found ≡ entries record_id (take (page * 100) rows)
      → page * 100 ≤ length rows
      → (read_pages key (paged rows groups) waiting require_complete (suc left) page g s).1
        ≡ expected require_complete rows groups
  unfolding read_pages
  read_pages-paged require_complete zero page g s count e low =
      elim (Bool-cases (ltb ((page + 1) * 100) (length rows))) [
        | inl more ↦
            let ten : page + 1 ≡ max_pages = omega arith in
            rw more (
              ap (on_pages_left require_complete)
                (add_page-page page rows groups g h e ∙ ap (read_so_far rows groups) ten)
              ∙ on_pages_left-rows require_complete rows groups (ground arith))
        | inr last ↦
            let short : leb (length rows) 1000 ≡ true = ground arith in
            rw (last, short)
              (ap (λ k. value (whole k)) (add_page-page page rows groups g h e)
                ∙ ap value (whole-rows (page + 1) rows groups (ground arith)))
      ]
  read_pages-paged require_complete (suc left) page g s count e low =
      elim (Bool-cases (ltb ((page + 1) * 100) (length rows))) [
        | inl more ↦
            let found = ap (λ k. k.found) (add_page-page page rows groups g h e) in
            rw more (
              read_pages-paged require_complete left (page + 1)
                (add_page (page_of rows groups page) g) _ (omega arith) found (ground arith))
        | inr last ↦
            let short : leb (length rows) 1000 ≡ true = ground arith in
            rw (last, short)
              (ap (λ k. value (whole k)) (add_page-page page rows groups g h e)
                ∙ ap value (whole-rows (page + 1) rows groups (ground arith)))
      ]

-- From a server that pages a list in which no two rows have one id: a list of at most 1000 rows is
-- read whole. Of a longer one the first 1000 rows are read and reported as a part, and where a
-- complete calendar is required the read fails.
pub read_workspace_calendar-paged :
    (key : ℕ → String) (waiting : ℕ → List StoreEvent) (rows : List WorkspaceRecord)
    (groups : List String) (require_complete : Bool) (s : Store)
    → distinct record_id rows ≡ true
    → (read_workspace_calendar key (paged rows groups) waiting require_complete s).1
      ≡ expected require_complete rows groups
read_workspace_calendar-paged key waiting rows groups require_complete s h =
    read_pages-paged key waiting rows groups h require_complete 9 0 start_progress s (omega arith)
      refl (omega arith)

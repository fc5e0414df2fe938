-- ===== src/Overview/Loaded.antt =====
-- The schedules that are loaded from a server that pages a list.
use ai_erp.Base.{
  ℕ, zero, suc, ◌+◌, ◌*◌, ◌/◌, ◌-◌, ◌≤◌, ◌<◌, min, ◌≡◌, refl, String, true, false, none, some, List,
  arith, ltb, ◌==◌, length, take, drop, if◌then◌else◌, length-take, length-drop, Bool-cases, inl,
  inr, ap, ◌∙◌,
}
use ai_erp.Base.Keyed.{
  distinct, entries, values-entries, take-all, set_all-page, length-entries-take,
}
use ai_erp.State.{Store}
use ai_erp.State.Denials.{Outcome, value}
use ai_erp.State.Events.{StoreEvent}
use ai_erp.Overview.Paging.{
  Schedule, LoadedSchedules, page_limit, overview_page_limit, page_size, row_id, load, whole,
  read_overview_schedules,
}

-- A server that answers each page with its twenty rows of a list.
abbrev pub paged : List Schedule → ℕ → Outcome (List Schedule)
paged rows page = value (take page_size (drop (page * page_size) rows))

-- What is loaded with a limit of `pages` pages.
abbrev pub loaded : ℕ → List Schedule → LoadedSchedules
loaded pages rows =
    if ltb (length rows) (pages * page_size)
    then record {
      rows = rows;
      complete = true;
      partial = false;
      pages = length rows / page_size + 1;
      reason = none;
    }
    else record {
      rows = take (pages * page_size) rows;
      complete = false;
      partial = true;
      pages = pages;
      reason = some page_limit;
    }

whole-loaded :
    (page left : ℕ) (rows : List Schedule)
    → page * page_size ≤ length rows
    → length rows < (page + 1) * page_size
    → whole (entries row_id (take ((page + 1) * page_size) rows)) (page + 1)
      ≡ loaded (page + suc left) rows
whole-loaded page left rows k low =
    let fits : ltb (length rows) ((page + suc left) * page_size) ≡ true = ground arith in
    let count : length rows / page_size + 1 ≡ page + 1 = omega arith in
    rw
      (
        fits,
        count,
        values-entries row_id (take ((page + 1) * page_size) rows),
        take-all ((page + 1) * page_size) rows (omega arith),
      )
      refl

-- A full page adds rows.
grown :
    (page : ℕ) (rows : List Schedule)
    → (page + 1) * page_size ≤ length rows
    → length (entries row_id (take ((page + 1) * page_size) rows))
        == length (entries row_id (take (page * page_size) rows))
      ≡ false
grown page rows h =
    rw
      (
        length-entries-take row_id ((page + 1) * page_size) rows,
        length-entries-take row_id (page * page_size) rows,
      )
      (ground arith)

module _ (key : ℕ → String) (waiting : ℕ → List StoreEvent) where
  load-paged :
      (left page : ℕ) (rows : List Schedule) (s : Store)
      → distinct row_id rows ≡ true
      → page * page_size ≤ length rows
      → (load key
          (paged rows)
          waiting
          left
          page
          (entries row_id (take (page * page_size) rows))
          page
          s).1
        ≡ value (loaded (page + left) rows)
  unfolding load
  load-paged zero page rows s h k =
      let same : page + 0 ≡ page = omega arith in
      let full : ltb (length rows) (page * page_size) ≡ false = ground arith in
      rw (same, full, values-entries row_id (take (page * page_size) rows)) refl
  load-paged (suc left) page rows s h k =
      let chunk = take page_size (drop (page * page_size) rows) in
      let size : length chunk ≡ min page_size (length rows - page * page_size) =
        length-take page_size (drop (page * page_size) rows)
        ∙ ap (min page_size) (length-drop (page * page_size) rows) in
      elim (Bool-cases (ltb (length chunk) page_size)) [
        | inl short ↦
            let low : length rows < (page + 1) * page_size = ground arith in
            rw (set_all-page row_id page_size page rows h, short)
              (ap value (whole-loaded page left rows k low))
        | inr long ↦
            let high : (page + 1) * page_size ≤ length rows = ground arith in
            let next : page + 1 + left ≡ page + suc left = omega arith in
            rw (set_all-page row_id page_size page rows h, long, grown page rows high)
              (load-paged left (page + 1) rows _ h high ∙ ap (λ n. value (loaded n rows)) next)
      ]

  -- From a server that answers each page with its twenty rows of a list in which no two rows have
  -- one id, a list of less than 1000 rows is loaded whole and reported as complete, with the number
  -- of pages that were read. Of a longer one the first 1000 rows are loaded, after 50 pages, and
  -- reported as a part. What happens to the store meanwhile does not matter.
  pub read_overview_schedules-paged :
      (rows : List Schedule) (s : Store)
      → distinct row_id rows ≡ true
      → (read_overview_schedules key (paged rows) waiting s).1
        ≡ value (loaded overview_page_limit rows)
  read_overview_schedules-paged rows s h = load-paged overview_page_limit 0 rows s h (omega arith)

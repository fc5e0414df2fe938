-- ===== src/State/Lookup/Pages.antt =====
-- The paged lookup against a lookup in the whole list.
use ai_erp.Base.{
  ℕ, zero, suc, ◌+◌, ◌*◌, ◌≤◌, ◌<◌, ◌||◌, ◌≡◌, refl, String, true, Option, none, List, [], ◌∷◌,
  arith, ltb, length, find, take, drop, take-append-drop, length-take, find-append, or_find, ap,
  sym, ◌∙◌,
}
use ai_erp.State.{Store}
use ai_erp.State.Denials.{
  Failure, Outcome, value, failed, is_access_error, has_access_denial, begin_access_read,
}
use ai_erp.State.Events.{StoreEvent, run}
use ai_erp.State.Denials.Settled.{denied_after}
use ai_erp.State.Lookup.{Project, page_size, max_pages, has_id, look_up, on_page, project_query}

-- A server that answers each page with its hundred rows of a list.
abbrev pub paged : List Project → ℕ → Outcome (List Project)
paged rows page = value (take page_size (drop (page * page_size) rows))

drop-nil : {A : Type 0} (n : ℕ) (xs : List A) → length xs ≤ n → drop n xs ≡ []
drop-nil zero [] h = refl
drop-nil (suc n) [] h = refl
drop-nil zero (x ∷ xs) h = absurd (omega arith)
drop-nil (suc n) (x ∷ xs) h = drop-nil n xs (omega arith)

drop-drop : {A : Type 0} (n m : ℕ) (xs : List A) → drop n (drop m xs) ≡ drop (m + n) xs
drop-drop n zero xs = let e : zero + n ≡ n = omega arith in rw e
drop-drop n (suc m) [] = drop-nil n [] (omega arith) ∙ sym (drop-nil (suc m + n) [] (omega arith))
drop-drop n (suc m) (x ∷ xs) =
    let e : suc m + n ≡ suc (m + n) = omega arith in rw e (drop-drop n m xs)

-- A page and what follows it, searched one after the other.
find-page :
    (id : String) (rows : List Project)
    → find (has_id id) rows
      ≡ or_find (find (has_id id) (take page_size rows)) (find (has_id id) (drop page_size rows))
find-page id rows =
    ap (find (has_id id)) (sym (take-append-drop page_size rows))
    ∙ find-append (has_id id) (take page_size rows) (drop page_size rows)

short_page :
    (id : String) (rows : List Project)
    → ltb (length (take page_size rows)) page_size ≡ true
    → find (has_id id) (drop page_size rows) ≡ none
short_page id rows h =
    let n : length rows ≤ page_size = ground (arith, length-take page_size rows) in
    rw (drop-nil page_size rows n)

on_page-find :
    (id : String) (rows more : List Project) (later : Outcome (Option Project))
    → later ≡ value (find (has_id id) more)
    → (ltb (length rows) page_size ≡ true → find (has_id id) more ≡ none)
    → on_page id rows later ≡ value (or_find (find (has_id id) rows) (find (has_id id) more))
unfolding on_page
on_page-find id rows more later e short = ground (arith, short)

look_up-paged_from :
    (left page : ℕ) (rows : List Project) (id : String)
    → length rows ≤ (page + left) * page_size
    → look_up left page (paged rows) id ≡ value (find (has_id id) (drop (page * page_size) rows))
unfolding look_up
look_up-paged_from zero page rows id h = rw (drop-nil (page * page_size) rows (omega arith))
look_up-paged_from (suc left) page rows id h =
    let rest = drop (page * page_size) rows in
    let next : drop ((page + 1) * page_size) rows ≡ drop page_size rest =
      ap (λ n. drop n rows) (omega arith) ∙ sym (drop-drop page_size (page * page_size) rows) in
    on_page-find id (take page_size rest) (drop page_size rest) _
      (look_up-paged_from left (page + 1) rows id (omega arith)
        ∙ ap (λ r. value (find (has_id id) r)) next)
      (short_page id rest)
    ∙ ap value (sym (find-page id rest))

-- Over a project list of at most 1,000,100 rows the paged lookup ends with what a search of the whole
-- list gives.
pub look_up-paged :
    (rows : List Project) (id : String)
    → length rows ≤ max_pages * page_size
    → look_up max_pages 0 (paged rows) id ≡ value (find (has_id id) rows)
look_up-paged rows id h = look_up-paged_from max_pages 0 rows id (omega arith)

-- The next `n` pages are full, and the project is in none of them.
abbrev pub FullPages : (ℕ → Outcome (List Project)) → String → ℕ → ℕ → Type 0
FullPages reader id page zero = Unit {0}
FullPages reader id page (suc n) =
    ((rows : List Project) × (reader page ≡ value rows)
      × (page_size ≤ length rows)
      × (find (has_id id) rows ≡ none))
    × FullPages reader id (page + 1) n

on_page-full :
    (id : String) (rows : List Project) (later : Outcome (Option Project))
    → page_size ≤ length rows
    → find (has_id id) rows ≡ none
    → on_page id rows later ≡ later
unfolding on_page
on_page-full id rows later full missing = ground arith

look_up_fails_from :
    (n left page : ℕ) (reader : ℕ → Outcome (List Project)) (id : String) (e : Failure)
    → n < left
    → FullPages reader id page n
    → reader (page + n) ≡ failed e
    → look_up left page reader id ≡ failed e
unfolding look_up
look_up_fails_from n zero page reader id e h full broken = absurd (omega arith)
look_up_fails_from zero (suc left) page reader id e h full broken =
    let here : reader page ≡ failed e = ap reader (omega arith) ∙ broken in rw (here, look_up)
look_up_fails_from (suc n) (suc left) page reader id e h ((rows, read, long, missing), full)
      broken =
    rw (read, look_up)
      (on_page-full id rows _ long missing
        ∙ look_up_fails_from n left (page + 1) reader id e (omega arith) full
            (ap reader (omega arith) ∙ broken))

-- If the first pages are full and without the project and the next one fails, the query fails as
-- that page did, and a failure with 403 or 404 leaves the project refused.
pub project_query_fails :
    (key id : String) (waiting : List StoreEvent) (reader : ℕ → Outcome (List Project)) (s : Store)
    (n : ℕ) (e : Failure)
    → n < max_pages
    → FullPages reader id 0 n
    → reader n ≡ failed e
    → ((project_query key id waiting reader s).1 ≡ failed e)
      × (has_access_denial key (project_query key id waiting reader s).0
          ≡ (is_access_error e || has_access_denial key (run waiting s)))
unfolding project_query
project_query_fails key id waiting reader s n e h full broken =
    let out : look_up max_pages 0 reader id ≡ failed e =
      look_up_fails_from n max_pages 0 reader id e h full (ap reader (omega arith) ∙ broken) in
    (out, rw out (denied_after (Option Project) key (begin_access_read key s) e (run waiting s)))

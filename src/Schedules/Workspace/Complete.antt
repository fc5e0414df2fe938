-- ===== src/Schedules/Workspace/Complete.antt =====
-- What is read of a calendar from a server that may answer anything.
use ai_erp.Base.{
  ℕ, zero, suc, ◌+◌, ◌≤◌, ◌≡◌, refl, String, Bool, true, false, ◌||◌, List, arith, ◌==◌, length,
  if◌then◌else◌, Bool-cases, inl, inr, ◌⊎◌, ◌↔◌, sym, ap, ◌∙◌,
}
use ai_erp.State.{Store}
use ai_erp.State.Denials.{Failure, other_error, Outcome, value, failed, is_access_error}
use ai_erp.State.Events.{StoreEvent}
use ai_erp.Schedules.Workspace.{
  WorkspacePage, WorkspaceCalendar, Progress, add_page, whole, part, on_page_failed, on_pages_left,
  page_failed, on_answer, read_pages, read_workspace_calendar, start_progress, max_pages,
  after_page,
}

-- The pages from `page` on that the answers give, up to the last one, and what they set.
pub data Reads (reader : ℕ → Outcome WorkspacePage) : ℕ → ℕ → Progress → Progress → Type 0 where
  last_page :
      {page : ℕ} {g : Progress} (p : WorkspacePage)
      → reader page ≡ value p
      → p.has_more ≡ false
      → Reads reader page 1 g (add_page p g)
  next_page :
      {page n : ℕ} {g h : Progress} (p : WorkspacePage)
      → reader page ≡ value p
      → p.has_more ≡ true
      → Reads reader (page + 1) n (add_page p g) h
      → Reads reader page (suc n) g h

Outcome-cases :
    {A : Type 0} (o : Outcome A) → ((e : Failure) × (o ≡ failed e)) ⊎ ((a : A) × (o ≡ value a))
Outcome-cases (failed e) = inl (e, refl)
Outcome-cases (value a) = inr (a, refl)

value-inj : {A : Type 0} (a b : A) → Outcome.value a ≡ value b → a ≡ b
value-inj a b h = cc

failed-value : {A : Type 0} (e : Failure) (a : A) → Outcome.failed e ≡ value a → ⊥
failed-value e a h = cc

-- A calendar of all pages up to the last one, of which there are at most `left`.
abbrev pub IsWhole : (ℕ → Outcome WorkspacePage) → ℕ → ℕ → Progress → WorkspaceCalendar → Type 0
IsWhole reader page left g v =
    (n : ℕ) × (h : Progress) × (n ≤ left) × Reads reader page n g h × (v ≡ whole h)

on_page_failed-partial :
    (require_complete : Bool) (e : Failure) (g : Progress) (v : WorkspaceCalendar)
    → on_page_failed require_complete e g ≡ value v
    → (v.partial ≡ true) × (require_complete ≡ false)
unfolding on_page_failed
on_page_failed-partial require_complete e g v h =
    elim (Bool-cases (require_complete || is_access_error e || length g.found == 0)) [
      | inl over ↦ absurd (failed-value e v (rw over at h))
      | inr going ↦
          let same = value-inj (part g page_failed) v (rw going at h) in
          (sym (ap (λ c. c.partial) same), ground arith)
    ]

on_pages_left-partial :
    (require_complete : Bool) (g : Progress) (v : WorkspaceCalendar)
    → on_pages_left require_complete g ≡ value v
    → (v.partial ≡ true) × (require_complete ≡ false)
unfolding on_pages_left
on_pages_left-partial true g v h = absurd (failed-value other_error v h)
on_pages_left-partial false g v h = (sym (ap (λ c. c.partial) (value-inj _ v h)), refl)

absurd-partial : (v : WorkspaceCalendar) → v.partial ≡ true → v.partial ≡ false → ⊥
absurd-partial v h k = ground arith

module _ (key : ℕ → String) (reader : ℕ → Outcome WorkspacePage)
    (waiting : ℕ → List StoreEvent) where
  whole-Reads :
      (page left : ℕ) (g : Progress) (p : WorkspacePage) (v : WorkspaceCalendar)
      → reader page ≡ value p
      → p.has_more ≡ false
      → Outcome.value (whole (add_page p g)) ≡ value v
      → IsWhole reader page (suc left) g v
  whole-Reads page left g p v e last h =
      (1, add_page p g, omega arith, last_page p e last, sym (value-inj _ v h))

  more-Reads :
      (page left : ℕ) (g : Progress) (p : WorkspacePage) (v : WorkspaceCalendar)
      → reader page ≡ value p
      → p.has_more ≡ true
      → IsWhole reader (page + 1) left (add_page p g) v
      → IsWhole reader page (suc left) g v
  more-Reads page left g p v e more (n, h, few, reads, same) =
      (suc n, h, omega arith, next_page p e more reads, same)

  -- One turn of the loop, by the answer.
  read_pages-turn :
      (require_complete : Bool) (left page : ℕ) (g : Progress) (s : Store)
      (o : Outcome WorkspacePage)
      → reader page ≡ o
      → read_pages key reader waiting require_complete (suc left) page g s ≡ (
          let t = after_page key reader waiting page s in
          on_answer require_complete g t
            (λ p. read_pages key reader waiting require_complete left (page + 1) (add_page p g) t)
            o)
  unfolding read_pages
  read_pages-turn require_complete left page g s o e =
      let t = after_page key reader waiting page s in
      ap
        (on_answer require_complete g t
          (λ p. read_pages key reader waiting require_complete left (page + 1) (add_page p g) t))
        e

  answer-value :
      (require_complete : Bool) (left page : ℕ) (g : Progress) (s : Store) (v : WorkspaceCalendar)
      (o : Outcome WorkspacePage)
      → reader page ≡ o
      → (read_pages key reader waiting require_complete (suc left) page g s).1 ≡ value v
      → (let t = after_page key reader waiting page s in
          (on_answer require_complete g t
            (λ p. read_pages key reader waiting require_complete left (page + 1) (add_page p g) t)
            o).1)
        ≡ value v
  answer-value require_complete left page g s v o e h =
      sym (ap (λ r. r.1) (read_pages-turn require_complete left page g s o e)) ∙ h

  read_pages_sound :
      (require_complete : Bool) (left page : ℕ) (g : Progress) (s : Store) (v : WorkspaceCalendar)
      → (read_pages key reader waiting require_complete left page g s).1 ≡ value v
      → ((v.partial ≡ true) × (require_complete ≡ false)) ⊎ IsWhole reader page left g v
  unfolding read_pages
  read_pages_sound require_complete zero page g s v h =
      inl (on_pages_left-partial require_complete g v h)
  read_pages_sound require_complete (suc left) page g s v h = elim (Outcome-cases (reader page)) [
    | inl (e, failing) ↦ inl (
        on_page_failed-partial require_complete e g v
          (answer-value require_complete left page g s v (failed e) failing h))
    | inr (p, answered) ↦ elim (Bool-cases p.has_more) [
      | inr last ↦ inr (
          whole-Reads page left g p v answered last
            (rw last at (answer-value require_complete left page g s v (value p) answered h)))
      | inl more ↦
          elim (read_pages_sound require_complete left (page + 1) (add_page p g) _ v
            (rw more at (answer-value require_complete left page g s v (value p) answered h))) [
              | inl partial ↦ inl partial
              | inr rest ↦ inr (more-Reads page left g p v answered more rest)
            ]
    ]
  ]

  read_pages-whole :
      (require_complete : Bool) (left page n : ℕ) (g h : Progress) (s : Store)
      → Reads reader page n g h
      → n ≤ left
      → (read_pages key reader waiting require_complete left page g s).1 ≡ value (whole h)
  read_pages-whole require_complete zero page n g h s (last_page p e last) few =
      absurd (omega arith)
  read_pages-whole require_complete zero page (suc n) g h s (next_page p e more reads) few =
      absurd (omega arith)
  read_pages-whole require_complete (suc left) page n g h s (last_page p e last) few =
      ap (λ r. r.1) (read_pages-turn require_complete left page g s (value p) e) ∙ rw last refl
  read_pages-whole require_complete (suc left) page (suc n) g h s (next_page p e more reads) few =
      ap (λ r. r.1) (read_pages-turn require_complete left page g s (value p) e)
      ∙ ap
          (λ b.
            (if b
              then read_pages key reader waiting require_complete left (page + 1) (add_page p g)
                  (after_page key reader waiting page s)
              else (after_page key reader waiting page s, value (whole (add_page p g)))).1)
          more
      ∙ read_pages-whole require_complete left (page + 1) n (add_page p g) h
          (after_page key reader waiting page s) reads (omega arith)

  whole-left :
      (v : WorkspaceCalendar)
      → v.partial ≡ false
      → {P W : Type 0} → ((v.partial ≡ true) × P) ⊎ W
      → W
  whole-left v h (inl (k, p)) = absurd (absurd-partial v k h)
  whole-left v h (inr w) = w

  whole-read :
      (require_complete : Bool) (s : Store) (v : WorkspaceCalendar)
      → IsWhole reader 0 max_pages start_progress v
      → ((read_workspace_calendar key reader waiting require_complete s).1 ≡ value v)
        × (v.partial ≡ false)
  whole-read require_complete s v (n, h, few, reads, e) =
      let read = read_pages-whole require_complete max_pages 0 n start_progress h s reads few in
      (read ∙ ap value (sym e), ap (λ c. c.partial) e)

  -- Whatever the server answers and happens to the store: the calendar that is read is one that is
  -- not marked as partial exactly if the server answers at most ten pages of which the last one says
  -- that no more follow, and it has their records, total and groups.
  pub read_workspace_calendar-Reads :
      (require_complete : Bool) (s : Store) (v : WorkspaceCalendar)
      → (((read_workspace_calendar key reader waiting require_complete s).1 ≡ value v)
          × (v.partial ≡ false))
        ↔ IsWhole reader 0 max_pages start_progress v
  read_workspace_calendar-Reads require_complete s v = (
    λ found.
        whole-left v (found.1)
          (read_pages_sound require_complete max_pages 0 start_progress s v (found.0)),
    λ whole. whole-read require_complete s v whole,
  )

-- ===== src/Schedules/Workspace/Tests.antt =====
-- A calendar of two rows, and a server that fails on the way.
use ai_erp.Base.{ℕ, zero, suc, ◌≡◌, refl, String, true, false, List, [], ◌∷◌, ◌↔◌}
use ai_erp.Base.Dict.{put}
use ai_erp.State.{empty_store}
use ai_erp.State.Denials.{Outcome, value, failed, api_error}
use ai_erp.Schedules.Workspace.{
  WorkspaceRecord, WorkspacePage, read_workspace_calendar, start_progress, max_pages, page_failed,
  part, add_page, read_pages,
}
use ai_erp.Schedules.Workspace.Complete.{IsWhole, read_workspace_calendar-Reads}
use ai_erp.Schedules.Workspace.Loaded.{paged, all_rows, read_workspace_calendar-paged}

abbrev key : ℕ → String
key page = "calendar"

abbrev two_rows : List WorkspaceRecord
two_rows =
    record { schedule_id = "a"; title = "A" } ∷ record { schedule_id = "b"; title = "B" } ∷ []

-- The first page is there, and the next one fails.
abbrev torn : ℕ → Outcome WorkspacePage
torn zero = value (record { records = two_rows; total = 300; has_more = true; groups = [] })
torn (suc page) = failed (api_error 500)

torn_calendar :
    (read_workspace_calendar key torn (λ page. []) false empty_store).1
    ≡ value (
        part
          (add_page
            (record { records = two_rows; total = 300; has_more = true; groups = [] })
            start_progress)
          page_failed)
unfolding read_pages put
torn_calendar = refl

torn_required :
    (read_workspace_calendar key torn (λ page. []) true empty_store).1 ≡ failed (api_error 500)
unfolding read_pages
torn_required = refl

read_workspace_calendar-paged_example :
    (read_workspace_calendar key (paged two_rows []) (λ page. []) true empty_store).1
    ≡ value (all_rows two_rows [])
read_workspace_calendar-paged_example =
    read_workspace_calendar-paged key (λ page. []) two_rows [] true empty_store refl

read_workspace_calendar-Reads_example :
    (((read_workspace_calendar key (paged two_rows []) (λ page. []) false empty_store).1
        ≡ value (all_rows two_rows []))
      × (false ≡ false))
    ↔ IsWhole (paged two_rows []) 0 max_pages start_progress (all_rows two_rows [])
read_workspace_calendar-Reads_example =
    read_workspace_calendar-Reads key (paged two_rows []) (λ page. []) false empty_store
      (all_rows two_rows [])

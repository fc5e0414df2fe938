-- ===== src/GoogleReturn/Tests.antt =====
-- Runs of the Google return context, and its theorems at concrete inputs.
use ai_erp.Base.{◌≡◌, refl, true, false, none, some}
use ai_erp.Browser.{Browser, object, text, number, finite}
use ai_erp.GoogleReturn.{is_google_project_files_path, get_google_return_context}
use ai_erp.GoogleReturn.Laws.{IsSound, get_google_return_context-IsSound}

paths :
    (is_google_project_files_path "/projects/p-1_A/files" ≡ true)
    × (is_google_project_files_path "/projects//files" ≡ false)
    × (is_google_project_files_path "/projects/a/files/x" ≡ false)
    × (is_google_project_files_path "https://evil/projects/a/files" ≡ false)
unfolding is_google_project_files_path
paths = (refl, refl, refl, refl)

abbrev tab : Browser
tab = record {
  has_window = true;
  storage_works = true;
  google_return = some (object (text "u") (text "/projects/p/files") (number (finite 1000)));
  invitation = none;
  expired_events = 0;
}

get_google_return_context-IsSound_example :
    IsSound "u" 1500 (record { user_id = "u"; return_to = "/projects/p/files"; created_at = 1000 })
unfolding get_google_return_context
get_google_return_context-IsSound_example = get_google_return_context-IsSound tab "u" 1500 _ refl

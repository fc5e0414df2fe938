-- ===== src/ProjectStart/Tests.antt =====
-- A page whose first request is lost, and the theorems at it.
use ai_erp.Base.{◌≡◌, refl, String, true, false, Option, none, some, List, [], ◌∷◌}
use ai_erp.Base.Dict.{get, put}
use ai_erp.Browser.{text}
use ai_erp.Session.{terminates, happen}
use ai_erp.State.{empty_store}
use ai_erp.State.Denials.{api_error, value, failed}
use ai_erp.Base.Lists.{remove_at}
use ai_erp.ProjectStart.{
  Body, Created, Request, Page, PageEvent, submits, checks_result, replies, run, reply, invalidated,
  step, checked_created,
}
use ai_erp.ProjectStart.Attempt.{IsOrdered, run-IsOrdered}
use ai_erp.ProjectStart.Retry.{IsRetry, run-IsRetry}

abbrev first_page : Page
first_page = record {
  session = record {
    generation = 1;
    terminated = false;
    browser = record {
      has_window = true;
      storage_works = true;
      google_return = none;
      invitation = none;
      expired_events = 0;
    };
  };
  store = empty_store;
  open_requests = [];
  sent = [];
  error = false;
  opened = none;
}

abbrev same_text : String → String
same_text s = s

abbrev plan_body : Body
plan_body = record { name = "Plan"; request_id = "r1" }

abbrev waiting_page : Page
waiting_page = record first_page {
  store = record empty_store {
    create_attempts =
        ("1", record { name = "Plan"; request_id = "r1"; uncertain = false; pending = true }) ∷ [];
  };
  open_requests = record { body = plan_body; context = 1; answered = none } ∷ [];
  sent = plan_body ∷ [];
}

abbrev lost_answers : List PageEvent
lost_answers =
    submits false "Other" "r2"
    ∷ replies 0 (failed (api_error 502))
    ∷ submits false "Other" "r3"
    ∷ checks_result
    ∷ replies 0 (value none)
    ∷ []

abbrev made : Option Created
made =
    some (record { id = text "p"; group_id = text "g"; name = text "Plan"; role = text "MANAGER" })

lost_answers-sent : (run "1" same_text lost_answers waiting_page).sent ≡ plan_body ∷ plan_body ∷ []
unfolding run step get put remove_at
lost_answers-sent = refl

run-IsOrdered_example : IsOrdered "1" same_text (run "1" same_text lost_answers waiting_page)
unfolding get
run-IsOrdered_example = run-IsOrdered "1" same_text lost_answers waiting_page (refl, refl, refl)

waiting_page-IsRetry : IsRetry "1" plan_body waiting_page
unfolding get
waiting_page-IsRetry = record {
  attempt = record { name = "Plan"; request_id = "r1"; uncertain = false; pending = true };
  found = refl;
  same = refl;
  undecided = refl;
  waiting = ((refl, refl), tt);
  only = (refl, tt);
}

run-IsRetry_example : IsRetry "1" plan_body (run "1" same_text lost_answers waiting_page)
unfolding checked_created
run-IsRetry_example =
    run-IsRetry "1" same_text plan_body lost_answers waiting_page refl waiting_page-IsRetry

abbrev only_request : Request
only_request = record { body = plan_body; context = 1; answered = none }

abbrev opened_page : Page
opened_page =
    invalidated "1" same_text 0 (record (reply "1" same_text 0 (value made) waiting_page) {
      session = happen (terminates (some 9)) waiting_page.session;
    })

-- ===== src/Api/Tests.antt =====
-- Runs of the client, and its theorems at concrete inputs.
use ai_erp.Base.{
  ℕ, suc, ◌≡◌, refl, ◌≤◌, String, true, false, none, some, List, [], ◌∷◌, arith, length, all,
}
use ai_erp.Browser.{text, other, missing}
use ai_erp.Session.{Session, is_session_active, run, begins}
use ai_erp.Api.{
  Response, returned, object, entry, no_object, problem_of, parse, Exchange, read, Csrf, mutate,
  arrived, with_csrf, send, settle, own_logout,
}
use ai_erp.Api.Burst.{answered, answered-once}
use ai_erp.Api.Boundary.{mutate_sent_active, mutate_returned_active}
use ai_erp.Api.Replies.{mutate_succeeds}

abbrev open_tab : Session
open_tab = record {
  generation = 3;
  terminated = false;
  browser = record {
    has_window = true;
    storage_works = true;
    google_return = none;
    invitation = none;
    expired_events = 0;
  };
}

abbrev answer : ℕ → Response ℕ
answer status = record { status = status; value = some 7; problem = none }

abbrev quick : ℕ → Exchange ℕ
quick status = record { before = []; response = some (answer status); during = [] }

abbrev token : Csrf
token = record { header_name = "X-CSRF"; token = "t" }

abbrev token_answer : Response Csrf
token_answer = record { status = 200; value = some token; problem = none }

abbrev token_read : Exchange Csrf
token_read = record { before = []; response = some token_answer; during = [] }

readable :
    problem_of (
      some (
        object
          (text "TAKEN")
          other
          (some (no_object ∷ entry (text "name") (text "long") ∷ entry missing other ∷ []))))
    ≡ record { code = some "TAKEN"; trace_id = none; field_errors = some (("name", "long") ∷ []) }
unfolding problem_of
readable = refl

abbrev three_reads : List (String × Response ℕ)
three_reads =
    ("/api/v1/me", answer 200)
    ∷ ("/api/v1/projects", answer 401)
    ∷ ("/api/v1/notifications", answer 401)
    ∷ []

answered-once_example :
    (is_session_active 3 (answered 3 three_reads open_tab) ≡ false)
    × ((answered 3 three_reads open_tab).browser.expired_events
        ≡ suc open_tab.browser.expired_events)
    × (answered 3 three_reads (run (begins ∷ []) (answered 3 three_reads open_tab))
        ≡ run (begins ∷ []) (answered 3 three_reads open_tab))
unfolding is_session_active
answered-once_example = answered-once 3 three_reads three_reads [] open_tab refl refl

mutate_sent_active_example :
    (all
        (λ q. is_session_active 3 q.session)
        (mutate "/api/v1/logout" "POST" none token_read (quick 200) open_tab).sent
      ≡ true)
    × (length (mutate "/api/v1/logout" "POST" none token_read (quick 200) open_tab).sent ≤ 1)
mutate_sent_active_example =
    mutate_sent_active "/api/v1/logout" "POST" none token_read (quick 200) open_tab

mutate_returned_active_example :
    is_session_active 3
      (mutate "/api/v1/logout" "POST" none token_read (quick 200) open_tab).session
    ≡ false
unfolding mutate with_csrf send settle own_logout read arrived parse run
mutate_returned_active_example =
    mutate_returned_active "/api/v1/logout" "POST" none token_read (quick 200) open_tab refl

mutate_succeeds_example :
    mutate "/api/v1/projects" "POST" none token_read (quick 200) open_tab ≡ record {
      session = open_tab;
      sent =
          record {
            path = "/api/v1/projects";
            method = "POST";
            body = none;
            csrf = token;
            session = open_tab;
          }
          ∷ [];
      result = returned (some 7);
    }
unfolding is_session_active run
mutate_succeeds_example =
    mutate_succeeds "/api/v1/projects" "POST" none token_read token_answer token (quick 200)
      (answer 200) 7 open_tab refl refl refl (omega arith) refl refl refl (omega arith) refl refl

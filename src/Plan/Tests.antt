-- ===== src/Plan/Tests.antt =====
-- A plan in which two topics are each the other's parent.
use ai_erp.Base.{ℕ, ◌+◌, ◌≤◌, ◌<◌, ◌≡◌, refl, String, false, none, some, List, [], ◌∷◌, length}
use ai_erp.Base.Dict.{Dict, get, put}
use ai_erp.Overview.{PlanItem, PlanSummary, topic, ready, complete, by_id}
use ai_erp.Plan.{walk, path_for, parent_path_for, valid_parent}
use ai_erp.Plan.Path.{path_for-Ends}

abbrev no_work : PlanSummary
no_work = record {
  task_count = 0;
  done_count = 0;
  blocked_count = 0;
  overdue_count = 0;
  progress_percent = none;
  forecast_state = complete;
  outside_target = false;
}

abbrev first_topic : PlanItem
first_topic = record {
  id = "a";
  parent_id = some "b";
  kind = topic;
  title = "First";
  assignee_id = none;
  state = ready;
  target_start = none;
  target_end = none;
  deadline = none;
  sort_order = 0;
  blocker_ids = [];
  summary = no_work;
}

abbrev second_topic : PlanItem
second_topic = record first_topic { id = "b"; parent_id = some "a"; title = "Second" }

abbrev ring : Dict PlanItem
ring = by_id (first_topic ∷ second_topic ∷ []) []

ring_path : path_for 4 ring first_topic ≡ some ("Second" ∷ "First" ∷ [])
unfolding walk by_id get put
ring_path = refl

ring_parent : parent_path_for 4 ring first_topic ≡ some (some ("First" ∷ "Second" ∷ []))
unfolding walk by_id get put
ring_parent = refl

no_topic_below_topic : valid_parent topic (some second_topic) ≡ false
unfolding valid_parent
no_topic_below_topic = refl

path_for-Ends_example :
    (p : List String) × (length p ≤ length ring + 1)
    × ((fuel : ℕ) → length ring + 1 < fuel → path_for fuel ring first_topic ≡ some p)
path_for-Ends_example = path_for-Ends ring first_topic

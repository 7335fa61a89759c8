-- ===== src/Tests/Subagents.antt =====
-- Starts and stops of subagents.
use devmate.Prelude.{none, false, [], refl, ◌≡◌, arith}
use devmate.Json.{Json, obj, nil, cons, get}
use devmate.TaskState.Validate.{state_errors, gates_valid_for_lane}
use devmate.TaskState.Validate.Laws.{state_errors_iff}
use devmate.TaskState.Store.{World, holds}
use devmate.TaskState.Store.Laws.{read-print}
use devmate.Prelude.Text.{is_blank}
use devmate.Subagents.{
  Agent, entry_json, add_active_agent, remove_active_agent, handle_subagent_start,
  handle_subagent_stop,
}
use devmate.Subagents.Ceiling.{IsBounded, here, starts, stops, Traffic-IsBounded}
use devmate.Tests.Samples.{plain_json, quiet_host, task_at}
use devmate.Tests.Evidence.{same_text}

abbrev first_tester : Agent
first_tester = record { name = "tester"; id = "a-1" }

abbrev second_tester : Agent
second_tester = record { name = "tester"; id = "a-2" }

abbrev unknown_tester : Agent
unknown_tester = record { name = "tester"; id = "" }

-- Two dispatches of one agent are two entries, and a stop without an id removes one of them.
roster_run :
    remove_active_agent
      (add_active_agent (add_active_agent nil first_tester) second_tester)
      unknown_tester
    ≡ cons (entry_json second_tester) nil
unfolding add_active_agent remove_active_agent get
roster_run = refl

abbrev before : World Json
before = record { file = holds (obj (task_at "chore" "impl-started")); log = [] }

before-IsBounded : IsBounded plain_json 3 before
before-IsBounded = (
  task_at "chore" "impl-started",
  read-print plain_json (task_at "chore" "impl-started") (
      (state_errors_iff (task_at "chore" "impl-started")).0
        (unfold state_errors get gates_valid_for_lane is_blank in refl)),
  unfold get in omega arith,
)

Traffic-IsBounded_example : IsBounded plain_json 3 (
    handle_subagent_stop plain_json quiet_host 3 unknown_tester before
      (handle_subagent_start plain_json quiet_host 3 same_text same_text none false first_tester
        before before).1)
Traffic-IsBounded_example = Traffic-IsBounded plain_json 3 before-IsBounded (
    stops quiet_host unknown_tester before
      (starts quiet_host same_text same_text none false first_tester before here refl) refl)

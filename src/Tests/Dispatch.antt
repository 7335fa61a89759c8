-- ===== src/Tests/Dispatch.antt =====
-- Dispatches of agents.
use devmate.Prelude.{String, [], ◌∷◌, true, false, Option, some, ◌≡◌, refl, ◌↔◌}
use devmate.Prelude.Table.{get_own}
use devmate.Json.{str, Fields, get, text_of}
use devmate.Gates.Tables.{feature_table}
use devmate.Gates.Edges.{OwnEdge}
use devmate.TaskState.Validate.{StateError, StateResult, ok}
use devmate.Dispatch.{
  normalize_lane, normalize_dispatched_agent, is_implementation_dispatch, has_spec_metadata, Scope,
  has_scope, allowed, evaluate_implementation_dispatch, evaluate_dispatch_sequencing, too_early,
  in_order, index_of, gate_at_least,
}
use devmate.Dispatch.Implementation.{evaluate_implementation_dispatch-allowed_iff}
use devmate.Dispatch.Sequencing.{order_of}
use devmate.Tests.Samples.{task_at}

abbrev same : String → String
same s = s

abbrev chore_start : StateResult StateError
chore_start = ok (task_at "chore" "impl-started")

abbrev full_scope : Option Scope
full_scope = some (record { present = true; non_empty = true })

evaluate_implementation_dispatch-allowed_iff_example :
    (evaluate_implementation_dispatch same (some chore_start) full_scope false ≡ allowed) ↔ (
      (state : Fields) × (some chore_start ≡ some (ok state))
      × (text_of (get state "workflowGate") ≡ "impl-started")
      × (normalize_lane same (get state "lane") ≡ "feature"
          → (has_spec_metadata state ≡ true) × (has_scope full_scope ≡ true))
      × (normalize_lane same (get state "lane") ≡ "bug"
          → (false ≡ true) × (has_scope full_scope ≡ true))
      × (normalize_lane same (get state "lane") ≡ "chore" → has_scope full_scope ≡ true))
evaluate_implementation_dispatch-allowed_iff_example =
    evaluate_implementation_dispatch-allowed_iff same (some chore_start) full_scope false

plan_edge : OwnEdge "feature" "grill-done" "finish-plan" "plan-done"
unfolding get_own
plan_edge = record {
  table = feature_table;
  events = ("finish-plan", "plan-done") ∷ [];
  lane_row = refl;
  gate_row = refl;
  event_row = refl;
}

plan_indices :
    (index_of (order_of "feature") "grill-done" ≡ some 3)
    × (index_of (order_of "feature") "plan-done" ≡ some 4)
unfolding index_of order_of
plan_indices = (refl, refl)

planner_fits :
    (normalize_lane same (some (str "feature")) ≡ "feature")
    × (evaluate_dispatch_sequencing same same "@planner" (some (str "feature")) "grill-done"
        ≡ in_order)
    × (evaluate_dispatch_sequencing same same "@planner" (some (str "feature")) "discovery-done"
        ≡ too_early "grill-done")
unfolding normalize_lane evaluate_dispatch_sequencing normalize_dispatched_agent
    is_implementation_dispatch gate_at_least get_own
planner_fits = (refl, refl, refl)

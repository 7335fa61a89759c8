-- ===== src/Tests/Gates.antt =====
-- Moves of `transitionGate`, and the gate sets.
use devmate.Prelude.{String, [], ◌∷◌, ◌≡◌, refl, ◌↔◌, ◌⊎◌, none, some, true, false, Bool}
use devmate.Prelude.Table.{get_own}
use devmate.Prelude.Text.{includes, is_blank}
use devmate.Json.{get}
use devmate.Gates.Tables.{transitions, parkable_gates, GateTable}
use devmate.Gates.Sets.{reachable_gates, legal_transitions}
use devmate.Gates.ResumePointer.{read_resume_pointer}
use devmate.Gates.Transition.{transition_gate, moved, enter, gate_of, lane_of, task_of}
use devmate.Gates.Transition.Choice.{Move}
use devmate.Gates.Transition.Exact.{transition_gate_iff}
use devmate.Gates.Transition.Safety.{
  ResumesTo, transition_gate-feature_start, transition_gate-approval, transition_gate-legal,
}
use devmate.Gatectl.{is_legal_transition}
use devmate.TaskState.Validate.Spec.{IsTaskState}
use devmate.TaskState.Moves.{transition_gate-IsTaskState_iff, leaves_lane}
use devmate.Tests.Samples.{
  approved_feature, started_bug, parked_feature, started_bug-IsTaskState, any_date, no_check,
  pointer_to,
}

start_moves :
    transition_gate any_date no_check none approved_feature "start-impl"
    ≡ moved "spec-approved" "impl-started" (enter approved_feature "impl-started")
unfolding transition_gate get
start_moves = refl

replan_moves :
    transition_gate any_date no_check none started_bug "re-plan"
    ≡ moved "impl-started" "plan-done" (enter started_bug "plan-done")
unfolding transition_gate get
replan_moves = refl

resume_moves :
    transition_gate any_date no_check (pointer_to "spec-approved") parked_feature "resume"
    ≡ moved "parked" "spec-approved" (enter parked_feature "spec-approved")
unfolding transition_gate get read_resume_pointer parkable_gates is_blank
resume_moves = refl

transition_gate_iff_example :
    (transition_gate any_date no_check none approved_feature "start-impl"
      ≡ moved "spec-approved" "impl-started" (enter approved_feature "impl-started"))
    ↔ (((table : GateTable) × (get_own transitions (lane_of approved_feature) ≡ some table))
        × ("spec-approved" ≡ gate_of approved_feature)
        × (enter approved_feature "impl-started" ≡ enter approved_feature "impl-started")
        × Move
            (read_resume_pointer any_date none)
            (lane_of approved_feature)
            (task_of approved_feature)
            (gate_of approved_feature)
            "start-impl"
            "impl-started"
        × (◌≡◌ {A = Bool} true true))
transition_gate_iff_example =
    transition_gate_iff any_date no_check none approved_feature "start-impl" "spec-approved"
      "impl-started" (enter approved_feature "impl-started")

transition_gate-feature_start_example :
    ((gate_of approved_feature ≡ "spec-approved") × (◌≡◌ {A = String} "start-impl" "start-impl"))
    ⊎ ResumesTo
        (read_resume_pointer any_date none)
        (task_of approved_feature)
        (gate_of approved_feature)
        "start-impl"
        "impl-started"
transition_gate-feature_start_example =
    transition_gate-feature_start any_date no_check none approved_feature "start-impl"
      "spec-approved" "impl-started" (enter approved_feature "impl-started") start_moves
      (unfold get in refl) refl

transition_gate-approval_example :
    ResumesTo
      (read_resume_pointer any_date (pointer_to "spec-approved"))
      (task_of parked_feature)
      (gate_of parked_feature)
      "resume"
      "spec-approved"
transition_gate-approval_example =
    transition_gate-approval any_date no_check (pointer_to "spec-approved") parked_feature "resume"
      "parked" "spec-approved" (enter parked_feature "spec-approved") resume_moves refl

transition_gate-legal_example :
    (includes (legal_transitions (lane_of approved_feature) "spec-approved") "impl-started" ≡ true)
    × (is_legal_transition "spec-approved" "impl-started" ≡ true)
transition_gate-legal_example =
    transition_gate-legal any_date no_check none approved_feature "start-impl" "spec-approved"
      "impl-started" (enter approved_feature "impl-started") start_moves

transition_gate-IsTaskState_iff_example :
    IsTaskState (get (enter started_bug "plan-done"))
    ↔ (leaves_lane (lane_of started_bug) "re-plan" ≡ false)
transition_gate-IsTaskState_iff_example =
    transition_gate-IsTaskState_iff any_date no_check none started_bug "re-plan" "impl-started"
      "plan-done" (enter started_bug "plan-done") started_bug-IsTaskState (λ e. cc) replan_moves

-- A re-plan that `transitionGate` accepts on the bug lane leaves no valid task state.
replan_leaves_bug_lane : ¬ IsTaskState (get (enter started_bug "plan-done"))
replan_leaves_bug_lane s = let h = transition_gate-IsTaskState_iff_example.0 s in unfold get in cc h

feature_reach :
    reachable_gates "feature"
    ≡ some (
        "no-lane" ∷ "lane-set" ∷ "discovery-done" ∷ "parked" ∷ "abandoned" ∷ "grill-done"
        ∷ "plan-done" ∷ "spec-draft" ∷ "spec-approved" ∷ "impl-started" ∷ "verification-passed"
        ∷ "pr-ready" ∷ "done" ∷ [])
unfolding reachable_gates
feature_reach = refl

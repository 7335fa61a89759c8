-- ===== src/Approvals/Steps.antt =====
-- What moves of a prompt keep or skip: the step of an escalated chore, and the review behind
-- `approve plan`.
use text.Mathlib.TextEquality.{eq_iff}
use devmate.Prelude.{String, false, ◌≢◌, none, some, ◌≡◌, inl, inr, refl, Bool-cases}
use devmate.Prelude.Text.{str_eq}
use devmate.Json.{Fields, get, set, str}
use devmate.Json.Laws.{get-set}
use devmate.Gates.Transition.{lane_of, gate_of}
use devmate.Approvals.Workspace.{Answers, Session}
use devmate.Approvals.Lanes.{Disk, as_feature, escalate_chore_to_feature}
use devmate.Approvals.LaneMoves.{log_lane-task}
use devmate.Approvals.Writes.{At, write_cases}

get-as_feature :
    (state : Fields) (key : String)
    → str_eq "lane" key ≡ false
    → str_eq "workflowGate" key ≡ false
    → get (as_feature state) key ≡ get state key
unfolding as_feature
get-as_feature state key l g =
    rw
      (
        get-set (set state "lane" (str "feature")) "workflowGate" key (str "plan-approved"),
        g,
        get-set state "lane" key (str "feature"),
        l,
      )
      refl

as_feature-gate : (state : Fields) → gate_of (as_feature state) ≡ "plan-approved"
unfolding as_feature
as_feature-gate state =
    rw
      (get-set (set state "lane" (str "feature")) "workflowGate" "workflowGate"
        (str "plan-approved"))
      refl

as_feature-lane : (state : Fields) → lane_of (as_feature state) ≡ "feature"
unfolding as_feature
as_feature-lane state =
    rw
      (
        get-set (set state "lane" (str "feature")) "workflowGate" "lane" (str "plan-approved"),
        get-set state "lane" "lane" (str "feature"),
      )
      refl

clash : {A : Type 0} {b : A} → some b ≢ none
clash e = cc

-- Where `escalateChoreToFeature` succeeds, the state was of the chore lane, and the file holds it in the
-- feature lane at plan-approved, at the step that it had: the step is not reset.
pub escalate_chore_to_feature-current_step :
    (s : Session) (a : Answers) (state : Fields) (reason : String) (w : Disk s)
    → (escalate_chore_to_feature s a state reason w).0 ≡ none
    → (lane_of state ≡ "chore")
      × ((next : Fields) × At s.json (escalate_chore_to_feature s a state reason w).1.task next
          × (lane_of next ≡ "feature")
          × (gate_of next ≡ "plan-approved")
          × (get next "currentStep" ≡ get state "currentStep"))
unfolding escalate_chore_to_feature
escalate_chore_to_feature-current_step s a state reason w wrote =
    elim (Bool-cases (str_eq (lane_of state) "chore")) [
      | inr l ↦ absurd (clash (rw l at wrote))
      | inl l ↦ elim (write_cases s.json a.first (as_feature state) w.task) [
        | inl (e, failed) ↦ absurd (clash (rw (l, failed) at wrote))
        | inr (task, done, at_task) ↦ (
          (eq_iff (lane_of state) "chore").0 l,
          (
            as_feature state,
            rw (l, done, log_lane-task) at_task,
            as_feature-lane state,
            as_feature-gate state,
            get-as_feature state "currentStep" refl refl,
          ),
        )
      ]
    ]

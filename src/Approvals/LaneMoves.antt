-- ===== src/Approvals/LaneMoves.antt =====
-- What a move of a lane leaves in task.json.
use devmate.Prelude.{String, Option, none, some, ◌≡◌, ◌⊎◌, inl, inr, refl, ap, ◌∙◌, Bool-cases}
use text.Mathlib.TextEquality.{eq_iff}
use devmate.Prelude.Text.{str_eq, includes}
use devmate.Json.{str, Fields, set}
use devmate.Json.Laws.{get-set}
use devmate.Gates.ResumePointer.{read_resume_pointer}
use devmate.Gates.Transition.{
  TransitionResult, moved, refused, Refusal, lane_of, gate_of, task_of, enter,
}
use devmate.Gates.Transition.Choice.{Move}
use devmate.Gates.Transition.Exact.{transition_gate_iff}
use devmate.Gates.Transition.Safety.{get-enter}
use devmate.Preconditions.Entry.{check_precondition}
use devmate.TaskState.Store.{World}
use devmate.Approvals.Workspace.{
  LaneRecord, Workspace, Answers, Session, reads_at, transition, log_lane,
}
use devmate.Approvals.Lanes.{
  Disk, feature_steering_events, steer_moved, steer_feature, as_feature, escalate_chore_to_feature,
}
use devmate.Approvals.Writes.{At, write_cases}

pub TransitionResult-cases :
    (r : TransitionResult)
    → ((why : Refusal) × (r ≡ refused why))
      ⊎ ((from to : String) × (next : Fields) × (r ≡ moved from to next))
TransitionResult-cases (refused why) = inl (why, refl)
TransitionResult-cases (moved from to next) = inr (from, to, next, refl)

pub gate_of-enter : (state : Fields) (gate : String) → gate_of (enter state gate) ≡ gate
gate_of-enter state gate = rw (get-enter state gate "workflowGate") refl

-- A line of the lanes' log leaves task.json alone.
pub log_lane-task :
    {Text : Type 0} (o : Option String) (entry : LaneRecord) (w : Workspace Text)
    → (log_lane o entry w).task ≡ w.task
log_lane-task (some _) entry w = refl
log_lane-task none entry w = refl

module _ (s : Session) where
  -- What a transition in the state directory of the session has moved.
  pub transition-moved :
      (w : Disk s) (state : Fields) (event from to : String) (next : Fields)
      → transition s w state event ≡ moved from to next
      → (from ≡ gate_of state)
        × (next ≡ enter state to)
        × Move
            (read_resume_pointer s.is_date (s.reads.artifact "resume-pointer.json"))
            (lane_of state)
            (task_of state)
            (gate_of state)
            event
            to
  unfolding transition
  transition-moved w state event from to next h =
      let (_, f, n, m, _) =
        (transition_gate_iff s.is_date
            (check_precondition s.trim s.same_bytes s.parse_date s.is_date s.show_missing
              (reads_at s w))
            (s.reads.artifact "resume-pointer.json") state event from to next).0
          h in
      (f, n, m)

  -- The file is as it was, or holds a state at a gate of which `P` holds.
  abbrev pub Leaves : (String → Type 0) → World s.json.Text → World s.json.Text → Type 0
  Leaves P task task' =
      (task' ≡ task) ⊎ ((state : Fields) × At s.json task' state × P (gate_of state))

  module _ (a : Answers) where
    -- A steering move leaves the file alone, or is at the target of its event, from impl-started.
    pub steer_feature-Leaves :
        (state : Fields) (event to : String) (w : Disk s)
        → ((from to' : String) (next : Fields)
            → transition s w state event ≡ moved from to' next
            → to' ≡ to)
        → Leaves
            (λ gate. (gate ≡ to) × (gate_of state ≡ "impl-started"))
            w.task
            (steer_feature s a state event w).1.task
    unfolding steer_feature
    steer_feature-Leaves state event to w target =
        elim (Bool-cases (includes feature_steering_events event)) [
          | inr i ↦ rw i (inl refl)
          | inl i ↦ rw i (elim (Bool-cases (str_eq (gate_of state) "impl-started")) [
            | inr g ↦ rw g (inl refl)
            | inl g ↦ rw g (
                steered_on (transition s w state event) (λ from to' next m.
                  let (_, n, _) = transition-moved w state event from to' next m in
                  (
                    ap gate_of n ∙ (gate_of-enter state to' ∙ target from to' next m),
                    (eq_iff (gate_of state) "impl-started").0 g,
                  )))
          ])
        ]
      where
        steered_on :
            (r : TransitionResult)
            → ((from to' : String) (next : Fields)
                → r ≡ moved from to' next
                → (gate_of next ≡ to) × (gate_of state ≡ "impl-started"))
            → Leaves
                (λ gate. (gate ≡ to) × (gate_of state ≡ "impl-started"))
                w.task
                (steer_moved s a event r w).1.task
        steered_on (refused why) p = inl refl
        steered_on (moved from to' next) p = elim (write_cases s.json a.first next w.task) [
          | inl (e, failed) ↦ inl (rw failed refl)
          | inr (task, wrote, at_task) ↦
              inr (next, rw (wrote, log_lane-task) at_task, p from to' next refl)
        ]

    gate_of-as_feature : (state : Fields) → gate_of (as_feature state) ≡ "plan-approved"
    unfolding as_feature
    gate_of-as_feature state =
        rw
          (get-set (set state "lane" (str "feature")) "workflowGate" "workflowGate"
            (str "plan-approved"))
          refl

    pub escalate_chore_to_feature-Leaves :
        (state : Fields) (reason : String) (w : Disk s)
        → Leaves
            (λ gate. gate ≡ "plan-approved")
            w.task
            (escalate_chore_to_feature s a state reason w).1.task
    unfolding escalate_chore_to_feature
    escalate_chore_to_feature-Leaves state reason w =
        elim (Bool-cases (str_eq (lane_of state) "chore")) [
          | inr l ↦ rw l (inl refl)
          | inl l ↦ rw l (elim (write_cases s.json a.first (as_feature state) w.task) [
            | inl (e, failed) ↦ inl (rw failed refl)
            | inr (task, wrote, at_task) ↦
                inr (as_feature state, rw (wrote, log_lane-task) at_task, gate_of-as_feature state)
          ])
        ]

-- ===== src/Approvals/SteeringGates.antt =====
-- The gates that the steering phrases can lead to.
use text.Mathlib.TextEquality.{eq_iff}
use devmate.Prelude.{String, Option, none, some, ◌≡◌, inl, inr, refl, Bool-cases}
use devmate.Prelude.Text.{str_eq}
use devmate.Json.{Fields}
use devmate.Gates.Transition.{moved, lane_of, gate_of, task_of}
use devmate.TaskState.Validate.{ok}
use devmate.Approvals.Workspace.{Answers, Session, transition}
use devmate.Approvals.Lanes.{LaneMove, started, stopped, Disk, steer_feature}
use devmate.Approvals.Phrases.{after_colon, or_text}
use devmate.Approvals.Commands.{
  steering_traced, after_steering, note_json, steer_with_note, captures, steer_of,
  handle_steering_phrase,
}
use devmate.Approvals.LaneMoves.{transition-moved, steer_feature-Leaves}
use devmate.Approvals.Starts.{Move-revise, Move-re_plan}
use devmate.Approvals.Gates.{Lands}
use devmate.Approvals.ApprovalGates.{landed}
use devmate.Approvals.Writes.{At}

module _ (s : Session) (a : Answers) where
  -- Where a steering phrase leads.
  abbrev pub SteerMove : String → Fields → String → Type 0
  SteerMove target state to =
      (lane_of state ≡ "feature") × (gate_of state ≡ "impl-started") × (to ≡ target)

  steering_traced-same :
      (raw event reason from to task : String) (o : Option String) (w : Disk s)
      → (steering_traced s a raw event reason from to task o w).task ≡ w.task
  steering_traced-same raw event reason from to task none w = refl
  steering_traced-same raw event reason from to task (some m) w = refl

  after_steering-same :
      (raw event reason task : String) (r : LaneMove × Disk s)
      → (after_steering s a raw event reason task r).1.task ≡ r.1.task
  after_steering-same raw event reason task (stopped stop, w) = refl
  after_steering-same raw event reason task (started from to next, w) =
      steering_traced-same raw event reason from to task a.traced w

  -- The event's only target.
  abbrev pub Targets : String → String → Type 0
  Targets event target =
      (w : Disk s) (state : Fields) (from to : String) (next : Fields)
      → transition s w state event ≡ moved from to next
      → to ≡ target

  pub revise-Targets : Targets "revise-scope" "spec-draft"
  revise-Targets w state from to next m =
      Move-revise _ (lane_of state) _ (gate_of state) to
        (transition-moved s w state "revise-scope" from to next m).2

  pub re_plan-Targets : Targets "re-plan" "plan-done"
  re_plan-Targets w state from to next m =
      Move-re_plan _ (lane_of state) _ (gate_of state) to
        (transition-moved s w state "re-plan" from to next m).2

  steered-Lands :
      (raw event reason target : String) (state : Fields) (w : Disk s)
      → Targets event target
      → lane_of state ≡ "feature"
      → At s.json w.task state
      → Lands s
          (SteerMove target state)
          state
          (after_steering s a raw event reason
            (task_of state)
            (steer_feature s a state event w)).1.task
  steered-Lands raw event reason target state w targets lane at_state =
      rw (after_steering-same raw event reason (task_of state) (steer_feature s a state event w)) (
        steers (
          landed s a (λ gate. (gate ≡ target) × (gate_of state ≡ "impl-started")) state w.task
            (steer_feature s a state event w).1.task at_state
            (steer_feature-Leaves s a state event target w (targets w state))))
    where
      steers :
          Lands s
            (λ gate. (gate ≡ target) × (gate_of state ≡ "impl-started"))
            state
            (steer_feature s a state event w).1.task
          → Lands s (SteerMove target state) state (steer_feature s a state event w).1.task
      steers (x, at_x, inl same) = (x, at_x, inl same)
      steers (x, at_x, inr (to, g)) = (x, at_x, inr (lane, g, to))

  noted-Lands :
      (raw event reason target : String) (state : Fields) (o : Option String) (w : Disk s)
      → Targets event target
      → lane_of state ≡ "feature"
      → At s.json w.task state
      → Lands s
          (SteerMove target state)
          state
          (steer_with_note s a raw event reason state o w).1.task
  noted-Lands raw event reason target state (some m) w targets lane at_state =
      (state, at_state, inl refl)
  noted-Lands raw event reason target state none w targets lane at_state =
      steered-Lands raw event reason target state
        (record w { note = some (note_json s a state reason) }) targets lane at_state

  steer_of-Lands :
      (event raw reason target : String) (w : Disk s) (state : Fields)
      → Targets event target
      → At s.json w.task state
      → Lands s (SteerMove target state) state (steer_of s a event raw reason (ok state) w).1.task
  unfolding steer_of
  steer_of-Lands event raw reason target w state targets at_state =
      elim (Bool-cases (str_eq (lane_of state) "feature")) [
        | inr l ↦ rw l (state, at_state, inl refl)
        | inl l ↦
            let lane = (eq_iff (lane_of state) "feature").0 l in
            elim (Bool-cases (str_eq reason "")) [
              | inl e ↦ rw (l, e) (state, at_state, inl refl)
              | inr e ↦ elim (Bool-cases (captures s a event state)) [
                | inl c ↦
                    rw (l, e, c)
                      (noted-Lands raw event reason target state a.note_written w targets lane
                        at_state)
                | inr c ↦
                    rw (l, e, c)
                      (steered-Lands raw event reason target state w targets lane at_state)
              ]
            ]
      ]

  -- A steering phrase leaves the gate, or leads from impl-started of the feature lane to the target of
  -- its event.
  pub handle_steering_phrase-Lands :
      (event target raw : String) (w : Disk s) (state : Fields)
      → Targets event target
      → At s.json w.task state
      → Lands s (SteerMove target state) state (handle_steering_phrase s a event raw w).1.task
  unfolding handle_steering_phrase
  handle_steering_phrase-Lands event target raw w state targets at_state = rw at_state (
      steer_of-Lands event raw (s.trim (or_text raw (after_colon raw))) target w state targets
        at_state)

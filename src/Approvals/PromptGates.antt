-- ===== src/Approvals/PromptGates.antt =====
-- What a prompt of the human can do to the gate of the task, whatever it says.
use text.Mathlib.TextEquality.{eq_iff}
use devmate.Prelude.{ℕ, String, true, false, ◌≡◌, ◌≢◌, ◌⊎◌, inl, inr, refl, ◌∙◌, arith, Bool-cases}
use devmate.Prelude.Text.{str_eq}
use devmate.Json.{Fields}
use devmate.Gates.Transition.{lane_of, gate_of}
use devmate.TaskState.Store.{World}
use devmate.TaskState.Retry.{Attempt}
use devmate.Approvals.Phrases.{
  approve_spec_phrase, approve_plan_phrase, approve_pr_phrase, reset_task_phrase,
  revise_spec_prefix, no_tdd_prefix, revise_scope_prefix, re_plan_prefix, has_prefix, is_escalation,
}
use devmate.Approvals.Workspace.{Answers, Session}
use devmate.Approvals.Lanes.{Disk}
use devmate.Approvals.Listener.{Prompt, approve_spec, approve_plan, approve_pr}
use devmate.Approvals.Commands.{
  reset_task, revise_spec, no_phrase, override_tdd, handle_steering_phrase, escalate,
}
use devmate.Approvals.Starts.{IsStart}
use devmate.Approvals.Prompts.{
  handle_worded, handle_command, handle_lowered, handle_user_prompt_submit,
}
use devmate.Approvals.Gates.{
  PromptMove, spec, resumed, plan, pr, scope, re_planned, escalation, Lands, Lands-weaken,
}
use devmate.Approvals.ApprovalGates.{SpecMove, approve_spec-Lands}
use devmate.Approvals.PlanAndPr.{IsUndisturbed, PrMove, approve_plan-Lands, approve_pr-Lands}
use devmate.Approvals.CommandGates.{
  Stays, EscalationMove, reset_task-same, revise_spec-same, override_tdd-Stays, escalate-Lands,
  no_phrase-same,
}
use devmate.Approvals.SteeringGates.{
  SteerMove, handle_steering_phrase-Lands, revise-Targets, re_plan-Targets,
}
use devmate.Approvals.Writes.{At}

-- Two names that differ.
distinct : (a b c : String) → str_eq b c ≡ false → a ≡ b → a ≢ c
distinct a b c differ p q = ground (arith, eq_iff b c)

-- No phrase is for a feature task at plan-approved.
no_exit :
    {lower lane gate to : String}
    → PromptMove lower lane gate to
    → lane ≡ "feature"
    → gate ≢ "plan-approved"
no_exit (spec _ g _) lane gate = distinct _ "spec-draft" "plan-approved" refl g gate
no_exit (resumed _ _ g _) lane gate = distinct _ "spec-approved" "plan-approved" refl g gate
no_exit (plan _ (_, inl (_, g))) lane gate = distinct _ "spec-approved" "plan-approved" refl g gate
no_exit (plan _ (_, inr (l, _))) lane gate = l lane
no_exit (pr _ _ g _) lane gate = distinct _ "verification-passed" "plan-approved" refl g gate
no_exit (scope _ _ g _) lane gate = distinct _ "impl-started" "plan-approved" refl g gate
no_exit (re_planned _ _ g _) lane gate = distinct _ "impl-started" "plan-approved" refl g gate
no_exit (escalation _ l _ _) lane gate = distinct _ "chore" "feature" refl l lane

module _ (s : Session) (a : Answers) (around : ℕ → Attempt s.json.Text) where
  abbrev Moves : String → Fields → World s.json.Text → Type 0
  Moves lower state = Lands s (PromptMove lower (lane_of state) (gate_of state)) state

  stayed :
      (lower : String) (state : Fields) (task : World s.json.Text)
      → Stays s a state task
      → Moves lower state task
  stayed lower state task (x, at_x, same) = (x, at_x, inl same)

  same_task :
      (lower : String) (state : Fields) (task task' : World s.json.Text)
      → At s.json task state
      → task' ≡ task
      → Moves lower state task'
  same_task lower state task task' at_state same = (state, rw same at_state, inl refl)

  spec_move :
      (lower : String) (state : Fields) (to : String)
      → lower ≡ approve_spec_phrase
      → SpecMove s a state to
      → PromptMove lower (lane_of state) (gate_of state) to
  spec_move lower state to e (inl (draft, target)) = spec e draft target
  spec_move lower state to e (inr (target, lane, at_spec)) = resumed e lane at_spec target

  -- The branches that can move the gate.
  by_spec :
      (lower raw : String) (w : Disk s) (state : Fields)
      → At s.json w.task state
      → str_eq lower approve_spec_phrase ≡ true
      → Moves lower state (approve_spec s a raw w).1.task
  by_spec lower raw w state at_state e =
      Lands-weaken s (SpecMove s a state) _ state (approve_spec s a raw w).1.task
        (λ gate. spec_move lower state gate ((eq_iff lower approve_spec_phrase).0 e))
        (approve_spec-Lands s a raw w state at_state)

  by_plan :
      (lower raw : String) (w : Disk s) (state : Fields)
      → IsUndisturbed around
      → At s.json w.task state
      → str_eq lower approve_plan_phrase ≡ true
      → Moves lower state (approve_plan s a around raw w).1.task
  by_plan lower raw w state quiet at_state e =
      Lands-weaken s (IsStart (lane_of state) (gate_of state)) _ state
        (approve_plan s a around raw w).1.task
        (λ gate. plan ((eq_iff lower approve_plan_phrase).0 e))
        (approve_plan-Lands s a around raw w state quiet at_state)

  by_pr :
      (lower raw : String) (w : Disk s) (state : Fields)
      → At s.json w.task state
      → str_eq lower approve_pr_phrase ≡ true
      → Moves lower state (approve_pr s a raw w).1.task
  by_pr lower raw w state at_state e =
      Lands-weaken s (PrMove s a state) _ state (approve_pr s a raw w).1.task
        (λ gate (l, v, t). pr ((eq_iff lower approve_pr_phrase).0 e) l v t)
        (approve_pr-Lands s a raw w state at_state)

  by_scope :
      (lower raw : String) (w : Disk s) (state : Fields)
      → At s.json w.task state
      → has_prefix revise_scope_prefix lower ≡ true
      → Moves lower state (handle_steering_phrase s a "revise-scope" raw w).1.task
  by_scope lower raw w state at_state e =
      Lands-weaken s (SteerMove s a "spec-draft" state) _ state
        (handle_steering_phrase s a "revise-scope" raw w).1.task (λ gate (l, g, t). scope e l g t)
        (handle_steering_phrase-Lands s a "revise-scope" "spec-draft" raw w state
          (revise-Targets s a) at_state)

  by_re_plan :
      (lower raw : String) (w : Disk s) (state : Fields)
      → At s.json w.task state
      → has_prefix re_plan_prefix lower ≡ true
      → Moves lower state (handle_steering_phrase s a "re-plan" raw w).1.task
  by_re_plan lower raw w state at_state e =
      Lands-weaken s (SteerMove s a "plan-done" state) _ state
        (handle_steering_phrase s a "re-plan" raw w).1.task (λ gate (l, g, t). re_planned e l g t)
        (handle_steering_phrase-Lands s a "re-plan" "plan-done" raw w state (re_plan-Targets s a)
          at_state)

  by_escalation :
      (lower raw : String) (w : Disk s) (state : Fields)
      → At s.json w.task state
      → is_escalation lower ≡ true
      → Moves lower state (escalate s a raw w).1.task
  by_escalation lower raw w state at_state e =
      Lands-weaken s (EscalationMove s a state) (PromptMove lower (lane_of state) (gate_of state))
        state (escalate s a raw w).1.task (λ gate (l, g, t). escalation e l g t)
        (escalate-Lands s a raw w state at_state)

  handle_worded-PromptMove :
      (lower : String) (prompt : Prompt) (w : Disk s) (state : Fields)
      → At s.json w.task state
      → Moves lower state (handle_worded s a lower prompt w).1.task
  unfolding handle_worded
  handle_worded-PromptMove lower prompt w state at_state =
      elim (Bool-cases (has_prefix revise_scope_prefix lower)) [
        | inl p ↦ rw p (by_scope lower prompt.raw w state at_state p)
        | inr p ↦ elim (Bool-cases (has_prefix re_plan_prefix lower)) [
          | inl q ↦ rw (p, q) (by_re_plan lower prompt.raw w state at_state q)
          | inr q ↦ elim (Bool-cases (is_escalation lower)) [
            | inl r ↦ rw (p, q, r) (by_escalation lower prompt.raw w state at_state r)
            | inr r ↦
                rw (p, q, r)
                  (same_task lower state w.task (no_phrase s a lower w).1.task at_state
                    (no_phrase-same s a lower w))
          ]
        ]
      ]

  handle_command-PromptMove :
      (lower : String) (prompt : Prompt) (w : Disk s) (state : Fields)
      → At s.json w.task state
      → Moves lower state (handle_command s a lower prompt w).1.task
  unfolding handle_command
  handle_command-PromptMove lower prompt w state at_state =
      elim (Bool-cases (str_eq lower reset_task_phrase)) [
        | inl p ↦ rw p (
            same_task lower state w.task (reset_task s a w).1.task at_state
              (reset_task-same s a w state at_state))
        | inr p ↦ elim (Bool-cases (has_prefix revise_spec_prefix lower)) [
          | inl q ↦
              rw (p, q)
                (same_task lower state w.task (revise_spec s a prompt w).1.task at_state
                  (revise_spec-same s a prompt w))
          | inr q ↦ elim (Bool-cases (has_prefix no_tdd_prefix lower)) [
            | inl r ↦
                rw (p, q, r)
                  (stayed lower state (override_tdd s a prompt w).1.task
                    (override_tdd-Stays s a prompt w state at_state))
            | inr r ↦ rw (p, q, r) (handle_worded-PromptMove lower prompt w state at_state)
          ]
        ]
      ]

  handle_lowered-PromptMove :
      (lower : String) (prompt : Prompt) (w : Disk s) (state : Fields)
      → IsUndisturbed around
      → At s.json w.task state
      → Moves lower state (handle_lowered s a around lower prompt w).1.task
  unfolding handle_lowered
  handle_lowered-PromptMove lower prompt w state quiet at_state =
      elim (Bool-cases (str_eq lower approve_spec_phrase)) [
        | inl p ↦ rw p (by_spec lower prompt.raw w state at_state p)
        | inr p ↦ elim (Bool-cases (str_eq lower approve_plan_phrase)) [
          | inl q ↦ rw (p, q) (by_plan lower prompt.raw w state quiet at_state q)
          | inr q ↦ elim (Bool-cases (str_eq lower approve_pr_phrase)) [
            | inl r ↦ rw (p, q, r) (by_pr lower prompt.raw w state at_state r)
            | inr r ↦ rw (p, q, r) (handle_command-PromptMove lower prompt w state at_state)
          ]
        ]
      ]

  -- Let no other writer act during the prompt. Then a prompt leaves a task that can be read at its gate, or
  -- moves it by one of the phrases, from a gate and in a lane of the table `PromptMove`, to a gate that
  -- it names there. By that table `approve plan` starts the implementation from plan-approved off the
  -- feature lane, and in the feature lane from spec-approved.
  pub handle_user_prompt_submit-PromptMove :
      (prompt : Prompt) (w : Disk s) (state : Fields)
      → IsUndisturbed around
      → At s.json w.task state
      → Moves (s.to_lower prompt.raw) state (handle_user_prompt_submit s a around prompt w).1.task
  unfolding handle_user_prompt_submit
  handle_user_prompt_submit-PromptMove prompt w state quiet at_state =
      handle_lowered-PromptMove (s.to_lower prompt.raw) prompt w state quiet at_state

  -- Let no other writer act during the prompt. Then no prompt moves a feature task out of plan-approved,
  -- past the review of its spec.
  pub handle_user_prompt_submit-plan_approved :
      (prompt : Prompt) (w : Disk s) (state : Fields)
      → IsUndisturbed around
      → At s.json w.task state
      → lane_of state ≡ "feature"
      → gate_of state ≡ "plan-approved"
      → (state' : Fields) × At s.json (handle_user_prompt_submit s a around prompt w).1.task state'
        × (gate_of state' ≡ "plan-approved")
  handle_user_prompt_submit-plan_approved prompt w state quiet at_state lane gate =
      let (x, at_x, d) = handle_user_prompt_submit-PromptMove prompt w state quiet at_state in
      (x, at_x, held x d)
    where
      held :
          (x : Fields)
          → (gate_of x ≡ gate_of state)
            ⊎ PromptMove (s.to_lower prompt.raw) (lane_of state) (gate_of state) (gate_of x)
          → gate_of x ≡ "plan-approved"
      held x (inl same) = same ∙ gate
      held x (inr m) = absurd (no_exit m lane gate)

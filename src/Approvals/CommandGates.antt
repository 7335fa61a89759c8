-- ===== src/Approvals/CommandGates.antt =====
-- The gates that the other phrases can lead to.
use text.Mathlib.TextEquality.{eq_iff}
use devmate.Prelude.{
  String, [], ◌∷◌, ◌++◌, Bool, true, Option, none, some, ◌≡◌, inl, inr, refl, Bool-cases,
}
use devmate.Prelude.Text.{str_eq, includes}
use devmate.Json.{Fields}
use devmate.Json.Laws.{get-set}
use devmate.Gates.Transition.{lane_of, gate_of}
use devmate.TaskState.Store.{World}
use devmate.TaskState.Validate.{ok}
use devmate.Preconditions.Context
use devmate.Preconditions.Context.{SpecFile}
use devmate.Approvals.Workspace.{Stop, Answers, Session, no_tdd_override}
use devmate.Approvals.Lanes.{Disk, escalate_chore_to_feature}
use devmate.Approvals.Phrases.{
  escalate_chore_prefix, drop_as, drop_colon, parse_no_tdd_reason, parse_revise_spec_feedback,
  detect_near_miss_approval,
}
use devmate.Approvals.Listener.{Prompt}
use devmate.Approvals.Commands.{
  with_override, escalatable_gates, recover, reset_task, resolve_task_id, revise_for, revise_spec,
  overridden, after_note, append_note, override_traced, override_for, override_tdd,
  after_escalation, escalate_of, escalate, near_miss, no_phrase,
}
use devmate.Approvals.LaneMoves.{escalate_chore_to_feature-Leaves}
use devmate.Approvals.Gates.{Lands}
use devmate.Approvals.ApprovalGates.{landed}
use devmate.Approvals.Writes.{At, mutate_keeps}

module _ (s : Session) (a : Answers) where
  -- The gate of the state is as it was.
  abbrev pub Stays : Fields → World s.json.Text → Type 0
  Stays state task = (state' : Fields) × At s.json task state' × (gate_of state' ≡ gate_of state)

  -- A reset leaves a state that can be read.
  pub reset_task-same :
      (w : Disk s) (state : Fields) → At s.json w.task state → (reset_task s a w).1.task ≡ w.task
  unfolding reset_task recover
  reset_task-same w state at_state = rw at_state refl

  revise_for-same :
      (feedback : String) (task traced : Option String) (w : Disk s)
      → (revise_for s a feedback task traced w).1.task ≡ w.task
  revise_for-same feedback none traced w = refl
  revise_for-same feedback (some task) none w = refl
  revise_for-same feedback (some task) (some m) w = refl

  pub revise_spec-same : (prompt : Prompt) (w : Disk s) → (revise_spec s a prompt w).1.task ≡ w.task
  unfolding revise_spec
  revise_spec-same prompt w =
      revise_for-same (parse_revise_spec_feedback s.trim prompt.raw) (resolve_task_id s a prompt w)
        a.traced w

  after_note-same :
      (reason body : String) (o : Option String) (w : Disk s)
      → (after_note s a reason body o w).1.task ≡ w.task
  after_note-same reason body none w = refl
  after_note-same reason body (some m) w = refl

  append_note-same :
      (reason : String) (file : SpecFile) (w : Disk s)
      → (append_note s a reason file w).1.task ≡ w.task
  append_note-same reason Context.absent w = refl
  append_note-same reason Context.unreadable w = refl
  append_note-same reason (Context.text body) w = after_note-same reason body a.spec_written w

  overridden-Stays :
      (reason : String) (file : SpecFile) (w : Disk s) (state : Fields)
      → At s.json w.task state
      → Stays state (append_note s a reason file (overridden s a reason w)).1.task
  unfolding with_override
  overridden-Stays reason file w state at_state =
      rw (append_note-same reason file (overridden s a reason w)) (
        mutate_keeps s.json a.repair _ (with_override reason) w.task state at_state
          (rw (get-set state "tddGuard" "workflowGate" _) refl))

  override_traced-Stays :
      (reason : String) (task traced : Option String) (w : Disk s) (state : Fields)
      → At s.json w.task state
      → Stays state (override_traced s a reason task traced w).1.task
  override_traced-Stays reason none traced w state at_state =
      overridden-Stays reason w.spec w state at_state
  override_traced-Stays reason (some task) none w state at_state =
      overridden-Stays reason w.spec
        (record w { trace = w.trace ++ no_tdd_override task reason ∷ [] }) state at_state
  override_traced-Stays reason (some task) (some m) w state at_state = (state, at_state, refl)

  override_for-Stays :
      (o : Option String) (prompt : Prompt) (w : Disk s) (state : Fields)
      → At s.json w.task state
      → Stays state (override_for s a o prompt w).1.task
  override_for-Stays none prompt w state at_state = (state, at_state, refl)
  override_for-Stays (some reason) prompt w state at_state =
      override_traced-Stays reason (resolve_task_id s a prompt w) a.traced w state at_state

  -- An override of the TDD guard moves no gate.
  pub override_tdd-Stays :
      (prompt : Prompt) (w : Disk s) (state : Fields)
      → At s.json w.task state
      → Stays state (override_tdd s a prompt w).1.task
  unfolding override_tdd
  override_tdd-Stays prompt w = override_for-Stays (parse_no_tdd_reason s.trim prompt.raw) prompt w

  -- Where an escalation leads.
  abbrev pub EscalationMove : Fields → String → Type 0
  EscalationMove state to =
      (lane_of state ≡ "chore")
      × (includes escalatable_gates (gate_of state) ≡ true)
      × (to ≡ "plan-approved")

  after_escalation-same :
      (reason : String) (r : Option Stop × Disk s)
      → (after_escalation s a reason r).1.task ≡ r.1.task
  after_escalation-same reason (none, w) = refl
  after_escalation-same reason (some e, w) = refl

  escalate_of-Lands :
      (reason : String) (w : Disk s) (state : Fields)
      → At s.json w.task state
      → Lands s (EscalationMove state) state (escalate_of s a reason (ok state) w).1.task
  unfolding escalate_of
  escalate_of-Lands reason w state at_state = elim (Bool-cases (str_eq (lane_of state) "chore")) [
    | inr l ↦ rw l (state, at_state, inl refl)
    | inl l ↦ elim (Bool-cases (includes escalatable_gates (gate_of state))) [
      | inr g ↦ rw (l, g) (state, at_state, inl refl)
      | inl g ↦
          rw (l, g, after_escalation-same reason (escalate_chore_to_feature s a state reason w))
            (escalates ((eq_iff (lane_of state) "chore").0 l) (
              landed s a (λ gate. gate ≡ "plan-approved") state w.task
                (escalate_chore_to_feature s a state reason w).1.task at_state
                (escalate_chore_to_feature-Leaves s a state reason w)))
    ]
  ]
    where
      escalates :
          lane_of state ≡ "chore"
          → Lands s
              (λ gate. gate ≡ "plan-approved")
              state
              (escalate_chore_to_feature s a state reason w).1.task
          → Lands s
              (λ to. (lane_of state ≡ "chore") × ◌≡◌ {A = Bool} true true × (to ≡ "plan-approved"))
              state
              (escalate_chore_to_feature s a state reason w).1.task
      escalates l (x, at_x, inl same) = (x, at_x, inl same)
      escalates l (x, at_x, inr to) = (x, at_x, inr (l, refl, to))

  -- An escalation leaves the gate, or leads a chore under way to plan-approved.
  pub escalate-Lands :
      (raw : String) (w : Disk s) (state : Fields)
      → At s.json w.task state
      → Lands s (EscalationMove state) state (escalate s a raw w).1.task
  unfolding escalate
  escalate-Lands raw w state at_state =
      let reason = s.trim (drop_colon (drop_as escalate_chore_prefix raw)) in
      elim (Bool-cases (str_eq reason "")) [
        | inl e ↦ rw e (state, at_state, inl refl)
        | inr e ↦ rw (e, at_state) (escalate_of-Lands reason w state at_state)
      ]

  near_miss-same : (o : Option String) (w : Disk s) → (near_miss s a o w).1.task ≡ w.task
  near_miss-same none w = refl
  near_miss-same (some phrase) w = refl

  pub no_phrase-same : (lower : String) (w : Disk s) → (no_phrase s a lower w).1.task ≡ w.task
  unfolding no_phrase
  no_phrase-same lower w = near_miss-same (detect_near_miss_approval lower) w

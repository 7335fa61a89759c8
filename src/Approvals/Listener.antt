-- ===== src/Approvals/Listener.antt =====
-- `handleUserPromptSubmit` of hooks/approval-listener.mjs from the test of the phrases on, at a prompt
-- that is trimmed and not empty. The advice that it prints before (skills, turn intent, anchor,
-- domains) is not modelled.
use devmate.Prelude.{
  ℕ, zero, suc, String, List, [], ◌∷◌, ◌++◌, Bool, false, not, ◌&&◌, Option, none, some,
  if◌then◌else◌,
}
use devmate.Prelude.Text.{str_eq}
use devmate.Json.{Json, str, obj, Fields, end, field, set}
use devmate.Gates.Transition.{TransitionResult, moved, refused, lane_of, gate_of, task_of}
use devmate.Gatectl.Human
use devmate.Gatectl.Human.{GateEvent, HumanAdvance, approved, AuditWorld, advance_human_gate}
use devmate.TaskState.Validate.{StateResult, ok, err}
use devmate.TaskState.Store.{
  ReadError, World, MutateResult, written, skipped, conflict, failed, next_state, Options,
  state_version_of, read_task_state, mutate_under_lock,
}
use devmate.TaskState.Retry.{Attempt, RetryOptions, pinned}
use devmate.Approvals.Phrases.{approve_spec_phrase, approve_pr_phrase, approval_phrase_for_gate}
use devmate.Approvals.Workspace.{
  TraceEvent, gate_transition, Stop, already_implementing, already_ready, continuation_failed,
  spec_not_advanced, pr_not_advanced, plan_not_advanced, plan_conflicts, no_pr_on_lane,
  plan_not_written, untraced, HookResult, passthrough, gate_advanced, threw, Answers, Session,
  without, show, transition, reads_at,
}
use devmate.Approvals.Lanes.{LaneMove, started, stopped, Disk, continue_approved_feature}

abbrev pub hook_actor : String
hook_actor = "hook-exact-phrase"

-- `UserPromptSubmitEvent`: the trimmed prompt, and the task id where the payload has one.
pub record Prompt : Type 0 where
  pub raw : String
  pub task_id : Option String

-- `APPROVE_PLAN_CAS_ATTEMPTS`.
abbrev pub approve_plan_attempts : ℕ
approve_plan_attempts = 3

abbrev pub as_trace : List GateEvent → List TraceEvent
as_trace [] = []
as_trace (e ∷ events) = gate_transition e ∷ as_trace events

abbrev pub transition_event : String → String → String → String → TraceEvent
transition_event task from to raw =
    gate_transition (record {
      task_id = task;
      from = from;
      to = to;
      actor = some hook_actor;
      evidence = some raw;
    })

abbrev error_event : String → Options
error_event event = record { expected_version = none; event = some event; ts = none }

module _ (s : Session) (a : Answers) where
  abbrev pub Ended : Type 0
  Ended = HookResult × Disk s

  -- `advanceHumanGate`, whose audit event goes to the end of the trace.
  abbrev pub with_trace : Disk s → HumanAdvance × AuditWorld s.json.Text → HumanAdvance × Disk s
  with_trace w (result, after) =
      (result, record w { task = after.task; trace = w.trace ++ as_trace after.trace })

  -- No other writer acts between the read and the write of an approval here.
  unfoldable pub advance : String → String → String → Disk s → HumanAdvance × Disk s
  advance current target raw w = with_trace w (
      advance_human_gate s.trim s.same_bytes s.parse_date s.is_date (reads_at s w) s.json a.first
        (λ task. task) a.traced current target (some hook_actor) (some raw)
        (record { task = w.task; trace = [] }))

  -- `persistContinuationError`.
  abbrev error_record : String → Stop → Json
  error_record at stop = obj (
      field "at" (str at) (
        field "message" (str (s.show_stop stop))
          (field "ts" (str a.now) (field "recovery" (str approve_spec_phrase) end))))

  unfoldable pub persist_continuation_error : String → Stop → Disk s → Disk s
  persist_continuation_error at stop w = record w {
    task =
        (mutate_under_lock s.json a.repair (error_event "continuation-error")
          (λ state. next_state (set state "continuationError" (error_record at stop))) w.task).1;
  }

  -- What the continuation of an approved spec leads to: its failure is kept and shown.
  abbrev pub after_continuation : String → LaneMove × Disk s → Ended
  after_continuation gate (started from to state, w) = (gate_advanced gate, w)
  after_continuation gate (stopped stop, w) =
      (gate_advanced gate, show (persist_continuation_error gate stop w) (continuation_failed stop))

  unfoldable pub continue_spec : String → Fields → Disk s → Ended
  continue_spec gate state w =
      after_continuation gate (continue_approved_feature s a (without state "continuationError") w)

  abbrev pub after_spec_advance : HumanAdvance × Disk s → Ended
  after_spec_advance (Human.refused e, w) = (passthrough, show w (spec_not_advanced e))
  after_spec_advance (approved from to state, w) = continue_spec to state w

  unfoldable pub approve_spec_of : String → StateResult ReadError → Disk s → Ended
  approve_spec_of raw (err errors) w = (passthrough, w)
  approve_spec_of raw (ok state) w =
      if str_eq (gate_of state) "impl-started"
      then (passthrough, show w already_implementing)
      else if str_eq (gate_of state) "spec-approved"
      then continue_spec (gate_of state) state w
      else after_spec_advance (advance (gate_of state) "spec-approved" raw w)

  -- The branch of `approve spec`.
  unfoldable pub approve_spec : String → Disk s → Ended
  approve_spec raw w = approve_spec_of raw (read_task_state s.json w.task.file) w

  -- `recordGateTransition` at the end of `approve plan`: where the append fails, the hook throws.
  abbrev pub record_plan : String → Fields → String → String → Option String → Disk s → Ended
  record_plan raw state from to (some message) w = (threw (untraced message), w)
  record_plan raw state from to none w = (
    gate_advanced to,
    record w { trace = w.trace ++ transition_event (task_of state) from to raw ∷ [] },
  )

  abbrev pub after_plan_write :
      (Disk s → Ended)
      → String
      → Fields
      → (from to : String) → MutateResult × World s.json.Text
      → Disk s
      → Ended
  after_plan_write again raw state from to (written v, task) w =
      record_plan raw state from to a.traced (record w { task = task })
  after_plan_write again raw state from to (skipped v, task) w =
      record_plan raw state from to a.traced (record w { task = task })
  after_plan_write again raw state from to (conflict current expected, task) w =
      again (record w { task = task })
  after_plan_write again raw state from to (failed e, task) w =
      (threw (plan_not_written e), record w { task = task })

  abbrev plan_options : RetryOptions
  plan_options = record { event = some "approve-plan"; ts = none }

  abbrev pub plan_write :
      Attempt s.json.Text → Fields → Fields → Disk s → MutateResult × World s.json.Text
  plan_write around state next w =
      mutate_under_lock s.json around.host (pinned plan_options (state_version_of state))
        (λ _. next_state next) (around.between w.task)

  unfoldable pub plan_moved :
      (Disk s → Ended) → Attempt s.json.Text → String → Fields → TransitionResult → Disk s → Ended
  plan_moved again around raw state (refused why) w = (passthrough, show w (plan_not_advanced why))
  plan_moved again around raw state (moved from to next) w =
      after_plan_write again raw state from to (plan_write around state next w) w

  unfoldable pub plan_round :
      (Disk s → Ended) → Attempt s.json.Text → String → StateResult ReadError → Disk s → Ended
  plan_round again around raw (err errors) w = (passthrough, w)
  plan_round again around raw (ok state) w =
      plan_moved again around raw state (transition s w state "start-impl") w

  -- The loop of `approve plan`, with the attempts that are left and the number of the next one.
  unfoldable pub plan_loop : ℕ → ℕ → (ℕ → Attempt s.json.Text) → String → Disk s → Ended
  plan_loop zero i around raw w = (passthrough, show w plan_conflicts)
  plan_loop (suc left) i around raw w =
      let start = (around i).before w.task in
      plan_round (plan_loop left (suc i) around raw) (around i) raw
        (read_task_state s.json start.file) (record w { task = start })

  unfoldable pub approve_plan : (ℕ → Attempt s.json.Text) → String → Disk s → Ended
  approve_plan around raw w = plan_loop approve_plan_attempts 0 around raw w

  abbrev pub after_pr_advance : HumanAdvance × Disk s → Ended
  after_pr_advance (Human.refused e, w) = (passthrough, show w (pr_not_advanced e))
  after_pr_advance (approved from to state, w) = (gate_advanced to, w)

  abbrev is_phrase : Option String → String → Bool
  is_phrase none phrase = false
  is_phrase (some p) phrase = str_eq p phrase

  -- The phrase is not the lane's at verification-passed.
  abbrev pub is_off_lane : Fields → Bool
  is_off_lane state =
      str_eq (gate_of state) "verification-passed"
      && not
          (is_phrase (approval_phrase_for_gate (gate_of state) (lane_of state)) approve_pr_phrase)

  unfoldable pub approve_pr_of : String → StateResult ReadError → Disk s → Ended
  approve_pr_of raw (err errors) w = (passthrough, w)
  approve_pr_of raw (ok state) w =
      if str_eq (gate_of state) "pr-ready"
      then (passthrough, show w already_ready)
      else if is_off_lane state
      then (passthrough, show w (no_pr_on_lane (lane_of state)))
      else after_pr_advance (advance (gate_of state) "pr-ready" raw w)

  -- The branch of `approve pr`.
  unfoldable pub approve_pr : String → Disk s → Ended
  approve_pr raw w = approve_pr_of raw (read_task_state s.json w.task.file) w

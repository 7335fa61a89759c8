-- ===== src/Gates/Transition.antt =====
-- `transitionGate` of lib/gate-transitions.mjs. A state is the object of task.json; the
-- precondition check is the callback that the source takes as `opts.checkPrecondition`, at the
-- files as they are when it is called.
pub mod Choice
pub mod Exact
pub mod Safety
use devmate.Prelude.{String, List, Bool, ◌&&◌, Option, none, some, if◌then◌else◌}
use devmate.Prelude.Table.{get_own}
use devmate.Prelude.Text.{str_eq, includes}
use devmate.Json.{nat, Json, num, str, Fields, get, set, text_of}
use devmate.Gates.Tables.{EventTable, transitions, steering, parkable_gates}
use devmate.Gates.Sets.{legal_transitions}
use devmate.Gates.ResumePointer.{PointerError, PointerRead, read, failed, read_resume_pointer}

-- `PreconditionCtx`, without the state directory, which is the callback's.
pub record Context : Type 0 where
  pub lane : String
  pub event : String
  pub task_id : String

-- `PreconditionResult`.
pub record Verdict : Type 0 where
  pub passed : Bool
  pub missing : List String

pub data Refusal : Type 0 where
  unknown_lane : (lane : String) → Refusal
  unknown_gate : (gate lane : String) → Refusal
  cannot_resume : List PointerError → Refusal
  foreign_pointer : (owner task : String) → Refusal
  not_parkable : (gate : String) → Refusal
  not_accepted : (gate event : String) (legal : List String) → Refusal
  unmet : (target : String) (missing : List String) → Refusal

pub data TransitionResult : Type 0 where
  moved : (from to : String) (state : Fields) → TransitionResult
  refused : Refusal → TransitionResult

-- The fields that the transition reads.
abbrev pub lane_of : Fields → String
lane_of state = text_of (get state "lane")

abbrev pub gate_of : Fields → String
gate_of state = text_of (get state "workflowGate")

abbrev pub task_of : Fields → String
task_of state = text_of (get state "taskId")

-- `{ ...state, workflowGate: nextGate, currentStep: 0 }`.
unfoldable pub enter : Fields → String → Fields
enter state gate = set (set state "workflowGate" (str gate)) "currentStep" (num (nat 0))

-- `(table ? getOwn(table, event) : undefined)`, and `a ?? b`.
abbrev pub row_of : Option EventTable → String → Option String
row_of none event = none
row_of (some events) event = get_own events event

abbrev pub or_else : Option String → Option String → Option String
or_else none b = b
or_else (some a) b = some a

-- What decides the next gate: a gate, no gate, or a refused resume.
pub data Target : Type 0 where
  target : String → Target
  no_target : Target
  bad_resume : Refusal → Target

abbrev pub of_option : Option String → Target
of_option none = no_target
of_option (some gate) = target gate

pub resume_target : PointerRead → String → Target
resume_target (failed errors) task = bad_resume (cannot_resume errors)
resume_target (read pointer) task =
    if str_eq pointer.task_id task
    then if includes parkable_gates pointer.gate
      then target pointer.gate
      else bad_resume (not_parkable pointer.gate)
    else bad_resume (foreign_pointer pointer.task_id task)

module _ (is_date : String → Bool) (check : String → Context → Verdict) where
  pub next_target : Option Json → Fields → Option EventTable → Option EventTable → String → Target
  unfolding resume_target
  next_target artifact state gate_table steering_table event =
      if str_eq (gate_of state) "parked" && str_eq event "resume"
      then resume_target (read_resume_pointer is_date artifact) (task_of state)
      else of_option (or_else (row_of gate_table event) (row_of steering_table event))

  -- From the choice of the next gate to the end.
  pub finish : Fields → String → Target → TransitionResult
  finish state event (bad_resume why) = refused why
  finish state event no_target =
      refused
        (not_accepted (gate_of state) event (legal_transitions (lane_of state) (gate_of state)))
  finish state event (target gate) =
      let verdict =
        check gate (record { lane = lane_of state; event = event; task_id = task_of state }) in
      if verdict.passed
      then moved (gate_of state) gate (enter state gate)
      else refused (unmet gate verdict.missing)

  pub known_gate :
      Option Json → Fields → String → Option EventTable → Option EventTable → TransitionResult
  unfolding finish next_target
  known_gate artifact state event none none = refused (unknown_gate (gate_of state) (lane_of state))
  known_gate artifact state event own steer =
      finish state event (next_target artifact state own steer event)

  unfoldable pub transition_gate : Option Json → Fields → String → TransitionResult
  unfolding known_gate get_own
  transition_gate artifact state event = elim (get_own transitions (lane_of state)) [
    | none ↦ refused (unknown_lane (lane_of state))
    | some lane_table ↦
        known_gate artifact state event (get_own lane_table (gate_of state))
          (get_own steering (gate_of state))
  ]

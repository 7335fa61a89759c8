-- ===== src/Gatectl/Human.antt =====
-- `advanceHumanGate` and `appendGateTransitionEvent` of lib/gatectl.mjs: an approval by a human, which
-- leaves an audit event in the trace. Whether the append succeeds is the host's answer.
pub mod Approvable
pub mod Audit
use devmate.Prelude.{
  ℕ, String, List, [], ◌∷◌, ◌++◌, Bool, true, false, not, ◌&&◌, Option, none, some, if◌then◌else◌,
}
use devmate.Prelude.Text.{str_eq, is_blank}
use devmate.Json.{Json, Fields, obj}
use devmate.Gates.Transition.{lane_of, gate_of, task_of, enter}
use devmate.TaskState.Validate.{StateResult, ok, err}
use devmate.TaskState.Store.{
  JsonText, File, ReadError, World, Host, MutateError, read_task_state, write_task_state,
}
use devmate.Preconditions.Context.{Ctx, Missing, Outcome, Reads}
use devmate.Preconditions.{check_gate_precondition}
use devmate.Gatectl.{advanced, illegal, advance_gate, is_human_approval_gate}

-- `TraceGateTransitionEvent`, without its time stamp and its constants.
pub record GateEvent : Type 0 where
  pub task_id : String
  pub from : String
  pub to : String
  pub actor : Option String
  pub evidence : Option String

pub data AdvanceError : Type 0 where
  no_audit : String → AdvanceError
  is_parked : AdvanceError
  illegal_edge : String → String → List String → AdvanceError
  unread : List ReadError → AdvanceError
  stale_gate : String → AdvanceError
  unmet : List Missing → AdvanceError
  not_written : MutateError → AdvanceError
  not_recorded : String → AdvanceError

pub data HumanAdvance : Type 0 where
  approved : (from to : String) (state : Fields) → HumanAdvance
  refused : AdvanceError → HumanAdvance

pub data Approval : Type 0 where
  approve : Fields → Approval
  refuse : AdvanceError → Approval

pub record AuditWorld (Text : Type 0) : Type 0 where
  pub task : World Text
  pub trace : List GateEvent

-- `typeof value === 'string' && value.trim() !== ''`.
abbrev pub has_text : Option String → Bool
has_text none = false
has_text (some s) = not (is_blank s)

-- `actor` and `evidence` are there, where the gate asks for them.
abbrev pub is_audited : String → Option String → Option String → Bool
is_audited target actor evidence =
    if is_human_approval_gate target then has_text actor && has_text evidence else true

-- From what the write of the state gave to the end.
abbrev pub after_write :
    {Text : Type 0}
    → Option MutateError
    → (append_error : Option String) → String
    → String
    → (actor evidence : Option String) → Fields
    → World Text
    → List GateEvent
    → HumanAdvance × AuditWorld Text
after_write (some e) append_error current target actor evidence state task trace =
    (refused (not_written e), record { task = task; trace = trace })
after_write none (some message) current target actor evidence state task trace =
    (refused (not_recorded message), record { task = task; trace = trace })
after_write none none current target actor evidence state task trace = (
  approved current target (enter state target),
  record {
    task = task;
    trace =
        trace
        ++ record {
          task_id = task_of state;
          from = current;
          to = target;
          actor = actor;
          evidence = evidence;
        }
          ∷ [];
  },
)

module _ (trim : String → String) (same_bytes : String → String → Bool)
    (parse_date : Option Json → Option ℕ) (is_date : String → Bool) (reads : Reads)
    (json : JsonText) where
  open json use {Text}

  -- The check of the target's artifacts, which names neither an event nor the task.
  abbrev pub target_check : String → Fields → Outcome
  target_check target state =
      check_gate_precondition trim same_bytes parse_date is_date reads target
        (record { lane = lane_of state; event = none; task_id = none })

  unfoldable pub judge_state : String → String → StateResult ReadError → Approval
  judge_state current target (err errors) = refuse (unread errors)
  judge_state current target (ok state) =
      if str_eq (gate_of state) current
      then if (target_check target state).ok
        then approve state
        else refuse (unmet (target_check target state).missing)
      else refuse (stale_gate (gate_of state))

  -- Everything before the write.
  unfoldable pub judge_advance :
      String → String → (actor evidence : Option String) → File Text → Approval
  judge_advance current target actor evidence file =
      if not (is_audited target actor evidence)
      then refuse (no_audit target)
      else if str_eq current "parked"
      then refuse is_parked
      else elim (advance_gate current target) [
        | illegal from to legal ↦ refuse (illegal_edge from to legal)
        | advanced gate ↦ judge_state current target (read_task_state json file)
      ]

  -- The write of the state, which no lock of the caller and no version guards, and then the event.
  -- `between` is what other writers do to the file between the read and the write.
  unfoldable pub persist :
      Host
      → (between : World Text → World Text) → (append_error : Option String) → String
      → String
      → (actor evidence : Option String) → Approval
      → AuditWorld Text
      → HumanAdvance × AuditWorld Text
  persist host between append_error current target actor evidence (refuse e) world =
      (refused e, world)
  persist host between append_error current target actor evidence (approve state) world =
      let (error, task) = write_task_state json host (enter state target) (between world.task) in
      after_write error append_error current target actor evidence state task world.trace

  unfoldable pub advance_human_gate :
      Host
      → (between : World Text → World Text) → (append_error : Option String) → String
      → String
      → (actor evidence : Option String) → AuditWorld Text
      → HumanAdvance × AuditWorld Text
  advance_human_gate host between append_error current target actor evidence world =
      persist host between append_error current target actor evidence
        (judge_advance current target actor evidence world.task.file) world

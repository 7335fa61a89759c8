-- ===== src/Approvals/Workspace.antt =====
-- What a prompt can change and what it is told: the files that hooks/approval-listener.mjs and the
-- lanes of lib/workflow/lanes write, the answers of the host, and the messages to the model. Other
-- writers act only inside the loop of `approve plan`; in the other branches nothing else runs.
use devmate.Prelude.{ℕ, String, List, [], ◌∷◌, ◌++◌, Bool, Option, none, some, if◌then◌else◌}
use devmate.Prelude.Text.{str_eq}
use devmate.Glob.{Code}
use devmate.Json.{Number, Json, Fields, end, field}
use devmate.Gates.Transition.{TransitionResult, Refusal, transition_gate}
use devmate.Gatectl.Human.{GateEvent, AdvanceError}
use devmate.Ownership.{Persona}
use devmate.TaskState.Store.{JsonText, File, holds, World, Host, MutateError}
use devmate.Preconditions.Context.{Missing, SpecFile, Reads}
use devmate.Preconditions.Entry.{check_precondition}
use devmate.Workstreams.{DispatchMode}

-- The events of the trace that the listener appends, without time stamp and constants.
pub data TraceEvent : Type 0 where
  gate_transition : GateEvent → TraceEvent
  spec_revision_requested : (task feedback : String) → TraceEvent
  no_tdd_override : (task reason : String) → TraceEvent

-- The lines of transitions.jsonl.
pub data LaneRecord : Type 0 where
  files_fallback : (task : String) → LaneRecord
  feature_started :
      (from to task : String) (mode : DispatchMode) (backend frontend shared : ℕ) → LaneRecord
  steered : (from to task event : String) → LaneRecord
  escalated : (reason task : String) → LaneRecord

-- Why `continueApprovedFeature` throws.
pub data Stop : Type 0 where
  no_spec_metadata : Stop
  wrong_gate wrong_lane not_steering : String → Stop
  no_transition : Refusal → Stop
  no_spec_files no_personas : Stop
  not_written : MutateError → Stop
  unexpected_gate : String → Stop

pub data Message : Type 0 where
  already_implementing already_ready : Message
  continuation_failed : Stop → Message
  spec_not_advanced pr_not_advanced : AdvanceError → Message
  plan_not_advanced : Refusal → Message
  plan_conflicts : Message
  no_pr_on_lane : String → Message
  reset_done : (created : Option String) → Message
  reset_valid : (gate : String) → Message
  reset_no_state reset_unreadable : Message
  reset_failed : String → Message
  revision_without_task revision_without_feedback : Message
  revision_of : String → Message
  steering_unread : Message
  steering_other_lane : (lane gate : String) → Message
  steering_no_reason : Message
  steering_failed : Stop → Message
  steering_untraced : (from to message : String) → Message
  note_not_written : String → Message
  scope_revised replanned : (from to reason : String) → Message
  escalation_no_reason escalation_unread : Message
  escalation_other_lane : (lane gate : String) → Message
  escalation_other_gate : (gate : String) → Message
  escalation_failed : Stop → Message
  escalation_done : (gate reason : String) → Message
  did_you_mean : String → Message

-- What the hook throws.
pub data Failure : Type 0 where
  plan_not_written : MutateError → Failure
  untraced spec_not_readable spec_not_writable : String → Failure

-- `HookResult`, and a throw.
pub data HookResult : Type 0 where
  passthrough : HookResult
  gate_advanced : (gate : String) → HookResult
  revision_requested : (feedback : String) → HookResult
  tdd_overridden : (reason : String) → HookResult
  threw : Failure → HookResult

-- `note` is scope-change.json, `spec` is spec.md, `aside` the task files that were quarantined.
pub record Workspace (Text : Type 0) : Type 0 where
  pub task : World Text
  pub trace : List TraceEvent
  pub lane_log : List LaneRecord
  pub note : Option Json
  pub spec : SpecFile
  pub aside : List (File Text)
  pub shown : List Message

-- What the host answers: to the first write of task.json, to the one that follows it, and to the
-- mutation that records an error or an override; none where an append or a write succeeds.
pub record Answers : Type 0 where
  pub first : Host
  pub follow : Host
  pub repair : Host
  pub traced : Option String
  pub lane_logged : Option String
  pub note_written : Option String
  pub spec_written : Option String
  pub renamed : Option String
  pub now : String

-- The part of the configuration that the lane reads: none where it does not load.
pub record Config : Type 0 where
  pub personas : List Persona
  pub max_concurrent_agents : Option Number

-- What the session is given: string methods and parsers of the host, the state directory, and the
-- modules that are parameters here (the configuration, `bootstrapTaskState`).
pub record Session : Type 1 where
  pub trim : String → String
  pub to_lower : String → String
  pub units : String → Code
  pub same_bytes : String → String → Bool
  pub parse_date : Option Json → Option ℕ
  pub is_date : String → Bool
  pub show_missing : Missing → String
  pub show_stop : Stop → String
  pub reads : Reads
  pub json : JsonText
  pub config : Option Config
  pub state_path : String
  pub handoff_path : String → String
  pub bootstrap : World json.Text → Option String × World json.Text

-- `const { [key]: _, ...rest } = state`.
unfoldable pub without : Fields → String → Fields
without end key = end
without (field k v fs) key =
    let rest = without fs key in if str_eq k key then rest else field k v rest

abbrev pub show : {Text : Type 0} → Workspace Text → Message → Workspace Text
show w m = record w { shown = w.shown ++ m ∷ [] }

-- An append whose failure is caught.
abbrev pub log_lane : {Text : Type 0} → Option String → LaneRecord → Workspace Text → Workspace Text
log_lane (some _) entry w = w
log_lane none entry w = record w { lane_log = w.lane_log ++ entry ∷ [] }

module _ (s : Session) where
  abbrev file_json : File s.json.Text → Option Json
  file_json (holds text) = s.json.parse text
  file_json _ = none

  -- The state directory as a check reads it now.
  abbrev pub reads_at : Workspace s.json.Text → Reads
  reads_at w = record s.reads {
    artifact = λ name.
        if str_eq name "task.json"
        then file_json w.task.file
        else if str_eq name "scope-change.json"
        then w.note
        else s.reads.artifact name;
    spec = w.spec;
  }

  -- `transitionGate` with the state directory of the session.
  unfoldable pub transition : Workspace s.json.Text → Fields → String → TransitionResult
  transition w state event =
      transition_gate s.is_date
        (check_precondition s.trim s.same_bytes s.parse_date s.is_date s.show_missing (reads_at w))
        (s.reads.artifact "resume-pointer.json") state event

-- ===== src/Approvals/Lanes.antt =====
-- The moves of the lanes that a prompt starts: `continueApprovedFeature` and `steerFeature` of
-- lib/workflow/lanes/feature.mjs, `escalateChoreToFeature` of lib/workflow/lanes/chore.mjs.
use devmate.Prelude.{suc, String, List, [], ◌∷◌, not, Option, none, some, if◌then◌else◌, length}
use devmate.Prelude.Text.{str_eq, includes}
use devmate.Glob.{Code}
use devmate.Json.{Number, nat, Json, str, obj, Fields, end, get, set}
use devmate.Gates.Transition.{TransitionResult, moved, refused, lane_of, gate_of, task_of}
use devmate.Preconditions.{has_spec}
use devmate.TaskState.Store.{World, MutateError, write_task_state}
use devmate.Workstreams.{Partition, partition_workstreams}
use devmate.Approvals.Workspace.{
  files_fallback, feature_started, steered, escalated, Stop, no_spec_metadata, wrong_gate,
  wrong_lane, not_steering, no_transition, no_spec_files, no_personas, not_written, unexpected_gate,
  Workspace, Answers, Config, Session, log_lane, transition,
}
use devmate.Approvals.SpecFiles.{extract_spec_files, read_spec_files}

-- A move of a lane, or why it threw.
pub data LaneMove : Type 0 where
  started : (from to : String) (state : Fields) → LaneMove
  stopped : Stop → LaneMove

-- `Number.isInteger(mca) && mca >= 1 ? { maxParallel: mca } : undefined`.
abbrev ceiling_of : Option Number → Option Number
ceiling_of (some (nat (suc n))) = some (nat (suc n))
ceiling_of _ = none

-- `computeWorkstreams`: none where it throws.
abbrev partition_for : List Code → Config → Option Partition
partition_for files config = elim config.personas [
  | [] ↦ none
  | p ∷ personas ↦
      partition_workstreams files (p ∷ personas) (ceiling_of config.max_concurrent_agents)
]

unfoldable pub compute_workstreams : List Code → Option Config → Option Partition
compute_workstreams files none = none
compute_workstreams files (some config) = partition_for files config

abbrev pub hashes_of : Option Json → Fields
hashes_of (some (obj hashes)) = hashes
hashes_of _ = end

-- `{ ...next, artifactHashes: { ...next.artifactHashes, plan_stored_at, handoff_at } }`.
unfoldable pub with_metadata : (stored_at handoff_at : String) → Fields → Fields
with_metadata stored_at handoff_at next = set next "artifactHashes" (
    obj (
      set (set (hashes_of (get next "artifactHashes")) "plan_stored_at" (str stored_at))
        "handoff_at" (str handoff_at)))

-- `{ ...state, lane: "feature", workflowGate: "plan-approved" }`.
unfoldable pub as_feature : Fields → Fields
as_feature state = set (set state "lane" (str "feature")) "workflowGate" (str "plan-approved")

-- `FEATURE_STEERING_EVENTS`.
abbrev pub feature_steering_events : List String
feature_steering_events = "revise-scope" ∷ "re-plan" ∷ []

module _ (s : Session) where
  abbrev pub Disk : Type 0
  Disk = Workspace s.json.Text

  -- What the write of the state leads to.
  abbrev pub after_feature_write :
      Answers
      → (from to : String) (state : Fields) → Partition
      → Option MutateError × World s.json.Text
      → Disk
      → LaneMove × Disk
  after_feature_write a from to state p (some e, task) w =
      (stopped (not_written e), record w { task = task })
  after_feature_write a from to state p (none, task) w = (
    if str_eq (gate_of state) "impl-started"
        then started from to state
        else stopped (unexpected_gate (gate_of state)),
    log_lane a.lane_logged
        (feature_started from to (task_of state) p.mode (length p.buckets.backend_files)
          (length p.buckets.frontend_files) (length p.buckets.shared_files))
        (record w { task = task }),
  )

  abbrev pub metadata : Fields → Fields
  metadata next = with_metadata s.state_path (s.handoff_path (task_of next)) next

  abbrev pub start_partitioned :
      Answers → (from to : String) (next : Fields) → Option Partition → Disk → LaneMove × Disk
  start_partitioned a from to next none w = (stopped no_personas, w)
  start_partitioned a from to next (some p) w =
      after_feature_write a from to (metadata next) p
        (write_task_state s.json a.follow (metadata next) w.task) w

  abbrev pub start_with_files :
      Answers → (from to : String) (next : Fields) → List Code → Disk → LaneMove × Disk
  start_with_files a from to next [] w = (stopped no_spec_files, w)
  start_with_files a from to next (f ∷ files) w =
      start_partitioned a from to next (compute_workstreams (f ∷ files) s.config) w

  -- The files of the state, or those that spec.md lists, with a warning.
  abbrev pub start_files :
      Answers → (from to : String) (next : Fields) → List Code → Disk → LaneMove × Disk
  start_files a from to next [] w =
      start_with_files a from to next (extract_spec_files s.units w.spec)
        (log_lane a.lane_logged (files_fallback (task_of next)) w)
  start_files a from to next (f ∷ files) w = start_with_files a from to next (f ∷ files) w

  abbrev pub start_moved : Answers → Fields → TransitionResult → Disk → LaneMove × Disk
  start_moved a state (refused why) w = (stopped (no_transition why), w)
  start_moved a state (moved from to next) w =
      start_files a from to next (read_spec_files s.units state) w

  -- `continueApprovedFeature`.
  unfoldable pub continue_approved_feature : Answers → Fields → Disk → LaneMove × Disk
  continue_approved_feature a state w =
      if not (has_spec (some (obj state)))
      then (stopped no_spec_metadata, w)
      else if not (str_eq (gate_of state) "spec-approved")
      then (stopped (wrong_gate (gate_of state)), w)
      else start_moved a state (transition s w state "start-impl") w

  abbrev pub after_steer_write :
      Answers
      → (from to event : String) (state : Fields) → Option MutateError × World s.json.Text
      → Disk
      → LaneMove × Disk
  after_steer_write a from to event state (some e, task) w =
      (stopped (not_written e), record w { task = task })
  after_steer_write a from to event state (none, task) w = (
    started from to state,
    log_lane a.lane_logged (steered from to (task_of state) event) (record w { task = task }),
  )

  abbrev pub steer_moved : Answers → String → TransitionResult → Disk → LaneMove × Disk
  steer_moved a event (refused why) w = (stopped (no_transition why), w)
  steer_moved a event (moved from to next) w =
      after_steer_write a from to event next (write_task_state s.json a.first next w.task) w

  -- `steerFeature`.
  unfoldable pub steer_feature : Answers → Fields → String → Disk → LaneMove × Disk
  steer_feature a state event w =
      if not (includes feature_steering_events event)
      then (stopped (not_steering event), w)
      else if not (str_eq (gate_of state) "impl-started")
      then (stopped (wrong_gate (gate_of state)), w)
      else steer_moved a event (transition s w state event) w

  abbrev pub after_escalation_write :
      Answers → String → Fields → Option MutateError × World s.json.Text → Disk → Option Stop × Disk
  after_escalation_write a reason next (some e, task) w =
      (some (not_written e), record w { task = task })
  after_escalation_write a reason next (none, task) w =
      (none, log_lane a.lane_logged (escalated reason (task_of next)) (record w { task = task }))

  -- `escalateChoreToFeature`: none, or why it threw.
  unfoldable pub escalate_chore_to_feature : Answers → Fields → String → Disk → Option Stop × Disk
  escalate_chore_to_feature a state reason w =
      if not (str_eq (lane_of state) "chore")
      then (some (wrong_lane (lane_of state)), w)
      else after_escalation_write a reason (as_feature state)
          (write_task_state s.json a.first (as_feature state) w.task) w

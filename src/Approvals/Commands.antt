-- ===== src/Approvals/Commands.antt =====
-- The other phrases of hooks/approval-listener.mjs: the reset of a corrupt task (`recoverCorruptState`
-- of lib/workflow/bootstrap-task-state.mjs), the revision of a spec, the override of the TDD guard,
-- steering, escalation and near misses. What else a reset moves aside is not modelled.
use devmate.Prelude.{
  String, List, [], ◌∷◌, ◌++◌, Bool, true, false, not, Option, none, some, if◌then◌else◌,
}
use devmate.Prelude.Text.{str_eq, includes, is_blank}
use devmate.Json.{nat, Json, num, bool, str, obj, Fields, end, field, get, set}
use devmate.Gates.Transition.{lane_of, gate_of, task_of}
use devmate.TaskState.Validate.{StateResult, ok, err}
use devmate.TaskState.Store.{
  ReadError, World, absent, next_state, Options, is_state_file_missing, is_state_corrupt,
  read_task_state, mutate_under_lock,
}
use devmate.Preconditions.Context
use devmate.Preconditions.Context.{SpecFile}
use devmate.Approvals.Phrases.{
  escalate_chore_prefix, drop_as, after_colon, or_text, drop_colon, parse_no_tdd_reason,
  parse_revise_spec_feedback, detect_near_miss_approval,
}
use devmate.Approvals.Workspace.{
  Stop, spec_revision_requested, no_tdd_override, Message, reset_done, reset_valid, reset_no_state,
  reset_unreadable, reset_failed, revision_without_task, revision_without_feedback, revision_of,
  steering_unread, steering_other_lane, steering_no_reason, steering_failed, steering_untraced,
  note_not_written, scope_revised, replanned, escalation_no_reason, escalation_unread,
  escalation_other_lane, escalation_other_gate, escalation_failed, escalation_done, did_you_mean,
  untraced, spec_not_readable, spec_not_writable, passthrough, gate_advanced, revision_requested,
  tdd_overridden, threw, Answers, Session, show,
}
use devmate.Approvals.Lanes.{
  LaneMove, started, stopped, Disk, steer_feature, escalate_chore_to_feature,
}
use devmate.Approvals.SpecNote.{spec_with_note}
use devmate.Approvals.Listener.{Prompt, Ended, transition_event}

-- The guard of a state that has none, and the guard that the override leaves.
abbrev empty_guard : Fields
empty_guard =
    field "testFileWritten" (bool false)
      (field "consecutiveNonTestWrites" (num (nat 0)) (field "overrideGranted" (bool false) end))

abbrev pub guard_of : Option Json → Fields
guard_of (some (obj guard)) = guard
guard_of _ = empty_guard

unfoldable pub with_override : String → Fields → Fields
with_override reason state = set state "tddGuard" (
    obj (
      set (set (guard_of (get state "tddGuard")) "overrideGranted" (bool true)) "overrideReason"
        (str reason)))

-- The gates of a chore that is under way.
abbrev pub escalatable_gates : List String
escalatable_gates = "lane-set" ∷ "plan-approved" ∷ "impl-started" ∷ "verification-passed" ∷ []

module _ (s : Session) (a : Answers) where
  -- `recoverCorruptState`, for a state that cannot be read.
  abbrev booted : Disk s → Option String × World s.json.Text → Ended s a
  booted w (created, task) = (passthrough, show (record w { task = task }) (reset_done created))

  abbrev quarantine : Option String → Disk s → Ended s a
  quarantine (some message) w = (passthrough, show w (reset_failed message))
  quarantine none w =
      booted (record w { aside = w.aside ++ w.task.file ∷ [] })
        (s.bootstrap (record w.task { file = absent }))

  unfoldable pub recover : StateResult ReadError → Disk s → Ended s a
  recover (ok state) w = (passthrough, show w (reset_valid (gate_of state)))
  recover (err errors) w =
      if is_state_file_missing errors
      then (passthrough, show w reset_no_state)
      else if not (is_state_corrupt errors)
      then (passthrough, show w reset_unreadable)
      else quarantine a.renamed w

  unfoldable pub reset_task : Disk s → Ended s a
  reset_task w = recover (read_task_state s.json w.task.file) w

  -- `resolveTaskId`.
  abbrev recorded_task : StateResult ReadError → Option String
  recorded_task (ok state) = some (task_of state)
  recorded_task (err errors) = none

  abbrev given_task : Option String → Option String → Option String
  given_task none recorded = recorded
  given_task (some id) recorded = if is_blank id then recorded else some (s.trim id)

  abbrev pub resolve_task_id : Prompt → Disk s → Option String
  resolve_task_id prompt w =
      given_task prompt.task_id (recorded_task (read_task_state s.json w.task.file))

  -- The branch of `revise spec:`; a trace that cannot be appended makes the hook throw.
  abbrev pub revise_for : String → Option String → Option String → Disk s → Ended s a
  revise_for feedback none traced w = (revision_requested feedback, show w revision_without_task)
  revise_for feedback (some task) (some message) w = (threw (untraced message), w)
  revise_for feedback (some task) none w = (
    revision_requested feedback,
    show (record w { trace = w.trace ++ spec_revision_requested task feedback ∷ [] })
        (if str_eq feedback "" then revision_without_feedback else revision_of feedback),
  )

  unfoldable pub revise_spec : Prompt → Disk s → Ended s a
  revise_spec prompt w =
      revise_for (parse_revise_spec_feedback s.trim prompt.raw) (resolve_task_id prompt w) a.traced
        w

  -- `persistTddOverride`.
  abbrev override_options : Options
  override_options = record { expected_version = none; event = some "tdd-override"; ts = none }

  abbrev pub overridden : String → Disk s → Disk s
  overridden reason w = record w {
    task =
        (mutate_under_lock s.json a.repair override_options
          (λ state. next_state (with_override reason state)) w.task).1;
  }

  abbrev pub after_note : String → String → Option String → Disk s → Ended s a
  after_note reason body (some message) w = (threw (spec_not_writable message), w)
  after_note reason body none w =
      (tdd_overridden reason, record w { spec = Context.text (spec_with_note reason body) })

  -- `appendNoTddNoteToSpec`, where only a file that is not there is no error.
  abbrev pub append_note : String → SpecFile → Disk s → Ended s a
  append_note reason Context.absent w = (tdd_overridden reason, w)
  append_note reason Context.unreadable w = (threw (spec_not_readable "spec.md"), w)
  append_note reason (Context.text body) w = after_note reason body a.spec_written w

  abbrev pub override_traced : String → Option String → Option String → Disk s → Ended s a
  override_traced reason (some task) (some message) w = (threw (untraced message), w)
  override_traced reason (some task) none w =
      append_note reason w.spec
        (overridden reason (record w { trace = w.trace ++ no_tdd_override task reason ∷ [] }))
  override_traced reason none traced w = append_note reason w.spec (overridden reason w)

  abbrev pub override_for : Option String → Prompt → Disk s → Ended s a
  override_for none prompt w = (passthrough, w)
  override_for (some reason) prompt w = override_traced reason (resolve_task_id prompt w) a.traced w

  -- The branch of `approve no-tdd`.
  unfoldable pub override_tdd : Prompt → Disk s → Ended s a
  override_tdd prompt w = override_for (parse_no_tdd_reason s.trim prompt.raw) prompt w

  -- What a steering move leads to: the audit event is appended last, and its failure is shown.
  abbrev steering_message : String → String → String → String → Message
  steering_message event from to reason =
      if str_eq event "revise-scope" then scope_revised from to reason else replanned from to reason

  abbrev pub steering_traced :
      (raw event reason from to task : String) → Option String → Disk s → Disk s
  steering_traced raw event reason from to task (some message) w =
      show (show w (steering_untraced from to message)) (steering_message event from to reason)
  steering_traced raw event reason from to task none w =
      show (record w { trace = w.trace ++ transition_event task from to raw ∷ [] })
        (steering_message event from to reason)

  abbrev pub after_steering : (raw event reason task : String) → LaneMove × Disk s → Ended s a
  after_steering raw event reason task (stopped stop, w) =
      (passthrough, show w (steering_failed stop))
  after_steering raw event reason task (started from to state, w) =
      (gate_advanced to, steering_traced raw event reason from to task a.traced w)

  abbrev pub note_json : Fields → String → Json
  note_json state reason = obj (
      field "taskId" (str (task_of state))
        (field "note" (str reason) (field "capturedAt" (str a.now) end)))

  abbrev pub steer_with_note :
      (raw event reason : String) → Fields → Option String → Disk s → Ended s a
  steer_with_note raw event reason state (some message) w =
      (passthrough, show w (note_not_written message))
  steer_with_note raw event reason state none w =
      after_steering raw event reason (task_of state)
        (steer_feature s a state event (record w { note = some (note_json state reason) }))

  abbrev pub captures : String → Fields → Bool
  captures event state =
      if str_eq event "revise-scope" then str_eq (gate_of state) "impl-started" else false

  unfoldable pub steer_of : (event raw reason : String) → StateResult ReadError → Disk s → Ended s a
  steer_of event raw reason (err errors) w = (passthrough, show w steering_unread)
  steer_of event raw reason (ok state) w =
      if not (str_eq (lane_of state) "feature")
      then (passthrough, show w (steering_other_lane (lane_of state) (gate_of state)))
      else if str_eq reason ""
      then (passthrough, show w steering_no_reason)
      else if captures event state
      then steer_with_note raw event reason state a.note_written w
      else after_steering raw event reason (task_of state) (steer_feature s a state event w)

  -- `handleSteeringPhrase`.
  unfoldable pub handle_steering_phrase : String → String → Disk s → Ended s a
  handle_steering_phrase event raw w =
      steer_of event raw (s.trim (or_text raw (after_colon raw)))
        (read_task_state s.json w.task.file) w

  abbrev pub after_escalation : String → Option Stop × Disk s → Ended s a
  after_escalation reason (some e, w) = (passthrough, show w (escalation_failed e))
  after_escalation reason (none, w) =
      (gate_advanced "plan-approved", show w (escalation_done "plan-approved" reason))

  unfoldable pub escalate_of : String → StateResult ReadError → Disk s → Ended s a
  escalate_of reason (err errors) w = (passthrough, show w escalation_unread)
  escalate_of reason (ok state) w =
      if not (str_eq (lane_of state) "chore")
      then (passthrough, show w (escalation_other_lane (lane_of state) (gate_of state)))
      else if not (includes escalatable_gates (gate_of state))
      then (passthrough, show w (escalation_other_gate (gate_of state)))
      else after_escalation reason (escalate_chore_to_feature s a state reason w)

  -- The branch of `escalate chore to feature`.
  unfoldable pub escalate : String → Disk s → Ended s a
  escalate raw w =
      let reason = s.trim (drop_colon (drop_as escalate_chore_prefix raw)) in
      if str_eq reason ""
      then (passthrough, show w escalation_no_reason)
      else escalate_of reason (read_task_state s.json w.task.file) w

  abbrev pub near_miss : Option String → Disk s → Ended s a
  near_miss none w = (passthrough, w)
  near_miss (some phrase) w = (passthrough, show w (did_you_mean phrase))

  unfoldable pub no_phrase : String → Disk s → Ended s a
  no_phrase lower w = near_miss (detect_near_miss_approval lower) w

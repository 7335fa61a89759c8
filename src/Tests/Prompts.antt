-- ===== src/Tests/Prompts.antt =====
-- Prompts of the human.
use devmate.Prelude.{ℕ, none, some, [], ◌∷◌, ◌≡◌, refl}
use devmate.Prelude.Table.{get_own}
use devmate.Prelude.Text.{str_eq, is_blank}
use devmate.Prelude.Codes.{codes}
use devmate.Json.{Json, str, obj, Fields, end, field, get, set}
use devmate.TaskState.Validate.{ok, state_errors, gates_valid_for_lane, validate_task_state}
use devmate.TaskState.Store.{
  holds, record_of, stamp, is_safe_task_id, state_version_of, read_task_state, commit, apply,
  locked_body, mutate_under_lock, write_task_state,
}
use devmate.TaskState.Retry.{Attempt}
use devmate.Gates.Transition.{lane_of, gate_of, enter, transition_gate}
use devmate.Preconditions.Context.{Missing, off}
use devmate.Preconditions.Context
use devmate.Preconditions.{check_gate_precondition, check_impl_started, has_spec}
use devmate.Approvals.Workspace.{gate_advanced, Workspace, Answers, Session, transition}
use devmate.Approvals.Lanes.{as_feature, escalate_chore_to_feature}
use devmate.Approvals.Listener.{approve_plan, plan_loop, plan_round, plan_moved}
use devmate.TaskState.Validate.Laws.{state_errors_iff}
use devmate.TaskState.Store.Laws.{read-print}
use devmate.Approvals.Phrases.{parse_no_tdd_reason, detect_near_miss_approval, slice_after}
use devmate.Approvals.SpecFiles.{extract_spec_files, files_from, split_lines, files_in, bullet}
use devmate.Approvals.SpecNote.{spec_with_note}
use devmate.Approvals.Prompts.{handle_user_prompt_submit}
use devmate.Approvals.PlanCommit.{IsStarted, approve_plan-IsStarted}
use devmate.Approvals.Gates.{PromptMove, Lands}
use devmate.Approvals.Writes.{At}
use devmate.TaskState.Versions.{here}
use devmate.Approvals.PromptGates.{
  handle_user_prompt_submit-PromptMove, handle_user_prompt_submit-plan_approved,
}
use devmate.Approvals.Steps.{escalate_chore_to_feature-current_step}
use devmate.Tests.Samples.{plain_json, quiet_host, task_at, any_date}
use devmate.Tests.Evidence.{same_text, date_zero, bare_record, reads}

abbrev session : Session
session = record {
  trim = same_text;
  to_lower = same_text;
  units = codes;
  same_bytes = str_eq;
  parse_date = date_zero;
  is_date = any_date;
  show_missing = λ _. "missing";
  show_stop = λ _. "stopped";
  reads = reads bare_record 5 off;
  json = plain_json;
  config = none;
  state_path = "task.json";
  handoff_path = λ t. t;
  bootstrap = λ task. (none, task);
}

abbrev fine : Answers
fine = record {
  first = quiet_host;
  follow = quiet_host;
  repair = quiet_host;
  traced = none;
  lane_logged = none;
  note_written = none;
  spec_written = none;
  renamed = none;
  now = "2026";
}

abbrev space_at : Fields → Workspace Json
space_at task = record {
  task = record { file = holds (obj task); log = [] };
  trace = [];
  lane_log = [];
  note = none;
  spec = Context.text "# Spec";
  aside = [];
  shown = [];
}

abbrev alone : ℕ → Attempt Json
alone _ = record { before = λ w. w; between = λ w. w; host = quiet_host }

abbrev planned_bug : Fields
planned_bug = task_at "bug" "plan-approved"

bug_starts :
    (approve_plan session fine alone "approve plan" (space_at planned_bug)).0
    ≡ gate_advanced "impl-started"
unfolding approve_plan plan_loop plan_round plan_moved transition transition_gate get_own get set
    read_task_state validate_task_state state_errors gates_valid_for_lane is_blank
    check_gate_precondition check_impl_started enter mutate_under_lock locked_body apply commit
    stamp state_version_of record_of is_safe_task_id
bug_starts = refl

abbrev reviewed_feature : Fields
reviewed_feature =
    set (task_at "feature" "spec-approved") "artifactHashes"
      (obj (field "spec" (str "spec.md") (field "specDigest" (str "d") end)))

feature_starts_by_plan :
    (approve_plan session fine alone "approve plan" (space_at reviewed_feature)).0
    ≡ gate_advanced "impl-started"
unfolding approve_plan plan_loop plan_round plan_moved transition transition_gate get_own get set
    read_task_state validate_task_state state_errors gates_valid_for_lane is_blank
    check_gate_precondition check_impl_started enter mutate_under_lock locked_body apply commit
    stamp state_version_of record_of is_safe_task_id has_spec
feature_starts_by_plan = refl

approve_plan-IsStarted_example :
    IsStarted session fine "approve plan" alone [] "impl-started"
      (approve_plan session fine alone "approve plan" (space_at planned_bug)).1
approve_plan-IsStarted_example =
    approve_plan-IsStarted session fine "approve plan" alone (λ i task. here) (space_at planned_bug)
      "impl-started" bug_starts

read_as :
    (task : Fields)
    → state_errors (obj task) ≡ []
    → read_task_state plain_json (holds (obj task)) ≡ ok task
read_as task valid = read-print plain_json task ((state_errors_iff task).0 valid)

valid_bug : state_errors (obj planned_bug) ≡ []
unfolding state_errors gates_valid_for_lane get is_blank
valid_bug = refl

handle_user_prompt_submit-PromptMove_example :
    Lands session
      (PromptMove "approve plan" "bug" "plan-approved")
      planned_bug
      (handle_user_prompt_submit session fine alone
        (record { raw = "approve plan"; task_id = none })
        (space_at planned_bug)).1.task
unfolding get
handle_user_prompt_submit-PromptMove_example =
    handle_user_prompt_submit-PromptMove session fine alone
      (record { raw = "approve plan"; task_id = none }) (space_at planned_bug) planned_bug
      (λ i task. (refl, refl)) (read_as planned_bug valid_bug)

abbrev planned_feature : Fields
planned_feature = task_at "feature" "plan-approved"

valid_feature : state_errors (obj planned_feature) ≡ []
unfolding state_errors gates_valid_for_lane get is_blank
valid_feature = refl

handle_user_prompt_submit-plan_approved_example :
    (state' : Fields) × At plain_json
      (handle_user_prompt_submit session fine alone
        (record { raw = "approve plan"; task_id = none })
        (space_at planned_feature)).1.task
      state'
    × (gate_of state' ≡ "plan-approved")
unfolding get
handle_user_prompt_submit-plan_approved_example =
    handle_user_prompt_submit-plan_approved session fine alone
      (record { raw = "approve plan"; task_id = none }) (space_at planned_feature) planned_feature
      (λ i task. (refl, refl)) (read_as planned_feature valid_feature) refl refl

abbrev busy_chore : Fields
busy_chore = task_at "chore" "impl-started"

chore_escalates :
    (escalate_chore_to_feature session fine busy_chore "wider" (space_at busy_chore)).0 ≡ none
unfolding escalate_chore_to_feature as_feature write_task_state state_errors gates_valid_for_lane
    get set is_blank
chore_escalates = refl

escalate_chore_to_feature-current_step_example :
    (lane_of busy_chore ≡ "chore")
    × ((next : Fields) × At plain_json
          (escalate_chore_to_feature session fine busy_chore "wider" (space_at busy_chore)).1.task
          next
        × (lane_of next ≡ "feature")
        × (gate_of next ≡ "plan-approved")
        × (get next "currentStep" ≡ get busy_chore "currentStep"))
escalate_chore_to_feature-current_step_example =
    escalate_chore_to_feature-current_step session fine busy_chore "wider" (space_at busy_chore)
      chore_escalates

no_reason : parse_no_tdd_reason same_text "approve no-tdd Reason = \"legacy\"" ≡ some "legacy"
unfolding parse_no_tdd_reason
no_reason = refl

spec_near_miss : detect_near_miss_approval "approve the spec" ≡ some "approve spec"
unfolding detect_near_miss_approval
spec_near_miss = refl

no_near_miss : detect_near_miss_approval "approve practice" ≡ none
unfolding detect_near_miss_approval
no_near_miss = refl

spec_bullets :
    extract_spec_files codes
      (Context.text "# S\n## Files that will change\n- `a.mjs` (new)\n* b.ts\n## Out\n- c")
    ≡ codes "a.mjs" ∷ codes "b.ts" ∷ []
unfolding extract_spec_files files_from split_lines files_in bullet
spec_bullets = refl

noted :
    spec_with_note "legacy" "## Out of scope\n- x\n"
    ≡ "## Out of scope\n- No-TDD override approved by human: legacy\n- x\n"
unfolding spec_with_note slice_after
noted = refl

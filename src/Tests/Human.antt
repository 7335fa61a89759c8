-- ===== src/Tests/Human.antt =====
-- Approvals by a human.
use devmate.Prelude.{String, Option, none, some, [], ◌≡◌, refl}
use devmate.Prelude.Table.{get_own}
use devmate.Prelude.Text.{str_eq, is_blank}
use devmate.Json.{Json, obj, Fields, get, set}
use devmate.Gates.Transition.{enter}
use devmate.TaskState.Validate.{state_errors, gates_valid_for_lane, validate_task_state}
use devmate.TaskState.Store.{World, holds, read_task_state, write_task_state}
use devmate.Preconditions.Context.{off}
use devmate.Preconditions.{check_gate_precondition}
use devmate.Gatectl.{advance_gate, is_human_approval_gate}
use devmate.Gatectl.Human.{
  no_audit, HumanAdvance, approved, refused, AuditWorld, judge_state, judge_advance, persist,
  advance_human_gate,
}
use devmate.Gatectl.Human.Approvable.{IsApprovable}
use devmate.Gatectl.Human.Audit.{IsRecorded, advance_human_gate-IsApprovable}
use devmate.Tests.Samples.{plain_json, quiet_host, task_at, any_date}
use devmate.Tests.Evidence.{same_text, date_zero, bare_record, reads}

abbrev drafted : Fields
drafted = task_at "feature" "spec-draft"

abbrev before : AuditWorld Json
before = record { task = record { file = holds (obj drafted); log = [] }; trace = [] }

-- A writer between the read and the write starts the implementation.
abbrev others : World Json → World Json
others world = record world { file = holds (obj (task_at "feature" "impl-started")) }

abbrev approval_of : Option String → Option String → HumanAdvance × AuditWorld Json
approval_of append_error evidence =
    advance_human_gate same_text str_eq date_zero any_date (reads bare_record 5 off) plain_json
      quiet_host others append_error "spec-draft" "spec-approved" (some "user") evidence before

no_evidence : (approval_of none (some " ")).0 ≡ refused (no_audit "spec-approved")
unfolding advance_human_gate persist judge_advance is_human_approval_gate is_blank
no_evidence = refl

spec_is_approved :
    (approval_of none (some "approve spec")).0
    ≡ approved "spec-draft" "spec-approved" (enter drafted "spec-approved")
unfolding advance_human_gate persist judge_advance judge_state is_human_approval_gate is_blank
    advance_gate get_own get set read_task_state write_task_state validate_task_state state_errors
    gates_valid_for_lane check_gate_precondition enter
spec_is_approved = refl

advance_human_gate-IsApprovable_example :
    (state : Fields) × IsApprovable same_text str_eq date_zero any_date
      (reads bare_record 5 off)
      plain_json
      "spec-draft"
      "spec-approved"
      (some "user")
      (some "approve spec")
      before.task.file
      state
    × IsRecorded same_text str_eq date_zero any_date
        (reads bare_record 5 off)
        plain_json
        quiet_host
        others
        none
        "spec-draft"
        "spec-approved"
        (some "user")
        (some "approve spec")
        before
        state
        (enter drafted "spec-approved")
        (approval_of none (some "approve spec")).1
advance_human_gate-IsApprovable_example =
    advance_human_gate-IsApprovable same_text str_eq date_zero any_date (reads bare_record 5 off)
      plain_json quiet_host others none "spec-draft" "spec-approved" (some "user")
      (some "approve spec") before "spec-draft" "spec-approved" (enter drafted "spec-approved")
      spec_is_approved

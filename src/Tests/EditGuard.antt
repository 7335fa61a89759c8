-- ===== src/Tests/EditGuard.antt =====
-- The edit guard.
use devmate.Prelude.{
  ℕ, ◌+◌, String, true, false, ◌&&◌, none, some, [], ◌∷◌, ◌++◌, ◌≡◌, ◌≢◌, ◌↔◌, refl, map, leb,
  if◌then◌else◌,
}
use devmate.Prelude.Codes.{codes, starts_with}
use devmate.Glob.{
  Code, forward_slashes, split_slash, same_code, any_suffix, match_segment, match_head,
  match_segments, match_glob,
}
use devmate.TddGuard.{is_test_path, is_source_path, evaluate_tdd_pre_condition}
use devmate.EditGuard.Artifacts.{
  marker_tail, normalize_artifact_path, judge_artifact, session_artifact_verdict,
}
use devmate.EditGuard.Tools.{is_source_edit_tool}
use devmate.EditGuard.{
  HookPayload, GuardedTask, loaded, Options, GuardDecision, allow, deny, Reason,
  is_edit_allowed_at_gate, in_scope, tdd_blocks, within_contract, judge_edit, is_edit, verdict_of,
  evaluate_guard,
}
use devmate.EditGuard.Rules.{IsPermitted, evaluate_guard-allow_iff}
use devmate.EditGuard.StateFiles.{evaluate_guard-state_files}

abbrev lower_unit : ℕ → ℕ
lower_unit c = if leb 65 c && leb c 90 then c + 32 else c

abbrev lower : Code → Code
lower = map lower_unit

abbrev edit_of : String → HookPayload
edit_of path = record {
  tool_name = "create_file";
  path = codes path;
  command = none;
  named_paths = none;
}

abbrev started : GuardedTask
started = record {
  workflow_gate = "impl-started";
  lane = "chore";
  tdd_guard = some (record {
    test_file_written = true;
    consecutive_non_test_writes = 0;
    override_granted = false;
    override_reason = none;
  });
}

abbrev drafting : GuardedTask
drafting = record { workflow_gate = "spec-draft"; lane = "feature"; tdd_guard = none }

abbrev options : Options
options = record {
  session_artifact_paths = none;
  session_artifact_writers = none;
  active_agent = some "spec-writer";
  scope = some (record { allowed_paths = codes "src/a.js" ∷ []; allowed_globs = [] });
  budget_critical = false;
  edit_escapes_workspace = false;
}

abbrev decide : HookPayload → GuardedTask → GuardDecision
decide payload task = evaluate_guard lower payload (some task) (loaded none) options

in_contract : decide (edit_of "src\\a.js") started ≡ allow
unfolding evaluate_guard judge_edit within_contract in_scope tdd_blocks is_edit_allowed_at_gate
    is_source_edit_tool session_artifact_verdict judge_artifact normalize_artifact_path marker_tail
    match_glob match_segments match_head match_segment any_suffix split_slash same_code
    forward_slashes evaluate_tdd_pre_condition is_test_path is_source_path
in_contract = refl

out_of_contract : decide (edit_of "src/b.js") started ≡ deny Reason.out_of_scope
unfolding evaluate_guard judge_edit within_contract in_scope tdd_blocks is_edit_allowed_at_gate
    is_source_edit_tool session_artifact_verdict judge_artifact normalize_artifact_path marker_tail
    match_glob match_segments match_head match_segment any_suffix split_slash same_code
    forward_slashes
out_of_contract = refl

spec_by_its_writer : decide (edit_of "C:\\ws\\.devmate\\session\\t1\\Spec.md") drafting ≡ allow
unfolding evaluate_guard judge_edit is_edit_allowed_at_gate is_source_edit_tool
    session_artifact_verdict judge_artifact normalize_artifact_path marker_tail match_glob
    match_segments match_head match_segment any_suffix split_slash same_code forward_slashes
spec_by_its_writer = refl

too_early : decide (edit_of "src/a.js") drafting ≡ deny (Reason.not_started "spec-draft" "feature")
unfolding evaluate_guard judge_edit is_edit_allowed_at_gate is_source_edit_tool
    session_artifact_verdict judge_artifact normalize_artifact_path marker_tail match_glob
    match_segments match_head match_segment any_suffix split_slash same_code forward_slashes
too_early = refl

is_an_edit : is_edit lower (edit_of "src/a.js") ≡ true
unfolding is_source_edit_tool
is_an_edit = refl

evaluate_guard-allow_iff_example :
    (evaluate_guard lower (edit_of "src/a.js") (some started) (loaded none) options ≡ allow)
    ↔ IsPermitted
        (edit_of "src/a.js")
        started
        none
        options
        (verdict_of lower (edit_of "src/a.js") options)
evaluate_guard-allow_iff_example =
    evaluate_guard-allow_iff lower (edit_of "src/a.js") started none options is_an_edit

abbrev relative_path : Code
relative_path = codes ".devmate/state/task.json"

abbrev upper_path : Code
upper_path = codes ".DEVMATE\\State/task.json"

relative-marked :
    starts_with (codes ".devmate/") (map lower_unit (forward_slashes relative_path)) ≡ true
unfolding forward_slashes
relative-marked = refl

upper-relative :
    map lower_unit (forward_slashes upper_path) ≡ map lower_unit (forward_slashes relative_path)
unfolding forward_slashes
upper-relative = refl

state_file_edit : is_edit lower (edit_of "C:\\ws\\.DEVMATE\\state\\task.json") ≡ true
unfolding is_source_edit_tool
state_file_edit = refl

state_file_normal :
    normalize_artifact_path lower (codes "C:\\ws\\.DEVMATE\\state\\task.json")
    ≡ codes ".devmate/state/" ++ codes "task.json"
unfolding normalize_artifact_path marker_tail forward_slashes
state_file_normal = refl

evaluate_guard-state_files_example :
    evaluate_guard lower
      (edit_of "C:\\ws\\.DEVMATE\\state\\task.json")
      (some started)
      (loaded none)
      options
    ≢ allow
evaluate_guard-state_files_example =
    evaluate_guard-state_files lower (refl, refl) (edit_of "C:\\ws\\.DEVMATE\\state\\task.json")
      (some started) (loaded none) options (codes "task.json") state_file_edit refl refl
      state_file_normal

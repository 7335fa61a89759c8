-- ===== src/EditGuard.antt =====
-- `evaluateGuard` of lib/gate-guard-core.mjs: whether a tool call may edit source. `toLowerCase` is a
-- parameter.
pub mod Artifacts
pub mod Tools
pub mod Segments
pub mod Shell
pub mod Contract
pub mod Rules
pub mod Protection
pub mod StateFiles
use devmate.Prelude.{
  ℕ, String, List, [], ◌∷◌, Bool, true, false, not, ◌&&◌, ◌||◌, Option, none, some, if◌then◌else◌,
  any,
}
use devmate.Prelude.Text.{includes, str_eq}
use devmate.Prelude.Codes.{codes, starts_with, code_eq, strip_dot_slash}
use devmate.Glob.{Code, forward_slashes, match_glob}
use devmate.TddGuard.{TddGuardState, TddDecision, evaluate_tdd_pre_condition}
use devmate.EditGuard.Artifacts.{
  Writer, SessionArtifactVerdict, not_artifact, writer_allowed, writer_denied,
  session_artifact_verdict, default_session_artifact_paths, default_session_artifact_writers,
}
use devmate.EditGuard.Shell.{shell_writes_source}
use devmate.EditGuard.Tools.{is_source_edit_tool, is_unrecognized_tool}

-- `IMPL_GATES` and `isEditAllowedAtGate` of lib/gate-edit-policy.mjs.
abbrev pub impl_gates : List String
impl_gates = "impl-started" ∷ "verification-passed" ∷ "pr-ready" ∷ "done" ∷ []

unfoldable pub is_edit_allowed_at_gate : String → Bool
is_edit_allowed_at_gate gate = includes impl_gates gate

-- `HookPayload`, with the empty path for none.
pub record HookPayload : Type 0 where
  pub tool_name : String
  pub path : Code
  pub command : Option Code
  pub named_paths : Option (List Code)

-- What the guard reads of a task state.
pub record GuardedTask : Type 0 where
  pub workflow_gate : String
  pub lane : String
  pub tdd_guard : Option TddGuardState

-- `ConfigResult`: the test globs of a configuration that loads, or the error.
pub data ConfigResult : Type 0 where
  loaded : Option (List Code) → ConfigResult
  failed : String → ConfigResult

pub record ParsedScope : Type 0 where
  pub allowed_paths : List Code
  pub allowed_globs : List Code

pub record Options : Type 0 where
  pub session_artifact_paths : Option (List Code)
  pub session_artifact_writers : Option (List Writer)
  pub active_agent : Option String
  pub scope : Option ParsedScope
  pub budget_critical : Bool
  pub edit_escapes_workspace : Bool

-- The reasons of a deny, one for each text.
pub data Reason : Type 0 where
  config_invalid : String → Reason
  not_a_writer no_active_task budget_is_critical : Reason
  not_started : String → String → Reason
  unrecognized_tool : String → Reason
  terminal_edit outside_workspace : Reason
  no_scope_contract : String → String → Reason
  out_of_scope no_test_written : Reason

pub data GuardDecision : Type 0 where
  allow : GuardDecision
  deny : Reason → GuardDecision

abbrev pub or_default {ℓ} : {A : Type ℓ} → Option A → A → A
or_default none d = d
or_default (some a) d = a

-- `DEFAULT_TEST_GLOBS` and `INITIAL_TDD_GUARD`.
abbrev pub default_test_globs : List Code
default_test_globs =
    codes "**/*.test.mjs"
    ∷ codes "**/*.spec.mjs"
    ∷ codes "**/*.test.ts"
    ∷ codes "**/*.spec.ts"
    ∷ codes "**/*.test.js"
    ∷ codes "**/*.spec.js"
    ∷ codes "test/**"
    ∷ codes "tests/**"
    ∷ codes "**/__tests__/**"
    ∷ []

abbrev pub initial_tdd_guard : TddGuardState
initial_tdd_guard = record {
  test_file_written = false;
  consecutive_non_test_writes = 0;
  override_granted = false;
  override_reason = none;
}

-- A write to the compaction's own files, which rule 2b lets pass.
abbrev pub is_cleanup_path : Code → Bool
is_cleanup_path path = starts_with (codes ".devmate/") (strip_dot_slash (forward_slashes path))

-- Rule 6: the path is one of the contract's, or matches one of its globs.
unfoldable pub in_scope : ParsedScope → Code → Bool
in_scope scope path =
    let normalized = forward_slashes path in
    any (λ p. code_eq (forward_slashes p) normalized) scope.allowed_paths
    || any (λ g. match_glob g normalized) scope.allowed_globs

-- Rule 7, which holds only at the gate impl-started.
unfoldable pub tdd_blocks : GuardedTask → Option (List Code) → Code → Bool
tdd_blocks task test_globs path =
    if str_eq task.workflow_gate "impl-started"
    then elim (evaluate_tdd_pre_condition path (or_default task.tdd_guard initial_tdd_guard)
        (or_default test_globs default_test_globs)) [
          | TddDecision.allow ↦ false
          | TddDecision.block ↦ true
        ]
    else false

-- Rules 6 to 8, for an edit of a path at a gate where source may be edited.
unfoldable pub within_contract : GuardedTask → Option (List Code) → Options → Code → GuardDecision
within_contract task test_globs opts path =
    if opts.edit_escapes_workspace then deny outside_workspace else elim opts.scope [
      | none ↦ deny (no_scope_contract task.workflow_gate task.lane)
      | some scope ↦
          if not (in_scope scope path)
          then deny out_of_scope
          else if tdd_blocks task test_globs path
          then deny no_test_written
          else allow
    ]

-- An artifact's writer is allowed and anyone else denied; another path is left to `otherwise`.
abbrev pub by_verdict : SessionArtifactVerdict → GuardDecision → GuardDecision
by_verdict writer_allowed otherwise = allow
by_verdict writer_denied otherwise = deny not_a_writer
by_verdict not_artifact otherwise = otherwise

-- Rules 2b to 8, for an edit under a task that is read.
unfoldable pub judge_edit :
    HookPayload
    → GuardedTask
    → Option (List Code)
    → Options
    → SessionArtifactVerdict
    → GuardDecision
judge_edit payload task test_globs opts verdict =
    if opts.budget_critical && not (is_cleanup_path payload.path)
    then deny budget_is_critical
    else if not (is_edit_allowed_at_gate task.workflow_gate)
    then by_verdict verdict (deny (not_started task.workflow_gate task.lane))
    else if code_eq payload.path []
    then if is_unrecognized_tool payload.tool_name
      then deny (unrecognized_tool payload.tool_name)
      else deny terminal_edit
    else by_verdict verdict (within_contract task test_globs opts payload.path)

module _ (to_lower_case : Code → Code) where
  abbrev pub is_edit : HookPayload → Bool
  is_edit payload =
      is_source_edit_tool to_lower_case (shell_writes_source to_lower_case) payload.tool_name
        payload.command payload.named_paths

  abbrev pub verdict_of : HookPayload → Options → SessionArtifactVerdict
  verdict_of payload opts =
      session_artifact_verdict to_lower_case payload.path
        (or_default opts.session_artifact_paths default_session_artifact_paths)
        (or_default opts.session_artifact_writers default_session_artifact_writers)
        (or_default opts.active_agent "")

  -- `evaluateGuard`. No rule denies a call that is no edit.
  unfoldable pub evaluate_guard :
      HookPayload → Option GuardedTask → ConfigResult → Options → GuardDecision
  evaluate_guard payload state (failed error) opts =
      if is_edit payload then deny (config_invalid error) else allow
  evaluate_guard payload none (loaded test_globs) opts =
      if is_edit payload then by_verdict (verdict_of payload opts) (deny no_active_task) else allow
  evaluate_guard payload (some task) (loaded test_globs) opts =
      if is_edit payload
      then judge_edit payload task test_globs opts (verdict_of payload opts)
      else allow

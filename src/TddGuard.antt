-- ===== src/TddGuard.antt =====
-- The TDD guard: `evaluateTddPreCondition` and `applyTddGuardTransition` of
-- lib/gate-guard-core.mjs.
pub mod Runs
use devmate.Prelude.{
  ℕ, ◌+◌, List, [], ◌∷◌, Bool, true, false, not, ◌&&◌, if◌then◌else◌, ◌==◌, ltb, any, String,
  Option,
}
use devmate.Glob.{Code, forward_slashes, same_code, match_glob}

-- `SOURCE_FILE_EXTS`.
abbrev source_file_exts : List Code
source_file_exts =
    (b'.' ∷ b'm' ∷ b'j' ∷ b's' ∷ [])
    ∷ (b'.' ∷ b't' ∷ b's' ∷ [])
    ∷ (b'.' ∷ b't' ∷ b's' ∷ b'x' ∷ [])
    ∷ (b'.' ∷ b'j' ∷ b's' ∷ [])
    ∷ (b'.' ∷ b'j' ∷ b's' ∷ b'x' ∷ [])
    ∷ []

-- `normalized.slice(normalized.lastIndexOf('.'))`, and nothing where there is no dot.
abbrev or_this : Code → Code → Code
or_this [] this = this
or_this (c ∷ cs) this = c ∷ cs

abbrev ext_of : Code → Code
ext_of [] = []
ext_of (c ∷ cs) = or_this (ext_of cs) (if c == 46 then c ∷ cs else [])

unfoldable pub is_source_path : Code → Bool
is_source_path file =
    let ext = ext_of (forward_slashes file) in any (λ e. same_code e ext) source_file_exts

unfoldable pub is_test_path : List Code → Code → Bool
is_test_path test_globs file =
    let normalized = forward_slashes file in any (λ g. match_glob g normalized) test_globs

-- `TddGuardState`.
pub record TddGuardState : Type 0 where
  pub test_file_written : Bool
  pub consecutive_non_test_writes : ℕ
  pub override_granted : Bool
  pub override_reason : Option String

pub data TddDecision : Type 0 where
  allow block : TddDecision

abbrev is_allow : TddDecision → Bool
is_allow allow = true
is_allow block = false

unfoldable pub evaluate_tdd_pre_condition : Code → TddGuardState → List Code → TddDecision
evaluate_tdd_pre_condition file state test_globs =
    if state.override_granted
    then allow
    else if is_test_path test_globs file
    then allow
    else if not (is_source_path file)
    then allow
    else if state.test_file_written
    then allow
    else block

abbrev with_writes : TddGuardState → Bool → ℕ → TddGuardState
with_writes prev test_written writes = record {
  test_file_written = test_written;
  consecutive_non_test_writes = writes;
  override_granted = prev.override_granted;
  override_reason = prev.override_reason;
}

unfoldable pub apply_tdd_guard_transition :
    TddGuardState → TddDecision → Code → List Code → TddGuardState
apply_tdd_guard_transition prev decision file test_globs =
    if is_test_path test_globs file
    then with_writes prev true 0
    else if is_source_path file && not prev.test_file_written
    then with_writes prev prev.test_file_written (prev.consecutive_non_test_writes + 1)
    else if is_allow decision && prev.test_file_written && ltb 0 prev.consecutive_non_test_writes
    then with_writes prev prev.test_file_written 0
    else prev

-- The guard over a sequence of attempted writes: each is judged, and then changes the state.
abbrev pub guard_step : List Code → TddGuardState → Code → TddGuardState
guard_step test_globs state file =
    apply_tdd_guard_transition state (evaluate_tdd_pre_condition file state test_globs) file
      test_globs

abbrev pub guard_run : List Code → TddGuardState → List Code → TddGuardState
guard_run test_globs state [] = state
guard_run test_globs state (file ∷ files) =
    guard_run test_globs (guard_step test_globs state file) files

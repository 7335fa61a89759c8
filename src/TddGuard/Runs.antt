-- ===== src/TddGuard/Runs.antt =====
-- What the TDD guard enforces over a sequence of writes.
use devmate.Prelude.{List, [], ◌∷◌, Bool, true, false, ◌||◌, ◌≡◌, refl, ◌∙◌, ◌↔◌, arith, any}
use devmate.Glob.{Code}
use devmate.TddGuard.{
  TddGuardState, block, is_test_path, is_source_path, evaluate_tdd_pre_condition,
  apply_tdd_guard_transition, guard_step, guard_run,
}

step-written :
    (test_globs : List Code) (state : TddGuardState) (file : Code)
    → (guard_step test_globs state file).test_file_written
      ≡ (state.test_file_written || is_test_path test_globs file)
unfolding apply_tdd_guard_transition
step-written test_globs state file = ground arith

step-override :
    (test_globs : List Code) (state : TddGuardState) (file : Code)
    → (guard_step test_globs state file).override_granted ≡ state.override_granted
unfolding apply_tdd_guard_transition
step-override test_globs state file = ground arith

or_assoc : (a b c : Bool) → ((a || b) || c) ≡ (a || (b || c))
or_assoc a b c = ground arith

run-written :
    (test_globs : List Code) (state : TddGuardState) (files : List Code)
    → (guard_run test_globs state files).test_file_written
      ≡ (state.test_file_written || any (is_test_path test_globs) files)
run-written test_globs state [] = ground arith
run-written test_globs state (file ∷ files) =
    let earlier = run-written test_globs (guard_step test_globs state file) files in
    ground (arith, earlier, step-written test_globs state file)

run-override :
    (test_globs : List Code) (state : TddGuardState) (files : List Code)
    → (guard_run test_globs state files).override_granted ≡ state.override_granted
run-override test_globs state [] = refl
run-override test_globs state (file ∷ files) =
    run-override test_globs (guard_step test_globs state file) files
    ∙ step-override test_globs state file

evaluate-block_iff :
    (test_globs : List Code) (state : TddGuardState) (file : Code)
    → (evaluate_tdd_pre_condition file state test_globs ≡ block) ↔ (
        (state.override_granted ≡ false)
        × (is_test_path test_globs file ≡ false)
        × (is_source_path file ≡ true)
        × (state.test_file_written ≡ false))
unfolding evaluate_tdd_pre_condition
evaluate-block_iff test_globs state file = ground arith

-- After any sequence of writes, the next write is blocked exactly where no override is granted, the
-- file is a source file and no test file, and neither the first state nor any write of the sequence
-- has a test file.
pub evaluate_tdd_pre_condition-block_iff :
    (test_globs : List Code) (state : TddGuardState) (files : List Code) (file : Code)
    → (evaluate_tdd_pre_condition file (guard_run test_globs state files) test_globs ≡ block) ↔ (
        (state.override_granted ≡ false)
        × (is_test_path test_globs file ≡ false)
        × (is_source_path file ≡ true)
        × (state.test_file_written ≡ false)
        × (any (is_test_path test_globs) files ≡ false))
evaluate_tdd_pre_condition-block_iff test_globs state files file =
    let (f, g) = evaluate-block_iff test_globs (guard_run test_globs state files) file in
    let override = run-override test_globs state files in
    let tested = run-written test_globs state files in
    (
      (λ h. let (a, b, c, d) = f h in ground arith),
      λ (a, b, c, d, e). g (rw override a, b, c, rw tested (ground arith)),
    )

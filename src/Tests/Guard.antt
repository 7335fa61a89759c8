-- ===== src/Tests/Guard.antt =====
-- The edit boundary and the TDD guard.
use devmate.Prelude.{List, [], ◌∷◌, true, false, none, some, ◌≡◌, ◌↔◌, All, any}
use devmate.Glob.{Code}
use devmate.Ownership.{Persona, files_outside_persona_scope}
use devmate.Ownership.Boundary.{IsWithin, files_outside_persona_scope-IsWithin_iff}
use devmate.TddGuard.{
  TddGuardState, block, is_test_path, is_source_path, evaluate_tdd_pre_condition, guard_run,
}
use devmate.TddGuard.Runs.{evaluate_tdd_pre_condition-block_iff}
use devmate.Tests.Samples.{codes}

abbrev api_persona : Persona
api_persona = record {
  persona = "backend";
  editable_globs = codes "api/*" ∷ [];
  off_limits_globs = some (codes "api/x" ∷ []);
  repo = none;
}

files_outside_persona_scope-IsWithin_iff_example :
    (files_outside_persona_scope "backend" (codes "api/a" ∷ codes "api/x" ∷ []) (api_persona ∷ [])
      ≡ [])
    ↔ All (IsWithin "backend" (api_persona ∷ [])) (codes "api/a" ∷ codes "api/x" ∷ [])
files_outside_persona_scope-IsWithin_iff_example =
    files_outside_persona_scope-IsWithin_iff "backend" (codes "api/a" ∷ codes "api/x" ∷ [])
      (api_persona ∷ [])

abbrev fresh : TddGuardState
fresh = record {
  test_file_written = false;
  consecutive_non_test_writes = 0;
  override_granted = false;
  override_reason = none;
}

abbrev test_globs : List Code
test_globs = codes "test/*" ∷ []

evaluate_tdd_pre_condition-block_iff_example :
    (evaluate_tdd_pre_condition
        (codes "src/a.ts")
        (guard_run test_globs fresh (codes "src/b.ts" ∷ codes "test/a.ts" ∷ []))
        test_globs
      ≡ block)
    ↔ ((false ≡ false)
        × (is_test_path test_globs (codes "src/a.ts") ≡ false)
        × (is_source_path (codes "src/a.ts") ≡ true)
        × (false ≡ false)
        × (any (is_test_path test_globs) (codes "src/b.ts" ∷ codes "test/a.ts" ∷ []) ≡ false))
evaluate_tdd_pre_condition-block_iff_example =
    evaluate_tdd_pre_condition-block_iff test_globs fresh
      (codes "src/b.ts" ∷ codes "test/a.ts" ∷ []) (codes "src/a.ts")

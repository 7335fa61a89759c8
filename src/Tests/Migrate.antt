-- ===== src/Tests/Migrate.antt =====
-- Migrations of task states, and renames.
use devmate.Prelude.{ℕ, zero, suc, some, none, ◌≡◌, refl, ◌↔◌}
use devmate.Json.{obj, get}
use devmate.TaskState.Validate.{ok, validate_task_state, gates_valid_for_lane}
use devmate.TaskState.Validate.Spec.{IsTaskState, Contains, HasTextValues}
use devmate.TaskState.Validate.Laws.{validate_task_state_iff}
use devmate.TaskState.Migrate.{migrated, migrated_lane, migrated_gate, migrated_hashes}
use devmate.TaskState.Migrate.Validity.{migrated-IsTaskState_iff}
use devmate.TaskState.Rename.{Outcome, renamed, refused, done, commit_rename_with_retry}
use devmate.TaskState.Rename.Outcomes.{IsReached, commit_rename_with_retry-done_iff}
use devmate.Tests.Samples.{task_at, started_feature, started_feature-IsTaskState}

migrated-IsTaskState_iff_example :
    IsTaskState (get (migrated (get (task_at "chore" "spec-draft")))) ↔ (
      Contains
        (gates_valid_for_lane (migrated_lane (get (task_at "chore" "spec-draft") "lane")))
        (migrated_gate (get (task_at "chore" "spec-draft") "workflowGate"))
      × HasTextValues (migrated_hashes (get (task_at "chore" "spec-draft") "artifactHashes")))
migrated-IsTaskState_iff_example = migrated-IsTaskState_iff (get (task_at "chore" "spec-draft"))

started_accepted : validate_task_state (obj started_feature) ≡ ok started_feature
started_accepted =
    (validate_task_state_iff (obj started_feature) started_feature).1
      (refl, started_feature-IsTaskState)

abbrev busy_once : ℕ → Outcome
busy_once zero = refused (some "EBUSY")
busy_once (suc n) = renamed

commit_rename_with_retry-done_iff_example :
    (commit_rename_with_retry busy_once none ≡ done) ↔ IsReached busy_once 0 5
commit_rename_with_retry-done_iff_example = commit_rename_with_retry-done_iff busy_once none

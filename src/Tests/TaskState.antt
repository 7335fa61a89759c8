-- ===== src/Tests/TaskState.antt =====
-- Reading and writing task.json.
use devmate.Prelude.{ℕ, ◌+◌, ◌≡◌, ◌<◌, ◌⊎◌, refl, ◌↔◌, Option, none, some, []}
use devmate.Prelude.Text.{is_blank}
use devmate.Json.{Json, Fields, get, set, obj, end}
use devmate.TaskState.Validate.{ok, state_errors, validate_task_state, gates_valid_for_lane}
use devmate.TaskState.Validate.Spec.{IsTaskState}
use devmate.TaskState.Validate.Laws.{validate_task_state_iff, state_errors_iff}
use devmate.TaskState.Store.{
  World, holds, written, Mutated, next_state, Options, state_version_of, read_task_state, stamp,
  mutate_under_lock, write_task_state, locked_body, apply, commit,
}
use devmate.TaskState.Store.Laws.{Commit, mutate_written, mutate_unwritten}
use devmate.TaskState.Store.Success.{write-read}
use devmate.TaskState.Versions.{here, step, Evolves-grows}
use devmate.TaskState.Retry.{
  Attempt, RetryOptions, mutate_with_retry, retry_loop, round, propose, settle, attempt,
}
use devmate.TaskState.Retry.Laws.{Won, mutate_with_retry-Won}
use devmate.TaskState.Blind.{blind_write_unseen}
use devmate.Tests.Samples.{
  plain_json, quiet_host, started_feature, approved_feature, started_feature-IsTaskState,
}

abbrev started_world : World Json
started_world = record { file = holds (obj started_feature); log = [] }

abbrev approved_world : World Json
approved_world = record { file = holds (obj approved_feature); log = [] }

abbrev pin_of : ℕ → Options
pin_of n = record { expected_version = some n; event = none; ts = none }

abbrev to_started : Fields → Mutated
to_started _ = next_state started_feature

validate_task_state_iff_example :
    (validate_task_state (obj started_feature) ≡ ok started_feature)
    ↔ ((obj started_feature ≡ obj started_feature) × IsTaskState (get started_feature))
validate_task_state_iff_example = validate_task_state_iff (obj started_feature) started_feature

reads_started : read_task_state plain_json (holds (obj started_feature)) ≡ ok started_feature
unfolding read_task_state validate_task_state state_errors get gates_valid_for_lane is_blank
reads_started = refl

reads_approved : read_task_state plain_json (holds (obj approved_feature)) ≡ ok approved_feature
unfolding read_task_state validate_task_state state_errors get gates_valid_for_lane is_blank
reads_approved = refl

writes_started :
    (mutate_under_lock plain_json quiet_host (pin_of 7) to_started approved_world).0 ≡ written 8
unfolding mutate_under_lock read_task_state validate_task_state state_errors get set
    gates_valid_for_lane is_blank state_version_of locked_body apply commit stamp
writes_started = refl

abbrev to_broken : Fields → Mutated
to_broken _ = next_state end

mutate_written_example :
    Commit plain_json quiet_host
      (pin_of 7)
      to_started
      approved_world
      (mutate_under_lock plain_json quiet_host (pin_of 7) to_started approved_world).1
      8
mutate_written_example =
    mutate_written plain_json quiet_host (pin_of 7) to_started approved_world 8 writes_started

mutate_unwritten_example :
    (mutate_under_lock plain_json quiet_host (pin_of 7) to_broken approved_world).1 ≡ approved_world
mutate_unwritten_example =
    mutate_unwritten plain_json quiet_host (pin_of 7) to_broken approved_world (
      unfold mutate_under_lock read_task_state validate_task_state state_errors get set
        gates_valid_for_lane is_blank state_version_of locked_body apply commit stamp in
      refl)

abbrev world_after : World Json
world_after = (mutate_under_lock plain_json quiet_host (pin_of 7) to_started approved_world).1

reads_written : read_task_state plain_json world_after.file ≡ ok (stamp started_feature 8)
unfolding mutate_under_lock read_task_state validate_task_state state_errors get set
    gates_valid_for_lane is_blank state_version_of locked_body apply commit stamp
reads_written = refl

Evolves-grows_example :
    (stamp started_feature 8 ≡ approved_feature)
    ⊎ (state_version_of approved_feature < state_version_of (stamp started_feature 8))
Evolves-grows_example =
    Evolves-grows plain_json {from = approved_world} {to = world_after} approved_feature
      (stamp started_feature 8) reads_approved (step quiet_host (pin_of 7) to_started here refl)
      reads_written

abbrev alone : ℕ → Attempt Json
alone _ = record { before = λ w. w; between = λ w. w; host = quiet_host }

abbrev no_options : RetryOptions
no_options = record { event = none; ts = none }

abbrev start_from : Fields → ℕ → Option Fields
start_from _ _ = some started_feature

retry_writes :
    (mutate_with_retry plain_json start_from no_options none alone approved_world).0 ≡ written 8
unfolding mutate_with_retry retry_loop round propose settle attempt mutate_under_lock
    read_task_state validate_task_state state_errors get set gates_valid_for_lane is_blank
    state_version_of locked_body apply commit stamp
retry_writes = refl

mutate_with_retry-Won_example :
    Won plain_json start_from no_options alone
      (mutate_with_retry plain_json start_from no_options none alone approved_world).1
      8
mutate_with_retry-Won_example =
    mutate_with_retry-Won plain_json start_from no_options none alone approved_world 8 (λ i w. here)
      retry_writes

stamped-IsTaskState : IsTaskState (get (stamp started_feature 8))
stamped-IsTaskState =
    (state_errors_iff (stamp started_feature 8)).0
      (unfold state_errors get set stamp gates_valid_for_lane is_blank in refl)

blind_write_unseen_example :
    (mutate_under_lock plain_json quiet_host
      (pin_of 7)
      to_started
      (write_task_state plain_json quiet_host started_feature approved_world).1).0
    ≡ written (state_version_of started_feature + 1)
unfolding state_version_of get
blind_write_unseen_example =
    blind_write_unseen plain_json quiet_host quiet_host approved_feature started_feature
      started_feature approved_world (pin_of 7) (refl, refl, refl) (refl, refl, refl)
      started_feature-IsTaskState refl stamped-IsTaskState refl

write-read_example :
    let (error, after) = write_task_state plain_json quiet_host started_feature approved_world in
    (error ≡ none)
    × (read_task_state plain_json after.file ≡ ok started_feature)
    × (after.log ≡ approved_world.log)
write-read_example =
    write-read plain_json quiet_host started_feature approved_world (refl, refl, refl)
      started_feature-IsTaskState

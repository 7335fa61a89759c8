-- ===== src/TaskState/Store/Success.antt =====
-- When `mutateTaskStateUnderLock` and `writeTaskState` succeed, and when a pin is refused.
use devmate.Prelude.{ℕ, ◌+◌, [], false, none, some, ◌≡◌, refl, ap, ◌∙◌, ◌≢◌, arith}
use devmate.Json.{obj, Fields, get}
use devmate.TaskState.Validate.{ok, state_errors}
use devmate.TaskState.Validate.Spec.{IsTaskState}
use devmate.TaskState.Validate.Laws.{state_errors_iff}
use devmate.TaskState.Store.{
  JsonText, holds, World, Host, written, conflict, Mutated, next_state, Options, state_version_of,
  read_task_state, stamp, is_stale, apply, locked_body, mutate_under_lock, write_task_state,
}
use devmate.TaskState.Store.Laws.{read-print, commit_written_iff}

-- The host lets everything through.
abbrev pub IsFine : Host → Type 0
IsFine host = (host.mkdir ≡ none) × (host.lock ≡ none) × (host.write ≡ none)

module _ (json : JsonText) where
  open json use {Text, print}

  mutate_of_body :
      (host : Host) (opts : Options) (mutate : Fields → Mutated) (world : World Text)
      → IsFine host
      → mutate_under_lock json host opts mutate world
        ≡ locked_body json host opts mutate (read_task_state json world.file) world
  unfolding mutate_under_lock
  mutate_of_body host opts mutate world h = ground arith

  body_of_apply :
      (host : Host) (opts : Options) (mutate : Fields → Mutated) (current : Fields)
      (world : World Text)
      → is_stale opts.expected_version (state_version_of current) ≡ false
      → locked_body json host opts mutate (ok current) world
        ≡ apply json host opts current (mutate current) (state_version_of current) world
  unfolding locked_body
  body_of_apply host opts mutate current world h = ground arith

  apply_writes :
      (host : Host) (opts : Options) (current next : Fields) (n : ℕ) (world : World Text)
      → IsFine host
      → IsTaskState (get (stamp next (n + 1)))
      → (apply json host opts current (next_state next) n world).0 ≡ written (n + 1)
  unfolding apply
  apply_writes host opts current next n world fine valid =
      (commit_written_iff json host opts current (stamp next (n + 1)) n world (n + 1)).1
        ((state_errors_iff _).1 valid, fine.2, refl)

  -- A mutation succeeds where the host lets it, the file holds a task state at the pinned version,
  -- and the mutator's state is a task state once it is stamped.
  pub mutate_succeeds :
      (host : Host) (opts : Options) (mutate : Fields → Mutated) (world : World Text)
      (current next : Fields)
      → IsFine host
      → read_task_state json world.file ≡ ok current
      → is_stale opts.expected_version (state_version_of current) ≡ false
      → mutate current ≡ next_state next
      → IsTaskState (get (stamp next (state_version_of current + 1)))
      → (mutate_under_lock json host opts mutate world).0 ≡ written (state_version_of current + 1)
  mutate_succeeds host opts mutate world current next fine is_read fresh mutated valid =
      rw
        (
          mutate_of_body host opts mutate world fine,
          is_read,
          body_of_apply host opts mutate current world fresh,
          mutated,
        )
        (apply_writes host opts current next (state_version_of current) world fine valid)

  body_conflict :
      (host : Host) (opts : Options) (mutate : Fields → Mutated) (current : Fields) (pin : ℕ)
      (world : World Text)
      → opts.expected_version ≡ some pin
      → pin ≢ state_version_of current
      → locked_body json host opts mutate (ok current) world
        ≡ (conflict (state_version_of current) pin, world)
  unfolding locked_body
  body_conflict host opts mutate current pin world e h = ground arith

  -- A pinned writer whose snapshot is of another version than the file is refused as a conflict
  -- that names both versions, whatever the mutator, and nothing is written.
  pub mutate_conflicts :
      (host : Host) (opts : Options) (mutate : Fields → Mutated) (world : World Text)
      (current : Fields) (pin : ℕ)
      → (host.mkdir ≡ none) × (host.lock ≡ none)
      → read_task_state json world.file ≡ ok current
      → opts.expected_version ≡ some pin
      → pin ≢ state_version_of current
      → mutate_under_lock json host opts mutate world
        ≡ (conflict (state_version_of current) pin, world)
  mutate_conflicts host opts mutate world current pin open_ is_read e h =
      mutate_of_lock host opts mutate world open_
      ∙ ap (λ r. locked_body json host opts mutate r world) is_read
      ∙ body_conflict host opts mutate current pin world e h
    where
      mutate_of_lock :
          (h' : Host) (o : Options) (m : Fields → Mutated) (w : World Text)
          → (h'.mkdir ≡ none) × (h'.lock ≡ none)
          → mutate_under_lock json h' o m w
            ≡ locked_body json h' o m (read_task_state json w.file) w
      mutate_of_lock h' o m w k = unfold mutate_under_lock in ground arith

  write_of_valid :
      (host : Host) (state : Fields) (world : World Text)
      → IsFine host
      → state_errors (obj state) ≡ []
      → write_task_state json host state world
        ≡ (none, record world { file = holds (print (obj state)) })
  unfolding write_task_state
  write_of_valid host state world fine valid = ground arith

  -- A blind write of a task state is what is read next, and the log is as it was.
  pub write-read :
      (host : Host) (state : Fields) (world : World Text)
      → IsFine host
      → IsTaskState (get state)
      → let (error, after) = write_task_state json host state world in
        (error ≡ none) × (read_task_state json after.file ≡ ok state) × (after.log ≡ world.log)
  write-read host state world fine valid =
      let e = write_of_valid host state world fine ((state_errors_iff state).1 valid) in
      rw e (refl, read-print json state valid, refl)

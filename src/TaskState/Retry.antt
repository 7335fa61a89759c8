-- ===== src/TaskState/Retry.antt =====
-- The bounded loops of lib/task-state.mjs: `mutateTaskStateWithRetry` and `commitRenameWithRetry`.
pub mod Laws
use devmate.Prelude.{ℕ, zero, suc, String, Option, none, some}
use devmate.Json.{Number, nat, Fields}
use devmate.TaskState.Validate.{StateResult, ok, err}
use devmate.TaskState.Store.{
  JsonText, ReadError, World, Host, unread, MutateResult, skipped, conflict, failed, next_state,
  Options, state_version_of, read_task_state, mutate_under_lock,
}

-- `Number.isInteger(n) && n >= 1 ? n : fallback`.
abbrev pub attempts_or : ℕ → Option Number → ℕ
attempts_or fallback (some (nat (suc n))) = suc n
attempts_or fallback _ = fallback

-- What surrounds one attempt: other writers before the snapshot is read and before the lock is
-- taken, and the host's answers.
pub record Attempt (Text : Type 0) : Type 0 where
  pub before : World Text → World Text
  pub between : World Text → World Text
  pub host : Host

pub record RetryOptions : Type 0 where
  pub event : Option String
  pub ts : Option String

abbrev pub pinned : RetryOptions → ℕ → Options
pinned opts version = record { expected_version = some version; event = opts.event; ts = opts.ts }

module _ (json : JsonText) (produce : Fields → ℕ → Option Fields) (opts : RetryOptions) where
  open json use {Text}

  -- The locked part of an attempt: the candidate is committed if the version is still the pinned.
  unfoldable pub attempt : Attempt Text → Fields → ℕ → World Text → MutateResult × World Text
  attempt around candidate version world =
      mutate_under_lock json around.host (pinned opts version) (λ _. next_state candidate)
        (around.between world)

  -- A conflict goes on to the next round; any other result is returned.
  unfoldable pub settle :
      (MutateResult → World Text → MutateResult × World Text)
      → MutateResult × World Text
      → MutateResult × World Text
  settle again (conflict current expected, world) = again (conflict current expected) world
  settle again (result, world) = (result, world)

  unfoldable pub propose :
      (MutateResult → World Text → MutateResult × World Text)
      → Attempt Text
      → Fields
      → Option Fields
      → World Text
      → MutateResult × World Text
  propose again around snapshot none world = (skipped (state_version_of snapshot), world)
  propose again around snapshot (some candidate) world =
      settle again (attempt around candidate (state_version_of snapshot) world)

  -- The body of the loop, given what was read.
  unfoldable pub round :
      (MutateResult → World Text → MutateResult × World Text)
      → Attempt Text
      → StateResult ReadError
      → World Text
      → MutateResult × World Text
  round again around (err errors) world = (failed (unread errors), world)
  round again around (ok snapshot) world =
      propose again around snapshot (produce snapshot (state_version_of snapshot)) world

  -- The loop, with the rounds that are left and the number of the next one.
  unfoldable pub retry_loop :
      ℕ → ℕ → (ℕ → Attempt Text) → MutateResult → World Text → MutateResult × World Text
  retry_loop zero i around last world = (last, world)
  retry_loop (suc left) i around last world =
      let start = (around i).before world in
      round (retry_loop left (suc i) around) (around i) (read_task_state json start.file) start

  -- `mutateTaskStateWithRetry`; the last result is never the initial one, as a round is made.
  unfoldable pub mutate_with_retry :
      Option Number → (ℕ → Attempt Text) → World Text → MutateResult × World Text
  mutate_with_retry attempts around world =
      retry_loop (attempts_or 3 attempts) 0 around (conflict 0 0) world

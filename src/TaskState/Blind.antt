-- ===== src/TaskState/Blind.antt =====
-- The limit of the version pin: `writeTaskState` stamps no version.
use devmate.Prelude.{ℕ, ◌+◌, ◌≡◌, refl, arith, some, false}
use devmate.Json.{Fields, get}
use devmate.TaskState.Validate.Spec.{IsTaskState}
use devmate.TaskState.Store.{
  JsonText, World, Host, next_state, Options, written, is_stale, state_version_of, stamp,
  mutate_under_lock, write_task_state,
}
use devmate.TaskState.Store.Success.{IsFine, write-read, mutate_succeeds}

is_stale_of_eq : (pin version : ℕ) → version ≡ pin → is_stale (some pin) version ≡ false
is_stale_of_eq pin version h = ground arith

module _ (json : JsonText) where
  open json use {Text}

  -- A blind write between the snapshot and the commit is not noticed, if it keeps the version: the
  -- writer that is pinned to the snapshot's version commits over the state it has not seen.
  pub blind_write_unseen :
      (host host' : Host) (snapshot other candidate : Fields) (world : World Text) (opts : Options)
      → IsFine host
      → IsFine host'
      → IsTaskState (get other)
      → state_version_of other ≡ state_version_of snapshot
      → IsTaskState (get (stamp candidate (state_version_of other + 1)))
      → opts.expected_version ≡ some (state_version_of snapshot)
      → (mutate_under_lock json host' opts
          (λ _. next_state candidate)
          (write_task_state json host other world).1).0
        ≡ written (state_version_of other + 1)
  blind_write_unseen host host' snapshot other candidate world opts fine fine' valid same commits
        pin =
      let (_, is_read, _) = write-read json host other world fine valid in
      mutate_succeeds json host' opts (λ _. next_state candidate)
        (write_task_state json host other world).1 other candidate fine' is_read
        (rw pin (is_stale_of_eq (state_version_of snapshot) (state_version_of other) same)) refl
        commits

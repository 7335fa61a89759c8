-- ===== src/TaskState/Store/Laws.antt =====
-- What `mutateTaskStateUnderLock` guarantees.
use devmate.Prelude.{
  ℕ, ◌+◌, [], Bool, true, false, none, ◌≡◌, refl, ◌↔◌, inl, inr, arith, Option-cases,
}
use devmate.Json.{nat, num, obj, Fields, get}
use devmate.Json.Laws.{get-set}
use devmate.TaskState.Validate.{StateError, StateResult, ok, err, state_errors}
use devmate.TaskState.Validate.Spec.{IsTaskState}
use devmate.TaskState.Validate.Laws.{state_errors_iff, validate_task_state_iff}
use devmate.TaskState.Store.{
  JsonText, File, absent, unreadable, holds, ReadError, World, Host, MutateResult, written, Mutated,
  threw, unchanged, next_state, Options, state_version_of, read_task_state, read_parsed,
  lift_result, stamp, is_stale, commit, apply, locked_body, mutate_under_lock,
}

pub state_version_of-stamp :
    (state : Fields) (version : ℕ) → state_version_of (stamp state version) ≡ version
unfolding state_version_of stamp
state_version_of-stamp state version =
    rw (get-set state "stateVersion" "stateVersion" (num (nat version)))

lift_result-eq-ok :
    (r : StateResult StateError) (fs : Fields) → (lift_result r ≡ ok fs) ↔ (r ≡ ok fs)
unfolding lift_result
lift_result-eq-ok (ok gs) fs = ground arith
lift_result-eq-ok (err errors) fs = ground arith

abbrev pub is_written : MutateResult → Bool
is_written (written _) = true
is_written _ = false

module _ (json : JsonText) where
  open json use {Text, parse, print, parse-print}

  -- A task state that was printed is read back.
  pub read-print :
      (state : Fields)
      → IsTaskState (get state)
      → read_task_state json (holds (print (obj state))) ≡ ok state
  unfolding read_task_state read_parsed
  read-print state s =
      rw (parse-print (obj state))
        ((lift_result-eq-ok _ state).1 ((validate_task_state_iff (obj state) state).1 (refl, s)))

  -- What is read is a task state.
  pub read-IsTaskState :
      (file : File Text) (state : Fields)
      → read_task_state json file ≡ ok state
      → IsTaskState (get state)
  unfolding read_task_state read_parsed
  read-IsTaskState (holds text) state h = elim (Option-cases (parse text)) [
    | inl broken ↦ let h' = rw broken at h in cc h'
    | inr (raw, parsed) ↦
        ((validate_task_state_iff raw state).0
          ((lift_result-eq-ok _ state).0 (rw (parsed, read_parsed) at h))).1
  ]
  read-IsTaskState absent state h = cc
  read-IsTaskState unreadable state h = cc

  pub commit_written_iff :
      (host : Host) (opts : Options) (current versioned : Fields) (n : ℕ) (world : World Text)
      (v : ℕ)
      → ((commit json host opts current versioned n world).0 ≡ written v)
        ↔ ((state_errors (obj versioned) ≡ []) × (host.write ≡ none) × (v ≡ n + 1))
  unfolding commit
  commit_written_iff host opts current versioned n world v = ground arith

  commit_file :
      (host : Host) (opts : Options) (current versioned : Fields) (n : ℕ) (world : World Text)
      (v : ℕ)
      → (commit json host opts current versioned n world).0 ≡ written v
      → (commit json host opts current versioned n world).1.file ≡ holds (print (obj versioned))
  unfolding commit
  commit_file host opts current versioned n world v h = ground arith

  commit_unwritten :
      (host : Host) (opts : Options) (current versioned : Fields) (n : ℕ) (world : World Text)
      → is_written (commit json host opts current versioned n world).0 ≡ false
      → (commit json host opts current versioned n world).1 ≡ world
  unfolding commit
  commit_unwritten host opts current versioned n world h = ground arith

  apply_unwritten :
      (host : Host) (opts : Options) (current : Fields) (m : Mutated) (n : ℕ) (world : World Text)
      → is_written (apply json host opts current m n world).0 ≡ false
      → (apply json host opts current m n world).1 ≡ world
  unfolding apply
  apply_unwritten host opts current (threw _) n world h = refl
  apply_unwritten host opts current unchanged n world h = refl
  apply_unwritten host opts current (next_state next) n world h =
      commit_unwritten host opts current (stamp next (n + 1)) n world h

  body_unwritten :
      (host : Host) (opts : Options) (mutate : Fields → Mutated) (r : StateResult ReadError)
      (world : World Text)
      → is_written (locked_body json host opts mutate r world).0 ≡ false
      → (locked_body json host opts mutate r world).1 ≡ world
  unfolding locked_body
  body_unwritten host opts mutate (err _) world h = refl
  body_unwritten host opts mutate (ok current) world h =
      ground
        (arith, apply_unwritten host opts current (mutate current) (state_version_of current) world)

  -- A mutation that does not report a write has changed neither the file nor the log.
  pub mutate_unwritten :
      (host : Host) (opts : Options) (mutate : Fields → Mutated) (world : World Text)
      → is_written (mutate_under_lock json host opts mutate world).0 ≡ false
      → (mutate_under_lock json host opts mutate world).1 ≡ world
  unfolding mutate_under_lock
  mutate_unwritten host opts mutate world h =
      ground (arith, body_unwritten host opts mutate (read_task_state json world.file) world)

  -- What a write of version `v` takes, and what it leaves in the file.
  pub record Commit (host : Host) (opts : Options) (mutate : Fields → Mutated)
      (before after : World Text) (v : ℕ) : Type 0 where
    pub current : Fields
    pub next : Fields
    pub unlocked : (host.mkdir ≡ none) × (host.lock ≡ none) × (host.write ≡ none)
    pub is_read : read_task_state json before.file ≡ ok current
    pub is_fresh : is_stale opts.expected_version (state_version_of current) ≡ false
    pub mutated : mutate current ≡ next_state next
    pub bumped : v ≡ state_version_of current + 1
    pub valid : IsTaskState (get (stamp next v))
    pub stored : after.file ≡ holds (print (obj (stamp next v)))

  body_written :
      (host : Host) (opts : Options) (mutate : Fields → Mutated) (current : Fields)
      (world : World Text) (v : ℕ)
      → (locked_body json host opts mutate (ok current) world).0 ≡ written v
      → (is_stale opts.expected_version (state_version_of current) ≡ false)
        × ((apply json host opts current (mutate current) (state_version_of current) world).0
            ≡ written v)
        × ((locked_body json host opts mutate (ok current) world).1
            ≡ (apply json host opts current (mutate current) (state_version_of current) world).1)
  unfolding locked_body
  body_written host opts mutate current world v h = ground arith

  apply_written :
      (host : Host) (opts : Options) (current : Fields) (m : Mutated) (n : ℕ) (world : World Text)
      (v : ℕ)
      → (apply json host opts current m n world).0 ≡ written v
      → (next : Fields) × (m ≡ next_state next)
        × (state_errors (obj (stamp next (n + 1))) ≡ [])
        × (host.write ≡ none)
        × (v ≡ n + 1)
        × ((apply json host opts current m n world).1.file
            ≡ holds (print (obj (stamp next (n + 1)))))
  unfolding apply
  apply_written host opts current (threw _) n world v h = cc
  apply_written host opts current unchanged n world v h = cc
  apply_written host opts current (next_state next) n world v h =
      let (a, b, c) = (commit_written_iff host opts current (stamp next (n + 1)) n world v).0 h in
      (next, refl, a, b, c, commit_file host opts current (stamp next (n + 1)) n world v h)

  body_reads :
      (host : Host) (opts : Options) (mutate : Fields → Mutated) (r : StateResult ReadError)
      (world : World Text) (v : ℕ)
      → (locked_body json host opts mutate r world).0 ≡ written v
      → (current : Fields) × (r ≡ ok current)
  unfolding locked_body
  body_reads host opts mutate (err _) world v h = cc
  body_reads host opts mutate (ok current) world v h = (current, refl)

  mutate_locks :
      (host : Host) (opts : Options) (mutate : Fields → Mutated) (world : World Text) (v : ℕ)
      → (mutate_under_lock json host opts mutate world).0 ≡ written v
      → (host.mkdir ≡ none)
        × (host.lock ≡ none)
        × (mutate_under_lock json host opts mutate world
            ≡ locked_body json host opts mutate (read_task_state json world.file) world)
  unfolding mutate_under_lock
  mutate_locks host opts mutate world v h = ground arith

  -- A mutation that reports version `v` ran on the state that was in the file, at the version
  -- before `v`, and left in the file the mutator's state, stamped with `v` and valid.
  pub mutate_written :
      (host : Host) (opts : Options) (mutate : Fields → Mutated) (world : World Text) (v : ℕ)
      → (mutate_under_lock json host opts mutate world).0 ≡ written v
      → Commit host opts mutate world (mutate_under_lock json host opts mutate world).1 v
  mutate_written host opts mutate world v h =
      let (a, b, e) = mutate_locks host opts mutate world v h in
      let in_body = rw e at h in
      let (current, is_read) =
        body_reads host opts mutate (read_task_state json world.file) world v in_body in
      let (fresh, applied, after) =
        body_written host opts mutate current world v (rw is_read at in_body) in
      let (next, mutated, valid, wrote, bumped, stored) =
        apply_written host opts current (mutate current) (state_version_of current) world v
          applied in
      record {
        current = current;
        next = next;
        unlocked = (a, b, wrote);
        is_read = is_read;
        is_fresh = fresh;
        mutated = mutated;
        bumped = bumped;
        valid = rw bumped ((state_errors_iff _).0 valid);
        stored = rw (e, is_read, after, bumped) stored;
      }

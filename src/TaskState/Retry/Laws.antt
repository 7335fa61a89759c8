-- ===== src/TaskState/Retry/Laws.antt =====
-- What a successful `mutateTaskStateWithRetry` has written, and over what.
use devmate.Prelude.{
  ℕ, zero, suc, ◌+◌, Option, none, some, ◌≡◌, refl, sym, ap, ◌∙◌, ◌⊎◌, inl, inr, arith, false,
}
use devmate.Json.{Number, Fields, obj}
use devmate.TaskState.Validate.{StateResult, ok, err}
use devmate.TaskState.Store.{
  JsonText, holds, ReadError, World, MutateResult, written, skipped, conflict, failed,
  state_version_of, read_task_state, stamp, is_stale,
}
use devmate.TaskState.Store.Laws.{mutate_written}
use devmate.TaskState.Versions.{Evolves, Evolves-same_version}
use devmate.TaskState.Retry.{
  attempts_or, Attempt, RetryOptions, attempt, settle, propose, round, retry_loop,
  mutate_with_retry,
}

is_stale-pinned :
    (expected version : ℕ) → is_stale (some expected) version ≡ false → version ≡ expected
is_stale-pinned expected version h = ground arith

module _ (json : JsonText) (produce : Fields → ℕ → Option Fields) (opts : RetryOptions) where
  open json use {Text, print}

  -- The attempt that wrote: its snapshot, and that the state which it replaced is the snapshot.
  pub record Won (around : ℕ → Attempt Text) (after : World Text) (v : ℕ) : Type 0 where
    pub round : ℕ
    pub start : World Text
    pub snapshot : Fields
    pub candidate : Fields
    pub is_read : read_task_state json start.file ≡ ok snapshot
    pub produced : produce snapshot (state_version_of snapshot) ≡ some candidate
    pub replaced : read_task_state json ((around round).between start).file ≡ ok snapshot
    pub bumped : v ≡ state_version_of snapshot + 1
    pub stored : after.file ≡ holds (print (obj (stamp candidate v)))

  attempt-Won :
      (around : ℕ → Attempt Text) (i : ℕ) (start : World Text) (snapshot candidate : Fields) (v : ℕ)
      → ((w : World Text) → Evolves json w ((around i).between w))
      → read_task_state json start.file ≡ ok snapshot
      → produce snapshot (state_version_of snapshot) ≡ some candidate
      → (attempt json produce opts (around i) candidate (state_version_of snapshot) start).0
        ≡ written v
      → Won around
          (attempt json produce opts (around i) candidate (state_version_of snapshot) start).1
          v
  unfolding attempt
  attempt-Won around i start snapshot candidate v others is_read produced wrote =
      let c = mutate_written json _ _ _ ((around i).between start) v wrote in
      let pin =
        is_stale-pinned (state_version_of snapshot) (state_version_of c.current) c.is_fresh in
      let same =
        Evolves-same_version json snapshot c.current is_read (others start) c.is_read pin in
      let e : candidate ≡ c.next = cc (c.mutated) in
      record {
        round = i;
        start = start;
        snapshot = snapshot;
        candidate = candidate;
        is_read = is_read;
        produced = produced;
        replaced = c.is_read ∙ ap ok same;
        bumped = omega (arith, c.bumped);
        stored = c.stored ∙ ap (λ x. holds (print (obj (stamp x v)))) (sym e);
      }

  settle_written :
      (again : MutateResult → World Text → MutateResult × World Text)
      (out : MutateResult × World Text) (v : ℕ)
      → (settle json produce opts again out).0 ≡ written v
      → ((out.0 ≡ written v) × (settle json produce opts again out ≡ out))
        ⊎ ((a : ℕ) × (b : ℕ) × (settle json produce opts again out ≡ again (conflict a b) out.1))
  unfolding settle
  settle_written again (conflict a b, world) v h = inr (a, b, refl)
  settle_written again (written _, world) v h = inl (h, refl)
  settle_written again (skipped _, world) v h = cc
  settle_written again (failed _, world) v h = cc

  module _ (around : ℕ → Attempt Text)
      (others : (i : ℕ) (w : World Text) → Evolves json w ((around i).between w)) where
    propose-Won :
        (again : MutateResult → World Text → MutateResult × World Text) (i : ℕ) (start : World Text)
        (snapshot : Fields) (proposed : Option Fields) (v : ℕ)
        → read_task_state json start.file ≡ ok snapshot
        → produce snapshot (state_version_of snapshot) ≡ proposed
        → (propose json produce opts again (around i) snapshot proposed start).0 ≡ written v
        → Won around (propose json produce opts again (around i) snapshot proposed start).1 v
          ⊎ ((a : ℕ) × (b : ℕ) × (world : World Text) × (propose json produce opts again
                  (around i)
                  snapshot
                  proposed
                  start
                ≡ again (conflict a b) world))
    unfolding propose
    propose-Won again i start snapshot none v is_read produced h = cc
    propose-Won again i start snapshot (some candidate) v is_read produced h =
        let out =
          attempt json produce opts (around i) candidate (state_version_of snapshot) start in
        elim (settle_written again out v h) [
          | inl (wrote, e) ↦ inl (
              rw e
                (attempt-Won around i start snapshot candidate v (others i) is_read produced wrote))
          | inr (a, b, e) ↦ inr (a, b, out.1, e)
        ]

    round-Won :
        (again : MutateResult → World Text → MutateResult × World Text) (i : ℕ) (start : World Text)
        (r : StateResult ReadError) (v : ℕ)
        → read_task_state json start.file ≡ r
        → (round json produce opts again (around i) r start).0 ≡ written v
        → Won around (round json produce opts again (around i) r start).1 v
          ⊎ ((a : ℕ) × (b : ℕ) × (world : World Text) × (round json produce opts again
                  (around i)
                  r
                  start
                ≡ again (conflict a b) world))
    unfolding round
    round-Won again i start (err errors) v is_read h = cc
    round-Won again i start (ok snapshot) v is_read h =
        propose-Won again i start snapshot _ v is_read refl h

    loop-Won :
        (left i : ℕ) (last : MutateResult) (world : World Text) (v : ℕ)
        → ¬ (last ≡ written v)
        → (retry_loop json produce opts left i around last world).0 ≡ written v
        → Won around (retry_loop json produce opts left i around last world).1 v
    unfolding retry_loop
    loop-Won zero i last world v fresh h = absurd (fresh h)
    loop-Won (suc left) i last world v fresh h =
        let start = (around i).before world in
        let again = retry_loop json produce opts left (suc i) around in
        elim (round-Won again i start (read_task_state json start.file) v refl h) [
          | inl won ↦ won
          | inr (a, b, w, e) ↦ rw e (loop-Won left (suc i) (conflict a b) w v (λ x. cc) (rw e at h))
        ]

  -- No lost update. While all other writers go through `mutateTaskStateUnderLock`, a retried
  -- mutation that reports version `v` has replaced the very state that its candidate was made
  -- from, and has left in the file that candidate, stamped with the version after it.
  pub mutate_with_retry-Won :
      (attempts : Option Number) (around : ℕ → Attempt Text) (world : World Text) (v : ℕ)
      → ((i : ℕ) (w : World Text) → Evolves json w ((around i).between w))
      → (mutate_with_retry json produce opts attempts around world).0 ≡ written v
      → Won around (mutate_with_retry json produce opts attempts around world).1 v
  unfolding mutate_with_retry
  mutate_with_retry-Won attempts around world v others h =
      loop-Won around others (attempts_or 3 attempts) 0 (conflict 0 0) world v (λ x. cc) h

-- ===== src/Approvals/PlanCommit.antt =====
-- What `approve plan` has done when it reports an advance, with other writers at work.
use devmate.Prelude.{
  ℕ, zero, suc, ◌+◌, String, List, [], ◌∷◌, ◌++◌, false, Option, none, some, ◌≡◌, ◌≢◌, inl, inr,
  refl, sym, ap, ◌∙◌, arith,
}
use mathlib.Core.Path.{subst}
use devmate.Json.{Fields}
use devmate.Gates.Transition.{lane_of, gate_of, task_of, enter}
use devmate.TaskState.Validate.{StateResult, ok, err}
use devmate.TaskState.Store.{
  JsonText, ReadError, World, Host, MutateResult, written, skipped, conflict, failed, next_state,
  Options, state_version_of, read_task_state, stamp, is_stale, commit, apply, locked_body,
  mutate_under_lock,
}
use devmate.TaskState.Store.Laws.{mutate_written, read-print}
use devmate.TaskState.Retry.{Attempt}
use devmate.TaskState.Versions.{Evolves, Evolves-same_version}
use devmate.Approvals.Workspace.{TraceEvent, gate_advanced, Answers, Session, transition}
use devmate.Approvals.Lanes.{Disk}
use devmate.Approvals.Listener.{
  Ended, transition_event, approve_plan_attempts, record_plan, after_plan_write, plan_write,
  plan_moved, plan_round, plan_loop, approve_plan,
}
use devmate.Approvals.LaneMoves.{TransitionResult-cases, transition-moved}
use devmate.Approvals.Starts.{IsStart, Move-IsStart}
use devmate.Approvals.Writes.{At}

module _ (json : JsonText) (host : Host) (opts : Options) (next : Fields) where
  apply-skipped :
      (current : Fields) (n v : ℕ) (world : World json.Text)
      → (apply json host opts current (next_state next) n world).0 ≢ skipped v
  unfolding apply commit
  apply-skipped current n v world h = ground arith

  body-skipped :
      (r : StateResult ReadError) (v : ℕ) (world : World json.Text)
      → (locked_body json host opts (λ _. next_state next) r world).0 ≢ skipped v
  unfolding locked_body
  body-skipped (err errors) v world h = cc
  body-skipped (ok current) v world h =
      ground (arith, apply-skipped current (state_version_of current) v world)

  -- A mutator that gives a state is not skipped.
  mutate-skipped :
      (v : ℕ) (world : World json.Text)
      → (mutate_under_lock json host opts (λ _. next_state next) world).0 ≢ skipped v
  unfolding mutate_under_lock
  mutate-skipped v world h = ground (arith, body-skipped (read_task_state json world.file) v world)

module _ (s : Session) (a : Answers) (raw : String) where
  -- The attempt that started an implementation: the state that it read, at whose version the file still was
  -- when it had the lock; the file holds that state at the new gate as the version after, and the event
  -- with the prompt as its evidence is the last of the trace.
  pub record IsStarted (around : ℕ → Attempt s.json.Text) (trace : List TraceEvent) (to : String)
      (after : Disk s) : Type 0 where
    pub round : ℕ
    pub found : World s.json.Text
    pub state : Fields
    pub is_read : At s.json ((around round).before found) state
    pub replaced : At s.json ((around round).between ((around round).before found)) state
    pub start : IsStart (lane_of state) (gate_of state) to
    pub stored : At s.json after.task (stamp (enter state to) (state_version_of state + 1))
    pub recorded :
        after.trace ≡ trace ++ transition_event (task_of state) (gate_of state) to raw ∷ []

  fresh_version : (pin version : ℕ) → is_stale (some pin) version ≡ false → version ≡ pin
  fresh_version pin version h = ground arith

  -- What the write replaced and left, where it reports a version.
  plan_stored :
      (around : Attempt s.json.Text) (state next : Fields) (v : ℕ) (w : Disk s)
      → ((task : World s.json.Text) → Evolves s.json task (around.between task))
      → At s.json w.task state
      → (plan_write s a around state next w).0 ≡ written v
      → At s.json (around.between w.task) state
        × At s.json (plan_write s a around state next w).1 (stamp next (state_version_of state + 1))
  plan_stored around state next v w others is_read wrote =
      let c =
        mutate_written s.json around.host _ (λ _. next_state next) (around.between w.task) v
          wrote in
      let same : c.next ≡ next = cc in
      let pin = fresh_version _ _ c.is_fresh in
      let version : v ≡ state_version_of state + 1 = c.bumped ∙ ap (λ n. n + 1) pin in
      let unmoved =
        Evolves-same_version s.json state c.current is_read (others w.task) c.is_read pin in
      (
        c.is_read ∙ ap ok unmoved,
        rw (c.stored, sym version, sym same) (read-print s.json (stamp c.next v) c.valid),
      )

  abbrev Again : Type 0
  Again = Disk s → Ended s a

  module _ (around : ℕ → Attempt s.json.Text)
      (others : (i : ℕ) (task : World s.json.Text)
        → Evolves s.json task ((around i).between task)) where
    -- Where a call reports an advance, it was such a start.
    abbrev Tells : List TraceEvent → Ended s a → Type 0
    Tells trace r = (to : String) → r.0 ≡ gate_advanced to → IsStarted around trace to r.1

    module _ (i : ℕ) (found : World s.json.Text) (state : Fields)
        (is_read : At s.json ((around i).before found) state) where
      -- The file before the write and after it.
      abbrev Replaces : String → World s.json.Text → Type 0
      Replaces to task =
          At s.json ((around i).between ((around i).before found)) state
          × At s.json task (stamp (enter state to) (state_version_of state + 1))

      recorded_plan :
          (from to : String) (o : Option String) (w : Disk s)
          → IsStart (lane_of state) (gate_of state) to
          → from ≡ gate_of state
          → Replaces to w.task
          → Tells w.trace (record_plan s a raw state from to o w)
      recorded_plan from to none w start f (replaced, stored) to' h =
          let e : to ≡ to' = cc in
          subst
            (λ t.
              IsStarted around w.trace t
                (record w { trace = w.trace ++ transition_event (task_of state) from to raw ∷ [] }))
            e
            (record {
              round = i;
              found = found;
              state = state;
              is_read = is_read;
              replaced = replaced;
              start = start;
              stored = stored;
              recorded = ap (λ g. w.trace ++ transition_event (task_of state) g to raw ∷ []) f;
            })
      recorded_plan from to (some m) w start f stored to' h = cc

      written_plan :
          (again : Again) (next : Fields) (from to : String) (r : MutateResult × World s.json.Text)
          (w : Disk s)
          → ((task : World s.json.Text) → Tells w.trace (again (record w { task = task })))
          → IsStart (lane_of state) (gate_of state) to
          → from ≡ gate_of state
          → ((v : ℕ) → r.0 ≢ skipped v)
          → ((v : ℕ) → r.0 ≡ written v → Replaces to r.1)
          → Tells w.trace (after_plan_write s a again raw state from to r w)
      written_plan again next from to (written v, task) w ih start f no_skip stored =
          recorded_plan from to a.traced (record w { task = task }) start f (stored v refl)
      written_plan again next from to (skipped v, task) w ih start f no_skip stored =
          absurd (no_skip v refl)
      written_plan again next from to (conflict c e, task) w ih start f no_skip stored = ih task
      written_plan again next from to (failed e, task) w ih start f no_skip stored = λ to' h. cc

      moved_plan :
          (again : Again) (w : Disk s)
          → w.task ≡ (around i).before found
          → ((task : World s.json.Text) → Tells w.trace (again (record w { task = task })))
          → Tells w.trace
              (plan_moved s a again (around i) raw state (transition s w state "start-impl") w)
      unfolding plan_moved
      moved_plan again w at_start ih =
          elim (TransitionResult-cases (transition s w state "start-impl")) [
            | inl (why, refuses) ↦ rw refuses (λ to h. cc)
            | inr (from, to, next, moves) ↦
                let (f, n, move) = transition-moved s w state "start-impl" from to next moves in
                rw moves (
                  written_plan again next from to (plan_write s a (around i) state next w) w ih
                    (Move-IsStart _ (lane_of state) _ (gate_of state) to move) f
                    (λ v.
                      mutate-skipped s.json (around i).host _ next v ((around i).between w.task))
                    (λ v wrote.
                      let (replaced, stored) =
                        plan_stored (around i) state next v w (others i)
                          (subst (λ t. At s.json t state) (sym at_start) is_read) wrote in
                      (
                        subst (λ t. At s.json ((around i).between t) state) at_start replaced,
                        subst
                            (λ x.
                              At s.json (plan_write s a (around i) state next w).1
                                (stamp x (state_version_of state + 1)))
                            n stored,
                      )))
          ]

    round_plan :
        (again : Again) (i : ℕ) (found : World s.json.Text) (r : StateResult ReadError) (w : Disk s)
        → w.task ≡ (around i).before found
        → read_task_state s.json ((around i).before found).file ≡ r
        → ((task : World s.json.Text) → Tells w.trace (again (record w { task = task })))
        → Tells w.trace (plan_round s a again (around i) raw r w)
    unfolding plan_round
    round_plan again i found (err errors) w at_start is_read ih = λ to h. cc
    round_plan again i found (ok state) w at_start is_read ih =
        moved_plan i found state is_read again w at_start ih

    loop_plan : (left i : ℕ) (w : Disk s) → Tells w.trace (plan_loop s a left i around raw w)
    unfolding plan_loop
    loop_plan zero i w = λ to h. cc
    loop_plan (suc left) i w =
        let start = (around i).before w.task in
        round_plan (plan_loop s a left (suc i) around raw) i w.task
          (read_task_state s.json start.file) (record w { task = start }) refl refl
          (λ task. loop_plan left (suc i) (record w { task = task }))

    -- Let every writer between the read of an attempt and its lock go through the lock. Where
    -- `approve plan` reports an advance, one of its attempts started an implementation by an edge of
    -- the lane of the state that it had read, the file held exactly that state when it was written
    -- over, it holds that state at the new gate as the version after, and the trace has one more
    -- event, whose evidence is the prompt.
    pub approve_plan-IsStarted :
        (w : Disk s) (to : String)
        → (approve_plan s a around raw w).0 ≡ gate_advanced to
        → IsStarted around w.trace to (approve_plan s a around raw w).1
    unfolding approve_plan
    approve_plan-IsStarted w = loop_plan approve_plan_attempts 0 w

-- ===== src/Approvals/PlanAndPr.antt =====
-- The gates that `approve pr` and `approve plan` can lead to.
use devmate.Prelude.{
  ℕ, zero, suc, String, true, false, Option, none, some, ◌≡◌, ◌≢◌, ◌⊎◌, inl, inr, refl, sym, ap,
  ◌∙◌, Bool-cases,
}
use devmate.Prelude.Text.{str_eq}
use devmate.Json.{Fields}
use devmate.Gates.Transition.{moved, lane_of, gate_of, enter}
use devmate.Gatectl.Human
use devmate.Gatectl.Human.{HumanAdvance, approved}
use devmate.Gatectl.Edges.{advance_gate-pr_ready}
use devmate.TaskState.Store.{
  World, MutateResult, written, skipped, conflict, failed, next_state, stamp,
}
use devmate.TaskState.Retry.{Attempt}
use devmate.Approvals.Phrases.{approval_phrase_for_gate}
use devmate.Approvals.Workspace.{Answers, Session, transition}
use devmate.Approvals.Lanes.{Disk}
use devmate.Approvals.Listener.{
  Ended, after_pr_advance, is_off_lane, approve_pr_of, approve_pr, approve_plan_attempts,
  record_plan, after_plan_write, plan_write, plan_moved, plan_round, plan_loop, approve_plan,
}
use devmate.Approvals.LaneMoves.{TransitionResult-cases, transition-moved, gate_of-enter}
use devmate.Approvals.Starts.{IsStart, Move-IsStart}
use devmate.Approvals.Gates.{Lands}
use devmate.Approvals.Advances.{Advances, Approvable, advance-Advances}
use devmate.Approvals.Writes.{At, mutate_cases, gate_of-stamp}

-- The other writers leave task.json alone.
abbrev pub IsUndisturbed : {Text : Type 0} → (ℕ → Attempt Text) → Type 0
IsUndisturbed {Text} around =
    (i : ℕ) (task : World Text) → ((around i).before task ≡ task) × ((around i).between task ≡ task)

module _ (s : Session) (a : Answers) where
  -- Where `approve pr` leads.
  abbrev pub PrMove : Fields → String → Type 0
  PrMove state to =
      (lane_of state ≢ "chore") × (gate_of state ≡ "verification-passed") × (to ≡ "pr-ready")

  chore_off_lane :
      (state : Fields)
      → gate_of state ≡ "verification-passed"
      → lane_of state ≡ "chore"
      → is_off_lane s a state ≡ true
  unfolding approval_phrase_for_gate
  chore_off_lane state g l = rw (g, l) refl

  pr_move :
      (raw : String) (w : Disk s) (state : Fields)
      → is_off_lane s a state ≡ false
      → Approvable s a (gate_of state) "pr-ready" raw w state
      → PrMove state (gate_of (enter state "pr-ready"))
  pr_move raw w state on_lane (_, unparked, (gate, edge), _, _, _) =
      let passed = advance_gate-pr_ready (gate_of state) gate edge unparked in
      (
        (λ chore. clash (sym on_lane ∙ chore_off_lane state passed chore)),
        passed,
        gate_of-enter state "pr-ready",
      )
    where
      clash : ¬ (false ≡ true)
      clash e = cc

  after_pr_advance-Lands :
      (raw : String) (w : Disk s) (state : Fields) (r : HumanAdvance × Disk s)
      → At s.json w.task state
      → is_off_lane s a state ≡ false
      → Advances s a (gate_of state) "pr-ready" raw w state r
      → Lands s (PrMove state) state (after_pr_advance s a r).1.task
  after_pr_advance-Lands raw w state (Human.refused e, w') at_state on_lane (inl (_, _, same)) =
      (state, rw same at_state, inl refl)
  after_pr_advance-Lands raw w state (Human.refused e, w') at_state on_lane (inr (may, at_to, _)) =
      (enter state "pr-ready", at_to, inr (pr_move raw w state on_lane may))
  after_pr_advance-Lands raw w state (approved f t next, w') at_state on_lane (inl (_, _, same)) =
      (state, rw same at_state, inl refl)
  after_pr_advance-Lands raw w state (approved f t next, w') at_state on_lane
        (inr (may, at_to, _)) =
      (enter state "pr-ready", at_to, inr (pr_move raw w state on_lane may))

  -- `approve pr` leaves the gate, or marks a verified task of a lane other than chore as ready.
  pub approve_pr-Lands :
      (raw : String) (w : Disk s) (state : Fields)
      → At s.json w.task state
      → Lands s (PrMove state) state (approve_pr s a raw w).1.task
  unfolding approve_pr approve_pr_of
  approve_pr-Lands raw w state at_state =
      rw at_state (elim (Bool-cases (str_eq (gate_of state) "pr-ready")) [
        | inl i ↦ rw i (state, at_state, inl refl)
        | inr i ↦ elim (Bool-cases (is_off_lane s a state)) [
          | inl g ↦ rw (i, g) (state, at_state, inl refl)
          | inr g ↦
              rw (i, g)
                (after_pr_advance-Lands raw w state _ at_state g
                  (advance-Advances s a (gate_of state) "pr-ready" raw w state at_state))
        ]
      ])

  -- The audit event of `approve plan` leaves task.json alone.
  record_plan-task :
      (raw : String) (state : Fields) (from to : String) (o : Option String) (w : Disk s)
      → (record_plan s a raw state from to o w).1.task ≡ w.task
  record_plan-task raw state from to none w = refl
  record_plan-task raw state from to (some m) w = refl

  abbrev StartMove : Fields → String → Type 0
  StartMove state to = IsStart (lane_of state) (gate_of state) to

  after_plan_write-Lands :
      (again : Disk s → Ended s a) (raw : String) (state next : Fields) (from to : String)
      (r : MutateResult × World s.json.Text) (w : Disk s)
      → At s.json w.task state
      → ((w' : Disk s)
          → At s.json w'.task state
          → Lands s (StartMove state) state (again w').1.task)
      → StartMove state (gate_of next)
      → (r.1 ≡ w.task) ⊎ ((v : ℕ) × (r.0 ≡ written v) × At s.json r.1 (stamp next v))
      → Lands s (StartMove state) state (after_plan_write s a again raw state from to r w).1.task
  after_plan_write-Lands again raw state next from to (written v, task) w at_state ih start
        (inl same) =
      rw (record_plan-task raw state from to a.traced (record w { task = task }))
        (state, rw same at_state, inl refl)
  after_plan_write-Lands again raw state next from to (written v, task) w at_state ih start
        (inr (u, e, at_next)) =
      rw (record_plan-task raw state from to a.traced (record w { task = task }))
        (stamp next u, at_next, inr (rw (gate_of-stamp next u) start))
  after_plan_write-Lands again raw state next from to (skipped v, task) w at_state ih start
        (inl same) =
      rw (record_plan-task raw state from to a.traced (record w { task = task }))
        (state, rw same at_state, inl refl)
  after_plan_write-Lands again raw state next from to (conflict c e, task) w at_state ih start
        (inl same) =
      ih (record w { task = task }) (rw same at_state)
  after_plan_write-Lands again raw state next from to (failed e, task) w at_state ih start
        (inl same) =
      (state, rw same at_state, inl refl)
  after_plan_write-Lands again raw state next from to (skipped v, task) w at_state ih start
        (inr (u, e, _)) =
      cc
  after_plan_write-Lands again raw state next from to (conflict c x, task) w at_state ih start
        (inr (u, e, _)) =
      cc
  after_plan_write-Lands again raw state next from to (failed x, task) w at_state ih start
        (inr (u, e, _)) =
      cc

  plan_moved-Lands :
      (again : Disk s → Ended s a) (around : ℕ → Attempt s.json.Text) (i : ℕ) (raw : String)
      (state : Fields) (w : Disk s)
      → IsUndisturbed around
      → At s.json w.task state
      → ((w' : Disk s)
          → At s.json w'.task state
          → Lands s (StartMove state) state (again w').1.task)
      → Lands s
          (StartMove state)
          state
          (plan_moved s a again (around i) raw state (transition s w state "start-impl") w).1.task
  unfolding plan_moved
  plan_moved-Lands again around i raw state w quiet at_state ih =
      elim (TransitionResult-cases (transition s w state "start-impl")) [
        | inl (why, refuses) ↦ rw refuses (state, at_state, inl refl)
        | inr (from, to, next, moves) ↦ rw moves (
            after_plan_write-Lands again raw state next from to
              (plan_write s a (around i) state next w) w at_state ih (start_of from to next moves)
              (plan_written next))
      ]
    where
      start_of :
          (from to : String) (next : Fields)
          → transition s w state "start-impl" ≡ moved from to next
          → StartMove state (gate_of next)
      start_of from to next moves =
          let (_, n, move) = transition-moved s w state "start-impl" from to next moves in
          rw (ap gate_of n, gate_of-enter state to)
            (Move-IsStart _ (lane_of state) _ (gate_of state) to move)

      plan_written :
          (next : Fields)
          → ((plan_write s a (around i) state next w).1 ≡ w.task)
            ⊎ ((v : ℕ) × ((plan_write s a (around i) state next w).0 ≡ written v)
                × At s.json (plan_write s a (around i) state next w).1 (stamp next v))
      plan_written next =
          elim (mutate_cases s.json (around i).host _ (λ _. next_state next)
            ((around i).between w.task) state (rw (quiet i w.task).1 at_state)) [
              | inl same ↦ inl (same ∙ (quiet i w.task).1)
              | inr (next', v, e, wrote, at_next) ↦
                  let same : next' ≡ next = cc in inr (v, wrote, rw same at at_next)
            ]

  plan_loop-Lands :
      (left i : ℕ) (around : ℕ → Attempt s.json.Text) (raw : String) (w : Disk s) (state : Fields)
      → IsUndisturbed around
      → At s.json w.task state
      → Lands s (StartMove state) state (plan_loop s a left i around raw w).1.task
  unfolding plan_loop plan_round
  plan_loop-Lands zero i around raw w state quiet at_state = (state, at_state, inl refl)
  plan_loop-Lands (suc left) i around raw w state quiet at_state =
      rw ((quiet i w.task).0, at_state)
        (plan_moved-Lands (plan_loop s a left (suc i) around raw) around i raw state w quiet
          at_state (λ w' at_w'. plan_loop-Lands left (suc i) around raw w' state quiet at_w'))

  -- `approve plan` leaves the gate where it is, or starts an implementation, while no other writer
  -- comes between.
  pub approve_plan-Lands :
      (around : ℕ → Attempt s.json.Text) (raw : String) (w : Disk s) (state : Fields)
      → IsUndisturbed around
      → At s.json w.task state
      → Lands s (StartMove state) state (approve_plan s a around raw w).1.task
  unfolding approve_plan
  approve_plan-Lands = plan_loop-Lands approve_plan_attempts 0

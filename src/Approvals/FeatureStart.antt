-- ===== src/Approvals/FeatureStart.antt =====
-- What the continuation of an approved spec leaves in task.json.
use devmate.Prelude.{
  String, List, [], ◌∷◌, ◌++◌, true, Option, none, some, ◌≡◌, ◌≢◌, ◌⊎◌, inl, inr, refl, sym, ap,
  ◌∙◌, arith, Bool-cases,
}
use text.Mathlib.TextEquality.{eq_iff}
use devmate.Prelude.Text.{str_eq}
use devmate.Glob.{Code}
use devmate.Json.{str, obj, Fields, get, set}
use devmate.Json.Laws.{get-set}
use devmate.Gates.Transition.{TransitionResult, moved, refused, lane_of, gate_of, task_of}
use devmate.Preconditions.{has_spec}
use devmate.Workstreams.{Partition}
use devmate.Approvals.Workspace.{files_fallback, Answers, Session, transition, log_lane}
use devmate.Approvals.SpecFiles.{extract_spec_files, read_spec_files}
use devmate.Approvals.Lanes.{
  Disk, compute_workstreams, with_metadata, hashes_of, metadata, start_partitioned,
  start_with_files, start_files, start_moved, continue_approved_feature,
}
use devmate.Approvals.Starts.{Move-IsStart}
use devmate.Approvals.Writes.{write_cases}
use devmate.Approvals.LaneMoves.{log_lane-task, transition-moved, gate_of-enter, Leaves}

gate_of-with_metadata :
    (stored_at handoff_at : String) (state : Fields)
    → gate_of (with_metadata stored_at handoff_at state) ≡ gate_of state
unfolding with_metadata
gate_of-with_metadata stored_at handoff_at state =
    rw
      (get-set state "artifactHashes" "workflowGate" (
        obj (
          set (set (hashes_of (get state "artifactHashes")) "plan_stored_at" (str stored_at))
            "handoff_at" (str handoff_at))))
      refl

-- Where a spec is approved, an implementation starts in the feature lane only.
spec_lane :
    {lane gate : String}
    → gate ≡ "spec-approved"
    → ((lane ≡ "feature") × (gate ≡ "spec-approved"))
      ⊎ ((lane ≢ "feature") × (gate ≡ "plan-approved"))
    → lane ≡ "feature"
spec_lane g (inl (l, _)) = l
spec_lane g (inr (_, p)) = absurd (other (sym p ∙ g))
  where
    other : ¬ (◌≡◌ {A = String} "plan-approved" "spec-approved")
    other e = ground (arith, eq_iff "plan-approved" "spec-approved")

-- The implementation of an approved spec of the feature lane has started.
abbrev pub IsSpecStart : Fields → String → Type 0
IsSpecStart state gate =
    (gate ≡ "impl-started") × (lane_of state ≡ "feature") × (gate_of state ≡ "spec-approved")

module _ (s : Session) (a : Answers) where
  started_with :
      (P : String → Type 0) (from to : String) (next : Fields) (w : Disk s) (o : Option Partition)
      → P (gate_of next)
      → Leaves s P w.task (start_partitioned s a from to next o w).1.task
  started_with P from to next w none p = inl refl
  started_with P from to next w (some q) p =
      elim (write_cases s.json a.follow (metadata s next) w.task) [
        | inl (e, failed) ↦ inl (rw failed refl)
        | inr (task, wrote, at_task) ↦ inr (
          metadata s next,
          rw (wrote, log_lane-task) at_task,
          rw (gate_of-with_metadata s.state_path (s.handoff_path (task_of next)) next) p,
        )
      ]

  with_files :
      (P : String → Type 0) (from to : String) (next : Fields) (w : Disk s) (files : List Code)
      → P (gate_of next)
      → Leaves s P w.task (start_with_files s a from to next files w).1.task
  with_files P from to next w [] p = inl refl
  with_files P from to next w (f ∷ files) p =
      started_with P from to next w (compute_workstreams (f ∷ files) s.config) p

  of_files :
      (P : String → Type 0) (from to : String) (next : Fields) (w : Disk s) (files : List Code)
      → P (gate_of next)
      → Leaves s P w.task (start_files s a from to next files w).1.task
  of_files P from to next w (f ∷ files) p = with_files P from to next w (f ∷ files) p
  of_files P from to next w [] p = after_log a.lane_logged
    where
      after_log :
          (o : Option String)
          → Leaves s P w.task
              (start_with_files s a from to next
                (extract_spec_files s.units w.spec)
                (log_lane o (files_fallback (task_of next)) w)).1.task
      after_log (some m) = with_files P from to next w (extract_spec_files s.units w.spec) p
      after_log none =
          with_files P from to next
            (record w { lane_log = w.lane_log ++ files_fallback (task_of next) ∷ [] })
            (extract_spec_files s.units w.spec) p

  moved_on :
      (P : String → Type 0) (state : Fields) (r : TransitionResult) (w : Disk s)
      → ((from to : String) (next : Fields) → r ≡ moved from to next → P (gate_of next))
      → Leaves s P w.task (start_moved s a state r w).1.task
  moved_on P state (refused why) w p = inl refl
  moved_on P state (moved from to next) w p =
      of_files P from to next w (read_spec_files s.units state) (p from to next refl)

  -- The continuation leaves the file alone, or starts the implementation of an approved spec of the
  -- feature lane.
  pub continue_approved_feature-Leaves :
      (state : Fields) (w : Disk s)
      → Leaves s (IsSpecStart state) w.task (continue_approved_feature s a state w).1.task
  unfolding continue_approved_feature
  continue_approved_feature-Leaves state w = elim (Bool-cases (has_spec (some (obj state)))) [
    | inr h ↦ rw h (inl refl)
    | inl h ↦ elim (Bool-cases (str_eq (gate_of state) "spec-approved")) [
      | inr g ↦ rw (h, g) (inl refl)
      | inl g ↦
          rw (h, g)
            (moved_on (IsSpecStart state) state (transition s w state "start-impl") w
              (λ from to next m. started_feature g from to next m))
    ]
  ]
    where
      started_feature :
          str_eq (gate_of state) "spec-approved" ≡ true
          → (from to : String) (next : Fields)
          → transition s w state "start-impl" ≡ moved from to next
          → (gate_of next ≡ "impl-started")
            × (lane_of state ≡ "feature")
            × (gate_of state ≡ "spec-approved")
      started_feature g from to next m =
          let (_, n, move) = transition-moved s w state "start-impl" from to next m in
          let (at_start, from_gate) = Move-IsStart _ (lane_of state) _ (gate_of state) to move in
          let at_spec = (eq_iff (gate_of state) "spec-approved").0 g in
          (ap gate_of n ∙ (gate_of-enter state to ∙ at_start), spec_lane at_spec from_gate, at_spec)

-- ===== src/Approvals/ApprovalGates.antt =====
-- The gates that `approve spec`, `approve pr` and `approve plan` can lead to.
use text.Mathlib.TextEquality.{eq_iff}
use devmate.Prelude.{String, false, ◌≡◌, ◌⊎◌, inl, inr, refl, sym, ap, ◌∙◌, arith, Bool-cases}
use devmate.Prelude.Text.{str_eq}
use devmate.Json.{Fields, end, field, get, set, text_of}
use devmate.Json.Laws.{get-set}
use devmate.Gates.Transition.{lane_of, gate_of, enter}
use devmate.Gates.Transition.Safety.{get-enter}
use devmate.Gatectl.Human
use devmate.Gatectl.Human.{AdvanceError, HumanAdvance, approved}
use devmate.Gatectl.Edges.{advance_gate-spec_approved}
use devmate.TaskState.Store.{World}
use devmate.Approvals.Workspace.{Answers, Session, Stop, without}
use devmate.Approvals.Lanes.{Disk, LaneMove, started, stopped, continue_approved_feature}
use devmate.Approvals.Listener.{
  persist_continuation_error, after_continuation, continue_spec, after_spec_advance,
  approve_spec_of, approve_spec,
}
use devmate.Approvals.LaneMoves.{Leaves, gate_of-enter}
use devmate.Approvals.FeatureStart.{IsSpecStart, continue_approved_feature-Leaves}
use devmate.Approvals.Gates.{Lands, Lands-weaken}
use devmate.Approvals.Advances.{Advances, Approvable, advance-Advances}
use devmate.Approvals.Writes.{At, mutate_keeps}

get-without :
    (fs : Fields) (key other : String)
    → str_eq key other ≡ false
    → get (without fs key) other ≡ get fs other
unfolding without get
get-without end key other h = refl
get-without (field k v fs) key other h =
    ground (arith, eq_iff k key, eq_iff k other, eq_iff key other, get-without fs key other h)

abbrev bare_of : Fields → Fields
bare_of state = without state "continuationError"

bare_start :
    (state : Fields) (gate : String) → IsSpecStart (bare_of state) gate → IsSpecStart state gate
bare_start state gate (to, lane, at_spec) = (
  to,
  sym (ap text_of (get-without state "continuationError" "lane" refl)) ∙ lane,
  sym (ap text_of (get-without state "continuationError" "workflowGate" refl)) ∙ at_spec,
)

module _ (s : Session) (a : Answers) where
  -- An error that is kept moves no gate.
  persist_error-keeps :
      (at : String) (stop : Stop) (w : Disk s) (state : Fields)
      → At s.json w.task state
      → (state' : Fields) × At s.json (persist_continuation_error s a at stop w).task state'
        × (gate_of state' ≡ gate_of state)
  unfolding persist_continuation_error
  persist_error-keeps at stop w state at_state =
      mutate_keeps s.json a.repair _ (λ st. set st "continuationError" _) w.task state at_state
        (rw (get-set state "continuationError" "workflowGate" _) refl)

  -- What a lane leaves is where the task lands.
  pub landed :
      (P : String → Type 0) (state : Fields) (task task' : World s.json.Text)
      → At s.json task state
      → Leaves s P task task'
      → Lands s P state task'
  landed P state task task' at_state (inl same) = (state, rw same at_state, inl refl)
  landed P state task task' at_state (inr (x, at_x, p)) = (x, at_x, inr p)

  after_continuation-Lands :
      (P : String → Type 0) (gate : String) (state : Fields) (task : World s.json.Text)
      (r : LaneMove × Disk s)
      → At s.json task state
      → Leaves s P task r.1.task
      → Lands s P state (after_continuation s a gate r).1.task
  after_continuation-Lands P gate state task (started from to next, w) at_state leaves =
      landed P state task w.task at_state leaves
  after_continuation-Lands P gate state task (stopped stop, w) at_state leaves =
      let (x, at_x, d) = landed P state task w.task at_state leaves in
      let (y, at_y, e) = persist_error-keeps gate stop w x at_x in (y, at_y, moved_gate P e d)
    where
      moved_gate : (Q : String → Type 0) {b c d : String} → b ≡ c → (c ≡ d) ⊎ Q c → (b ≡ d) ⊎ Q b
      moved_gate Q e (inl same) = inl (e ∙ same)
      moved_gate Q e (inr q) = inr (rw e q)

  -- The continuation of a spec that is at the state's gate.
  continue_spec-Lands :
      (gate : String) (state : Fields) (w : Disk s)
      → At s.json w.task state
      → Lands s (IsSpecStart state) state (continue_spec s a gate state w).1.task
  unfolding continue_spec
  continue_spec-Lands gate state w at_state =
      Lands-weaken s (IsSpecStart (bare_of state)) (IsSpecStart state) state
        (after_continuation s a gate (continue_approved_feature s a (bare_of state) w)).1.task
        (bare_start state)
        (after_continuation-Lands (IsSpecStart (bare_of state)) gate state w.task
          (continue_approved_feature s a (bare_of state) w) at_state
          (continue_approved_feature-Leaves s a (bare_of state) w))

  -- Where `approve spec` can lead.
  abbrev pub SpecMove : Fields → String → Type 0
  SpecMove state to =
      ((gate_of state ≡ "spec-draft")
        × ((to ≡ "spec-approved") ⊎ ((lane_of state ≡ "feature") × (to ≡ "impl-started"))))
      ⊎ IsSpecStart state to

  lane_of-enter : (state : Fields) (gate : String) → lane_of (enter state gate) ≡ lane_of state
  lane_of-enter state gate = rw (get-enter state gate "lane") refl

  draft_of :
      (raw : String) (w : Disk s) (state : Fields)
      → Approvable s a (gate_of state) "spec-approved" raw w state
      → gate_of state ≡ "spec-draft"
  draft_of raw w state (_, unparked, (gate, edge), _, _, _) =
      advance_gate-spec_approved (gate_of state) gate edge unparked

  -- What a continuation right after the approval makes of the gate.
  continued :
      (state : Fields) (x : Fields)
      → gate_of state ≡ "spec-draft"
      → (gate_of x ≡ gate_of (enter state "spec-approved"))
        ⊎ IsSpecStart (enter state "spec-approved") (gate_of x)
      → SpecMove state (gate_of x)
  continued state x draft (inl same) = inl (draft, inl (same ∙ gate_of-enter state "spec-approved"))
  continued state x draft (inr (to, lane, _)) =
      inl (draft, inr (sym (lane_of-enter state "spec-approved") ∙ lane, to))

  after_spec_advance-Lands :
      (raw : String) (w : Disk s) (state : Fields) (r : HumanAdvance × Disk s)
      → At s.json w.task state
      → Advances s a (gate_of state) "spec-approved" raw w state r
      → Lands s (SpecMove state) state (after_spec_advance s a r).1.task
  after_spec_advance-Lands raw w state (Human.refused e, w') at_state (inl (_, _, same)) =
      (state, rw same at_state, inl refl)
  after_spec_advance-Lands raw w state (Human.refused e, w') at_state (inr (may, at_to, _)) = (
    enter state "spec-approved",
    at_to,
    inr (inl (draft_of raw w state may, inl (gate_of-enter state "spec-approved"))),
  )
  after_spec_advance-Lands raw w state (approved f t next, w') at_state (inl (_, h, _)) =
      absurd (ground (arith, h))
  after_spec_advance-Lands raw w state (approved f t next, w') at_state
        (inr (may, at_to, inl (_, h))) =
      absurd (ground (arith, h))
  after_spec_advance-Lands raw w state (approved f t next, w') at_state (inr (may, at_to, inr h)) =
      let same : next ≡ enter state "spec-approved" = cc in
      let (x, at_x, d) = continue_spec-Lands t next w' (rw same at_to) in
      (x, at_x, inr (continued state x (draft_of raw w state may) (rw same at d)))

  -- `approve spec` leaves a draft where it is or approves it, or starts the implementation of an approved
  -- spec of the feature lane.
  pub approve_spec-Lands :
      (raw : String) (w : Disk s) (state : Fields)
      → At s.json w.task state
      → Lands s (SpecMove state) state (approve_spec s a raw w).1.task
  unfolding approve_spec approve_spec_of
  approve_spec-Lands raw w state at_state =
      rw at_state (elim (Bool-cases (str_eq (gate_of state) "impl-started")) [
        | inl i ↦ rw i (state, at_state, inl refl)
        | inr i ↦ elim (Bool-cases (str_eq (gate_of state) "spec-approved")) [
          | inl g ↦
              rw (i, g)
                (Lands-weaken s (IsSpecStart state) (SpecMove state) state
                  (continue_spec s a (gate_of state) state w).1.task (λ gate p. inr p)
                  (continue_spec-Lands (gate_of state) state w at_state))
          | inr g ↦
              rw (i, g)
                (after_spec_advance-Lands raw w state _ at_state
                  (advance-Advances s a (gate_of state) "spec-approved" raw w state at_state))
        ]
      ])

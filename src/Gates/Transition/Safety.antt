-- ===== src/Gates/Transition/Safety.antt =====
-- What the moves of `transitionGate` can and cannot do.
use text.Mathlib.TextEquality.{eq_iff}
use mathlib.Core.Bool.{and-eq-true_iff}
use devmate.Prelude.{
  String, ◌≡◌, refl, ◌≢◌, ◌⊎◌, inl, inr, Bool, true, not, ◌&&◌, ◌||◌, Option, some, arith, all,
  if◌then◌else◌,
}
use devmate.Prelude.Table.{get_own, get_own-all}
use devmate.Prelude.Text.{str_eq, includes, includes-all}
use devmate.Json.{Json, num, str, nat, Fields, get, set}
use devmate.Json.Laws.{get-set}
use devmate.Gates.Tables.{GateTable, transitions, steering, parkable_gates}
use devmate.Gates.Sets.{legal_transitions}
use devmate.Gates.Edges.{OwnEdge, SteeringEdge, OwnEdge-all, SteeringEdge-all, all_edges}
use devmate.Gates.ResumePointer.{ResumePointer, PointerRead, read, read_resume_pointer}
use devmate.Gates.Transition.{
  Context, Verdict, moved, lane_of, gate_of, task_of, enter, transition_gate,
}
use devmate.Gates.Transition.Choice.{Move, own, steer, resume}
use devmate.Gates.Transition.Exact.{transition_gate_iff}
use devmate.Gatectl.{is_legal_transition}

-- Reading a field of the state after a gate is entered.
pub get-enter :
    (state : Fields) (gate key : String)
    → get (enter state gate) key ≡ (
        if str_eq "currentStep" key
        then some (num (nat 0))
        else if str_eq "workflowGate" key
        then some (str gate)
        else get state key)
unfolding enter
get-enter state gate key = ground (
  arith,
  get-set (set state "workflowGate" (str gate)) "currentStep" key (num (nat 0)),
  get-set state "workflowGate" key (str gate),
)

-- The tests of the tables that the theorems below rest on.
starts_once : String → String → String → String → Bool
starts_once lane gate event to =
    not (str_eq lane "feature" && str_eq to "impl-started")
    || (str_eq gate "spec-approved" && str_eq event "start-impl")

never_to : String → String → String → String → Bool
never_to avoided gate event to = not (str_eq to avoided)

legal_edge : String → String → String → String → Bool
unfolding legal_transitions is_legal_transition
legal_edge lane gate event to =
    includes (legal_transitions lane gate) to && is_legal_transition gate to

legal_steering : String → GateTable → Bool
unfolding legal_edge
legal_steering lane table = all_edges (legal_edge lane) steering

legal_resume : String → GateTable → Bool
unfolding legal_edge
legal_resume lane table = all (legal_edge lane "parked" "resume") parkable_gates

own_starts :
    {lane gate event to : String}
    → OwnEdge lane gate event to
    → lane ≡ "feature"
    → to ≡ "impl-started"
    → (gate ≡ "spec-approved") × (event ≡ "start-impl")
own_starts {lane} {gate} {event} {to} e a b =
    let t = OwnEdge-all starts_once (unfold starts_once in refl) e in
    unfold starts_once in
    ground (
      arith,
      eq_iff gate "spec-approved",
      eq_iff event "start-impl",
      eq_iff lane "feature",
      eq_iff to "impl-started",
    )

steering_avoids_start : {gate event to : String} → SteeringEdge gate event to → to ≢ "impl-started"
steering_avoids_start {gate} {event} {to} e a =
    let t = SteeringEdge-all (never_to "impl-started") (unfold never_to in refl) e in
    unfold never_to in ground (arith, eq_iff to "impl-started")

own_avoids_approval :
    {lane gate event to : String} → OwnEdge lane gate event to → to ≢ "spec-approved"
own_avoids_approval {lane} {gate} {event} {to} e a =
    let t = OwnEdge-all (λ _. never_to "spec-approved") (unfold never_to in refl) e in
    unfold never_to in ground (arith, eq_iff to "spec-approved")

steering_avoids_approval :
    {gate event to : String} → SteeringEdge gate event to → to ≢ "spec-approved"
steering_avoids_approval {gate} {event} {to} e a =
    let t = SteeringEdge-all (never_to "spec-approved") (unfold never_to in refl) e in
    unfold never_to in ground (arith, eq_iff to "spec-approved")

-- A resume to the gate that the pointer of this task records.
pub record ResumesTo (pointer : PointerRead) (task gate event to : String) : Type 0 where
  pub recorded : ResumePointer
  pub parked : gate ≡ "parked"
  pub resuming : event ≡ "resume"
  pub is_read : pointer ≡ read recorded
  pub is_ours : recorded.task_id ≡ task
  pub is_target : to ≡ recorded.gate

Move-feature_start :
    (pointer : PointerRead) (lane task gate event to : String)
    → Move pointer lane task gate event to
    → lane ≡ "feature"
    → to ≡ "impl-started"
    → ((gate ≡ "spec-approved") × (event ≡ "start-impl")) ⊎ ResumesTo pointer task gate event to
Move-feature_start pointer lane task gate event to (own e) a b = inl (own_starts e a b)
Move-feature_start pointer lane task gate event to (steer e) a b =
    absurd (steering_avoids_start e b)
Move-feature_start pointer lane task gate event to (resume p c d f g h i) a b =
    inr (record { recorded = p; parked = c; resuming = d; is_read = f; is_ours = g; is_target = i })

Move-approval :
    (pointer : PointerRead) (lane task gate event to : String)
    → Move pointer lane task gate event to
    → to ≡ "spec-approved"
    → ResumesTo pointer task gate event to
Move-approval pointer lane task gate event to (own e) b = absurd (own_avoids_approval e b)
Move-approval pointer lane task gate event to (steer e) b = absurd (steering_avoids_approval e b)
Move-approval pointer lane task gate event to (resume p c d f g h i) b = record {
  recorded = p;
  parked = c;
  resuming = d;
  is_read = f;
  is_ours = g;
  is_target = i;
}

Move-legal :
    (pointer : PointerRead) (lane task gate event to : String) (table : GateTable)
    → get_own transitions lane ≡ some table
    → Move pointer lane task gate event to
    → legal_edge lane gate event to ≡ true
Move-legal pointer lane task gate event to table known (own e) =
    OwnEdge-all legal_edge (unfold legal_edge in refl) e
Move-legal pointer lane task gate event to table known (steer e) =
    SteeringEdge-all (legal_edge lane)
      (unfold legal_steering in
        get_own-all legal_steering transitions lane table known (unfold legal_steering in refl))
      e
Move-legal pointer lane task gate event to table known (resume p c d f g h i) =
    rw (c, d, i)
      (includes-all (legal_edge lane "parked" "resume") parkable_gates p.gate h (
        unfold legal_resume in
        get_own-all legal_resume transitions lane table known (unfold legal_resume in refl)))

legal_parts :
    (lane gate event to : String)
    → legal_edge lane gate event to ≡ true
    → (includes (legal_transitions lane gate) to ≡ true) × (is_legal_transition gate to ≡ true)
unfolding legal_edge
legal_parts lane gate event to h = (and-eq-true_iff _ _).0 h

module _ (is_date : String → Bool) (check : String → Context → Verdict) (artifact : Option Json)
    (state : Fields) (event from to : String) (state' : Fields)
    (moves : transition_gate is_date check artifact state event ≡ moved from to state') where
  -- On the feature lane no event starts the implementation but `start-impl` at the approved spec,
  -- and the resume of a task whose own pointer records `impl-started`.
  pub transition_gate-feature_start :
      lane_of state ≡ "feature"
      → to ≡ "impl-started"
      → ((gate_of state ≡ "spec-approved") × (event ≡ "start-impl"))
        ⊎ ResumesTo (read_resume_pointer is_date artifact) (task_of state) (gate_of state) event to
  transition_gate-feature_start a b =
      let (_, _, _, m, _) =
        (transition_gate_iff is_date check artifact state event from to state').0 moves in
      Move-feature_start _ _ _ _ _ _ m a b

  -- On every lane, no event approves the spec: only the resume of a task whose own pointer records
  -- the gate `spec-approved` enters that gate.
  pub transition_gate-approval :
      to ≡ "spec-approved"
      → ResumesTo (read_resume_pointer is_date artifact) (task_of state) (gate_of state) event to
  transition_gate-approval b =
      let (_, _, _, m, _) =
        (transition_gate_iff is_date check artifact state event from to state').0 moves in
      Move-approval _ _ _ _ _ _ m b

  -- A move that `transitionGate` makes is one that `legalTransitions` reports for the lane and that
  -- the flattened table of gatectl has.
  pub transition_gate-legal :
      (includes (legal_transitions (lane_of state) from) to ≡ true)
      × (is_legal_transition from to ≡ true)
  transition_gate-legal =
      let ((table, known), same, _, m, _) =
        (transition_gate_iff is_date check artifact state event from to state').0 moves in
      let legal = Move-legal _ _ _ _ _ _ table known m in rw same (legal_parts _ _ _ _ legal)

  -- A move keeps every field but the gate and the step, which restarts at 0.
  pub transition_gate-keeps :
      (from ≡ gate_of state)
      × (get state' "workflowGate" ≡ some (str to))
      × (get state' "currentStep" ≡ some (num (nat 0)))
      × ((key : String)
          → key ≢ "workflowGate"
          → key ≢ "currentStep"
          → get state' key ≡ get state key)
  transition_gate-keeps =
      let (_, same, e, _, _) =
        (transition_gate_iff is_date check artifact state event from to state').0 moves in
      (
        same,
        rw e (get-enter state to "workflowGate"),
        rw e (get-enter state to "currentStep"),
        λ key a b. rw e (
            ground
              (arith, get-enter state to key, eq_iff "currentStep" key, eq_iff "workflowGate" key)),
      )

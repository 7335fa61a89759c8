-- ===== src/TaskState/Moves.antt =====
-- Which moves of `transitionGate` keep a task state that `validateTaskState` accepts.
use mathlib.Core.Bool.{and-eq-true_iff}
use devmate.Prelude.{
  String, ◌≡◌, refl, ◌≢◌, ◌↔◌, Bool, true, false, not, ◌&&◌, ◌||◌, Option, some, arith,
}
use devmate.Prelude.Table.{get_own, get_own-all}
use devmate.Prelude.Text.{str_eq, includes}
use devmate.Json.{Json, str, Fields, get, text_of}
use devmate.Gates.Tables.{GateTable, transitions, steering}
use devmate.Gates.Edges.{OwnEdge, SteeringEdge, OwnEdge-all, SteeringEdge-all, all_edges}
use devmate.Gates.ResumePointer.{PointerRead}
use devmate.Gates.Transition.{
  Context, Verdict, moved, lane_of, gate_of, task_of, enter, transition_gate,
}
use devmate.Gates.Transition.Choice.{Move, own, steer, resume}
use devmate.Gates.Transition.Exact.{transition_gate_iff}
use devmate.Gates.Transition.Safety.{get-enter}
use devmate.TaskState.Validate.{valid_lanes, valid_gates, gates_valid_for_lane}
use devmate.TaskState.Validate.Spec.{IsTaskState, IsPlace, Contains}
use devmate.TaskState.Validate.Checks.{includes_iff}

-- A gate that the lane has, as tests.
abbrev pub fits_lane : String → String → Bool
fits_lane lane gate = includes valid_gates gate && includes (gates_valid_for_lane lane) gate

IsPlace-fits :
    (lane : Option Json) (gate : String)
    → IsPlace lane (some (str gate))
    → fits_lane (text_of lane) gate ≡ true
IsPlace-fits lane gate (l, g, a, b, c, d, f) =
    let same : gate ≡ g = cc in
    rw (a, same) ((and-eq-true_iff _ _).1 ((includes_iff _ _).1 d, (includes_iff _ _).1 f))

fits-IsPlace :
    (lane : Option Json) (gate l : String)
    → lane ≡ some (str l)
    → Contains valid_lanes l
    → fits_lane (text_of lane) gate ≡ true
    → IsPlace lane (some (str gate))
fits-IsPlace lane gate l a c h =
    let (d, f) = (and-eq-true_iff _ _).0 (rw a at h) in
    (l, gate, a, refl, c, (includes_iff _ _).0 d, (includes_iff _ _).0 f)

-- Entering a gate keeps a task state exactly if the gate fits the lane.
pub enter-IsTaskState :
    (state : Fields) (gate : String)
    → IsTaskState (get state)
    → IsTaskState (get (enter state gate)) ↔ (fits_lane (lane_of state) gate ≡ true)
enter-IsTaskState state gate s =
    let e = get-enter state gate in
    let (l, g, lane, at, c, d, f) = s.place in
    (
      (λ t. IsPlace-fits _ _ (rw (e "lane", e "workflowGate") at t.place)),
      λ h. record {
        task_id = rw (e "taskId") s.task_id;
        place = rw (e "lane", e "workflowGate") (fits-IsPlace _ gate l lane c h);
        hashes = rw (e "artifactHashes") s.hashes;
        stash = rw (e "preImplStash") s.stash;
        current_step = rw (e "currentStep") (0, refl);
        budget = rw (e "budget") s.budget;
        schema_version = rw (e "schemaVersion") s.schema_version;
        active_subagents = rw (e "activeSubagents") s.active_subagents;
        active_agents = rw (e "activeAgents") s.active_agents;
        spec_files = rw (e "specFiles") s.spec_files;
        acceptance_criteria = rw (e "acceptanceCriteria") s.acceptance_criteria;
        tdd_guard = rw (e "tddGuard") s.tdd_guard;
        continuation = rw (e "continuationError") s.continuation;
        state_version = rw (e "stateVersion") s.state_version;
      },
    )

-- The steering moves that leave the lane: a change of scope or of plan off the feature lane.
abbrev pub leaves_lane : String → String → Bool
leaves_lane lane event =
    not (str_eq lane "feature") && (str_eq event "revise-scope" || str_eq event "re-plan")

abbrev same_truth : Bool → Bool → Bool
same_truth true b = b
same_truth false b = not b

own_fits : String → String → String → String → Bool
own_fits lane gate event to = not (leaves_lane lane event) && fits_lane lane to

-- From a gate that fits the lane, a steering edge leads to one that does, unless it leaves the lane.
steering_fits : String → String → String → String → Bool
steering_fits lane gate event to =
    not (fits_lane lane gate) || same_truth (fits_lane lane to) (not (leaves_lane lane event))

lane_steering_fits : String → GateTable → Bool
unfolding steering_fits
lane_steering_fits lane table = all_edges (steering_fits lane) steering

OwnEdge-fits :
    {lane gate event to : String} → OwnEdge lane gate event to → own_fits lane gate event to ≡ true
OwnEdge-fits = OwnEdge-all own_fits (unfold own_fits gates_valid_for_lane in refl)

SteeringEdge-fits :
    (lane : String) (table : GateTable) {gate event to : String}
    → get_own transitions lane ≡ some table
    → SteeringEdge gate event to
    → steering_fits lane gate event to ≡ true
SteeringEdge-fits lane table known = SteeringEdge-all (steering_fits lane) (
    unfold lane_steering_fits in
    get_own-all lane_steering_fits transitions lane table known
      (unfold lane_steering_fits gates_valid_for_lane in refl))

fits_of_own : (a b : Bool) → not a && b ≡ true → (b ≡ true) ↔ (a ≡ false)
fits_of_own a b h = ground arith

fits_of_steer :
    (a b c : Bool) → not a || same_truth b (not c) ≡ true → a ≡ true → (b ≡ true) ↔ (c ≡ false)
fits_of_steer a b c h k = ground arith

place-fits :
    (state : Fields) → IsTaskState (get state) → fits_lane (lane_of state) (gate_of state) ≡ true
place-fits state s =
    let (l, g, lane, at, c, d, f) = s.place in rw at (IsPlace-fits _ g (rw at at s.place))

Move-fits :
    (pointer : PointerRead) (state : Fields) (event to : String) (table : GateTable)
    → get_own transitions (lane_of state) ≡ some table
    → IsTaskState (get state)
    → event ≢ "resume"
    → Move pointer (lane_of state) (task_of state) (gate_of state) event to
    → (fits_lane (lane_of state) to ≡ true) ↔ (leaves_lane (lane_of state) event ≡ false)
Move-fits pointer state event to table known s other (own e) =
    let h = OwnEdge-fits e in
    unfold own_fits in
    fits_of_own (leaves_lane (lane_of state) event) (fits_lane (lane_of state) to) h
Move-fits pointer state event to table known s other (steer e) =
    let h = SteeringEdge-fits (lane_of state) table known e in
    unfold steering_fits in
    fits_of_steer (fits_lane (lane_of state) (gate_of state)) (fits_lane (lane_of state) to)
      (leaves_lane (lane_of state) event) h (place-fits state s)
Move-fits pointer state event to table known s other (resume p c d f g h i) = absurd (other d)

-- A move that `transitionGate` makes from an accepted task state, other than a resume, leads to a
-- task state exactly if it is not a `revise-scope` or a `re-plan` off the feature lane.
pub transition_gate-IsTaskState_iff :
    (is_date : String → Bool) (check : String → Context → Verdict) (artifact : Option Json)
    (state : Fields) (event from to : String) (state' : Fields)
    → IsTaskState (get state)
    → event ≢ "resume"
    → transition_gate is_date check artifact state event ≡ moved from to state'
    → IsTaskState (get state') ↔ (leaves_lane (lane_of state) event ≡ false)
transition_gate-IsTaskState_iff is_date check artifact state event from to state' s other moves =
    let ((table, known), _, e, m, _) =
      (transition_gate_iff is_date check artifact state event from to state').0 moves in
    let (a, b) = enter-IsTaskState state to s in
    let (c, d) = Move-fits _ state event to table known s other m in
    rw e ((λ t. c (a t)), λ h. b (d h))

-- The resume of an accepted, parked task state leads to a task state exactly if the gate that the
-- pointer records fits the lane.
pub resume-IsTaskState_iff :
    (is_date : String → Bool) (check : String → Context → Verdict) (artifact : Option Json)
    (state : Fields) (from to : String) (state' : Fields)
    → IsTaskState (get state)
    → transition_gate is_date check artifact state "resume" ≡ moved from to state'
    → IsTaskState (get state') ↔ (fits_lane (lane_of state) to ≡ true)
resume-IsTaskState_iff is_date check artifact state from to state' s moves =
    let (_, _, e, _, _) =
      (transition_gate_iff is_date check artifact state "resume" from to state').0 moves in
    rw e (enter-IsTaskState state to s)

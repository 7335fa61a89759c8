-- ===== src/Gates/Transition/Choice.antt =====
-- The target that `transitionGate` chooses: `??` over the two tables, or the resume pointer.
use text.Mathlib.TextEquality.{eq_iff}
use devmate.Prelude.{
  String, ◌≡◌, refl, ◌↔◌, ◌⊎◌, inl, inr, Bool, true, false, not, ◌&&◌, Option, none, some, arith,
  Bool-cases, Option-cases, if◌then◌else◌,
}
use devmate.Prelude.Table.{get_own}
use devmate.Prelude.Text.{str_eq, includes}
use devmate.Gates.Tables.{EventTable, GateTable, transitions, steering, parkable_gates}
use devmate.Gates.Edges.{OwnEdge, SteeringEdge, OwnEdge-all, SteeringEdge-all}
use devmate.Gates.ResumePointer.{ResumePointer, PointerRead, read, failed}
use devmate.Gates.Transition.{
  row_of, or_else, Target, target, bad_resume, Refusal, not_parkable, foreign_pointer, of_option,
  resume_target,
}

-- The moves that a task may attempt at a gate: an edge of its lane, a steering edge, or, where it
-- is parked, a resume to the parkable gate that its own pointer records.
pub data Move (pointer : PointerRead) (lane task gate event : String) (to : String) : Type 0 where
  own : OwnEdge lane gate event to → Move pointer lane task gate event to
  steer : SteeringEdge gate event to → Move pointer lane task gate event to
  resume :
      (p : ResumePointer)
      → gate ≡ "parked"
      → event ≡ "resume"
      → pointer ≡ read p
      → p.task_id ≡ task
      → includes parkable_gates p.gate ≡ true
      → to ≡ p.gate
      → Move pointer lane task gate event to

-- No edge stands in both tables, and no edge is a resume.
abbrev is_none : Option String → Bool
is_none none = true
is_none (some _) = false

abbrev is_resume : String → String → Bool
is_resume gate event = str_eq gate "parked" && str_eq event "resume"

own_alone : String → String → String → String → Bool
own_alone lane gate event to =
    not (is_resume gate event) && is_none (row_of (get_own steering gate) event)

steer_alone : String → String → String → Bool
steer_alone gate event to = not (is_resume gate event)

OwnEdge-alone :
    {lane gate event to : String} → OwnEdge lane gate event to → own_alone lane gate event to ≡ true
OwnEdge-alone = OwnEdge-all own_alone (unfold own_alone get_own in refl)

SteeringEdge-alone :
    {gate event to : String} → SteeringEdge gate event to → is_resume gate event ≡ false
SteeringEdge-alone {gate} {event} {to} e =
    let alone = SteeringEdge-all steer_alone (unfold steer_alone in refl) e in
    unfold steer_alone in ground arith

two_tests_iff :
    (a b : Bool) (gate to : String) (x y : Refusal)
    → ((if a then if b then target gate else bad_resume x else bad_resume y) ≡ target to)
      ↔ ((a ≡ true) × (b ≡ true) × (to ≡ gate))
two_tests_iff a b gate to x y = ground arith

resume_target_iff :
    (pointer : PointerRead) (task to : String)
    → (resume_target pointer task ≡ target to) ↔ (
        (p : ResumePointer) × (pointer ≡ read p)
        × (p.task_id ≡ task)
        × (includes parkable_gates p.gate ≡ true)
        × (to ≡ p.gate))
unfolding resume_target
resume_target_iff (failed errors) task to = ground arith
resume_target_iff (read p) task to =
    let ours = eq_iff p.task_id task in
    let tests =
      two_tests_iff (str_eq p.task_id task) (includes parkable_gates p.gate) p.gate to
        (not_parkable p.gate) (foreign_pointer p.task_id task) in
    (
      (λ h. let (a, b, e) = tests.0 h in (p, refl, ours.0 a, b, e)),
      λ (q, same, t, inc, e). let s : p ≡ q = cc in tests.1 (ours.1 (rw s t), rw s inc, rw s e),
    )

abbrev row_target : Option EventTable → Option EventTable → String → Target
row_target first second event = of_option (or_else (row_of first event) (row_of second event))

row_target_iff :
    (first second : Option EventTable) (event to : String)
    → (row_target first second event ≡ target to) ↔ (
        (row_of first event ≡ some to)
        ⊎ ((row_of first event ≡ none) × (row_of second event ≡ some to)))
row_target_iff first second event to = ground arith

row_of-eq-some :
    (row : Option EventTable) (event to : String)
    → row_of row event ≡ some to
    → (events : EventTable) × (row ≡ some events) × (get_own events event ≡ some to)
row_of-eq-some none event to h = cc
row_of-eq-some (some events) event to h = (events, refl, h)

SteeringEdge-iff :
    (gate event to : String)
    → (row_of (get_own steering gate) event ≡ some to) ↔ SteeringEdge gate event to
SteeringEdge-iff gate event to = (
  (λ h.
      let (events, row, edge) = row_of-eq-some _ event to h in
      record { events = events; gate_row = row; event_row = edge }),
  λ e. rw (e.gate_row) (e.event_row),
)

is_resume_iff :
    (gate event : String) → (is_resume gate event ≡ true) ↔ ((gate ≡ "parked") × (event ≡ "resume"))
is_resume_iff gate event = ground (arith, eq_iff gate "parked", eq_iff event "resume")

OwnEdge-plain :
    {lane gate event to : String} → OwnEdge lane gate event to → is_resume gate event ≡ false
OwnEdge-plain e = let alone = OwnEdge-alone e in unfold own_alone in ground arith

module _ (pointer : PointerRead) (lane task gate event to : String) where
  Move-resuming :
      Move pointer lane task gate event to
      → is_resume gate event ≡ true
      → (p : ResumePointer) × (pointer ≡ read p)
        × (p.task_id ≡ task)
        × (includes parkable_gates p.gate ≡ true)
        × (to ≡ p.gate)
  Move-resuming (own e) h = cc (OwnEdge-plain e)
  Move-resuming (steer e) h = cc (SteeringEdge-alone e)
  Move-resuming (resume p a b c d f g) h = (p, c, d, f, g)

  Move-plain :
      Move pointer lane task gate event to
      → is_resume gate event ≡ false
      → OwnEdge lane gate event to ⊎ SteeringEdge gate event to
  Move-plain (own e) h = inl e
  Move-plain (steer e) h = inr e
  Move-plain (resume p a b c d f g) h = cc ((is_resume_iff gate event).1 (a, b))

  edge-Move :
      OwnEdge lane gate event to ⊎ SteeringEdge gate event to → Move pointer lane task gate event to
  edge-Move (inl e) = own e
  edge-Move (inr e) = steer e

module _ (lane gate event : String) (table : GateTable)
    (known : get_own transitions lane ≡ some table) where
  OwnEdge-iff :
      (to : String) → (row_of (get_own table gate) event ≡ some to) ↔ OwnEdge lane gate event to
  OwnEdge-iff to = (
    (λ h.
        let (events, row, edge) = row_of-eq-some _ event to h in
        record {
          table = table;
          events = events;
          lane_row = known;
          gate_row = row;
          event_row = edge;
        }),
    λ e.
        let same : table ≡ e.table = cc (known, e.lane_row) in
        rw same (rw (e.gate_row) (e.event_row)),
  )

  OwnEdge_exclusive :
      (to : String) → SteeringEdge gate event to → row_of (get_own table gate) event ≡ none
  OwnEdge_exclusive to e = elim (Option-cases (row_of (get_own table gate) event)) [
    | inl absent ↦ absent
    | inr (x, found) ↦
        let alone = OwnEdge-alone ((OwnEdge-iff x).0 found) in
        let there = (SteeringEdge-iff gate event to).1 e in unfold own_alone in ground arith
  ]

  -- The choice of the target, given the rows of the lane's own and the steering table.
  edge_target_iff :
      (to : String)
      → (row_target (get_own table gate) (get_own steering gate) event ≡ target to)
        ↔ (OwnEdge lane gate event to ⊎ SteeringEdge gate event to)
  edge_target_iff to =
      let (forth, back) = row_target_iff (get_own table gate) (get_own steering gate) event to in
      (
        (λ h. elim (forth h) [
          | inl a ↦ inl ((OwnEdge-iff to).0 a)
          | inr (a, b) ↦ inr ((SteeringEdge-iff gate event to).0 b)
        ]),
        λ e. elim e [
          | inl a ↦ back (inl ((OwnEdge-iff to).1 a))
          | inr b ↦ back (inr (OwnEdge_exclusive to b, (SteeringEdge-iff gate event to).1 b))
        ],
      )

  -- The choice of the target, a resume included.
  pub choice_iff :
      (pointer : PointerRead) (task to : String)
      → ((if is_resume gate event
            then resume_target pointer task
            else row_target (get_own table gate) (get_own steering gate) event)
          ≡ target to)
        ↔ Move pointer lane task gate event to
  choice_iff pointer task to = elim (Bool-cases (is_resume gate event)) [
    | inl resuming ↦
        let (forth, back) = resume_target_iff pointer task to in
        let (a, b) = (is_resume_iff gate event).0 resuming in
        rw resuming (
          (λ h. let (p, c, d, f, g) = forth h in resume p a b c d f g),
          λ m. back (Move-resuming pointer lane task gate event to m resuming),
        )
    | inr plain ↦ rw plain (
      (λ h. edge-Move pointer lane task gate event to ((edge_target_iff to).0 h)),
      λ m. (edge_target_iff to).1 (Move-plain pointer lane task gate event to m plain),
    )
  ]

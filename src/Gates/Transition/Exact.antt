-- ===== src/Gates/Transition/Exact.antt =====
-- When `transitionGate` moves, and where to.
use devmate.Prelude.{
  String, ◌≡◌, refl, sym, ◌∙◌, ◌↔◌, ◌⊎◌, inl, inr, Bool, true, Option, none, some, arith,
  Option-cases,
}
use devmate.Prelude.Table.{get_own}
use devmate.Json.{Json, Fields}
use devmate.Gates.Tables.{EventTable, GateTable, transitions, steering}
use devmate.Gates.ResumePointer.{PointerRead, read_resume_pointer}
use devmate.Gates.Transition.{
  Context, Verdict, moved, refused, lane_of, gate_of, task_of, enter, Target, target, no_target,
  bad_resume, unknown_gate, next_target, finish, known_gate, transition_gate,
}
use devmate.Gates.Transition.Choice.{Move, own, steer, resume, choice_iff}

parked_row : ¬ (get_own steering "parked" ≡ none)
unfolding get_own
parked_row h = cc

module _ (is_date : String → Bool) (check : String → Context → Verdict) where
  finish_iff :
      (state : Fields) (event : String) (choice : Target) (from to : String) (state' : Fields)
      → (finish is_date check state event choice ≡ moved from to state') ↔ (
          (choice ≡ target to)
          × (from ≡ gate_of state)
          × (state' ≡ enter state to)
          × ((check to
                (record { lane = lane_of state; event = event; task_id = task_of state })).passed
              ≡ true))
  unfolding finish
  finish_iff state event (bad_resume why) from to state' = ground arith
  finish_iff state event no_target from to state' = ground arith
  finish_iff state event (target gate) from to state' = ground arith

  -- The gate has a row in the lane's own table or in the steering table.
  Move-row :
      (pointer : PointerRead) (table : GateTable) (lane task gate event to : String)
      → get_own transitions lane ≡ some table
      → Move pointer lane task gate event to
      → get_own table gate ≡ none
      → ¬ (get_own steering gate ≡ none)
  Move-row pointer table lane task gate event to known (own e) a b =
      cc (known, e.lane_row, e.gate_row)
  Move-row pointer table lane task gate event to known (steer e) a b = cc (e.gate_row)
  Move-row pointer table lane task gate event to known (resume p parked _ _ _ _ _) a b =
      parked_row (rw parked at b)

  known_gate_rows :
      (artifact : Option Json) (state : Fields) (event : String) (a b : Option EventTable)
      → ((a ≡ none)
          × (b ≡ none)
          × (known_gate is_date check artifact state event a b
              ≡ refused (unknown_gate (gate_of state) (lane_of state))))
        ⊎ (known_gate is_date check artifact state event a b
            ≡ finish is_date check state event (next_target is_date check artifact state a b event))
  unfolding known_gate
  known_gate_rows artifact state event none none = inl (refl, refl, refl)
  known_gate_rows artifact state event none (some _) = inr refl
  known_gate_rows artifact state event (some _) b = inr refl

  known_gate_iff :
      (artifact : Option Json) (state : Fields) (event : String) (table : GateTable)
      (from to : String) (state' : Fields)
      → get_own transitions (lane_of state) ≡ some table
      → (known_gate is_date check artifact state event
            (get_own table (gate_of state))
            (get_own steering (gate_of state))
          ≡ moved from to state')
        ↔ ((from ≡ gate_of state)
            × (state' ≡ enter state to)
            × Move
                (read_resume_pointer is_date artifact)
                (lane_of state)
                (task_of state)
                (gate_of state)
                event
                to
            × ((check to
                  (record { lane = lane_of state; event = event; task_id = task_of state })).passed
                ≡ true))
  unfolding next_target
  known_gate_iff artifact state event table from to state' known =
      let gate = gate_of state in
      let pointer = read_resume_pointer is_date artifact in
      let (forth, back) =
        choice_iff (lane_of state) gate event table known pointer (task_of state) to in
      elim (known_gate_rows artifact state event (get_own table gate) (get_own steering gate)) [
        | inl (a, b, e) ↦ (
          (λ h. cc),
          λ (_, _, m, _).
              absurd
                (Move-row pointer table (lane_of state) (task_of state) gate event to known m a b),
        )
        | inr e ↦
            let (f, g) =
              finish_iff state event
                (next_target is_date check artifact state (get_own table gate)
                  (get_own steering gate) event)
                from to state' in
            (
              (λ h. let (c, d, s, v) = f (sym e ∙ h) in (d, s, forth c, v)),
              λ (d, s, m, v). e ∙ g (back m, d, s, v),
            )
      ]

-- `transitionGate` moves exactly where the lane is known, one of the moves is open, and the
-- precondition of the target passes; the new state then is the old one with the gate entered.
pub transition_gate_iff :
    (is_date : String → Bool) (check : String → Context → Verdict) (artifact : Option Json)
    (state : Fields) (event from to : String) (state' : Fields)
    → (transition_gate is_date check artifact state event ≡ moved from to state') ↔ (
        ((table : GateTable) × (get_own transitions (lane_of state) ≡ some table))
        × (from ≡ gate_of state)
        × (state' ≡ enter state to)
        × Move
            (read_resume_pointer is_date artifact)
            (lane_of state)
            (task_of state)
            (gate_of state)
            event
            to
        × ((check to
              (record { lane = lane_of state; event = event; task_id = task_of state })).passed
            ≡ true))
unfolding transition_gate
transition_gate_iff is_date check artifact state event from to state' =
    elim (Option-cases (get_own transitions (lane_of state))) [
      | inl unknown ↦
          rw (unknown, transition_gate) ((λ h. cc), λ (k, _, _, _, _). let (t, e) = k in cc)
      | inr (table, known) ↦
          let (forth, back) =
            known_gate_iff is_date check artifact state event table from to state' known in
          rw (known, transition_gate)
            (
              (λ h. let (a, b, m, v) = forth h in ((table, refl), a, b, m, v)),
              λ (_, a, b, m, v). back (a, b, m, v),
            )
    ]

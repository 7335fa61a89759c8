-- ===== src/Approvals/Writes.antt =====
-- What a write of task.json by a prompt leaves to be read: the state as it was, or the state that was
-- written.
use devmate.Prelude.{
  ℕ, [], true, Option, none, some, ◌≡◌, ◌⊎◌, inl, inr, refl, sym, ap, ◌∙◌, arith, Bool-cases,
}
use devmate.Json.{num, nat, obj, Fields}
use devmate.Json.Laws.{get-set}
use devmate.Gates.Transition.{gate_of}
use devmate.TaskState.Validate.{StateResult, ok, state_errors}
use devmate.TaskState.Validate.Laws.{state_errors_iff}
use devmate.TaskState.Store.{
  JsonText, World, Host, MutateError, MutateResult, written, Mutated, next_state, Options,
  read_task_state, stamp, mutate_under_lock, write_task_state, holds,
}
use devmate.TaskState.Store.Laws.{is_written, mutate_written, mutate_unwritten, read-print}

is_written-cases : (r : MutateResult) → is_written r ≡ true → (v : ℕ) × (r ≡ written v)
is_written-cases r h = ground arith

pub ok-injective : {E : Type 0} {a b : Fields} → ◌≡◌ {A = StateResult E} (ok a) (ok b) → a ≡ b
ok-injective p = cc

-- A stamp is no gate.
pub gate_of-stamp : (state : Fields) (v : ℕ) → gate_of (stamp state v) ≡ gate_of state
unfolding stamp
gate_of-stamp state v = rw (get-set state "stateVersion" "workflowGate" (num (nat v))) refl

module _ (json : JsonText) where
  open json use {Text}

  -- The file is read as a task state.
  abbrev pub At : World Text → Fields → Type 0
  At world state = read_task_state json world.file ≡ ok state

  write_none :
      (host : Host) (state : Fields) (world : World Text)
      → (write_task_state json host state world).0 ≡ none
      → (state_errors (obj state) ≡ [])
        × ((write_task_state json host state world).1.file ≡ holds (json.print (obj state)))
  unfolding write_task_state
  write_none host state world h = ground arith

  write_some :
      (host : Host) (state : Fields) (world : World Text) (e : MutateError)
      → (write_task_state json host state world).0 ≡ some e
      → (write_task_state json host state world).1 ≡ world
  unfolding write_task_state
  write_some host state world e h = ground arith

  -- A blind write fails and leaves the world alone, or its state is what is read next.
  pub write_cases :
      (host : Host) (state : Fields) (world : World Text)
      → ((e : MutateError) × (write_task_state json host state world ≡ (some e, world)))
        ⊎ ((world' : World Text) × (write_task_state json host state world ≡ (none, world'))
            × At world' state)
  write_cases host state world = split (write_task_state json host state world).0 refl
    where
      split :
          (o : Option MutateError)
          → (write_task_state json host state world).0 ≡ o
          → ((e : MutateError) × (write_task_state json host state world ≡ (some e, world)))
            ⊎ ((world' : World Text) × (write_task_state json host state world ≡ (none, world'))
                × At world' state)
      split (some e) h = inl (e, λ i. (h i, write_some host state world e h i))
      split none h =
          let (valid, stored) = write_none host state world h in
          inr (
            (write_task_state json host state world).1,
            λ i. (h i, (write_task_state json host state world).1),
            rw stored (read-print json state ((state_errors_iff state).0 valid)),
          )

  -- A mutation leaves the file to be read as before, or as the mutator's state with a stamp.
  pub mutate_cases :
      (host : Host) (opts : Options) (mutate : Fields → Mutated) (world : World Text)
      (state : Fields)
      → At world state
      → ((mutate_under_lock json host opts mutate world).1 ≡ world)
        ⊎ ((next : Fields) × (v : ℕ) × (mutate state ≡ next_state next)
            × ((mutate_under_lock json host opts mutate world).0 ≡ written v)
            × At (mutate_under_lock json host opts mutate world).1 (stamp next v))
  mutate_cases host opts mutate world state at_state =
      elim (Bool-cases (is_written (mutate_under_lock json host opts mutate world).0)) [
        | inr idle ↦ inl (mutate_unwritten json host opts mutate world idle)
        | inl wrote ↦
            let (v, e) = is_written-cases _ wrote in
            let c = mutate_written json host opts mutate world v e in
            let same : c.current ≡ state = ok-injective (sym c.is_read ∙ at_state) in
            inr (
              c.next,
              v,
              sym (ap mutate same) ∙ c.mutated,
              e,
              rw c.stored (read-print json (stamp c.next v) c.valid),
            )
      ]

  -- A mutator that keeps the gate.
  pub mutate_keeps :
      (host : Host) (opts : Options) (mutate : Fields → Fields) (world : World Text)
      (state : Fields)
      → At world state
      → gate_of (mutate state) ≡ gate_of state
      → (state' : Fields) × At
          (mutate_under_lock json host opts (λ f. next_state (mutate f)) world).1
          state'
        × (gate_of state' ≡ gate_of state)
  mutate_keeps host opts mutate world state at_state keeps =
      elim (mutate_cases host opts (λ f. next_state (mutate f)) world state at_state) [
        | inl same ↦ (state, rw same at_state, refl)
        | inr (next, v, mutated, _, at_next) ↦
            let e : mutate state ≡ next = cc in
            (stamp next v, at_next, gate_of-stamp next v ∙ (ap gate_of (sym e) ∙ keeps))
      ]

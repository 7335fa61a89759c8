-- ===== src/Gatectl/Human/Audit.antt =====
-- What an approval by a human has written and recorded.
use devmate.Prelude.{
  ℕ, String, [], ◌∷◌, ◌++◌, Bool, Option, none, some, ◌≡◌, ◌⊎◌, refl, sym, ap, ◌∙◌, arith,
}
use devmate.Json.{Json, Fields, obj}
use devmate.Gates.Transition.{task_of, enter}
use devmate.TaskState.Store.{JsonText, holds, World, Host, MutateError, write_task_state}
use devmate.Preconditions.Context.{Reads}
use devmate.Gatectl.Human.{
  GateEvent, AdvanceError, not_recorded, HumanAdvance, approved, Approval, approve, refuse,
  AuditWorld, judge_advance, after_write, persist, advance_human_gate,
}
use devmate.Gatectl.Human.Approvable.{IsApprovable, judge_advance_iff}

module _ (json : JsonText) (host : Host) where
  write_task_state-written :
      (state : Fields) (world : World json.Text)
      → (write_task_state json host state world).0 ≡ none
      → (write_task_state json host state world).1.file ≡ holds (json.print (obj state))
  unfolding write_task_state
  write_task_state-written state world h = ground (arith, h)

module _ (trim : String → String) (same_bytes : String → String → Bool)
    (parse_date : Option Json → Option ℕ) (is_date : String → Bool) (reads : Reads)
    (json : JsonText) where
  module _ (host : Host) (between : World json.Text → World json.Text)
      (append_error : Option String) (current target : String) (actor evidence : Option String)
      (world : AuditWorld json.Text) where
    abbrev pub event_of : Fields → GateEvent
    event_of state = record {
      task_id = task_of state;
      from = current;
      to = target;
      actor = actor;
      evidence = evidence;
    }

    -- What an approval leaves behind: the state at the target in the file, and the event.
    abbrev pub IsRecorded : Fields → Fields → AuditWorld json.Text → Type 0
    IsRecorded state state' after =
        (state' ≡ enter state target)
        × (after.task.file ≡ holds (json.print (obj state')))
        × (after.trace ≡ world.trace ++ event_of state ∷ [])

    -- The event could not be appended: the file holds a state at the target, of which the trace
    -- says nothing.
    abbrev pub IsUnrecorded : AdvanceError → AuditWorld json.Text → Type 0
    IsUnrecorded e after =
        (m : String) × (e ≡ not_recorded m)
        × ((state : Fields) × (after.task.file ≡ holds (json.print (obj (enter state target)))))
        × (after.trace ≡ world.trace)

    -- The trace is as it was, and the file as it was or as the other writers have left it.
    abbrev pub IsUntouched : AuditWorld json.Text → Type 0
    IsUntouched after =
        (after ≡ world) ⊎ (after ≡ record { task = between world.task; trace = world.trace })

    after_write-approved :
        (error : Option MutateError) (message : Option String) (state : Fields)
        (task : World json.Text) (from to : String) (state' : Fields)
        → (error ≡ none → task.file ≡ holds (json.print (obj (enter state target))))
        → (after_write error message current target actor evidence state task world.trace).0
          ≡ approved from to state'
        → IsRecorded state state'
            (after_write error message current target actor evidence state task world.trace).1
    after_write-approved (some e) message state task from to state' written h = cc
    after_write-approved none (some m) state task from to state' written h = cc
    after_write-approved none none state task from to state' written h =
        (sym (same h), written refl ∙ ap (λ s. holds (json.print (obj s))) (same h), refl)
      where
        same :
            approved current target (enter state target) ≡ approved from to state'
            → enter state target ≡ state'
        same e = cc

    abbrev ended : Approval → HumanAdvance × AuditWorld json.Text
    ended a =
        persist trim same_bytes parse_date is_date reads json host between append_error current
          target actor evidence a world

    persist-approved :
        (a : Approval) (from to : String) (state' : Fields)
        → (ended a).0 ≡ approved from to state'
        → (state : Fields) × (a ≡ approve state) × IsRecorded state state' (ended a).1
    unfolding persist
    persist-approved (refuse e) from to state' h = cc
    persist-approved (approve state) from to state' h = (
      state,
      refl,
      after_write-approved (write_task_state json host (enter state target) (between world.task)).0
          append_error state
          (write_task_state json host (enter state target) (between world.task)).1 from to state'
          (write_task_state-written json host (enter state target) (between world.task)) h,
    )

    -- Where an approval succeeds, all that it demands was there, the file holds the state at the
    -- target, and the trace has one more event, with the actor and the evidence.
    pub advance_human_gate-IsApprovable :
        (from to : String) (state' : Fields)
        → (advance_human_gate trim same_bytes parse_date is_date reads json host between
            append_error current target actor evidence world).0
          ≡ approved from to state'
        → (state : Fields) × IsApprovable trim same_bytes parse_date is_date reads json current
            target actor evidence world.task.file state
          × IsRecorded state state'
              (advance_human_gate trim same_bytes parse_date is_date reads json host between
                append_error current target actor evidence world).1
    unfolding advance_human_gate
    advance_human_gate-IsApprovable from to state' h =
        let judged =
          judge_advance trim same_bytes parse_date is_date reads json current target actor evidence
            world.task.file in
        let (state, ok_state, recorded) = persist-approved judged from to state' h in
        (
          state,
          (judge_advance_iff trim same_bytes parse_date is_date reads json current target actor
                evidence world.task.file state).0
              ok_state,
          recorded,
        )

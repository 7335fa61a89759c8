-- ===== src/Approvals/Advances.antt =====
-- What `advanceHumanGate` leaves behind in the approval listener, and the branches of `approve spec` and
-- `approve pr`.
use devmate.Prelude.{String, [], some, ◌≡◌, ◌⊎◌, inl, inr, refl, sym, ◌∙◌, Option-cases}
use mathlib.Core.Path.{subst}
use devmate.Json.{Fields}
use devmate.Gates.Transition.{enter}
use devmate.Gatectl.Human
use devmate.Gatectl.Human.{
  AdvanceError, not_written, not_recorded, HumanAdvance, approved, Approval, approve, refuse,
  AuditWorld, judge_advance, persist, advance_human_gate,
}
use devmate.Gatectl.Human.Approvable.{IsApprovable, judge_advance_iff}
use devmate.Approvals.Workspace.{Answers, Session, reads_at}
use devmate.Approvals.Lanes.{Disk}
use devmate.Approvals.Listener.{hook_actor, with_trace, advance}
use devmate.Approvals.Writes.{At, ok-injective, write_cases}

module _ (s : Session) (a : Answers) (current target raw : String) (w : Disk s) where
  abbrev pub Approvable : Fields → Type 0
  Approvable =
      IsApprovable s.trim s.same_bytes s.parse_date s.is_date (reads_at s w) s.json current target
        (some hook_actor) (some raw) w.task.file

  -- An advance is refused and leaves the file alone, or it was approvable and the file holds the state at
  -- the target, whether or not the audit event could be appended.
  abbrev pub Advances : Fields → HumanAdvance × Disk s → Type 0
  Advances state (result, w') =
      ((e : AdvanceError) × (result ≡ Human.refused e) × (w'.task ≡ w.task))
      ⊎ (Approvable state
          × At s.json w'.task (enter state target)
          × (((e : AdvanceError) × (result ≡ Human.refused e))
              ⊎ (result ≡ approved current target (enter state target))))

  abbrev bare : AuditWorld s.json.Text
  bare = record { task = w.task; trace = [] }

  abbrev persisted : Approval → HumanAdvance × Disk s
  persisted j = with_trace s a w (
      persist s.trim s.same_bytes s.parse_date s.is_date (reads_at s w) s.json a.first
        (λ task. task) a.traced current target (some hook_actor) (some raw) j bare)

  of_found : (found : Fields) → Approvable found → Advances found (persisted (approve found))
  unfolding persist
  of_found found approvable = elim (write_cases s.json a.first (enter found target) w.task) [
    | inl (e, failed) ↦ rw failed (inl (not_written e, refl, refl))
    | inr (task, wrote, at_target) ↦ elim (Option-cases a.traced) [
      | inl h ↦ rw (wrote, h) (inr (approvable, at_target, inr refl))
      | inr (m, h) ↦ rw (wrote, h) (inr (approvable, at_target, inl (not_recorded m, refl)))
    ]
  ]

  persist-Advances :
      (state : Fields) (j : Approval)
      → At s.json w.task state
      → judge_advance s.trim s.same_bytes s.parse_date s.is_date
          (reads_at s w)
          s.json
          current
          target
          (some hook_actor)
          (some raw)
          w.task.file
        ≡ j
      → Advances state (persisted j)
  unfolding persist
  persist-Advances state (refuse e) at_state judged = inl (e, refl, refl)
  persist-Advances state (approve found) at_state judged =
      let approvable =
        (judge_advance_iff s.trim s.same_bytes s.parse_date s.is_date (reads_at s w) s.json current
            target (some hook_actor) (some raw) w.task.file found).0
          judged in
      let same : found ≡ state = ok-injective (sym approvable.3 ∙ at_state) in
      subst (λ st. Advances st (persisted (approve found))) same (of_found found approvable)

  pub advance-Advances :
      (state : Fields) → At s.json w.task state → Advances state (advance s a current target raw w)
  unfolding advance advance_human_gate
  advance-Advances state at_state = persist-Advances state _ at_state refl

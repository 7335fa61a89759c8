-- ===== src/Approvals/Gates.antt =====
-- Which gate a prompt can leave a task at: every branch of the approval listener.
use devmate.Prelude.{String, true, ◌≡◌, ◌≢◌, ◌⊎◌, inl, inr, refl}
use devmate.Prelude.Text.{includes}
use devmate.Json.{Fields}
use devmate.Gates.Transition.{gate_of}
use devmate.TaskState.Store.{World}
use devmate.Approvals.Phrases.{
  approve_spec_phrase, approve_plan_phrase, approve_pr_phrase, revise_scope_prefix, re_plan_prefix,
  has_prefix, is_escalation,
}
use devmate.Approvals.Workspace.{Session}
use devmate.Approvals.Commands.{escalatable_gates}
use devmate.Approvals.Starts.{IsStart}
use devmate.Approvals.Writes.{At}

-- The gates that each phrase can lead to, by the lane and the gate of the task.
pub data PromptMove (lower lane gate to : String) : Type 0 where
  spec :
      lower ≡ approve_spec_phrase
      → gate ≡ "spec-draft"
      → (to ≡ "spec-approved") ⊎ ((lane ≡ "feature") × (to ≡ "impl-started"))
      → PromptMove lower lane gate to
  resumed :
      lower ≡ approve_spec_phrase
      → lane ≡ "feature"
      → gate ≡ "spec-approved"
      → to ≡ "impl-started"
      → PromptMove lower lane gate to
  plan : lower ≡ approve_plan_phrase → IsStart lane gate to → PromptMove lower lane gate to
  pr :
      lower ≡ approve_pr_phrase
      → lane ≢ "chore"
      → gate ≡ "verification-passed"
      → to ≡ "pr-ready"
      → PromptMove lower lane gate to
  scope :
      has_prefix revise_scope_prefix lower ≡ true
      → lane ≡ "feature"
      → gate ≡ "impl-started"
      → to ≡ "spec-draft"
      → PromptMove lower lane gate to
  re_planned :
      has_prefix re_plan_prefix lower ≡ true
      → lane ≡ "feature"
      → gate ≡ "impl-started"
      → to ≡ "plan-done"
      → PromptMove lower lane gate to
  escalation :
      is_escalation lower ≡ true
      → lane ≡ "chore"
      → includes escalatable_gates gate ≡ true
      → to ≡ "plan-approved"
      → PromptMove lower lane gate to

module _ (s : Session) where
  -- The file holds a task state again, at the gate as it was or at one of which `P` holds.
  abbrev pub Lands : (String → Type 0) → Fields → World s.json.Text → Type 0
  Lands P state task =
      (state' : Fields) × At s.json task state'
      × ((gate_of state' ≡ gate_of state) ⊎ P (gate_of state'))

  pub Lands-weaken :
      (P Q : String → Type 0) (state : Fields) (task : World s.json.Text)
      → ((gate : String) → P gate → Q gate)
      → Lands P state task
      → Lands Q state task
  Lands-weaken P Q state task f (state', at_state, inl same) = (state', at_state, inl same)
  Lands-weaken P Q state task f (state', at_state, inr p) = (state', at_state, inr (f _ p))

  -- What stays as it was.
  pub unmoved :
      (P : String → Type 0) (state : Fields) (task : World s.json.Text)
      → At s.json task state
      → Lands P state task
  unmoved P state task at_state = (state, at_state, inl refl)

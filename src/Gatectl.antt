-- ===== src/Gatectl.antt =====
-- The gate projection of lib/gatectl.mjs: `LEGAL_TRANSITIONS`, `advanceGate`, `isLegalTransition`
-- and `isHumanApprovalGate`.
pub mod Human
pub mod Edges
use devmate.Prelude.{String, List, [], ◌∷◌, Bool, false, Option, none, some, if◌then◌else◌}
use devmate.Prelude.Table.{get_own}
use devmate.Prelude.Text.{includes}
use devmate.Gates.Sets.{flatten_transitions}

-- `GateTransitionError` with its fields, or the gate.
pub data Advance : Type 0 where
  advanced : (gate : String) → Advance
  illegal : (from to : String) (legal : List String) → Advance

advance_among : Option (List String) → String → String → Advance
advance_among none current next = illegal current next []
advance_among (some successors) current next =
    if includes successors next then advanced next else illegal current next successors

unfoldable pub advance_gate : String → String → Advance
unfolding advance_among get_own flatten_transitions
advance_gate current next = advance_among (get_own flatten_transitions current) current next

legal_among : Option (List String) → String → Bool
legal_among none next = false
legal_among (some successors) next = includes successors next

unfoldable pub is_legal_transition : String → String → Bool
unfolding legal_among get_own flatten_transitions
is_legal_transition current next = legal_among (get_own flatten_transitions current) next

-- `HUMAN_APPROVAL_GATES`.
abbrev pub human_approval_gates : List String
human_approval_gates = "spec-approved" ∷ "pr-ready" ∷ []

unfoldable pub is_human_approval_gate : String → Bool
is_human_approval_gate gate = includes human_approval_gates gate

-- ===== src/Gatectl/Edges.antt =====
-- Which gates lead to the gates that a human approves, by the flattened table of lib/gatectl.mjs.
use text.Mathlib.TextEquality.{eq_iff}
use devmate.Prelude.{
  String, List, Bool, true, false, not, ◌||◌, Option, none, some, ◌≡◌, refl, arith, all, Bool-cases,
  inl, inr,
}
use devmate.Prelude.Table.{get_own-all}
use devmate.Prelude.Text.{str_eq, includes}
use devmate.Gates.Sets.{flatten_transitions}
use devmate.Gatectl.{advanced, advance_among, advance_gate}

leads_from : String → String → String → List String → Bool
leads_from source target gate successors =
    not (includes successors target) || str_eq gate source || str_eq gate "parked"

advance_among-advanced :
    (row : Option (List String)) (current target gate : String)
    → advance_among row current target ≡ advanced gate
    → (successors : List String) × (row ≡ some successors) × (includes successors target ≡ true)
unfolding advance_among
advance_among-advanced none current target gate h = cc
advance_among-advanced (some successors) current target gate h =
    elim (Bool-cases (includes successors target)) [
      | inl found ↦ (successors, refl, found)
      | inr missing ↦ let h' = rw missing at h in cc h'
    ]

-- An edge to a target that only one gate and the parked one lead to starts at that gate.
advanced_from :
    (source target current gate : String)
    → all (λ row. leads_from source target row.0 row.1) flatten_transitions ≡ true
    → advance_gate current target ≡ advanced gate
    → str_eq current "parked" ≡ false
    → current ≡ source
unfolding advance_gate
advanced_from source target current gate checked h unparked =
    let (successors, row, found) = advance_among-advanced _ current target gate h in
    let t =
      get_own-all (leads_from source target) flatten_transitions current successors row checked in
    unfold leads_from in ground (arith, eq_iff current source)

-- A spec is approved from its draft.
pub advance_gate-spec_approved :
    (current gate : String)
    → advance_gate current "spec-approved" ≡ advanced gate
    → str_eq current "parked" ≡ false
    → current ≡ "spec-draft"
advance_gate-spec_approved current gate =
    advanced_from "spec-draft" "spec-approved" current gate
      (unfold leads_from flatten_transitions in refl)

-- A pull request is ready from a passed verification.
pub advance_gate-pr_ready :
    (current gate : String)
    → advance_gate current "pr-ready" ≡ advanced gate
    → str_eq current "parked" ≡ false
    → current ≡ "verification-passed"
advance_gate-pr_ready current gate =
    advanced_from "verification-passed" "pr-ready" current gate
      (unfold leads_from flatten_transitions in refl)

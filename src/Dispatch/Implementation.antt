-- ===== src/Dispatch/Implementation.antt =====
-- When an implementation agent may be dispatched.
use text.Mathlib.TextEquality.{eq_iff}
use devmate.Prelude.{
  String, Bool, true, Option, none, some, ◌≡◌, refl, ◌↔◌, arith, Bool-cases, inl, inr,
}
use devmate.Prelude.Text.{str_eq}
use devmate.Prelude.Table.{get_own}
use devmate.Json.{Fields, get, text_of}
use devmate.TaskState.Validate.{StateResult, ok, err}
use devmate.Dispatch.{
  normalize_lane, has_spec_metadata, Scope, has_scope, allowed, evaluate_state, Requirements, judge,
  requirements, evaluate_implementation_dispatch,
}

judge-allowed_iff :
    (gate : String) (reqs : Requirements) (spec diagnosis scope : Bool)
    → (judge gate reqs spec diagnosis scope ≡ allowed) ↔ (
        (gate ≡ "impl-started")
        × (reqs.spec ≡ true → spec ≡ true)
        × (reqs.diagnosis ≡ true → diagnosis ≡ true)
        × (reqs.scope ≡ true → scope ≡ true))
judge-allowed_iff gate reqs spec diagnosis scope = ground (arith, eq_iff gate "impl-started")

-- What the requirements of a lane ask for.
requirements_iff :
    (lane : String) (spec diagnosis scope : Bool)
    → (((requirements lane).spec ≡ true → spec ≡ true)
        × ((requirements lane).diagnosis ≡ true → diagnosis ≡ true)
        × ((requirements lane).scope ≡ true → scope ≡ true))
      ↔ ((lane ≡ "feature" → (spec ≡ true) × (scope ≡ true))
          × (lane ≡ "bug" → (diagnosis ≡ true) × (scope ≡ true))
          × (lane ≡ "chore" → scope ≡ true))
unfolding requirements get_own
requirements_iff lane spec diagnosis scope = elim (Bool-cases (str_eq "feature" lane)) [
  | inl e ↦
      let l = (eq_iff "feature" lane).0 e in
      rw⁻¹ l (ground (arith, eq_iff "feature" "bug", eq_iff "feature" "chore"))
  | inr f ↦ elim (Bool-cases (str_eq "bug" lane)) [
    | inl e ↦
        let l = (eq_iff "bug" lane).0 e in
        rw⁻¹ l (ground (arith, eq_iff "bug" "feature", eq_iff "bug" "chore"))
    | inr b ↦ elim (Bool-cases (str_eq "chore" lane)) [
      | inl e ↦
          let l = (eq_iff "chore" lane).0 e in
          rw⁻¹ l (ground (arith, eq_iff "chore" "feature", eq_iff "chore" "bug"))
      | inr c ↦
          rw (f, b, c)
            (ground (arith, eq_iff "feature" lane, eq_iff "bug" lane, eq_iff "chore" lane))
    ]
  ]
]

-- An implementation dispatch is allowed exactly where the state was read, its gate is
-- `impl-started`, and what its lane asks for is there: spec and scope in the feature lane,
-- diagnosis and scope in the bug lane, the scope in the chore lane.
pub evaluate_implementation_dispatch-allowed_iff :
    {E : Type 0} (trim_lower : String → String) (result : Option (StateResult E))
    (scope : Option Scope) (diagnosis_valid : Bool)
    → (evaluate_implementation_dispatch trim_lower result scope diagnosis_valid ≡ allowed) ↔ (
        (state : Fields) × (result ≡ some (ok state))
        × (text_of (get state "workflowGate") ≡ "impl-started")
        × (normalize_lane trim_lower (get state "lane") ≡ "feature"
            → (has_spec_metadata state ≡ true) × (has_scope scope ≡ true))
        × (normalize_lane trim_lower (get state "lane") ≡ "bug"
            → (diagnosis_valid ≡ true) × (has_scope scope ≡ true))
        × (normalize_lane trim_lower (get state "lane") ≡ "chore" → has_scope scope ≡ true))
unfolding evaluate_implementation_dispatch evaluate_state
evaluate_implementation_dispatch-allowed_iff trim_lower none scope diagnosis_valid =
    ((λ h. cc), λ (state, e, _, _, _, _). cc e)
evaluate_implementation_dispatch-allowed_iff trim_lower (some (err errors)) scope diagnosis_valid =
    ((λ h. cc), λ (state, e, _, _, _, _). cc e)
evaluate_implementation_dispatch-allowed_iff trim_lower (some (ok state)) scope diagnosis_valid =
    let lane = normalize_lane trim_lower (get state "lane") in
    let gate = text_of (get state "workflowGate") in
    let spec = has_spec_metadata state in
    let (f, g) =
      judge-allowed_iff gate (requirements lane) spec diagnosis_valid (has_scope scope) in
    let (f', g') = requirements_iff lane spec diagnosis_valid (has_scope scope) in
    (
      (λ h.
          let (at_start, x, y, z) = f h in
          let (a, b, c) = f' (x, y, z) in (state, refl, at_start, a, b, c)),
      λ (s, e, at_start, a, b, c).
          let same : s ≡ state = cc e in
          let (x, y, z) = g' (rw same at a, rw same at b, rw same at c) in
          g (rw same at at_start, x, y, z),
    )

-- ===== src/Approvals/Starts.antt =====
-- The edges of the transition tables that a prompt can take.
use text.Mathlib.TextEquality.{eq_iff}
use devmate.Prelude.{String, ◌≡◌, refl, ◌≢◌, ◌⊎◌, Bool, not, ◌&&◌, ◌||◌, arith}
use devmate.Prelude.Text.{str_eq}
use devmate.Gates.Edges.{OwnEdge-all, SteeringEdge-all}
use devmate.Gates.ResumePointer.{PointerRead}
use devmate.Gates.Transition.Choice.{Move, own, steer, resume}

start_edge : String → String → String → String → Bool
start_edge lane gate event to =
    not (str_eq event "start-impl")
    || (str_eq to "impl-started"
        && ((str_eq lane "feature" && str_eq gate "spec-approved")
            || (not (str_eq lane "feature") && str_eq gate "plan-approved")))

not_event : String → String → String → String → Bool
not_event avoided gate event to = not (str_eq event avoided)

not_steering : String → String → String → String → Bool
not_steering lane gate event to = not (str_eq event "revise-scope") && not (str_eq event "re-plan")

steering_edge : String → String → String → Bool
steering_edge gate event to =
    (not (str_eq event "revise-scope") || (str_eq gate "impl-started" && str_eq to "spec-draft"))
    && (not (str_eq event "re-plan") || (str_eq gate "impl-started" && str_eq to "plan-done"))

-- Where an implementation starts: from an approved spec in the feature lane, and from an approved
-- plan in the other lanes.
abbrev pub IsStart : (lane gate to : String) → Type 0
IsStart lane gate to =
    (to ≡ "impl-started")
    × (((lane ≡ "feature") × (gate ≡ "spec-approved"))
        ⊎ ((lane ≢ "feature") × (gate ≡ "plan-approved")))

module _ (pointer : PointerRead) (lane task gate to : String) where
  pub Move-IsStart : Move pointer lane task gate "start-impl" to → IsStart lane gate to
  Move-IsStart (own e) =
      let t = OwnEdge-all start_edge (unfold start_edge in refl) e in
      unfold start_edge in
      ground (
        arith,
        eq_iff lane "feature",
        eq_iff gate "spec-approved",
        eq_iff gate "plan-approved",
        eq_iff to "impl-started",
      )
  Move-IsStart (steer e) =
      let t = SteeringEdge-all (not_event "start-impl") (unfold not_event in refl) e in
      unfold not_event in cc
  Move-IsStart (resume p _ event _ _ _ _) = absurd (ground (arith, eq_iff "start-impl" "resume"))

  pub Move-revise : Move pointer lane task gate "revise-scope" to → to ≡ "spec-draft"
  Move-revise (own e) =
      let t = OwnEdge-all not_steering (unfold not_steering in refl) e in unfold not_steering in cc
  Move-revise (steer e) =
      let t = SteeringEdge-all steering_edge (unfold steering_edge in refl) e in
      unfold steering_edge in ground (arith, eq_iff to "spec-draft")
  Move-revise (resume p _ event _ _ _ _) = absurd (ground (arith, eq_iff "revise-scope" "resume"))

  pub Move-re_plan : Move pointer lane task gate "re-plan" to → to ≡ "plan-done"
  Move-re_plan (own e) =
      let t = OwnEdge-all not_steering (unfold not_steering in refl) e in unfold not_steering in cc
  Move-re_plan (steer e) =
      let t = SteeringEdge-all steering_edge (unfold steering_edge in refl) e in
      unfold steering_edge in ground (arith, eq_iff to "plan-done")
  Move-re_plan (resume p _ event _ _ _ _) = absurd (ground (arith, eq_iff "re-plan" "resume"))

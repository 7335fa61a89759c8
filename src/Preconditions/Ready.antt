-- ===== src/Preconditions/Ready.antt =====
-- The checks that build on validators, and those that a mode turns on: what passes them.
use text.Mathlib.TextEquality.{eq_iff}
use devmate.Prelude.{
  ℕ, ◌<◌, ◌⊎◌, ◌&&◌, ltb, if◌then◌else◌, String, List, [], ◌∷◌, ◌++◌, Bool, true, false, not,
  Option, none, some, ◌≡◌, ◌≢◌, ◌↔◌, refl, arith, Bool-cases, is_empty, inl, inr, map,
}
use devmate.Prelude.Text.{str_eq, is_blank}
use devmate.Json.{Json, look, text_of}
use devmate.Prelude.Codes.{codes, starts_with}
use devmate.Preconditions.Context.{
  Ctx, Coverage, Missing, no_criteria, uncovered, invalid, foreign_review, other_lane, not_approved,
  Validation, Mode, off, warn, block, Reads, pushed,
}
use devmate.Preconditions.Artifact.{artifact_task_id, stranger, require_artifact, owned}
use devmate.Preconditions.Gated.{
  or_recorded, task_json, gated, by_mode, coverage_missing, review_missing, ac_coverage, pr_review,
  push_if,
}
use devmate.Preconditions.{check_pr_ready}
use devmate.Preconditions.Evidence.{is_empty-append}

-- A validator that rejects an artifact says why.
abbrev pub SaysWhy : (Json → Validation) → Type 0
SaysWhy validator =
    (artifact : Json)
    → (validator artifact).ok ≡ false
    → is_empty (validator artifact).errors ≡ false

is_empty-map {ℓ κ} :
    {A : Type ℓ} {B : Type κ} (f : A → B) (xs : List A) → is_empty (map f xs) ≡ is_empty xs
is_empty-map f [] = refl
is_empty-map f (x ∷ xs) = refl

not_empty : (errors : List String) → is_empty errors ≡ false → is_empty (map invalid errors) ≢ true
not_empty errors some_error none_left =
    ground (arith, is_empty-map invalid errors, some_error, none_left)

-- What passes a check on the artifact of another module.
abbrev pub IsOwnValid : (String → String) → (Json → Validation) → Ctx → Option Json → Type 0
IsOwnValid trim validator ctx none = ⊥
IsOwnValid trim validator ctx (some artifact) =
    ((validator artifact).ok ≡ true)
    × (stranger trim (artifact_task_id (some artifact)) ctx.task_id ≡ none)

owned_iff : (s : Option (String × String)) → (is_empty (pushed (owned s)) ≡ true) ↔ (s ≡ none)
owned_iff none = (λ _. refl, λ _. refl)
owned_iff (some (owner, asker)) = (λ e. cc, λ e. cc)

-- Let the validator say why it rejects. Then the check of an artifact leaves nothing unmet exactly
-- where the artifact is there and parses, validates, and is not another task's.
pub require_artifact_iff :
    (trim : String → String) (validator : Json → Validation) (found : Option Json) (ctx : Ctx)
    → SaysWhy validator
    → (is_empty (pushed (require_artifact trim validator found ctx)) ≡ true)
      ↔ IsOwnValid trim validator ctx found
unfolding require_artifact
require_artifact_iff trim validator none ctx why = (λ e. cc, λ e. absurd e)
require_artifact_iff trim validator (some artifact) ctx why =
    elim (Bool-cases (validator artifact).ok) [
      | inl h ↦ rw h (
          let own = owned_iff (stranger trim (artifact_task_id (some artifact)) ctx.task_id) in
          (λ e. (refl, own.0 e), λ (_, s). own.1 s))
      | inr h ↦
          rw h
            (λ e. absurd (not_empty (validator artifact).errors (why artifact h) e), λ (e, _). cc)
    ]

-- A check that can be off lets pass unless it blocks; then the task must be known, and nothing
-- missing.
gated_iff :
    (mode : Mode) (contract task : String) (missing : List Missing)
    → (is_empty (pushed (gated mode contract task missing)) ≡ true)
      ↔ (mode ≡ block → (is_blank task ≡ false) × (is_empty missing ≡ true))
unfolding gated by_mode
gated_iff off contract task missing = (λ _ e. cc, λ _. refl)
gated_iff warn contract task missing = elim (Bool-cases (is_blank task)) [
  | inl h ↦ rw h (λ _ e. cc, λ _. refl)
  | inr h ↦ rw h (λ _ e. cc, λ _. warned missing)
]
  where
    warned : (ms : List Missing) → is_empty (pushed (by_mode warn contract ms)) ≡ true
    warned [] = refl
    warned (m ∷ ms) = refl
gated_iff block contract task missing = elim (Bool-cases (is_blank task)) [
  | inl h ↦ rw h (λ e. cc, λ f. absurd (clash (f refl).0))
  | inr h ↦ rw h (blocked missing)
]
  where
    clash : true ≢ false
    clash e = cc

    blocked :
        (ms : List Missing)
        → (is_empty (pushed (by_mode block contract ms)) ≡ true)
          ↔ (block ≡ block → (false ≡ false) × (is_empty ms ≡ true))
    blocked [] = (λ _ _. (refl, refl), λ _. refl)
    blocked (m ∷ ms) = (λ e. cc, λ f. (f refl).1)

-- A review of this task in this lane that approves.
abbrev pub IsApproved : Reads → String → String → Option Json → Type 0
IsApproved r lane task none = ⊥
IsApproved r lane task (some artifact) =
    ((r.validate_review artifact).ok ≡ true)
    × (text_of (look artifact "taskId") ≡ task)
    × (text_of (look artifact "lane") ≡ lane)
    × (starts_with (codes "APPROVE") (codes (text_of (look artifact "verdict"))) ≡ true)

three_iff :
    (a b c : Bool) (x y z : Missing)
    → (is_empty (push_if (not a) x ++ (push_if (not b) y ++ push_if (not c) z)) ≡ true)
      ↔ ((a ≡ true) × (b ≡ true) × (c ≡ true))
three_iff true true true x y z = (λ _. (refl, refl, refl), λ _. refl)
three_iff true true false x y z = (λ e. cc, λ (_, _, e). cc)
three_iff true false c x y z = (λ e. cc, λ (_, e, _). cc)
three_iff false b c x y z = (λ e. cc, λ (e, _, _). cc)

review_iff :
    (r : Reads) (lane task : String) (found : Option Json)
    → SaysWhy r.validate_review
    → (is_empty (review_missing r lane task found) ≡ true) ↔ IsApproved r lane task found
unfolding review_missing
review_iff r lane task none why = (λ e. cc, λ e. absurd e)
review_iff r lane task (some artifact) why = elim (Bool-cases (r.validate_review artifact).ok) [
  | inl h ↦ rw h (
      let all = three_iff _ _ _ foreign_review other_lane not_approved in
      let own = eq_iff (text_of (look artifact "taskId")) task in
      let here_too = eq_iff (text_of (look artifact "lane")) lane in
      (
        λ e. let (a, b, c) = all.0 e in (refl, own.0 a, here_too.0 b, c),
        λ (_, a, b, c). all.1 (own.1 a, here_too.1 b, c),
      ))
  | inr h ↦ rw h (
    λ e. absurd (not_empty (r.validate_review artifact).errors (why artifact h) e),
    λ (e, _, _, _). cc,
  )
]

-- Every criterion of a spec is complete, and a spec of the feature lane has one.
abbrev pub IsCovered : String → Coverage → Type 0
IsCovered lane c = ((lane ≢ "feature") ⊎ (0 < c.total)) × (c.open_criteria ≡ [])

coverage_iff :
    (lane : String) (c : Coverage) → (is_empty (coverage_missing lane c) ≡ true) ↔ IsCovered lane c
unfolding coverage_missing
coverage_iff lane c = none_open c.open_criteria
  where
    none_open :
        (ns : List ℕ)
        → (is_empty (
              if str_eq lane "feature" && not (ltb 0 c.total)
              then no_criteria ∷ []
              else map uncovered ns)
            ≡ true)
          ↔ (((lane ≢ "feature") ⊎ (0 < c.total)) × (ns ≡ []))
    none_open [] = ground (arith, eq_iff lane "feature")
    none_open (n ∷ ns) = ground (arith, eq_iff lane "feature")

-- Let the validator of reviews say why it rejects. Then the check before pr-ready passes exactly
-- where a coverage check that blocks knows the task, finds a criterion in the feature lane, and none that
-- is open, and a review check that blocks knows the task and finds a valid review of this task in
-- this lane whose verdict begins with APPROVE.
pub check_pr_ready_iff :
    (r : Reads) (ctx : Ctx)
    → SaysWhy r.validate_review
    → ((check_pr_ready r ctx).ok ≡ true) ↔ (
        (r.ac_mode ≡ block
          → (is_blank (or_recorded ctx.task_id (task_json r)) ≡ false)
            × IsCovered ctx.lane (r.coverage (or_recorded ctx.task_id (task_json r))))
        × (r.review_mode ≡ block
            → (is_blank (or_recorded ctx.task_id (task_json r)) ≡ false)
              × IsApproved r ctx.lane
                  (or_recorded ctx.task_id (task_json r))
                  (r.artifact "pr-review-result.json")))
unfolding check_pr_ready ac_coverage pr_review
check_pr_ready_iff r ctx why =
    let task = or_recorded ctx.task_id (task_json r) in
    let ac = gated_iff r.ac_mode "ac-coverage" task (coverage_missing ctx.lane (r.coverage task)) in
    let review =
      gated_iff r.review_mode "pr-review" task
        (review_missing r ctx.lane task (r.artifact "pr-review-result.json")) in
    let approved = review_iff r ctx.lane task (r.artifact "pr-review-result.json") why in
    let covered = coverage_iff ctx.lane (r.coverage task) in
    let both = is_empty-append (pushed (ac_coverage r ctx)) (pushed (pr_review r ctx)) in
    (
      λ e.
          let (a, b) = both.0 e in
          (
            λ on. let (t, m) = ac.0 a on in (t, covered.0 m),
            λ on. let (t, m) = review.0 b on in (t, approved.0 m),
          ),
      λ (a, b). both.1 (
        ac.1 (λ on. let (t, m) = a on in (t, covered.1 m)),
        review.1 (λ on. let (t, m) = b on in (t, approved.1 m)),
      ),
    )

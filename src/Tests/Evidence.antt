-- ===== src/Tests/Evidence.antt =====
-- The evidence that the gates demand.
use devmate.Prelude.{
  Bool-cases, inl, inr, ◌≢◌, ℕ, String, true, false, Option, none, some, [], ◌∷◌, ◌≡◌, ◌↔◌, refl,
  if◌then◌else◌,
}
use devmate.Prelude.Table.{get_own}
use devmate.Prelude.Text.{str_eq, is_blank}
use devmate.Json.{look, text_of, Json, bool, str, obj, field, end, get}
use devmate.Gates.Transition.{moved, enter, lane_of, transition_gate}
use devmate.LoopGuard.{digests_equal}
use devmate.Preconditions.Context.{
  Ctx, Missing, stale_run, Validation, Mode, off, block, text, parsed, Reads,
}
use devmate.Preconditions.Artifact.{artifact_task_id, stranger}
use devmate.Preconditions.Gated.{
  gated, by_mode, coverage_missing, review_missing, pr_review, ac_coverage, or_recorded, task_json,
}
use devmate.Preconditions.{
  has_spec, evidence_missing, check_verification_passed, check_impl_started, check_pr_ready,
  check_gate_precondition,
}
use devmate.Preconditions.Evidence.{IsVerified, check_verification_passed_iff}
use devmate.Preconditions.Entry.{
  check_precondition, context_at, ctx_of, transition_gate-IsVerified, transition_gate-has_spec,
}
use devmate.Preconditions.Ready.{SaysWhy, IsCovered, IsApproved, check_pr_ready_iff}
use devmate.Tests.Samples.{approved_feature, started_bug, any_date}

abbrev pub same_text : String → String
same_text s = s

abbrev pub date_zero : Option Json → Option ℕ
date_zero _ = some 0

abbrev accepts : Json → Validation
accepts _ = record { ok = true; errors = [] }

abbrev verify_result : String → Json
verify_result owner =
    obj
      (field "taskId" (str owner) (field "passed" (bool true) (field "completedAt" (str "t0") end)))

abbrev spec_record : Json
spec_record = obj (
    field "taskId" (str "t-1") (
      field "artifactHashes"
        (obj (field "spec" (str "spec.md") (field "specDigest" (str "d1") end))) end))

abbrev pub bare_record : Json
bare_record = obj (field "taskId" (str "t-1") end)

abbrev review_result : Json
review_result =
    obj
      (field "taskId" (str "t-1") (field "lane" (str "bug") (field "verdict" (str "APPROVED") end)))

abbrev files : Json → String → Option Json
files state name = elim (str_eq name "task.json") [
  | true ↦ some state
  | false ↦
      if str_eq name "verify-result.json"
      then some (verify_result "t-1")
      else if str_eq name "pr-review-result.json"
      then some review_result
      else none
]

-- A validator that asks for a verdict.
abbrev has_verdict : Json → Validation
has_verdict artifact =
    if str_eq (text_of (look artifact "verdict")) ""
    then record { ok = false; errors = "no verdict" ∷ [] }
    else record { ok = true; errors = [] }

has_verdict-SaysWhy : SaysWhy has_verdict
has_verdict-SaysWhy artifact h = elim (Bool-cases (str_eq (text_of (look artifact "verdict")) "")) [
  | inl bare ↦ rw bare refl
  | inr given ↦ absurd (clash (rw given at h))
]
  where
    clash : true ≢ false
    clash e = cc

abbrev pub reads : Json → ℕ → Mode → Reads
reads state now mode = record {
  artifact = files state;
  spec = text "# Spec";
  now = now;
  router = λ _. parsed (record { over = 4; under = 5 });
  validate_discovery = accepts;
  validate_grill = accepts;
  validate_critique = accepts;
  validate_review = has_verdict;
  ac_mode = mode;
  review_mode = mode;
  floor_mode = off;
  coverage = λ _. record { total = 2; open_criteria = [] };
  has_floor = λ _. false;
  missing_dispatches = λ _ _. [];
}

abbrev bug_ctx : Ctx
bug_ctx = record { lane = "bug"; event = some "pass-verification"; task_id = some "t-1" }

fresh_run :
    (check_verification_passed same_text str_eq date_zero
      (reads bare_record 1800000 block)
      bug_ctx).missing
    ≡ []
unfolding check_verification_passed evidence_missing ac_coverage gated by_mode coverage_missing
    stranger artifact_task_id digests_equal get is_blank
fresh_run = refl

stale_evidence :
    (check_verification_passed same_text str_eq date_zero
      (reads bare_record 1800001 block)
      bug_ctx).missing
    ≡ stale_run ∷ []
unfolding check_verification_passed evidence_missing ac_coverage gated by_mode coverage_missing
    stranger artifact_task_id digests_equal get is_blank
stale_evidence = refl

foreign_evidence :
    stranger same_text (artifact_task_id (some (verify_result "t-0"))) (some "t-1")
    ≡ some ("t-0", "t-1")
unfolding stranger artifact_task_id get is_blank
foreign_evidence = refl

check_verification_passed_iff_example :
    ((check_verification_passed same_text str_eq date_zero (reads bare_record 5 block) bug_ctx).ok
      ≡ true)
    ↔ IsVerified same_text str_eq date_zero (reads bare_record 5 block) bug_ctx
check_verification_passed_iff_example =
    check_verification_passed_iff same_text str_eq date_zero (reads bare_record 5 block) bug_ctx

abbrev shown : Missing → String
shown _ = "missing"

verified_move :
    transition_gate any_date
      (check_precondition same_text str_eq date_zero any_date shown (reads bare_record 5 block))
      none
      started_bug
      "pass-verification"
    ≡ moved "impl-started" "verification-passed" (enter started_bug "verification-passed")
unfolding transition_gate get get_own check_gate_precondition check_verification_passed
    evidence_missing ac_coverage gated by_mode coverage_missing stranger artifact_task_id
    digests_equal is_blank
verified_move = refl

transition_gate-IsVerified_example :
    IsVerified same_text str_eq date_zero
      (reads bare_record 5 block)
      (ctx_of (context_at started_bug "pass-verification"))
transition_gate-IsVerified_example =
    transition_gate-IsVerified same_text str_eq date_zero any_date shown (reads bare_record 5 block)
      started_bug "pass-verification" "impl-started" (enter started_bug "verification-passed")
      verified_move

started_move :
    transition_gate any_date
      (check_precondition same_text str_eq date_zero any_date shown (reads spec_record 5 off))
      none
      approved_feature
      "start-impl"
    ≡ moved "spec-approved" "impl-started" (enter approved_feature "impl-started")
unfolding transition_gate get get_own check_gate_precondition check_impl_started has_spec
started_move = refl

feature_lane : lane_of approved_feature ≡ "feature"
unfolding get
feature_lane = refl

transition_gate-has_spec_example : has_spec (some spec_record) ≡ true
transition_gate-has_spec_example =
    transition_gate-has_spec same_text str_eq date_zero any_date shown (reads spec_record 5 off)
      approved_feature "start-impl" "spec-approved" (enter approved_feature "impl-started")
      feature_lane started_move

check_pr_ready_iff_example : ((check_pr_ready (reads bare_record 5 block) bug_ctx).ok ≡ true) ↔ (
    (block ≡ block
      → (is_blank (or_recorded (some "t-1") (task_json (reads bare_record 5 block))) ≡ false)
        × IsCovered "bug" (record { total = 2; open_criteria = [] }))
    × (block ≡ block
        → (is_blank (or_recorded (some "t-1") (task_json (reads bare_record 5 block))) ≡ false)
          × IsApproved
              (reads bare_record 5 block)
              "bug"
              (or_recorded (some "t-1") (task_json (reads bare_record 5 block)))
              (some review_result)))
check_pr_ready_iff_example =
    check_pr_ready_iff (reads bare_record 5 block) bug_ctx has_verdict-SaysWhy

reviewed_task_is_ready : (check_pr_ready (reads bare_record 5 block) bug_ctx).ok ≡ true
unfolding check_pr_ready ac_coverage pr_review gated by_mode coverage_missing review_missing get
    is_blank
reviewed_task_is_ready = refl

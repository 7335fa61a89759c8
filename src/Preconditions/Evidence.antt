-- ===== src/Preconditions/Evidence.antt =====
-- What it takes to pass the checks that stand before verification-passed and impl-started.
use devmate.Prelude.{
  ℕ, ◌+◌, ◌≤◌, String, List, [], ◌∷◌, ◌++◌, Bool, true, false, not, Option, none, some, ◌≡◌, ◌≢◌,
  ◌↔◌, refl, arith, is_empty, if◌then◌else◌,
}
use devmate.Json.{Json, look}
use devmate.Preconditions.Context.{
  max_verify_age_ms, Ctx, Missing, failing_run, stale_run, other_spec, Reads, pushed,
}
use devmate.Preconditions.Artifact.{artifact_task_id, stranger}
use devmate.Preconditions.Gated.{task_json, ac_coverage, push_if}
use devmate.Preconditions.{
  is_true, look?, or_empty_text, same_digest, is_fresh, evidence_missing, owner_missing,
  check_verification_passed,
}

pub is_empty-append {ℓ} :
    {A : Type ℓ} (xs ys : List A)
    → (is_empty (xs ++ ys) ≡ true) ↔ ((is_empty xs ≡ true) × (is_empty ys ≡ true))
is_empty-append [] ys = (λ e. (refl, e), λ (_, e). e)
is_empty-append (x ∷ xs) ys = (λ e. cc, λ (e, _). cc)

fresh_iff :
    (now : ℕ) (date : Option ℕ)
    → (is_fresh now date ≡ true)
      ↔ ((completed : ℕ) × (date ≡ some completed) × (now ≤ completed + max_verify_age_ms))
fresh_iff now none = (λ e. cc, λ (_, e, _). cc)
fresh_iff now (some completed) =
    (λ e. (completed, refl, ground (arith, e)), λ (other, e, le). ground (arith, e, le))

-- Three tests in a row, each with what is missing where it fails.
chain_iff :
    (a b c : Bool) (x y z : Missing)
    → (is_empty (if not a then x ∷ [] else if not b then y ∷ [] else push_if (not c) z) ≡ true)
      ↔ ((a ≡ true) × (b ≡ true) × (c ≡ true))
chain_iff true true true x y z = (λ _. (refl, refl, refl), λ _. refl)
chain_iff true true false x y z = (λ e. cc, λ (_, _, e). cc)
chain_iff true false c x y z = (λ e. cc, λ (_, e, _). cc)
chain_iff false b c x y z = (λ e. cc, λ (e, _, _). cc)

module _ (trim : String → String) (same_bytes : String → String → Bool)
    (parse_date : Option Json → Option ℕ) where
  -- A run that passed, ended no longer ago than the limit, and verified the approved spec.
  abbrev pub IsEvidence : Reads → Json → Type 0
  IsEvidence r artifact =
      (is_true (look artifact "passed") ≡ true)
      × ((completed : ℕ) × (parse_date (look artifact "completedAt") ≡ some completed)
          × (r.now ≤ completed + max_verify_age_ms))
      × (same_digest same_bytes (or_empty_text (look artifact "specDigest"))
            (or_empty_text (look? (look? (task_json r) "artifactHashes") "specDigest"))
          ≡ true)

  run_iff :
      (r : Reads) (artifact : Json)
      → (is_empty (evidence_missing trim same_bytes parse_date r (some artifact)) ≡ true)
        ↔ IsEvidence r artifact
  unfolding evidence_missing
  run_iff r artifact =
      let chain = chain_iff _ _ _ failing_run stale_run other_spec in
      let fresh = fresh_iff r.now (parse_date (look artifact "completedAt")) in
      (λ e. let (a, b, c) = chain.0 e in (a, fresh.0 b, c), λ (a, b, c). chain.1 (a, fresh.1 b, c))

  owner_iff : (s : Option (String × String)) → (is_empty (owner_missing s) ≡ true) ↔ (s ≡ none)
  owner_iff none = (λ _. refl, λ _. refl)
  owner_iff (some s) = (λ e. cc, λ e. cc)

  abbrev pub IsOwnEvidence : Reads → Ctx → Option Json → Type 0
  IsOwnEvidence r ctx none = ⊥
  IsOwnEvidence r ctx (some artifact) =
      (stranger trim (artifact_task_id (some artifact)) ctx.task_id ≡ none) × IsEvidence r artifact

  none_found : (r : Reads) → is_empty (evidence_missing trim same_bytes parse_date r none) ≢ true
  unfolding evidence_missing
  none_found r e = cc

  missing_iff :
      (r : Reads) (ctx : Ctx) (found : Option Json) (more : List Missing)
      → (is_empty (
            owner_missing (stranger trim (artifact_task_id found) ctx.task_id)
            ++ (evidence_missing trim same_bytes parse_date r found ++ more))
          ≡ true)
        ↔ (IsOwnEvidence r ctx found × (is_empty more ≡ true))
  missing_iff r ctx none more = (
    λ e. absurd (
        none_found r
          ((is_empty-append _ more).0
            ((is_empty-append (owner_missing (stranger trim (artifact_task_id none) ctx.task_id))
                _).0
              e).1).0),
    λ (impossible, _). absurd impossible,
  )
  missing_iff r ctx (some artifact) more =
      let owner = owner_iff (stranger trim (artifact_task_id (some artifact)) ctx.task_id) in
      let outer =
        is_empty-append
          (owner_missing (stranger trim (artifact_task_id (some artifact)) ctx.task_id))
          (evidence_missing trim same_bytes parse_date r (some artifact) ++ more) in
      let inner =
        is_empty-append (evidence_missing trim same_bytes parse_date r (some artifact)) more in
      let evidence = run_iff r artifact in
      (
        λ e.
            let (o, rest) = outer.0 e in
            let (v, m) = inner.0 rest in ((owner.0 o, evidence.0 v), m),
        λ (own, m). outer.1 (owner.1 own.0, inner.1 (evidence.1 own.1, m)),
      )

  -- What passes the check: evidence of a run, left by no other task, and a coverage check that
  -- misses nothing.
  abbrev pub IsVerified : Reads → Ctx → Type 0
  IsVerified r ctx =
      IsOwnEvidence r ctx (r.artifact "verify-result.json")
      × (is_empty (pushed (ac_coverage r ctx)) ≡ true)

  -- The check before verification-passed passes exactly where the verify artifact is there, is not
  -- another task's, records a run that passed, ended at most thirty minutes ago and verified the
  -- approved spec, and the coverage of the criteria, by its mode, misses nothing.
  pub check_verification_passed_iff :
      (r : Reads) (ctx : Ctx)
      → ((check_verification_passed trim same_bytes parse_date r ctx).ok ≡ true) ↔ IsVerified r ctx
  unfolding check_verification_passed
  check_verification_passed_iff r ctx =
      missing_iff r ctx (r.artifact "verify-result.json") (pushed (ac_coverage r ctx))

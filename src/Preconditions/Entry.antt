-- ===== src/Preconditions/Entry.antt =====
-- `transitionGate` with the check of lib/gate-preconditions.mjs: what a move into a gate proves.
use devmate.Prelude.{
  ℕ, String, List, [], ◌∷◌, Bool, true, false, Option, some, ◌≡◌, ◌≢◌, refl, sym, ap, ◌∙◌,
  Bool-cases, is_empty, inl, inr, map,
}
use devmate.Prelude.Table.{get_own}
use devmate.Json.{Json, Fields}
use devmate.Gates.Transition.{Context, Verdict, moved, lane_of, task_of, transition_gate}
use devmate.Gates.Transition.Exact.{transition_gate_iff}
use devmate.Preconditions.Context.{Ctx, Missing, Warning, Outcome, Reads, of_missing, pushed}
use devmate.Preconditions.Gated.{task_json, ac_coverage}
use devmate.Preconditions.{
  has_spec, check_impl_started, check_verification_passed, gate_preconditions, missing_of,
  check_gate_precondition,
}
use devmate.Preconditions.Evidence.{is_empty-append, IsVerified, check_verification_passed_iff}

-- An outcome that pushes nothing made of what it misses passes.
pushed-of_missing :
    (missing : List Missing) (recorded : List Warning)
    → is_empty (pushed (of_missing missing recorded)) ≡ true
    → is_empty missing ≡ true
pushed-of_missing [] recorded h = refl
pushed-of_missing (m ∷ missing) recorded h = cc

abbrev pub ctx_of : Context → Ctx
ctx_of c = record { lane = c.lane; event = some c.event; task_id = some c.task_id }

abbrev pub context_at : Fields → String → Context
context_at state event = record { lane = lane_of state; event = event; task_id = task_of state }

module _ (trim : String → String) (same_bytes : String → String → Bool)
    (parse_date : Option Json → Option ℕ) (is_date : String → Bool) where
  gate-pushed :
      (r : Reads) (target : String) (ctx : Ctx) (o : Outcome)
      → get_own (gate_preconditions trim same_bytes parse_date is_date r ctx) target ≡ some o
      → (check_gate_precondition trim same_bytes parse_date is_date r target ctx).ok ≡ true
      → is_empty (pushed o) ≡ true
  unfolding check_gate_precondition
  gate-pushed r target ctx o row passes =
      sym (ap (λ found. is_empty (missing_of found)) row)
      ∙ ((is_empty-append
            (missing_of
              (get_own (gate_preconditions trim same_bytes parse_date is_date r ctx) target))
            _).0
          passes).0

  before_verification :
      (r : Reads) (ctx : Ctx)
      → (check_gate_precondition trim same_bytes parse_date is_date r "verification-passed" ctx).ok
        ≡ true
      → IsVerified trim same_bytes parse_date r ctx
  unfolding get_own check_verification_passed
  before_verification r ctx passes =
      (check_verification_passed_iff trim same_bytes parse_date r ctx).0 (
        pushed-of_missing _ (ac_coverage r ctx).recorded (
          gate-pushed r "verification-passed" ctx
            (check_verification_passed trim same_bytes parse_date r ctx) refl passes))

  feature-has_spec :
      (r : Reads) (ctx : Ctx)
      → ctx.lane ≡ "feature"
      → is_empty (pushed (check_impl_started r ctx)) ≡ true
      → has_spec (task_json r) ≡ true
  unfolding check_impl_started
  feature-has_spec r ctx lane passes = elim (Bool-cases (has_spec (task_json r))) [
    | inl h ↦ h
    | inr h ↦ absurd (not_passed h passes)
  ]
    where
      not_passed :
          has_spec (task_json r) ≡ false → is_empty (pushed (check_impl_started r ctx)) ≢ true
      not_passed h = rw (lane, h) (λ e. cc)

  started-has_spec :
      (r : Reads) (ctx : Ctx)
      → ctx.lane ≡ "feature"
      → (check_gate_precondition trim same_bytes parse_date is_date r "impl-started" ctx).ok ≡ true
      → has_spec (task_json r) ≡ true
  unfolding get_own
  started-has_spec r ctx lane passes =
      feature-has_spec r ctx lane
        (gate-pushed r "impl-started" ctx (check_impl_started r ctx) refl passes)

  module _ (show : Missing → String) (r : Reads) where
    -- The callback that `transitionGate` takes, at the files as the check reads them.
    abbrev pub check_precondition : String → Context → Verdict
    check_precondition target c =
        let o = check_gate_precondition trim same_bytes parse_date is_date r target (ctx_of c) in
        record { passed = o.ok; missing = map show o.missing }

    move-passed :
        (state : Fields) (event from to : String) (state' : Fields)
        → transition_gate is_date check_precondition (r.artifact "resume-pointer.json") state event
          ≡ moved from to state'
        → (check_gate_precondition trim same_bytes parse_date is_date r to
            (ctx_of (context_at state event))).ok
          ≡ true
    move-passed state event from to state' moves =
        let (_, _, _, _, passes) =
          (transition_gate_iff is_date check_precondition (r.artifact "resume-pointer.json") state
              event from to state').0
            moves in
        passes

    -- A task moves into verification-passed only with a verify artifact that is not another task's
    -- and records a run that passed, ended at most thirty minutes before the move and verified the
    -- approved spec, and only where the coverage of the criteria, by its mode, misses nothing.
    pub transition_gate-IsVerified :
        (state : Fields) (event from : String) (state' : Fields)
        → transition_gate is_date check_precondition (r.artifact "resume-pointer.json") state event
          ≡ moved from "verification-passed" state'
        → IsVerified trim same_bytes parse_date r (ctx_of (context_at state event))
    transition_gate-IsVerified state event from state' moves =
        before_verification r _ (move-passed state event from "verification-passed" state' moves)

    -- A task of the feature lane moves into impl-started only where task.json records a spec and its
    -- digest, whichever event leads there.
    pub transition_gate-has_spec :
        (state : Fields) (event from : String) (state' : Fields)
        → lane_of state ≡ "feature"
        → transition_gate is_date check_precondition (r.artifact "resume-pointer.json") state event
          ≡ moved from "impl-started" state'
        → has_spec (task_json r) ≡ true
    transition_gate-has_spec state event from state' lane moves =
        started-has_spec r _ lane (move-passed state event from "impl-started" state' moves)

-- ===== src/EditGuard/Contract.antt =====
-- What the contract of a task demands of an edit, and what the verdict on session artifacts adds.
use text.Mathlib.TextEquality.{eq_iff}
use devmate.Prelude.{
  String, List, [], ◌∷◌, Bool, ◌||◌, if◌then◌else◌, true, false, Option, none, some, ◌≡◌, ◌≢◌, refl,
  sym, ◌∙◌, ◌↔◌, ◌⊎◌, inl, inr, arith, Option-cases,
}
use devmate.Prelude.{Any}
use devmate.Prelude.Search.{any-Any_iff}
use devmate.Prelude.Codes.{code_eq}
use devmate.Prelude.Text.{str_eq}
use devmate.TddGuard.{TddDecision, evaluate_tdd_pre_condition}
use devmate.Glob.{Code, forward_slashes, match_glob}
use devmate.EditGuard.Artifacts.{
  SessionArtifactVerdict, not_artifact, writer_allowed, writer_denied,
}
use devmate.EditGuard.{
  GuardedTask, ParsedScope, Options, Reason, GuardDecision, allow, deny, in_scope, tdd_blocks,
  within_contract, by_verdict, is_edit_allowed_at_gate, or_default, initial_tdd_guard,
  default_test_globs,
}

code_eq_iff : (a b : Code) → (code_eq a b ≡ true) ↔ (a ≡ b)
code_eq_iff [] [] = (λ _. refl, λ _. refl)
code_eq_iff [] (b ∷ bs) = (λ h. cc, λ h. cc)
code_eq_iff (a ∷ as') [] = (λ h. cc, λ h. cc)
code_eq_iff (a ∷ as') (b ∷ bs) = ground (arith, code_eq_iff as' bs)

-- A gate at which source may be edited: impl-started and the gates after it.
abbrev pub IsImplGate : String → Type 0
IsImplGate gate =
    (gate ≡ "impl-started") ⊎ (gate ≡ "verification-passed") ⊎ (gate ≡ "pr-ready") ⊎ (gate ≡ "done")

pub is_edit_allowed_at_gate_iff :
    (gate : String) → (is_edit_allowed_at_gate gate ≡ true) ↔ IsImplGate gate
unfolding is_edit_allowed_at_gate
is_edit_allowed_at_gate_iff gate = ground (
  arith,
  eq_iff "impl-started" gate,
  eq_iff "verification-passed" gate,
  eq_iff "pr-ready" gate,
  eq_iff "done" gate,
)

-- The path is one that the scope lists, or matches a glob that the scope lists.
abbrev pub InScope : ParsedScope → Code → Type 0
InScope scope path =
    Any (λ p. forward_slashes p ≡ forward_slashes path) scope.allowed_paths
    ⊎ Any (λ g. match_glob g (forward_slashes path) ≡ true) scope.allowed_globs

in_scope_iff :
    (scope : ParsedScope) (path : Code) → (in_scope scope path ≡ true) ↔ InScope scope path
unfolding in_scope
in_scope_iff scope path =
    let (f, g) =
      any-Any_iff (λ p. code_eq (forward_slashes p) (forward_slashes path))
        (λ p. forward_slashes p ≡ forward_slashes path) scope.allowed_paths
        (λ p. code_eq_iff (forward_slashes p) (forward_slashes path)) in
    let (f', g') =
      any-Any_iff (λ g. match_glob g (forward_slashes path))
        (λ g. match_glob g (forward_slashes path) ≡ true) scope.allowed_globs
        (λ g. (λ h. h, λ h. h)) in
    (
      λ h. elim (or_true h) [ inl a ↦ inl (f a) | inr b ↦ inr (f' b) ],
      λ h. elim h [ inl a ↦ true_or (inl (g a)) | inr b ↦ true_or (inr (g' b)) ],
    )
  where
    or_true : {a b : Bool} → a || b ≡ true → (a ≡ true) ⊎ (b ≡ true)
    or_true h = ground arith

    true_or : {a b : Bool} → (a ≡ true) ⊎ (b ≡ true) → a || b ≡ true
    true_or h = ground arith

-- The TDD rule, which holds at impl-started only, lets the path pass.
abbrev pub IsTested : GuardedTask → Option (List Code) → Code → Type 0
IsTested task test_globs path =
    (task.workflow_gate ≢ "impl-started")
    ⊎ (evaluate_tdd_pre_condition path (or_default task.tdd_guard initial_tdd_guard)
          (or_default test_globs default_test_globs)
        ≡ TddDecision.allow)

tdd_blocks_iff :
    (task : GuardedTask) (test_globs : Option (List Code)) (path : Code)
    → (tdd_blocks task test_globs path ≡ false) ↔ IsTested task test_globs path
unfolding tdd_blocks
tdd_blocks_iff task test_globs path = decided (
    evaluate_tdd_pre_condition path (or_default task.tdd_guard initial_tdd_guard)
      (or_default test_globs default_test_globs))
  where
    decided :
        (d : TddDecision)
        → ((if str_eq task.workflow_gate "impl-started"
              then elim d [ TddDecision.allow ↦ false | TddDecision.block ↦ true ]
              else false)
            ≡ false)
          ↔ ((task.workflow_gate ≢ "impl-started") ⊎ (d ≡ TddDecision.allow))
    decided TddDecision.allow = ground (arith, eq_iff task.workflow_gate "impl-started")
    decided TddDecision.block = ground (arith, eq_iff task.workflow_gate "impl-started")

-- What the tests of the code find of the contract.
abbrev PassesContract : GuardedTask → Option (List Code) → Options → Code → Type 0
PassesContract task test_globs opts path =
    (opts.edit_escapes_workspace ≡ false)
    × ((scope : ParsedScope) × (opts.scope ≡ some scope) × (in_scope scope path ≡ true))
    × (tdd_blocks task test_globs path ≡ false)

-- The contract of the task: a path inside the workspace and in the scope that is written, which the
-- TDD rule lets pass.
abbrev pub IsWithinContract : GuardedTask → Option (List Code) → Options → Code → Type 0
IsWithinContract task test_globs opts path =
    (opts.edit_escapes_workspace ≡ false)
    × ((scope : ParsedScope) × (opts.scope ≡ some scope) × InScope scope path)
    × IsTested task test_globs path

within_contract-PassesContract_iff :
    (task : GuardedTask) (test_globs : Option (List Code)) (opts : Options) (path : Code)
    → (within_contract task test_globs opts path ≡ allow) ↔ PassesContract task test_globs opts path
unfolding within_contract
within_contract-PassesContract_iff task test_globs opts path = elim (Option-cases opts.scope) [
  | inl h ↦ (λ e. absurd (no_scope h e), λ (e, (scope, i, _), t). absurd (none_some (sym h ∙ i)))
  | inr (scope, h) ↦ (
    λ e. (to_escapes h e, (scope, h, to_scope h e), to_tdd h e),
    λ (e, (scope', i, j), t). from_all e i j t,
  )
]
  where
    none_some : {scope : ParsedScope} → none ≢ some scope
    none_some e = cc

    no_scope : opts.scope ≡ none → within_contract task test_globs opts path ≢ allow
    no_scope h e = ground (arith, h, e)

    to_escapes :
        {scope : ParsedScope}
        → opts.scope ≡ some scope
        → within_contract task test_globs opts path ≡ allow
        → opts.edit_escapes_workspace ≡ false
    to_escapes h e = ground (arith, h, e)

    to_scope :
        {scope : ParsedScope}
        → opts.scope ≡ some scope
        → within_contract task test_globs opts path ≡ allow
        → in_scope scope path ≡ true
    to_scope h e = ground (arith, h, e)

    to_tdd :
        {scope : ParsedScope}
        → opts.scope ≡ some scope
        → within_contract task test_globs opts path ≡ allow
        → tdd_blocks task test_globs path ≡ false
    to_tdd h e = ground (arith, h, e)

    from_all :
        {scope : ParsedScope}
        → opts.edit_escapes_workspace ≡ false
        → opts.scope ≡ some scope
        → in_scope scope path ≡ true
        → tdd_blocks task test_globs path ≡ false
        → within_contract task test_globs opts path ≡ allow
    from_all e i j t = ground (arith, e, i, j, t)

pub within_contract-allow_iff :
    (task : GuardedTask) (test_globs : Option (List Code)) (opts : Options) (path : Code)
    → (within_contract task test_globs opts path ≡ allow)
      ↔ IsWithinContract task test_globs opts path
within_contract-allow_iff task test_globs opts path =
    let (f, g) = within_contract-PassesContract_iff task test_globs opts path in
    let (t, u) = tdd_blocks_iff task test_globs path in
    (
      λ h. let (e, (scope, s, i), b) = f h in (e, (scope, s, (in_scope_iff scope path).0 i), t b),
      λ (e, (scope, s, i), b). g (e, (scope, s, (in_scope_iff scope path).1 i), u b),
    )

-- An allow that `by_verdict` gives: the writer's, or the one that is left.
pub by_verdict-allow_iff :
    (verdict : SessionArtifactVerdict) (otherwise : GuardDecision)
    → (by_verdict verdict otherwise ≡ allow)
      ↔ ((verdict ≡ writer_allowed) ⊎ ((verdict ≡ not_artifact) × (otherwise ≡ allow)))
by_verdict-allow_iff writer_allowed otherwise = (λ e. inl refl, λ _. refl)
by_verdict-allow_iff writer_denied otherwise =
    (λ e. absurd (sample e), λ h. elim h [ inl e ↦ cc | inr (e, _) ↦ cc ])
  where
    sample : deny Reason.not_a_writer ≢ allow
    sample e = cc
by_verdict-allow_iff not_artifact otherwise =
    (λ e. inr (refl, e), λ h. elim h [ inl e ↦ cc | inr (_, e) ↦ e ])

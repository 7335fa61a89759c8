-- ===== src/EditGuard/Rules.antt =====
-- When `evaluateGuard` lets an edit pass.
use devmate.Prelude.{
  String, List, [], ◌∷◌, Bool, true, false, not, ◌&&◌, Option, none, some, ◌≡◌, ◌≢◌, refl, ◌↔◌, ◌⊎◌,
  inl, inr, Bool-cases,
}
use devmate.Prelude.Codes.{code_eq}
use devmate.Glob.{Code}
use devmate.EditGuard.Artifacts.{
  Writer, SessionArtifactVerdict, not_artifact, writer_allowed, session_artifact_verdict,
}
use devmate.EditGuard.Tools.{is_unrecognized_tool}
use devmate.EditGuard.{
  HookPayload, GuardedTask, ConfigResult, loaded, failed, Options, Reason, allow, deny,
  is_cleanup_path, is_edit_allowed_at_gate, within_contract, by_verdict, judge_edit, evaluate_guard,
  is_edit, verdict_of,
}
use devmate.EditGuard.Contract.{
  IsImplGate, is_edit_allowed_at_gate_iff, IsWithinContract, within_contract-allow_iff,
  by_verdict-allow_iff,
}

-- An edit under a task: no budget marker stands, or the edit cleans up after one; and it is an
-- artifact's declared writer's, or one of a path within the contract, from impl-started on.
abbrev pub IsPermitted :
    HookPayload → GuardedTask → Option (List Code) → Options → SessionArtifactVerdict → Type 0
IsPermitted payload task test_globs opts verdict =
    (opts.budget_critical && not (is_cleanup_path payload.path) ≡ false)
    × ((verdict ≡ writer_allowed)
        ⊎ ((verdict ≡ not_artifact)
            × IsImplGate task.workflow_gate
            × (code_eq payload.path [] ≡ false)
            × IsWithinContract task test_globs opts payload.path))

module _ (payload : HookPayload) (task : GuardedTask) (test_globs : Option (List Code))
    (opts : Options) (verdict : SessionArtifactVerdict) where
  judge_edit-closed :
      opts.budget_critical && not (is_cleanup_path payload.path) ≡ false
      → is_edit_allowed_at_gate task.workflow_gate ≡ false
      → judge_edit payload task test_globs opts verdict
        ≡ by_verdict verdict (deny (Reason.not_started task.workflow_gate task.lane))
  unfolding judge_edit
  judge_edit-closed b g = rw (b, g) refl

  judge_edit-open :
      opts.budget_critical && not (is_cleanup_path payload.path) ≡ false
      → is_edit_allowed_at_gate task.workflow_gate ≡ true
      → code_eq payload.path [] ≡ false
      → judge_edit payload task test_globs opts verdict
        ≡ by_verdict verdict (within_contract task test_globs opts payload.path)
  unfolding judge_edit
  judge_edit-open b g p = rw (b, g, p) refl

  judge_edit-no_path :
      opts.budget_critical && not (is_cleanup_path payload.path) ≡ false
      → is_edit_allowed_at_gate task.workflow_gate ≡ true
      → code_eq payload.path [] ≡ true
      → judge_edit payload task test_globs opts verdict ≢ allow
  unfolding judge_edit
  judge_edit-no_path b g p =
      rw (b, g, p)
        (elim (Bool-cases (is_unrecognized_tool payload.tool_name)) [
          | inl u ↦ rw u (λ e. cc)
          | inr u ↦ rw u (λ e. cc)
        ])

  judge_edit-critical :
      opts.budget_critical && not (is_cleanup_path payload.path) ≡ true
      → judge_edit payload task test_globs opts verdict ≢ allow
  unfolding judge_edit
  judge_edit-critical b = rw b (λ e. cc)

  clash : {b : Bool} → b ≡ true → b ≢ false
  clash t f = cc

  closed_iff :
      opts.budget_critical && not (is_cleanup_path payload.path) ≡ false
      → is_edit_allowed_at_gate task.workflow_gate ≡ false
      → (judge_edit payload task test_globs opts verdict ≡ allow)
        ↔ IsPermitted payload task test_globs opts verdict
  closed_iff b g = rw (judge_edit-closed b g) (
    λ e. (b, elim ((by_verdict-allow_iff verdict _).0 e) [ inl w ↦ inl w | inr (_, d) ↦ cc ]),
    λ (_, h). (by_verdict-allow_iff verdict _).1 (elim h [
      | inl w ↦ inl w
      | inr (_, o, _, _) ↦ absurd (clash ((is_edit_allowed_at_gate_iff _).1 o) g)
    ]),
  )

  open_iff :
      opts.budget_critical && not (is_cleanup_path payload.path) ≡ false
      → is_edit_allowed_at_gate task.workflow_gate ≡ true
      → code_eq payload.path [] ≡ false
      → (judge_edit payload task test_globs opts verdict ≡ allow)
        ↔ IsPermitted payload task test_globs opts verdict
  open_iff b g p =
      let contract = within_contract-allow_iff task test_globs opts payload.path in
      let chosen =
        by_verdict-allow_iff verdict (within_contract task test_globs opts payload.path) in
      rw (judge_edit-open b g p) (
        λ e. (
          b,
          elim (chosen.0 e) [
            | inl w ↦ inl w
            | inr (n, a) ↦ inr (n, (is_edit_allowed_at_gate_iff _).0 g, p, contract.0 a)
          ],
        ),
        λ (_, h). chosen.1 (elim h [ inl w ↦ inl w | inr (n, _, _, c) ↦ inr (n, contract.1 c) ]),
      )

  pathless_iff :
      opts.budget_critical && not (is_cleanup_path payload.path) ≡ false
      → is_edit_allowed_at_gate task.workflow_gate ≡ true
      → code_eq payload.path [] ≡ true
      → (verdict ≡ writer_allowed → code_eq payload.path [] ≡ false)
      → (judge_edit payload task test_globs opts verdict ≡ allow)
        ↔ IsPermitted payload task test_globs opts verdict
  pathless_iff b g p has_path = (
    λ e. absurd (judge_edit-no_path b g p e),
    λ (_, h). elim h [
      | inl w ↦ absurd (clash p (has_path w))
      | inr (_, _, q, _) ↦ absurd (clash p q)
    ],
  )

  judge_edit-allow_iff :
      (verdict ≡ writer_allowed → code_eq payload.path [] ≡ false)
      → (judge_edit payload task test_globs opts verdict ≡ allow)
        ↔ IsPermitted payload task test_globs opts verdict
  judge_edit-allow_iff has_path =
      elim (Bool-cases (opts.budget_critical && not (is_cleanup_path payload.path))) [
        | inl b ↦ (λ e. absurd (judge_edit-critical b e), λ (f, _). absurd (clash b f))
        | inr b ↦ elim (Bool-cases (is_edit_allowed_at_gate task.workflow_gate)) [
          | inr g ↦ closed_iff b g
          | inl g ↦ elim (Bool-cases (code_eq payload.path [])) [
            | inl p ↦ pathless_iff b g p has_path
            | inr p ↦ open_iff b g p
          ]
        ]
      ]

module _ (to_lower_case : Code → Code) where
  -- An artifact's writer names a path.
  writer_allowed-path :
      (path : Code) (paths : List Code) (writers : List Writer) (agent : String)
      → session_artifact_verdict to_lower_case path paths writers agent ≡ writer_allowed
      → code_eq path [] ≡ false
  unfolding session_artifact_verdict
  writer_allowed-path [] paths writers agent w = cc
  writer_allowed-path (c ∷ cs) paths writers agent w = refl

  -- Let the configuration load and a task's state be read. Then an edit is allowed exactly where no
  -- critical budget stands, or the edit is a cleanup write; and the path is a session artifact whose
  -- declared writer is the active agent, or it is no session artifact, the gate is at or after
  -- impl-started, and the path is one of the contract: inside the workspace, named by the scope,
  -- and, at impl-started, not blocked for want of a test.
  pub evaluate_guard-allow_iff :
      (payload : HookPayload) (task : GuardedTask) (test_globs : Option (List Code))
      (opts : Options)
      → is_edit to_lower_case payload ≡ true
      → (evaluate_guard to_lower_case payload (some task) (loaded test_globs) opts ≡ allow)
        ↔ IsPermitted payload task test_globs opts (verdict_of to_lower_case payload opts)
  unfolding evaluate_guard
  evaluate_guard-allow_iff payload task test_globs opts edits =
      rw edits (
        judge_edit-allow_iff payload task test_globs opts _
          (writer_allowed-path payload.path _ _ _))

  -- Where the configuration does not load, or no task's state is read, an edit is allowed only to
  -- the declared writer of a session artifact, and to it only under a configuration that loads; a
  -- call that is no edit is allowed in every case.
  pub evaluate_guard-no_task_iff :
      (payload : HookPayload) (config : ConfigResult) (opts : Options)
      → (evaluate_guard to_lower_case payload none config opts ≡ allow) ↔ (
          (is_edit to_lower_case payload ≡ false)
          ⊎ ((verdict_of to_lower_case payload opts ≡ writer_allowed)
              × (test_globs : Option (List Code)) × (config ≡ loaded test_globs)))
  unfolding evaluate_guard
  evaluate_guard-no_task_iff payload (failed error) opts =
      elim (Bool-cases (is_edit to_lower_case payload)) [
        | inr e ↦ rw e (λ _. inl refl, λ _. refl)
        | inl e ↦ rw e (λ d. cc, λ h. elim h [ inl f ↦ cc | inr (_, _, l) ↦ cc ])
      ]
  evaluate_guard-no_task_iff payload (loaded globs) opts =
      elim (Bool-cases (is_edit to_lower_case payload)) [
        | inr e ↦ rw e (λ _. inl refl, λ _. refl)
        | inl e ↦ rw e (
          λ d. elim ((by_verdict-allow_iff _ _).0 d) [
            | inl w ↦ inr (w, globs, refl)
            | inr (_, f) ↦ cc
          ],
          λ h.
              (by_verdict-allow_iff (verdict_of to_lower_case payload opts)
                  (deny Reason.no_active_task)).1
                (elim h [ inl f ↦ cc | inr (w, _, _) ↦ inl w ]),
        )
      ]

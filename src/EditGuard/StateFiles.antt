-- ===== src/EditGuard/StateFiles.antt =====
-- The files under .devmate/state, by the guard's default protection.
use devmate.Prelude.{
  String, List, [], ◌∷◌, ◌++◌, Bool, true, false, ◌&&◌, Option, none, some, ◌≡◌, ◌≢◌, refl, sym, ap,
  ◌∙◌, ◌⊎◌, inl, inr, Bool-cases,
}
use devmate.Prelude.Text.{str_eq}
use devmate.Prelude.Codes.{codes, code_eq}
use devmate.Glob.{
  Code, forward_slashes, same_code, split_slash, any_suffix, match_head, is_globstar,
  match_segments, match_glob,
}
use devmate.Glob.Segment.{match_one, match_code}
use devmate.Glob.Worklist.{match_segment_lem}
use devmate.EditGuard.Artifacts.{
  writer_denied, writer_allowed, not_artifact, default_session_artifact_paths,
  default_session_artifact_writers, judge_artifact, session_artifact_verdict,
  normalize_artifact_path,
}
use devmate.EditGuard.{
  HookPayload, GuardedTask, ConfigResult, loaded, failed, Options, allow, evaluate_guard, is_edit,
  or_default, verdict_of,
}
use devmate.EditGuard.Rules.{evaluate_guard-allow_iff, evaluate_guard-no_task_iff}

globstar_any : (fs : List Code) → any_suffix (match_segments []) fs ≡ true
unfolding any_suffix match_segments
globstar_any [] = refl
globstar_any (f ∷ fs) = rw (globstar_any fs) refl

split-state :
    (rest : Code)
    → split_slash (forward_slashes (codes ".devmate/state/" ++ rest))
      ≡ codes ".devmate" ∷ codes "state" ∷ split_slash (forward_slashes rest)
unfolding split_slash forward_slashes
split-state rest = refl

split-state_glob :
    split_slash (forward_slashes (codes ".devmate/state/**"))
    ≡ codes ".devmate" ∷ codes "state" ∷ codes "**" ∷ []
unfolding split_slash forward_slashes
split-state_glob = refl

split-spec_glob :
    split_slash (forward_slashes (codes ".devmate/session/**/spec.md"))
    ≡ codes ".devmate" ∷ codes "session" ∷ codes "**" ∷ codes "spec.md" ∷ []
unfolding split_slash forward_slashes
split-spec_glob = refl

-- A segment of the pattern that is no globstar is compared with one segment of the path.
match_segments-one :
    (p f : Code) (ps fs : List Code) (b : Bool)
    → is_globstar p ≡ false
    → match_code p f ≡ b
    → match_segments (p ∷ ps) (f ∷ fs) ≡ (b && match_segments ps fs)
unfolding match_segments match_head
match_segments-one p f ps fs b g m = rw (g, match_segment_lem p f, m) refl

match_segments-globstar : (fs : List Code) → match_segments (codes "**" ∷ []) fs ≡ true
unfolding match_segments same_code any_suffix
match_segments-globstar fs = globstar_any fs

same_dir : match_code (codes ".devmate") (codes ".devmate") ≡ true
unfolding match_code match_one any_suffix
same_dir = refl

same_state : match_code (codes "state") (codes "state") ≡ true
unfolding match_code match_one any_suffix
same_state = refl

other_session : match_code (codes "session") (codes "state") ≡ false
unfolding match_code match_one any_suffix
other_session = refl

glob_state_files :
    (rest : Code) → match_glob (codes ".devmate/state/**") (codes ".devmate/state/" ++ rest) ≡ true
unfolding match_glob same_code
glob_state_files rest =
    ap (λ ps. match_segments ps (split_slash (forward_slashes (codes ".devmate/state/" ++ rest))))
      split-state_glob
    ∙ ap (match_segments _) (split-state rest)
    ∙ match_segments-one (codes ".devmate") (codes ".devmate") _ _ true refl same_dir
    ∙ match_segments-one (codes "state") (codes "state") _ _ true refl same_state
    ∙ match_segments-globstar _

glob_other :
    (rest : Code)
    → match_glob (codes ".devmate/session/**/spec.md") (codes ".devmate/state/" ++ rest) ≡ false
unfolding match_glob same_code
glob_other rest =
    ap (λ ps. match_segments ps (split_slash (forward_slashes (codes ".devmate/state/" ++ rest))))
      split-spec_glob
    ∙ ap (match_segments _) (split-state rest)
    ∙ match_segments-one (codes ".devmate") (codes ".devmate") _ _ true refl same_dir
    ∙ match_segments-one (codes "session") (codes "state") _ _ false refl other_session

-- `toLowerCase` leaves the protected globs as they are.
abbrev pub KeepsGlobs : (Code → Code) → Type 0
KeepsGlobs to_lower_case =
    (to_lower_case (codes ".devmate/state/**") ≡ codes ".devmate/state/**")
    × (to_lower_case (codes ".devmate/session/**/spec.md") ≡ codes ".devmate/session/**/spec.md")

module _ (to_lower_case : Code → Code) (keeps : KeepsGlobs to_lower_case) where
  judge_artifact-state :
      (rest : Code) (agent : String)
      → judge_artifact to_lower_case
          (codes ".devmate/state/" ++ rest)
          default_session_artifact_paths
          default_session_artifact_writers
          agent
        ≡ writer_denied
  unfolding judge_artifact
  judge_artifact-state rest agent =
      rw (keeps.0, glob_state_files rest, keeps.1, glob_other rest)
        (elim (Bool-cases (str_eq agent "")) [ inl e ↦ rw e refl | inr e ↦ rw e refl ])

  verdict-state :
      (path rest : Code) (agent : String)
      → normalize_artifact_path to_lower_case path ≡ codes ".devmate/state/" ++ rest
      → (session_artifact_verdict to_lower_case path default_session_artifact_paths
            default_session_artifact_writers agent
          ≢ writer_allowed)
        × (code_eq path [] ≡ false
            → session_artifact_verdict to_lower_case path default_session_artifact_paths
                default_session_artifact_writers agent
              ≢ not_artifact)
  unfolding session_artifact_verdict
  verdict-state [] rest agent normal = (λ e. cc, λ p. cc)
  verdict-state (c ∷ cs) rest agent normal =
      rw (normal, judge_artifact-state rest agent) (λ e. cc, λ p e. cc)

  verdict_of-defaults :
      (payload : HookPayload) (opts : Options)
      → opts.session_artifact_paths ≡ none
      → opts.session_artifact_writers ≡ none
      → verdict_of to_lower_case payload opts
        ≡ session_artifact_verdict to_lower_case payload.path default_session_artifact_paths
            default_session_artifact_writers
            (or_default opts.active_agent "")
  verdict_of-defaults payload opts paths writers = simp (paths, writers)

  failed-denied :
      (payload : HookPayload) (state : Option GuardedTask) (error : String) (opts : Options)
      → is_edit to_lower_case payload ≡ true
      → evaluate_guard to_lower_case payload state (failed error) opts ≢ allow
  unfolding evaluate_guard
  failed-denied payload none error opts edits = rw edits (λ e. cc)
  failed-denied payload (some task) error opts edits = rw edits (λ e. cc)

  -- An edit that is allowed under a configuration that loads is its artifact's writer's, or is one
  -- of a path that is no artifact.
  allowed-verdict :
      (payload : HookPayload) (state : Option GuardedTask) (globs : Option (List Code))
      (opts : Options)
      → is_edit to_lower_case payload ≡ true
      → evaluate_guard to_lower_case payload state (loaded globs) opts ≡ allow
      → (verdict_of to_lower_case payload opts ≡ writer_allowed)
        ⊎ ((verdict_of to_lower_case payload opts ≡ not_artifact)
            × (code_eq payload.path [] ≡ false))
  allowed-verdict payload none globs opts edits e =
      elim ((evaluate_guard-no_task_iff to_lower_case payload (loaded globs) opts).0 e) [
        | inl no_edit ↦ cc
        | inr (w, _, _) ↦ inl w
      ]
  allowed-verdict payload (some task) globs opts edits e =
      elim ((evaluate_guard-allow_iff to_lower_case payload task globs opts edits).0 e).1 [
        | inl w ↦ inl w
        | inr (n, _, p, _) ↦ inr (n, p)
      ]

  -- Let the protected paths and their writers be the defaults, and let `toLowerCase` keep the
  -- globs as they are. Then no edit of a path whose normal form lies under `.devmate/state/` is
  -- allowed, whichever tool makes it, whichever agent is active, and whatever the task's gate, the
  -- configuration, the scope and the budget are.
  pub evaluate_guard-state_files :
      (payload : HookPayload) (state : Option GuardedTask) (config : ConfigResult) (opts : Options)
      (rest : Code)
      → is_edit to_lower_case payload ≡ true
      → opts.session_artifact_paths ≡ none
      → opts.session_artifact_writers ≡ none
      → normalize_artifact_path to_lower_case payload.path ≡ codes ".devmate/state/" ++ rest
      → evaluate_guard to_lower_case payload state config opts ≢ allow
  evaluate_guard-state_files payload state (failed error) opts rest edits paths writers normal e =
      failed-denied payload state error opts edits e
  evaluate_guard-state_files payload state (loaded globs) opts rest edits paths writers normal e =
      let same = verdict_of-defaults payload opts paths writers in
      let (not_allowed, protected) =
        verdict-state payload.path rest (or_default opts.active_agent "") normal in
      elim (allowed-verdict payload state globs opts edits e) [
        | inl w ↦ not_allowed (sym same ∙ w)
        | inr (n, p) ↦ protected p (sym same ∙ n)
      ]

-- ===== src/Approvals/Prompts.antt =====
-- `handleUserPromptSubmit` of hooks/approval-listener.mjs, from the test of the phrases to the end: which
-- branch a prompt takes. The prompt is trimmed and not empty.
use devmate.Prelude.{ℕ, String, if◌then◌else◌}
use devmate.Prelude.Text.{str_eq}
use devmate.TaskState.Retry.{Attempt}
use devmate.Approvals.Phrases.{
  approve_spec_phrase, approve_plan_phrase, approve_pr_phrase, reset_task_phrase,
  revise_spec_prefix, no_tdd_prefix, revise_scope_prefix, re_plan_prefix, has_prefix, is_escalation,
}
use devmate.Approvals.Workspace.{Answers, Session}
use devmate.Approvals.Lanes.{Disk}
use devmate.Approvals.Listener.{Prompt, Ended, approve_spec, approve_plan, approve_pr}
use devmate.Approvals.Commands.{
  reset_task, revise_spec, override_tdd, handle_steering_phrase, escalate, no_phrase,
}

module _ (s : Session) (a : Answers) where
  -- The phrases with a text of their own, and any other prompt.
  unfoldable pub handle_worded : String → Prompt → Disk s → Ended s a
  handle_worded lower prompt w =
      if has_prefix revise_scope_prefix lower
      then handle_steering_phrase s a "revise-scope" prompt.raw w
      else if has_prefix re_plan_prefix lower
      then handle_steering_phrase s a "re-plan" prompt.raw w
      else if is_escalation lower
      then escalate s a prompt.raw w
      else no_phrase s a lower w

  unfoldable pub handle_command : String → Prompt → Disk s → Ended s a
  handle_command lower prompt w =
      if str_eq lower reset_task_phrase
      then reset_task s a w
      else if has_prefix revise_spec_prefix lower
      then revise_spec s a prompt w
      else if has_prefix no_tdd_prefix lower
      then override_tdd s a prompt w
      else handle_worded lower prompt w

module _ (s : Session) (a : Answers) (around : ℕ → Attempt s.json.Text) where
  unfoldable pub handle_lowered : String → Prompt → Disk s → Ended s a
  handle_lowered lower prompt w =
      if str_eq lower approve_spec_phrase
      then approve_spec s a prompt.raw w
      else if str_eq lower approve_plan_phrase
      then approve_plan s a around prompt.raw w
      else if str_eq lower approve_pr_phrase
      then approve_pr s a prompt.raw w
      else handle_command s a lower prompt w

  unfoldable pub handle_user_prompt_submit : Prompt → Disk s → Ended s a
  handle_user_prompt_submit prompt w = handle_lowered (s.to_lower prompt.raw) prompt w

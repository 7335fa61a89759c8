-- ===== src/EditGuard/Tools.antt =====
-- Which tool calls are edits: `isSourceEditTool` and `isWriteTargetToken` of
-- lib/gate-guard-core.mjs.
use devmate.Prelude.{
  ℕ, String, List, [], ◌∷◌, ◌++◌, Bool, true, false, not, ◌&&◌, ◌||◌, Option, none, some,
  if◌then◌else◌, any, ◌==◌,
}
use devmate.Prelude.Text.{includes}
use devmate.Prelude.Codes.{codes, starts_with, contains, ends_with}
use devmate.Glob.{Code, forward_slashes}

abbrev pub file_read_tools : List String
file_read_tools = "read_file" ∷ "read_notebook_cell_output" ∷ []

abbrev pub non_source_edit_tools : List String
non_source_edit_tools =
    file_read_tools
    ++ "view_image" ∷ "list_dir" ∷ "get_errors" ∷ "read_project_structure" ∷ "get_changed_files"
      ∷ "copilot_getNotebookSummary" ∷ "semantic_search" ∷ "file_search" ∷ "grep_search"
      ∷ "search_workspace_symbols" ∷ "test_search" ∷ "get_search_view_results" ∷ "tool_search"
      ∷ "get_terminal_output" ∷ "terminal_selection" ∷ "terminal_last_command" ∷ "get_task_output"
      ∷ "runTests" ∷ "test_failure" ∷ "fetch_webpage" ∷ "github_repo" ∷ "get_vscode_api"
      ∷ "get_project_setup_info" ∷ "runSubagent" ∷ "search_subagent" ∷ "execution_subagent"
      ∷ "switch_agent" ∷ "manage_todo_list" ∷ "memory" ∷ "resolve_memory_file_uri"
      ∷ "vscode_askQuestions" ∷ "vscode_get_confirmation" ∷ "vscode_get_confirmation_with_options"
      ∷ "vscode_get_terminal_confirmation" ∷ []

abbrev pub known_source_edit_tools : List String
known_source_edit_tools =
    "apply_patch" ∷ "insert_edit_into_file" ∷ "create_file" ∷ "replace_string_in_file"
    ∷ "multi_replace_string_in_file" ∷ "edit_notebook_file" ∷ "edit_files" ∷ "create_directory"
    ∷ "create_new_jupyter_notebook" ∷ "create_new_workspace" ∷ []

abbrev pub shell_tools : List String
shell_tools = "run_in_terminal" ∷ []

unfoldable pub is_unrecognized_tool : String → Bool
is_unrecognized_tool tool =
    not (includes non_source_edit_tools tool)
    && not (includes known_source_edit_tools tool)
    && not (includes shell_tools tool)

abbrev pub shell_source_exts : List Code
shell_source_exts =
    codes ".mjs"
    ∷ codes ".ts"
    ∷ codes ".tsx"
    ∷ codes ".js"
    ∷ codes ".jsx"
    ∷ codes ".cjs"
    ∷ codes ".json"
    ∷ []

abbrev is_quote : ℕ → Bool
is_quote c = c == b'\'' || c == b'"'

abbrev strip_last_quote : Code → Code
strip_last_quote [] = []
strip_last_quote (c ∷ []) = if is_quote c then [] else c ∷ []
strip_last_quote (c ∷ d ∷ cs) = c ∷ strip_last_quote (d ∷ cs)

abbrev strip_first_quote : Code → Code
strip_first_quote [] = []
strip_first_quote (c ∷ cs) = if is_quote c then cs else c ∷ cs

-- `token.replace(/^['"]|['"]$/g, '')`.
abbrev pub strip_quotes : Code → Code
strip_quotes s = strip_last_quote (strip_first_quote s)

module _ (to_lower_case : Code → Code) where
  unfoldable pub is_source_path_token : Code → Bool
  is_source_path_token s =
      let cleaned = to_lower_case (strip_quotes s) in
      any (λ ext. ends_with ext cleaned) shell_source_exts

  unfoldable pub is_session_artifact_token : Code → Bool
  is_session_artifact_token s =
      let cleaned = to_lower_case (forward_slashes (strip_quotes s)) in
      starts_with (codes ".devmate/") cleaned || contains (codes "/.devmate/") cleaned

  unfoldable pub is_write_target_token : Code → Bool
  is_write_target_token s = is_source_path_token s || is_session_artifact_token s

  abbrev pub analyzed : (Code → Bool) → Option Code → Bool
  analyzed shell_writes_source none = true
  analyzed shell_writes_source (some command) = shell_writes_source command

  abbrev pub names_target : Option (List Code) → Bool
  names_target none = true
  names_target (some paths) = any is_write_target_token paths

  unfoldable pub is_source_edit_tool :
      (Code → Bool) → String → Option Code → Option (List Code) → Bool
  is_source_edit_tool shell_writes_source tool command named_paths =
      if includes non_source_edit_tools tool
      then false
      else if includes shell_tools tool
      then analyzed shell_writes_source command
      else if includes known_source_edit_tools tool
      then true
      else names_target named_paths

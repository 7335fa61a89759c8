-- ===== src/EditGuard/Shell.antt =====
-- `shellWritesSource` of lib/gate-guard-core.mjs: whether a command line writes source.
pub mod Writes
use devmate.Prelude.{
  ℕ, String, List, [], ◌∷◌, ◌++◌, Bool, true, false, not, ◌&&◌, ◌||◌, Option, none, some,
  if◌then◌else◌, ◌==◌, leb, any, is_empty,
}
use devmate.Prelude.Text.{is_space}
use devmate.Prelude.Codes.{codes, starts_with, code_eq, includes_code}
use devmate.Glob.{Code}
use devmate.EditGuard.Tools.{is_write_target_token}
use devmate.EditGuard.Segments.{split_shell_segments}

abbrev pub concat : List (List Code) → List Code
concat [] = []
concat (xs ∷ xss) = xs ++ concat xss

abbrev is_digit : ℕ → Bool
is_digit c = leb b'0' c && leb c b'9'

unfoldable pub drop_digits : Code → Code
drop_digits [] = []
drop_digits (c ∷ cs) = let rest = drop_digits cs in if is_digit c then rest else c ∷ cs

-- `/^\d*>{1,2}$/`.
abbrev pub is_redirect : Code → Bool
is_redirect word = includes_code (codes ">" ∷ codes ">>" ∷ []) (drop_digits word)

abbrev is_line_end : ℕ → Bool
is_line_end c = c == 10 || c == 13 || c == 0x2028 || c == 0x2029

-- A text that `(.+)$` takes whole.
abbrev pub one_line : Code → Bool
one_line [] = false
one_line (c ∷ cs) = not (any is_line_end (c ∷ cs))

abbrev pub after_arrow : Code → Option Code
after_arrow [] = none
after_arrow (c ∷ cs) =
    if c == b'>' && one_line cs then some cs else if one_line (c ∷ cs) then some (c ∷ cs) else none

-- The target of `/^\d*>{1,2}(.+)$/`.
abbrev pub attached_from : Code → Option Code
attached_from [] = none
attached_from (c ∷ cs) = if c == b'>' then after_arrow cs else none

abbrev pub attached_target : Code → Option Code
attached_target word = attached_from (drop_digits word)

abbrev pub powershell_write_cmdlets : List Code
powershell_write_cmdlets = codes "set-content" ∷ codes "out-file" ∷ codes "add-content" ∷ []

abbrev pub interpreter_wrapper_heads : List Code
interpreter_wrapper_heads =
    codes "bash"
    ∷ codes "sh"
    ∷ codes "zsh"
    ∷ codes "dash"
    ∷ codes "ksh"
    ∷ codes "pwsh"
    ∷ codes "pwsh.exe"
    ∷ codes "powershell"
    ∷ codes "powershell.exe"
    ∷ codes "cmd"
    ∷ codes "cmd.exe"
    ∷ []

abbrev pub read_only_commands : List Code
read_only_commands =
    codes "cat"
    ∷ codes "grep"
    ∷ codes "egrep"
    ∷ codes "fgrep"
    ∷ codes "rg"
    ∷ codes "ls"
    ∷ codes "dir"
    ∷ codes "head"
    ∷ codes "tail"
    ∷ codes "wc"
    ∷ codes "find"
    ∷ codes "less"
    ∷ codes "more"
    ∷ codes "stat"
    ∷ codes "file"
    ∷ codes "diff"
    ∷ codes "echo"
    ∷ codes "pwd"
    ∷ codes "which"
    ∷ codes "type"
    ∷ codes "printf"
    ∷ codes "du"
    ∷ codes "df"
    ∷ codes "tree"
    ∷ []

abbrev pub plain_runners : List Code
plain_runners = codes "node" ∷ codes "npm" ∷ codes "npx" ∷ codes "git" ∷ []

abbrev pub first_word : List Code → Code
first_word [] = []
first_word (w ∷ ws) = w

-- The fragments of a word between the characters that pass a test.
abbrev cons_first : ℕ → List Code → List Code
cons_first c [] = (c ∷ []) ∷ []
cons_first c (w ∷ ws) = (c ∷ w) ∷ ws

unfoldable pub split_where : (ℕ → Bool) → Code → List Code
split_where test [] = [] ∷ []
split_where test (c ∷ cs) =
    let parts = split_where test cs in if test c then [] ∷ parts else cons_first c parts

abbrev is_separator : ℕ → Bool
is_separator c = c == b'"' || c == b'\'' || is_space c || c == 92

module _ (to_lower_case : Code → Code) where
  -- A redirect as a word of its own, with its target after it.
  unfoldable pub redirects : List Code → Bool
  redirects [] = false
  redirects (w ∷ ws) =
      (is_redirect w && not (is_empty ws) && is_write_target_token to_lower_case (first_word ws))
      || redirects ws

  abbrev pub is_attached_write : Option Code → Bool
  is_attached_write none = false
  is_attached_write (some target) = is_write_target_token to_lower_case target

  -- `tokenNamesWriteTarget`. An empty fragment is never a target.
  unfoldable pub names_write_target : Code → Bool
  names_write_target word =
      is_write_target_token to_lower_case word
      || any (λ part. not (is_empty part) && is_write_target_token to_lower_case part)
          (split_where is_separator word)

  abbrev pub is_head : List Code → String → Bool
  is_head (w ∷ ws) name = code_eq (to_lower_case w) (codes name)
  is_head [] name = code_eq (to_lower_case []) (codes name)

  abbrev pub tail : List Code → List Code
  tail [] = []
  tail (w ∷ ws) = ws

  -- A segment that writes, by its command.
  unfoldable pub segment_writes : List Code → Bool
  segment_writes words =
      let rest = tail words in
      includes_code interpreter_wrapper_heads (to_lower_case (first_word words))
      || (is_head words "sed" && any (starts_with (codes "-i")) rest)
      || (is_head words "perl" && any (starts_with (codes "-i")) rest)
      || ((is_head words "python" || is_head words "python3") && includes_code rest (codes "-c"))
      || (is_head words "node" && any (includes_code (codes "-e" ∷ codes "--eval" ∷ [])) rest)
      || (is_head words "git" && code_eq (to_lower_case (first_word rest)) (codes "apply"))
      || is_head words "patch"
      || (is_head words "tee" && any (is_write_target_token to_lower_case) rest)
      || ((is_head words "mv" || is_head words "cp")
          && any (is_write_target_token to_lower_case) rest)

  -- A segment that is no write, and whose command is not known to be benign.
  unfoldable pub segment_unknown : List Code → Bool
  segment_unknown words =
      let head = to_lower_case (first_word words) in
      not (includes_code read_only_commands head) && not (includes_code plain_runners head)

  -- `shellWritesSource`, on the segments and whether a quote stays open.
  unfoldable pub writes_source : List (List Code) → Bool → Bool
  writes_source segments unbalanced =
      let words = concat segments in
      redirects words
      || any (λ w. is_attached_write (attached_target w)) words
      || any (λ w. includes_code powershell_write_cmdlets (to_lower_case w)) words
      || any segment_writes segments
      || ((any segment_unknown segments || unbalanced) && any names_write_target words)

  unfoldable pub shell_writes_source : Code → Bool
  shell_writes_source command =
      let (segments, unbalanced) = split_shell_segments command in
      if is_empty (concat segments) then false else writes_source segments unbalanced

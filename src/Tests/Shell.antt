-- ===== src/Tests/Shell.antt =====
-- The analysis of shell commands.
use devmate.Prelude.{ℕ, ◌+◌, true, false, ◌&&◌, ◌∷◌, ◌++◌, ◌≡◌, refl, inr, map, leb, if◌then◌else◌}
use devmate.Prelude.Codes.{codes}
use devmate.Glob.{Code, forward_slashes}
use devmate.EditGuard.Tools.{is_source_path_token, is_session_artifact_token, is_write_target_token}
use devmate.EditGuard.Segments.{
  in_double, in_single, outside, scan_char, scan_from, split_shell_segments,
}
use devmate.EditGuard.Segments.Chains.{IsClosed, scan_to}
use devmate.EditGuard.Shell.{
  drop_digits, names_write_target, redirects, segment_unknown, segment_writes, shell_writes_source,
  split_where, writes_source,
}
use devmate.EditGuard.Shell.Writes.{shell_writes_source-joined}

abbrev lower_unit : ℕ → ℕ
lower_unit c = if leb 65 c && leb c 90 then c + 32 else c

abbrev lower : Code → Code
lower = map lower_unit

in_place_edit : shell_writes_source lower (codes "sed -i 's/a/b/' src/a.js") ≡ true
unfolding shell_writes_source writes_source split_shell_segments scan_from scan_char in_single
    in_double outside redirects drop_digits segment_writes segment_unknown names_write_target
    split_where is_write_target_token is_source_path_token is_session_artifact_token forward_slashes
in_place_edit = refl

redirect_write : shell_writes_source lower (codes "echo x 2>> src/a.js") ≡ true
unfolding shell_writes_source writes_source split_shell_segments scan_from scan_char in_single
    in_double outside redirects drop_digits segment_writes segment_unknown names_write_target
    split_where is_write_target_token is_source_path_token is_session_artifact_token forward_slashes
redirect_write = refl

quoted_arrow : shell_writes_source lower (codes "git commit -m \"renamed > foo.mjs\"") ≡ false
unfolding shell_writes_source writes_source split_shell_segments scan_from scan_char in_single
    in_double outside redirects drop_digits segment_writes segment_unknown names_write_target
    split_where is_write_target_token is_source_path_token is_session_artifact_token forward_slashes
quoted_arrow = refl

harmless_tee : shell_writes_source lower (codes "npm test 2>&1 | tee results.log") ≡ false
unfolding shell_writes_source writes_source split_shell_segments scan_from scan_char in_single
    in_double outside redirects drop_digits segment_writes segment_unknown names_write_target
    split_where is_write_target_token is_source_path_token is_session_artifact_token forward_slashes
harmless_tee = refl

open_quote : shell_writes_source lower (codes "cat 'src/a.js") ≡ true
unfolding shell_writes_source writes_source split_shell_segments scan_from scan_char in_single
    in_double outside redirects drop_digits segment_writes segment_unknown names_write_target
    split_where is_write_target_token is_source_path_token is_session_artifact_token forward_slashes
open_quote = refl

plain_test : shell_writes_source lower (codes "npm test && ls") ≡ false
unfolding shell_writes_source writes_source split_shell_segments scan_from scan_char in_single
    in_double outside redirects drop_digits segment_writes segment_unknown names_write_target
    split_where is_write_target_token is_source_path_token is_session_artifact_token forward_slashes
plain_test = refl

abbrev listing : Code
listing = codes "ls -la "

listing-IsClosed : IsClosed listing
unfolding scan_to scan_char in_single in_double outside
listing-IsClosed = (refl, refl)

patch_writes : shell_writes_source lower (codes " git apply p.diff") ≡ true
unfolding shell_writes_source writes_source split_shell_segments scan_from scan_char in_single
    in_double outside redirects drop_digits segment_writes segment_unknown names_write_target
    split_where is_write_target_token is_source_path_token is_session_artifact_token forward_slashes
patch_writes = refl

shell_writes_source-joined_example :
    shell_writes_source lower (listing ++ b';' ∷ codes " git apply p.diff") ≡ true
shell_writes_source-joined_example =
    shell_writes_source-joined lower listing (codes " git apply p.diff") listing-IsClosed
      (inr patch_writes)

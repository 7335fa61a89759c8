-- ===== src/Tests/Glob.antt =====
-- Globs and paths.
use devmate.Prelude.{suc, ◌+◌, [], ◌∷◌, ◌≡◌, refl, ◌↔◌, true, false, some, length}
use devmate.Glob.{
  match_glob, split_slash, forward_slashes, segment_loop, pow3, same_code, match_segment,
  match_segments, match_head, any_suffix,
}
use devmate.Glob.Segment.{match_code}
use devmate.Glob.Worklist.{segment_loop-match_code}
use devmate.Glob.Relation.{PathMatches, match_glob_iff}
use devmate.Tests.Samples.{codes}

globs :
    (match_glob (codes "src/**/*.mjs") (codes "src/a/b.mjs") ≡ true)
    × (match_glob (codes "src/**/*.mjs") (codes "src\\b.mjs") ≡ true)
    × (match_glob (codes "src/*.mjs") (codes "src/a/b.mjs") ≡ false)
unfolding match_glob match_segments match_segment split_slash forward_slashes same_code match_head
    any_suffix
globs = (refl, refl, refl)

match_glob_iff_example :
    (match_glob (codes "src/**") (codes "src/a/b") ≡ true)
    ↔ PathMatches
        (split_slash (forward_slashes (codes "src/**")))
        (split_slash (forward_slashes (codes "src/a/b")))
match_glob_iff_example = match_glob_iff (codes "src/**") (codes "src/a/b")

segment_loop-match_code_example :
    segment_loop
      (suc (pow3 (suc (length (codes "*.m?s") + length (codes "a.mjs")))))
      (codes "*.m?s")
      (codes "a.mjs")
      ((0, 0) ∷ [])
    ≡ some (match_code (codes "*.m?s") (codes "a.mjs"))
segment_loop-match_code_example = segment_loop-match_code (codes "*.m?s") (codes "a.mjs")

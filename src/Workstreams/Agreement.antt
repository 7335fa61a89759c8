-- ===== src/Workstreams/Agreement.antt =====
-- The partition and the edit boundary read a persona alike.
use devmate.Prelude.{String, List, [], ◌∷◌, ◌||◌, none, some, ◌≡◌, refl, arith, any}
use devmate.Glob.{Code, match_glob, forward_slashes}
use devmate.Ownership.{
  Persona, no_globs, find_persona, matches_relative, persona_glob_match, owns, owns_file,
}
use devmate.Workstreams.{matches_persona, edits}

any-relative :
    (normalized : Code) (globs : List Code)
    → any (λ g. match_glob g normalized || matches_relative g none) globs
      ≡ any (λ g. match_glob g normalized) globs
any-relative normalized [] = refl
any-relative normalized (g ∷ globs) = ground (arith, any-relative normalized globs)

persona_glob_match-any :
    (p : Persona) (file : Code) (globs : List Code)
    → p.repo ≡ none
    → persona_glob_match p file globs ≡ any (λ g. match_glob g (forward_slashes file)) globs
unfolding persona_glob_match
persona_glob_match-any p file globs single =
    rw (single, persona_glob_match) (any-relative (forward_slashes file) globs)

owns-matches_persona :
    (p : Persona) (file : Code) → p.repo ≡ none → owns (some p) file ≡ matches_persona p file
unfolding owns matches_persona
owns-matches_persona p file single =
    let on = persona_glob_match-any p file p.editable_globs single in
    let off = persona_glob_match-any p file (no_globs p.off_limits_globs) single in
    ground (arith, on, off)

-- A persona that targets no repository of its own owns, for the edit boundary, exactly the files
-- that the partition of the workstreams gives it.
pub owns_file-edits :
    (name : String) (personas : List Persona) (p : Persona) (file : Code)
    → find_persona name personas ≡ some p
    → p.repo ≡ none
    → owns_file name file personas ≡ edits (find_persona name personas) file
unfolding owns_file edits
owns_file-edits name personas p file is_found single =
    rw is_found (owns-matches_persona p file single)

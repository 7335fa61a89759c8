-- ===== src/Ownership.antt =====
-- Who may edit a file: `ownsFile`, `personaGlobMatch` and `filesOutsidePersonaScope` of
-- lib/gate-guard-core.mjs.
pub mod Boundary
use devmate.Prelude.{
  ℕ, String, List, [], ◌∷◌, ◌++◌, Bool, true, false, not, ◌&&◌, ◌||◌, Option, none, some,
  if◌then◌else◌, ◌==◌, all, any, keep,
}
use devmate.Prelude.Text.{str_eq, is_space}
use devmate.Glob.{Code, forward_slashes, match_glob}

-- `PersonaEntry`, of which the guard and the partition read this much.
pub record Persona : Type 0 where
  pub persona : String
  pub editable_globs : List Code
  pub off_limits_globs : Option (List Code)
  pub repo : Option Code

abbrev pub no_globs : Option (List Code) → List Code
no_globs none = []
no_globs (some globs) = globs

-- `personas.find((p) => p.persona === name)`.
unfoldable pub find_persona : String → List Persona → Option Persona
find_persona name [] = none
find_persona name (p ∷ personas) =
    if str_eq p.persona name then some p else find_persona name personas

-- The repository with a slash at its end, and nothing for none.
abbrev ends_in_slash : Code → Bool
ends_in_slash [] = false
ends_in_slash (c ∷ []) = c == 47
ends_in_slash (_ ∷ d ∷ cs) = ends_in_slash (d ∷ cs)

abbrev pub repo_prefix : Option Code → Code
repo_prefix none = []
repo_prefix (some []) = []
repo_prefix (some (c ∷ cs)) = if ends_in_slash (c ∷ cs) then c ∷ cs else (c ∷ cs) ++ 47 ∷ []

-- What follows the prefix, where the path starts with it.
abbrev after_prefix : Code → Code → Option Code
after_prefix [] path = some path
after_prefix (_ ∷ _) [] = none
after_prefix (p ∷ ps) (c ∷ cs) = let rest = after_prefix ps cs in if p == c then rest else none

abbrev pub repo_relative : Code → Code → Option Code
repo_relative [] path = none
repo_relative (p ∷ ps) path = after_prefix (p ∷ ps) path

abbrev pub matches_relative : Code → Option Code → Bool
matches_relative g none = false
matches_relative g (some path) = match_glob g path

-- `personaGlobMatch`.
unfoldable pub persona_glob_match : Persona → Code → List Code → Bool
persona_glob_match entry file globs =
    let normalized = forward_slashes file in
    let relative = repo_relative (repo_prefix entry.repo) normalized in
    any (λ g. match_glob g normalized || matches_relative g relative) globs

unfoldable pub owns : Option Persona → Code → Bool
owns none file = false
owns (some entry) file =
    if not (persona_glob_match entry file entry.editable_globs)
    then false
    else not (persona_glob_match entry file (no_globs entry.off_limits_globs))

-- `ownsFile`.
unfoldable pub owns_file : String → Code → List Persona → Bool
owns_file persona file personas = owns (find_persona persona personas) file

unfoldable pub is_off_limits : Option Persona → Code → Bool
is_off_limits none file = false
is_off_limits (some entry) file = persona_glob_match entry file (no_globs entry.off_limits_globs)

unfoldable pub owned_by_other : String → Code → List Persona → Bool
owned_by_other persona file personas =
    any (λ q. not (str_eq q.persona persona) && owns_file q.persona file personas) personas

abbrev pub is_blank_path : Code → Bool
is_blank_path = all is_space

-- One round of the loop: whether the file is pushed onto the violations.
unfoldable pub is_outside : String → List Persona → Code → Bool
is_outside persona personas file =
    if is_blank_path file
    then false
    else if owns_file persona file personas
    then false
    else is_off_limits (find_persona persona personas) file || owned_by_other persona file personas

-- `filesOutsidePersonaScope`.
unfoldable pub files_outside_persona_scope : String → List Code → List Persona → List Code
files_outside_persona_scope persona files personas = keep (is_outside persona personas) files

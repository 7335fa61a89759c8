-- ===== src/Ownership/Boundary.antt =====
-- What the edit boundary of a persona means.
use text.Mathlib.TextEquality.{eq_iff}
use devmate.Prelude.{
  String, List, [], ◌∷◌, Bool, true, false, not, ◌&&◌, ◌||◌, Option, none, some, ◌≡◌, ◌≢◌, refl,
  ◌↔◌, ◌⊎◌, inl, inr, arith, All, Any, Bool-cases,
}
use devmate.Prelude.Text.{str_eq}
use devmate.Prelude.Search.{any-Any_iff, not_iff}
use devmate.Glob.{Code, forward_slashes, match_glob}
use devmate.Ownership.{
  Persona, no_globs, find_persona, repo_prefix, repo_relative, matches_relative, persona_glob_match,
  owns, owns_file, owned_by_other, is_off_limits, is_blank_path, is_outside,
  files_outside_persona_scope,
}

-- The path within the persona's repository matches, where there is one.
abbrev pub MatchesWithin : Code → Option Code → Type 0
MatchesWithin g none = ⊥
MatchesWithin g (some path) = match_glob g path ≡ true

-- Some glob matches the file, from the workspace or from the persona's repository.
abbrev pub Matches : Persona → Code → List Code → Type 0
Matches entry file globs =
    Any
      (λ g.
        (match_glob g (forward_slashes file) ≡ true)
        ⊎ MatchesWithin g (repo_relative (repo_prefix entry.repo) (forward_slashes file)))
      globs

-- A persona that is there owns what its editable globs match and its other globs do not.
abbrev pub Owns : Option Persona → Code → Type 0
Owns none file = ⊥
Owns (some entry) file =
    Matches entry file entry.editable_globs × ¬ Matches entry file (no_globs entry.off_limits_globs)

abbrev pub OffLimits : Option Persona → Code → Type 0
OffLimits none file = ⊥
OffLimits (some entry) file = Matches entry file (no_globs entry.off_limits_globs)

abbrev pub OwnedByOther : String → Code → List Persona → Type 0
OwnedByOther persona file personas =
    Any (λ q. (q.persona ≢ persona) × Owns (find_persona q.persona personas) file) personas

-- A changed file is within the boundary of a persona.
abbrev pub IsWithin : String → List Persona → Code → Type 0
IsWithin persona personas file =
    (is_blank_path file ≡ true)
    ⊎ Owns (find_persona persona personas) file
    ⊎ (¬ OffLimits (find_persona persona personas) file × ¬ OwnedByOther persona file personas)

or_iff : {P Q : Type 0} (a b : Bool) → (a ≡ true) ↔ P → (b ≡ true) ↔ Q → (a || b ≡ true) ↔ (P ⊎ Q)
or_iff true b (f, g) q = (λ _. inl (f refl), λ _. refl)
or_iff false b (f, g) (f', g') = (λ h. inr (f' h), λ p. elim p [ inl x ↦ cc (g x) | inr y ↦ g' y ])

and_iff : {P Q : Type 0} (a b : Bool) → (a ≡ true) ↔ P → (b ≡ true) ↔ Q → (a && b ≡ true) ↔ (P × Q)
and_iff true b (f, g) (f', g') = (λ h. (f refl, f' h), λ (_, y). g' y)
and_iff false b (f, g) q = (λ h. cc, λ (x, _). g x)

matches_relative_iff :
    (g : Code) (relative : Option Code)
    → (matches_relative g relative ≡ true) ↔ MatchesWithin g relative
matches_relative_iff g none = (λ h. cc, λ h. absurd h)
matches_relative_iff g (some path) = (λ h. h, λ h. h)

persona_glob_match_iff :
    (entry : Persona) (file : Code) (globs : List Code)
    → (persona_glob_match entry file globs ≡ true) ↔ Matches entry file globs
unfolding persona_glob_match
persona_glob_match_iff entry file globs =
    let path = forward_slashes file in
    let relative = repo_relative (repo_prefix entry.repo) path in
    any-Any_iff (λ g. match_glob g path || matches_relative g relative)
      (λ g. (match_glob g path ≡ true) ⊎ MatchesWithin g relative) globs
      (λ g.
        or_iff (match_glob g path) (matches_relative g relative) (λ h. h, λ h. h)
          (matches_relative_iff g relative))

owns_iff : (entry : Option Persona) (file : Code) → (owns entry file ≡ true) ↔ Owns entry file
unfolding owns
owns_iff none file = (λ h. cc, λ h. absurd h)
owns_iff (some entry) file =
    let editable = persona_glob_match_iff entry file entry.editable_globs in
    let limits = persona_glob_match_iff entry file (no_globs entry.off_limits_globs) in
    elim (Bool-cases (persona_glob_match entry file entry.editable_globs)) [
      | inl e ↦
          let off = not_iff _ limits in
          rw e ((λ h. (editable.0 e, off.0 (ground arith)), λ (_, n). ground (arith, off.1 n)))
      | inr e ↦ rw e ((λ h. cc), λ (m, _). cc (editable.1 m, e))
    ]

is_off_limits_iff :
    (entry : Option Persona) (file : Code)
    → (is_off_limits entry file ≡ true) ↔ OffLimits entry file
unfolding is_off_limits
is_off_limits_iff none file = (λ h. cc, λ h. absurd h)
is_off_limits_iff (some entry) file =
    persona_glob_match_iff entry file (no_globs entry.off_limits_globs)

owned_by_other_iff :
    (persona : String) (file : Code) (personas : List Persona)
    → (owned_by_other persona file personas ≡ true) ↔ OwnedByOther persona file personas
unfolding owned_by_other owns_file
owned_by_other_iff persona file personas =
    any-Any_iff (λ q. not (str_eq q.persona persona) && owns (find_persona q.persona personas) file)
      (λ q. (q.persona ≢ persona) × Owns (find_persona q.persona personas) file) personas
      (λ q.
        and_iff (not (str_eq q.persona persona)) (owns (find_persona q.persona personas) file)
          (differ_iff q.persona persona) (owns_iff (find_persona q.persona personas) file))
  where
    differ_iff : (a b : String) → (not (str_eq a b) ≡ true) ↔ (a ≢ b)
    differ_iff a b =
        let (f, g) = not_iff (str_eq a b) (eq_iff a b) in
        ((λ h. f (ground arith)), λ n. ground (arith, g n))

is_outside-IsWithin_iff :
    (persona : String) (personas : List Persona) (file : Code)
    → (is_outside persona personas file ≡ false) ↔ IsWithin persona personas file
unfolding is_outside owns_file
is_outside-IsWithin_iff persona personas file =
    let found = find_persona persona personas in
    let own = owns_iff found file in
    elim (Bool-cases (is_blank_path file)) [
      | inl blank ↦ rw blank ((λ _. inl refl), λ _. refl)
      | inr written ↦ elim (Bool-cases (owns found file)) [
        | inl yours ↦ rw (written, yours) ((λ _. inr (inl (own.0 yours))), λ _. refl)
        | inr foreign ↦
            let off = not_iff _ (is_off_limits_iff found file) in
            let other = not_iff _ (owned_by_other_iff persona file personas) in
            rw (written, foreign)
              (
                (λ h. inr (inr (off.0 (ground arith), other.0 (ground arith)))),
                λ p. elim p [
                  | inl b ↦ cc
                  | inr q ↦ elim q [
                    | inl o ↦ absurd ((not_iff _ own).0 foreign o)
                    | inr (n, m) ↦ ground (arith, off.1 n, other.1 m)
                  ]
                ],
              )
      ]
    ]

-- The check of a dispatch finds no violation exactly where every changed file has a blank name; or the
-- persona's editable globs match it and its off-limits globs do not; or its off-limits globs do not
-- match it, and no persona of another name owns it.
pub files_outside_persona_scope-IsWithin_iff :
    (persona : String) (files : List Code) (personas : List Persona)
    → (files_outside_persona_scope persona files personas ≡ [])
      ↔ All (IsWithin persona personas) files
unfolding files_outside_persona_scope
files_outside_persona_scope-IsWithin_iff persona [] personas = ((λ _. tt), λ _. refl)
files_outside_persona_scope-IsWithin_iff persona (file ∷ files) personas =
    let (f, g) = files_outside_persona_scope-IsWithin_iff persona files personas in
    let (f', g') = is_outside-IsWithin_iff persona personas file in
    elim (Bool-cases (is_outside persona personas file)) [
      | inl out ↦ rw out ((λ h. cc), λ (within, _). cc (g' within, out))
      | inr inside ↦ rw inside ((λ h. (f' inside, f h)), λ (_, rest). g rest)
    ]

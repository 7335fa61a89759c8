-- ===== src/EditGuard/Protection.antt =====
-- How an artifact's path may be spelled, and what the guard protects by default.
use mathlib.Core.List.{map-append}
use devmate.Prelude.{
  ℕ, [], ◌∷◌, ◌++◌, true, ◌&&◌, some, ◌≡◌, ◌≢◌, refl, ap, ◌∙◌, ◌⊎◌, inl, inr, arith, Bool-cases,
  Option-cases, map, ◌==◌,
}
use devmate.Prelude.Codes.{codes, starts_with, strip_dot_slash}
use devmate.Glob.{Code, forward, forward_slashes}
use devmate.EditGuard.Artifacts.{marker_tail, or_all, normalize_artifact_path}

-- The last marker of a tail is the last of the whole.
marker_tail-append : (r s t : Code) → marker_tail s ≡ some t → marker_tail (r ++ s) ≡ some t
unfolding marker_tail
marker_tail-append [] s t h = h
marker_tail-append (c ∷ r) s t h = rw (marker_tail-append r s t h) refl

marker_tail-here :
    (y : Code)
    → starts_with (codes ".devmate/") y ≡ true
    → marker_tail (47 ∷ y) ≡ some (or_all (marker_tail y) y)
unfolding marker_tail
marker_tail-here y h = elim (Option-cases (marker_tail y)) [
  | inl e ↦ simp (e, h)
  | inr (t, e) ↦ simp (e, h)
]

-- Stripping `./` leaves what follows a slash: behind the slash, or alone where `.` stood before it.
strip_dot_slash-append :
    (r f : Code)
    → ((r' : Code) × (strip_dot_slash (r ++ 47 ∷ f) ≡ r' ++ 47 ∷ f))
      ⊎ (strip_dot_slash (r ++ 47 ∷ f) ≡ f)
strip_dot_slash-append [] [] = inl ([], refl)
strip_dot_slash-append [] (d ∷ f) = inl ([], refl)
strip_dot_slash-append (c ∷ []) f = elim (Bool-cases (c == 46)) [
  | inl h ↦ inr (rw h refl)
  | inr h ↦ inl (c ∷ [], rw h refl)
]
strip_dot_slash-append (c ∷ d ∷ r) f = elim (Bool-cases (c == 46 && d == 47)) [
  | inl h ↦ inl (r, rw h refl)
  | inr h ↦ inl (c ∷ d ∷ r, rw h refl)
]

module _ (low : ℕ → ℕ) (low_slash : low 47 ≡ 47) where
  -- A path that begins with the marker's name does not begin with `./`.
  strip_dot_slash-marked :
      (x : Code) → starts_with (codes ".devmate/") (map low x) ≡ true → strip_dot_slash x ≡ x
  strip_dot_slash-marked [] h = refl
  strip_dot_slash-marked (c ∷ []) h = refl
  strip_dot_slash-marked (c ∷ d ∷ x) h = elim (Bool-cases (c == 46 && d == 47)) [
    | inl e ↦ absurd (no_slash h (ap low (is_slash e) ∙ low_slash))
    | inr e ↦ rw e refl
  ]
    where
      is_slash : c == 46 && d == 47 ≡ true → d ≡ 47
      is_slash e = ground (arith, e)

      no_slash : starts_with (codes ".devmate/") (map low (c ∷ d ∷ x)) ≡ true → low d ≢ 47
      no_slash h e = ground (arith, h, e)

  -- The marker's last tail, of a path behind any directory.
  or_all-behind :
      (r' f : Code)
      → starts_with (codes ".devmate/") (map low f) ≡ true
      → or_all (marker_tail (map low (r' ++ 47 ∷ f))) (map low (r' ++ 47 ∷ f))
        ≡ or_all (marker_tail (map low f)) (map low f)
  or_all-behind r' f h =
      rw
        (
          map-append low r' (47 ∷ f),
          low_slash,
          marker_tail-append (map low r') (47 ∷ map low f) _ (marker_tail-here (map low f) h),
        )
        refl

  -- What `toLowerCase` makes of the text that the guard gives it, unit by unit.
  abbrev pub Lowers : (Code → Code) → Code → Type 0
  Lowers to_lower_case path =
      to_lower_case (strip_dot_slash (forward_slashes path))
      ≡ map low (strip_dot_slash (forward_slashes path))

  -- Let a path begin with `.devmate/`, in any case and with any slashes, and let `toLowerCase` lower
  -- it unit by unit. Then its spelling behind any directory, with slashes and cases of its own, has
  -- the same normal form.
  pub normalize_artifact_path-behind :
      (to_lower_case : Code → Code) (p q root : Code) (sep : ℕ)
      → forward sep ≡ 47
      → starts_with (codes ".devmate/") (map low (forward_slashes p)) ≡ true
      → map low (forward_slashes q) ≡ map low (forward_slashes p)
      → Lowers to_lower_case p
      → Lowers to_lower_case (root ++ sep ∷ q)
      → normalize_artifact_path to_lower_case (root ++ sep ∷ q)
        ≡ normalize_artifact_path to_lower_case p
  unfolding normalize_artifact_path forward_slashes
  normalize_artifact_path-behind to_lower_case p q root sep slash marked same low_p low_q =
      rw
        (
          low_p,
          low_q,
          strip_dot_slash-marked (map forward p) marked,
          map-append forward root (sep ∷ q),
          slash,
        )
        (elim (strip_dot_slash-append (map forward root) (map forward q)) [
          | inl (r', e) ↦ rw (e, or_all-behind r' (map forward q) (rw same marked), same) refl
          | inr e ↦ rw (e, same) refl
        ])

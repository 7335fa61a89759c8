-- ===== src/Glob/Segment.antt =====
-- The worklist of `matchSegment` computes the structural matching of a segment.
use devmate.Prelude.{
  ℕ, zero, suc, ◌≤◌, ◌<◌, List, [], ◌∷◌, Bool, true, false, ◌&&◌, ◌||◌, none, some, if◌then◌else◌,
  ◌==◌, ltb, leb, length, is_empty, any, ◌≡◌, refl, arith, Bool-cases, ◌⊎◌, inl, inr,
}
use devmate.Glob.{Code, Position, get_elem?, successors, any_suffix}

-- The reference: `*` takes any number of characters, `?` takes one, any other takes itself.
unfoldable pub match_one : ℕ → (Code → Bool) → Code → Bool
match_one p rest [] = false
match_one p rest (c ∷ cs) = (p == 63 || p == c) && rest cs

unfoldable pub match_code : Code → Code → Bool
match_code [] f = is_empty f
match_code (p ∷ ps) f =
    let here = any_suffix (match_code ps) f in
    let next = match_one p (match_code ps) f in if p == 42 then here else next

drop {ℓ} : {A : Type ℓ} → List A → ℕ → List A
drop xs zero = xs
drop [] (suc n) = []
drop (x ∷ xs) (suc n) = drop xs n

-- At a position the list goes on with what stands there, or ends.
drop-cases :
    (xs : Code) (i : ℕ)
    → i ≤ length xs
    → ((drop xs i ≡ []) × (get_elem? xs i ≡ none) × (i ≡ length xs))
      ⊎ ((x : ℕ) × (drop xs i ≡ x ∷ drop xs (suc i)) × (get_elem? xs i ≡ some x) × (i < length xs))
unfolding drop get_elem?
drop-cases [] zero h = inl (refl, refl, refl)
drop-cases [] (suc i) h = absurd (omega arith)
drop-cases (x ∷ xs) zero h = inr (x, refl, refl, omega arith)
drop-cases (x ∷ xs) (suc i) h = elim (drop-cases xs i (omega arith)) [
  | inl (a, b, c) ↦ inl (a, b, omega arith)
  | inr (y, a, b, c) ↦ inr (y, a, b, omega arith)
]

drop-length : (xs : Code) → drop xs (length xs) ≡ []
unfolding drop
drop-length [] = refl
drop-length (x ∷ xs) = drop-length xs

module _ (p f : Code) where
  -- What is left at a position matches; no position lies beyond the ends.
  pub accepts : Position → Bool
  accepts (i, j) = leb i (length p) && leb j (length f) && match_code (drop p i) (drop f j)

  pub accepts-step :
      (i j : ℕ)
      → i ≤ length p
      → j ≤ length f
      → (i == length p && j == length f) ≡ false
      → accepts (i, j) ≡ any accepts (successors (get_elem? p i) (get_elem? f j) i j)
  unfolding accepts successors match_code match_one any_suffix
  accepts-step i j hi hj more = elim (drop-cases p i hi) [
    | inl (dp, gp, ep) ↦ elim (drop-cases f j hj) [
      | inl (df, gf, ef) ↦ absurd (ground arith)
      | inr (c, df, gf, lf) ↦ rw (dp, gp, df) (ground arith)
    ]
    | inr (pc, dp, gp, lp) ↦ elim (drop-cases f j hj) [
      | inl (df, gf, ef) ↦ elim (Bool-cases (pc == 42)) [
        | inl star ↦ rw (dp, gp, gf, star) (rw df (ground arith))
        | inr other ↦ rw (dp, gp, gf, other) (rw df (ground arith))
      ]
      | inr (c, df, gf, lf) ↦ elim (Bool-cases (pc == 42)) [
        | inl star ↦ rw (dp, gp, gf, star) (rw df (ground arith))
        | inr other ↦ elim (Bool-cases (pc == 63 || pc == c)) [
          | inl one ↦ rw (dp, gp, gf, other, one) (rw df (ground arith))
          | inr wrong ↦ rw (dp, gp, gf, other, wrong) (rw df (ground arith))
        ]
      ]
    ]
  ]

  pub accepts-end : (i j : ℕ) → (i == length p && j == length f) ≡ true → accepts (i, j) ≡ true
  unfolding accepts match_code
  accepts-end i j h =
      let a : i ≡ length p = ground arith in
      let b : j ≡ length f = ground arith in rw (a, b, drop-length p, drop-length f) (ground arith)

  pub accepts-beyond :
      (i j : ℕ) → (ltb (length p) i || ltb (length f) j) ≡ true → accepts (i, j) ≡ false
  unfolding accepts
  accepts-beyond i j h = ground arith

  pub accepts-start : accepts (0, 0) ≡ match_code p f
  unfolding accepts drop
  accepts-start = ground arith

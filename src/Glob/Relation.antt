-- ===== src/Glob/Relation.antt =====
-- What a glob pattern means, as inductive relations, and that `matchGlob` decides it.
use devmate.Prelude.{
  ℕ, List, [], ◌∷◌, Bool, true, false, ◌==◌, ◌≡◌, refl, ◌≢◌, ◌↔◌, inl, inr, arith, Bool-cases,
}
use devmate.Glob.{
  Code, forward_slashes, split_slash, match_segment, is_globstar, any_suffix, match_head,
  match_segments, match_glob,
}
use devmate.Glob.Segment.{match_one, match_code}
use devmate.Glob.Worklist.{match_segment_lem}

-- One segment: `*` stands for any characters, `?` for one, any other for itself.
pub data SegmentMatches : Code → Code → Type 0 where
  done : SegmentMatches [] []
  star_end : {p : ℕ} {ps f : Code} → p ≡ 42 → SegmentMatches ps f → SegmentMatches (p ∷ ps) f
  star_take :
      {p c : ℕ} {ps f : Code} → p ≡ 42 → SegmentMatches (p ∷ ps) f → SegmentMatches (p ∷ ps) (c ∷ f)
  any_one : {p c : ℕ} {ps f : Code} → p ≡ 63 → SegmentMatches ps f → SegmentMatches (p ∷ ps) (c ∷ f)
  same :
      {p c : ℕ} {ps f : Code}
      → p ≢ 42
      → p ≡ c
      → SegmentMatches ps f
      → SegmentMatches (p ∷ ps) (c ∷ f)

-- A path: the segment `**` stands for any segments, any other for one segment that it matches.
pub data PathMatches : List Code → List Code → Type 0 where
  done : PathMatches [] []
  globstar_end :
      {p : Code} {ps fs : List Code}
      → is_globstar p ≡ true
      → PathMatches ps fs
      → PathMatches (p ∷ ps) fs
  globstar_take :
      {p f : Code} {ps fs : List Code}
      → is_globstar p ≡ true
      → PathMatches (p ∷ ps) fs
      → PathMatches (p ∷ ps) (f ∷ fs)
  segment :
      {p f : Code} {ps fs : List Code}
      → is_globstar p ≡ false
      → SegmentMatches p f
      → PathMatches ps fs
      → PathMatches (p ∷ ps) (f ∷ fs)

SegmentMatches-star :
    (p : ℕ) (ps f : Code)
    → p ≡ 42
    → ((g : Code) → match_code ps g ≡ true → SegmentMatches ps g)
    → any_suffix (match_code ps) f ≡ true
    → SegmentMatches (p ∷ ps) f
unfolding any_suffix
SegmentMatches-star p ps [] e ih h = star_end e (ih [] h)
SegmentMatches-star p ps (c ∷ f) e ih h = elim (Bool-cases (match_code ps (c ∷ f))) [
  | inl now ↦ star_end e (ih (c ∷ f) now)
  | inr later ↦ star_take e (SegmentMatches-star p ps f e ih (ground arith))
]

SegmentMatches-one :
    (p : ℕ) (ps f : Code)
    → p ≢ 42
    → ((g : Code) → match_code ps g ≡ true → SegmentMatches ps g)
    → match_one p (match_code ps) f ≡ true
    → SegmentMatches (p ∷ ps) f
unfolding match_one
SegmentMatches-one p ps [] e ih h = cc
SegmentMatches-one p ps (c ∷ f) e ih h =
    let rest = ih f (ground arith) in
    elim (Bool-cases (p == 63)) [
      | inl question ↦ any_one (ground arith) rest
      | inr other ↦ same e (ground arith) rest
    ]

match_code_sound : (p f : Code) → match_code p f ≡ true → SegmentMatches p f
unfolding match_code
match_code_sound [] [] h = done
match_code_sound [] (c ∷ f) h = cc
match_code_sound (p ∷ ps) f h = elim (Bool-cases (p == 42)) [
  | inl star ↦ SegmentMatches-star p ps f (ground arith) (match_code_sound ps) (rw star at h)
  | inr other ↦ SegmentMatches-one p ps f (λ e. ground arith) (match_code_sound ps) (rw other at h)
]

any_suffix-here {ℓ} :
    {A : Type ℓ} (test : List A → Bool) (xs : List A) → test xs ≡ true → any_suffix test xs ≡ true
unfolding any_suffix
any_suffix-here test [] h = h
any_suffix-here test (x ∷ xs) h = ground arith

match_code_complete : {p f : Code} → SegmentMatches p f → match_code p f ≡ true
unfolding match_code match_one any_suffix
match_code_complete done = refl
match_code_complete (star_end {p} {ps} {f} e m) =
    ground (arith, any_suffix-here (match_code ps) f (match_code_complete m))
match_code_complete (star_take {p} {c} {ps} {f} e m) = ground (arith, match_code_complete m)
match_code_complete (any_one {p} {c} {ps} {f} e m) = ground (arith, match_code_complete m)
match_code_complete (same {p} {c} {ps} {f} n e m) = ground (arith, match_code_complete m)

-- `matchSegment` decides whether a segment matches.
pub match_segment_iff : (p f : Code) → (match_segment p f ≡ true) ↔ SegmentMatches p f
match_segment_iff p f = rw (match_segment_lem p f) (match_code_sound p f, match_code_complete)

PathMatches-globstar :
    (p : Code) (ps fs : List Code)
    → is_globstar p ≡ true
    → ((gs : List Code) → match_segments ps gs ≡ true → PathMatches ps gs)
    → any_suffix (match_segments ps) fs ≡ true
    → PathMatches (p ∷ ps) fs
unfolding any_suffix
PathMatches-globstar p ps [] e ih h = globstar_end e (ih [] h)
PathMatches-globstar p ps (f ∷ fs) e ih h = elim (Bool-cases (match_segments ps (f ∷ fs))) [
  | inl now ↦ globstar_end e (ih (f ∷ fs) now)
  | inr later ↦ globstar_take e (PathMatches-globstar p ps fs e ih (ground arith))
]

PathMatches-segment :
    (p : Code) (ps fs : List Code)
    → is_globstar p ≡ false
    → ((gs : List Code) → match_segments ps gs ≡ true → PathMatches ps gs)
    → match_head p (match_segments ps) fs ≡ true
    → PathMatches (p ∷ ps) fs
unfolding match_head
PathMatches-segment p ps [] e ih h = cc
PathMatches-segment p ps (f ∷ fs) e ih h =
    segment e ((match_segment_iff p f).0 (ground arith)) (ih fs (ground arith))

match_segments_sound : (ps fs : List Code) → match_segments ps fs ≡ true → PathMatches ps fs
unfolding match_segments
match_segments_sound [] [] h = done
match_segments_sound [] (f ∷ fs) h = cc
match_segments_sound (p ∷ ps) fs h = elim (Bool-cases (is_globstar p)) [
  | inl star ↦ PathMatches-globstar p ps fs star (match_segments_sound ps) (rw star at h)
  | inr other ↦ PathMatches-segment p ps fs other (match_segments_sound ps) (rw other at h)
]

match_segments_complete : {ps fs : List Code} → PathMatches ps fs → match_segments ps fs ≡ true
unfolding match_segments match_head any_suffix
match_segments_complete done = refl
match_segments_complete (globstar_end {p} {ps} {fs} e m) =
    rw e (any_suffix-here (match_segments ps) fs (match_segments_complete m))
match_segments_complete (globstar_take {p} {f} {ps} {fs} e m) =
    let ih = match_segments_complete m in rw e (ground arith)
match_segments_complete (segment {p} {f} {ps} {fs} e s m) =
    rw (e, (match_segment_iff p f).1 s) (match_segments_complete m)

-- `matchGlob` decides whether the path matches the pattern, with `\\` read as `/` in both.
pub match_glob_iff :
    (pattern path : Code)
    → (match_glob pattern path ≡ true)
      ↔ PathMatches (split_slash (forward_slashes pattern)) (split_slash (forward_slashes path))
unfolding match_glob
match_glob_iff pattern path = (match_segments_sound _ _, match_segments_complete)

-- ===== src/SpecProgress/Bounds.antt =====
-- What the coverage counts, and what the next number is.
use native.Mathlib.Decide.{ℕ_discrete}
use devmate.Prelude.{
  ℕ, zero, suc, ◌+◌, ◌≤◌, ◌<◌, List, [], ◌∷◌, Bool, true, false, not, ◌&&◌, some, ◌≡◌, ◌≢◌, ◌↔◌,
  refl, sym, ap, ◌∙◌, arith, inl, inr, Bool-cases, all, keep, length, is_empty,
}
use devmate.SpecProgress.{
  Criterion, has, by_id, insert, sort, compute_ac_coverage, next_from, next_ac_number,
}

length-keep_le {ℓ} : {A : Type ℓ} (p : A → Bool) (xs : List A) → length (keep p xs) ≤ length xs
length-keep_le p [] = omega arith
length-keep_le p (x ∷ xs) = ground (arith, length-keep_le p xs)

length-insert : (c : Criterion) (cs : List Criterion) → length (insert c cs) ≡ suc (length cs)
unfolding insert
length-insert c [] = refl
length-insert c (d ∷ cs) = ground (arith, length-insert c cs)

length-sort : (cs : List Criterion) → length (sort cs) ≡ length cs
unfolding sort
length-sort [] = refl
length-sort (c ∷ cs) = length-insert c (sort cs) ∙ ap suc (length-sort cs)

length-by_id_le : (seen : List ℕ) (cs : List Criterion) → length (by_id seen cs) ≤ length cs
unfolding by_id
length-by_id_le seen [] = omega arith
length-by_id_le seen (c ∷ cs) = elim (Bool-cases (has seen c.id)) [
  | inl h ↦ rw (h, by_id) (omega (arith, length-by_id_le seen cs))
  | inr h ↦ rw (h, by_id) (omega (arith, length-by_id_le (c.id ∷ seen) cs))
]

all-insert :
    (p : Criterion → Bool) (c : Criterion) (cs : List Criterion)
    → all p (insert c cs) ≡ (p c && all p cs)
unfolding insert
all-insert p c [] = refl
all-insert p c (d ∷ cs) = ground (arith, all-insert p c cs)

all-sort : (p : Criterion → Bool) (cs : List Criterion) → all p (sort cs) ≡ all p cs
unfolding sort
all-sort p [] = refl
all-sort p (c ∷ cs) = all-insert p c (sort cs) ∙ ap (λ b. p c && b) (all-sort p cs)

has-all :
    (p : ℕ → Bool) (seen : List ℕ) (n : ℕ) → all p seen ≡ true → has seen n ≡ true → p n ≡ true
has-all p [] n h e = cc
has-all p (m ∷ seen) n h e = ground (arith, h, e, has-all p seen n)

all-by_id :
    (p : ℕ → Bool) (seen : List ℕ) (cs : List Criterion)
    → all p seen ≡ true
    → all (λ c. p c.id) (by_id seen cs) ≡ all (λ c. p c.id) cs
unfolding by_id
all-by_id p seen [] h = refl
all-by_id p seen (c ∷ cs) h = elim (Bool-cases (has seen c.id)) [
  | inl e ↦ rw (e, by_id, has-all p seen c.id h e) (all-by_id p seen cs h)
  | inr e ↦
      rw (e, by_id)
        (elim (Bool-cases (p c.id)) [
          | inl t ↦ rw t (all-by_id p (c.id ∷ seen) cs (rw (t, h) refl))
          | inr f ↦ rw f refl
        ])
]

none_kept {ℓ} :
    {A : Type ℓ} (p : A → Bool) (xs : List A) → is_empty (keep (λ x. not (p x)) xs) ≡ all p xs
none_kept p [] = refl
none_kept p (x ∷ xs) = ground (arith, none_kept p xs)

-- The coverage of a spec is complete exactly where the number of every criterion is among the
-- completed ones. The complete and the missing criteria are the total, which is at most the number
-- of criteria in the spec.
pub compute_ac_coverage-bounds :
    (criteria : List Criterion) (ids : List ℕ)
    → ((compute_ac_coverage criteria ids).ok ≡ all (λ c. has ids c.id) criteria)
      × ((compute_ac_coverage criteria ids).completed
            + length (compute_ac_coverage criteria ids).missing
          ≡ (compute_ac_coverage criteria ids).total)
      × ((compute_ac_coverage criteria ids).total ≤ length criteria)
unfolding compute_ac_coverage
compute_ac_coverage-bounds criteria ids =
    let ordered = sort (by_id [] criteria) in
    (
      none_kept (λ c. has ids c.id) ordered
          ∙ all-sort _ (by_id [] criteria)
          ∙ all-by_id (has ids) [] criteria refl,
      omega (arith, length-keep_le (λ c. not (has ids c.id)) ordered),
      omega (arith, length-sort (by_id [] criteria), length-by_id_le [] criteria),
    )

next_from_iff :
    (rounds n : ℕ) (ids : List ℕ) (m : ℕ)
    → (next_from rounds n ids ≡ some m) ↔ (
        (n ≤ m)
        × (m < n + rounds)
        × (has ids m ≡ false)
        × ((k : ℕ) → n ≤ k → k < m → has ids k ≡ true))
unfolding next_from
next_from_iff zero n ids m = (λ e. cc, λ (a, b, _, _). absurd (omega arith))
next_from_iff (suc rounds) n ids m = elim (Bool-cases (has ids n)) [
  | inr h ↦ rw h (
    λ e. rw (sym (same e)) (omega arith, omega arith, h, λ k a b. absurd (omega arith)),
    λ (a, b, f, g). ap some (first a h g),
  )
  | inl h ↦
      let (forth, back) = next_from_iff rounds (suc n) ids m in
      rw h (
        λ e. let (a, b, f, g) = forth e in (omega arith, omega arith, f, λ k c d. below h g k c d),
        λ (a, b, f, g). back (above h a f, omega arith, f, λ k c d. g k (omega arith) d),
      )
]
  where
    same : some n ≡ some m → n ≡ m
    same e = cc

    clash : {b : Bool} → b ≡ true → b ≢ false
    clash t f = cc

    first : n ≤ m → has ids n ≡ false → ((k : ℕ) → n ≤ k → k < m → has ids k ≡ true) → n ≡ m
    first a h g = elim (ℕ_discrete n m) [
      | yes e ↦ e
      | no ne ↦ absurd (clash (g n (omega arith) (omega arith)) h)
    ]

    below :
        has ids n ≡ true
        → ((k : ℕ) → suc n ≤ k → k < m → has ids k ≡ true)
        → (k : ℕ) → n ≤ k
        → k < m
        → has ids k ≡ true
    below h g k c d = elim (ℕ_discrete n k) [ yes e ↦ rw (sym e) h | no ne ↦ g k (omega arith) d ]

    above : has ids n ≡ true → n ≤ m → has ids m ≡ false → suc n ≤ m
    above h a f = elim (ℕ_discrete n m) [
      | yes e ↦ absurd (clash h (ap (has ids) e ∙ f))
      | no ne ↦ omega arith
    ]

-- The next number is the least of 1 to the total that is not completed: `nextAcNumber` gives a number
-- exactly where it is that one.
pub next_ac_number_iff :
    (ids : List ℕ) (total m : ℕ)
    → (next_ac_number ids total ≡ some m) ↔ (
        (1 ≤ m)
        × (m < 1 + total)
        × (has ids m ≡ false)
        × ((k : ℕ) → 1 ≤ k → k < m → has ids k ≡ true))
unfolding next_ac_number
next_ac_number_iff ids total m = next_from_iff total 1 ids m

-- ===== src/Glob/Worklist.antt =====
-- The loop of `matchSegment` ends within its fuel, with the answer of the structural matching.
use devmate.Prelude.{
  ℕ, zero, suc, ◌+◌, ◌-◌, ◌*◌, ◌≤◌, ◌<◌, List, [], ◌∷◌, ◌++◌, Bool, true, ◌&&◌, ◌||◌, Option, none,
  some, ◌==◌, ltb, length, any, ◌≡◌, refl, sym, ap, ◌∙◌, arith, Bool-cases, inl, inr,
}
use devmate.Glob.{
  Code, Position, same_position, add_state, add_states, get_elem?, successors, segment_loop, pow3,
  match_segment, or_false,
}
use devmate.Glob.Segment.{
  match_code, accepts, accepts-step, accepts-end, accepts-beyond, accepts-start,
}

any-append {ℓ} :
    {A : Type ℓ} (q : A → Bool) (xs ys : List A) → any q (xs ++ ys) ≡ (any q xs || any q ys)
any-append q [] ys = refl
any-append q (x ∷ xs) ys = ground (arith, any-append q xs ys)

-- A position that a set already has adds nothing to what it accepts.
any-known :
    (q : Position → Bool) (s : Position) (states : List Position)
    → any (same_position s) states ≡ true
    → (any q states || q s) ≡ any q states
any-known q s [] h = cc
any-known q (i, j) ((k, l) ∷ states) h = elim (Bool-cases (same_position (i, j) (k, l))) [
  | inl same ↦
      let a : i ≡ k = ground arith in let b : j ≡ l = ground arith in rw (a, b) (ground arith)
  | inr other ↦ ground (arith, any-known q (i, j) states)
]

any-add_state :
    (q : Position → Bool) (states : List Position) (s : Position)
    → any q (add_state states s) ≡ (any q states || q s)
unfolding add_state
any-add_state q states s = elim (Bool-cases (any (same_position s) states)) [
  | inl known ↦ rw known (sym (any-known q s states known))
  | inr new ↦ rw new (any-append q states (s ∷ []) ∙ ground arith)
]

any-add_states :
    (q : Position → Bool) (states more : List Position)
    → any q (add_states states more) ≡ (any q states || any q more)
unfolding add_states
any-add_states q states [] = ground arith
any-add_states q states (s ∷ more) =
    any-add_states q (add_state states s) more ∙ ground (arith, any-add_state q states s)

pow3_pos : (n : ℕ) → 0 < pow3 n
unfolding pow3
pow3_pos zero = omega arith
pow3_pos (suc n) = omega (arith, pow3_pos n)

-- How many rounds a set of positions can still cause, for texts of length below `n`.
weight : ℕ → List Position → ℕ
weight n [] = 0
weight n ((i, j) ∷ states) = pow3 (n - (i + j)) + weight n states

weight-append : (n : ℕ) (xs ys : List Position) → weight n (xs ++ ys) ≡ weight n xs + weight n ys
unfolding weight
weight-append n [] ys = omega arith
weight-append n ((i, j) ∷ xs) ys = omega (arith, weight-append n xs ys)

weight-add_state :
    (n : ℕ) (states : List Position) (s : Position)
    → weight n (add_state states s) ≤ weight n states + weight n (s ∷ [])
unfolding add_state
weight-add_state n states s = elim (Bool-cases (any (same_position s) states)) [
  | inl known ↦ rw known (omega arith)
  | inr new ↦ rw new (omega (arith, weight-append n states (s ∷ [])))
]

weight-add_states :
    (n : ℕ) (states more : List Position)
    → weight n (add_states states more) ≤ weight n states + weight n more
unfolding add_states weight
weight-add_states n states [] = omega arith
weight-add_states n states ((i, j) ∷ more) =
    omega
      (arith, weight-add_states n (add_state states (i, j)) more, weight-add_state n states (i, j))

pow3_pred : (n : ℕ) → pow3 (n - 1) ≤ pow3 n
unfolding pow3
pow3_pred zero = omega arith
pow3_pred (suc n) = let e : suc n - 1 ≡ n = omega arith in rw e (omega arith)

pow3_step :
    (n i j : ℕ)
    → i + j < n
    → (pow3 (n - (i + j)) ≡ 3 * pow3 (n - (suc i + j)))
      × (pow3 (n - (i + suc j)) ≡ pow3 (n - (suc i + j)))
      × (pow3 (n - (suc i + suc j)) ≤ pow3 (n - (suc i + j)))
      × (0 < pow3 (n - (suc i + j)))
pow3_step n i j h =
    let k = n - (suc i + j) in
    let a : n - (i + j) ≡ suc k = omega arith in
    let b : n - (i + suc j) ≡ k = omega arith in
    let c : n - (suc i + suc j) ≡ k - 1 = omega arith in
    (rw a (unfold pow3 in refl), rw b, rw c (pow3_pred k), pow3_pos k)

-- The positions that follow one weigh less than it does.
weight-successors :
    (n : ℕ) (pc fc : Option ℕ) (i j : ℕ)
    → i + j < n
    → weight n (successors pc fc i j) < pow3 (n - (i + j))
unfolding successors weight
weight-successors n none fc i j h = pow3_pos _
weight-successors n (some pc) none i j h = ground (arith, pow3_step n i j h, pow3_pos (n - (i + j)))
weight-successors n (some pc) (some c) i j h =
    ground (arith, pow3_step n i j h, pow3_pos (n - (i + j)))

or_swap : (b a c : Bool) → a ≡ c → (b || c) ≡ (a || b)
or_swap b a c h = ground arith

-- With fuel above the weight of the set the loop ends, and says whether a position accepts.
segment_loop-any :
    (p f : Code) (fuel : ℕ) (states : List Position)
    → weight (suc (length p + length f)) states < fuel
    → segment_loop fuel p f states ≡ some (any (accepts p f) states)
unfolding segment_loop
segment_loop-any p f zero states h = absurd (omega arith)
segment_loop-any p f (suc fuel) [] h = refl
segment_loop-any p f (suc fuel) ((i, j) ∷ states) h =
    let n = suc (length p + length f) in
    let on = successors (get_elem? p i) (get_elem? f j) i j in
    elim (Bool-cases (i == length p && j == length f)) [
      | inl done ↦ rw done (rw (accepts-end p f i j done))
      | inr more ↦ elim (Bool-cases (ltb (length p) i || ltb (length f) j)) [
        | inl beyond ↦
            rw (more, beyond, accepts-beyond p f i j beyond)
              (segment_loop-any p f fuel states
                (unfold weight in omega (arith, pow3_pos (n - (i + j)))))
        | inr within ↦
            let hi : i ≤ length p = ground arith in
            let hj : j ≤ length f = ground arith in
            let lighter = weight-successors n (get_elem? p i) (get_elem? f j) i j (omega arith) in
            let ih =
              segment_loop-any p f fuel (add_states states on)
                (unfold weight in omega (arith, weight-add_states n states on, lighter)) in
            rw (more, within)
              (ih
                ∙ ap some (
                    any-add_states (accepts p f) states on
                    ∙ or_swap (any (accepts p f) states) (accepts p f (i, j)) (any (accepts p f) on)
                        (accepts-step p f i j hi hj more)))
      ]
    ]

weight_start : (n : ℕ) → weight n ((0, 0) ∷ []) < suc (pow3 n)
unfolding weight
weight_start n = let e : n - (0 + 0) ≡ n = omega arith in rw e (omega arith)

accepts_start : (p f : Code) → any (accepts p f) ((0, 0) ∷ []) ≡ match_code p f
accepts_start p f = rw (accepts-start p f) (ground arith)

-- The fuel of `matchSegment` is enough: its loop ends, with the answer of the structural matching.
pub segment_loop-match_code :
    (p f : Code)
    → segment_loop (suc (pow3 (suc (length p + length f)))) p f ((0, 0) ∷ [])
      ≡ some (match_code p f)
segment_loop-match_code p f =
    let n = suc (length p + length f) in
    segment_loop-any p f (suc (pow3 n)) ((0, 0) ∷ []) (weight_start n) ∙ ap some (accepts_start p f)

pub match_segment_lem : (p f : Code) → match_segment p f ≡ match_code p f
unfolding match_segment
match_segment_lem p f = ap or_false (segment_loop-match_code p f)

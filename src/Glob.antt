-- ===== src/Glob.antt =====
-- `matchGlob` of lib/gate-guard-core.mjs. A path is the list of its UTF-16 code units.
pub mod Segment
pub mod Worklist
pub mod Relation
use devmate.Prelude.{
  ℕ, zero, suc, ◌+◌, ◌*◌, List, [], ◌∷◌, ◌++◌, Bool, true, false, ◌&&◌, ◌||◌, Option, none, some,
  if◌then◌else◌, ◌==◌, ltb, length, is_empty, map, any,
}

abbrev pub Code : Type 0
Code = List ℕ

-- `s.replace(/\\/g, '/')`.
abbrev pub forward : ℕ → ℕ
forward c = if c == 92 then 47 else c

unfoldable pub forward_slashes : Code → Code
forward_slashes = map forward

-- `s.split('/')`: the first part, and the parts after it.
abbrev prepend : ℕ → List Code → List Code
prepend c [] = (c ∷ []) ∷ []
prepend c (part ∷ parts) = (c ∷ part) ∷ parts

unfoldable pub split_slash : Code → List Code
split_slash [] = [] ∷ []
split_slash (c ∷ cs) = let parts = split_slash cs in if c == 47 then [] ∷ parts else prepend c parts

unfoldable pub same_code : Code → Code → Bool
same_code [] [] = true
same_code (a ∷ as') (b ∷ bs) = a == b && same_code as' bs
same_code _ _ = false

-- A state of `matchSegment`: a position in the pattern and one in the path.
abbrev pub Position : Type 0
Position = ℕ × ℕ

abbrev pub same_position : Position → Position → Bool
same_position (i, j) (k, l) = i == k && j == l

-- `states.add(s)` on a set in insertion order.
pub add_state : List Position → Position → List Position
add_state states s = if any (same_position s) states then states else states ++ s ∷ []

pub get_elem? {ℓ} : {A : Type ℓ} → List A → ℕ → Option A
get_elem? [] i = none
get_elem? (x ∷ xs) zero = some x
get_elem? (x ∷ xs) (suc i) = get_elem? xs i

-- `j < pathSeg.length && pc === pathSeg[j]`.
abbrev equals_at : ℕ → Option ℕ → Bool
equals_at pc none = false
equals_at pc (some c) = pc == c

-- The states that the loop's body adds, by the pattern's character at `i` and the path's at `j`.
pub successors : Option ℕ → Option ℕ → ℕ → ℕ → List Position
successors none fc i j = []
successors (some pc) none i j = if pc == 42 then (suc i, j) ∷ [] else []
successors (some pc) (some c) i j =
    if pc == 42
    then (suc i, j) ∷ (i, suc j) ∷ []
    else if pc == 63 || pc == c
    then (suc i, suc j) ∷ []
    else []

pub add_states : List Position → List Position → List Position
unfolding add_state
add_states states [] = states
add_states states (s ∷ more) = add_states (add_state states s) more

-- The `while` loop of `matchSegment`; `none` where the fuel runs out.
pub segment_loop : ℕ → Code → Code → List Position → Option Bool
segment_loop zero p f states = none
segment_loop (suc fuel) p f [] = some false
segment_loop (suc fuel) p f ((i, j) ∷ states) =
    let skip = segment_loop fuel p f states in
    let on =
      segment_loop fuel p f (add_states states (successors (get_elem? p i) (get_elem? f j) i j)) in
    if i == length p && j == length f
    then some true
    else if ltb (length p) i || ltb (length f) j
    then skip
    else on

-- 3 ^ n. Each round replaces a state by at most two that are one step further on, so this many
-- rounds for the length of both texts are enough.
pub pow3 : ℕ → ℕ
pow3 zero = 1
pow3 (suc n) = 3 * pow3 n

abbrev pub or_false : Option Bool → Bool
or_false none = false
or_false (some b) = b

unfoldable pub match_segment : Code → Code → Bool
unfolding segment_loop add_states successors get_elem? pow3
match_segment p f =
    or_false (segment_loop (suc (pow3 (suc (length p + length f)))) p f ((0, 0) ∷ []))

abbrev pub is_globstar : Code → Bool
is_globstar p = same_code p (42 ∷ 42 ∷ [])

-- The loop over `k` from `si` to the end: some suffix of the segments passes.
unfoldable pub any_suffix {ℓ} : {A : Type ℓ} → (List A → Bool) → List A → Bool
any_suffix test [] = test []
any_suffix test (x ∷ xs) = test (x ∷ xs) || any_suffix test xs

unfoldable pub match_head : Code → (List Code → Bool) → List Code → Bool
match_head p rest [] = false
match_head p rest (f ∷ fs) = match_segment p f && rest fs

-- `matchGlobSegments`, on what is left of the pattern and of the path.
unfoldable pub match_segments : List Code → List Code → Bool
match_segments [] fs = is_empty fs
match_segments (p ∷ ps) fs =
    if is_globstar p then any_suffix (match_segments ps) fs else match_head p (match_segments ps) fs

unfoldable pub match_glob : Code → Code → Bool
match_glob pattern path =
    match_segments (split_slash (forward_slashes pattern)) (split_slash (forward_slashes path))

-- ===== src/TaskState/Validate/Checks.antt =====
-- Each check of `validateTaskState` passes exactly where the field is what the specification says.
use text.Mathlib.TextEquality.{eq_iff}
use devmate.Prelude.{
  ℕ, suc, String, ◌≡◌, refl, ap, ◌∙◌, ◌⊎◌, inl, inr, ◌↔◌, Bool, true, Option, none, some, List, [],
  ◌∷◌, All, here, there, arith, Bool-cases, if◌then◌else◌, ◌&&◌,
}
use devmate.Prelude.Text.{includes, str_eq}
use devmate.Json.{
  nat, Json, null, num, str, arr, obj, Items, nil, cons, items, Fields, end, field, is_string,
  is_non_empty_string, is_boolean, is_count,
}
use devmate.TaskState.Validate.{
  StateError, no_transitions, unless, is_one_of, check_pair, check_hash_entries, check_hashes,
  check_stash, is_one, when_present, check_count, check_agent, check_agents_from, check_agents,
  check_texts_from, check_texts, check_tdd_guard, check_continuation, valid_lanes, valid_gates,
  gates_valid_for_lane,
}
use devmate.TaskState.Validate.Spec.{
  IsText, IsNonEmpty, IsFlag, IsCount, IsAbsentOr, Contains, HasTextValues, IsListOf, IsAgent,
  IsTddGuard, IsContinuation, IsPlace,
}

pub unless_iff : (b : Bool) (e : StateError) → (unless b e ≡ []) ↔ (b ≡ true)
unless_iff b e = ground arith

pub is_string_iff : (v : Option Json) → (is_string v ≡ true) ↔ IsText v
is_string_iff v = ground arith

pub is_non_empty_string_iff : (v : Option Json) → (is_non_empty_string v ≡ true) ↔ IsNonEmpty v
is_non_empty_string_iff v = ground arith

pub is_boolean_iff : (v : Option Json) → (is_boolean v ≡ true) ↔ IsFlag v
is_boolean_iff v = ground arith

pub is_count_iff : (v : Option Json) → (is_count v ≡ true) ↔ IsCount v
is_count_iff v = ground arith

pub is_one_iff : (v : Option Json) → (is_one v ≡ true) ↔ (v ≡ some (num (nat 1)))
is_one_iff v = ground arith

pub includes_iff : (names : List String) (k : String) → (includes names k ≡ true) ↔ Contains names k
includes_iff names k = (to names, from names)
  where
    to : (ns : List String) → includes ns k ≡ true → Contains ns k
    to [] h = cc
    to (n ∷ ns) h = elim (Bool-cases (str_eq n k)) [
      | inl same ↦ here ((eq_iff n k).0 same)
      | inr other ↦ there (to ns (ground arith))
    ]

    from : (ns : List String) → Contains ns k → includes ns k ≡ true
    from [] m = elim m [ ]
    from (n ∷ ns) (here e) = ground (arith, eq_iff n k)
    from (n ∷ ns) (there m) = ground (arith, from ns m)

-- A check of a field that may be absent.
pub when_present_iff :
    {P : Json → Type 0} (check : Json → List StateError) (v : Option Json)
    → ((j : Json) → (check j ≡ []) ↔ P j)
    → (when_present check v ≡ []) ↔ IsAbsentOr P v
when_present_iff check none h = ((λ _. inl refl), λ _. refl)
when_present_iff check (some j) h = (
  (λ e. inr (j, refl, (h j).0 e)),
  λ a. elim a [
    | inl absent ↦ cc
    | inr (j', same, p) ↦ let e : j ≡ j' = cc in ap check e ∙ (h j').1 p
  ],
)

pub check_count_iff : (bad : StateError) (j : Json) → (check_count bad j ≡ []) ↔ IsCount (some j)
check_count_iff bad j = ground arith

pub check_hash_entries_iff : (fs : Fields) → (check_hash_entries fs ≡ []) ↔ HasTextValues fs
unfolding check_hash_entries
check_hash_entries_iff end = ((λ _. tt), λ _. refl)
check_hash_entries_iff (field k v fs) = ground (arith, check_hash_entries_iff fs)

pub check_hashes_iff :
    (v : Option Json)
    → (check_hashes v ≡ []) ↔ ((h : Fields) × (v ≡ some (obj h)) × HasTextValues h)
unfolding check_hashes
check_hashes_iff (some (obj h)) =
    let (to, from) = check_hash_entries_iff h in ((λ e. (h, refl, to e)), λ w. from (ground arith))
check_hashes_iff v = ground arith

pub check_stash_iff : (v : Option Json) → (check_stash v ≡ []) ↔ ((v ≡ some null) ⊎ IsText v)
unfolding check_stash
check_stash_iff v = ground arith

pub check_agent_iff : (i : ℕ) (j : Json) → (check_agent i j ≡ []) ↔ IsAgent j
unfolding check_agent
check_agent_iff i j = ground arith

pub check_tdd_guard_iff : (j : Json) → (check_tdd_guard j ≡ []) ↔ IsTddGuard j
unfolding check_tdd_guard
check_tdd_guard_iff j = ground arith

pub check_continuation_iff : (j : Json) → (check_continuation j ≡ []) ↔ IsContinuation j
unfolding check_continuation
check_continuation_iff j = ground arith

pub check_agents_from_iff :
    (i : ℕ) (vs : Items) → (check_agents_from i vs ≡ []) ↔ All IsAgent (items vs)
unfolding check_agents_from
check_agents_from_iff i nil = ((λ _. tt), λ _. refl)
check_agents_from_iff i (cons v vs) =
    ground (arith, check_agent_iff i v, check_agents_from_iff (suc i) vs)

pub check_texts_from_iff :
    (bad : ℕ → StateError) (i : ℕ) (vs : Items)
    → (check_texts_from bad i vs ≡ []) ↔ All (λ j. IsNonEmpty (some j)) (items vs)
unfolding check_texts_from
check_texts_from_iff bad i nil = ((λ _. tt), λ _. refl)
check_texts_from_iff bad i (cons v vs) = ground (arith, check_texts_from_iff bad (suc i) vs)

pub check_agents_iff : (j : Json) → (check_agents j ≡ []) ↔ IsListOf IsAgent j
unfolding check_agents
check_agents_iff (arr vs) =
    let (to, from) = check_agents_from_iff 0 vs in
    ((λ e. (vs, refl, to e)), λ w. from (ground arith))
check_agents_iff j = ground arith

pub check_texts_iff :
    (not_array : StateError) (bad : ℕ → StateError) (j : Json)
    → (check_texts not_array bad j ≡ []) ↔ IsListOf (λ v. IsNonEmpty (some v)) j
unfolding check_texts
check_texts_iff not_array bad (arr vs) =
    let (to, from) = check_texts_from_iff bad 0 vs in
    ((λ e. (vs, refl, to e)), λ w. from (ground arith))
check_texts_iff not_array bad j = ground arith

-- The three checks of the lane and the gate together.
abbrev pub PlaceOk : Option Json → Option Json → Type 0
PlaceOk l g =
    (is_one_of valid_lanes l ≡ true) × (is_one_of valid_gates g ≡ true) × (check_pair l g ≡ [])

guarded_iff :
    (a b c : Bool) (e : StateError)
    → ((a ≡ true) × (b ≡ true) × ((if a && b then unless c e else []) ≡ []))
      ↔ ((a ≡ true) × (b ≡ true) × (c ≡ true))
guarded_iff a b c e = ground arith

texts_of_place :
    {l g s t : String}
    → some (str l) ≡ some (str s)
    → some (str g) ≡ some (str t)
    → (l ≡ s) × (g ≡ t)
texts_of_place p q = (cc, cc)

pub check-IsPlace_iff : (l g : Option Json) → PlaceOk l g ↔ IsPlace l g
unfolding check_pair
check-IsPlace_iff (some (str l)) (some (str g)) =
    let lanes = includes_iff valid_lanes l in
    let gates = includes_iff valid_gates g in
    let own = includes_iff (gates_valid_for_lane l) g in
    let (to, from) =
      guarded_iff (includes valid_lanes l) (includes valid_gates g)
        (includes (gates_valid_for_lane l) g) (no_transitions g l) in
    (
      (λ c. let (a, b, d) = to c in (l, g, refl, refl, lanes.0 a, gates.0 b, own.0 d)),
      λ (s, t, p, q, a, b, d).
          let (e, f) = texts_of_place p q in
          from (lanes.1 (rw e a), gates.1 (rw f b), own.1 (rw (e, f) d)),
    )
check-IsPlace_iff l g = ground arith

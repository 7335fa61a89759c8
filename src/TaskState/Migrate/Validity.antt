-- ===== src/TaskState/Migrate/Validity.antt =====
-- When a migrated state is a task state.
use text.Mathlib.TextEquality.{eq_iff}
use devmate.Prelude.{
  String, List, ◌∙◌, true, false, Option, none, some, ◌≡◌, refl, ◌↔◌, ◌⊎◌, inl, inr, arith,
  Bool-cases, All,
}
use devmate.Prelude.Text.{is_blank, includes, str_eq}
use devmate.Json.{
  nat, Json, null, num, str, arr, obj, bool, Items, nil, cons, items, Fields, end, field, get,
  is_non_empty_string, text_of,
}
use devmate.TaskState.Validate.{
  valid_lanes, valid_gates, is_one_of, gates_valid_for_lane, ok, validate_task_state,
}
use devmate.TaskState.Validate.Spec.{
  IsTaskState, IsNonEmpty, IsText, IsAbsentOr, IsListOf, Contains, HasTextValues,
}
use devmate.TaskState.Validate.Laws.{validate_task_state_iff}
use devmate.TaskState.Validate.Checks.{is_non_empty_string_iff, includes_iff}
use devmate.TaskState.Migrate.{
  migrated_task_id, migrated_lane, migrated_gate, migrated_hashes, migrated_stash, migrated_texts,
  migrated_count, all_texts, with_field, migrated, migrate_task_state,
}

migrated_task_id-IsNonEmpty : (v : Option Json) → IsNonEmpty (some (str (migrated_task_id v)))
unfolding is_blank
migrated_task_id-IsNonEmpty v = elim (Bool-cases (is_non_empty_string v)) [
  | inl named ↦
      let (s, e, full) = (is_non_empty_string_iff v).0 named in (s, rw (named, e) refl, full)
  | inr unnamed ↦ ("unknown", rw unnamed refl, refl)
]

one_of-includes :
    (names : List String) (v : Option Json)
    → is_one_of names v ≡ true
    → includes names (text_of v) ≡ true
one_of-includes names (some (str s)) h = h
one_of-includes names none h = cc
one_of-includes names (some null) h = cc
one_of-includes names (some (bool b)) h = cc
one_of-includes names (some (num n)) h = cc
one_of-includes names (some (arr vs)) h = cc
one_of-includes names (some (obj fs)) h = cc

migrated_lane-valid : (v : Option Json) → includes valid_lanes (migrated_lane v) ≡ true
migrated_lane-valid v = elim (Bool-cases (is_one_of valid_lanes v)) [
  | inl known ↦ rw known (one_of-includes valid_lanes v known)
  | inr unknown ↦ rw unknown refl
]

migrated_gate-valid : (v : Option Json) → includes valid_gates (migrated_gate v) ≡ true
migrated_gate-valid v = elim (Bool-cases (is_one_of valid_gates v)) [
  | inl known ↦ rw known (one_of-includes valid_gates v known)
  | inr unknown ↦ rw unknown refl
]

migrated_stash-IsText :
    (v : Option Json) → (some (migrated_stash v) ≡ some null) ⊎ IsText (some (migrated_stash v))
migrated_stash-IsText (some (str s)) = inr (s, refl)
migrated_stash-IsText none = inl refl
migrated_stash-IsText (some null) = inl refl
migrated_stash-IsText (some (bool b)) = inl refl
migrated_stash-IsText (some (num n)) = inl refl
migrated_stash-IsText (some (arr vs)) = inl refl
migrated_stash-IsText (some (obj fs)) = inl refl

all_texts-All : (vs : Items) → all_texts vs ≡ true → All (λ j. IsNonEmpty (some j)) (items vs)
all_texts-All nil h = tt
all_texts-All (cons v vs) h =
    let one : is_non_empty_string (some v) ≡ true = ground arith in
    let rest : all_texts vs ≡ true = ground arith in
    ((is_non_empty_string_iff (some v)).0 one, all_texts-All vs rest)

migrated_texts-list :
    (v : Option Json) → IsAbsentOr (IsListOf (λ j. IsNonEmpty (some j))) (migrated_texts v)
migrated_texts-list (some (arr vs)) = elim (Bool-cases (all_texts vs)) [
  | inl full ↦ rw full (inr (arr vs, refl, (vs, refl, all_texts-All vs full)))
  | inr bad ↦ rw bad (inl refl)
]
migrated_texts-list none = inl refl
migrated_texts-list (some null) = inl refl
migrated_texts-list (some (bool b)) = inl refl
migrated_texts-list (some (num n)) = inl refl
migrated_texts-list (some (str s)) = inl refl
migrated_texts-list (some (obj fs)) = inl refl

get-with_field :
    (key : String) (o : Option Json) (rest : Fields) (j : String)
    → str_eq key j ≡ false
    → get (with_field key o rest) j ≡ get rest j
unfolding get
get-with_field key none rest j other = refl
get-with_field key (some v) rest j other = rw other refl

get-with_field-same :
    (key : String) (o : Option Json) (rest : Fields)
    → get rest key ≡ none
    → get (with_field key o rest) key ≡ o
unfolding get
get-with_field-same key none rest absent = absent
get-with_field-same key (some v) rest absent = ground (arith, eq_iff key key)

-- The two optional fields hide no other.
get-tail :
    (o p : Option Json) (rest : Fields) (j : String)
    → str_eq "specFiles" j ≡ false
    → str_eq "acceptanceCriteria" j ≡ false
    → get (with_field "specFiles" o (with_field "acceptanceCriteria" p rest)) j ≡ get rest j
get-tail o p rest j a b =
    get-with_field "specFiles" o (with_field "acceptanceCriteria" p rest) j a
    ∙ get-with_field "acceptanceCriteria" p rest j b

texts_at :
    {v w : Option Json}
    → w ≡ v
    → IsAbsentOr (IsListOf (λ j. IsNonEmpty (some j))) v
    → IsAbsentOr (IsListOf (λ j. IsNonEmpty (some j))) w
texts_at e texts = rw e texts

-- What is migrated, and not accepted as it is, is a task state exactly where its gate is one of its
-- lane and every artifact hash is a text; every other field of the migrated state is valid.
pub migrated-IsTaskState_iff :
    (look : String → Option Json)
    → IsTaskState (get (migrated look)) ↔ (
        Contains
          (gates_valid_for_lane (migrated_lane (look "lane")))
          (migrated_gate (look "workflowGate"))
        × HasTextValues (migrated_hashes (look "artifactHashes")))
unfolding migrated get
migrated-IsTaskState_iff look =
    let lane = migrated_lane (look "lane") in
    let gate = migrated_gate (look "workflowGate") in
    let o = migrated_texts (look "specFiles") in
    let p = migrated_texts (look "acceptanceCriteria") in
    let version = migrated_count 0 (look "stateVersion") in
    let rest = field "stateVersion" (num (nat version)) (field "schemaVersion" (num (nat 1)) end) in
    (
      (λ s.
          let (l, g, at_lane, at_gate, _, _, fits) = s.place in
          let (h, at_hashes, texts) = s.hashes in
          let same_lane : l ≡ lane = cc at_lane in
          let same_gate : g ≡ gate = cc at_gate in
          let same_hashes : h ≡ migrated_hashes (look "artifactHashes") = cc at_hashes in
          (rw (same_lane, same_gate) at fits, rw same_hashes at texts)),
      λ (fits, texts). record {
        task_id = migrated_task_id-IsNonEmpty (look "taskId");
        place = (
          lane,
          gate,
          refl,
          refl,
          (includes_iff valid_lanes lane).0 (migrated_lane-valid (look "lane")),
          (includes_iff valid_gates gate).0 (migrated_gate-valid (look "workflowGate")),
          fits,
        );
        hashes = (migrated_hashes (look "artifactHashes"), refl, texts);
        stash = migrated_stash-IsText (look "preImplStash");
        current_step = (migrated_count 0 (look "currentStep"), refl);
        budget = (migrated_count 10 (look "budget"), refl);
        schema_version = get-tail o p rest "schemaVersion" refl refl;
        active_subagents = inl (get-tail o p rest "activeSubagents" refl refl);
        active_agents = inl (get-tail o p rest "activeAgents" refl refl);
        spec_files =
            texts_at
              (get-with_field-same "specFiles" o (with_field "acceptanceCriteria" p rest)
                (get-with_field "acceptanceCriteria" p rest "specFiles" refl))
              (migrated_texts-list (look "specFiles"));
        acceptance_criteria =
            texts_at
              (get-with_field "specFiles" o (with_field "acceptanceCriteria" p rest)
                  "acceptanceCriteria" refl
                ∙ get-with_field-same "acceptanceCriteria" p rest refl)
              (migrated_texts-list (look "acceptanceCriteria"));
        tdd_guard = inl (get-tail o p rest "tddGuard" refl refl);
        continuation = inl (get-tail o p rest "continuationError" refl refl);
        state_version =
            inr (num (nat version), get-tail o p rest "stateVersion" refl refl, (version, refl));
      },
    )

-- `migrateTaskState` returns a state that `validateTaskState` accepts as it is.
pub migrate_task_state-valid :
    (raw : Json) (state : Fields)
    → validate_task_state raw ≡ ok state
    → migrate_task_state raw ≡ state
unfolding migrate_task_state
migrate_task_state-valid raw state h =
    let (is_object, s) = (validate_task_state_iff raw state).0 h in
    let h' = rw is_object at h in
    rw (is_object, migrate_task_state) (rw (s.schema_version) (rw h' refl))

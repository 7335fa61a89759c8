-- ===== src/TaskState/Validate/Spec.antt =====
-- What a task state is, field by field, with no reference to how `validateTaskState` tests it
-- (the `TaskState` typedef of lib/types.mjs and the messages of lib/task-state.mjs).
use devmate.Prelude.{ℕ, String, ◌≡◌, ◌⊎◌, Bool, false, Option, none, some, List, All, Any}
use devmate.Prelude.Text.{is_blank}
use devmate.Json.{nat, Json, null, bool, num, str, arr, obj, Items, items, Fields, end, field, get}
use devmate.TaskState.Validate.{valid_lanes, valid_gates, gates_valid_for_lane}

abbrev pub IsText : Option Json → Type 0
IsText v = (s : String) × (v ≡ some (str s))

abbrev pub IsNonEmpty : Option Json → Type 0
IsNonEmpty v = (s : String) × (v ≡ some (str s)) × (is_blank s ≡ false)

abbrev pub IsFlag : Option Json → Type 0
IsFlag v = (b : Bool) × (v ≡ some (bool b))

abbrev pub IsCount : Option Json → Type 0
IsCount v = (n : ℕ) × (v ≡ some (num (nat n)))

abbrev pub IsAbsentOr : (Json → Type 0) → Option Json → Type 0
IsAbsentOr P v = (v ≡ none) ⊎ ((j : Json) × (v ≡ some j) × P j)

abbrev pub Contains : List String → String → Type 0
Contains names k = Any (λ n. n ≡ k) names

-- Every entry of an object holds a string.
abbrev pub HasTextValues : Fields → Type 0
HasTextValues end = Unit
HasTextValues (field k v fs) = IsText (some v) × HasTextValues fs

abbrev pub IsListOf : (Json → Type 0) → Json → Type 0
IsListOf P j = (vs : Items) × (j ≡ arr vs) × All P (items vs)

abbrev pub IsAgent : Json → Type 0
IsAgent j = (e : Fields) × (j ≡ obj e) × IsNonEmpty (get e "agentName") × IsText (get e "agentId")

abbrev pub IsTddGuard : Json → Type 0
IsTddGuard j =
    (g : Fields) × (j ≡ obj g)
    × IsFlag (get g "testFileWritten")
    × IsCount (get g "consecutiveNonTestWrites")
    × IsFlag (get g "overrideGranted")
    × IsAbsentOr (λ r. IsText (some r)) (get g "overrideReason")

abbrev pub IsContinuation : Json → Type 0
IsContinuation j =
    (e : Fields) × (j ≡ obj e)
    × IsText (get e "at")
    × IsText (get e "message")
    × IsText (get e "ts")
    × IsText (get e "recovery")

-- A lane, and a gate that the lane's own table names or that every lane has.
abbrev pub IsPlace : Option Json → Option Json → Type 0
IsPlace lane gate =
    (l : String) × (g : String) × (lane ≡ some (str l))
    × (gate ≡ some (str g))
    × Contains valid_lanes l
    × Contains valid_gates g
    × Contains (gates_valid_for_lane l) g

pub record IsTaskState (look : String → Option Json) : Type 0 where
  pub task_id : IsNonEmpty (look "taskId")
  pub place : IsPlace (look "lane") (look "workflowGate")
  pub hashes : (h : Fields) × (look "artifactHashes" ≡ some (obj h)) × HasTextValues h
  pub stash : (look "preImplStash" ≡ some null) ⊎ IsText (look "preImplStash")
  pub current_step : IsCount (look "currentStep")
  pub budget : IsCount (look "budget")
  pub schema_version : look "schemaVersion" ≡ some (num (nat 1))
  pub active_subagents : IsAbsentOr (λ j. IsCount (some j)) (look "activeSubagents")
  pub active_agents : IsAbsentOr (IsListOf IsAgent) (look "activeAgents")
  pub spec_files : IsAbsentOr (IsListOf (λ j. IsNonEmpty (some j))) (look "specFiles")
  pub acceptance_criteria :
      IsAbsentOr (IsListOf (λ j. IsNonEmpty (some j))) (look "acceptanceCriteria")
  pub tdd_guard : IsAbsentOr IsTddGuard (look "tddGuard")
  pub continuation : IsAbsentOr IsContinuation (look "continuationError")
  pub state_version : IsAbsentOr (λ j. IsCount (some j)) (look "stateVersion")

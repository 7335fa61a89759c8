-- ===== src/TaskState/Validate.antt =====
-- `validateTaskState` and `gatesValidForLane` of lib/task-state.mjs. An error is a constructor for
-- each message, with what the message quotes.
pub mod Spec
pub mod Checks
pub mod Laws
use devmate.Prelude.{
  ℕ, zero, suc, String, List, [], ◌∷◌, ◌++◌, Bool, true, false, ◌&&◌, Option, none, some,
  if◌then◌else◌,
}
use devmate.Prelude.Table.{get_own, values}
use devmate.Prelude.Text.{includes}
use devmate.Json.{
  nat, Json, null, num, str, arr, obj, Items, nil, cons, Fields, end, field, get, look, is_string,
  is_non_empty_string, is_boolean, is_count, text_of,
}
use devmate.Gates.Tables.{GateTable, transitions}
use devmate.Gates.Sets.{add, add_all}

pub data StateError : Type 0 where
  not_an_object task_id artifact_hashes pre_impl_stash current_step budget : StateError
  bad_lane : Option Json → StateError
  bad_gate : Option Json → StateError
  no_transitions : (gate lane : String) → StateError
  artifact_hash : (key : String) → StateError
  schema_version : Option Json → StateError
  active_subagents active_agents_array : StateError
  agent_entry agent_name agent_id : ℕ → StateError
  spec_files_array acceptance_criteria_array : StateError
  spec_file acceptance_criterion : ℕ → StateError
  tdd_object tdd_written tdd_writes tdd_override tdd_reason : StateError
  continuation_object continuation_at continuation_message continuation_ts continuation_recovery :
      StateError
  state_version : StateError

-- `VALID_LANES`, `VALID_GATES`, `LANE_AGNOSTIC_GATES`.
abbrev pub valid_lanes : List String
valid_lanes = "feature" ∷ "bug" ∷ "chore" ∷ []

abbrev pub valid_gates : List String
valid_gates =
    "no-lane" ∷ "lane-set" ∷ "discovery-done" ∷ "grill-done" ∷ "plan-done" ∷ "plan-approved"
    ∷ "spec-draft" ∷ "spec-approved" ∷ "spec-invalidated" ∷ "impl-started" ∷ "verification-passed"
    ∷ "pr-ready" ∷ "done" ∷ "parked" ∷ "abandoned" ∷ []

abbrev pub lane_agnostic_gates : List String
lane_agnostic_gates = "no-lane" ∷ "done" ∷ "parked" ∷ "abandoned" ∷ []

add_rows : List String → GateTable → List String
unfolding add add_all
add_rows valid [] = valid
add_rows valid ((gate, events) ∷ rows) = add_rows (add_all (add valid gate) (values events)) rows

unfoldable pub gates_valid_for_lane : String → List String
unfolding add_rows get_own
gates_valid_for_lane lane = elim (get_own transitions lane) [
  | none ↦ lane_agnostic_gates
  | some lane_table ↦ add_rows lane_agnostic_gates lane_table
]

-- `if (test) errors.push(e)`.
abbrev pub unless : Bool → StateError → List StateError
unless true e = []
unless false e = e ∷ []

abbrev pub is_one_of : List String → Option Json → Bool
is_one_of names (some (str s)) = includes names s
is_one_of names _ = false

pub check_pair : Option Json → Option Json → List StateError
check_pair lane gate =
    if is_one_of valid_lanes lane && is_one_of valid_gates gate
    then unless (includes (gates_valid_for_lane (text_of lane)) (text_of gate))
        (no_transitions (text_of gate) (text_of lane))
    else []

pub check_hash_entries : Fields → List StateError
check_hash_entries end = []
check_hash_entries (field key v fs) =
    unless (is_string (some v)) (artifact_hash key) ++ check_hash_entries fs

pub check_hashes : Option Json → List StateError
unfolding check_hash_entries
check_hashes (some (obj hashes)) = check_hash_entries hashes
check_hashes _ = artifact_hashes ∷ []

pub check_stash : Option Json → List StateError
check_stash (some null) = []
check_stash v = unless (is_string v) pre_impl_stash

abbrev pub is_one : Option Json → Bool
is_one (some (num (nat (suc zero)))) = true
is_one _ = false

-- A field that may be `undefined`.
abbrev pub when_present : (Json → List StateError) → Option Json → List StateError
when_present check none = []
when_present check (some v) = check v

pub check_agent : ℕ → Json → List StateError
check_agent i (obj e) =
    unless (is_non_empty_string (get e "agentName")) (agent_name i)
    ++ unless (is_string (get e "agentId")) (agent_id i)
check_agent i _ = agent_entry i ∷ []

pub check_agents_from : ℕ → Items → List StateError
unfolding check_agent
check_agents_from i nil = []
check_agents_from i (cons v vs) = check_agent i v ++ check_agents_from (suc i) vs

pub check_agents : Json → List StateError
unfolding check_agents_from
check_agents (arr roster) = check_agents_from 0 roster
check_agents _ = active_agents_array ∷ []

-- The loops over `specFiles` and `acceptanceCriteria`.
pub check_texts_from : (ℕ → StateError) → ℕ → Items → List StateError
check_texts_from bad i nil = []
check_texts_from bad i (cons v vs) =
    unless (is_non_empty_string (some v)) (bad i) ++ check_texts_from bad (suc i) vs

pub check_texts : StateError → (ℕ → StateError) → Json → List StateError
unfolding check_texts_from
check_texts not_array bad (arr vs) = check_texts_from bad 0 vs
check_texts not_array bad _ = not_array ∷ []

pub check_tdd_guard : Json → List StateError
check_tdd_guard (obj g) =
    unless (is_boolean (get g "testFileWritten")) tdd_written
    ++ (unless (is_count (get g "consecutiveNonTestWrites")) tdd_writes
        ++ (unless (is_boolean (get g "overrideGranted")) tdd_override
            ++ when_present (λ r. unless (is_string (some r)) tdd_reason) (get g "overrideReason")))
check_tdd_guard _ = tdd_object ∷ []

pub check_continuation : Json → List StateError
check_continuation (obj e) =
    unless (is_string (get e "at")) continuation_at
    ++ (unless (is_string (get e "message")) continuation_message
        ++ (unless (is_string (get e "ts")) continuation_ts
            ++ unless (is_string (get e "recovery")) continuation_recovery))
check_continuation _ = continuation_object ∷ []

abbrev pub check_count : StateError → Json → List StateError
check_count bad v = unless (is_count (some v)) bad

abbrev pub join : List (List StateError) → List StateError
join [] = []
join (xs ∷ xss) = xs ++ join xss

-- The checks of the body in their order, over the property reads.
pub checks : (String → Option Json) → List (List StateError)
checks field_of =
    unless (is_non_empty_string (field_of "taskId")) task_id
    ∷ unless (is_one_of valid_lanes (field_of "lane")) (bad_lane (field_of "lane"))
    ∷ unless (is_one_of valid_gates (field_of "workflowGate")) (bad_gate (field_of "workflowGate"))
    ∷ check_pair (field_of "lane") (field_of "workflowGate")
    ∷ check_hashes (field_of "artifactHashes")
    ∷ check_stash (field_of "preImplStash")
    ∷ unless (is_count (field_of "currentStep")) current_step
    ∷ unless (is_count (field_of "budget")) budget
    ∷ unless (is_one (field_of "schemaVersion")) (schema_version (field_of "schemaVersion"))
    ∷ when_present (check_count active_subagents) (field_of "activeSubagents")
    ∷ when_present check_agents (field_of "activeAgents")
    ∷ when_present (check_texts spec_files_array spec_file) (field_of "specFiles")
    ∷ when_present (check_texts acceptance_criteria_array acceptance_criterion)
        (field_of "acceptanceCriteria")
    ∷ when_present check_tdd_guard (field_of "tddGuard")
    ∷ when_present check_continuation (field_of "continuationError")
    ∷ when_present (check_count state_version) (field_of "stateVersion")
    ∷ []

-- The errors of `validateTaskState`; the state is accepted, and returned as it is, where there are
-- none. `typeof [] === 'object'`, so an array passes the first test and lacks every property.
unfoldable pub state_errors : Json → List StateError
unfolding checks check_pair check_hashes check_stash check_agents check_texts check_tdd_guard
    check_continuation
state_errors (obj fs) = join (checks (get fs))
state_errors (arr vs) = join (checks (look (arr vs)))
state_errors _ = not_an_object ∷ []

-- A `StateResult` whose state is read off an object.
pub data StateResult (E : Type 0) : Type 0 where
  ok : Fields → StateResult E
  err : List E → StateResult E

accept : Json → List StateError → StateResult StateError
accept (obj fs) [] = ok fs
accept raw errors = err errors

unfoldable pub validate_task_state : Json → StateResult StateError
unfolding accept
validate_task_state raw = accept raw (state_errors raw)

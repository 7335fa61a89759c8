-- ===== src/Dispatch.antt =====
-- lib/workflow/dispatch-gate.mjs and lib/workflow/dispatch-sequencing.mjs: whether an agent may be
-- dispatched at the gate of the task, with the name handling of lib/workflow/orchestrator.mjs.
pub mod Implementation
pub mod Sequencing
use Prim.Native.Char.{code}
use devmate.Prelude.{
  ℕ, zero, String, List, [], ◌∷◌, Bool, true, false, not, ◌&&◌, Option, none, some, suc,
  if◌then◌else◌, leb, ◌==◌,
}
use devmate.Prelude.Text.{str_eq, includes}
use devmate.Prelude.Table.{Table, get_own}
use devmate.Json.{nat, Json, null, bool, num, str, Fields, get, look, text_of}
use devmate.TaskState.Validate.{StateResult, ok, err}

-- `normalizeLane`, with `trim().toLowerCase()` as a parameter.
unfoldable pub normalize_lane : (String → String) → Option Json → String
normalize_lane trim_lower (some (str s)) = trim_lower s
normalize_lane trim_lower _ = ""

-- `PERSONA_MAP` and `resolvePersona`.
abbrev persona_map : Table String
persona_map = ("frontend", "fullstack") ∷ ("backend", "fullstack") ∷ ("editor", "fullstack") ∷ []

abbrev resolved : Option String → String → String
resolved none name = name
resolved (some agent) name = agent

-- The name less a leading `@`, and less an ending `.agent`.
abbrev drop_at : String → String
drop_at String.[] = ""
drop_at (String.◌∷◌ c s) = if code c == b'@' then s else String.◌∷◌ c s

abbrev drop_agent : String → String
drop_agent String.[] = ""
drop_agent (String.◌∷◌ c s) =
    let rest = drop_agent s in if str_eq (String.◌∷◌ c s) ".agent" then "" else String.◌∷◌ c rest

-- `normalizeDispatchedAgent`, with `trim` and `trim().toLowerCase()` as parameters.
unfoldable pub normalize_dispatched_agent : (trim trim_lower : String → String) → String → String
unfolding get_own
normalize_dispatched_agent trim trim_lower name =
    let bare = trim (drop_agent (drop_at (trim_lower name))) in
    resolved (get_own persona_map bare) bare

-- `IMPLEMENTATION_AGENTS`.
abbrev pub implementation_agents : List String
implementation_agents = "fullstack" ∷ "backend" ∷ "frontend" ∷ "editor" ∷ []

unfoldable pub is_implementation_dispatch : (trim trim_lower : String → String) → String → Bool
is_implementation_dispatch trim trim_lower name =
    let agent = normalize_dispatched_agent trim trim_lower name in
    if str_eq agent "" then false else includes implementation_agents agent

-- `LANE_IMPL_REQUIREMENTS`.
pub record Requirements : Type 0 where
  pub spec : Bool
  pub diagnosis : Bool
  pub scope : Bool

abbrev pub lane_impl_requirements : Table Requirements
lane_impl_requirements =
    ("feature", record { spec = true; diagnosis = false; scope = true })
    ∷ ("bug", record { spec = false; diagnosis = true; scope = true })
    ∷ ("chore", record { spec = false; diagnosis = false; scope = true })
    ∷ []

abbrev required_of : Option Requirements → Requirements
required_of none = record { spec = false; diagnosis = false; scope = false }
required_of (some reqs) = reqs

-- `Boolean(value)`.
abbrev truthy : Option Json → Bool
truthy none = false
truthy (some null) = false
truthy (some (bool b)) = b
truthy (some (num (nat zero))) = false
truthy (some (str s)) = not (str_eq s "")
truthy (some _) = true

abbrev part : Option Json → String → Option Json
part none key = none
part (some v) key = look v key

-- `hasSpecMetadata`.
unfoldable pub has_spec_metadata : Fields → Bool
has_spec_metadata state =
    let meta = get state "artifactHashes" in
    truthy (part meta "spec") && truthy (part meta "specDigest")

pub record Scope : Type 0 where
  pub present : Bool
  pub non_empty : Bool

abbrev pub has_scope : Option Scope → Bool
has_scope none = false
has_scope (some scope) = scope.present && scope.non_empty

pub data Decision : Type 0 where
  allowed no_state no_spec no_diagnosis no_scope : Decision
  wrong_gate : String → Decision

-- The tests of steps 2 and 3 of `evaluateImplementationDispatch`, in their order.
abbrev pub judge : String → Requirements → (spec diagnosis scope : Bool) → Decision
judge gate reqs spec diagnosis scope =
    if not (str_eq gate "impl-started")
    then wrong_gate gate
    else if reqs.spec && not spec
    then no_spec
    else if reqs.diagnosis && not diagnosis
    then no_diagnosis
    else if reqs.scope && not scope
    then no_scope
    else allowed

unfoldable pub requirements : String → Requirements
unfolding get_own
requirements lane = required_of (get_own lane_impl_requirements lane)

unfoldable pub evaluate_state :
    (String → String) → Fields → Option Scope → (diagnosis_valid : Bool) → Decision
evaluate_state trim_lower state scope diagnosis_valid =
    judge (text_of (get state "workflowGate"))
      (requirements (normalize_lane trim_lower (get state "lane"))) (has_spec_metadata state)
      diagnosis_valid (has_scope scope)

-- `evaluateImplementationDispatch`, whose state result may be missing.
unfoldable pub evaluate_implementation_dispatch :
    {E : Type 0} → (String → String) → Option (StateResult E) → Option Scope → Bool → Decision
evaluate_implementation_dispatch trim_lower (some (ok state)) scope diagnosis_valid =
    evaluate_state trim_lower state scope diagnosis_valid
evaluate_implementation_dispatch trim_lower (some (err errors)) scope diagnosis_valid = no_state
evaluate_implementation_dispatch trim_lower none scope diagnosis_valid = no_state

-- `LANE_GATE_ORDER` and `ANALYSIS_MIN_GATE`.
abbrev pub lane_gate_order : Table (List String)
lane_gate_order =
    (
      "feature",
      "no-lane" ∷ "lane-set" ∷ "discovery-done" ∷ "grill-done" ∷ "plan-done" ∷ "spec-draft"
          ∷ "spec-approved" ∷ "impl-started" ∷ "verification-passed" ∷ "pr-ready" ∷ "done" ∷ [],
    )
    ∷ (
      "bug",
      "no-lane" ∷ "lane-set" ∷ "grill-done" ∷ "plan-approved" ∷ "impl-started"
          ∷ "verification-passed" ∷ "pr-ready" ∷ "done" ∷ [],
    )
    ∷ (
      "chore",
      "no-lane" ∷ "lane-set" ∷ "plan-approved" ∷ "impl-started" ∷ "verification-passed" ∷ "done"
          ∷ [],
    )
    ∷ []

abbrev pub analysis_min_gate : Table (Table String)
analysis_min_gate =
    (
      "feature",
      ("rubber-duck", "discovery-done")
          ∷ ("planner", "grill-done")
          ∷ ("spec-writer", "plan-done")
          ∷ [],
    )
    ∷ ("bug", [])
    ∷ ("chore", [])
    ∷ []

-- `order.indexOf(gate)`: none for -1.
abbrev next_index : Option ℕ → Option ℕ
next_index none = none
next_index (some i) = some (suc i)

unfoldable pub index_of : List String → String → Option ℕ
index_of [] gate = none
index_of (g ∷ order) gate = if str_eq g gate then some 0 else next_index (index_of order gate)

abbrev pub at_least : Option ℕ → Option ℕ → Option Bool
at_least (some ci) (some ri) = some (leb ri ci)
at_least _ _ = none

abbrev pub compared : Option (List String) → String → String → Option Bool
compared none current required = none
compared (some order) current required = at_least (index_of order current) (index_of order required)

-- `gateAtLeast`: none for null.
unfoldable pub gate_at_least : String → String → String → Option Bool
unfolding index_of get_own
gate_at_least lane current required = compared (get_own lane_gate_order lane) current required

pub data Order : Type 0 where
  in_order : Order
  too_early : (required : String) → Order

abbrev pub judged : String → Option Bool → Order
judged required (some false) = too_early required
judged required _ = in_order

abbrev pub rows_of : Option (Table String) → Table String
rows_of none = []
rows_of (some rows) = rows

-- The gate that the agent's work depends on, where the lane names one.
unfoldable pub min_gate : String → String → Option String
unfolding get_own
min_gate lane agent = get_own (rows_of (get_own analysis_min_gate lane)) agent

abbrev pub sequenced : String → String → Option String → Order
sequenced lane gate none = in_order
sequenced lane gate (some required) = judged required (gate_at_least lane gate required)

-- `evaluateDispatchSequencing`.
unfoldable pub evaluate_dispatch_sequencing :
    (trim trim_lower : String → String) → String → Option Json → String → Order
unfolding min_gate
evaluate_dispatch_sequencing trim trim_lower agent_name lane_value gate =
    let agent = normalize_dispatched_agent trim trim_lower agent_name in
    let lane = normalize_lane trim_lower lane_value in
    if str_eq agent ""
    then in_order
    else if is_implementation_dispatch trim trim_lower agent
    then in_order
    else sequenced lane gate (min_gate lane agent)

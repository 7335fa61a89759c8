-- ===== src/Subagents.antt =====
-- hooks/subagent-budget-guard.mjs: which subagents may start, how many run and who they are. The scope
-- and the diagnosis are what other modules read.
pub mod Ceiling
use devmate.Prelude.{
  ℕ, suc, ◌+◌, ◌-◌, String, List, [], ◌∷◌, Bool, true, false, not, Option, none, some,
  if◌then◌else◌, leb,
}
use devmate.Prelude.Text.{str_eq}
use devmate.Json.{
  Number, nat, Json, num, str, arr, obj, Items, nil, cons, Fields, end, field, get, set, look,
  text_of,
}
use devmate.Gates.Transition.{task_of}
use devmate.TaskState.Validate.{StateResult, ok, err}
use devmate.TaskState.Store.{
  JsonText, ReadError, World, Host, MutateResult, written, skipped, conflict, failed, Mutated,
  unchanged, next_state, Options, is_state_file_missing, read_task_state, mutate_under_lock,
}
use devmate.Dispatch
use devmate.Dispatch.{Scope, is_implementation_dispatch, evaluate_implementation_dispatch}

-- `ActiveAgent`, and the agent of an event.
pub record Agent : Type 0 where
  pub name : String
  pub id : String

abbrev pub entry_json : Agent → Json
entry_json a = obj (field "agentName" (str a.name) (field "agentId" (str a.id) end))

-- `roster.filter((e) => e.agentId !== id)`.
abbrev without_id : String → Items → Items
without_id id nil = nil
without_id id (cons e es) =
    let rest = without_id id es in
    if str_eq (text_of (look e "agentId")) id then rest else cons e rest

abbrev push : Items → Json → Items
push nil e = cons e nil
push (cons d ds) e = cons d (push ds e)

-- `addActiveAgent`.
unfoldable pub add_active_agent : Items → Agent → Items
add_active_agent roster a =
    if str_eq a.name ""
    then roster
    else push (if str_eq a.id "" then roster else without_id a.id roster) (entry_json a)

-- The roster without the first entry of which the test holds.
abbrev without_first : (Json → Bool) → Items → Items
without_first p nil = nil
without_first p (cons e es) = let rest = cons e (without_first p es) in if p e then es else rest

-- `removeActiveAgent`.
unfoldable pub remove_active_agent : Items → Agent → Items
remove_active_agent roster a =
    if not (str_eq a.id "")
    then without_first (λ e. str_eq (text_of (look e "agentId")) a.id) roster
    else without_first (λ e. str_eq (text_of (look e "agentName")) a.name) roster

abbrev pub count_of : Option Json → ℕ
count_of (some (num (nat n))) = n
count_of _ = 0

abbrev roster_of : Option Json → Items
roster_of (some (arr es)) = es
roster_of _ = nil

-- How many subagents a state counts.
abbrev pub active_count : Fields → ℕ
active_count state = count_of (get state "activeSubagents")

abbrev pub with_agents : ℕ → Items → Fields → Fields
with_agents n roster state =
    set (set state "activeSubagents" (num (nat n))) "activeAgents" (arr roster)

-- `resolveMaxConcurrentAgents`, of the configuration's value.
unfoldable pub resolve_max_concurrent_agents : Option Number → ℕ
resolve_max_concurrent_agents (some (nat (suc n))) = suc n
resolve_max_concurrent_agents _ = 3

-- The mutators of a start and of a stop.
unfoldable pub start_mutator : ℕ → Agent → Fields → Mutated
start_mutator max a fresh =
    if leb max (active_count fresh)
    then unchanged
    else next_state (
        with_agents (active_count fresh + 1)
          (add_active_agent (roster_of (get fresh "activeAgents")) a) fresh)

unfoldable pub stop_mutator : Agent → Fields → Mutated
stop_mutator a fresh = next_state (
    with_agents (active_count fresh - 1)
      (remove_active_agent (roster_of (get fresh "activeAgents")) a) fresh)

pub data Reason : Type 0 where
  no_implementation : Dispatch.Decision → Reason
  unreadable : List ReadError → Reason
  at_ceiling : (max : ℕ) → Reason

-- What the guard answers; `unrecorded` is an allowed start whose write has failed.
pub data Verdict : Type 0 where
  allowed unrecorded : Verdict
  started : (version : ℕ) → Verdict
  denied : Reason → Verdict

abbrev pub event_options : String → Options
event_options event = record { expected_version = none; event = some event; ts = none }

-- The mutator gives nothing only at the ceiling.
abbrev pub verdict_of : ℕ → MutateResult → Verdict
verdict_of max (written v) = started v
verdict_of max (skipped v) = denied (at_ceiling max)
verdict_of max (conflict c e) = unrecorded
verdict_of max (failed e) = unrecorded

module _ (json : JsonText) (host : Host) (max : ℕ) where
  open json use {Text}

  abbrev admitted : ℕ → MutateResult × World Text → Verdict × World Text
  admitted n (result, world) = (verdict_of n result, world)

  -- The count is tested and raised on the state under the lock.
  unfoldable pub admit : Agent → World Text → Verdict × World Text
  admit a world =
      admitted max
        (mutate_under_lock json host (event_options "subagent-start") (start_mutator max a) world)

  abbrev pub start_of : Agent → StateResult ReadError → World Text → Verdict × World Text
  start_of a (ok state) world = admit a world
  start_of a (err errors) world =
      if is_state_file_missing errors then (allowed, world) else (denied (unreadable errors), world)

  abbrev pub judged :
      Agent → StateResult ReadError → Dispatch.Decision → World Text → Verdict × World Text
  judged a result Dispatch.allowed world = start_of a result world
  judged a result decision world = (denied (no_implementation decision), world)

  -- `handleSubagentStart`: the world when it reads task.json, and the world when it has the lock.
  unfoldable pub handle_subagent_start :
      (trim trim_lower : String → String)
      → Option Scope
      → (diagnosis_valid : Bool) → Agent
      → (seen world : World Text) → Verdict × World Text
  handle_subagent_start trim trim_lower scope diagnosis_valid a seen world =
      if is_implementation_dispatch trim trim_lower a.name
      then judged a (read_task_state json seen.file)
          (evaluate_implementation_dispatch trim_lower (some (read_task_state json seen.file)) scope
            diagnosis_valid)
          world
      else start_of a (read_task_state json seen.file) world

  abbrev pub stop_of : Agent → StateResult ReadError → World Text → World Text
  stop_of a (ok state) world =
      (mutate_under_lock json host (event_options "subagent-stop") (stop_mutator a) world).1
  stop_of a (err errors) world = world

  -- `handleSubagentStop`.
  unfoldable pub handle_subagent_stop : Agent → (seen world : World Text) → World Text
  handle_subagent_stop a seen world = stop_of a (read_task_state json seen.file) world

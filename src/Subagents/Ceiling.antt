-- ===== src/Subagents/Ceiling.antt =====
-- How many subagents task.json can count, however their starts and stops interleave with other writers.
use devmate.Prelude.{
  ℕ, ◌≤◌, ◌<◌, String, Bool, false, Option, ◌≡◌, inl, inr, refl, ap, arith, Bool-cases, leb,
}
use devmate.Json.{nat, num, arr, Fields, set}
use devmate.Json.Laws.{get-set}
use devmate.TaskState.Validate.{StateResult, ok, err}
use devmate.TaskState.Store.{
  JsonText, ReadError, World, Host, Mutated, next_state, Options, read_task_state, stamp,
  is_state_file_missing, mutate_under_lock,
}
use devmate.Dispatch
use devmate.Dispatch.{Scope, is_implementation_dispatch, evaluate_implementation_dispatch}
use devmate.Approvals.Writes.{At, mutate_cases}
use devmate.Subagents.{
  Agent, active_count, with_agents, start_mutator, stop_mutator, event_options, admit, start_of,
  judged, handle_subagent_start, stop_of, handle_subagent_stop,
}

active_count-stamp : (state : Fields) (v : ℕ) → active_count (stamp state v) ≡ active_count state
unfolding stamp
active_count-stamp state v = rw (get-set state "stateVersion" "activeSubagents" (num (nat v))) refl

active_count-with_agents :
    (n : ℕ) (roster : _) (state : Fields) → active_count (with_agents n roster state) ≡ n
active_count-with_agents n roster state =
    rw
      (
        get-set (set state "activeSubagents" (num (nat n))) "activeAgents" "activeSubagents"
            (arr roster),
        get-set state "activeSubagents" "activeSubagents" (num (nat n)),
      )
      refl

next_state-injective : {a b : Fields} → next_state a ≡ next_state b → a ≡ b
next_state-injective p = cc

leb_false→lt : (a b : ℕ) → leb a b ≡ false → b < a
leb_false→lt a b h = ground arith

-- A mutator whose state counts at most the ceiling, where the state that it is given does.
abbrev Respects : ℕ → (Fields → Mutated) → Type 0
Respects max mutate =
    (state next : Fields)
    → active_count state ≤ max
    → mutate state ≡ next_state next
    → active_count next ≤ max

start_mutator-Respects : (max : ℕ) (a : Agent) → Respects max (start_mutator max a)
unfolding start_mutator
start_mutator-Respects max a state next bound h = elim (Bool-cases (leb max (active_count state))) [
  | inl full ↦ let h' = rw full at h in cc h'
  | inr free ↦
      let e = next_state-injective (rw free at h) in
      omega (arith, ap active_count e, active_count-with_agents _ _ state, leb_false→lt _ _ free)
]

stop_mutator-Respects : (max : ℕ) (a : Agent) → Respects max (stop_mutator a)
unfolding stop_mutator
stop_mutator-Respects max a state next bound h =
    let e = next_state-injective h in
    omega (arith, ap active_count e, active_count-with_agents _ _ state)

-- Another writer that leaves the count alone.
abbrev pub KeepsCount : (Fields → Mutated) → Type 0
KeepsCount mutate =
    (state next : Fields) → mutate state ≡ next_state next → active_count next ≡ active_count state

module _ (json : JsonText) (max : ℕ) where
  open json use {Text}

  -- The file holds a task state that counts at most the ceiling.
  abbrev pub IsBounded : World Text → Type 0
  IsBounded world = (state : Fields) × At json world state × (active_count state ≤ max)

  -- The worlds that starts, stops and other locked mutations lead to, in any order and whatever the host
  -- answers.
  pub data Traffic (from : World Text) : World Text → Type 0 where
    here : Traffic from from
    starts :
        {mid to : World Text} (host : Host) (trim trim_lower : String → String)
        (scope : Option Scope) (diagnosis_valid : Bool) (a : Agent) (seen : World Text)
        → Traffic from mid
        → to
          ≡ (handle_subagent_start json host max trim trim_lower scope diagnosis_valid a seen mid).1
        → Traffic from to
    stops :
        {mid to : World Text} (host : Host) (a : Agent) (seen : World Text)
        → Traffic from mid
        → to ≡ handle_subagent_stop json host max a seen mid
        → Traffic from to
    others :
        {mid to : World Text} (host : Host) (opts : Options) (mutate : Fields → Mutated)
        → KeepsCount mutate
        → Traffic from mid
        → to ≡ (mutate_under_lock json host opts mutate mid).1
        → Traffic from to

  mutate-IsBounded :
      (host : Host) (opts : Options) (mutate : Fields → Mutated) (world : World Text)
      → Respects max mutate
      → IsBounded world
      → IsBounded (mutate_under_lock json host opts mutate world).1
  mutate-IsBounded host opts mutate world respects (state, at_state, bound) =
      elim (mutate_cases json host opts mutate world state at_state) [
        | inl same ↦ (state, rw same at_state, bound)
        | inr (next, v, mutated, _, at_next) ↦ (
          stamp next v,
          at_next,
          rw (active_count-stamp next v) (respects state next bound mutated),
        )
      ]

  start_of-IsBounded :
      (host : Host) (a : Agent) (r : StateResult ReadError) (world : World Text)
      → IsBounded world
      → IsBounded (start_of json host max a r world).1
  unfolding admit
  start_of-IsBounded host a (ok state) world b =
      mutate-IsBounded host (event_options "subagent-start") (start_mutator max a) world
        (start_mutator-Respects max a) b
  start_of-IsBounded host a (err errors) world b =
      elim (Bool-cases (is_state_file_missing errors)) [ inl m ↦ rw m b | inr m ↦ rw m b ]

  judged-IsBounded :
      (host : Host) (a : Agent) (r : StateResult ReadError) (d : Dispatch.Decision)
      (world : World Text)
      → IsBounded world
      → IsBounded (judged json host max a r d world).1
  judged-IsBounded host a r Dispatch.allowed world b = start_of-IsBounded host a r world b
  judged-IsBounded host a r Dispatch.no_state world b = b
  judged-IsBounded host a r Dispatch.no_spec world b = b
  judged-IsBounded host a r Dispatch.no_diagnosis world b = b
  judged-IsBounded host a r Dispatch.no_scope world b = b
  judged-IsBounded host a r (Dispatch.wrong_gate g) world b = b

  start-IsBounded :
      (host : Host) (trim trim_lower : String → String) (scope : Option Scope)
      (diagnosis_valid : Bool) (a : Agent) (seen world : World Text)
      → IsBounded world
      → IsBounded
          (handle_subagent_start json host max trim trim_lower scope diagnosis_valid a seen world).1
  unfolding handle_subagent_start
  start-IsBounded host trim trim_lower scope diagnosis_valid a seen world b =
      elim (Bool-cases (is_implementation_dispatch trim trim_lower a.name)) [
        | inl i ↦ rw i (judged-IsBounded host a (read_task_state json seen.file) _ world b)
        | inr i ↦ rw i (start_of-IsBounded host a (read_task_state json seen.file) world b)
      ]

  stop-IsBounded :
      (host : Host) (a : Agent) (r : StateResult ReadError) (world : World Text)
      → IsBounded world
      → IsBounded (stop_of json host max a r world)
  stop-IsBounded host a (ok state) world b =
      mutate-IsBounded host (event_options "subagent-stop") (stop_mutator a) world
        (stop_mutator-Respects max a) b
  stop-IsBounded host a (err errors) world b = b

  -- However starts, stops and other locked writers that leave the count alone interleave, those between
  -- the read of a call and its lock included, and whatever the host answers, the file never counts more
  -- subagents than the ceiling, if it did not at first.
  pub Traffic-IsBounded : {from to : World Text} → IsBounded from → Traffic from to → IsBounded to
  unfolding handle_subagent_stop
  Traffic-IsBounded b here = b
  Traffic-IsBounded b (starts {mid} host trim trim_lower scope d a seen r e) =
      rw e (start-IsBounded host trim trim_lower scope d a seen mid (Traffic-IsBounded b r))
  Traffic-IsBounded b (stops {mid} host a seen r e) =
      rw e (stop-IsBounded host a (read_task_state json seen.file) mid (Traffic-IsBounded b r))
  Traffic-IsBounded b (others {mid} host opts mutate keeps r e) = rw e (
      mutate-IsBounded host opts mutate mid
        (λ state next bound h. omega (arith, keeps state next h)) (Traffic-IsBounded b r))

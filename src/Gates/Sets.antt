-- ===== src/Gates/Sets.antt =====
-- The sets of gates that lib/gate-transitions.mjs computes from its tables. A `Set` is the list of
-- its members in insertion order.
use devmate.Prelude.{ℕ, zero, suc, String, List, [], ◌∷◌, ◌++◌, Option, none, some, if◌then◌else◌}
use devmate.Prelude.Table.{Table, get_own, values}
use devmate.Prelude.Text.{str_eq, includes}
use devmate.Gates.Tables.{
  GateTable, transitions, steering, parkable_gates, linear_spine, human_approval_edges,
}

-- `set.add(x)`, and a loop of it.
unfoldable pub add : List String → String → List String
add set x = if includes set x then set else set ++ x ∷ []

unfoldable pub add_all : List String → List String → List String
unfolding add
add_all set [] = set
add_all set (x ∷ xs) = add_all (add set x) xs

-- `getOwn(table, key)` read as a list, empty where the key is absent.
abbrev or_empty {ℓ} : {A : Type ℓ} → Option (List A) → List A
or_empty none = []
or_empty (some xs) = xs

-- `(pairs[gate] ??= new Set())` and `pairs[gate].add(next)` for each target.
extend : Table (List String) → String → List String → Table (List String)
unfolding add_all
extend [] gate targets = (gate, add_all [] targets) ∷ []
extend ((g, set) ∷ pairs) gate targets =
    let rest = extend pairs gate targets in
    if str_eq g gate then (g, add_all set targets) ∷ pairs else (g, set) ∷ rest

spine_pairs : Table (List String) → Table (List String)
unfolding add_all
spine_pairs [] = []
spine_pairs ((gate, successors) ∷ rows) = (gate, add_all [] successors) ∷ spine_pairs rows

extend_rows : Table (List String) → GateTable → Table (List String)
unfolding extend
extend_rows pairs [] = pairs
extend_rows pairs ((gate, events) ∷ rows) = extend_rows (extend pairs gate (values events)) rows

extend_lanes : Table (List String) → List GateTable → Table (List String)
unfolding extend_rows
extend_lanes pairs [] = pairs
extend_lanes pairs (rows ∷ lanes) = extend_lanes (extend_rows pairs rows) lanes

-- `flattenTransitions`.
unfoldable pub flatten_transitions : Table (List String)
unfolding spine_pairs extend_lanes extend_rows extend parkable_gates
flatten_transitions =
    extend (extend_rows (extend_lanes (spine_pairs linear_spine) (values transitions)) steering)
      "parked" parkable_gates

-- `legalTransitions(lane, current)`.
legal_in : GateTable → String → List String
unfolding get_own add_all parkable_gates
legal_in lane_table current =
    let own = add_all [] (values (or_empty (get_own lane_table current))) in
    let spine = add_all own (or_empty (get_own linear_spine current)) in
    let steered = add_all spine (values (or_empty (get_own steering current))) in
    if str_eq current "parked" then add_all steered parkable_gates else steered

unfoldable pub legal_transitions : String → String → List String
unfolding legal_in get_own
legal_transitions lane current = elim (get_own transitions lane) [
  | none ↦ []
  | some lane_table ↦ legal_in lane_table current
]

abbrev to_list : Option String → List String
to_list none = []
to_list (some x) = x ∷ []

-- The neighbours that the search of `reachableGates` follows from a gate, in its order.
neighbours : GateTable → String → List String
unfolding get_own
neighbours lane_table gate =
    let steer = or_empty (get_own steering gate) in
    to_list (get_own human_approval_edges gate)
    ++ (values (or_empty (get_own lane_table gate))
        ++ (to_list (get_own steer "park") ++ to_list (get_own steer "abandon")))

-- The inner loop over the neighbours: what is not seen yet is marked and queued.
visit : List String → List String → List String → List String × List String
visit seen queue [] = (seen, queue)
visit seen queue (next ∷ rest) =
    let known = includes seen next in
    visit (if known then seen else seen ++ next ∷ []) (if known then queue else queue ++ next ∷ [])
      rest

-- The `while` loop, on fuel; `none` where the fuel runs out.
search_from : ℕ → GateTable → List String → List String → Option (List String)
unfolding neighbours visit
search_from zero lane_table seen queue = none
search_from (suc fuel) lane_table seen [] = some seen
search_from (suc fuel) lane_table seen (gate ∷ queue) =
    let (seen', queue') = visit seen queue (neighbours lane_table gate) in
    search_from fuel lane_table seen' queue'

-- `reachableGates(lane)`. The loop takes one round for each gate that is queued, and one to stop;
-- no lane can queue more than the fifteen gates.
unfoldable pub reachable_gates : String → Option (List String)
unfolding search_from get_own
reachable_gates lane = elim (get_own transitions lane) [
  | none ↦ some ("no-lane" ∷ [])
  | some lane_table ↦ search_from 20 lane_table ("no-lane" ∷ []) ("no-lane" ∷ [])
]

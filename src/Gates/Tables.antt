-- ===== src/Gates/Tables.antt =====
-- The transition tables of lib/gate-transitions.mjs, as the source writes them: lanes, gates and
-- events are strings, and a table is the list of its entries in the order of the source.
use devmate.Prelude.{String, List, [], ◌∷◌, Bool, true, false, Option, none, some}
use devmate.Prelude.Table.{Table, get_own}
use devmate.Prelude.Text.{str_eq}

-- From a gate, the gate that each event leads to.
abbrev pub EventTable : Type 0
EventTable = Table String

abbrev pub GateTable : Type 0
GateTable = Table EventTable

abbrev pub feature_table : GateTable
feature_table =
    ("no-lane", ("set-lane", "lane-set") ∷ [])
    ∷ ("lane-set", ("finish-discovery", "discovery-done") ∷ [])
    ∷ ("discovery-done", ("finish-grill", "grill-done") ∷ [])
    ∷ ("grill-done", ("finish-plan", "plan-done") ∷ [])
    ∷ ("plan-done", ("draft-spec", "spec-draft") ∷ [])
    ∷ ("plan-approved", ("draft-spec", "spec-draft") ∷ [])
    ∷ ("spec-approved", ("start-impl", "impl-started") ∷ [])
    ∷ ("impl-started", ("pass-verification", "verification-passed") ∷ [])
    ∷ ("verification-passed", ("mark-pr-ready", "pr-ready") ∷ [])
    ∷ ("pr-ready", ("complete", "done") ∷ [])
    ∷ ("done", [])
    ∷ []

abbrev pub bug_table : GateTable
bug_table =
    ("no-lane", ("set-lane", "lane-set") ∷ [])
    ∷ ("lane-set", ("finish-grill", "grill-done") ∷ [])
    ∷ ("grill-done", ("present-plan", "plan-approved") ∷ [])
    ∷ ("plan-approved", ("start-impl", "impl-started") ∷ [])
    ∷ ("impl-started", ("pass-verification", "verification-passed") ∷ [])
    ∷ ("verification-passed", ("mark-pr-ready", "pr-ready") ∷ [])
    ∷ ("pr-ready", ("complete", "done") ∷ [])
    ∷ ("done", [])
    ∷ []

abbrev pub chore_table : GateTable
chore_table =
    ("no-lane", ("set-lane", "lane-set") ∷ [])
    ∷ ("lane-set", ("present-plan", "plan-approved") ∷ [])
    ∷ ("plan-approved", ("start-impl", "impl-started") ∷ [])
    ∷ ("impl-started", ("pass-verification", "verification-passed") ∷ [])
    ∷ ("verification-passed", ("complete", "done") ∷ [])
    ∷ ("pr-ready", ("complete", "done") ∷ [])
    ∷ ("done", [])
    ∷ []

-- `TRANSITIONS`.
abbrev pub transitions : Table GateTable
transitions = ("feature", feature_table) ∷ ("bug", bug_table) ∷ ("chore", chore_table) ∷ []

abbrev park_or_abandon : EventTable
park_or_abandon = ("park", "parked") ∷ ("abandon", "abandoned") ∷ []

-- `STEERING`.
abbrev pub steering : GateTable
steering =
    ("lane-set", park_or_abandon)
    ∷ ("discovery-done", park_or_abandon)
    ∷ ("grill-done", park_or_abandon)
    ∷ ("plan-done", park_or_abandon)
    ∷ ("plan-approved", park_or_abandon)
    ∷ (
      "spec-draft",
      ("new-requirements", "grill-done") ∷ ("park", "parked") ∷ ("abandon", "abandoned") ∷ [],
    )
    ∷ ("spec-approved", park_or_abandon)
    ∷ ("spec-invalidated", park_or_abandon)
    ∷ (
      "impl-started",
      ("revise-scope", "spec-draft")
          ∷ ("re-plan", "plan-done")
          ∷ ("park", "parked")
          ∷ ("abandon", "abandoned")
          ∷ [],
    )
    ∷ ("verification-passed", park_or_abandon)
    ∷ ("pr-ready", park_or_abandon)
    ∷ ("parked", ("abandon", "abandoned") ∷ [])
    ∷ ("abandoned", [])
    ∷ []

has_park : Option String → Bool
has_park none = false
has_park (some target) = str_eq target "parked"

parkable_from : GateTable → List String
unfolding has_park get_own
parkable_from [] = []
parkable_from ((gate, events) ∷ table) =
    let rest = parkable_from table in
    elim (has_park (get_own events "park")) [ true ↦ gate ∷ rest | false ↦ rest ]

-- `PARKABLE_GATES`: the gates whose steering row has a `park` edge to `parked`.
unfoldable pub parkable_gates : List String
unfolding parkable_from
parkable_gates = parkable_from steering

-- `LINEAR_SPINE`.
abbrev pub linear_spine : Table (List String)
linear_spine =
    ("no-lane", "lane-set" ∷ [])
    ∷ ("lane-set", "discovery-done" ∷ [])
    ∷ ("discovery-done", "grill-done" ∷ [])
    ∷ ("grill-done", "plan-done" ∷ [])
    ∷ ("plan-done", "spec-draft" ∷ [])
    ∷ ("spec-draft", "spec-approved" ∷ "spec-draft" ∷ [])
    ∷ ("spec-approved", "spec-draft" ∷ [])
    ∷ ("spec-invalidated", "spec-draft" ∷ [])
    ∷ ("plan-approved", [])
    ∷ ("impl-started", [])
    ∷ ("verification-passed", [])
    ∷ ("pr-ready", [])
    ∷ ("done", [])
    ∷ ("parked", [])
    ∷ ("abandoned", [])
    ∷ []

-- `HUMAN_APPROVAL_EDGES`.
abbrev pub human_approval_edges : Table String
human_approval_edges = ("spec-draft", "spec-approved") ∷ []

-- ===== src/Gates/Edges.antt =====
-- The edges of the transition tables as relations, and checking a property of all of them by
-- evaluation.
use devmate.Prelude.{String, ◌≡◌, Bool, true, all, some}
use devmate.Prelude.Table.{get_own, get_own-all}
use devmate.Gates.Tables.{EventTable, GateTable, transitions, steering}

-- The lane's own table leads from the gate by the event to the target.
pub record OwnEdge (lane gate event target : String) : Type 0 where
  pub table : GateTable
  pub events : EventTable
  pub lane_row : get_own transitions lane ≡ some table
  pub gate_row : get_own table gate ≡ some events
  pub event_row : get_own events event ≡ some target

-- The steering table does, on every lane.
pub record SteeringEdge (gate event target : String) : Type 0 where
  pub events : EventTable
  pub gate_row : get_own steering gate ≡ some events
  pub event_row : get_own events event ≡ some target

abbrev EdgeTest : Type 0
EdgeTest = String → String → String → Bool

abbrev pub all_edges : EdgeTest → GateTable → Bool
all_edges test = all (λ row. all (λ edge. test row.0 edge.0 edge.1) row.1)

-- A test that evaluation finds true of every edge of the tables.
pub OwnEdge-all :
    (test : String → EdgeTest)
    → all (λ row. all_edges (test row.0) row.1) transitions ≡ true
    → {lane gate event target : String} → OwnEdge lane gate event target
    → test lane gate event target ≡ true
OwnEdge-all test checked {lane} {gate} {event} {target} e =
    get_own-all (test lane gate) e.events event target e.event_row (
      get_own-all (λ g evs. all (λ x. test lane g x.0 x.1) evs) e.table gate e.events e.gate_row
        (get_own-all (λ l t. all_edges (test l) t) transitions lane e.table e.lane_row checked))

pub SteeringEdge-all :
    (test : EdgeTest)
    → all_edges test steering ≡ true
    → {gate event target : String} → SteeringEdge gate event target
    → test gate event target ≡ true
SteeringEdge-all test checked {gate} {event} {target} e =
    get_own-all (test gate) e.events event target e.event_row (
      get_own-all (λ g evs. all (λ x. test g x.0 x.1) evs) steering gate e.events e.gate_row
        checked)

-- ===== src/Dispatch/Sequencing.antt =====
-- When a dispatch is out of order, and that moving forward keeps dispatches in order.
use devmate.Prelude.{
  ℕ, ◌<◌, String, List, [], Bool, true, false, not, ◌||◌, Option, none, some, ◌≡◌, refl, ap, sym,
  ◌↔◌, arith, Option-cases, inl, inr, all, ltb,
}
use devmate.Prelude.Text.{str_eq}
use devmate.Prelude.Table.{get_own, get_own-all}
use devmate.Json.{Json}
use devmate.Gates.Edges.{OwnEdge, OwnEdge-all}
use devmate.Dispatch.{
  lane_gate_order, index_of, gate_at_least, at_least, compared, min_gate, rows_of,
  analysis_min_gate, Order, in_order, too_early, sequenced, judged, evaluate_dispatch_sequencing,
  normalize_lane, normalize_dispatched_agent, is_implementation_dispatch,
}

abbrev listed : Option (List String) → List String
listed none = []
listed (some gates) = gates

implies : Bool → Bool → Bool
implies a b = not a || b

abbrev is_in_order : Order → Bool
is_in_order in_order = true
is_in_order (too_early _) = false

-- At one edge of a lane, every agent that is in order before it is in order after it.
edge_keeps : String → String → String → String → Bool
edge_keeps lane gate event to =
    all
      (λ row.
        implies (is_in_order (judged row.1 (gate_at_least lane gate row.1)))
          (is_in_order (judged row.1 (gate_at_least lane to row.1))))
      (rows_of (get_own analysis_min_gate lane))

unfoldable pub order_of : String → List String
unfolding get_own
order_of lane = listed (get_own lane_gate_order lane)

rises : Option ℕ → Option ℕ → Bool
rises (some i) (some j) = ltb i j
rises _ _ = true

-- At one edge of a lane, the gate comes before its successor in the order of the lane.
edge_rises : String → String → String → String → Bool
edge_rises lane gate event to = rises (index_of (order_of lane) gate) (index_of (order_of lane) to)

-- Every own edge of a lane goes forward in the order of the lane's gates.
pub OwnEdge-index_of :
    {lane gate event to : String} (i j : ℕ)
    → OwnEdge lane gate event to
    → index_of (order_of lane) gate ≡ some i
    → index_of (order_of lane) to ≡ some j
    → i < j
unfolding edge_rises rises
OwnEdge-index_of {lane} {gate} {event} {to} i j e at_gate at_to =
    let checked =
      OwnEdge-all edge_rises (unfold edge_rises order_of index_of get_own rises in refl) e in
    let risen : ltb i j ≡ true = rw (at_gate, at_to) at checked in ground arith

implied : {a b : Bool} → implies a b ≡ true → a ≡ true → b ≡ true
unfolding implies
implied h a = ground arith

in_order_of : (o : Order) → is_in_order o ≡ true → o ≡ in_order
in_order_of in_order h = refl
in_order_of (too_early required) h = cc

sequenced-OwnEdge :
    (agent : String) {lane gate event to : String}
    → OwnEdge lane gate event to
    → sequenced lane gate (min_gate lane agent) ≡ in_order
    → sequenced lane to (min_gate lane agent) ≡ in_order
sequenced-OwnEdge agent {lane} {gate} {event} {to} e h = elim (Option-cases (min_gate lane agent)) [
  | inl free ↦ rw free refl
  | inr (required, bound) ↦
      let keeps =
        OwnEdge-all edge_keeps (unfold edge_keeps gate_at_least index_of get_own implies in refl)
          e in
      let kept =
        get_own-all
          (λ _ r.
            implies (is_in_order (judged r (gate_at_least lane gate r)))
              (is_in_order (judged r (gate_at_least lane to r))))
          (rows_of (get_own analysis_min_gate lane)) agent required (unfold min_gate in bound)
          (unfold edge_keeps in keeps) in
      let before = rw bound at h in
      let first : is_in_order (judged required (gate_at_least lane gate required)) ≡ true =
        ap is_in_order before in
      rw bound (in_order_of _ (implied kept first))
]

-- A dispatch that is in order stays in order when the task moves along an edge of its lane.
pub evaluate_dispatch_sequencing-OwnEdge :
    (trim trim_lower : String → String) (agent : String) (lane_value : Option Json)
    {gate event to : String}
    → OwnEdge (normalize_lane trim_lower lane_value) gate event to
    → evaluate_dispatch_sequencing trim trim_lower agent lane_value gate ≡ in_order
    → evaluate_dispatch_sequencing trim trim_lower agent lane_value to ≡ in_order
unfolding evaluate_dispatch_sequencing
evaluate_dispatch_sequencing-OwnEdge trim trim_lower agent lane_value {gate} {event} {to} e h =
    ground (arith, sequenced-OwnEdge (normalize_dispatched_agent trim trim_lower agent) e)

at_least-false_iff :
    (a b : Option ℕ)
    → (at_least a b ≡ some false) ↔ ((i : ℕ) × (j : ℕ) × (a ≡ some i) × (b ≡ some j) × (i < j))
at_least-false_iff none b = ground arith
at_least-false_iff (some i) none = ground arith
at_least-false_iff (some i) (some j) =
    ((λ h. (i, j, refl, refl, ground arith)), λ (x, y, a, b, c). ground arith)

compared-false_iff :
    (o : Option (List String)) (gate required : String)
    → (compared o gate required ≡ some false) ↔ (
        (i : ℕ) × (j : ℕ) × (index_of (listed o) gate ≡ some i)
        × (index_of (listed o) required ≡ some j)
        × (i < j))
unfolding index_of
compared-false_iff none gate required = ground arith
compared-false_iff (some order) gate required =
    at_least-false_iff (index_of order gate) (index_of order required)

judged-eq-too_early_iff :
    (r required : String) (verdict : Option Bool)
    → (judged r verdict ≡ too_early required) ↔ ((r ≡ required) × (verdict ≡ some false))
judged-eq-too_early_iff r required none = ground arith
judged-eq-too_early_iff r required (some true) = ground arith
judged-eq-too_early_iff r required (some false) = ground arith

sequenced-too_early_iff :
    (lane gate required : String) (least : Option String)
    → (sequenced lane gate least ≡ too_early required) ↔ (
        (least ≡ some required)
        × ((i : ℕ) × (j : ℕ) × (index_of (order_of lane) gate ≡ some i)
            × (index_of (order_of lane) required ≡ some j)
            × (i < j)))
unfolding gate_at_least order_of
sequenced-too_early_iff lane gate required none = ground arith
sequenced-too_early_iff lane gate required (some r) =
    let (f, g) = judged-eq-too_early_iff r required (gate_at_least lane gate r) in
    let (f', g') = compared-false_iff (get_own lane_gate_order lane) gate r in
    (
      (λ m. let (e, v) = f m in let (i, j, a, b, c) = f' v in (ap some e, (i, j, a, rw e at b, c))),
      λ (e, (i, j, a, b, c)).
          let same : r ≡ required = cc e in g (same, g' (i, j, a, rw (sym same) at b, c)),
    )

-- A dispatch is refused as too early for a gate exactly where the agent, which is named and no
-- implementation agent, has that gate as its least gate in the lane, and the current gate is in the
-- lane's order before it.
pub evaluate_dispatch_sequencing-too_early_iff :
    (trim trim_lower : String → String) (name : String) (lane_value : Option Json)
    (gate required : String)
    → (evaluate_dispatch_sequencing trim trim_lower name lane_value gate ≡ too_early required) ↔ (
        (str_eq (normalize_dispatched_agent trim trim_lower name) "" ≡ false)
        × (is_implementation_dispatch trim trim_lower
              (normalize_dispatched_agent trim trim_lower name)
            ≡ false)
        × (min_gate
              (normalize_lane trim_lower lane_value)
              (normalize_dispatched_agent trim trim_lower name)
            ≡ some required)
        × ((i : ℕ) × (j : ℕ) × (index_of (order_of (normalize_lane trim_lower lane_value)) gate
              ≡ some i)
            × (index_of (order_of (normalize_lane trim_lower lane_value)) required ≡ some j)
            × (i < j)))
unfolding evaluate_dispatch_sequencing
evaluate_dispatch_sequencing-too_early_iff trim trim_lower name lane_value gate required =
    let agent = normalize_dispatched_agent trim trim_lower name in
    let lane = normalize_lane trim_lower lane_value in
    ground (arith, sequenced-too_early_iff lane gate required (min_gate lane agent))

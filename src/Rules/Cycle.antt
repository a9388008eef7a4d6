-- ===== src/Rules/Cycle.antt =====
-- workflow/workflow.go: detectGatewayCycle, the depth-first search of Definition.Validate. A node is
-- gray exactly while it is on the path, so the colours are the path and the list of black nodes.
-- The search descends from a white node only, so one level for each gateway is fuel enough.
use vogel.Prelude.{
  ℕ, zero, suc, String, Bool, true, false, not, ◌&&◌, ◌||◌, Option, none, some, List, [], ◌∷◌, map,
  filter, length, is_empty, any, ◌==◌, string_eq, if◌then◌else◌,
}
use vogel.Definition.{Definition, Node, Transition, is_automatic}
use vogel.Rules.{Rule, Violation, at_node, mem, node_by_id, node_has}

-- The last node of the path stands first.
pub record Search : Type 0 where
  pub path : List String
  pub black : List String
  pub cycle : Option (List String)

-- `append(append([]string{}, path[start:]...), next)`, where `next` is on the path.
unfoldable pub path_from : String → List String → List String → List String
path_from next [] acc = acc
path_from next (p ∷ ps) acc = elim (p == next) [
  | true ↦ p ∷ acc
  | false ↦ path_from next ps (p ∷ acc)
]

-- The loop of `visit` over `adj[n]`; `visit` is the closure itself.
unfoldable pub visit_all : (String → Search → Search) → List String → Search → Search
visit_all visit [] s = s
visit_all visit (next ∷ rest) s = elim s.cycle [
  | some c ↦ s
  | none ↦ visit_all visit rest (
      if mem next s.path
      then record s { cycle = some (path_from next s.path (next ∷ [])) }
      else if mem next s.black
      then s
      else visit next s)
]

-- `path = path[:len(path)-1]; color[n] = black`, unless a cycle has been found.
unfoldable pub leave : String → Search → Search
leave n s = elim s.cycle [
  | some c ↦ s
  | none ↦ record {
    path = elim s.path [ [] ↦ [] | p ∷ ps ↦ ps ];
    black = n ∷ s.black;
    cycle = none;
  }
]

unfoldable pub visit : (String → List String) → ℕ → String → Search → Search
visit adj zero n s = s
visit adj (suc fuel) n s =
    leave n (visit_all (visit adj fuel) (adj n) (record s { path = n ∷ s.path }))

unfoldable pub detect_from : (String → Search → Search) → List String → Search → Search
detect_from visit [] s = s
detect_from visit (n ∷ ns) s = elim s.cycle [
  | some c ↦ s
  | none ↦ detect_from visit ns (if mem n s.path || mem n s.black then s else visit n s)
]

unfoldable pub detect_gateway_cycle : (String → List String) → List String → Option (List String)
detect_gateway_cycle adj nodes =
    (detect_from (visit adj (length nodes)) nodes
      (record { path = []; black = []; cycle = none })).cycle

abbrev pub automatic_node : Option Node → Bool
automatic_node n = node_has (λ m. is_automatic m.kind) n

-- `gatewayAdjacency[id]`
unfoldable pub gateway_adjacency : Definition → String → List String
gateway_adjacency d id =
    map (λ (t : Transition). t.to)
      (filter
        (λ (t : Transition).
          automatic_node (node_by_id d t.from)
          && automatic_node (node_by_id d t.to)
          && t.from == id)
        d.transitions)

unfoldable pub gateway_nodes : Definition → List String
gateway_nodes d =
    map (λ (n : Node). n.id)
      (filter (λ (n : Node). not (n.id == "") && is_automatic n.kind) d.nodes)

cycle_report : Option (List String) → List Violation
cycle_report none = []
cycle_report (some []) = at_node Rule.gateway_cycle "" ∷ []
cycle_report (some (id ∷ rest)) = at_node Rule.gateway_cycle id ∷ []

unfoldable pub cycle_checks : Definition → List Violation
unfolding cycle_report
cycle_checks d =
    if any (λ (n : String). not (is_empty (gateway_adjacency d n))) (gateway_nodes d)
    then cycle_report (detect_gateway_cycle (gateway_adjacency d) (gateway_nodes d))
    else []

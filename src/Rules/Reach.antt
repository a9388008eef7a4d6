-- ===== src/Rules/Reach.antt =====
-- The breadth-first searches of the definition's rules: Definition.Validate's walk from the start
-- node, and `reaches` of joinpolicy.go. A search marks a node when it puts it in the queue, so it
-- marks each identifier once, and one round for each transition and one more is fuel enough.
use vogel.Prelude.{
  ℕ, zero, suc, String, not, ◌&&◌, Option, none, some, List, [], ◌∷◌, ◌++◌, map, length, ◌==◌,
  string_eq, nat_eq, if◌then◌else◌,
}
use vogel.Definition.{Definition, Node, Transition, start_node}
use vogel.Rules.{Rule, Violation, at_node, report_if, concat_map, mem, outgoing}
use vogel.Rules.Nodes.{starts}

pub record Visit : Type 0 where
  pub seen : List String
  pub queue : List String

abbrev pub offer : Visit → String → Visit
offer v x = if mem x v.seen then v else record { seen = x ∷ v.seen; queue = v.queue ++ x ∷ [] }

-- `for _, next := range …`
unfoldable pub offer_all : List String → Visit → Visit
offer_all [] v = v
offer_all (x ∷ xs) v = offer_all xs (offer v x)

-- `for len(queue) > 0`
unfoldable pub walk : (String → List String) → ℕ → Visit → Visit
walk next zero v = v
walk next (suc fuel) v = elim v.queue [
  | [] ↦ v
  | id ∷ rest ↦ walk next fuel (offer_all (next id) (record { seen = v.seen; queue = rest }))
]

abbrev pub start_at : String → Visit
start_at id = record { seen = id ∷ []; queue = id ∷ [] }

abbrev pub targets : List Transition → List String
targets ts = map (λ (t : Transition). t.to) ts

-- `adjacency[id]`
unfoldable pub adjacency : Definition → String → List String
adjacency d id = targets (outgoing d id)

unfoldable pub search : Definition → String → Visit
search d id = walk (adjacency d) (suc (length d.transitions)) (start_at id)

unfoldable pub unreachable : Definition → Option Node → List Violation
unreachable d none = []
unreachable d (some start) =
    concat_map
      (λ (n : Node).
        report_if (not (n.id == "") && not (mem n.id (search d start.id).seen))
          (at_node Rule.unreachable n.id))
      d.nodes

unfoldable pub reach_checks : Definition → List Violation
reach_checks d = if starts d == 1 then unreachable d (start_node d) else []

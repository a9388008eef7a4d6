-- ===== src/Rules/Blocks.antt =====
-- workflow/blocks.go: the region that a split bounds, and what Definition.Validate asks of it. The
-- set of a branch's nodes is the list of them in breadth-first order. One round of a search for
-- each transition and one more is fuel enough.
pub mod Check
use vogel.Prelude.{
  ℕ, zero, suc, ◌<◌, ltb, String, Bool, true, false, not, ◌&&◌, ◌||◌, Option, none, some, List, [],
  ◌∷◌, ◌++◌, map, filter, any, find, length, ◌==◌, string_eq, nat_eq, if◌then◌else◌,
}
use vogel.Definition.{Definition, Node, Transition, is_split, is_join}
use vogel.Rules.{mem, node_by_id, node_has, outgoing}
use vogel.Rules.Reach.{targets}

pub record Branch : Type 0 where
  pub action : String
  pub order : List String
  pub reenters : Bool

pub record Block : Type 0 where
  pub split : Node
  pub join : String
  pub branches : List Branch

abbrev pub interior : Block → String → Bool
interior b id = any (λ (r : Branch). mem id r.order) b.branches

-- block.contains
unfoldable pub contains : Block → String → Bool
contains b id = id == b.split.id || id == b.join || interior b id

unfoldable pub orders : List Branch → List String
orders [] = []
orders (r ∷ rs) = r.order ++ orders rs

-- block.members
unfoldable pub members : Block → List String
unfolding orders
members b = b.split.id ∷ (orders b.branches ++ b.join ∷ [])

abbrev onward : List Transition → List Transition
onward ts = filter (λ (t : Transition). not t.is_return) ts

abbrev add_node : Branch → String → Branch
add_node r id = record { action = r.action; order = r.order ++ id ∷ []; reenters = r.reenters }

abbrev mark_reentry : Branch → Branch
mark_reentry r = record { action = r.action; order = r.order; reenters = true }

-- The queue of buildBlock.
unfoldable pub grow : Definition → Node → ℕ → List String → Branch → Branch
grow d s zero queue r = r
grow d s (suc fuel) queue r = elim queue [
  | [] ↦ r
  | id ∷ rest ↦
      let skipped = grow d s fuel rest r in
      let again = grow d s fuel rest (mark_reentry r) in
      let added = grow d s fuel (rest ++ targets (onward (outgoing d id))) (add_node r id) in
      if id == s.join || mem id r.order then skipped else if id == s.id then again else added
]

unfoldable pub build_branch : Definition → Node → Transition → Branch
build_branch d s t =
    grow d s (suc (length d.transitions)) (t.to ∷ [])
      (record { action = t.action; order = []; reenters = false })

unfoldable pub build_block : Definition → Node → Block
build_block d s = record {
  split = s;
  join = s.join;
  branches = map (build_branch d s) (outgoing d s.id);
}

abbrev pub names_join : Definition → Node → Bool
names_join d n =
    not (n.id == "")
    && is_split n.kind
    && not (n.join == "")
    && node_has (λ j. is_join j.kind) (node_by_id d n.join)

-- The blocks of validateBlocks, in the order of their splits.
unfoldable pub blocks : Definition → List Block
blocks d = map (build_block d) (filter (names_join d) d.nodes)

-- `incoming[id]`
unfoldable pub incoming : Definition → String → List String
incoming d id =
    map (λ (t : Transition). t.from)
      (filter (λ (t : Transition). not t.is_return && t.to == id) d.transitions)

pub record BranchKey : Type 0 where
  pub split : String
  pub index : ℕ

-- The best branch so far and its size, none before the first.
abbrev Best : Type 0
Best = Option (BranchKey × ℕ)

abbrev smaller : ℕ → Best → Bool
smaller size none = true
smaller size (some (k, n)) = ltb size n

unfoldable pub best_branch : Block → String → ℕ → List Branch → Best → Best
best_branch b id i [] best = best
best_branch b id i (r ∷ rs) best = best_branch b id (suc i) rs (
    if mem id r.order && smaller (length r.order) best
    then some (record { split = b.split.id; index = suc i }, length r.order)
    else best)

unfoldable pub best_block : String → List Block → Best → Best
best_block id [] best = best
best_block id (b ∷ bs) best = best_block id bs (best_branch b id 0 b.branches best)

abbrev key_of : Best → BranchKey
key_of none = record { split = ""; index = 0 }
key_of (some (k, n)) = k

unfoldable pub innermost_branch : List Block → String → BranchKey
innermost_branch bs id = key_of (best_block id bs none)

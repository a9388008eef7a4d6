-- ===== src/Rules/Blocks/Check.antt =====
-- workflow/blocks.go: validateBlocks, checkBlock and checkNesting.
use vogel.Prelude.{
  ℕ, suc, String, Bool, not, ◌&&◌, ◌||◌, Option, none, some, List, [], ◌∷◌, ◌++◌, filter, any, find,
  count, length, ◌==◌, string_eq, nat_eq, if◌then◌else◌,
}
use vogel.Definition.{Definition, Node, Transition, is_split, is_join}
use vogel.Rules.{
  Rule, Violation, at_node, at_transition, report_if, concat, concat_map, mem, node_by_id, node_has,
  is_some,
}
use vogel.Rules.Reach.{walk}
use vogel.Rules.Blocks.{
  Branch, Block, BranchKey, interior, contains, orders, members, blocks, names_join, incoming,
  innermost_branch,
}

split_check : Node → Option Node → List Violation
split_check n none = at_node Rule.split_unknown_join n.id ∷ []
split_check n (some j) = report_if (not (is_join j.kind)) (at_node Rule.split_names_no_join n.id)

unfoldable pub split_checks : Definition → List Violation
unfolding split_check
split_checks d =
    concat_map
      (λ (n : Node).
        if n.id == "" || not (is_split n.kind)
        then []
        else if n.join == ""
        then at_node Rule.split_without_join n.id ∷ []
        else split_check n (node_by_id d n.join))
      d.nodes

-- `len(namedBy[id])`
abbrev pub named_by : Definition → String → ℕ
named_by d id = count (λ (n : Node). names_join d n && n.join == id) d.nodes

unfoldable pub naming_checks : Definition → List Violation
naming_checks d =
    concat_map
      (λ (n : Node).
        if n.id == "" || not (is_join n.kind)
        then []
        else if named_by d n.id == 0
        then at_node Rule.join_unnamed n.id ∷ []
        else report_if (not (named_by d n.id == 1)) (at_node Rule.join_named_twice n.id))
      d.nodes

-- The walk backwards from the join inside the branch.
unfoldable pub arrives : Definition → Block → Branch → List String
arrives d b r =
    (walk (λ id. filter (λ (from : String). mem from r.order) (incoming d id))
      (suc (length d.transitions)) (record { seen = []; queue = b.join ∷ [] })).seen

abbrev is_terminal : Definition → String → Bool
is_terminal d id = node_has (λ n. n.terminal) (node_by_id d id)

abbrev first_of : Option String → (String → Violation) → List Violation
first_of none v = []
first_of (some id) v = v id ∷ []

unfoldable pub sibling_checks : Block → Branch → List Branch → List Violation
sibling_checks b r [] = []
sibling_checks b r (s ∷ ss) =
    first_of (find (λ (id : String). mem id s.order) r.order) (at_node Rule.shared_node)
    ++ sibling_checks b r ss

unfoldable pub branch_checks : Definition → Block → List Branch → List Violation
branch_checks d b [] = []
branch_checks d b (r ∷ rs) =
    report_if r.reenters (at_node Rule.reenters_split b.split.id)
    ++ concat_map (λ (id : String). report_if (is_terminal d id) (at_node Rule.early_terminal id))
        r.order
    ++ first_of
        (find (λ (id : String). not (mem id (arrives d b r)) && not (is_terminal d id)) r.order)
        (at_node Rule.never_joins)
    ++ sibling_checks b r rs
    ++ branch_checks d b rs

-- `report`, which reports each pair of nodes once; `reported` holds the sources seen for this node.
unfoldable pub entry_checks : Block → Violation → List String → List String → List Violation
entry_checks b v reported [] = []
entry_checks b v reported (from ∷ rest) =
    let inside = from == b.split.id || interior b from || mem from reported in
    report_if (not inside) v ++ entry_checks b v (if inside then reported else from ∷ reported) rest

-- The nodes of the block; `visited` holds those before, whose sources have been reported.
unfoldable pub entered_checks : Definition → Block → List String → List String → List Violation
entered_checks d b visited [] = []
entered_checks d b visited (id ∷ ids) =
    entry_checks b (at_node Rule.entered_from_outside id)
      (if mem id visited then incoming d id else []) (incoming d id)
    ++ entered_checks d b (id ∷ visited) ids

unfoldable pub block_checks : Definition → Block → List Violation
block_checks d b =
    branch_checks d b b.branches
    ++ entered_checks d b [] (orders b.branches)
    ++ entry_checks b (at_node Rule.join_from_outside b.join) [] (incoming d b.join)

-- `home`: the first branch of the outer block that has the inner split.
unfoldable pub home_checks : Block → Option Branch → List Violation
home_checks inner none = []
home_checks inner (some home) =
    report_if (any (λ (id : String). not (mem id home.order)) (members inner))
      (at_node Rule.not_nested inner.split.id)

abbrev nested_check : Block → Block → List Violation
nested_check outer inner =
    if interior outer inner.split.id
    then home_checks inner (find (λ (r : Branch). mem inner.split.id r.order) outer.branches)
    else []

-- Over every ordered pair of two blocks at different places.
unfoldable pub nested_in : Block → List Block → List Violation
nested_in outer inners = concat_map (nested_check outer) inners

unfoldable pub nesting_checks : List Block → List Block → List Violation
nesting_checks before [] = []
nesting_checks before (b ∷ bs) = nested_in b (before ++ bs) ++ nesting_checks (before ++ b ∷ []) bs

abbrev overlap_check : Block → Block → List Violation
overlap_check a b =
    if interior a b.split.id || interior b a.split.id
    then []
    else report_if (any (contains b) (members a)) (at_node Rule.overlapping a.split.id)

unfoldable pub overlap_checks : List Block → List Violation
overlap_checks [] = []
overlap_checks (b ∷ bs) = concat_map (overlap_check b) bs ++ overlap_checks bs

abbrev same_branch : BranchKey → BranchKey → Bool
same_branch a b = a.split == b.split && a.index == b.index

unfoldable pub return_checks : Definition → ℕ → List Transition → List Violation
return_checks d i [] = []
return_checks d i (t ∷ ts) =
    report_if
      (t.is_return
        && is_some (node_by_id d t.from)
        && is_some (node_by_id d t.to)
        && not
            (same_branch (innermost_branch (blocks d) t.from) (innermost_branch (blocks d) t.to)))
      (at_transition Rule.return_crosses i)
    ++ return_checks d (suc i) ts

-- validateBlocks
unfoldable pub blocks_checks : Definition → List Violation
blocks_checks d = concat (
    split_checks d
    ∷ naming_checks d
    ∷ concat_map (block_checks d) (blocks d)
    ∷ nesting_checks [] (blocks d)
    ∷ overlap_checks (blocks d)
    ∷ return_checks d 0 d.transitions
    ∷ [])

-- ===== src/Names.antt =====
-- workflow/workflow.go and workflow/assignrule.go: the sorted, deduplicated names that a definition
-- refers to.
pub mod Listed
use Prim.Native.Nat.{Ordering}
use Prim.Native.String.{compare}
use vogel.Prelude.{
  String, Bool, true, false, not, ◌||◌, List, [], ◌∷◌, ◌++◌, map, filter, any, sort_by, ◌==◌,
  string_eq, if◌then◌else◌,
}
use vogel.Definition.{Definition, Node, Transition}

-- Go's `<` on strings.
unfoldable pub text_before : String → String → Bool
text_before a b = elim (compare a b) [ Ordering.lt ↦ true | _ ↦ false ]

-- The loop that skips empty and seen names, then `sort.Strings`.
distinct : List String → List String → List String
distinct seen [] = []
distinct seen (x ∷ xs) =
    let skip = x == "" || any (λ (y : String). y == x) seen in
    let rest = distinct (if skip then seen else x ∷ seen) xs in if skip then rest else x ∷ rest

unfoldable pub names : List String → List String
unfolding text_before distinct
names xs = sort_by text_before (distinct [] xs)

unfoldable pub concat_map : {A : Type 0} → (A → List String) → List A → List String
concat_map f [] = []
concat_map f (x ∷ xs) = f x ++ concat_map f xs

-- Definition.GuardNames
unfoldable pub guard_names : Definition → List String
unfolding names
guard_names d = names (map (λ (t : Transition). t.guard) d.transitions)

-- Definition.DeadlineRules
unfoldable pub deadline_rules : Definition → List String
unfolding names
deadline_rules d =
    names (map (λ (n : Node). n.deadline_rule) (filter (λ (n : Node). not n.terminal) d.nodes))

-- Definition.EffectNames
unfoldable pub effect_names : Definition → List String
unfolding names concat_map
effect_names d = names (
    concat_map (λ (n : Node). n.effects) d.nodes
    ++ concat_map (λ (t : Transition). t.effects) d.transitions)

-- Definition.AssignRules
unfoldable pub assign_rules : Definition → List String
unfolding names
assign_rules d = names (map (λ (n : Node). n.assign_rule) d.nodes)

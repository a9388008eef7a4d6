-- ===== src/Rules.antt =====
-- workflow/workflow.go: what Definition.Validate reports. A message is the rule it reports and its
-- subject, the identifier of a node or the index of a transition; the source renders both as text,
-- which only a person reads. The maps that Validate builds are functions of the definition.
pub mod Nodes
pub mod Transitions
pub mod Routes
pub mod Cycle
pub mod Reach
pub mod Blocks
pub mod Policies
use vogel.Prelude.{
  ℕ, String, Bool, true, false, not, ◌&&◌, Option, none, some, List, [], ◌∷◌, ◌++◌, map, filter,
  any, is_empty, ◌==◌, string_eq, if◌then◌else◌,
}
use vogel.Definition.{
  Definition, Node, Transition, NodeKind, is_automatic, CommentPolicy, canonical, JoinPolicy,
  Outcome,
}

pub data Rule : Type 0 where
  name_required version_positive some_node one_start some_terminal : Rule
  empty_id duplicate_id invalid_kind start_and_terminal negative_deadline two_deadlines : Rule
  terminal_assign_rule empty_effect duplicate_effect automatic_start automatic_terminal : Rule
  automatic_eligible automatic_deadline automatic_on_expire automatic_assign_rule : Rule
  automatic_effects join_without_split : Rule
  empty_action invalid_comment unknown_from unknown_to from_terminal automatic_comment : Rule
  automatic_return parallel_guard return_to_terminal return_to_automatic duplicate_action : Rule
  on_expire_missing on_expire_return join_routes join_guard few_routes no_default : Rule
  many_defaults default_not_last gateway_cycle dead_end unreachable : Rule
  split_without_join split_unknown_join split_names_no_join join_unnamed join_named_twice : Rule
  reenters_split early_terminal never_joins shared_node entered_from_outside join_from_outside :
      Rule
  not_nested overlapping return_crosses : Rule
  branch_outcomes no_way_back policy_without_join invalid_policy collect_target verdict_target :
      Rule
  inclusive_policy stray_outcome policy_from_automatic rejected_comment missing_outcome : Rule
  invalid_outcome : Rule

pub record Violation : Type 0 where
  pub rule : Rule
  pub at : String
  pub index : ℕ

abbrev pub at_node : Rule → String → Violation
at_node rule id = record { rule = rule; at = id; index = 0 }

abbrev pub at_transition : Rule → ℕ → Violation
at_transition rule i = record { rule = rule; at = ""; index = i }

-- `if cond { addf(…) }`
abbrev pub report_if : Bool → Violation → List Violation
report_if cond v = if cond then v ∷ [] else []

abbrev pub concat_map {ℓ κ} : {A : Type ℓ} {B : Type κ} → (A → List B) → List A → List B
concat_map f [] = []
concat_map f (x ∷ xs) = f x ++ concat_map f xs

abbrev pub concat {ℓ} : {A : Type ℓ} → List (List A) → List A
concat [] = []
concat (xs ∷ xss) = xs ++ concat xss

-- `seen[id]` of a map from strings to Booleans
unfoldable pub mem : String → List String → Bool
mem id ids = any (λ (x : String). x == id) ids

-- `nodeByID`: the last node of that identifier, which is not empty.
unfoldable pub last_node : String → List Node → Option Node
last_node id [] = none
last_node id (n ∷ ns) =
    let later = last_node id ns in
    elim later [ some m ↦ some m | none ↦ if n.id == id && not (n.id == "") then some n else none ]

unfoldable pub node_by_id : Definition → String → Option Node
node_by_id d id = last_node id d.nodes

abbrev pub is_some {ℓ} : {A : Type ℓ} → Option A → Bool
is_some none = false
is_some (some a) = true

-- A field of `nodeByID[id]`, which is the zero Node for an unknown identifier.
abbrev pub node_has : (Node → Bool) → Option Node → Bool
node_has p none = false
node_has p (some n) = p n

-- `outgoingByNode[id]`: the transitions from a node that is known, in declaration order.
unfoldable pub outgoing : Definition → String → List Transition
outgoing d id =
    filter (λ (t : Transition). t.from == id && is_some (node_by_id d t.from)) d.transitions

-- NodeKind.Valid
unfoldable pub is_kind : NodeKind → Bool
is_kind (NodeKind.unknown s) = false
is_kind _ = true

-- CommentPolicy.Valid
unfoldable pub is_comment_policy : CommentPolicy → Bool
is_comment_policy (CommentPolicy.unknown s) = false
is_comment_policy _ = true

-- `Canonical() == CommentNone`, and `== CommentRequired`
unfoldable pub takes_no_comment : CommentPolicy → Bool
takes_no_comment p = elim (canonical p) [ CommentPolicy.none' ↦ true | _ ↦ false ]

unfoldable pub needs_comment : CommentPolicy → Bool
needs_comment p = elim (canonical p) [ CommentPolicy.required ↦ true | _ ↦ false ]

-- JoinPolicy.Valid
unfoldable pub is_join_policy : JoinPolicy → Bool
is_join_policy (JoinPolicy.unknown s) = false
is_join_policy _ = true

abbrev pub is_parallel_split : NodeKind → Bool
is_parallel_split NodeKind.parallel = true
is_parallel_split _ = false

abbrev pub is_inclusive_split : NodeKind → Bool
is_inclusive_split NodeKind.inclusive = true
is_inclusive_split _ = false

abbrev pub has_outcome : Outcome → Bool
has_outcome Outcome.no_outcome = false
has_outcome _ = true

-- Validate's checkEffects: an empty or repeated name.
unfoldable pub effect_checks : Violation → Violation → List String → List String → List Violation
effect_checks blank again seen [] = []
effect_checks blank again seen (name ∷ names) =
    let rest = effect_checks blank again (if name == "" then seen else name ∷ seen) names in
    (if name == "" then blank ∷ rest else report_if (mem name seen) again ++ rest)

-- ===== src/Validate.antt =====
-- workflow/workflow.go: Definition.Validate, the reports of every rule in the order of the source.
pub mod Parts
pub mod Lookup
pub mod Ends
pub mod Exits
pub mod Ways
pub mod Walks
pub mod Search
pub mod Tests
use vogel.Prelude.{ℕ, zero, Bool, List, [], ◌∷◌, is_empty}
use vogel.Definition.{Definition}
use vogel.Rules.{Violation, concat}
use vogel.Rules.Nodes.{header_checks, nodes_checks, count_checks}
use vogel.Rules.Transitions.{transitions_checks, on_expire_checks}
use vogel.Rules.Routes.{routes_checks, dead_end_checks}
use vogel.Rules.Cycle.{cycle_checks}
use vogel.Rules.Reach.{reach_checks}
use vogel.Rules.Blocks.Check.{blocks_checks}
use vogel.Rules.Policies.{policies_checks}

-- The reports of each rule.
unfoldable pub reports : Definition → List (List Violation)
reports d =
    header_checks d
    ∷ nodes_checks [] d.nodes
    ∷ count_checks d
    ∷ transitions_checks d [] 0 d.transitions
    ∷ on_expire_checks d
    ∷ routes_checks d
    ∷ cycle_checks d
    ∷ dead_end_checks d
    ∷ reach_checks d
    ∷ blocks_checks d
    ∷ policies_checks d
    ∷ []

-- `errs`
unfoldable pub violations : Definition → List Violation
violations d = concat (reports d)

-- Validate returns nil.
unfoldable pub is_valid : Definition → Bool
is_valid d = is_empty (violations d)

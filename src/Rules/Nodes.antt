-- ===== src/Rules/Nodes.antt =====
-- Definition.Validate, its loop over the nodes and the counts after it.
use vogel.Prelude.{
  ℕ, zero, suc, String, Bool, true, false, not, ◌&&◌, ◌||◌, List, [], ◌∷◌, ◌++◌, is_empty, count, ℤ,
  pos, negsuc, ◌==◌, string_eq, nat_eq, if◌then◌else◌,
}
use vogel.Definition.{Definition, Node, is_automatic, is_split, is_zero}
use vogel.Rules.{Rule, Violation, at_node, report_if, concat, mem, is_kind, effect_checks}

abbrev is_negative : ℤ → Bool
is_negative (pos n) = false
is_negative (negsuc n) = true

abbrev is_unset : ℤ → Bool
is_unset (pos zero) = true
is_unset _ = false

abbrev is_below_one : ℤ → Bool
is_below_one (pos (suc n)) = false
is_below_one _ = true

-- The rules of a node of an automatic kind.
unfoldable pub automatic_checks : Node → List Violation
automatic_checks n = concat (
    report_if n.start (at_node Rule.automatic_start n.id)
    ∷ report_if n.terminal (at_node Rule.automatic_terminal n.id)
    ∷ report_if (not (is_zero n.eligible)) (at_node Rule.automatic_eligible n.id)
    ∷ report_if (not (is_unset n.deadline) || not (n.deadline_rule == ""))
        (at_node Rule.automatic_deadline n.id)
    ∷ report_if (not (n.on_expire == "")) (at_node Rule.automatic_on_expire n.id)
    ∷ report_if (not (n.assign_rule == "")) (at_node Rule.automatic_assign_rule n.id)
    ∷ report_if (not (is_empty n.effects)) (at_node Rule.automatic_effects n.id)
    ∷ [])

-- The rules of one node; `seen` holds the identifiers before it.
unfoldable pub node_reports : List String → Node → List (List Violation)
node_reports seen n =
    (if n.id == ""
      then at_node Rule.empty_id n.id ∷ []
      else report_if (mem n.id seen) (at_node Rule.duplicate_id n.id))
    ∷ report_if (not (is_kind n.kind)) (at_node Rule.invalid_kind n.id)
    ∷ report_if (n.start && n.terminal) (at_node Rule.start_and_terminal n.id)
    ∷ report_if (is_negative n.deadline) (at_node Rule.negative_deadline n.id)
    ∷ report_if (not (is_unset n.deadline) && not (n.deadline_rule == ""))
        (at_node Rule.two_deadlines n.id)
    ∷ report_if (n.terminal && not (n.assign_rule == "")) (at_node Rule.terminal_assign_rule n.id)
    ∷ effect_checks (at_node Rule.empty_effect n.id) (at_node Rule.duplicate_effect n.id) []
        n.effects
    ∷ (if is_automatic n.kind then automatic_checks n else [])
    ∷ report_if (not (n.join == "") && not (is_split n.kind)) (at_node Rule.join_without_split n.id)
    ∷ []

unfoldable pub node_checks : List String → Node → List Violation
unfolding node_reports
node_checks seen n = concat (node_reports seen n)

unfoldable pub nodes_checks : List String → List Node → List Violation
nodes_checks seen [] = []
nodes_checks seen (n ∷ ns) =
    node_checks seen n ++ nodes_checks (if n.id == "" then seen else n.id ∷ seen) ns

unfoldable pub header_checks : Definition → List Violation
header_checks d = concat (
    report_if (d.name == "") (at_node Rule.name_required "")
    ∷ report_if (is_below_one d.version) (at_node Rule.version_positive "")
    ∷ report_if (is_empty d.nodes) (at_node Rule.some_node "")
    ∷ [])

abbrev pub starts : Definition → ℕ
starts d = count (λ (n : Node). n.start) d.nodes

unfoldable pub count_checks : Definition → List Violation
count_checks d = concat (
    report_if (not (starts d == 1)) (at_node Rule.one_start "")
    ∷ report_if (count (λ (n : Node). n.terminal) d.nodes == 0) (at_node Rule.some_terminal "")
    ∷ [])

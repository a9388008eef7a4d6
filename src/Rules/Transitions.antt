-- ===== src/Rules/Transitions.antt =====
-- Definition.Validate, its loop over the transitions and the rule of OnExpire.
use vogel.Prelude.{
  ℕ, suc, Bool, not, ◌&&◌, ◌||◌, Option, none, some, List, [], ◌∷◌, ◌++◌, any, ◌==◌, string_eq,
  if◌then◌else◌,
}
use vogel.Definition.{Definition, Node, Transition, is_automatic, find_transition}
use vogel.Rules.{
  Rule, Violation, at_node, at_transition, report_if, concat, concat_map, node_by_id, node_has,
  is_some, outgoing, is_comment_policy, takes_no_comment, is_parallel_split, effect_checks,
}

-- The key (from, action), which the source writes with a NUL between the two.
unfoldable pub repeats : Transition → List Transition → Bool
repeats t seen = any (λ (u : Transition). u.from == t.from && u.action == t.action) seen

-- The rules of the transition at index `i`; `seen` holds those before it.
unfoldable pub transition_reports :
    Definition → List Transition → ℕ → Transition → List (List Violation)
transition_reports d seen i t =
    let from = node_by_id d t.from in
    let to = node_by_id d t.to in
    let automatic = node_has (λ n. is_automatic n.kind) from in
    report_if (t.action == "") (at_transition Rule.empty_action i)
    ∷ report_if (not (is_comment_policy t.comment)) (at_transition Rule.invalid_comment i)
    ∷ effect_checks (at_transition Rule.empty_effect i) (at_transition Rule.duplicate_effect i) []
        t.effects
    ∷ report_if (not (is_some from)) (at_transition Rule.unknown_from i)
    ∷ report_if (not (is_some to)) (at_transition Rule.unknown_to i)
    ∷ report_if (node_has (λ n. n.terminal) from) (at_transition Rule.from_terminal i)
    ∷ report_if (automatic && not (takes_no_comment t.comment))
        (at_transition Rule.automatic_comment i)
    ∷ report_if (automatic && t.is_return) (at_transition Rule.automatic_return i)
    ∷ report_if (node_has (λ n. is_parallel_split n.kind) from && not (t.guard == ""))
        (at_transition Rule.parallel_guard i)
    ∷ report_if (node_has (λ n. n.terminal) to && t.is_return)
        (at_transition Rule.return_to_terminal i)
    ∷ report_if (node_has (λ n. is_automatic n.kind) to && t.is_return)
        (at_transition Rule.return_to_automatic i)
    ∷ report_if (repeats t seen) (at_transition Rule.duplicate_action i)
    ∷ []

unfoldable pub transition_checks : Definition → List Transition → ℕ → Transition → List Violation
transition_checks d seen i t = concat (transition_reports d seen i t)

unfoldable pub transitions_checks :
    Definition → List Transition → ℕ → List Transition → List Violation
transitions_checks d seen i [] = []
transitions_checks d seen i (t ∷ ts) =
    transition_checks d seen i t ++ transitions_checks d (t ∷ seen) (suc i) ts

on_expire_check : Node → Option Transition → List Violation
on_expire_check n none = at_node Rule.on_expire_missing n.id ∷ []
on_expire_check n (some t) = report_if t.is_return (at_node Rule.on_expire_return n.id)

unfoldable pub on_expire_checks : Definition → List Violation
unfolding on_expire_check
on_expire_checks d =
    concat_map
      (λ (n : Node).
        if n.on_expire == "" || is_automatic n.kind
        then []
        else on_expire_check n (find_transition (outgoing d n.id) n.on_expire))
      d.nodes

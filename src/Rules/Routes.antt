-- ===== src/Rules/Routes.antt =====
-- Definition.Validate, the routes out of automatic nodes and the dead ends.
use vogel.Prelude.{
  ℕ, ltb, Bool, false, not, ◌&&◌, ◌||◌, List, [], ◌∷◌, length, count, is_empty, ◌==◌, string_eq,
  nat_eq, if◌then◌else◌,
}
use vogel.Definition.{Definition, Node, Transition, is_automatic, is_join}
use vogel.Rules.{Rule, Violation, at_node, report_if, concat_map, outgoing, is_parallel_split}

abbrev pub unguarded : List Transition → ℕ
unguarded ts = count (λ (t : Transition). t.guard == "") ts

-- Whether the last route has no guard: `unguardedIdx == len(routes)-1`, where one has none.
abbrev pub ends_unguarded : List Transition → Bool
ends_unguarded [] = false
ends_unguarded (t ∷ ts) =
    let rest = ends_unguarded ts in if is_empty ts then t.guard == "" else rest

-- One default route, and the last.
unfoldable pub default_checks : Node → List Transition → List Violation
default_checks n routes =
    if unguarded routes == 0
    then at_node Rule.no_default n.id ∷ []
    else if not (unguarded routes == 1)
    then at_node Rule.many_defaults n.id ∷ []
    else report_if (not (ends_unguarded routes)) (at_node Rule.default_not_last n.id)

unfoldable pub join_checks : Node → List Transition → List Violation
join_checks n (t ∷ []) = report_if (not (t.guard == "")) (at_node Rule.join_guard n.id)
join_checks n _ = at_node Rule.join_routes n.id ∷ []

unfoldable pub route_checks : Definition → Node → List Violation
route_checks d n =
    let routes = outgoing d n.id in
    if n.id == "" || not (is_automatic n.kind)
    then []
    else if is_join n.kind
    then join_checks n routes
    else if ltb (length routes) 2
    then at_node Rule.few_routes n.id ∷ []
    else if is_parallel_split n.kind
    then []
    else default_checks n routes

unfoldable pub routes_checks : Definition → List Violation
routes_checks d = concat_map (route_checks d) d.nodes

unfoldable pub dead_end_checks : Definition → List Violation
dead_end_checks d =
    concat_map
      (λ (n : Node).
        report_if (not (n.id == "") && (not n.terminal && is_empty (outgoing d n.id)))
          (at_node Rule.dead_end n.id))
      d.nodes

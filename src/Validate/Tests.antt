-- ===== src/Validate/Tests.antt =====
-- What Definition.Validate answers for small definitions.
use vogel.Prelude.{
  ◌≡◌, refl, List, [], ◌∷◌, ◌++◌, true, false, pos, some, inl, inr, All, is_empty, string_eq,
}
use vogel.Definition.{
  Definition, Node, Transition, NodeKind, node, canonical, is_split, is_automatic, is_zero,
  start_node, find_transition, transitions_from,
}
use vogel.Errors.{ok, or_fail, Ensures}
use vogel.Route.{route}
use vogel.Route.Depth.{PortsAnswer}
use vogel.Route.Leads.{SoundErr}
use vogel.Route.Sound.{route_sound}
use vogel.Names.{effect_names, deadline_rules, assign_rules}
use vogel.Engine.Register.{
  new_engine, register_all, register, check_effects, knows_effect, put_definition, int_ltb,
}
use vogel.Engine.Registered.{made, resolve_definition-Checked}
use vogel.Engine.{resolve_definition, Engine, lookup_guard}
use vogel.Split.{resolve_route, taken_routes}
use vogel.Validate.Ways.{resolve_route-returns, taken_routes-returns}
use vogel.Validate.Search.{search-ends}
use vogel.Validate.Walks.{Walk, is_valid-Walk}
use vogel.Validate.{violations, reports, is_valid}
use vogel.Examples.{review, task, step_to, route_to, engine, open_row, start_token, start_run}
use vogel.Rules.{
  Rule, at_node, mem, last_node, node_by_id, outgoing, is_kind, is_comment_policy, takes_no_comment,
  needs_comment, is_join_policy, effect_checks,
}
use vogel.Rules.Nodes.{
  starts, automatic_checks, node_checks, nodes_checks, header_checks, count_checks,
}
use vogel.Rules.Transitions.{
  repeats, transition_checks, transition_reports, transitions_checks, on_expire_checks,
}
use vogel.Rules.Routes.{default_checks, join_checks, route_checks, routes_checks, dead_end_checks}
use vogel.Rules.Cycle.{
  path_from, visit_all, leave, visit, detect_from, detect_gateway_cycle, gateway_adjacency,
  gateway_nodes, cycle_checks,
}
use vogel.Rules.Reach.{offer_all, walk, adjacency, search, unreachable, reach_checks}
use vogel.Rules.Blocks.{
  contains, orders, members, grow, build_branch, build_block, blocks, incoming, best_branch,
  best_block, innermost_branch,
}
use vogel.Rules.Blocks.Check.{
  split_checks, naming_checks, arrives, sibling_checks, branch_checks, entry_checks, entered_checks,
  block_checks, home_checks, nested_in, nesting_checks, overlap_checks, return_checks,
  blocks_checks,
}
use vogel.Rules.Policies.{
  reaches_by, reaches, answers, check_branch_outcomes, check_rejected_route, parallel_checks,
  policy_checks, inclusive_checks, answer_checks, outcome_checks, policies_checks,
}

-- The review with a node that nothing leads to, and with a second way to the end from inside a
-- branch.
abbrev lost : Definition
lost = record review { nodes = review.nodes ++ task "lost" ∷ [] }

abbrev escaping : Definition
escaping = record review { transitions = review.transitions ++ step_to "a" "flee" "end" ∷ [] }

review-is_valid : is_valid review ≡ true
unfolding is_valid reports transition_reports violations canonical is_split is_automatic is_zero
    start_node find_transition transitions_from mem last_node node_by_id outgoing is_kind
    is_comment_policy takes_no_comment needs_comment is_join_policy effect_checks automatic_checks
    node_checks nodes_checks header_checks count_checks repeats transition_checks transitions_checks
    on_expire_checks default_checks join_checks route_checks routes_checks dead_end_checks path_from
    visit_all leave visit detect_from detect_gateway_cycle gateway_adjacency gateway_nodes
    cycle_checks offer_all walk adjacency search unreachable reach_checks contains orders members
    grow build_branch build_block blocks incoming best_branch best_block innermost_branch
    split_checks naming_checks arrives sibling_checks branch_checks entry_checks entered_checks
    block_checks home_checks nested_in nesting_checks overlap_checks return_checks blocks_checks
    reaches_by reaches answers check_branch_outcomes check_rejected_route parallel_checks
    policy_checks inclusive_checks answer_checks outcome_checks policies_checks
review-is_valid = refl

-- A decision that a guard may turn back, and an engine that knows the guard.
abbrev triage : Definition
triage = record {
  name = "triage";
  version = pos 1;
  nodes =
      record (task "start") { start = true }
      ∷ record (task "gate") { kind = NodeKind.decision }
      ∷ task "work"
      ∷ record (task "end") { terminal = true }
      ∷ [];
  transitions =
      step_to "start" "go" "gate"
      ∷ record (route_to "gate" "urgent" "work") { guard = "is_urgent" }
      ∷ route_to "gate" "plain" "end"
      ∷ step_to "work" "close" "end"
      ∷ [];
}

abbrev gate : Node
gate = record (task "gate") { kind = NodeKind.decision }

abbrev fork : Node
fork = record (task "fork") { kind = NodeKind.parallel; join = "meet" }

abbrev meet : Node
meet = record (task "meet") { kind = NodeKind.join }

abbrev guarded : Engine
guarded = record (engine 7 100) { guards = ("is_urgent", λ _. ok false) ∷ [] }

triage-is_valid : is_valid triage ≡ true
unfolding is_valid reports transition_reports violations canonical is_split is_automatic is_zero
    start_node find_transition transitions_from mem last_node node_by_id outgoing is_kind
    is_comment_policy takes_no_comment needs_comment is_join_policy effect_checks automatic_checks
    node_checks nodes_checks header_checks count_checks repeats transition_checks transitions_checks
    on_expire_checks default_checks join_checks route_checks routes_checks dead_end_checks path_from
    visit_all leave visit detect_from detect_gateway_cycle gateway_adjacency gateway_nodes
    cycle_checks offer_all walk adjacency search unreachable reach_checks contains orders members
    grow build_branch build_block blocks incoming best_branch best_block innermost_branch
    split_checks naming_checks arrives sibling_checks branch_checks entry_checks entered_checks
    block_checks home_checks nested_in nesting_checks overlap_checks return_checks blocks_checks
    reaches_by reaches answers check_branch_outcomes check_rejected_route parallel_checks
    policy_checks inclusive_checks answer_checks outcome_checks policies_checks
triage-is_valid = refl

lost-reports : violations lost ≡ at_node Rule.dead_end "lost" ∷ at_node Rule.unreachable "lost" ∷ []
unfolding is_valid reports transition_reports violations canonical is_split is_automatic is_zero
    start_node find_transition transitions_from mem last_node node_by_id outgoing is_kind
    is_comment_policy takes_no_comment needs_comment is_join_policy effect_checks automatic_checks
    node_checks nodes_checks header_checks count_checks repeats transition_checks transitions_checks
    on_expire_checks default_checks join_checks route_checks routes_checks dead_end_checks path_from
    visit_all leave visit detect_from detect_gateway_cycle gateway_adjacency gateway_nodes
    cycle_checks offer_all walk adjacency search unreachable reach_checks contains orders members
    grow build_branch build_block blocks incoming best_branch best_block innermost_branch
    split_checks naming_checks arrives sibling_checks branch_checks entry_checks entered_checks
    block_checks home_checks nested_in nesting_checks overlap_checks return_checks blocks_checks
    reaches_by reaches answers check_branch_outcomes check_rejected_route parallel_checks
    policy_checks inclusive_checks answer_checks outcome_checks policies_checks
lost-reports = refl

escaping-reports :
    violations escaping
    ≡ at_node Rule.early_terminal "end" ∷ at_node Rule.entered_from_outside "end" ∷ []
unfolding is_valid reports transition_reports violations canonical is_split is_automatic is_zero
    start_node find_transition transitions_from mem last_node node_by_id outgoing is_kind
    is_comment_policy takes_no_comment needs_comment is_join_policy effect_checks automatic_checks
    node_checks nodes_checks header_checks count_checks repeats transition_checks transitions_checks
    on_expire_checks default_checks join_checks route_checks routes_checks dead_end_checks path_from
    visit_all leave visit detect_from detect_gateway_cycle gateway_adjacency gateway_nodes
    cycle_checks offer_all walk adjacency search unreachable reach_checks contains orders members
    grow build_branch build_block blocks incoming best_branch best_block innermost_branch
    split_checks naming_checks arrives sibling_checks branch_checks entry_checks entered_checks
    block_checks home_checks nested_in nesting_checks overlap_checks return_checks blocks_checks
    reaches_by reaches answers check_branch_outcomes check_rejected_route parallel_checks
    policy_checks inclusive_checks answer_checks outcome_checks policies_checks
escaping-reports = refl

resolve_route-returns_example :
    (t : Transition) × (resolve_route guarded (transitions_from triage "gate") open_row ≡ ok t)
unfolding node transitions_from lookup_guard or_fail
resolve_route-returns_example =
    resolve_route-returns triage guarded open_row "gate" gate triage-is_valid refl refl
      (inr ((λ _. ok false), false, refl, refl), (inl refl, tt))

taken_routes-returns_example :
    (taken : List Transition) × (taken_routes guarded start_token fork start_run ≡ ok taken)
    × (is_empty taken ≡ false)
unfolding node transitions_from is_split
taken_routes-returns_example =
    taken_routes-returns guarded "fork" start_token fork start_run review-is_valid refl refl
      (inl refl, (inl refl, tt))

is_valid-Walk_example :
    (starts review ≡ 1)
    × (s : Node) × (start_node review ≡ some s)
    × All (λ n. Walk review s.id n.id) review.nodes
is_valid-Walk_example = is_valid-Walk review review-is_valid

engine-PortsAnswer : PortsAnswer SoundErr (engine 6 200) (ok [])
unfolding lookup_guard or_fail
engine-PortsAnswer = record {
  guards = λ name g c h. cc;
  deadlines = λ f i h. cc;
  assignees = λ f i h. cc;
  history = tt;
}

route_sound_example :
    Ensures SoundErr
      (λ r. r.definition ≡ review)
      (route (engine 6 200) (ok []) 8500 start_token (step_to "start" "go" "fork") "" 0 start_run)
unfolding node
route_sound_example =
    route_sound (engine 6 200) (ok []) 8500 start_token (step_to "start" "go" "fork") "" 0 start_run
      review-is_valid engine-PortsAnswer (fork, refl)

abbrev ready : Engine
ready = new_engine (engine 6 200) (review ∷ [])

ready-resolves : resolve_definition ready "review" (pos 0) ≡ ok review
unfolding is_valid reports transition_reports violations canonical is_split is_automatic is_zero
    start_node find_transition transitions_from mem last_node node_by_id outgoing is_kind
    is_comment_policy takes_no_comment needs_comment is_join_policy effect_checks automatic_checks
    node_checks nodes_checks header_checks count_checks repeats transition_checks transitions_checks
    on_expire_checks default_checks join_checks route_checks routes_checks dead_end_checks path_from
    visit_all leave visit detect_from detect_gateway_cycle gateway_adjacency gateway_nodes
    cycle_checks offer_all walk adjacency search unreachable reach_checks contains orders members
    grow build_branch build_block blocks incoming best_branch best_block innermost_branch
    split_checks naming_checks arrives sibling_checks branch_checks entry_checks entered_checks
    block_checks home_checks nested_in nesting_checks overlap_checks return_checks blocks_checks
    reaches_by reaches answers check_branch_outcomes check_rejected_route parallel_checks
    policy_checks inclusive_checks answer_checks outcome_checks policies_checks new_engine
    register_all register check_effects knows_effect effect_names deadline_rules assign_rules
    put_definition int_ltb resolve_definition or_fail
ready-resolves = refl

resolve_definition-Checked_example : (is_valid review ≡ true) × (review.name ≡ "review")
resolve_definition-Checked_example =
    resolve_definition-Checked ready "review" (pos 0) review (made (engine 6 200) (review ∷ []))
      ready-resolves

search-ends_example : (search review "start").queue ≡ []
search-ends_example = search-ends review "start"

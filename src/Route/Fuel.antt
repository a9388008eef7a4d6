-- ===== src/Route/Fuel.antt =====
-- Automatic routing terminates (workflow/run.go: route): the bounds of the source (maxDecisionHops,
-- maxGatewaySteps) bound how deep `route` calls itself, so 8481 units of fuel are never used up.
use vogel.Prelude.{
  ℕ, zero, suc, ◌+◌, ◌≤◌, String, ◌≡◌, refl, ◌∙◌, Option, List, [], ◌∷◌, arith, not, ltb, leb, ◌==◌,
  string_eq, nat_eq, inl, inr, Bool-cases, is_empty, length,
}
use vogel.Errors.{
  Err, Result, fail_if, or_fail, Ensures, Ensures-bind, Ensures-weaken, Ensures-if, NoFuelErr, Only,
  Only-bind, or_fail-Only, fail_if-Only,
}
use vogel.Definition.{
  Node, node, Transition, JoinPolicy, Outcome, transitions_from, is_decision, is_split, is_join,
}
use vogel.Case.{Token, Scope, is_opened}
use vogel.Event.{Event}
use vogel.Engine.{Engine, max_decision_hops, max_gateway_steps}
use vogel.Run.{Run, Route, scope, gateway_step, add_token}
use vogel.Split.{branch_tokens, resolve_route, taken_routes, open_scope, route_branches, split}
use vogel.Join.{
  count_round, round_closes, waiting_tokens, join_policy_of, the_only, join_check, close_round,
  fire, try_join, park, arrive,
}
use vogel.Settle.{close_case, closing, settled, assign_to}
use vogel.Route.{enter, settle, hop, route}
use vogel.Route.Steps.{
  steps_of, kept-settled, kept-assign_to, kept-enter, kept-open_scope, kept-add_token,
  kept-close_round, kept-park, kept-closing,
}
use vogel.Route.Ports.{
  Grown-same, count_round-Only, join_check-Only, resolve_route-Only, rest-Ensures,
  taken_routes-Only,
}
use vogel.Route.Depth.{PortsAnswer}
use vogel.Route.Depth.{Fits, Grown, Need, Allows}

abbrev allows : Allows NoFuelErr
allows = record {
  guard_missing = tt;
  deadline_missing = tt;
  assign_missing = tt;
  rejects = tt;
  bad_outcome = tt;
}

the_only-Fueled : (trs : List Transition) → Only NoFuelErr (the_only trs)
unfolding the_only
the_only-Fueled [] = tt
the_only-Fueled (t ∷ []) = tt
the_only-Fueled (t ∷ u ∷ us) = tt

module _ (e : Engine) (stored : Result (List Event)) (ports : PortsAnswer NoFuelErr e stored) where
  route_branches-Grown :
      (n : ℕ) (rec : Route) (fits : Fits n rec) (bs : List (Token × Transition)) (r : Run)
      → r.gateway_steps ≤ max_gateway_steps
      → Need n r.gateway_steps 0
      → Ensures NoFuelErr (Grown r.gateway_steps) (route_branches rec bs r)
  unfolding route_branches
  route_branches-Grown n rec fits [] r below need = (omega arith, below)
  route_branches-Grown n rec fits ((b, tr) ∷ bs) r below need =
      let q = steps_of (kept-add_token b r) in
      Ensures-bind NoFuelErr (Grown (add_token b r).gateway_steps) (Grown r.gateway_steps)
        (rec b tr "" 0 (add_token b r)) (route_branches rec bs)
        (fits b tr "" 0 (add_token b r) (omega arith) (omega (arith, q)) (omega (arith, q)))
        λ r' _ grown.
          Ensures-weaken NoFuelErr (Grown r'.gateway_steps) (Grown r.gateway_steps)
            (route_branches rec bs r') (λ r'' h. (omega (arith, q, h, grown), h.1))
            (route_branches-Grown n rec fits bs r' grown.1 (omega (arith, q, grown)))

  gateway_step-Grown :
      (r : Run)
      → Ensures NoFuelErr
          (λ r'. (r'.gateway_steps ≡ r.gateway_steps + 1) × (r'.gateway_steps ≤ max_gateway_steps))
          (gateway_step r)
  unfolding gateway_step
  gateway_step-Grown r = elim (Bool-cases (ltb max_gateway_steps (r.gateway_steps + 1))) [
    | inl t ↦ rw t tt
    | inr f ↦ rw f (refl, ground arith)
  ]

  module _ (n : ℕ) (rec : Route) (fits : Fits n rec) where
    split-Grown :
        (tok : Token) (nd : Node) (hops : ℕ) (r : Run)
        → hops ≤ max_decision_hops
        → r.gateway_steps ≤ max_gateway_steps
        → Need (suc n) r.gateway_steps hops
        → Ensures NoFuelErr (Grown r.gateway_steps) (split e rec tok nd r)
    unfolding split
    split-Grown tok nd hops r few below need =
        Ensures-bind NoFuelErr _ (Grown r.gateway_steps) (gateway_step r) _ (gateway_step-Grown r)
          λ r1 _ counted.
            Only-bind NoFuelErr (Grown r.gateway_steps) (taken_routes e tok nd r1) _
              (taken_routes-Only NoFuelErr allows e stored ports tok nd r1)
              λ taken _.
                Only-bind NoFuelErr (Grown r.gateway_steps) (fail_if (is_empty taken) Err.no_route)
                  _ (fail_if-Only NoFuelErr _ _ tt)
                  λ _ _.
                    let branches =
                      branch_tokens e (r1.drawn + 1) r1.case.id (e.uuid r1.drawn) nd.id taken in
                    let opened = open_scope e tok nd branches r1 in
                    let q = steps_of (kept-open_scope e tok nd branches r1) in
                    Ensures-weaken NoFuelErr (Grown opened.gateway_steps) (Grown r.gateway_steps)
                      (route_branches rec branches opened)
                      (λ r' h. (omega (arith, q, h, counted), h.1))
                      (route_branches-Grown n rec fits branches opened (omega (arith, q, counted))
                        (omega (arith, q, counted, need, few)))

    fire-Grown :
        (s : Scope) (nd : Option Node) (p : JoinPolicy) (o : Outcome) (hops : ℕ) (r : Run)
        → hops ≤ max_decision_hops
        → r.gateway_steps ≤ max_gateway_steps
        → Need (suc n) r.gateway_steps hops
        → Ensures NoFuelErr (Grown r.gateway_steps) (fire e rec s nd p o r)
    unfolding fire
    fire-Grown s nd p o hops r few below need =
        Ensures-bind NoFuelErr _ (Grown r.gateway_steps) (gateway_step r) _ (gateway_step-Grown r)
          λ r1 _ counted.
            Only-bind NoFuelErr (Grown r.gateway_steps) (or_fail nd Err.node_not_found) _
              (or_fail-Only NoFuelErr _ _ tt)
              λ m _.
                Only-bind NoFuelErr (Grown r.gateway_steps)
                  (the_only (transitions_from r1.definition m.id)) _ (the_only-Fueled _)
                  λ out _.
                    Only-bind NoFuelErr (Grown r.gateway_steps)
                      (or_fail s.parent_id Err.nil_dereference) _ (or_fail-Only NoFuelErr _ _ tt)
                      λ parent _.
                        let (joined, next, run) = close_round e s m p o parent r r1 in
                        let q = steps_of (kept-close_round e s m p o parent r r1) in
                        Only-bind NoFuelErr (Grown r.gateway_steps) (join_check e joined) _
                          (join_check-Only NoFuelErr allows e joined)
                          λ _ _.
                            Ensures-weaken NoFuelErr (Grown run.gateway_steps)
                              (Grown r.gateway_steps) (rec next out "" 0 run)
                              (λ r' h. (omega (arith, q, h, counted), h.1))
                              (fits next out "" 0 run (omega arith) (omega (arith, q, counted))
                                (omega (arith, q, counted, need, few)))

    try_join-Grown :
        (s : Scope) (hops : ℕ) (r : Run)
        → hops ≤ max_decision_hops
        → r.gateway_steps ≤ max_gateway_steps
        → Need (suc n) r.gateway_steps hops
        → Ensures NoFuelErr (Grown r.gateway_steps) (try_join e rec s r)
    unfolding try_join
    try_join-Grown s hops r few below need =
        Ensures-if NoFuelErr (Grown r.gateway_steps) (not (is_opened s.status)) _ _
          (λ _. (omega arith, below))
          λ _.
            let nd = node r.definition s.join_node in
            Only-bind NoFuelErr (Grown r.gateway_steps)
              (count_round (join_policy_of nd) s.id r.tokens _) _
              (count_round-Only NoFuelErr allows _ s.id r.tokens _)
              λ tally _.
                Ensures-if NoFuelErr (Grown r.gateway_steps)
                  (round_closes (join_policy_of nd) (length (waiting_tokens s r)) tally).0 _ _
                  (λ _. fire-Grown s nd _ _ hops r few below need) (λ _. (omega arith, below))

    arrive-Grown :
        (tok : Token) (nd : Node) (o : Outcome) (hops : ℕ) (r : Run)
        → hops ≤ max_decision_hops
        → r.gateway_steps ≤ max_gateway_steps
        → Need (suc n) r.gateway_steps hops
        → Ensures NoFuelErr (Grown r.gateway_steps) (arrive e rec tok nd o r)
    unfolding arrive
    arrive-Grown tok nd o hops r few below need =
        Only-bind NoFuelErr (Grown r.gateway_steps)
          (or_fail (scope tok.scope_id r) Err.outside_block) _ (or_fail-Only NoFuelErr _ _ tt)
          λ s _.
            Only-bind NoFuelErr (Grown r.gateway_steps)
              (fail_if (not (s.join_node == nd.id)) Err.outside_block) _
              (fail_if-Only NoFuelErr _ _ tt)
              λ _ _.
                let q = steps_of (kept-park tok nd o r) in
                Ensures-weaken NoFuelErr (Grown (park tok nd o r).gateway_steps)
                  (Grown r.gateway_steps) (try_join e rec s (park tok nd o r))
                  (λ r' h. (omega (arith, q, h), h.1))
                  (try_join-Grown s hops (park tok nd o r) few (omega (arith, q))
                    (omega (arith, q, need)))

    close-Grown :
        (tok : Token) (nd : Node) (action : String) (r : Run)
        → r.gateway_steps ≤ max_gateway_steps
        → Ensures NoFuelErr (Grown r.gateway_steps) (close_case tok nd action r)
    unfolding close_case
    close-Grown tok nd action r below =
        Ensures-if NoFuelErr (Grown r.gateway_steps) (not (tok.scope_id == r.case.id)) _ _ (λ _. tt)
          (λ _.
            Grown-same r (closing tok nd action r) (steps_of (kept-closing tok nd action r)) below)

    settle-Grown :
        (tok : Token) (trans : Transition) (hops : ℕ) (nd : Node) (h : ℕ) (r : Run)
        → hops ≤ max_decision_hops
        → r.gateway_steps ≤ max_gateway_steps
        → Need (suc n) r.gateway_steps hops
        → Ensures NoFuelErr
            (Grown r.gateway_steps)
            (settle e stored rec tok trans (hops + 1) nd h r)
    unfolding settle
    settle-Grown tok trans hops nd h r few below need =
        let G = Grown r.gateway_steps in
        Ensures-if NoFuelErr G (is_decision nd.kind) _ _
          (λ _.
            Ensures-if NoFuelErr G (leb max_decision_hops (hops + 1)) _ _ (λ _. tt)
              λ room.
                Only-bind NoFuelErr G (resolve_route e _ _) _
                  (resolve_route-Only NoFuelErr allows e stored ports _ _ tt)
                  λ onward _. fits tok onward "" (hops + 1) r (ground arith) below (ground arith))
          (λ _.
            Ensures-if NoFuelErr G (is_split nd.kind) _ _
              (λ _. split-Grown tok nd hops r few below need)
              (λ _.
                Ensures-if NoFuelErr G (is_join nd.kind) _ _
                  (λ _. arrive-Grown tok nd trans.outcome hops r few below need)
                  (λ _.
                    Ensures-if NoFuelErr G nd.terminal _ _
                      (λ _. close-Grown tok nd trans.action r below)
                      (λ _.
                        rest-Ensures NoFuelErr allows e stored ports G tok nd h r
                          (λ t. Grown-same r (settled t h r) (steps_of (kept-settled t h r)) below)
                          (λ t to.
                            Grown-same r (assign_to t nd to (settled t h r))
                              (steps_of (kept-assign_to t nd to _ ∙ kept-settled t h r)) below)))))

    hop-Fits : Fits (suc n) (hop e stored rec)
    unfolding hop
    hop-Fits tok trans comment hops r few below need =
        Only-bind NoFuelErr (Grown r.gateway_steps)
          (or_fail (node r.definition trans.to) Err.node_not_found) _
          (or_fail-Only NoFuelErr _ _ tt)
          λ nd _.
            let q = steps_of (kept-enter tok trans comment nd r) in
            let entered = enter tok trans comment nd r in
            Ensures-weaken NoFuelErr (Grown entered.gateway_steps) (Grown r.gateway_steps) _
              (λ r' h. (omega (arith, q, h), h.1))
              (settle-Grown _ trans hops nd _ entered few (omega (arith, q))
                (omega (arith, q, need)))

  route-Fits : (fuel : ℕ) → Fits fuel (route e stored fuel)
  unfolding route
  route-Fits zero tok trans comment hops r few below need = omega arith
  route-Fits (suc fuel) tok trans comment hops r few below need =
      hop-Fits fuel (route e stored fuel) (route-Fits fuel) tok trans comment hops r few below need

-- From a run within the source's bounds, with at least 8481 units of fuel (33 for each of 256 gateway
-- steps, 33 for the hops of one stretch), a call of `route` never ends for want of fuel: it returns
-- what the source's unbounded loop returns, a state or one of the source's own errors. On success it
-- never resets the count of gateway steps and leaves it within the bound, provided no guard,
-- resolver or history query answers with the error that only the model has.
pub route-terminates :
    (e : Engine) (stored : Result (List Event)) (fuel : ℕ) (tok : Token) (tr : Transition)
    (comment : String) (hops : ℕ) (r : Run)
    → PortsAnswer NoFuelErr e stored
    → 8481 ≤ fuel
    → hops ≤ max_decision_hops
    → r.gateway_steps ≤ max_gateway_steps
    → Ensures NoFuelErr
        (λ r'. (r.gateway_steps ≤ r'.gateway_steps) × (r'.gateway_steps ≤ max_gateway_steps))
        (route e stored fuel tok tr comment hops r)
route-terminates e stored fuel tok tr comment hops r ports enough few below =
    route-Fits e stored ports fuel tok tr comment hops r few below (omega arith)

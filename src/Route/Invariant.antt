-- ===== src/Route/Invariant.antt =====
-- The proof rule for automatic routing (workflow/run.go: route, split, arrive, tryJoin): an invariant
-- of the run that each of their state changes keeps is kept by every call of `route`.
use vogel.Prelude.{
  ℕ, zero, suc, ◌+◌, String, true, false, ◌≡◌, refl, inl, inr, Option, some, List, [], ◌∷◌, length,
  Bool-cases, ltb, leb, Option-cases, is_empty, ==_iff, ◌==◌, string_eq, nat_eq, not,
}
use vogel.Errors.{
  Err, Result, ok, fail_if, or_fail, or_fail-ok, fail_if-ok, AnyErr, Returns, Ensures-any,
  Returns-if, Ensures-bind, not-eq-false,
}
use vogel.Definition.{
  Node, node, Transition, is_split, is_decision, is_join, is_automatic, JoinPolicy, Outcome,
  transitions_from,
}
use vogel.Case.{Token, TokenStatus, Scope, is_opened}
use vogel.Event.{Event}
use vogel.Engine.{Engine, max_gateway_steps, max_decision_hops}
use vogel.Run.{Run, Route, scope, gateway_step, resolved_eligibility, add_token}
use vogel.Split.{resolve_route, taken_routes, route_branches, split}
use vogel.Join.{
  count_round, round_closes, waiting_tokens, join_policy_of, the_only, join_check, fire, try_join,
  park, arrive,
}
use vogel.Settle.{full_history, deadline_for, apply_assign_rule, settled, rest, close_case}
use vogel.Route.{settle, hop, route}
use vogel.Route.Keeps.{Keeps, definition-enter, node-own, scope-park, not_automatic}

module _ (e : Engine) (stored : Result (List Event)) (Mid : Token → Run → Type 0)
    (Done : Run → Type 0) (keeps : Keeps e stored Mid Done) where
  -- A call of `route`, by whatever means, that keeps the invariant.
  abbrev Good : Route → Type 0
  Good rec =
      (tok : Token) (tr : Transition) (comment : String) (hops : ℕ) (r : Run)
      → Mid tok r
      → Returns Done (rec tok tr comment hops r)

  route_branches-Done :
      (rec : Route) (good : Good rec) (bs : List (Token × Transition)) (r : Run)
      → Done r
      → Returns Done (route_branches rec bs r)
  unfolding route_branches
  route_branches-Done rec good [] r h = h
  route_branches-Done rec good ((b, tr) ∷ bs) r h =
      Ensures-bind AnyErr Done Done (rec b tr "" 0 (add_token b r)) (route_branches rec bs)
        (good b tr "" 0 (add_token b r) (keeps.starts b r h))
        (λ r' _ h'. route_branches-Done rec good bs r' h')

  gateway_step-Mid : (tok : Token) (r : Run) → Mid tok r → Returns (Mid tok) (gateway_step r)
  unfolding gateway_step
  gateway_step-Mid tok r h = elim (Bool-cases (ltb max_gateway_steps (r.gateway_steps + 1))) [
    | inl t ↦ rw t tt
    | inr f ↦ rw f (keeps.counts tok (r.gateway_steps + 1) r h)
  ]

  split-Done :
      (rec : Route) (good : Good rec) (tok : Token) (n : Node) (r : Run)
      → Mid tok r
      → Returns Done (split e rec tok n r)
  unfolding split
  split-Done rec good tok n r h =
      Ensures-bind AnyErr (Mid tok) Done (gateway_step r) _ (gateway_step-Mid tok r h) λ r1 _ h1.
        Ensures-any Done (taken_routes e tok n r1) _ λ taken _.
          Ensures-any Done (fail_if (is_empty taken) Err.no_route) _
            λ _ _. route_branches-Done rec good _ _ (keeps.opens tok n _ r1 h1)

  fire-Done :
      (rec : Route) (good : Good rec) (s : Scope) (n' : Option Node) (policy : JoinPolicy)
      (verdict : Outcome) (r : Run)
      → Done r
      → scope s.id r ≡ some s
      → is_opened s.status ≡ true
      → Returns Done (fire e rec s n' policy verdict r)
  unfolding fire gateway_step
  fire-Done rec good s n' policy verdict r h found open' =
      elim (Bool-cases (ltb max_gateway_steps (r.gateway_steps + 1))) [
        | inl t ↦ rw t tt
        | inr f ↦ rw f (
            Ensures-any Done (or_fail n' Err.node_not_found) _ λ n _.
              Ensures-any Done (the_only (transitions_from r.definition n.id)) _ λ out _.
                Ensures-any Done (or_fail s.parent_id Err.nil_dereference) _ λ parent _.
                  Ensures-any Done (join_check e _) _ λ _ _.
                    good _ out "" 0 _
                      (keeps.fires s n policy verdict parent (r.gateway_steps + 1) r h found open'))
      ]

  pub try_join-Done :
      (rec : Route) (good : Good rec) (s : Scope) (r : Run)
      → Done r
      → scope s.id r ≡ some s
      → Returns Done (try_join e rec s r)
  unfolding try_join
  try_join-Done rec good s r h found = elim (Bool-cases (is_opened s.status)) [
    | inr shut ↦ rw shut h
    | inl open' ↦ rw open' (
        Ensures-any Done
          (count_round (join_policy_of (node r.definition s.join_node)) s.id r.tokens _) _
          λ tally _.
            let n = node r.definition s.join_node in
            let closing = round_closes (join_policy_of n) (length (waiting_tokens s r)) tally in
            Returns-if Done closing.0 (fire e rec s n (join_policy_of n) closing.1 r) (ok r)
              (λ _. fire-Done rec good s n (join_policy_of n) closing.1 r h found open') (λ _. h))
  ]

  arrive-Done :
      (rec : Route) (good : Good rec) (tok : Token) (n : Node) (outcome : Outcome) (r : Run)
      → Mid tok r
      → tok.node ≡ n.id
      → node r.definition tok.node ≡ some n
      → is_join n.kind ≡ true
      → Returns Done (arrive e rec tok n outcome r)
  unfolding arrive
  arrive-Done rec good tok n outcome r h at known joins =
      Ensures-any Done (or_fail (scope tok.scope_id r) Err.outside_block) _ λ s e1.
        Ensures-any Done (fail_if (not (s.join_node == n.id)) Err.outside_block) _ λ u e2.
          let found = or_fail-ok (scope tok.scope_id r) Err.outside_block s e1 in
          let own =
            (==_iff s.join_node n.id).0 (not-eq-false _ (fail_if-ok _ Err.outside_block u e2)) in
          try_join-Done rec good s (park tok n outcome r)
            (keeps.parks tok n outcome s r h at found own known joins)
            (scope-park tok n outcome r s found)

  rest-Done :
      (tok : Token) (n : Node) (h : ℕ) (r : Run)
      → Mid tok r
      → node r.definition tok.node ≡ some n
      → is_automatic n.kind ≡ false
      → n.terminal ≡ false
      → Returns Done (rest e stored tok n h r)
  unfolding rest apply_assign_rule
  rest-Done tok n h r mid at auto term =
      Ensures-any Done (deadline_for e stored n r.now r.case _) _ λ deadline _.
        let (plain, assigned) = keeps.rests tok n h r mid at auto term deadline in
        Returns-if Done (n.assign_rule == "") _ _ (λ _. plain)
          (λ _. elim (Option-cases e.assignees) [
            | inl no' ↦ rw no' tt
            | inr (assignee, yes') ↦ rw yes' (
                Ensures-any Done
                  (full_history e stored (
                    settled
                      (record tok {
                        status = TokenStatus.active;
                        eligible = resolved_eligibility n r.case.unit;
                        deadline_at = deadline;
                      })
                      h r))
                  _ λ history _. Ensures-any Done (assignee _) _ λ to _. assigned to)
          ])

  close-Done :
      (tok : Token) (n : Node) (action : String) (r : Run)
      → Mid tok r
      → node r.definition tok.node ≡ some n
      → n.terminal ≡ true
      → Returns Done (close_case tok n action r)
  unfolding close_case
  close-Done tok n action r mid at term =
      Returns-if Done (not (tok.scope_id == r.case.id)) _ _ (λ _. tt)
        (λ _. keeps.ends tok n action r mid at term)

  settle-Done :
      (rec : Route) (good : Good rec) (tok : Token) (tr : Transition) (hops : ℕ) (n : Node) (h : ℕ)
      (r : Run)
      → Mid tok r
      → tok.node ≡ n.id
      → node r.definition tok.node ≡ some n
      → Returns Done (settle e stored rec tok tr hops n h r)
  unfolding settle
  settle-Done rec good tok tr hops n h r mid at known =
      Returns-if Done (is_decision n.kind) _ _
        (λ _.
          Returns-if Done (leb max_decision_hops hops) _ _ (λ _. tt)
            (λ _.
              Ensures-any Done (resolve_route e _ _) _ (λ onward _. good tok onward "" hops r mid)))
        (λ d.
          Returns-if Done (is_split n.kind) _ _ (λ _. split-Done rec good tok n r mid)
            (λ s.
              Returns-if Done (is_join n.kind) _ _
                (λ joins. arrive-Done rec good tok n tr.outcome r mid at known joins)
                (λ j.
                  Returns-if Done n.terminal _ _
                    (λ at_end. close-Done tok n tr.action r mid known at_end)
                    (λ onward. rest-Done tok n h r mid known (not_automatic n.kind d s j) onward))))

  hop-Good : (rec : Route) → Good rec → Good (hop e stored rec)
  unfolding hop
  hop-Good rec good tok tr comment hops r h =
      Ensures-any Done (or_fail (node r.definition tr.to) Err.node_not_found) _ λ n found.
        settle-Done rec good _ tr (hops + 1) n _ _ (keeps.enters tok tr comment n r h) refl (
          rw (definition-enter tok tr comment n r) (
            node-own r.definition tr.to n
              (or_fail-ok (node r.definition tr.to) Err.node_not_found n found)))

  -- A call of `route` from a state in which its token is under way ends, if it succeeds, in one
  -- where every token has come to rest.
  pub route-Done : (fuel : ℕ) → Good (route e stored fuel)
  unfolding route
  route-Done zero tok tr comment hops r h = tt
  route-Done (suc fuel) tok tr comment hops r h =
      hop-Good (route e stored fuel) (route-Done fuel) tok tr comment hops r h

-- ===== src/Route/Sound.antt =====
-- Automatic routing on a valid definition (workflow/run.go: route; workflow/workflow.go: Validate): it
-- never meets a node that is missing, a gateway without a route, or a join without its way out.
use vogel.Prelude.{
  ℕ, zero, suc, ◌+◌, String, true, ◌≡◌, refl, sym, subst, ◌∙◌, Option, some, List, [], ◌∷◌, not,
  leb, ◌==◌, ==_iff, string_eq, nat_eq, inr, is_empty, length, All,
}
use vogel.Errors.{
  Err, Result, fail_if, fail_if-ok, or_fail, or_fail-ok, Ensures, Ensures-bind, Ensures-if,
  Only-bind, or_fail-Only, fail_if-Only, not-eq-false,
}
use vogel.Definition.{
  Definition, Node, node, Transition, JoinPolicy, Outcome, transitions_from, is_decision, is_split,
  is_join,
}
use vogel.Case.{Token, Scope, is_opened}
use vogel.Event.{Event}
use vogel.Engine.{Engine, max_decision_hops}
use vogel.Run.{Run, Route, scope, gateway_step, add_token}
use vogel.Split.{resolve_route, taken_routes, route_branches, split}
use vogel.Join.{
  count_round, round_closes, waiting_tokens, join_policy_of, the_only, join_check, close_round,
  fire, try_join, park, arrive,
}
use vogel.Settle.{close_case, settled}
use vogel.Route.{enter, settle, hop, route}
use vogel.Route.Steps.{
  definition_of, kept-settled, kept-assign_to, kept-enter, kept-open_scope, kept-add_token,
  kept-close_round, kept-park, kept-closing,
}
use vogel.Route.Ports.{
  count_round-Only, join_check-Only, resolve_route-Among, taken_routes-Among, rest-Ensures,
}
use vogel.Route.Depth.{PortsAnswer}
use vogel.Route.Keeps.{node-own}
use vogel.Validate.{is_valid}
use vogel.Validate.Ways.{decision-Routed}
use vogel.Route.Leads.{
  SoundErr, allows, or_fail-have, fail_if-pass, split-some, Leads, On, Leads-run, Routed-run,
  the_only-Leads, branch-Leads, gateway_step-On,
}

module _ (d : Definition) (valid : is_valid d ≡ true) where
  -- A call of `route`, by whatever means, along a transition whose target is known.
  abbrev Good : Route → Type 0
  Good rec =
      (tok : Token) (t : Transition) (comment : String) (hops : ℕ) (r : Run)
      → (Leads d) t
      → (On d) r
      → Ensures SoundErr (On d) (rec tok t comment hops r)

  module _ (e : Engine) (stored : Result (List Event)) (ports : PortsAnswer SoundErr e stored)
      (rec : Route) (good : Good rec) where
    route_branches-On :
        (bs : List (Token × Transition)) (r : Run)
        → All (λ (b : Token × Transition). (Leads d) b.1) bs
        → (On d) r
        → Ensures SoundErr (On d) (route_branches rec bs r)
    unfolding route_branches
    route_branches-On [] r leads on = on
    route_branches-On ((b, t) ∷ bs) r leads on =
        Ensures-bind SoundErr (On d) (On d) (rec b t "" 0 (add_token b r)) (route_branches rec bs)
          (good b t "" 0 (add_token b r) leads.0 (definition_of (kept-add_token b r) ∙ on))
          (λ r' _ on'. route_branches-On bs r' leads.1 on')

    split-On :
        (tok : Token) (id : String) (n : Node) (r : Run)
        → (On d) r
        → node d id ≡ some n
        → is_split n.kind ≡ true
        → Ensures SoundErr (On d) (split e rec tok n r)
    unfolding split
    split-On tok id n r on found is =
        Ensures-bind SoundErr (On d) (On d) (gateway_step r) _ (gateway_step-On d valid r on)
          λ r1 _ on1.
            Ensures-bind SoundErr _ (On d) (taken_routes e tok n r1) _
              (taken_routes-Among SoundErr allows e stored ports (Leads d) tok n r1
                (Leads-run d valid r1 n.id on1))
              λ taken _ h.
                Only-bind SoundErr (On d) (fail_if (is_empty taken) Err.no_route) _
                  (fail_if-pass _ _
                    (split-some n.kind _ taken is (Routed-run d valid r1 id n on1 found) h.1 h.2))
                  λ _ _.
                    route_branches-On _ _ (branch-Leads d valid e _ _ _ n.id taken h.0)
                      (definition_of (kept-open_scope e tok n _ r1) ∙ on1)

    fire-On :
        (s : Scope) (found : Option Node) (id : String) (n : Node) (p : JoinPolicy) (o : Outcome)
        (r : Run)
        → (On d) r
        → found ≡ some n
        → node d id ≡ some n
        → is_join n.kind ≡ true
        → Ensures SoundErr (On d) (fire e rec s found p o r)
    unfolding fire
    fire-On s found id n p o r on here known is =
        Ensures-bind SoundErr (On d) (On d) (gateway_step r) _ (gateway_step-On d valid r on)
          λ r1 _ on1.
            Only-bind SoundErr (On d) (or_fail found Err.node_not_found) _
              (or_fail-have found Err.node_not_found n here)
              λ m look.
                let same : m ≡ n = let q = or_fail-ok found Err.node_not_found m look in cc in
                Ensures-bind SoundErr (Leads d) (On d)
                  (the_only (transitions_from r1.definition m.id)) _
                  (subst
                    (λ (x : Node).
                      Ensures SoundErr (Leads d) (the_only (transitions_from r1.definition x.id)))
                    (sym same) (the_only-Leads d valid r1 id n on1 known is))
                  λ out _ leads.
                    Only-bind SoundErr (On d) (or_fail s.parent_id Err.nil_dereference) _
                      (or_fail-Only SoundErr _ _ tt)
                      λ parent _.
                        let (joined, next, run) = close_round e s m p o parent r r1 in
                        Only-bind SoundErr (On d) (join_check e joined) _
                          (join_check-Only SoundErr allows e joined)
                          λ _ _.
                            good next out "" 0 run leads
                              (definition_of (kept-close_round e s m p o parent r r1) ∙ on1)

    try_join-On :
        (s : Scope) (id : String) (n : Node) (r : Run)
        → (On d) r
        → node r.definition s.join_node ≡ some n
        → node d id ≡ some n
        → is_join n.kind ≡ true
        → Ensures SoundErr (On d) (try_join e rec s r)
    unfolding try_join
    try_join-On s id n r on here known is =
        Ensures-if SoundErr (On d) (not (is_opened s.status)) _ _ (λ _. on)
          λ _.
            let nd = node r.definition s.join_node in
            Only-bind SoundErr (On d) (count_round (join_policy_of nd) s.id r.tokens _) _
              (count_round-Only SoundErr allows _ s.id r.tokens _)
              λ tally _.
                Ensures-if SoundErr (On d)
                  (round_closes (join_policy_of nd) (length (waiting_tokens s r)) tally).0 _ _
                  (λ _. fire-On s nd id n _ _ r on here known is) (λ _. on)

    arrive-On :
        (tok : Token) (id : String) (n : Node) (o : Outcome) (r : Run)
        → (On d) r
        → node d id ≡ some n
        → is_join n.kind ≡ true
        → Ensures SoundErr (On d) (arrive e rec tok n o r)
    unfolding arrive
    arrive-On tok id n o r on known is =
        Only-bind SoundErr (On d) (or_fail (scope tok.scope_id r) Err.outside_block) _
          (or_fail-Only SoundErr _ _ tt)
          λ s _.
            Only-bind SoundErr (On d) (fail_if (not (s.join_node == n.id)) Err.outside_block) _
              (fail_if-Only SoundErr _ _ tt)
              λ u inside.
                let own = (==_iff s.join_node n.id).0 (not-eq-false _ (fail_if-ok _ _ u inside)) in
                let on' = definition_of (kept-park tok n o r) ∙ on in
                let here : node (park tok n o r).definition s.join_node ≡ some n =
                  subst (λ (x : Definition). node x s.join_node ≡ some n) (sym on')
                    (subst (λ (x : String). node d x ≡ some n) (sym own) (node-own d id n known)) in
                try_join-On s id n (park tok n o r) on' here known is

    close-On :
        (tok : Token) (n : Node) (action : String) (r : Run)
        → (On d) r
        → Ensures SoundErr (On d) (close_case tok n action r)
    unfolding close_case
    close-On tok n action r on =
        Ensures-if SoundErr (On d) (not (tok.scope_id == r.case.id)) _ _ (λ _. tt)
          (λ _. definition_of (kept-closing tok n action r) ∙ on)

    settle-On :
        (tok : Token) (t : Transition) (hops : ℕ) (id : String) (n : Node) (h : ℕ) (r : Run)
        → (On d) r
        → node d id ≡ some n
        → Ensures SoundErr (On d) (settle e stored rec tok t hops n h r)
    unfolding settle
    settle-On tok t hops id n h r on found =
        Ensures-if SoundErr (On d) (is_decision n.kind) _ _
          (λ decides.
            Ensures-if SoundErr (On d) (leb max_decision_hops hops) _ _ (λ _. tt)
              λ room.
                Ensures-bind SoundErr (Leads d) (On d) (resolve_route e _ _) _
                  (resolve_route-Among SoundErr allows e stored ports (Leads d) _ _
                    (Leads-run d valid r n.id on)
                    (inr (decision-Routed n.kind _ decides (Routed-run d valid r id n on found))))
                  λ onward _ leads. good tok onward "" hops r leads on)
          (λ _.
            Ensures-if SoundErr (On d) (is_split n.kind) _ _
              (λ splits. split-On tok id n r on found splits)
              (λ _.
                Ensures-if SoundErr (On d) (is_join n.kind) _ _
                  (λ joins. arrive-On tok id n t.outcome r on found joins)
                  (λ _.
                    Ensures-if SoundErr (On d) n.terminal _ _ (λ _. close-On tok n t.action r on)
                      (λ _.
                        rest-Ensures SoundErr allows e stored ports (On d) tok n h r
                          (λ u. definition_of (kept-settled u h r) ∙ on)
                          (λ u to.
                            definition_of
                              (kept-assign_to u n to (settled u h r) ∙ kept-settled u h r)
                            ∙ on)))))

    hop-Good : Good (hop e stored rec)
    unfolding hop
    hop-Good tok t comment hops r leads on =
        let here : node r.definition t.to ≡ some leads.0 =
          subst (λ (x : Definition). node x t.to ≡ some leads.0) (sym on) leads.1 in
        Only-bind SoundErr (On d) (or_fail (node r.definition t.to) Err.node_not_found) _
          (or_fail-have _ _ leads.0 here)
          λ n look.
            settle-On _ t (hops + 1) t.to n _ (enter tok t comment n r)
              (definition_of (kept-enter tok t comment n r) ∙ on)
              (subst (λ (x : Definition). node x t.to ≡ some n) on (or_fail-ok _ _ n look))

  route-Good :
      (e : Engine) (stored : Result (List Event)) (fuel : ℕ)
      → PortsAnswer SoundErr e stored
      → Good (route e stored fuel)
  unfolding route
  route-Good e stored zero ports tok t comment hops r leads on = tt
  route-Good e stored (suc fuel) ports tok t comment hops r leads on =
      hop-Good e stored ports (route e stored fuel) (route-Good e stored fuel ports) tok t comment
        hops r leads on

-- On a definition that passes Validate, automatic routing along one of its transitions never fails
-- because a node is missing, because a decision or a split has no route to take, or because a join
-- does not have exactly one way out, through whatever hops, splits and joins it goes, provided no
-- guard, resolver or history query answers with one of these errors itself. If it succeeds, the run
-- is still on that definition.
pub route_sound :
    (e : Engine) (stored : Result (List Event)) (fuel : ℕ) (tok : Token) (t : Transition)
    (comment : String) (hops : ℕ) (r : Run)
    → is_valid r.definition ≡ true
    → PortsAnswer SoundErr e stored
    → (n : Node) × (node r.definition t.to ≡ some n)
    → Ensures SoundErr
        (λ r'. r'.definition ≡ r.definition)
        (route e stored fuel tok t comment hops r)
route_sound e stored fuel tok t comment hops r valid ports leads =
    route-Good r.definition valid e stored fuel ports tok t comment hops r leads refl

-- ===== src/Route/Rests.antt =====
-- Where tokens stand after automatic routing (workflow/run.go): invariant I5 of the random walk test,
-- that no active token is left on a node the engine decides by itself.
use vogel.Prelude.{ℕ, String, ◌≡◌, subst, some, List, nat_eq, string_eq, All-of_All}
use vogel.Errors.{Result, Returns, AnyErr, Ensures-weaken}
use vogel.Definition.{Definition, node, Transition}
use vogel.Case.{Token, TokenStatus}
use vogel.Event.{Event}
use vogel.Engine.{Engine}
use vogel.Run.{Run, resolved_eligibility}
use vogel.Route.{route}
use vogel.Route.Invariant.{route-Done}
use vogel.Route.Keeps.{Keeps}
use vogel.Route.Stands.{
  Stands, AllStand, EveryStands, NoOne, stand-add_token, stand-close_round, stand-settled,
  stand-assign_to, stand-closing, stand-enter, stand-open_scope, stand-park,
}

module _ (d : Definition) where
  pub stand-Keeps :
      (e : Engine) (stored : Result (List Event))
      → Keeps e stored (λ tok. AllStand d (λ i. i ≡ tok.id)) (AllStand d NoOne)
  stand-Keeps e stored = record {
    enters = λ tok tr comment n r h. stand-enter d tok tr comment n r h;
    rests = λ tok n i r h known auto term deadline.
        let new : Stands d (record tok {
          status = TokenStatus.active;
          eligible = resolved_eligibility n r.case.unit;
          deadline_at = deadline;
        }) =
          (n, subst (λ x. node x tok.node ≡ some n) h.0 known, auto, term) in
        (
          stand-settled d _ i r h new,
          λ to. stand-assign_to d _ n to _ (stand-settled d _ i r h new) new,
        );
    ends = λ tok n action r h _ _. stand-closing d tok n action r h;
    counts = λ tok k r h. h;
    opens = λ tok n bs r h. stand-open_scope d e tok n bs r h;
    starts = λ tok r h. stand-add_token d tok r h;
    parks = λ tok n o s r h _ _ _ known joins. stand-park d tok n o r h known joins;
    fires = λ s n p o parent k r h _ _. stand-close_round d e s n p o parent r _ h;
  }

  pub every-stands : (r : Run) → AllStand d NoOne r → EveryStands d r
  every-stands r h = (h.0, All-of_All _ r.tokens (λ t f. f (λ no'. no')) h.1)

  -- A call of `route` that succeeds leaves no active token on a gateway or a terminal node, whatever
  -- hops, splits and joins it makes: every active token of the case stands on a task of the
  -- definition that is not terminal and every waiting one on a join, given that all but the token
  -- that is routed did so before.
  pub route-EveryStands :
      (e : Engine) (stored : Result (List Event)) (fuel : ℕ) (tok : Token) (tr : Transition)
      (comment : String) (hops : ℕ) (r : Run)
      → AllStand d (λ i. i ≡ tok.id) r
      → Returns (EveryStands d) (route e stored fuel tok tr comment hops r)
  route-EveryStands e stored fuel tok tr comment hops r h =
      Ensures-weaken AnyErr (AllStand d NoOne) (EveryStands d)
        (route e stored fuel tok tr comment hops r) every-stands
        (route-Done e stored (λ t. AllStand d (λ i. i ≡ t.id)) (AllStand d NoOne)
          (stand-Keeps e stored) fuel tok tr comment hops r h)

  pub stand-but : (i : ℕ) (r : Run) → EveryStands d r → AllStand d (λ j. j ≡ i) r
  stand-but i r h = (h.0, All-of_All _ r.tokens (λ t s _. s) h.1)

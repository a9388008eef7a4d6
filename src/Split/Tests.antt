-- ===== src/Split/Tests.antt =====
-- The route that a decision takes in a small case.
use vogel.Prelude.{true, false, ◌≡◌, refl, List, [], ◌∷◌}
use vogel.Errors.{or_fail, ok, Ensures}
use vogel.Definition.{Transition}
use vogel.Engine.{Engine, lookup_guard}
use vogel.Split.{resolve_route}
use vogel.Split.Routes.{Unroutable, Chosen, resolve_route-first}
use vogel.Examples.{engine, step_to, open_row}

-- A guard that passes a case with an assignee.
abbrev guarded : Engine
guarded = record (engine 6 200) {
  guards = ("never", λ c. ok false) ∷ ("always", λ c. ok true) ∷ [];
}

abbrev routes : List Transition
routes =
    record (step_to "fork" "x" "a") { guard = "never" }
    ∷ record (step_to "fork" "y" "b") { guard = "always" }
    ∷ step_to "fork" "z" "end"
    ∷ []

resolve_route-first_example :
    Ensures
      (Unroutable guarded open_row routes)
      (Chosen guarded open_row routes)
      (resolve_route guarded routes open_row)
resolve_route-first_example = resolve_route-first guarded open_row routes

takes_the_second :
    resolve_route guarded routes open_row
    ≡ ok (record (step_to "fork" "y" "b") { guard = "always" })
unfolding resolve_route lookup_guard or_fail
takes_the_second = refl

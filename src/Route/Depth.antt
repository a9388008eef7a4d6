-- ===== src/Route/Depth.antt =====
-- What bounds the depth of automatic routing (workflow/run.go), and what it assumes of the ports.
use vogel.Prelude.{ℕ, ◌+◌, ◌*◌, ◌≤◌, String, ◌≡◌, some, List, string_eq, nat_eq}
use vogel.Errors.{Err, Result, ok, Ensures, NoFuelErr, Only}
use vogel.Definition.{Transition}
use vogel.Case.{Case, Token}
use vogel.Event.{Event}
use vogel.Engine.{
  Engine, GuardFunc, DueInput, AssignInput, lookup_guard, max_decision_hops, max_gateway_steps,
}
use vogel.Run.{Run, Route}

-- Every error with which a port answers is one of `E`.
pub record PortsAnswer (E : Err → Type 0) (e : Engine) (stored : Result (List Event)) : Type 0 where
  pub guards :
      (name : String) (g : GuardFunc) (c : Case) → lookup_guard e name ≡ ok g → Only E (g c)
  pub deadlines : (f : DueInput → Result ℕ) (i : DueInput) → e.deadlines ≡ some f → Only E (f i)
  pub assignees :
      (f : AssignInput → Result String) (i : AssignInput) → e.assignees ≡ some f → Only E (f i)
  pub history : Only E stored

-- `E` has the errors with which these parts answer themselves.
pub record Allows (E : Err → Type 0) : Type 0 where
  pub guard_missing : E Err.guard_not_registered
  pub deadline_missing : E Err.unknown_deadline_rule
  pub assign_missing : E Err.unknown_assign_rule
  pub rejects : E Err.join_rejected
  pub bad_outcome : E Err.invalid_outcome

-- The state a call leaves has counted at least `g` gateway steps, and no more than the bound.
abbrev pub Grown : ℕ → Run → Type 0
Grown g r = (g ≤ r.gateway_steps) × (r.gateway_steps ≤ max_gateway_steps)

-- The depth still to go fits into `n`: 33 calls for each gateway step not yet counted, and one for
-- each hop not yet made.
abbrev pub Need : ℕ → ℕ → ℕ → Type 0
Need n g hops = 8481 ≤ n + 33 * g + hops

abbrev pub Fits : ℕ → Route → Type 0
Fits n rec =
    (tok : Token) (tr : Transition) (comment : String) (hops : ℕ) (r : Run)
    → hops ≤ max_decision_hops
    → r.gateway_steps ≤ max_gateway_steps
    → Need n r.gateway_steps hops
    → Ensures NoFuelErr (Grown r.gateway_steps) (rec tok tr comment hops r)

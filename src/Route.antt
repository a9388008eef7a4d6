-- ===== src/Route.antt =====
-- workflow/run.go: Engine.route, which moves a token along a transition and keeps routing through
-- decisions, splits and joins. It calls itself through `split` and `try_join`; each of these takes
-- that call as an argument, and `route` ties the knot on fuel (Route/Fuel shows how much is enough).
pub mod Invariant
pub mod Numbering
pub mod Steps
pub mod Ports
pub mod Fuel
pub mod Rests
pub mod Stands
pub mod Depth
pub mod Keeps
pub mod Leads
pub mod Sound
use vogel.Prelude.{
  ℕ, zero, suc, ◌+◌, String, none, List, length, leb, string_eq, nat_eq, if◌then◌else◌,
}
use vogel.Errors.{Err, Result, err, ◌>>=◌, or_fail}
use vogel.Definition.{
  Node, node, Transition, transitions_from, is_split, is_decision, is_join, no_eligibility,
}
use vogel.Case.{Token}
use vogel.Event.{EventKind, Event, event}
use vogel.Engine.{Engine, max_decision_hops}
use vogel.Run.{Run, Route, emit, write_token, snapshot, next_seq}
use vogel.Split.{resolve_route, split}
use vogel.Join.{arrive}
use vogel.Settle.{rest, close_case}

-- The token as it enters a node by the event at `seq`.
abbrev pub entering : Token → Node → ℕ → Run → Token
entering tok next seq run = record tok {
  node = next.id;
  entered_seq = seq;
  entered_at = run.now;
  assigned_to = "";
  deadline_at = none;
  expired_deadline = none;
  eligible = no_eligibility;
}

-- The state after the hop.
unfoldable pub enter : Token → Transition → String → Node → Run → Run
enter tok tr comment next run = write_token (entering tok next (next_seq run) run) (
    emit
      (record (event EventKind.moved tok.id tok.scope_id tok.node next.id) {
        action = tr.action;
        comment = comment;
      })
      run)

-- `stored` is what Engine.listEvents answers during the call.
module _ (e : Engine) (stored : Result (List Event)) where
  -- The `switch` of route, on the node that the token entered; `hops` counts the hop into it.
  unfoldable pub settle : Route → Token → Transition → ℕ → Node → ℕ → Run → Result Run
  settle rec tok tr hops next hop run =
      if is_decision next.kind
      then (if leb max_decision_hops hops then err Err.too_many_decision_hops else do
        onward ←
            resolve_route e (transitions_from run.definition next.id) (snapshot tok next.id run)
        rec tok onward "" hops run)
      else if is_split next.kind
      then split e rec tok next run
      else if is_join next.kind
      then arrive e rec tok next tr.outcome run
      else if next.terminal
      then close_case tok next tr.action run
      else rest e stored tok next hop run

  -- One turn of route's loop.
  unfoldable pub hop : Route → Route
  hop rec tok tr comment hops run = do
    next ← or_fail (node run.definition tr.to) Err.node_not_found
    settle rec (entering tok next (next_seq run) run) tr (hops + 1) next (length run.events)
        (enter tok tr comment next run)

  -- Engine.route
  unfoldable pub route : ℕ → Route
  route zero tok tr comment hops run = err Err.out_of_fuel
  route (suc fuel) tok tr comment hops run = hop (route fuel) tok tr comment hops run

-- ===== src/Split.antt =====
-- workflow/run.go (Engine.split) and workflow/move.go (resolveRoute): which routes a gateway takes,
-- and the scope and tokens that a split opens.
pub mod Routes
pub mod Tests
use vogel.Prelude.{
  ℕ, suc, ◌+◌, String, Bool, true, false, none, some, List, [], ◌∷◌, map, length, is_empty, ◌==◌,
  string_eq, nat_eq, if◌then◌else◌,
}
use vogel.Errors.{Err, Result, ok, err, ◌>>=◌, ◌>>◌, fail_if}
use vogel.Definition.{Node, Transition, transitions_from, NodeKind, Outcome, no_eligibility}
use vogel.Case.{Case, Token, TokenStatus, ScopeStatus}
use vogel.Event.{EventKind, Detail, event}
use vogel.Engine.{Engine, lookup_guard}
use vogel.Run.{Run, Route, emit, end, add_token, add_scope, gateway_step, snapshot, next_seq}

unfoldable pub is_parallel : NodeKind → Bool
is_parallel NodeKind.parallel = true
is_parallel _ = false

abbrev add_taken :
    Transition
    → Result (List Transition × List Transition)
    → Result (List Transition × List Transition)
add_taken tr later = do (taken, fallback) ← later; ok (tr ∷ taken, fallback)

abbrev add_fallback :
    Transition
    → Result (List Transition × List Transition)
    → Result (List Transition × List Transition)
add_fallback tr later = do (taken, fallback) ← later; ok (taken, tr ∷ fallback)

-- The last loop of `split`.
unfoldable pub route_branches : Route → List (Token × Transition) → Run → Result Run
route_branches rec [] run = ok run
route_branches rec ((b, tr) ∷ rest) run = do
  run' ← rec b tr "" 0 (add_token b run)
  route_branches rec rest run'

module _ (e : Engine) where
  -- resolveRoute: the first route that has no guard or whose guard passes.
  unfoldable pub resolve_route : List Transition → Case → Result Transition
  resolve_route [] c = err Err.no_route
  resolve_route (tr ∷ trs) c =
      let later = resolve_route trs c in
      if tr.guard == ""
      then ok tr
      else do guard ← lookup_guard e tr.guard; passes ← guard c; if passes then ok tr else later

  -- The loop of `split` over an inclusive split's routes: the passing ones and the default.
  unfoldable pub inclusive_routes :
      List Transition → Case → Result (List Transition × List Transition)
  inclusive_routes [] c = ok ([], [])
  inclusive_routes (tr ∷ trs) c =
      let later = inclusive_routes trs c in
      if tr.guard == "" then add_fallback tr later else do
        guard ← lookup_guard e tr.guard
        passes ← guard c
        if passes then add_taken tr later else later

  -- The routes that a split takes.
  unfoldable pub taken_routes : Token → Node → Run → Result (List Transition)
  taken_routes tok n run =
      let routes = transitions_from run.definition n.id in
      if is_parallel n.kind then ok routes else do
        (taken, fallback) ← inclusive_routes routes (snapshot tok n.id run)
        ok (if is_empty taken then fallback else taken)

  -- One new token for each route taken, from the `n`-th identifier on.
  unfoldable pub branch_tokens : ℕ → ℕ → ℕ → String → List Transition → List (Token × Transition)
  branch_tokens n case_id scope_id at [] = []
  branch_tokens n case_id scope_id at (tr ∷ trs) =
      (
        record {
          id = e.uuid n;
          case_id = case_id;
          scope_id = scope_id;
          node = at;
          status = TokenStatus.active;
          eligible = no_eligibility;
          assigned_to = "";
          deadline_at = none;
          expired_deadline = none;
          entered_seq = 0;
          entered_at = 0;
          ended_seq = 0;
          ended_at = none;
          outcome = Outcome.no_outcome;
        },
        tr,
      )
      ∷ branch_tokens (suc n) case_id scope_id at trs

  -- Consumes the token and opens the scope of its branches: the state before the last loop.
  unfoldable pub open_scope : Token → Node → List (Token × Transition) → Run → Run
  open_scope tok n branches run =
      let seq = next_seq run in
      let scope_id = e.uuid run.drawn in
      let opened =
        emit
          (record (event EventKind.split tok.id tok.scope_id n.id n.id) {
            detail = Detail.split scope_id n.id (map (λ (b : Token × Transition). b.0.id) branches);
          })
          run in
      let consumed = end tok TokenStatus.consumed seq opened in
      add_scope
        (record {
          id = scope_id;
          case_id = run.case.id;
          parent_id = some tok.scope_id;
          split_node = n.id;
          join_node = n.join;
          expected = length branches;
          status = ScopeStatus.opened;
          opened_seq = seq;
          closed_seq = 0;
        })
        (record consumed { drawn = run.drawn + 1 + length branches })

  -- Engine.split
  unfoldable pub split : Route → Token → Node → Run → Result Run
  unfolding branch_tokens
  split rec tok n run = do
    run1 ← gateway_step run
    taken ← taken_routes tok n run1
    fail_if (is_empty taken) Err.no_route
    let branches = branch_tokens (run1.drawn + 1) run1.case.id (e.uuid run1.drawn) n.id taken
    route_branches rec branches (open_scope tok n branches run1)

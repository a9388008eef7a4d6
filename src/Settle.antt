-- ===== src/Settle.antt =====
-- A token coming to rest or ending its case: workflow/operations.go (deadlineFor),
-- workflow/assignrule.go (applyAssignRule) and workflow/run.go (closeCase, the last case of route).
use vogel.Prelude.{
  ℕ, ◌+◌, String, not, Option, none, some, List, ◌++◌, map, modify, ltb, ◌==◌, string_eq, nat_eq,
  if◌then◌else◌, str_append, pos, negsuc,
}
use vogel.Errors.{Err, Result, ok, err, ◌>>=◌}
use vogel.Definition.{Node}
use vogel.Case.{Case, Status, Token, TokenStatus, Scope, ScopeStatus}
use vogel.Event.{EventKind, Event, Detail, event, current_event_schema}
use vogel.Engine.{Engine}
use vogel.Run.{Run, emit, end, write_token, write_scope, scope, resolved_eligibility, next_seq}

-- An event as `appendEvent` will store it (fullHistory).
planned_event : Case → Event → Event
planned_event c evt = record evt {
  case_id = c.id;
  tenant = c.tenant;
  actor_id = evt.actor.id;
  schema_version = current_event_schema;
}

-- The token resting with its deadline, which the event that brought it there, at index `hop` of the
-- plan, records too.
unfoldable pub settled : Token → ℕ → Run → Run
settled tok hop run = write_token tok (record run {
  events = modify hop (λ (evt : Event). record evt { deadline_at = tok.deadline_at }) run.events;
})

-- What an assign rule's answer changes: nothing, if it names nobody.
unfoldable pub assign_to : Token → Node → String → Run → Run
assign_to tok n to run =
    if to == ""
    then run
    else emit
        (record (event EventKind.assigned tok.id tok.scope_id n.id n.id) {
          detail = Detail.assignment "" to (str_append "assign_rule:" n.assign_rule);
        })
        (write_token (record tok { assigned_to = to }) run)

-- `stored` is what Engine.listEvents answers during the call.
module _ (e : Engine) (stored : Result (List Event)) where
  -- deadlineFor
  unfoldable pub deadline_for : Node → ℕ → Case → Token → Result (Option ℕ)
  deadline_for n from c tok =
      if not (n.deadline_rule == "")
      then elim e.deadlines [
        | none ↦ err Err.unknown_deadline_rule
        | some due ↦ do
          at ← due (record { rule = n.deadline_rule; from = from; case = c; token = tok })
          ok (some at)
      ]
      else elim n.deadline [
        | pos duration ↦ if ltb 0 duration then ok (some (from + duration)) else ok none
        | negsuc _ ↦ ok none
      ]

  -- caseRun.fullHistory
  unfoldable pub full_history : Run → Result (List Event)
  unfolding planned_event
  full_history run = do history ← stored; ok (history ++ map (planned_event run.case) run.events)

  -- applyAssignRule
  unfoldable pub apply_assign_rule : Token → Node → Run → Result Run
  apply_assign_rule tok n run = if n.assign_rule == "" then ok run else elim e.assignees [
    | none ↦ err Err.unknown_assign_rule
    | some assignee ↦ do
      history ← full_history run
      to ← assignee (record {
        rule = n.assign_rule;
        case = run.case;
        token = tok;
        node = n;
        history = history;
      })
      ok (assign_to tok n to run)
  ]

  -- The last case of `route`'s switch: the token rests on a task node.
  unfoldable pub rest : Token → Node → ℕ → Run → Result Run
  rest tok n hop run = do
    let active = record tok {
      status = TokenStatus.active;
      eligible = resolved_eligibility n run.case.unit;
    }
    deadline ← deadline_for n run.now run.case active
    let resting = record active { deadline_at = deadline }
    apply_assign_rule resting n (settled resting hop run)

unfoldable pub close_root : Option Scope → ℕ → Run → Run
close_root none seq run = run
close_root (some root) seq run =
    write_scope (record root { status = ScopeStatus.closed; closed_seq = seq }) run

-- What closeCase changes: the token is consumed, the root scope and the case closed.
unfoldable pub closing : Token → Node → String → Run → Run
closing tok n action run =
    let seq = next_seq run in
    let closed =
      emit (record (event EventKind.closed tok.id tok.scope_id n.id n.id) { action = action })
        run in
    let consumed = end tok TokenStatus.consumed seq closed in
    let r = close_root (scope run.case.id consumed) seq consumed in
    record r {
      case = record r.case { status = Status.closed; closed_at = some run.now; state = n.id };
    }

-- caseRun.closeCase
unfoldable pub close_case : Token → Node → String → Run → Result Run
close_case tok n action run =
    if not (tok.scope_id == run.case.id)
    then err Err.outside_block
    else ok (closing tok n action run)

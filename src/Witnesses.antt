-- ===== src/Witnesses.antt =====
-- The theorems applied to small cases, and runs of the code on them.
use vogel.Prelude.{length, ◌+◌, ◌≤◌, true, false, ◌≡◌, refl, subst, some, List, [], ◌∷◌, arith, All}
use vogel.Errors.{or_fail, Err, ok, err, Ensures, NoFuelErr, Returns}
use vogel.Definition.{is_automatic, node, Definition, Transition}
use vogel.Case.{Case, Token, Scope, Status, live, is_opened}
use vogel.Event.{Event, current_event_schema}
use vogel.Engine.{Engine, resolve_definition, max_gateway_steps, lookup_guard}
use vogel.Run.{active, contains}
use vogel.Route.{route}
use vogel.Route.Depth.{PortsAnswer}
use vogel.Route.Fuel.{route-terminates}
use vogel.Route.Numbering.{Planned, route-Planned}
use vogel.Route.Rests.{route-EveryStands}
use vogel.Route.Stands.{Stands, EveryStands}
use vogel.Store.{
  get_by_id, list_tokens, find_case, put_case, update, update_token, append_event, update_scope,
}
use vogel.Tx.{returns, returned, writes, wrote}
use vogel.History.{append, stamp}
use vogel.Tx.ReadsOnly.{Reads}
use vogel.Persist.{persist, project, write_scopes, write_tokens, append_all, earliest, sooner}
use vogel.Persist.Exclusive.{persist-exclusive, persist-advances}
use vogel.Move.{plan_move}
use vogel.Move.Plan.{PlannedMove, plan_move-Reads}
use vogel.Cancel.{cancel_run, CancelTokenInput, plan_cancel_token}
use vogel.Cancel.Branch.{PlannedCancel, plan_cancel_token-Reads}
use vogel.Cancel.Ends.{cancel_run-ends}
use vogel.Examples.{
  tables, split_db, start_scope, task, engine, review, person, step_to, start_token, start_run,
  touched_run, opened_db, open_row, action, one_event,
}

abbrev port_free : Engine
port_free = engine 6 200

port_free-PortsAnswer : PortsAnswer NoFuelErr port_free (ok [])
unfolding lookup_guard
port_free-PortsAnswer = record {
  guards = λ name g c h. cc;
  deadlines = λ f i h. cc;
  assignees = λ f i h. cc;
  history = tt;
}

abbrev go : Transition
go = step_to "start" "go" "fork"

route-terminates_example :
    Ensures NoFuelErr
      (λ r. (0 ≤ r.gateway_steps) × (r.gateway_steps ≤ max_gateway_steps))
      (route port_free (ok []) 8500 start_token go "" 0 start_run)
route-terminates_example =
    route-terminates port_free (ok []) 8500 start_token go "" 0 start_run port_free-PortsAnswer
      (omega arith) (omega arith) (omega arith)

route-Planned_example :
    Returns
      (Planned 1 6 (person "ana"))
      (route port_free (ok []) 8500 start_token go "" 0 start_run)
route-Planned_example =
    route-Planned port_free (ok []) 8500 1 6 (person "ana") start_token go "" 0 start_run
      (record { base = refl; time = refl; who = refl; events = tt })

route-EveryStands_example :
    Returns (EveryStands review) (route port_free (ok []) 8500 start_token go "" 0 start_run)
route-EveryStands_example =
    route-EveryStands review port_free (ok []) 8500 start_token go "" 0 start_run
      (refl, ((λ other. absurd (other refl)), tt))

ok-same : {A : Type 0} (a b : A) → ok a ≡ ok b → a ≡ b
ok-same a b h = cc

review_standing :
    (ts : List Token) (ss : List Scope)
    → All (Stands review) (list_tokens 100 (tables ts ss))
    → (c : Case) (d : Definition) → get_by_id 100 (tables ts ss) ≡ ok c
    → resolve_definition port_free c.definition c.version ≡ ok d
    → All (Stands d) (list_tokens c.id (tables ts ss))
unfolding get_by_id find_case resolve_definition or_fail
review_standing ts ss stand c d read resolved =
    subst
      (λ (x : Case).
        resolve_definition port_free x.definition x.version ≡ ok d
        → All (Stands d) (list_tokens x.id (tables ts ss)))
      (ok-same open_row c read)
      (λ found.
        subst (λ (y : Definition). All (Stands y) (list_tokens 100 (tables ts ss)))
          (ok-same review d found) stand)
      resolved

opened_stand : All (Stands review) (list_tokens 100 opened_db)
unfolding list_tokens node is_automatic
opened_stand = ((record (task "start") { start = true }, refl, refl, refl), tt)

split_stand : All (Stands review) (list_tokens 100 split_db)
unfolding list_tokens node is_automatic
split_stand = (tt, ((task "a", refl, refl, refl), ((task "b", refl, refl, refl), tt)))

plan_move-Reads_example :
    Reads
      (PlannedMove port_free (action 0 "go") opened_db)
      opened_db
      (plan_move port_free (action 0 "go") opened_db)
plan_move-Reads_example =
    plan_move-Reads port_free (action 0 "go") opened_db
      (review_standing (start_token ∷ []) (start_scope ∷ []) opened_stand)

abbrev withdrawal : CancelTokenInput
withdrawal = record {
  case_id = 100;
  token_id = 201;
  actor = person "ana";
  reason = "no longer needed";
}

plan_cancel_token-Reads_example :
    Reads
      (PlannedCancel port_free withdrawal split_db)
      split_db
      (plan_cancel_token port_free withdrawal split_db)
plan_cancel_token-Reads_example =
    plan_cancel_token-Reads port_free withdrawal split_db
      (review_standing split_db.tokens split_db.scopes split_stand)

-- What the first of two writers gets back.
abbrev written : Case × List Event
written = (
  record open_row { revision = 1; last_seq = 2; assigned_to = "ana" },
  record one_event {
    id = 200;
    case_id = 100;
    seq = 2;
    occurred_at = 6;
    actor = person "ana";
    actor_id = "ana";
    schema_version = current_event_schema;
  }
      ∷ [],
)

touched-written : (persist port_free touched_run opened_db).0 ≡ ok written
unfolding persist returns returned update find_case put_case project active write_scopes
    write_tokens append_all append stamp writes wrote contains update_token append_event
    update_scope earliest sooner
touched-written = refl

persist-exclusive_example :
    persist (engine 7 300) start_run (persist port_free touched_run opened_db).1
    ≡ (err Err.conflict, (persist port_free touched_run opened_db).1)
persist-exclusive_example =
    persist-exclusive port_free (engine 7 300) touched_run start_run opened_db written refl refl
      touched-written

persist-advances_example :
    (c : Case) × (find_case 100 (persist port_free touched_run opened_db).1 ≡ some c)
    × (c.revision ≡ touched_run.case.revision + 1)
    × (c.last_seq ≡ touched_run.base_seq + length touched_run.events)
persist-advances_example = persist-advances port_free touched_run opened_db written touched-written

cancel_run-ends_example :
    All (λ (t : Token). live t.status ≡ false) (cancel_run "void" start_run).tokens
    × All (λ (s : Scope). is_opened s.status ≡ false) (cancel_run "void" start_run).scopes
    × ((cancel_run "void" start_run).case.status ≡ Status.cancelled)
cancel_run-ends_example = cancel_run-ends "void" start_run

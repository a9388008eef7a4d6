-- ===== src/Lib.antt =====
-- Verification of the vogel library: its workflow engine (workflow/), cases that follow a definition
-- of tasks, decisions, splits and joins, persisted in PostgreSQL with an event history, and its
-- idempotency store (idempotency/), which answers a retried request with the first response, and its
-- effects (action/), background jobs that the events of a case trigger.
--
-- A definition is a graph of nodes and transitions. A case is a row with a state; its tokens stand on
-- nodes, and a scope groups the tokens of one run of a block between a split and its join. A call of
-- the engine (Open, Move, Claim, Release, Reassign, SetDeadline, Expire, Cancel, CancelToken) loads a
-- case into a working copy, plans every change and event there, and then writes the plan: the case
-- row by compare-and-swap, scopes, tokens and events.
--
-- Which file models which part:
--   Definition, Names   workflow/workflow.go: nodes, transitions, lookups, referenced names
--   Rules, Validate     workflow/workflow.go, blocks.go, joinpolicy.go: Definition.Validate
--   Case, Event         workflow/workflow.go, tokens.go, joinpolicy.go: the data
--   Engine              workflow/engine.go: the ports, New, Register, lookups, resolveActor
--   Run                 workflow/run.go: caseRun and its operations
--   JoinPolicy          workflow/joinpolicy.go: closes, closeBranches, JoinResults
--   Split, Join, Route  workflow/run.go: split, arrive, tryJoin, route; move.go: resolveRoute
--   Settle              workflow/run.go: closeCase; operations.go: deadlineFor; assignrule.go
--   Store, Tx           workflow/postgres/repository.go: the statements, and a call on a transaction
--   History             workflow/events.go: appendEvent, listEvents, upcastEvent
--   Persist             workflow/run.go: project, persist, writeState; engine.go: dispatch
--   Move                workflow/move.go: Move, Available and their checks
--   Assign              workflow/assign.go; Cancel: workflow/cancel.go; Open: workflow/open.go
--   Operations          workflow/operations.go: SetDeadline, Expire
--   Failure             workflow/failure.go; Chain: workflow/events.go, VerifyChain
--   Paging              workflow/workflow.go: page
--   Calendar            workflow/calendar/calendar.go
--   Queries             workflow/queries.go, operations.go (Overdue), and the list queries of
--                       workflow/postgres/repository.go
--   Idempotency         idempotency/idempotency.go, idempotency/postgres/store.go
--   Idempotency.Http    idempotency/httpx/middleware.go, over any store and over that one
--   Action              action/action.go: the registry of handlers, the engine's effect sink
--   Action.Attempt      action/attempt.go, action/postgres/repository.go: the attempt log
--   Action.Worker       action/worker.go; Action.Notify: action/notify.go, and
--                       notification/notification.go
--   Prelude, Sorting, Errors, Text   shared lists, sorts and tests, the sentinel errors, strings.TrimSpace
--   Examples, Witnesses     small cases, and the theorems applied to them, as in the modules Tests
--
-- How state and operations correspond: a call takes and returns the tables (Db) and ends in a value or
-- one of the source's sentinel errors; what it wrote before failing stays, since rolling back is
-- the caller's. A pointer into caseRun is the value it points to, and a write through it replaces
-- the entry with that identifier. UUIDs are numbers, those drawn in a call a function of how many
-- were drawn before; times are nanosecond counts. Guards, the resolvers, the join check and the
-- effect sink are functions of the engine, and stand for what these answer during one call. Numbers
-- such as Seqs and revisions are unbounded; the source's int64 would take 2^63 events to wrap.
--
-- The idempotency store is a list of rows; a call of Do also takes what its operation changes, a world
-- of which nothing else is known. Reserve runs outside a transaction, so what other transactions do
-- to the table between its statements, and the clock of each attempt, are arguments. The middleware
-- runs a handler that is any function of the request and a world: it answers with its calls on the
-- ResponseWriter and with whether it panics. What other requests do to the table meanwhile is a
-- function of it.
--
-- The registry of effects is the engine's sink: Register asks it for every effect of a definition, and
-- a call of the engine hands it the events it wrote. A job's insertion into River's table is a
-- parameter, with uniqueness by its four keys where a theorem says so; an error is a tree of what it
-- wraps, by Go type. A worker's handler acts on a world; the attempt log is a list of rows.
--
-- Fuel: `route` recurses through splits and joins. It is given 8500 units; 33 for each of the 256
-- gateway steps and 33 for the hops of one stretch are 8481. `child_on_path` walks at most as many
-- scopes as the opening Seq of the first, which falls at each step towards the root. The loop of
-- BusinessDays takes at most 366 rounds for each day asked for. The searches of Validate take one
-- round for each transition and one more, since they put each node in the queue once;
-- detectGatewayCycle descends one level for each gateway.
--
-- Parameters, since they are not in this repository or only call what is not: SHA-256, hexadecimal,
-- strings.EqualFold, net/mail, JSON, River, time zones, the clock, and every handler, guard and
-- resolver that an application registers.
--
-- Not modelled: the workflow's HTTP handlers, JSON encoding of details, options, logs, metrics and
-- timeouts, and the library's other packages.
pub mod Prelude
pub mod Sorting
pub mod Errors
pub mod Definition
pub mod Case
pub mod Event
pub mod Engine
pub mod Run
pub mod Rules
pub mod Validate
pub mod JoinPolicy
pub mod Settle
pub mod Split
pub mod Join
pub mod Route
pub mod Store
pub mod Tx
pub mod History
pub mod Names
pub mod Text
pub mod Persist
pub mod Move
pub mod Assign
pub mod Cancel
pub mod Operations
pub mod Open
pub mod Failure
pub mod Chain
pub mod Paging
pub mod Calendar
pub mod Queries
pub mod Idempotency
pub mod Action
pub mod Examples
pub mod Witnesses

-- ===== src/Examples.antt =====
-- Small cases that the tests and the witnesses run: a definition with a parallel block, an engine,
-- and the tables after some calls.
use vogel.Prelude.{List, some, ℕ, ◌+◌, String, true, false, none, [], ◌∷◌, pos}
use vogel.Definition.{
  Definition, Node, Transition, NodeKind, JoinPolicy, Outcome, CommentPolicy, no_eligibility,
}
use vogel.Case.{Actor, ActorKind, Case, Status, Token, TokenStatus, Scope, ScopeStatus}
use vogel.Event.{Event, EventKind, event}
use vogel.Run.{Run}
use vogel.Engine.{Engine}
use vogel.Store.{Db}
use vogel.Open.{OpenInput}
use vogel.Move.{MoveInput}

abbrev pub task : String → Node
task id = record {
  id = id;
  start = false;
  terminal = false;
  eligible = no_eligibility;
  deadline = pos 0;
  deadline_rule = "";
  kind = NodeKind.task;
  effects = [];
  join = "";
  on_expire = "";
  join_policy = JoinPolicy.no_policy;
  assign_rule = "";
}

abbrev pub step_to : String → String → String → Transition
step_to from action to = record {
  from = from;
  to = to;
  action = action;
  guard = "";
  comment = CommentPolicy.optional;
  is_return = false;
  effects = [];
  outcome = Outcome.no_outcome;
}

-- A route out of a gateway, which takes no comment.
abbrev pub route_to : String → String → String → Transition
route_to from action to = record (step_to from action to) { comment = CommentPolicy.none' }

-- start → fork ⇉ a, b → meet → end
abbrev pub review : Definition
review = record {
  name = "review";
  version = pos 1;
  nodes =
      record (task "start") { start = true }
      ∷ record (task "fork") { kind = NodeKind.parallel; join = "meet" }
      ∷ task "a"
      ∷ task "b"
      ∷ record (task "meet") { kind = NodeKind.join }
      ∷ record (task "end") { terminal = true }
      ∷ [];
  transitions =
      step_to "start" "go" "fork"
      ∷ route_to "fork" "to_a" "a"
      ∷ route_to "fork" "to_b" "b"
      ∷ step_to "a" "send" "meet"
      ∷ step_to "b" "send" "meet"
      ∷ route_to "meet" "done" "end"
      ∷ [];
}

-- An engine at time `now` whose identifiers start above `base`.
abbrev pub engine : ℕ → ℕ → Engine
engine now base = record {
  now = now;
  uuid = λ n. base + n;
  request_id = "";
  trace_id = "";
  span_id = "";
  join_check = none;
  deadlines = none;
  assignees = none;
  effect_sink = none;
  definitions = review ∷ [];
  latest = review ∷ [];
  guards = [];
}

abbrev pub person : String → Actor
person id = record { kind = ActorKind.human; id = id; acting_as = ""; on_behalf_of = ""; via = "" }

abbrev pub no_rows : Db
no_rows = record { cases = []; tokens = []; scopes = []; events = [] }

abbrev pub opening : OpenInput
opening = record {
  definition = "review";
  version = pos 0;
  domain = "d";
  external_id = "x";
  unit = "u";
  tenant = "";
  actor = person "ana";
  actor_id = "";
}

abbrev pub action : ℕ → String → MoveInput
action token name = record {
  case_id = 100;
  token_id = token;
  action = name;
  actor = person "ana";
  actor_id = "";
  comment = "";
  step = none;
  expected_revision = none;
}

-- The case as `open_case` leaves it at time 5: one token on "start".
abbrev pub open_row : Case
open_row = record {
  id = 100;
  definition = "review";
  version = pos 1;
  tenant = "";
  domain = "d";
  external_id = "x";
  unit = "u";
  state = "start";
  status = Status.opened;
  assigned_to = "";
  opened_at = 5;
  closed_at = none;
  deadline_at = none;
  revision = 0;
  last_seq = 1;
  join_result = none;
}

abbrev pub start_token : Token
start_token = record {
  id = 100;
  case_id = 100;
  scope_id = 100;
  node = "start";
  status = TokenStatus.active;
  eligible = no_eligibility;
  assigned_to = "";
  deadline_at = none;
  expired_deadline = none;
  entered_seq = 1;
  entered_at = 5;
  ended_seq = 0;
  ended_at = none;
  outcome = Outcome.no_outcome;
}

abbrev pub start_scope : Scope
start_scope = record {
  id = 100;
  case_id = 100;
  parent_id = none;
  split_node = "";
  join_node = "";
  expected = 1;
  status = ScopeStatus.opened;
  opened_seq = 1;
  closed_seq = 0;
}

abbrev pub tables : List Token → List Scope → Db
tables tokens scopes = record {
  cases = open_row ∷ [];
  tokens = tokens;
  scopes = scopes;
  events = [];
}

abbrev pub opened_db : Db
opened_db = tables (start_token ∷ []) (start_scope ∷ [])

-- The case after its split: one token on "a", one on "b", in a scope that joins at "meet".
abbrev pub split_db : Db
split_db =
    tables
      (record start_token { node = "fork"; status = TokenStatus.consumed }
        ∷ record start_token { id = 201; scope_id = 200; node = "a"; entered_seq = 4 }
        ∷ record start_token { id = 202; scope_id = 200; node = "b"; entered_seq = 5 }
        ∷ [])
      (start_scope
        ∷ record start_scope {
          id = 200;
          parent_id = some 100;
          split_node = "fork";
          join_node = "meet";
          expected = 2;
          opened_seq = 3;
        }
        ∷ [])

-- The run that a call loads from these tables, at time 6.
abbrev pub start_run : Run
start_run = record {
  case = open_row;
  definition = review;
  tokens = start_token ∷ [];
  scopes = start_scope ∷ [];
  created = [];
  changed = [];
  now = 6;
  actor = person "ana";
  base_seq = 1;
  events = [];
  joined = [];
  gateway_steps = 0;
  join_results = [];
  drawn = 0;
}

-- Nothing of it moved; what persists is one event.
abbrev pub one_event : Event
one_event = event EventKind.assigned 100 100 "start" "start"

abbrev pub touched_run : Run
touched_run = record start_run {
  tokens = record start_token { assigned_to = "ana" } ∷ [];
  changed = 100 ∷ [];
  events = record one_event { seq = 2; occurred_at = 6; actor = person "ana" } ∷ [];
}

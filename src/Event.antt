-- ===== src/Event.antt =====
-- workflow/workflow.go and workflow/tokens.go: the append-only history of a case. The JSON detail of
-- an event is the value that it encodes, one constructor for each Go detail type.
use vogel.Prelude.{ℕ, String, Option, none, List}
use vogel.Definition.{JoinPolicy, Outcome}
use vogel.Case.{Actor, ActorKind, BranchResult}

pub data EventKind : Type 0 where
  opened moved assigned unassigned closed step_submitted no_route failed : EventKind
  split waiting joined token_cancelled cancelled deadline_changed expired : EventKind

pub data FailureKind : Type 0 where
  no_route guard_rejected conflict validation_failed comment_rejected : FailureKind
  return_not_visited transition_not_found : FailureKind
  unknown : String → FailureKind

pub record StepRecord : Type 0 where
  pub step_id : String
  pub form_version : ℕ
  pub payload_digest : String

pub data Detail : Type 0 where
  -- `{}`
  empty : Detail
  assignment : (from to reason : String) → Detail
  step : StepRecord → Detail
  -- The caller's own JSON object, "" where it gave none.
  failure : (kind : FailureKind) (raw : String) → Detail
  split : (scope : ℕ) (split_node : String) (tokens : List ℕ) → Detail
  waiting : Outcome → Detail
  join :
      (scope : ℕ) (join_node : String) (tokens : List ℕ) (policy : JoinPolicy) (verdict : Outcome)
      (branches : List BranchResult)
      → Detail
  cancel : (reason : String) → Detail
  deadline : (from to : Option ℕ) (reason : String) → Detail
  expiry : (deadline_at : ℕ) → Detail
  cause : String → Detail

pub record Event : Type 0 where
  pub id : ℕ
  pub case_id : ℕ
  pub seq : ℕ
  pub kind : EventKind
  pub token_id : ℕ
  pub scope_id : ℕ
  pub from_state : String
  pub to_state : String
  pub action : String
  pub deadline_at : Option ℕ
  pub actor : Actor
  pub actor_id : String
  pub tenant : String
  pub comment : String
  pub occurred_at : ℕ
  pub schema_version : ℕ
  pub detail : Detail
  pub request_id : String
  pub trace_id : String
  pub span_id : String

abbrev pub no_actor : Actor
no_actor = record { kind = ActorKind.unset; id = ""; acting_as = ""; on_behalf_of = ""; via = "" }

-- A Go literal `Event{Kind: …, TokenID: …, ScopeID: …, FromState: …, ToState: …}`: every other
-- field has its zero value.
abbrev pub event : EventKind → ℕ → ℕ → String → String → Event
event kind token scope from to = record {
  id = 0;
  case_id = 0;
  seq = 0;
  kind = kind;
  token_id = token;
  scope_id = scope;
  from_state = from;
  to_state = to;
  action = "";
  deadline_at = none;
  actor = no_actor;
  actor_id = "";
  tenant = "";
  comment = "";
  occurred_at = 0;
  schema_version = 0;
  detail = Detail.empty;
  request_id = "";
  trace_id = "";
  span_id = "";
}

abbrev pub current_event_schema : ℕ
current_event_schema = 5

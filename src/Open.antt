-- ===== src/Open.antt =====
-- workflow/open.go: opening a case.
use vogel.Prelude.{String, none, [], ◌∷◌, ℤ}
use vogel.Errors.{Err, ok, or_fail}
use vogel.Definition.{Definition, Node, start_node, Outcome}
use vogel.Case.{Case, Status, Token, TokenStatus, Scope, ScopeStatus, Actor}
use vogel.Event.{EventKind, event}
use vogel.Engine.{Engine, resolve_definition, resolve_actor}
use vogel.Run.{resolved_eligibility}
use vogel.Settle.{deadline_for}
use vogel.Store.{create, create_scope, create_token}
use vogel.History.{append}
use vogel.Tx.{Tx, ◌>>=◌, ◌>>◌, pure, lift, writes}
use vogel.Persist.{MoveResult, check_effect_db, dispatch}

pub record OpenInput : Type 0 where
  pub definition : String
  pub version : ℤ
  pub domain : String
  pub external_id : String
  pub unit : String
  pub tenant : String
  pub actor : Actor
  pub actor_id : String

-- The row that Open inserts, before its deadline is known.
unfoldable pub new_case : Engine → Definition → Node → OpenInput → Case
new_case e d start input = record {
  id = e.uuid 0;
  definition = d.name;
  version = d.version;
  tenant = input.tenant;
  domain = input.domain;
  external_id = input.external_id;
  unit = input.unit;
  state = start.id;
  status = Status.opened;
  assigned_to = "";
  opened_at = e.now;
  closed_at = none;
  deadline_at = none;
  revision = 0;
  last_seq = 1;
  join_result = none;
}

-- The root token shares the case's identifier.
unfoldable pub root_token : Engine → Node → Case → Token
root_token e start c = record {
  id = c.id;
  case_id = c.id;
  scope_id = c.id;
  node = start.id;
  status = TokenStatus.active;
  eligible = resolved_eligibility start c.unit;
  assigned_to = "";
  deadline_at = none;
  expired_deadline = none;
  entered_seq = 1;
  entered_at = e.now;
  ended_seq = 0;
  ended_at = none;
  outcome = Outcome.no_outcome;
}

unfoldable pub root_scope : Case → Scope
root_scope c = record {
  id = c.id;
  case_id = c.id;
  parent_id = none;
  split_node = "";
  join_node = "";
  expected = 1;
  status = ScopeStatus.opened;
  opened_seq = 1;
  closed_seq = 0;
}

-- Engine.OpenDetailed; Engine.Open returns its case.
unfoldable pub open_case : Engine → OpenInput → Tx MoveResult
open_case e input = do
  actor ← lift (resolve_actor input.actor input.actor_id)
  d ← lift (resolve_definition e input.definition input.version)
  start ← lift (or_fail (start_node d) Err.no_start_node)
  lift (check_effect_db e d)
  let blank = new_case e d start input
  let blank_token = root_token e start blank
  deadline ← lift (deadline_for e (ok []) start e.now blank blank_token)
  let c = record blank { deadline_at = deadline }
  let root = record blank_token { deadline_at = deadline }
  writes (create c)
  writes (create_scope (root_scope c))
  writes (create_token root)
  evt ← append e c (e.uuid 1) (record (event EventKind.opened c.id c.id "" start.id) {
    seq = c.last_seq;
    deadline_at = deadline;
    actor = actor;
    occurred_at = e.now;
  })
  lift (dispatch e d c (evt ∷ []))
  pure (record { case = c; events = evt ∷ []; joined = [] })

-- ===== src/Cancel.antt =====
-- workflow/cancel.go: cancelling a whole case, and one branch of it.
pub mod Ends
pub mod Branch
use vogel.Prelude.{
  ℕ, ◌+◌, String, Bool, true, false, not, ◌&&◌, Option, none, some, List, [], ◌∷◌, filter, count,
  ◌==◌, string_eq, nat_eq, if◌then◌else◌,
}
use vogel.Errors.{Err, Result, ok, err, fail_if, or_fail}
use vogel.Case.{
  Case, Status, is_open, Token, TokenStatus, live, Scope, ScopeStatus, is_opened, Actor,
}
use vogel.Event.{EventKind, Event, Detail, event}
use vogel.Text.{trim_space}
use vogel.Engine.{Engine, resolve_definition, resolve_actor, check_revision}
use vogel.Run.{Run, begin, emit, end, write_scope, scope, pick, next_seq}
use vogel.JoinPolicy.{cancel_event, sort_tokens}
use vogel.Join.{try_join, cancel_scopes}
use vogel.Route.{route}
use vogel.Store.{get_by_id}
use vogel.History.{events_of}
use vogel.Tx.{Tx, ◌>>=◌, ◌>>◌, pure, lift, reads}
use vogel.Persist.{MoveResult, load, check_effect_db}
use vogel.Move.{route_fuel, commit}
use vogel.Assign.{save}

-- The loop of Cancel over the live tokens.
unfoldable pub cancel_tokens : String → List Token → Run → Run
cancel_tokens reason [] run = run
cancel_tokens reason (t ∷ ts) run =
    cancel_tokens reason ts
      (end t TokenStatus.cancelled (next_seq run) (emit (cancel_event reason t) run))

-- What Cancel plans after its checks.
unfoldable pub cancel_run : String → Run → Run
cancel_run reason run =
    let c = run.case in
    let run1 =
      cancel_tokens reason (sort_tokens (filter (λ (t : Token). live t.status) run.tokens)) run in
    let seq = next_seq run1 in
    let run2 =
      emit
        (record (event EventKind.cancelled c.id c.id c.state c.state) {
          detail = Detail.cancel reason;
        })
        run1 in
    let run3 = cancel_scopes (filter (λ (s : Scope). is_opened s.status) run.scopes) seq run2 in
    record run3 { case = record run3.case { status = Status.cancelled; closed_at = some run.now } }

pub record CancelInput : Type 0 where
  pub case_id : ℕ
  pub actor : Actor
  pub reason : String
  pub expected_revision : Option ℕ

-- Engine.Cancel
unfoldable pub cancel : Engine → CancelInput → Tx Case
cancel e input = do
  let reason = trim_space input.reason
  lift (fail_if (reason == "") Err.reason_required)
  actor ← lift (resolve_actor input.actor "")
  c ← reads (get_by_id input.case_id)
  lift (check_revision c input.expected_revision)
  lift (fail_if (not (is_open c.status)) Err.case_closed)
  d ← lift (resolve_definition e c.definition c.version)
  run ← load c d
  save e (cancel_run reason (begin e.now actor run))

is_child_of : ℕ → Option ℕ → Bool
is_child_of id none = false
is_child_of id (some parent) = parent == id

-- How many other branches of the token's scope are live (`others`).
unfoldable pub other_branches : Token → Run → ℕ
unfolding is_child_of
other_branches tok run =
    count (λ (t : Token). t.scope_id == tok.scope_id && (not (t.id == tok.id) && live t.status))
      run.tokens
    + count (λ (s : Scope). is_child_of tok.scope_id s.parent_id && is_opened s.status) run.scopes

pub record CancelTokenInput : Type 0 where
  pub case_id : ℕ
  pub token_id : ℕ
  pub actor : Actor
  pub reason : String

-- Everything CancelToken decides before it writes.
unfoldable pub plan_cancel_token : Engine → CancelTokenInput → Tx Run
plan_cancel_token e input = do
  let reason = trim_space input.reason
  lift (fail_if (reason == "") Err.reason_required)
  lift (fail_if (input.token_id == 0) Err.token_not_found)
  actor ← lift (resolve_actor input.actor "")
  c ← reads (get_by_id input.case_id)
  lift (fail_if (not (is_open c.status)) Err.case_closed)
  d ← lift (resolve_definition e c.definition c.version)
  lift (check_effect_db e d)
  loaded ← load c d
  tok ← lift (pick input.token_id loaded)
  lift (fail_if (other_branches tok loaded == 0) Err.last_branch)
  let run = begin e.now actor loaded
  let cancelled = end tok TokenStatus.cancelled (next_seq run) (emit (cancel_event reason tok) run)
  s ← lift (or_fail (scope tok.scope_id cancelled) Err.nil_dereference)
  reads (λ db. try_join e (route e (events_of c.id db) route_fuel) s cancelled)

-- Engine.CancelToken
unfoldable pub cancel_token : Engine → CancelTokenInput → Tx MoveResult
cancel_token e input = do run ← plan_cancel_token e input; commit e run

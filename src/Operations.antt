-- ===== src/Operations.antt =====
-- workflow/operations.go: changing a deadline, and expiring an overdue token.
pub mod Expiry
use vogel.Prelude.{
  ℕ, ◌+◌, String, Bool, true, false, not, ◌&&◌, Option, none, some, List, [], ◌∷◌, length, modify,
  ltb, ◌==◌, string_eq, nat_eq, if◌then◌else◌,
}
use vogel.Errors.{Err, Result, ok, err, fail_if, or_fail}
use vogel.Definition.{Definition, Node, node, Transition, transitions_from, find_transition}
use vogel.Case.{Case, is_open, Token, Actor, ActorKind}
use vogel.Event.{EventKind, Event, Detail, event}
use vogel.Text.{trim_space}
use vogel.Engine.{Engine, resolve_definition, resolve_actor, check_revision}
use vogel.Run.{Run, begin, emit, write_token, pick, snapshot}
use vogel.Route.{route}
use vogel.Store.{get_by_id}
use vogel.History.{events_of}
use vogel.Tx.{Tx, ◌>>=◌, ◌>>◌, pure, lift, reads}
use vogel.Persist.{MoveResult, load, load_token, check_effect_db, persist}
use vogel.Move.{route_fuel, check_guard, commit}
use vogel.Assign.{save}

-- What SetDeadline plans after its checks.
unfoldable pub with_deadline : String → Option ℕ → Token → Run → Run
with_deadline reason deadline tok run =
    emit
      (record (event EventKind.deadline_changed tok.id tok.scope_id tok.node tok.node) {
        detail = Detail.deadline tok.deadline_at deadline reason;
      })
      (write_token (record tok { deadline_at = deadline; expired_deadline = none }) run)

pub record SetDeadlineInput : Type 0 where
  pub case_id : ℕ
  pub token_id : ℕ
  pub deadline_at : Option ℕ
  pub actor : Actor
  pub reason : String
  pub expected_revision : Option ℕ

-- Engine.SetDeadline
unfoldable pub set_deadline : Engine → SetDeadlineInput → Tx Case
set_deadline e input = do
  let reason = trim_space input.reason
  lift (fail_if (reason == "") Err.reason_required)
  actor ← lift (resolve_actor input.actor "")
  c ← reads (get_by_id input.case_id)
  lift (check_revision c input.expected_revision)
  lift (fail_if (not (is_open c.status)) Err.case_closed)
  (run, tok) ← load_token e c input.token_id
  save e (with_deadline reason input.deadline_at tok (begin e.now actor run))

is_system : ActorKind → Bool
is_system ActorKind.system = true
is_system _ = false

unfoldable pub already : Option ℕ → ℕ → Bool
already none deadline = false
already (some expired) deadline = expired == deadline

-- Expire's checks of the token's deadline, which it returns.
unfoldable pub overdue : ℕ → Token → Result ℕ
overdue now tok = elim tok.deadline_at [
  | none ↦ err Err.not_overdue
  | some deadline ↦
      if not (ltb deadline now)
      then err Err.not_overdue
      else if already tok.expired_deadline deadline
      then err Err.already_expired
      else ok deadline
]

-- The node's OnExpire transition, if it names one.
unfoldable pub on_expire : Definition → Token → Result (Option Transition)
on_expire d tok = elim (node d tok.node) [
  | none ↦ ok none
  | some n ↦
      if n.on_expire == ""
      then ok none
      else elim (find_transition (transitions_from d tok.node) n.on_expire) [
        | none ↦ err Err.invalid_transition
        | some tr ↦ ok (some tr)
      ]
]

check_on_expire : Engine → Definition → Option Transition → Case → Result (Unit {0})
check_on_expire e d none c = ok tt
check_on_expire e d (some tr) c = elim (check_effect_db e d) [
  | err x ↦ err x
  | ok _ ↦ check_guard e tr c
]

-- Marks the deadline as expired and records it.
unfoldable pub mark_expired : ℕ → Token → Run → Run
mark_expired deadline tok run =
    emit
      (record (event EventKind.expired tok.id tok.scope_id tok.node tok.node) {
        detail = Detail.expiry deadline;
      })
      (write_token (record tok { expired_deadline = some deadline }) run)

-- The first hop carries the cause.
with_cause : ℕ → Result Run → Result Run
with_cause hop (err x) = err x
with_cause hop (ok run) = ok (record run {
  events = modify hop (λ (v : Event). record v { detail = Detail.cause "expired" }) run.events;
})

route_expired : Engine → Result (List Event) → Option Transition → ℕ → Token → Run → Result Run
unfolding with_cause
route_expired e stored none deadline tok run = ok run
route_expired e stored (some tr) deadline tok run =
    with_cause (length run.events)
      (route e stored route_fuel (record tok { expired_deadline = some deadline }) tr "" 0 run)

pub record ExpireInput : Type 0 where
  pub case_id : ℕ
  pub token_id : ℕ
  pub actor : Actor

-- Without an OnExpire transition nothing is dispatched.
commit_expired : Engine → Option Transition → Run → Tx MoveResult
commit_expired e none run = do
  (c, appended) ← persist e run
  pure (record { case = c; events = appended; joined = run.joined })
commit_expired e (some tr) run = commit e run

-- Engine.Expire
unfoldable pub expire : Engine → ExpireInput → Tx MoveResult
unfolding is_system check_on_expire route_expired commit_expired
expire e input = do
  actor ← lift (resolve_actor input.actor "")
  lift (fail_if (not (is_system actor.kind)) Err.invalid_actor)
  c ← reads (get_by_id input.case_id)
  lift (fail_if (not (is_open c.status)) Err.case_closed)
  d ← lift (resolve_definition e c.definition c.version)
  loaded ← load c d
  tok ← lift (pick input.token_id loaded)
  deadline ← lift (overdue e.now tok)
  tr ← lift (on_expire d tok)
  lift (check_on_expire e d tr (snapshot tok tok.node loaded))
  run ← reads (λ db.
      route_expired e (events_of c.id db) tr deadline tok
        (mark_expired deadline tok (begin e.now actor loaded)))
  commit_expired e tr run

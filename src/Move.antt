-- ===== src/Move.antt =====
-- workflow/move.go: Move and Available, with the checks that precede routing (checkComment of
-- workflow.go, occupiedStates). `route_fuel` is enough for every call (Route/Fuel).
pub mod Plan
pub mod Comments
use vogel.Prelude.{
  ℕ, ◌+◌, String, Bool, true, false, not, ◌&&◌, ◌||◌, Option, none, some, List, [], ◌∷◌, any,
  length, ◌==◌, string_eq, nat_eq, if◌then◌else◌,
}
use vogel.Errors.{Err, Result, ok, err, fail_if, or_fail}
use vogel.Definition.{CommentPolicy, canonical, Transition, transitions_from, find_transition}
use vogel.Case.{Case, is_open, Token, Actor}
use vogel.Event.{EventKind, Event, Detail, StepRecord, event}
use vogel.Text.{trim_space}
use vogel.Engine.{
  Engine, GuardFunc, resolve_definition, lookup_guard, resolve_actor, check_revision,
}
use vogel.Run.{Run, pick, snapshot, begin, emit}
use vogel.Route.{route}
use vogel.Store.{Db, get_by_id}
use vogel.History.{events_of}
use vogel.Tx.{Tx, ◌>>=◌, ◌>>◌, pure, lift, reads}
use vogel.Persist.{MoveResult, persist, check_effect_db, dispatch, load}

abbrev pub route_fuel : ℕ
route_fuel = 8500

unfoldable pub comment_allowed : CommentPolicy → Bool → Result (Unit {0})
comment_allowed CommentPolicy.required empty = fail_if empty Err.comment_required
comment_allowed CommentPolicy.none' empty = fail_if (not empty) Err.comment_not_allowed
comment_allowed _ empty = ok tt

-- checkComment
unfoldable pub check_comment : CommentPolicy → String → Result (Unit {0})
check_comment policy comment = comment_allowed (canonical policy) (comment == "")

occupied_by : Event → EventKind → String → Bool
occupied_by v EventKind.opened at = v.to_state == at
occupied_by v EventKind.moved at = v.from_state == at || v.to_state == at
occupied_by v _ at = false

-- Whether `at` is in Engine.occupiedStates.
unfoldable pub occupied : List Event → ℕ → String → Bool
unfolding occupied_by
occupied events scope at =
    any (λ (v : Event). v.scope_id == scope && occupied_by v v.kind at) events

-- The check of a return transition: the history is read for a return only.
unfoldable pub check_return : Result (List Event) → Token → Transition → Result (Unit {0})
check_return stored tok tr =
    if tr.is_return
    then elim stored [
      | ok events ↦ fail_if (not (occupied events tok.scope_id tr.to)) Err.return_not_visited
      | err x ↦ err x
    ]
    else ok tt

unfoldable pub guard_passes : Engine → Transition → Case → Result Bool
guard_passes e tr c =
    if tr.guard == ""
    then ok true
    else elim (lookup_guard e tr.guard) [ ok guard ↦ guard c | err x ↦ err x ]

unfoldable pub check_guard : Engine → Transition → Case → Result (Unit {0})
check_guard e tr c = elim (guard_passes e tr c) [
  | ok passes ↦ fail_if (not passes) Err.guard_rejected
  | err x ↦ err x
]

pub record MoveInput : Type 0 where
  pub case_id : ℕ
  pub token_id : ℕ
  pub action : String
  pub actor : Actor
  pub actor_id : String
  pub comment : String
  pub step : Option StepRecord
  pub expected_revision : Option ℕ

-- The EventStepSubmitted that precedes the human hop.
unfoldable pub submit_step : Token → String → Option StepRecord → Run → Run
submit_step tok action none run = run
submit_step tok action (some step) run =
    emit
      (record (event EventKind.step_submitted tok.id tok.scope_id tok.node tok.node) {
        action = action;
        detail = Detail.step step;
      })
      run

-- Everything Move decides before it writes: the planned run.
unfoldable pub plan_move : Engine → MoveInput → Tx Run
plan_move e input = do
  actor ← lift (resolve_actor input.actor input.actor_id)
  c ← reads (get_by_id input.case_id)
  lift (check_revision c input.expected_revision)
  lift (fail_if (not (is_open c.status)) Err.case_closed)
  d ← lift (resolve_definition e c.definition c.version)
  lift (check_effect_db e d)
  run ← load c d
  tok ← lift (pick input.token_id run)
  tr ←
      lift (
        or_fail (find_transition (transitions_from d tok.node) input.action) Err.invalid_transition)
  let comment = trim_space input.comment
  lift (check_comment tr.comment comment)
  reads (λ db. check_return (events_of c.id db) tok tr)
  lift (check_guard e tr (snapshot tok tok.node run))
  reads (λ db.
      route e (events_of c.id db) route_fuel tok tr comment 0
        (submit_step tok input.action input.step (begin e.now actor run)))

-- The tail that Move, Expire and CancelToken share.
unfoldable pub commit : Engine → Run → Tx MoveResult
commit e run = do
  (c, appended) ← persist e run
  lift (dispatch e run.definition c appended)
  pure (record { case = c; events = appended; joined = run.joined })

-- Engine.MoveDetailed; Engine.Move returns its case.
unfoldable pub move : Engine → MoveInput → Tx MoveResult
move e input = do run ← plan_move e input; commit e run

-- The loop of AvailableFor, over the states occupied in the token's scope.
unfoldable pub offered :
    Engine → List Event → Token → Case → List Transition → Result (List Transition)
offered e events tok c [] = ok []
offered e events tok c (tr ∷ trs) =
    let later = offered e events tok c trs in
    if tr.is_return && not (occupied events tok.scope_id tr.to)
    then later
    else elim (guard_passes e tr c) [
      | err x ↦ err x
      | ok passes ↦ elim later [ err x ↦ err x | ok rest ↦ ok (if passes then tr ∷ rest else rest) ]
    ]

-- The history is read only when a candidate is a return (hasReturnTransition).
history_for : Result (List Event) → List Transition → Result (List Event)
history_for stored trs = if any (λ (tr : Transition). tr.is_return) trs then stored else ok []

-- Engine.AvailableFor; Engine.Available gives it `uuid.Nil`.
unfoldable pub available : Engine → ℕ → ℕ → Tx (List Transition)
unfolding history_for
available e case_id token_id = do
  c ← reads (get_by_id case_id)
  if not (is_open c.status) && token_id == 0 then pure [] else do
    d ← lift (resolve_definition e c.definition c.version)
    run ← load c d
    tok ← lift (pick token_id run)
    let candidates = transitions_from d tok.node
    events ← reads (λ db. history_for (events_of c.id db) candidates)
    lift (offered e events tok (snapshot tok tok.node run) candidates)

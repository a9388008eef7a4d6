-- ===== src/Persist.antt =====
-- workflow/run.go: projecting a planned call onto its case row and writing it (project, persist,
-- writeState), and workflow/engine.go: the effect sink (checkEffectDB, dispatch) and reading a run.
pub mod Tables
pub mod Exclusive
pub mod Earliest
use vogel.Prelude.{
  ℕ, suc, ◌+◌, String, Bool, true, false, not, ◌&&◌, Option, none, some, List, [], ◌∷◌, length,
  is_empty, ltb, if◌then◌else◌,
}
use vogel.Errors.{Err, Result, ok, err}
use vogel.Definition.{Definition}
use vogel.Case.{Case, Status, is_open, Token, Scope, JoinRecord}
use vogel.Event.{Event}
use vogel.Names.{effect_names}
use vogel.Engine.{Engine, resolve_definition}
use vogel.Run.{Run, active, contains, load_run, pick}
use vogel.Store.{
  Db, update, create_scope, update_scope, create_token, update_token, list_tokens, list_scopes,
}
use vogel.Tx.{Tx, ◌>>=◌, ◌>>◌, pure, lift, reads, writes, returns}
use vogel.History.{append}

-- MoveResult
pub record MoveResult : Type 0 where
  pub case : Case
  pub events : List Event
  pub joined : List JoinRecord

unfoldable pub sooner : Option ℕ → Option ℕ → Option ℕ
sooner none best = best
sooner (some at) none = some at
sooner (some at) (some best) = if ltb at best then some at else some best

unfoldable pub earliest : List Token → Option ℕ → Option ℕ
earliest [] best = best
earliest (t ∷ ts) best = earliest ts (sooner t.deadline_at best)

position : List Token → String × String
position (t ∷ []) = (t.node, t.assigned_to)
position _ = ("", "")

-- caseRun.project
unfoldable pub project : Run → Case
unfolding position
project r =
    let (state, assignee) = position (active r) in
    if is_open r.case.status
    then (record r.case {
      state = state;
      assigned_to = assignee;
      deadline_at = earliest (active r) none;
    })
    else (record r.case { assigned_to = ""; deadline_at = none })

-- The loops of writeState.
unfoldable pub write_scopes : Run → List Scope → Tx (Unit {0})
write_scopes r [] = pure tt
write_scopes r (s ∷ ss) = do
  (if contains r.created s.id
      then writes (create_scope s)
      else if contains r.changed s.id
      then writes (update_scope s)
      else pure tt)
  write_scopes r ss

unfoldable pub write_tokens : Run → List Token → Tx (Unit {0})
write_tokens r [] = pure tt
write_tokens r (t ∷ ts) = do
  (if contains r.created t.id
      then writes (create_token t)
      else if contains r.changed t.id
      then writes (update_token t)
      else pure tt)
  write_tokens r ts

unfoldable pub append_all : Engine → Case → ℕ → List Event → Tx (List Event)
append_all e c n [] = pure []
append_all e c n (v ∷ vs) = do
  stored ← append e c (e.uuid n) v
  rest ← append_all e c (suc n) vs
  pure (stored ∷ rest)

-- Engine.persist: the case row first, by compare-and-swap, then scopes, tokens and events.
unfoldable pub persist : Engine → Run → Tx (Case × List Event)
persist e r = do
  c ← returns (update (record (project r) { last_seq = r.base_seq + length r.events }) r.base_seq)
  write_scopes r r.scopes
  write_tokens r r.tokens
  appended ← append_all e c r.drawn r.events
  pure (c, appended)

-- Engine.checkEffectDB
unfoldable pub check_effect_db : Engine → Definition → Result (Unit {0})
check_effect_db e d = elim e.effect_sink [
  | none ↦ ok tt
  | some sink ↦ if is_empty (effect_names d) then ok tt else sink.check_db
]

-- Engine.dispatch
unfoldable pub dispatch : Engine → Definition → Case → List Event → Result (Unit {0})
dispatch e d c events = elim e.effect_sink [ none ↦ ok tt | some sink ↦ sink.dispatch d c events ]

-- Engine.loadRun
unfoldable pub load : Case → Definition → Tx Run
load c d = reads (λ db. load_run (list_tokens c.id db) (list_scopes c.id db) c d)

-- Engine.loadToken
unfoldable pub load_token : Engine → Case → ℕ → Tx (Run × Token)
load_token e c id = do
  d ← lift (resolve_definition e c.definition c.version)
  run ← load c d
  tok ← lift (pick id run)
  pure (run, tok)

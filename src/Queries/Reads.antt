-- ===== src/Queries/Reads.antt =====
-- workflow/queries.go: the reads of one case.
use vogel.Prelude.{
  ℕ, ltb, String, Bool, true, false, not, ◌&&◌, ◌||◌, List, is_empty, sort_by, ◌==◌, string_eq,
  nat_eq, if◌then◌else◌,
}
use vogel.Errors.{Err, Result, ok, err, or_fail}
use vogel.Definition.{Definition, node, Eligibility, resolve_unit}
use vogel.Case.{Case, is_open, Token}
use vogel.Event.{Event, no_actor}
use vogel.Engine.{Engine, resolve_definition}
use vogel.JoinPolicy.{sort_tokens}
use vogel.Run.{Run, begin, pick}
use vogel.Store.{Db, get_by_id}
use vogel.History.{events_of}
use vogel.Tx.{Tx, ◌>>=◌, pure, lift, reads}
use vogel.Persist.{load, persist}

-- Engine.History: the events of a case, sorted by Seq once more.
unfoldable pub history : ℕ → Db → Result (List Event)
history id db = elim (events_of id db) [
  | err e ↦ err e
  | ok events ↦ ok (sort_by (λ (a b : Event). ltb a.seq b.seq) events)
]

-- The node that EligibilityForToken asks about.
state_for : Engine → Case → Definition → ℕ → Tx String
state_for e c d id =
    if is_open c.status || not (id == 0)
    then (do run ← load c d; tok ← lift (pick id run); pure tok.node)
    else pure c.state

-- Engine.EligibilityForToken; Engine.EligibilityFor asks for the token 0.
unfoldable pub eligibility_for_token : Engine → ℕ → ℕ → Tx Eligibility
unfolding state_for or_fail
eligibility_for_token e case_id token_id = do
  c ← reads (get_by_id case_id)
  d ← lift (resolve_definition e c.definition c.version)
  state ← state_for e c d token_id
  n ← lift (or_fail (node d state) Err.node_not_found)
  pure (record { position = n.eligible.position; unit = resolve_unit n.eligible c.unit })

-- Engine.Tokens
unfoldable pub tokens_of : Engine → ℕ → Tx (List Token)
tokens_of e case_id = do
  c ← reads (get_by_id case_id)
  d ← lift (resolve_definition e c.definition c.version)
  run ← load c d
  pure (sort_tokens run.tokens)

refresh_run : Engine → Run → Tx Bool
refresh_run e run =
    if is_empty run.changed && is_empty run.created
    then pure false
    else do (c, events) ← persist e (begin e.now no_actor run); pure true

refresh_case : Engine → Case → Tx Bool
unfolding refresh_run
refresh_case e c = do
  d ← lift (resolve_definition e c.definition c.version)
  run ← load c d
  refresh_run e run

-- Engine.RefreshEligibility
unfoldable pub refresh_eligibility : Engine → ℕ → Tx Bool
unfolding refresh_case
refresh_eligibility e case_id = do
  c ← reads (get_by_id case_id)
  (if is_open c.status then refresh_case e c else pure false)

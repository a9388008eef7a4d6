-- ===== src/Move/Plan.antt =====
-- What Move decides before it writes (workflow/move.go): its plan.
use vogel.Prelude.{
  ℕ, String, true, not, ◌≡◌, refl, string_eq, nat_eq, List, All, Option, none, some,
}
use vogel.Errors.{
  Err, Result, ok, Returns, fail_if, fail_if-ok, not-eq-false, Ensures-ok, Returns-both, or_fail,
  Ensures-weaken, AnyErr,
}
use vogel.Definition.{Definition, Transition, transitions_from, find_transition}
use vogel.Case.{Case, Token, Actor, is_open}
use vogel.Event.{StepRecord, Event}
use vogel.Store.{Db, get_by_id, list_tokens, list_scopes}
use vogel.Text.{trim_space}
use vogel.Engine.{Engine, resolve_definition, resolve_actor, check_revision}
use vogel.Run.{Run, pick, snapshot, begin, load_run, emit}
use vogel.Run.Load.{Loaded, load_run-Loaded}
use vogel.Route.{route}
use vogel.Route.Numbering.{Planned, Planned-emit, route-Planned}
use vogel.Route.Rests.{stand-but, route-EveryStands}
use vogel.Route.Stands.{Stands, EveryStands}
use vogel.Tx.ReadsOnly.{Reads, Reads-step}
use vogel.Persist.{load, check_effect_db}
use vogel.History.{events_of}
use vogel.Move.{
  MoveInput, plan_move, submit_step, check_comment, check_return, check_guard, route_fuel,
}

-- What the plan of a move has: the case it read, its definition and the actor it resolved, and the
-- run that routing left.
pub record PlannedMove (e : Engine) (input : MoveInput) (db : Db) (r : Run) : Type 0 where
  pub case : Case
  pub definition : Definition
  pub actor : Actor
  pub read : get_by_id input.case_id db ≡ ok case
  pub revision : check_revision case input.expected_revision ≡ ok tt
  pub is_running : is_open case.status ≡ true
  pub resolved : resolve_definition e case.definition case.version ≡ ok definition
  pub acts : resolve_actor input.actor input.actor_id ≡ ok actor
  pub events : Planned case.last_seq e.now actor r
  pub stand : EveryStands definition r

submit-Planned :
    (b now : ℕ) (a : Actor) (tok : Token) (action : String) (step : Option StepRecord) (r : Run)
    → Planned b now a r
    → Planned b now a (submit_step tok action step r)
unfolding submit_step
submit-Planned b now a tok action none r h = h
submit-Planned b now a tok action (some s) r h = Planned-emit b now a _ r h

submit-Stands :
    (d : Definition) (tok : Token) (action : String) (step : Option StepRecord) (r : Run)
    → EveryStands d r
    → EveryStands d (submit_step tok action step r)
unfolding submit_step emit
submit-Stands d tok action none r h = h
submit-Stands d tok action (some s) r h = h

pub begin-Planned :
    (now : ℕ) (a : Actor) (c : Case) (d : Definition) (P : Token → Type 0) (ts : List Token)
    (r : Run)
    → Loaded P c d ts r
    → Planned c.last_seq now a (begin now a r)
unfolding begin
begin-Planned now a c d P ts r h = record {
  base = h.base;
  time = refl;
  who = refl;
  events = rw h.events tt;
}

pub begin-Stands :
    (now : ℕ) (a : Actor) (c : Case) (d : Definition) (ts : List Token) (r : Run)
    → Loaded (Stands d) c d ts r
    → All (Stands d) ts
    → EveryStands d (begin now a r)
unfolding begin
begin-Stands now a c d ts r h stand = (h.definition, h.tokens stand)

-- Routing from the state that the step submission leaves.
route-both :
    (e : Engine) (stored : Result (List Event)) (c : Case) (d : Definition) (a : Actor)
    (start : Run) (tok : Token) (tr : Transition) (comment : String)
    → Planned c.last_seq e.now a start
    → EveryStands d start
    → Returns
        (λ r. Planned c.last_seq e.now a r × EveryStands d r)
        (route e stored route_fuel tok tr comment 0 start)
route-both e stored c d a start tok tr comment planned stand =
    Returns-both _ _ (route e stored route_fuel tok tr comment 0 start)
      (route-Planned e stored route_fuel c.last_seq e.now a tok tr comment 0 start planned)
      (route-EveryStands d e stored route_fuel tok tr comment 0 start
        (stand-but d tok.id start stand))

-- Everything that Move decides before it persists leaves the tables as they are, whether it ends in a
-- plan or in an error. A plan is of the case as stored, running and at the revision the caller
-- expects; its events are numbered consecutively after the case's last one, at the call's time and
-- by its actor; and its active tokens stand on tasks of the definition that are not terminal and its
-- waiting ones on joins, given that the stored ones do.
pub plan_move-Reads :
    (e : Engine) (input : MoveInput) (db : Db)
    → ((c : Case) (d : Definition)
        → get_by_id input.case_id db ≡ ok c
        → resolve_definition e c.definition c.version ≡ ok d
        → All (Stands d) (list_tokens c.id db))
    → Reads (PlannedMove e input db) db (plan_move e input db)
unfolding plan_move load
plan_move-Reads e input db standing =
    let Q = PlannedMove e input db in
    Reads-step Q (resolve_actor input.actor input.actor_id) _ db λ actor acts.
      Reads-step Q (get_by_id input.case_id db) _ db λ c read.
        Reads-step Q (check_revision c input.expected_revision) _ db λ _ revision.
          Reads-step Q (fail_if (not (is_open c.status)) Err.case_closed) _ db λ u running.
            Reads-step Q (resolve_definition e c.definition c.version) _ db λ d resolved.
              Reads-step Q (check_effect_db e d) _ db λ _ _.
                Reads-step Q (load_run (list_tokens c.id db) (list_scopes c.id db) c d) _ db
                  λ run loaded. Reads-step Q (pick input.token_id run) _ db λ tok _.
                    Reads-step Q
                      (or_fail (find_transition (transitions_from d tok.node) input.action)
                        Err.invalid_transition)
                      _ db
                      λ trans _.
                        Reads-step Q (check_comment trans.comment (trim_space input.comment)) _ db
                          λ _ _.
                            Reads-step Q (check_return (events_of c.id db) tok trans) _ db λ _ _.
                              Reads-step Q (check_guard e trans (snapshot tok tok.node run)) _ db
                                λ _ _.
                                  let start = begin e.now actor run in
                                  let h =
                                    Ensures-ok AnyErr (Loaded (Stands d) c d (list_tokens c.id db))
                                      _ run
                                      (load_run-Loaded (Stands d) c d (list_tokens c.id db)
                                        (λ t el s. s) (list_scopes c.id db))
                                      loaded in
                                  (
                                    refl,
                                    Ensures-weaken AnyErr _ Q _
                                        (λ r both. record {
                                          case = c;
                                          definition = d;
                                          actor = actor;
                                          read = read;
                                          revision = revision;
                                          is_running = not-eq-false _ (fail_if-ok _ _ u running);
                                          resolved = resolved;
                                          acts = acts;
                                          events = both.0;
                                          stand = both.1;
                                        })
                                        (route-both e (events_of c.id db) c d actor
                                          (submit_step tok input.action input.step start) tok trans
                                          _
                                          (submit-Planned c.last_seq e.now actor tok _ input.step
                                            start (begin-Planned e.now actor c d _ _ run h))
                                          (submit-Stands d tok _ input.step start (
                                            begin-Stands e.now actor c d _ run h
                                              (standing c d read resolved)))),
                                  )

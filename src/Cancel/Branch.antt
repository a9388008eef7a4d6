-- ===== src/Cancel/Branch.antt =====
-- Cancelling one branch of a block (workflow/cancel.go: CancelToken): its plan.
use vogel.Prelude.{
  some, find, sym, subst, ℕ, true, false, not, ◌≡◌, refl, ◌==◌, nat_eq, string_eq, All,
}
use vogel.Errors.{
  Err, ok, Returns, Ensures-weaken, Ensures-ok, AnyErr, Returns-both, fail_if, fail_if-ok, or_fail,
  or_fail-ok, not-eq-false,
}
use vogel.Definition.{Definition}
use vogel.Case.{Case, Token, TokenStatus, Scope, Actor, is_open}
use vogel.Text.{trim_space}
use vogel.Engine.{Engine, resolve_definition, resolve_actor}
use vogel.Run.{Run, pick, begin, load_run, emit, end, next_seq, scope}
use vogel.Run.Load.{Loaded, load_run-Loaded}
use vogel.Run.Fields.{id-scope}
use vogel.JoinPolicy.{cancel_event}
use vogel.Join.{try_join}
use vogel.Route.{route}
use vogel.Route.Invariant.{try_join-Done, route-Done}
use vogel.Route.Numbering.{Planned, Planned-emit, Planned-end, Planned-Keeps}
use vogel.Route.Rests.{stand-Keeps, stand-but, every-stands}
use vogel.Route.Stands.{Stands, EveryStands, AllStand, NoOne, stand-end, stand-emit}
use vogel.Tx.ReadsOnly.{Reads, Reads-step}
use vogel.Persist.{load, check_effect_db}
use vogel.Move.{route_fuel}
use vogel.Move.Plan.{begin-Planned, begin-Stands}
use vogel.History.{events_of}
use vogel.Store.{Db, get_by_id, list_tokens, list_scopes}
use vogel.Cancel.{CancelTokenInput, plan_cancel_token, other_branches}

-- What the plan of CancelToken has: the case it read, its definition, the actor it resolved, the run
-- it loaded from the tables, in which the token named is live and has another live branch beside it,
-- and a reason.
pub record PlannedCancel (e : Engine) (input : CancelTokenInput) (db : Db) (r : Run) : Type 0 where
  pub case : Case
  pub definition : Definition
  pub actor : Actor
  pub tok : Token
  pub loaded : Run
  pub read : get_by_id input.case_id db ≡ ok case
  pub is_running : is_open case.status ≡ true
  pub resolved : resolve_definition e case.definition case.version ≡ ok definition
  pub acts : resolve_actor input.actor "" ≡ ok actor
  pub loads : load_run (list_tokens case.id db) (list_scopes case.id db) case definition ≡ ok loaded
  pub named : (input.token_id == 0) ≡ false
  pub reasoned : (trim_space input.reason == "") ≡ false
  pub picked : pick input.token_id loaded ≡ ok tok
  pub others : (other_branches tok loaded == 0) ≡ false
  pub events : Planned case.last_seq e.now actor r
  pub stand : EveryStands definition r

scope-own : (id : ℕ) (r : Run) (s : Scope) → scope id r ≡ some s → scope s.id r ≡ some s
unfolding scope
scope-own id r s h =
    subst (λ (i : ℕ). find (λ (u : Scope). u.id == i) r.scopes ≡ some s) (sym (id-scope id r s h)) h

-- Both invariants of the plan, through the join that the cancellation may complete.
join-both :
    (e : Engine) (db : Db) (c : Case) (d : Definition) (a : Actor) (s : Scope) (r : Run)
    → scope s.id r ≡ some s
    → Planned c.last_seq e.now a r
    → AllStand d NoOne r
    → Returns
        (λ r'. Planned c.last_seq e.now a r' × EveryStands d r')
        (try_join e (route e (events_of c.id db) route_fuel) s r)
join-both e db c d a s r own planned stand =
    let stored = events_of c.id db in
    let P = Planned c.last_seq e.now a in
    let joined = try_join e (route e stored route_fuel) s r in
    Returns-both P (EveryStands d) joined
      (try_join-Done e stored (λ _ x. P x) P (Planned-Keeps c.last_seq e.now a e stored)
        (route e stored route_fuel)
        (route-Done e stored (λ _ x. P x) P (Planned-Keeps c.last_seq e.now a e stored) route_fuel)
        s r planned own)
      (Ensures-weaken AnyErr (AllStand d NoOne) (EveryStands d) joined (every-stands d) (
        try_join-Done e stored (λ t. AllStand d (λ i. i ≡ t.id)) (AllStand d NoOne)
          (stand-Keeps d e stored) (route e stored route_fuel)
          (route-Done e stored (λ t. AllStand d (λ i. i ≡ t.id)) (AllStand d NoOne)
            (stand-Keeps d e stored) route_fuel)
          s r stand own))

-- Everything that CancelToken decides before it persists leaves the tables as they are. Its plan is of
-- the case as stored, which is running, for a reason that is not blank; in the run loaded from the
-- tables the token that the caller names is active, and its scope has another live branch, a live
-- token or an open scope, so that the last one is never cancelled. The plan's events are
-- numbered consecutively after the case's last one, at the call's time and by its actor; and,
-- whatever the joins that it completes set off, the active tokens stand on tasks that are not
-- terminal and the waiting ones on joins, given that the stored ones do.
pub plan_cancel_token-Reads :
    (e : Engine) (input : CancelTokenInput) (db : Db)
    → ((c : Case) (d : Definition)
        → get_by_id input.case_id db ≡ ok c
        → resolve_definition e c.definition c.version ≡ ok d
        → All (Stands d) (list_tokens c.id db))
    → Reads (PlannedCancel e input db) db (plan_cancel_token e input db)
unfolding plan_cancel_token load
plan_cancel_token-Reads e input db standing =
    let Q = PlannedCancel e input db in
    Reads-step Q (fail_if (trim_space input.reason == "") Err.reason_required) _ db λ u1 reasoned.
      Reads-step Q (fail_if (input.token_id == 0) Err.token_not_found) _ db λ u4 named.
        Reads-step Q (resolve_actor input.actor "") _ db λ actor acts.
          Reads-step Q (get_by_id input.case_id db) _ db λ c read.
            Reads-step Q (fail_if (not (is_open c.status)) Err.case_closed) _ db λ u2 running.
              Reads-step Q (resolve_definition e c.definition c.version) _ db λ d resolved.
                Reads-step Q (check_effect_db e d) _ db λ _ _.
                  Reads-step Q (load_run (list_tokens c.id db) (list_scopes c.id db) c d) _ db
                    λ run loaded. Reads-step Q (pick input.token_id run) _ db λ tok picked.
                      Reads-step Q (fail_if (other_branches tok run == 0) Err.last_branch) _ db
                        λ u3 others.
                          let start = begin e.now actor run in
                          let h =
                            Ensures-ok AnyErr (Loaded (Stands d) c d (list_tokens c.id db)) _ run
                              (load_run-Loaded (Stands d) c d (list_tokens c.id db) (λ t el s. s)
                                (list_scopes c.id db))
                              loaded in
                          let told = emit (cancel_event (trim_space input.reason) tok) start in
                          let ended = end tok TokenStatus.cancelled (next_seq start) told in
                          Reads-step Q (or_fail (scope tok.scope_id ended) Err.nil_dereference) _ db
                            λ s at. (
                              refl,
                              Ensures-weaken AnyErr _ Q _
                                  (λ r both. record {
                                    case = c;
                                    definition = d;
                                    actor = actor;
                                    tok = tok;
                                    loaded = run;
                                    read = read;
                                    is_running = not-eq-false _ (fail_if-ok _ _ u2 running);
                                    resolved = resolved;
                                    acts = acts;
                                    loads = loaded;
                                    named = fail_if-ok _ _ u4 named;
                                    reasoned = fail_if-ok _ _ u1 reasoned;
                                    picked = picked;
                                    others = fail_if-ok _ _ u3 others;
                                    events = both.0;
                                    stand = both.1;
                                  })
                                  (join-both e db c d actor s ended
                                    (scope-own tok.scope_id ended s (or_fail-ok _ _ s at))
                                    (Planned-end c.last_seq e.now actor tok _ _ told (
                                      Planned-emit c.last_seq e.now actor _ start
                                        (begin-Planned e.now actor c d _ _ run h)))
                                    (stand-end d tok (next_seq start) told (
                                      stand-emit d (λ i. i ≡ tok.id)
                                        (cancel_event (trim_space input.reason) tok) start
                                        (stand-but d tok.id start (
                                          begin-Stands e.now actor c d _ run h
                                            (standing c d read resolved))))).1),
                            )

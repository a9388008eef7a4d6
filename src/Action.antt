-- ===== src/Action.antt =====
-- action/action.go: the registry of effect handlers, which is the engine's effect sink, and the jobs
-- that it plans and enqueues for the events of a call. River, which stores and runs the jobs, is a
-- parameter: an insertion into its job table, on the caller's transaction.
pub mod Declared
pub mod Planned
pub mod Queued
pub mod Keys
pub mod Attempt
pub mod Worker
pub mod Notify
pub mod Logged
pub mod Fanned
pub mod Tests
pub mod WorkerTests
use vogel.Prelude.{
  ℕ, suc, String, str_append, Bool, true, false, not, ◌&&◌, ◌||◌, Option, none, some, List, [], ◌∷◌,
  ◌++◌, map, is_empty, find, ◌==◌, string_eq, nat_eq, if◌then◌else◌, ℤ,
}
use vogel.Errors.{Err, Result, ok, err, ◌>>=◌, ◌>>◌, fail_if}
use vogel.Definition.{Definition, Node, node, Transition, transitions_from, find_transition}
use vogel.Case.{Case, Actor, ActorKind}
use vogel.Event.{Event, EventKind}
use vogel.Engine.{EffectSink}

-- The payload of one effect's job.
pub record Args : Type 0 where
  pub case_id : ℕ
  pub seq : ℕ
  pub effect : String
  pub part : ℕ
  pub token_id : ℕ
  pub definition : String
  pub version : ℤ
  pub domain : String
  pub external_id : String
  pub unit : String
  pub actor : Actor
  pub actor_id : String

-- One execution of an effect, as its handler sees it. `actor_id` mirrors the actor's identifier.
pub record Run : Type 0 where
  pub effect : String
  pub case_id : ℕ
  pub token_id : ℕ
  pub seq : ℕ
  pub definition : String
  pub version : ℤ
  pub domain : String
  pub external_id : String
  pub unit : String
  pub actor : Actor
  pub actor_id : String
  pub attempt : ℕ
  pub part : ℕ

-- The texts of a UUID and of a decimal number.
pub record Printing : Type 0 where
  pub uuid : ℕ → String
  pub decimal : ℕ → String

-- Run.IdempotencyKey
unfoldable pub idempotency_key : Printing → Run → String
idempotency_key p r =
    let of_part = if r.part == 0 then "" else str_append "/" (p.decimal r.part) in
    str_append (p.uuid r.case_id)
      (str_append "/" (str_append (p.decimal r.seq) (str_append "/" (str_append r.effect of_part))))

-- Run.SystemActor
unfoldable pub system_actor : Run → Actor
system_actor r = record {
  kind = ActorKind.system;
  id = str_append "vogel_action:" r.effect;
  acting_as = "";
  on_behalf_of = r.actor.id;
  via = "";
}

-- The handlers are of any type: only a worker runs them.
pub record Registry (H : Type 0) : Type 0 where
  pub handlers : List (String × H)

-- river.Client.InsertTx, with UniqueOpts{ByArgs: true}, on the tables of the transaction.
pub record Queue (T : Type 0) : Type 0 where
  pub insert : Args → T → Result (Unit {0}) × T

-- What `db` is: the caller's pgx.Tx, or anything else.
pub data Handle : Type 0 where
  tx pool : Handle

handler_in : {H : Type 0} → String → List (String × H) → Option H
handler_in name [] = none
handler_in name ((k, h) ∷ rest) = if k == name then some h else handler_in name rest

-- Registry.handler
unfoldable pub handler : {H : Type 0} → Registry H → String → Option H
unfolding handler_in
handler r name = handler_in name r.handlers

abbrev pub is_present : {A : Type 0} → Option A → Bool
is_present none = false
is_present (some a) = true

-- Registry.HasEffect
unfoldable pub has_effect : {H : Type 0} → Registry H → String → Bool
unfolding handler
has_effect r name = is_present (handler r name)

-- Registry.Register; a nil handler is `none`.
unfoldable pub register : {H : Type 0} → Registry H → String → Option H → Result (Registry H)
register r name none = err Err.invalid_registration
register r name (some h) =
    if name == ""
    then err Err.invalid_registration
    else if has_effect r name
    then err Err.duplicate_effect
    else ok (record { handlers = (name, h) ∷ r.handlers })

-- eventActorID
unfoldable pub event_actor_id : Event → String
event_actor_id evt = if evt.actor.id == "" then evt.actor_id else evt.actor.id

abbrev pub node_effects : Option Node → List String
node_effects none = []
node_effects (some n) = n.effects

abbrev pub transition_effects : Option Transition → List String
transition_effects none = []
transition_effects (some t) = t.effects

-- effectsFor
unfoldable pub effects_for : Definition → Event → List String
effects_for d evt = elim evt.kind [
  | EventKind.opened ↦ node_effects (node d evt.to_state)
  | EventKind.moved ↦
      node_effects (node d evt.to_state)
      ++ transition_effects (find_transition (transitions_from d evt.from_state) evt.action)
  | _ ↦ []
]

-- The literal that `plan` appends.
unfoldable pub job_of : Case → Event → String → Args
job_of c evt name = record {
  case_id = c.id;
  seq = evt.seq;
  effect = name;
  part = 0;
  token_id = evt.token_id;
  definition = c.definition;
  version = c.version;
  domain = c.domain;
  external_id = c.external_id;
  unit = c.unit;
  actor = evt.actor;
  actor_id = event_actor_id evt;
}

module _ {H : Type 0} (r : Registry H) where
  -- The inner loop of `plan`, over the effects of one event.
  unfoldable pub event_jobs : Case → Event → List String → List Args → Result (List Args)
  event_jobs c evt [] jobs = ok jobs
  event_jobs c evt (name ∷ names) jobs =
      let rest = event_jobs c evt names (jobs ++ job_of c evt name ∷ []) in
      if has_effect r name then rest else err Err.unknown_effect

  -- Its outer loop.
  unfoldable pub plan_from : Definition → Case → List Event → List Args → Result (List Args)
  plan_from d c [] jobs = ok jobs
  plan_from d c (evt ∷ evts) jobs = do
    jobs' ← event_jobs c evt (effects_for d evt) jobs
    plan_from d c evts jobs'

  -- Registry.plan
  unfoldable pub plan : Definition → Case → List Event → Result (List Args)
  plan d c events = plan_from d c events []

-- resolveTx, and Registry.CheckDB
unfoldable pub resolve_tx : Handle → Result (Unit {0})
resolve_tx Handle.tx = ok tt
resolve_tx Handle.pool = err Err.no_tx

module _ {T : Type 0} (q : Queue T) where
  -- The loop of Dispatch: what it has inserted stays in the transaction when a later insertion fails.
  unfoldable pub enqueue_all : List Args → T → Result (Unit {0}) × T
  enqueue_all [] t = (ok tt, t)
  enqueue_all (a ∷ jobs) t =
      let (inserted, t') = q.insert a t in
      elim inserted [ ok u ↦ enqueue_all jobs t' | err e ↦ (err e, t') ]

  abbrev enqueue_on : Result (Unit {0}) → List Args → T → Result (Unit {0}) × T
  enqueue_on (ok u) jobs t = enqueue_all jobs t
  enqueue_on (err e) jobs t = (err e, t)

  abbrev enqueue_planned : Handle → Result (List Args) → T → Result (Unit {0}) × T
  enqueue_planned db (err e) t = (err e, t)
  enqueue_planned db (ok jobs) t =
      if is_empty jobs then (ok tt, t) else enqueue_on (resolve_tx db) jobs t

  -- Registry.Dispatch
  unfoldable pub dispatch :
      {H : Type 0}
      → Registry H
      → Handle
      → Definition
      → Case
      → List Event
      → T
      → Result (Unit {0}) × T
  dispatch r db d c events t = enqueue_planned db (plan r d c events) t

  -- The registry as the engine sees it, on a transaction whose tables are `t`.
  unfoldable pub as_sink : {H : Type 0} → Registry H → Handle → T → EffectSink
  as_sink r db t = record {
    has_effect = has_effect r;
    check_db = resolve_tx db;
    dispatch = λ d c events. (dispatch r db d c events t).0;
  }

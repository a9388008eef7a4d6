-- ===== src/History.antt =====
-- workflow/events.go: stamping an event on its way to the table (appendEvent), and reading a history
-- back at the current schema (listEvents, upcastEvent).
pub mod Upcast
pub mod Ordered
use vogel.Prelude.{
  ℕ, String, Bool, true, false, Option, none, some, List, [], ◌∷◌, map, any, ltb, ◌==◌, string_eq,
  nat_eq, if◌then◌else◌,
}
use vogel.Errors.{Err, Result, ok, err}
use vogel.Case.{Case, ActorKind}
use vogel.Event.{Event, current_event_schema}
use vogel.Engine.{Engine}
use vogel.Store.{Db, append_event, list_events}
use vogel.Tx.{Tx, ◌>>=◌, ◌>>◌, pure, writes}

-- What appendEvent sets; `id` is the event's own new identifier.
unfoldable pub stamp : Engine → Case → ℕ → Event → Event
stamp e c id evt = record evt {
  id = id;
  case_id = c.id;
  tenant = c.tenant;
  actor_id = evt.actor.id;
  request_id = e.request_id;
  trace_id = e.trace_id;
  span_id = e.span_id;
  schema_version = current_event_schema;
}

-- Engine.appendEvent
unfoldable pub append : Engine → Case → ℕ → Event → Tx Event
append e c id evt = do writes (append_event (stamp e c id evt)); pure (stamp e c id evt)

unfoldable pub or_unspecified : ActorKind → ActorKind
or_unspecified ActorKind.unset = ActorKind.unspecified
or_unspecified k = k

-- upcastEvent
unfoldable pub upcast : Event → Event
upcast evt =
    let actor_id = if evt.actor.id == "" then evt.actor_id else evt.actor.id in
    record evt {
      schema_version = if evt.schema_version == 0 then 1 else evt.schema_version;
      actor = record (evt.actor) { kind = or_unspecified evt.actor.kind; id = actor_id };
      actor_id = actor_id;
      token_id = if evt.token_id == 0 then evt.case_id else evt.token_id;
      scope_id = if evt.scope_id == 0 then evt.case_id else evt.scope_id;
    }

-- Engine.listEvents, on the rows that the repository returned.
unfoldable pub read_events : List Event → Result (List Event)
read_events evts =
    if any (λ (v : Event). ltb current_event_schema v.schema_version) evts
    then err Err.unsupported_event_schema
    else ok (map upcast evts)

unfoldable pub events_of : ℕ → Db → Result (List Event)
events_of id db = read_events (list_events id db)

-- ===== src/Store.antt =====
-- workflow/postgres/repository.go: the tables of package workflow, one list of rows each, and the
-- statements that read and write them. A statement that fails writes nothing. The constraints are
-- those of workflow/migrations: primary keys, UNIQUE (case_id, seq), one row for each (tenant,
-- domain, external_id), and one "joined" event for each scope. The hash chain columns, which a
-- trigger fills, are modelled apart (Chain).
use vogel.Prelude.{
  ℕ, ◌+◌, Bool, true, false, ◌&&◌, ◌||◌, Option, none, some, List, [], ◌∷◌, ◌++◌, map, find, filter,
  any, sort_by, ltb, ◌==◌, string_eq, nat_eq, if◌then◌else◌,
}
use vogel.Errors.{Err, Result, ok, err}
use vogel.Case.{Case, Token, Scope, ActorKind}
use vogel.Event.{Event, EventKind}
use vogel.JoinPolicy.{token_before}

pub record Db : Type 0 where
  pub cases : List Case
  pub tokens : List Token
  pub scopes : List Scope
  pub events : List Event

unfoldable pub find_case : ℕ → Db → Option Case
find_case id db = find (λ (c : Case). c.id == id) db.cases

unfoldable pub put_case : Case → List Case → List Case
put_case c cs = map (λ (u : Case). if u.id == c.id then c else u) cs

same_reference : Case → Case → Bool
same_reference a b =
    a.tenant == b.tenant && (a.domain == b.domain && a.external_id == b.external_id)

-- Repository.Create: the row starts at revision 0.
unfoldable pub create : Case → Db → Result Db
unfolding same_reference
create c db =
    if any (λ (u : Case). u.id == c.id || same_reference u c) db.cases
    then err Err.case_exists
    else ok (record db { cases = db.cases ++ record c { revision = 0; join_result = none } ∷ [] })

-- Repository.GetByID
unfoldable pub get_by_id : ℕ → Db → Result Case
get_by_id id db = elim (find_case id db) [ none ↦ err Err.case_not_found | some c ↦ ok c ]

-- Repository.Update: a compare-and-swap on the revision and on the last Seq that the caller read.
-- It returns the case at its new revision.
unfoldable pub update : Case → ℕ → Db → Result (Case × Db)
update c expected db = elim (find_case c.id db) [
  | none ↦ err Err.case_not_found
  | some stored ↦
      let c' : Case = record c { revision = c.revision + 1; join_result = none } in
      if stored.revision == c.revision && stored.last_seq == expected
      then ok (c', record db { cases = put_case c' db.cases })
      else err Err.conflict
]

-- Repository.AdvanceLastSeq
unfoldable pub advance_last_seq : ℕ → Db → Result (Case × Db)
advance_last_seq id db = elim (find_case id db) [
  | none ↦ err Err.case_not_found
  | some stored ↦
      let c' : Case = record stored { last_seq = stored.last_seq + 1 } in
      ok (c', record db { cases = put_case c' db.cases })
]

is_joined : EventKind → Bool
is_joined EventKind.joined = true
is_joined _ = false

stored_kind : ActorKind → ActorKind
stored_kind ActorKind.unset = ActorKind.unspecified
stored_kind k = k

-- The row that AppendEvent inserts, with the defaults it fills in.
stored_event : Event → Event
unfolding stored_kind
stored_event evt =
    let actor_id = if evt.actor.id == "" then evt.actor_id else evt.actor.id in
    record evt {
      schema_version = if evt.schema_version == 0 then 1 else evt.schema_version;
      actor = record (evt.actor) { kind = stored_kind evt.actor.kind; id = actor_id };
      actor_id = actor_id;
    }

pub clashes : Event → Event → Bool
unfolding is_joined
clashes a b =
    (a.case_id == b.case_id && a.seq == b.seq)
    || (is_joined a.kind && (is_joined b.kind && a.scope_id == b.scope_id))

-- Repository.AppendEvent
unfoldable pub append_event : Event → Db → Result Db
unfolding stored_event clashes
append_event evt db =
    if evt.seq == 0
    then err Err.bad_seq
    else if any (clashes evt) db.events
    then err Err.conflict
    else ok (record db { events = db.events ++ stored_event evt ∷ [] })

-- Repository.ListEvents: the events of a case by Seq.
unfoldable pub list_events : ℕ → Db → List Event
list_events id db =
    sort_by (λ (a b : Event). ltb a.seq b.seq) (filter (λ (v : Event). v.case_id == id) db.events)

unfoldable pub create_scope : Scope → Db → Result Db
create_scope s db =
    if any (λ (u : Scope). u.id == s.id) db.scopes
    then err Err.duplicate_key
    else ok (record db { scopes = db.scopes ++ s ∷ [] })

-- Writes the status and the closing Seq, the only fields that change.
unfoldable pub update_scope : Scope → Db → Result Db
update_scope s db =
    if any (λ (u : Scope). u.id == s.id) db.scopes
    then ok (record db {
      scopes =
          map
            (λ (u : Scope).
              if u.id == s.id
              then (record u { status = s.status; closed_seq = s.closed_seq })
              else u)
            db.scopes;
    })
    else err Err.conflict

scope_before : Scope → Scope → Bool
scope_before a b =
    if a.opened_seq == b.opened_seq then ltb a.id b.id else ltb a.opened_seq b.opened_seq

unfoldable pub list_scopes : ℕ → Db → List Scope
unfolding scope_before
list_scopes id db = sort_by scope_before (filter (λ (s : Scope). s.case_id == id) db.scopes)

unfoldable pub create_token : Token → Db → Result Db
create_token t db =
    if any (λ (u : Token). u.id == t.id) db.tokens
    then err Err.duplicate_key
    else ok (record db { tokens = db.tokens ++ t ∷ [] })

-- Writes every field but the identifiers of the token, its case and its scope.
unfoldable pub update_token : Token → Db → Result Db
update_token t db =
    if any (λ (u : Token). u.id == t.id) db.tokens
    then ok (record db {
      tokens =
          map
            (λ (u : Token).
              if u.id == t.id
              then (record t { id = u.id; case_id = u.case_id; scope_id = u.scope_id })
              else u)
            db.tokens;
    })
    else err Err.conflict

unfoldable pub list_tokens : ℕ → Db → List Token
unfolding token_before
list_tokens id db = sort_by token_before (filter (λ (t : Token). t.case_id == id) db.tokens)

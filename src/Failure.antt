-- ===== src/Failure.antt =====
-- workflow/failure.go: recording a rejected move. A JSON object is its text; `is_object` says whether
-- a text is one, which is the JSON library's to decide.
pub mod Races
pub mod Tests
use vogel.Prelude.{
  ℕ, String, Bool, true, false, not, ◌&&◌, Option, none, some, List, find, ◌==◌, string_eq, nat_eq,
  if◌then◌else◌,
}
use vogel.Errors.{Err, Result, ok, err, fail_if}
use vogel.Case.{Case, Token, Actor}
use vogel.Event.{EventKind, Event, Detail, FailureKind, event}
use vogel.Engine.{Engine, resolve_actor}
use vogel.Store.{advance_last_seq, list_tokens}
use vogel.History.{append}
use vogel.Tx.{Tx, ◌>>=◌, ◌>>◌, lift, reads, returns}

-- FailureKind.Valid
pub is_known : FailureKind → Bool
is_known (FailureKind.unknown s) = false
is_known _ = true

failure_event : FailureKind → EventKind
failure_event FailureKind.no_route = EventKind.no_route
failure_event _ = EventKind.failed

pub record FailureInput : Type 0 where
  pub case_id : ℕ
  pub token_id : ℕ
  pub actor : Actor
  pub action : String
  pub kind : FailureKind
  pub raw : String

-- The token that the record names, if it names one.
pub named_token : ℕ → List Token → Result (Option Token)
named_token id tokens =
    if id == 0 then ok none else elim (find (λ (t : Token). t.id == id) tokens) [
      | none ↦ err Err.token_not_found
      | some t ↦ ok (some t)
    ]

place : Case → Option Token → EventKind → Event
place c none kind = event kind c.id c.id c.state c.state
place c (some t) kind = event kind t.id t.scope_id t.node t.node

-- Engine.RecordFailure
unfoldable pub record_failure : (String → Bool) → Engine → FailureInput → Tx Event
unfolding is_known named_token place failure_event
record_failure is_object e input = do
  lift (fail_if (not (is_known input.kind)) Err.invalid_failure)
  lift (fail_if (not (input.raw == "") && not (is_object input.raw)) Err.invalid_failure)
  actor ← lift (resolve_actor input.actor "")
  tok ← reads (λ db. named_token input.token_id (list_tokens input.case_id db))
  c ← returns (advance_last_seq input.case_id)
  append e c (e.uuid 0) (record (place c tok (failure_event input.kind)) {
    seq = c.last_seq;
    action = input.action;
    actor = actor;
    occurred_at = e.now;
    detail = Detail.failure input.kind input.raw;
  })

-- failureKinds and FailureKindOf
unfoldable pub failure_kind_of : Err → Option FailureKind
failure_kind_of Err.no_route = some FailureKind.no_route
failure_kind_of Err.guard_rejected = some FailureKind.guard_rejected
failure_kind_of Err.conflict = some FailureKind.conflict
failure_kind_of Err.invalid_actor = some FailureKind.validation_failed
failure_kind_of Err.comment_required = some FailureKind.comment_rejected
failure_kind_of Err.comment_not_allowed = some FailureKind.comment_rejected
failure_kind_of Err.return_not_visited = some FailureKind.return_not_visited
failure_kind_of Err.invalid_transition = some FailureKind.transition_not_found
failure_kind_of _ = none

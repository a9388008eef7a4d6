-- ===== src/Failure/Tests.antt =====
-- Two failures recorded between a call's read of a case and its write.
use vogel.Prelude.{ℕ, ◌≡◌, refl, true, [], ◌∷◌, ◌++◌, string_eq, nat_eq}
use vogel.Errors.{Err, ok, err}
use vogel.Event.{Event, EventKind, FailureKind, Detail, event, current_event_schema}
use vogel.Engine.{resolve_actor, is_recordable, or_human, is_system}
use vogel.Store.{Db, list_tokens, find_case, put_case, advance_last_seq, append_event}
use vogel.Tx.{returns, returned, writes, wrote}
use vogel.History.{append, stamp}
use vogel.Persist.{persist}
use vogel.Failure.{FailureInput, record_failure, is_known, named_token}
use vogel.Failure.Races.{Failures, persist-after-Failures}
use vogel.Examples.{opened_db, open_row, touched_run, engine, person}

abbrev rejected : FailureInput
rejected = record {
  case_id = 100;
  token_id = 0;
  actor = person "eva";
  action = "go";
  kind = FailureKind.guard_rejected;
  raw = "";
}

abbrev failure : ℕ → ℕ → Event
failure seq id = record (event EventKind.failed 100 100 "start" "start") {
  id = id;
  case_id = 100;
  seq = seq;
  occurred_at = 6;
  actor = person "eva";
  actor_id = "eva";
  action = "go";
  schema_version = current_event_schema;
  detail = Detail.failure FailureKind.guard_rejected "";
}

abbrev failed_once : Db
failed_once = record opened_db {
  cases = record open_row { last_seq = 2 } ∷ [];
  events = opened_db.events ++ failure 2 200 ∷ [];
}

abbrev failed_twice : Db
failed_twice = record opened_db {
  cases = record open_row { last_seq = 3 } ∷ [];
  events = failed_once.events ++ failure 3 300 ∷ [];
}

first_failure :
    record_failure (λ _. true) (engine 6 200) rejected opened_db ≡ (ok (failure 2 200), failed_once)
unfolding record_failure is_known named_token resolve_actor or_human is_recordable returns returned
    advance_last_seq find_case put_case append writes wrote append_event stamp list_tokens is_system
first_failure = refl

second_failure :
    record_failure (λ _. true) (engine 6 300) rejected failed_once
    ≡ (ok (failure 3 300), failed_twice)
unfolding record_failure is_known named_token resolve_actor or_human is_recordable returns returned
    advance_last_seq find_case put_case append writes wrote append_event stamp list_tokens is_system
second_failure = refl

persist-after-Failures_example :
    persist (engine 6 400) touched_run failed_twice ≡ (err Err.conflict, failed_twice)
unfolding find_case
persist-after-Failures_example =
    persist-after-Failures (λ _. true) (engine 6 400) touched_run 1 opened_db failed_twice open_row
      refl refl
      (Failures.of_case
        (Failures.of_case Failures.none_yet (engine 6 200) rejected (failure 2 200) refl
          first_failure)
        (engine 6 300) rejected (failure 3 300) refl second_failure)

-- ===== src/JoinPolicy/Tests.antt =====
-- JoinResults at a small history.
use vogel.Prelude.{[], ◌∷◌, ◌≡◌, ◌⊎◌, refl, filter, nat_eq, string_eq}
use vogel.Errors.{ok, err, Ensures}
use vogel.Definition.{JoinPolicy, Outcome}
use vogel.Event.{Event, EventKind, Detail, event}
use vogel.Store.{Db, get_by_id, list_events}
use vogel.History.{events_of, read_events, upcast, or_unspecified}
use vogel.Examples.{open_row, no_rows, person}
use vogel.JoinPolicy.Results.{join_results}
use vogel.JoinPolicy.Recorded.{is_round, TellsAll, Unreadable, join_results-Recorded}

abbrev approval : Event
approval = record (event EventKind.moved 5 2 "a" "meet") {
  case_id = open_row.id;
  seq = 3;
  actor = person "ana";
  actor_id = "ana";
  comment = "fine";
  schema_version = 5;
}

abbrev joined : Event
joined = record (event EventKind.joined 6 2 "meet" "meet") {
  case_id = open_row.id;
  seq = 4;
  actor = person "ana";
  actor_id = "ana";
  schema_version = 5;
  detail =
      Detail.join 2 "meet" (5 ∷ []) JoinPolicy.all_approve Outcome.approved
        (record { token = 5; outcome = Outcome.approved; seq = 3 } ∷ []);
}

abbrev rows : Db
rows = record no_rows { cases = open_row ∷ []; events = approval ∷ joined ∷ [] }

rows-events : events_of open_row.id rows ≡ ok (approval ∷ joined ∷ [])
unfolding events_of read_events upcast or_unspecified list_events
rows-events = refl

join_results-Recorded_example :
    Ensures
      (λ x. (get_by_id open_row.id rows ≡ err x) ⊎ Unreadable (approval ∷ joined ∷ []) x)
      (TellsAll (approval ∷ joined ∷ []) (filter is_round (approval ∷ joined ∷ [])))
      (join_results open_row.id rows)
join_results-Recorded_example =
    join_results-Recorded open_row.id rows (approval ∷ joined ∷ []) rows-events

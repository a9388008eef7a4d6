-- ===== src/Queries/Tests.antt =====
-- The list queries on small tables, and the theorems of the sweep there.
use vogel.Prelude.{
  ℕ, true, false, none, some, List, [], ◌∷◌, ◌≡◌, refl, arith, pos, negsuc, map, All,
}
use vogel.Errors.{Err, ok, err}
use vogel.Definition.{resolve_unit, node, is_zero}
use vogel.Case.{Token, is_active, is_open}
use vogel.Engine.{resolve_definition}
use vogel.JoinPolicy.{token_before, sort_tokens}
use vogel.Run.{load_run, fill_eligibility, fill, eligibility_at, pick, active}
use vogel.Store.{Db, find_case, get_by_id, list_tokens, list_scopes}
use vogel.Persist.{load}
use vogel.Paging.{page, clamp_limit, overdue_limit}
use vogel.Operations.{overdue}
use vogel.Examples.{tables, split_db, start_scope, start_token, open_row, one_event, engine}
use vogel.Queries.{
  WorkItem, join_where, InboxFilter, in_inbox, list_work_items, OverdueFilter, overdue_cursor,
  is_overdue, overdue_items, list_overdue, get_by_external_id,
}
use vogel.Queries.Participation.{ParticipationFilter, last_act, list_participated, participated}
use vogel.Queries.Reads.{eligibility_for_token, tokens_of, refresh_eligibility}
use vogel.Queries.Sweep.{overdue_items-resume, overdue_items-expirable}

abbrev everything : InboxFilter
everything = record {
  tenant = "";
  domain = "";
  states = none;
  eligibility = [];
  assigned_to = "";
  unassigned = false;
  overdue = false;
  limit = pos 0;
  offset = pos 0;
}

abbrev token_ids : List WorkItem → List ℕ
token_ids items = map (λ (i : WorkItem). i.token.id) items

abbrev a_token : Token
a_token = record start_token { id = 201; scope_id = 200; node = "a"; entered_seq = 4 }

abbrev b_token : Token
b_token = record start_token { id = 202; scope_id = 200; node = "b"; entered_seq = 5 }

-- The two branches of the split, in order; one of them alone, by its node; and the second page.
inbox :
    (list_work_items everything 9 split_db
      ≡ ok (
          record { case = open_row; token = a_token }
          ∷ record { case = open_row; token = b_token }
          ∷ []))
    × (list_work_items (record everything { states = some ("b" ∷ []) }) 9 split_db
        ≡ ok (record { case = open_row; token = b_token } ∷ []))
    × (list_work_items (record everything { limit = pos 1; offset = pos 1 }) 9 split_db
        ≡ ok (record { case = open_row; token = b_token } ∷ []))
    × (list_work_items (record everything { offset = negsuc 0 }) 9 split_db
        ≡ err Err.offset_out_of_range)
unfolding list_work_items join_where in_inbox find_case page clamp_limit token_before
inbox = (refl, refl, refl, refl)

-- Three deadlines; the third token has expired already.
abbrev late_db : Db
late_db =
    tables
      (record a_token { deadline_at = some 8 }
        ∷ record b_token { deadline_at = some 7 }
        ∷ record start_token { id = 203; deadline_at = some 6; expired_deadline = some 6 }
        ∷ [])
      (start_scope ∷ [])

abbrev sweep : OverdueFilter
sweep = record { tenant = ""; limit = pos 1; before = 9; after = none }

abbrev late_a : WorkItem
late_a = record { case = open_row; token = record a_token { deadline_at = some 8 } }

abbrev late_b : WorkItem
late_b = record { case = open_row; token = record b_token { deadline_at = some 7 } }

late_items : overdue_items sweep late_db ≡ late_b ∷ late_a ∷ []
unfolding overdue_items join_where is_overdue find_case
late_items = refl

first_page : list_overdue sweep late_db ≡ late_b ∷ []
unfolding list_overdue overdue_limit page clamp_limit overdue_items join_where is_overdue find_case
first_page = refl

overdue_items-resume_example :
    overdue_items
      (record sweep { after = some (record { deadline_at = 7; token_id = 202 }) })
      late_db
    ≡ late_a ∷ []
unfolding overdue_cursor
overdue_items-resume_example =
    overdue_items-resume sweep late_db [] (late_a ∷ []) late_b
      (record { deadline_at = 7; token_id = 202 })
      (((omega arith, (omega arith, tt))), ((omega arith, tt), (tt, tt))) late_items refl

overdue_items-expirable_example :
    All
      (λ (i : WorkItem).
        (at : ℕ) × (overdue 12 i.token ≡ ok at)
        × (i.token.deadline_at ≡ some at)
        × (is_active i.token.status ≡ true)
        × (is_open i.case.status ≡ true))
      (overdue_items sweep late_db)
overdue_items-expirable_example = overdue_items-expirable sweep late_db 12 (omega arith)

-- Who took part in a case, and who did not.
abbrev acted_db : Db
acted_db = record split_db {
  events = record one_event { case_id = 100; actor_id = "ana"; occurred_at = 6 } ∷ [];
}

abbrev by_actor : ParticipationFilter
by_actor = record { tenant = ""; actor_id = "ana"; limit = pos 0; offset = pos 0 }

took_part :
    (participated by_actor acted_db ≡ ok (open_row ∷ []))
    × (participated (record by_actor { actor_id = "eva" }) acted_db ≡ ok [])
    × (participated (record by_actor { actor_id = "" }) acted_db ≡ err Err.invalid_actor)
unfolding participated list_participated last_act page clamp_limit
took_part = (refl, refl, refl)

by_reference :
    (get_by_external_id "" "d" "x" split_db ≡ ok open_row)
    × (get_by_external_id "" "d" "y" split_db ≡ err Err.case_not_found)
unfolding get_by_external_id
by_reference = (refl, refl)

-- The case has two active tokens, so a token must be named.
which_token :
    ((eligibility_for_token (engine 6 200) 100 0 split_db).0 ≡ err Err.token_required)
    × ((eligibility_for_token (engine 6 200) 100 201 split_db).0
        ≡ ok (record { position = ""; unit = "u" }))
    × ((tokens_of (engine 6 200) 100 split_db).0 ≡ ok split_db.tokens)
    × ((refresh_eligibility (engine 6 200) 100 split_db).0 ≡ ok false)
unfolding eligibility_for_token tokens_of refresh_eligibility get_by_id find_case resolve_definition
    load load_run fill_eligibility pick active list_tokens list_scopes node resolve_unit is_zero
    fill eligibility_at sort_tokens token_before
which_token = (refl, refl, refl, refl)

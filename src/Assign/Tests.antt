-- ===== src/Assign/Tests.antt =====
-- Two claims of one token that race.
use vogel.Prelude.{◌≡◌, refl, string_eq, nat_eq}
use vogel.Errors.{Err, ok, err, or_fail}
use vogel.Definition.{node, is_zero, resolve_unit}
use vogel.Case.{Case}
use vogel.Event.{no_actor}
use vogel.Engine.{resolve_definition}
use vogel.Run.{
  Run, load_run, fill_eligibility, fill, eligibility_at, pick, active, contains, emit, write_token,
  touch, begin, put_token,
}
use vogel.Store.{
  list_tokens, list_scopes, update, find_case, put_case, update_token, append_event, update_scope,
}
use vogel.Tx.{returns, returned, writes, wrote}
use vogel.History.{append, stamp}
use vogel.Persist.{
  persist, load, load_token, project, write_scopes, write_tokens, append_all, earliest, sooner,
}
use vogel.Assign.{claim_token, save, reassigned}
use vogel.Assign.Races.{claim_token-races}
use vogel.Examples.{opened_db, open_row, start_run, start_token, engine, person}

abbrev loaded : Run
loaded = record start_run { now = 0; actor = no_actor }

loads : (load_token (engine 6 200) open_row 100 opened_db).0 ≡ ok (loaded, start_token)
unfolding load_token load load_run fill_eligibility fill eligibility_at pick active list_tokens
    list_scopes resolve_definition node is_zero resolve_unit or_fail
loads = refl

loads_again : (load_token (engine 7 300) open_row 100 opened_db).0 ≡ ok (loaded, start_token)
unfolding load_token load load_run fill_eligibility fill eligibility_at pick active list_tokens
    list_scopes resolve_definition node is_zero resolve_unit or_fail
loads_again = refl

abbrev claimed : Case
claimed = record open_row { assigned_to = "ana"; revision = 1; last_seq = 2 }

claims :
    (claim_token (engine 6 200) (person "ana") open_row loaded start_token opened_db).0 ≡ ok claimed
unfolding claim_token save reassigned emit write_token touch begin put_token persist returns
    returned update find_case put_case project active write_scopes write_tokens append_all append
    stamp writes wrote contains update_token append_event update_scope earliest sooner
claims = refl

claim_token-races_example :
    claim_token
      (engine 7 300)
      (person "eva")
      open_row
      loaded
      start_token
      (claim_token (engine 6 200) (person "ana") open_row loaded start_token opened_db).1
    ≡ (
      err Err.conflict,
      (claim_token (engine 6 200) (person "ana") open_row loaded start_token opened_db).1,
    )
claim_token-races_example =
    claim_token-races (engine 6 200) (engine 7 300) open_row loaded loaded start_token start_token
      (person "ana") (person "eva") 100 100 opened_db opened_db opened_db claimed loads loads_again
      refl refl claims

-- ===== src/Queries/Participation.antt =====
-- workflow/queries.go and workflow/postgres/repository.go: the cases that an actor took part in.
use vogel.Prelude.{
  ℕ, ltb, String, Bool, not, ◌&&◌, Option, none, some, List, [], ◌∷◌, map, sort_by, ℤ, ◌==◌,
  string_eq, nat_eq, if◌then◌else◌,
}
use vogel.Errors.{Err, Result, err}
use vogel.Case.{Case}
use vogel.Event.{Event}
use vogel.Store.{Db}
use vogel.Paging.{page}
use vogel.Queries.{any_or_same, page_of}

pub record ParticipationFilter : Type 0 where
  pub tenant : String
  pub actor_id : String
  pub limit : ℤ
  pub offset : ℤ

later : Option ℕ → ℕ → Option ℕ
later none at = some at
later (some best) at = some (if ltb best at then at else best)

-- `MAX(occurred_at)` of the actor's events in a case.
unfoldable pub last_act : String → String → ℕ → List Event → Option ℕ
unfolding later
last_act actor tenant case [] = none
last_act actor tenant case (v ∷ events) =
    let rest = last_act actor tenant case events in
    if v.case_id == case
      && v.actor_id == actor
      && not (v.actor_id == "")
      && any_or_same tenant v.tenant
    then later rest v.occurred_at
    else rest

acted : String → String → List Event → List Case → List (ℕ × Case)
acted actor tenant events [] = []
acted actor tenant events (c ∷ cs) =
    let rest = acted actor tenant events cs in
    elim (last_act actor tenant c.id events) [ none ↦ rest | some at ↦ (at, c) ∷ rest ]

abbrev newest_first : ℕ × Case → ℕ × Case → Bool
newest_first (at, c) (at', c') = if at == at' then ltb c.id c'.id else ltb at' at

-- Repository.ListParticipated
unfoldable pub list_participated : ParticipationFilter → Db → Result (List Case)
unfolding acted page_of
list_participated f db = page_of (page f.limit f.offset) (
    map (λ (p : ℕ × Case). p.1)
      (sort_by newest_first (acted f.actor_id f.tenant db.events db.cases)))

-- Engine.Participated: its own check of the page comes before the query's.
unfoldable pub participated : ParticipationFilter → Db → Result (List Case)
unfolding page_of
participated f db = if f.actor_id == "" then err Err.invalid_actor else list_participated f db

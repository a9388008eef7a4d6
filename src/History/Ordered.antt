-- ===== src/History/Ordered.antt =====
-- A history is read in the order of its Seqs (workflow/events.go: listEvents).
use vogel.Prelude.{
  ℕ, ltb, ◌==◌, nat_eq, Bool, false, List, [], ◌∷◌, ◌≡◌, subst, sym, arith, map, filter, All,
}
use vogel.Errors.{ok, Ensures-ok}
use vogel.Event.{Event}
use vogel.Store.{Db, list_events}
use vogel.Sorting.{Sorted, Orders, sort_by-Sorted}
use vogel.History.{upcast, read_events, events_of}
use vogel.History.Upcast.{read_events-Current}

abbrev pub sooner_event : Event → Event → Bool
sooner_event a b = ltb a.seq b.seq

sooner_event-Orders : Orders sooner_event
sooner_event-Orders = record { asym = λ x y h. ground arith; trans_not = λ x y z h k. ground arith }

upcast-after :
    (v : Event) (vs : List Event)
    → All (λ (z : Event). sooner_event z v ≡ false) vs
    → All (λ (z : Event). sooner_event z (upcast v) ≡ false) (map upcast vs)
unfolding upcast
upcast-after v [] h = tt
upcast-after v (w ∷ vs) h = (h.0, upcast-after v vs h.1)

upcast-Sorted : (vs : List Event) → Sorted sooner_event vs → Sorted sooner_event (map upcast vs)
upcast-Sorted [] s = tt
upcast-Sorted (v ∷ vs) s = (upcast-after v vs s.0, upcast-Sorted vs s.1)

-- No event of a history that was read has a lower Seq than one before it.
pub events_of-Sorted :
    (id : ℕ) (db : Db) (events : List Event)
    → events_of id db ≡ ok events
    → Sorted sooner_event events
unfolding events_of list_events
events_of-Sorted id db events h =
    let rows = list_events id db in
    let (same, _, _) = Ensures-ok _ _ (read_events rows) events (read_events-Current rows) h in
    subst (Sorted sooner_event) (sym same) (
      upcast-Sorted rows (
        sort_by-Sorted sooner_event sooner_event-Orders
          (filter (λ (v : Event). v.case_id == id) db.events)))

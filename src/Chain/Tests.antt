-- ===== src/Chain/Tests.antt =====
-- A history as it is read, and the verdict on its chain.
use mathlib.Core.List.{Memᴰ}
use vogel.Prelude.{◌≤◌, ◌<◌, ◌↔◌, ◌≡◌, none, some, List, [], ◌∷◌, ◌++◌, All, map}
use vogel.Errors.{Err, Ensures}
use vogel.Event.{Event, current_event_schema}
use vogel.History.{upcast, read_events}
use vogel.History.Upcast.{Current, read_events-Current}
use vogel.Chain.{EventDigest, Verdict, verify_chain}
use vogel.Chain.Intact.{Unchained, Linked, verify_chain-intact}
use vogel.Examples.{one_event}

read_events-Current_example :
    Ensures
      (λ x.
        (x ≡ Err.unsupported_event_schema)
        × (v : Event) × Memᴰ v (one_event ∷ [])
        × (current_event_schema < v.schema_version))
      (λ us.
        (us ≡ map upcast (one_event ∷ []))
        × All Current us
        × All (λ (v : Event). v.schema_version ≤ current_event_schema) (one_event ∷ []))
      (read_events (one_event ∷ []))
read_events-Current_example = read_events-Current (one_event ∷ [])

abbrev chain : List EventDigest
chain =
    record { seq = 1; prev_digest = none; digest = none; recomputed = none }
    ∷ record { seq = 2; prev_digest = none; digest = some (7 ∷ []); recomputed = some (7 ∷ []) }
    ∷ record {
      seq = 3;
      prev_digest = some (7 ∷ []);
      digest = some (8 ∷ []);
      recomputed = some (8 ∷ []);
    }
    ∷ []

verify_chain-intact_example : (verify_chain chain ≡ Verdict.intact) ↔ (
    (pre : List EventDigest) × (post : List EventDigest) × (chain ≡ pre ++ post)
    × All Unchained pre
    × Linked none post)
verify_chain-intact_example = verify_chain-intact chain

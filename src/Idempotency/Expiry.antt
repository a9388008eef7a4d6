-- ===== src/Idempotency/Expiry.antt =====
-- idempotency/postgres/store.go: DeleteExpired.
use vogel.Prelude.{ℕ, true, some, List, ◌≡◌, string_eq, nat_eq, list_eq}
use vogel.Idempotency.{Row, row_of, expired}
use vogel.Idempotency.Unique.{Unique}

-- What a deletion of expired rows chooses: rows of the table that have expired.
module _ (now : ℕ) (rows : List Row) where
  abbrev Dead : Row → Type 0
  Dead g = (expired now g ≡ true) × (row_of g.scope g.key rows ≡ some g)

-- ===== src/Idempotency/Unique.antt =====
-- The primary key of the table idempotency_key.
use vogel.Prelude.{
  ℕ, String, Bool, none, List, [], ◌∷◌, ◌≡◌, filter, string_eq, nat_eq, list_eq, Bool-cases, inl,
  inr,
}
use vogel.Idempotency.{Row, has_key, row_of}

-- No two rows have the same scope and key.
abbrev pub Unique : List Row → Type 0
Unique [] = Unit
Unique (r ∷ rs) = (row_of r.scope r.key rs ≡ none) × Unique rs

module _ (scope : String) (key : List ℕ) where
  pub none-filter :
      (keep : Row → Bool) (rows : List Row)
      → row_of scope key rows ≡ none
      → row_of scope key (filter keep rows) ≡ none
  unfolding row_of
  none-filter keep [] h = h
  none-filter keep (x ∷ xs) h = elim (Bool-cases (has_key scope key x)) [
    | inl here ↦ let e = rw here at h in cc
    | inr there ↦ elim (Bool-cases (keep x)) [
      | inl y ↦ rw (y, there) (none-filter keep xs (rw there at h))
      | inr n ↦ rw n (none-filter keep xs (rw there at h))
    ]
  ]

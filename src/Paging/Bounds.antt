-- ===== src/Paging/Bounds.antt =====
-- The bounds of a list query's page (workflow/workflow.go: page).
use vogel.Prelude.{
  ℕ, zero, suc, ◌≤◌, ◌<◌, ℤ, pos, negsuc, ◌≡◌, refl, ◌⊎◌, inl, inr, arith, ltb, Bool-cases,
}
use vogel.Errors.{Err, Ensures}
use vogel.Paging.{clamp_limit, page, max_list_limit, max_list_offset, default_list_limit}

-- The offset as `page` accepts it.
abbrev pub InRange : ℤ → ℕ → Type 0
InRange offset n = (offset ≡ pos n) × (n ≤ max_list_offset)

abbrev pub OutOfRange : ℤ → Type 0
OutOfRange (pos n) = max_list_offset < n
OutOfRange (negsuc n) = Unit

-- The limit that the caller asked for, within the bounds; none asked for is the default.
abbrev pub Clamped : ℤ → ℕ → Type 0
Clamped (pos zero) l = l ≡ default_list_limit
Clamped (pos (suc n)) l = (l ≤ suc n) × (l ≤ max_list_limit) × ((l ≡ suc n) ⊎ (l ≡ max_list_limit))
Clamped (negsuc n) l = l ≡ default_list_limit

clamp_limit-Clamped : (limit : ℤ) → (1 ≤ clamp_limit limit) × Clamped limit (clamp_limit limit)
unfolding clamp_limit
clamp_limit-Clamped (negsuc n) = (omega arith, refl)
clamp_limit-Clamped (pos zero) = (omega arith, refl)
clamp_limit-Clamped (pos (suc n)) = elim (Bool-cases (ltb max_list_limit (suc n))) [
  | inl over ↦ rw over (omega arith, (ground arith, omega arith, inr refl))
  | inr within ↦ rw within (omega arith, (omega arith, ground arith, inl refl))
]

-- A page that is granted has the caller's offset, at most maxListOffset, and a limit of at least one
-- and at most maxListLimit, which is the smaller of that and what the caller asked for, or the
-- default where the caller asked for nothing; the one error is an offset that is negative or above
-- maxListOffset.
page-bounds :
    (limit offset : ℤ)
    → Ensures
        (λ x. (x ≡ Err.offset_out_of_range) × OutOfRange offset)
        (λ p. (1 ≤ p.0) × Clamped limit p.0 × InRange offset p.1)
        (page limit offset)
unfolding page
page-bounds limit (negsuc n) = (refl, tt)
page-bounds limit (pos n) = elim (Bool-cases (ltb max_list_offset n)) [
  | inl over ↦ rw over (refl, ground arith)
  | inr within ↦
      rw within ((clamp_limit-Clamped limit).0, (clamp_limit-Clamped limit).1, (refl, ground arith))
]

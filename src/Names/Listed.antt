-- ===== src/Names/Listed.antt =====
-- The names that the lists of a definition give, sorted and with no repetition, are all that it has
-- (workflow/workflow.go).
use vogel.Prelude.{
  String, Bool, true, false, List, [], ◌∷◌, ◌≡◌, any, sort_by, insert_by, ◌==◌, ==_iff, string_eq,
  Bool-cases, inl, inr, All, All-append, All-split,
}
use vogel.Names.{distinct, names, concat_map, text_before}

-- No name is empty.
abbrev pub Named : List String → Type 0
Named xs = All (λ (x : String). (x == "") ≡ false) xs

module _ (P : String → Type 0) where
  insert_by-All :
      (less : String → String → Bool) (x : String) (ys : List String)
      → All P (insert_by less x ys)
      → P x × All P ys
  insert_by-All less x [] h = h
  insert_by-All less x (y ∷ ys) h = elim (Bool-cases (less y x)) [
    | inl before ↦
        let q = rw before at h in let (p, later) = insert_by-All less x ys q.1 in (p, (q.0, later))
    | inr after ↦ let q = rw after at h in (q.0, q.1)
  ]

  sort_by-All :
      (less : String → String → Bool) (xs : List String) → All P (sort_by less xs) → All P xs
  sort_by-All less [] h = tt
  sort_by-All less (x ∷ xs) h =
      let (p, later) = insert_by-All less x (sort_by less xs) h in (p, sort_by-All less xs later)

  any-All :
      (x : String) (ys : List String) → All P ys → any (λ (y : String). y == x) ys ≡ true → P x
  any-All x [] h found = cc
  any-All x (y ∷ ys) h found = elim (Bool-cases (y == x)) [
    | inl same ↦ rw (← (==_iff y x).0 same) h.0
    | inr other ↦ any-All x ys h.1 (rw other at found)
  ]

  distinct-All :
      (seen xs : List String) → All P seen → All P (distinct seen xs) → Named xs → All P xs
  unfolding distinct
  distinct-All seen [] s h n = tt
  distinct-All seen (x ∷ xs) s h n = elim (Bool-cases (any (λ (y : String). y == x) seen)) [
    | inl again ↦
        let q = rw (n.0, again) at h in (any-All x seen s again, distinct-All seen xs s q n.1)
    | inr first ↦ let q = rw (n.0, first) at h in (q.0, distinct-All (x ∷ seen) xs (q.0, s) q.1 n.1)
  ]

  -- What holds of the listed names holds of every name that is not empty.
  pub names-All : (xs : List String) → All P (names xs) → Named xs → All P xs
  unfolding names
  names-All xs h n = distinct-All [] xs tt (sort_by-All text_before (distinct [] xs) h) n

pub concat_map-All :
    {A : Type 0} (P : String → Type 0) (f : A → List String) (xs : List A)
    → All P (concat_map f xs)
    → All (λ x. All P (f x)) xs
unfolding concat_map
concat_map-All P f [] h = tt
concat_map-All P f (x ∷ xs) h =
    let (here, later) = All-split P (f x) (concat_map f xs) h in (here, concat_map-All P f xs later)

pub All-concat_map :
    {A : Type 0} (P : String → Type 0) (f : A → List String) (xs : List A)
    → All (λ x. All P (f x)) xs
    → All P (concat_map f xs)
unfolding concat_map
All-concat_map P f [] h = tt
All-concat_map P f (x ∷ xs) h = All-append P (f x) (concat_map f xs) h.0 (All-concat_map P f xs h.1)

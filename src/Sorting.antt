-- ===== src/Sorting.antt =====
-- `ORDER BY` as an insertion sort: what it keeps, and how it goes with `WHERE`.
use vogel.Prelude.{
  Bool, true, false, List, [], ◌∷◌, ◌≡◌, ◌∙◌, refl, sym, ap, filter, insert_by, sort_by, Bool-cases,
  inl, inr, All, All-of_All, if◌then◌else◌,
}

module _ {A : Type 0} where
  pub filter-All : (P : A → Type 0) (p : A → Bool) (xs : List A) → All P xs → All P (filter p xs)
  filter-All P p [] h = tt
  filter-All P p (x ∷ xs) h = elim (Bool-cases (p x)) [
    | inl y ↦ rw (y, All) (h.0, filter-All P p xs h.1)
    | inr n ↦ rw n (filter-All P p xs h.1)
  ]

module _ {A : Type 0} (less : A → A → Bool) where
  insert_by-All :
      (P : A → Type 0) (x : A) (ys : List A) → P x → All P ys → All P (insert_by less x ys)
  insert_by-All P x [] p h = (p, tt)
  insert_by-All P x (y ∷ ys) p h = elim (Bool-cases (less y x)) [
    | inl before ↦ rw (before, All) (h.0, insert_by-All P x ys p h.1)
    | inr after ↦ rw (after, All) (p, h)
  ]

  pub sort_by-All : (P : A → Type 0) (xs : List A) → All P xs → All P (sort_by less xs)
  sort_by-All P [] h = tt
  sort_by-All P (x ∷ xs) h = insert_by-All P x (sort_by less xs) h.0 (sort_by-All P xs h.1)

  -- No element comes before one that stands earlier.
  abbrev pub Sorted : List A → Type 0
  Sorted [] = Unit
  Sorted (y ∷ ys) = All (λ z. less z y ≡ false) ys × Sorted ys

  pub filter-Sorted : (p : A → Bool) (xs : List A) → Sorted xs → Sorted (filter p xs)
  filter-Sorted p [] s = tt
  filter-Sorted p (x ∷ xs) s = elim (Bool-cases (p x)) [
    | inl y ↦ rw (y, Sorted) (filter-All (λ z. less z x ≡ false) p xs s.0, filter-Sorted p xs s.1)
    | inr n ↦ rw n (filter-Sorted p xs s.1)
  ]

  insert_by-front :
      (x : A) (ys : List A) → All (λ z. less z x ≡ false) ys → insert_by less x ys ≡ x ∷ ys
  insert_by-front x [] h = refl
  insert_by-front x (y ∷ ys) h = rw h.0 refl

  -- Sorting a sorted list changes nothing.
  pub sort_by_same : (xs : List A) → Sorted xs → sort_by less xs ≡ xs
  sort_by_same [] s = refl
  sort_by_same (x ∷ xs) s = ap (insert_by less x) (sort_by_same xs s.1) ∙ insert_by-front x xs s.0

  -- What `less` must be for the sort to be one.
  pub record Orders : Type 0 where
    pub asym : (x y : A) → less x y ≡ true → less y x ≡ false
    pub trans_not : (x y z : A) → less x y ≡ false → less y z ≡ false → less x z ≡ false

  module _ (orders : Orders) where
    insert_by-Sorted : (x : A) (ys : List A) → Sorted ys → Sorted (insert_by less x ys)
    insert_by-Sorted x [] s = (tt, tt)
    insert_by-Sorted x (y ∷ ys) s = elim (Bool-cases (less y x)) [
      | inl before ↦
          rw (before, Sorted)
            (
              insert_by-All (λ z. less z y ≡ false) x ys (orders.asym y x before) s.0,
              insert_by-Sorted x ys s.1,
            )
      | inr after ↦
          rw (after, Sorted)
            (
              (
                after,
                All-of_All (λ z. less z x ≡ false) ys (λ z h. orders.trans_not z y x h after) s.0,
              ),
              s,
            )
    ]

    pub sort_by-Sorted : (xs : List A) → Sorted (sort_by less xs)
    sort_by-Sorted [] = tt
    sort_by-Sorted (x ∷ xs) = insert_by-Sorted x (sort_by less xs) (sort_by-Sorted xs)

    filter-insert_by :
        (p : A → Bool) (x : A) (ys : List A)
        → Sorted ys
        → filter p (insert_by less x ys)
          ≡ (if p x then insert_by less x (filter p ys) else filter p ys)
    filter-insert_by p x [] s = refl
    filter-insert_by p x (y ∷ ys) s = elim (Bool-cases (less y x)) [
      | inl before ↦
          let later = filter-insert_by p x ys s.1 in
          elim (Bool-cases (p x)) [
            | inl kept ↦ elim (Bool-cases (p y)) [
              | inl too ↦
                  rw (before, too, kept) (rw before (ap (λ zs. y ∷ zs) (later ∙ rw kept refl)))
              | inr gone ↦ rw (before, gone, kept) (later ∙ rw kept refl)
            ]
            | inr left ↦ elim (Bool-cases (p y)) [
              | inl too ↦ rw (before, too, left) (ap (λ zs. y ∷ zs) (later ∙ rw left refl))
              | inr gone ↦ rw (before, gone, left) (later ∙ rw left refl)
            ]
          ]
      | inr after ↦ elim (Bool-cases (p x)) [
        | inl kept ↦
            let below =
              All-of_All (λ z. less z x ≡ false) ys (λ z h. orders.trans_not z y x h after) s.0 in
            rw (after, kept)
              (sym (
                insert_by-front x (filter p (y ∷ ys))
                  (filter-All (λ z. less z x ≡ false) p (y ∷ ys) (after, below))))
        | inr left ↦ rw (after, left) refl
      ]
    ]

    -- Filtering commutes with sorting.
    pub filter-sort_by :
        (p : A → Bool) (xs : List A) → filter p (sort_by less xs) ≡ sort_by less (filter p xs)
    filter-sort_by p [] = refl
    filter-sort_by p (x ∷ xs) =
        filter-insert_by p x (sort_by less xs) (sort_by-Sorted xs) ∙ elim (Bool-cases (p x)) [
          | inl kept ↦ rw kept (ap (insert_by less x) (filter-sort_by p xs))
          | inr left ↦ rw left (filter-sort_by p xs)
        ]

-- Pairwise apart, by a symmetric relation.
module _ {A : Type 0} (Differ : A → A → Type 0) where
  abbrev pub Pairwise : List A → Type 0
  Pairwise [] = Unit
  Pairwise (y ∷ ys) = All (λ z. Differ y z) ys × Pairwise ys

  module _ (flip : (x y : A) → Differ x y → Differ y x) (less : A → A → Bool) where
    insert_by-Pairwise :
        (x : A) (ys : List A)
        → All (λ z. Differ x z) ys
        → Pairwise ys
        → Pairwise (insert_by less x ys)
    insert_by-Pairwise x [] h d = (tt, tt)
    insert_by-Pairwise x (y ∷ ys) h d = elim (Bool-cases (less y x)) [
      | inl before ↦
          rw (before, Pairwise)
            (
              insert_by-All less (λ z. Differ y z) x ys (flip x y h.0) d.0,
              insert_by-Pairwise x ys h.1 d.1,
            )
      | inr after ↦ rw (after, Pairwise) (h, d)
    ]

    pub sort_by-Pairwise : (xs : List A) → Pairwise xs → Pairwise (sort_by less xs)
    sort_by-Pairwise [] d = tt
    sort_by-Pairwise (x ∷ xs) d =
        insert_by-Pairwise x (sort_by less xs) (sort_by-All less (λ z. Differ x z) xs d.0)
          (sort_by-Pairwise xs d.1)

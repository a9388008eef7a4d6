-- ===== src/Idempotency/Table.antt =====
-- idempotency/postgres/store.go: what the statements do to the row of a key.
use vogel.Prelude.{
  String, Bool, true, false, none, some, List, [], ◌∷◌, ◌++◌, ◌≡◌, refl, sym, arith, find, filter,
  ==_iff, string_eq, nat_eq, list_eq, Option-cases, Bool-cases, inl, inr, ℕ, ap,
}
use vogel.Idempotency.{Row, has_key, row_of, put, upsert}

pub has_key-own : (r : Row) → has_key r.scope r.key r ≡ true
has_key-own r = ground (arith, ==_iff r.scope r.scope, ==_iff r.key r.key)

pub has_key-eq :
    (scope : String) (key : List ℕ) (r : Row)
    → has_key scope key r ≡ true
    → (r.scope ≡ scope) × (r.key ≡ key)
has_key-eq scope key r h =
    ((==_iff r.scope scope).0 (ground arith), (==_iff r.key key).0 (ground arith))

row_of-put :
    (row : Row) (rows : List Row) (r : Row)
    → row_of row.scope row.key rows ≡ some r
    → row_of row.scope row.key (put row rows) ≡ some row
unfolding row_of put
row_of-put row [] r h = cc
row_of-put row (x ∷ xs) r h = elim (Bool-cases (has_key row.scope row.key x)) [
  | inl same ↦ rw (same, has_key-own row) refl
  | inr other ↦ rw (other, other) (row_of-put row xs r (rw other at h))
]

row_of-append :
    (row : Row) (rows : List Row)
    → row_of row.scope row.key rows ≡ none
    → row_of row.scope row.key (rows ++ row ∷ []) ≡ some row
unfolding row_of
row_of-append row [] h = rw (has_key-own row) refl
row_of-append row (x ∷ xs) h = elim (Bool-cases (has_key row.scope row.key x)) [
  | inl same ↦ let e = rw same at h in cc
  | inr other ↦ rw other (row_of-append row xs (rw other at h))
]

-- A row that is put in the place of the one found is found there.
pub row_of-put_at :
    (scope : String) (key : List ℕ) (row : Row) (rows : List Row) (r : Row)
    → row.scope ≡ scope
    → row.key ≡ key
    → row_of scope key rows ≡ some r
    → row_of scope key (put row rows) ≡ some row
row_of-put_at scope key row rows r hs hk h =
    rw (sym hs, sym hk) (row_of-put row rows r (rw (hs, hk) h))

module _ (may : Row → Bool) (row : Row) (rows : List Row) where
  -- The three ways of an upsert.
  pub upsert-new :
      row_of row.scope row.key rows ≡ none → upsert may row rows ≡ (true, rows ++ row ∷ [])
  unfolding upsert
  upsert-new new = rw (new, upsert) refl

  pub upsert-taken :
      (r : Row)
      → row_of row.scope row.key rows ≡ some r
      → may r ≡ true
      → upsert may row rows ≡ (true, put row rows)
  unfolding upsert
  upsert-taken r found y = rw (found, upsert, y) refl

  -- It changes nothing where it finds a row that it may not take.
  pub upsert-refused :
      (r : Row)
      → row_of row.scope row.key rows ≡ some r
      → may r ≡ false
      → upsert may row rows ≡ (false, rows)
  unfolding upsert
  upsert-refused r found n = rw (found, upsert, n) refl

  -- An upsert that returns a row has written it.
  pub upsert-owned :
      (upsert may row rows).0 ≡ true → row_of row.scope row.key (upsert may row rows).1 ≡ some row
  upsert-owned h = elim (Option-cases (row_of row.scope row.key rows)) [
    | inl new ↦ rw (upsert-new new) (row_of-append row rows new)
    | inr (r, found) ↦ elim (Bool-cases (may r)) [
      | inl y ↦ rw (upsert-taken r found y) (row_of-put row rows r found)
      | inr n ↦ let e = ap (λ (p : Bool × List Row). p.0) (upsert-refused r found n) in cc
    ]
  ]

-- A deletion that spares the row of a key does not change what a lookup finds there.
pub find-filter :
    {A : Type 0} (p keep : A → Bool) (xs : List A) (a : A)
    → find p xs ≡ some a
    → keep a ≡ true
    → find p (filter keep xs) ≡ some a
find-filter p keep [] a h k = cc
find-filter p keep (x ∷ xs) a h k = elim (Bool-cases (p x)) [
  | inl y ↦
      let e = rw y at h in
      let same : x ≡ a = cc in let kept : keep x ≡ true = rw same k in rw (kept, y) e
  | inr n ↦ elim (Bool-cases (keep x)) [
    | inl keeps ↦ rw (keeps, n) (find-filter p keep xs a (rw n at h) k)
    | inr drops ↦ rw drops (find-filter p keep xs a (rw n at h) k)
  ]
]

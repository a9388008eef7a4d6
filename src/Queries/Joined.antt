-- ===== src/Queries/Joined.antt =====
-- The join of tokens with their cases behind the list queries (workflow/postgres/repository.go).
use vogel.Prelude.{
  Bool, true, false, ◌&&◌, none, some, List, [], ◌∷◌, ◌++◌, ◌≡◌, ◌≢◌, inl, inr, refl, ap, filter,
  nat_eq, string_eq, Bool-cases, Option-cases, All,
}
use vogel.Case.{Case, Token}
use vogel.Store.{Db, find_case}
use vogel.Queries.{WorkItem, join_where}
use vogel.Sorting.{Pairwise}

abbrev pub OtherToken : WorkItem → WorkItem → Type 0
OtherToken a b = a.token.id ≢ b.token.id

-- The primary key of workflow_token.
abbrev pub TokensApart : List Token → Type 0
TokensApart ts = Pairwise (λ (a b : Token). a.id ≢ b.id) ts

module _ (p : Case → Token → Bool) (db : Db) where
  -- The three ways of one token through the join.
  join_where-missing :
      (t : Token) (ts : List Token)
      → find_case t.case_id db ≡ none
      → join_where p (t ∷ ts) db ≡ join_where p ts db
  unfolding join_where
  join_where-missing t ts missing = rw (missing, join_where) refl

  join_where-kept :
      (t : Token) (ts : List Token) (c : Case)
      → find_case t.case_id db ≡ some c
      → p c t ≡ true
      → join_where p (t ∷ ts) db ≡ record { case = c; token = t } ∷ join_where p ts db
  unfolding join_where
  join_where-kept t ts c found passes = rw (found, join_where, passes) refl

  join_where-left :
      (t : Token) (ts : List Token) (c : Case)
      → find_case t.case_id db ≡ some c
      → p c t ≡ false
      → join_where p (t ∷ ts) db ≡ join_where p ts db
  unfolding join_where
  join_where-left t ts c found fails = rw (found, join_where, fails) refl

  pub join_where-All :
      (P : WorkItem → Type 0) (Q : Token → Type 0) (ts : List Token)
      → ((c : Case) (t : Token) → Q t → p c t ≡ true → P (record { case = c; token = t }))
      → All Q ts
      → All P (join_where p ts db)
  unfolding join_where
  join_where-All P Q [] f h = tt
  join_where-All P Q (t ∷ ts) f h = elim (Option-cases (find_case t.case_id db)) [
    | inl missing ↦ rw (join_where-missing t ts missing) (join_where-All P Q ts f h.1)
    | inr (c, found) ↦ elim (Bool-cases (p c t)) [
      | inl passes ↦
          rw (join_where-kept t ts c found passes) (f c t h.0 passes, join_where-All P Q ts f h.1)
      | inr fails ↦ rw (join_where-left t ts c found fails) (join_where-All P Q ts f h.1)
    ]
  ]

  pub join_where-apart :
      (ts : List Token) → TokensApart ts → Pairwise OtherToken (join_where p ts db)
  unfolding join_where
  join_where-apart [] h = tt
  join_where-apart (t ∷ ts) h = elim (Option-cases (find_case t.case_id db)) [
    | inl missing ↦ rw (join_where-missing t ts missing) (join_where-apart ts h.1)
    | inr (c, found) ↦ elim (Bool-cases (p c t)) [
      | inl passes ↦ rw (join_where-kept t ts c found passes) (
        join_where-All (λ z. t.id ≢ z.token.id) (λ u. t.id ≢ u.id) ts (λ c' u n _. n) h.0,
        join_where-apart ts h.1,
      )
      | inr fails ↦ rw (join_where-left t ts c found fails) (join_where-apart ts h.1)
    ]
  ]

-- What is kept of a join by a test of the token is the join with both tests.
pub filter-join_where :
    (p : Case → Token → Bool) (q : Token → Bool) (ts : List Token) (db : Db)
    → filter (λ (i : WorkItem). q i.token) (join_where p ts db)
      ≡ join_where (λ c t. p c t && q t) ts db
unfolding join_where
filter-join_where p q [] db = refl
filter-join_where p q (t ∷ ts) db =
    let both : Case → Token → Bool = λ c t. p c t && q t in
    let rest = filter-join_where p q ts db in
    elim (Option-cases (find_case t.case_id db)) [
      | inl missing ↦
          rw (join_where-missing p db t ts missing, join_where-missing both db t ts missing) rest
      | inr (c, found) ↦ elim (Bool-cases (p c t)) [
        | inl passes ↦ elim (Bool-cases (q t)) [
          | inl kept ↦
              rw
                (
                  join_where-kept p db t ts c found passes,
                  join_where-kept both db t ts c found (rw (passes, kept) refl),
                )
                (rw kept (ap (λ z. record { case = c; token = t } ∷ z) rest))
          | inr left ↦
              rw
                (
                  join_where-kept p db t ts c found passes,
                  join_where-left both db t ts c found (rw (passes, left) refl),
                )
                (rw left rest)
        ]
        | inr fails ↦
            rw
              (
                join_where-left p db t ts c found fails,
                join_where-left both db t ts c found (rw fails refl),
              )
              rest
      ]
    ]

pub filter-none :
    (q : WorkItem → Bool) (xs ys : List WorkItem)
    → All (λ z. q z ≡ false) xs
    → filter q (xs ++ ys) ≡ filter q ys
filter-none q [] ys h = refl
filter-none q (x ∷ xs) ys h = rw h.0 (filter-none q xs ys h.1)

pub filter-every :
    (q : WorkItem → Bool) (xs : List WorkItem) → All (λ z. q z ≡ true) xs → filter q xs ≡ xs
filter-every q [] h = refl
filter-every q (x ∷ xs) h = rw h.0 (ap (λ z. x ∷ z) (filter-every q xs h.1))

-- ===== src/Calendar/Count.antt =====
-- BusinessDays: which day it finds, and when it gives up.
use vogel.Prelude.{
  ℕ, zero, suc, ◌+◌, ◌*◌, ◌<◌, ltb, leb, true, false, Option, some, ◌≡◌, ◌⊎◌, refl, subst, arith,
  inl, inr, Bool-cases, Option-cases, pos, nat_eq,
}
use vogel.Errors.{Err, ok, err, Ensures, Ensures-bind, Ensures-if, cases-of_result, Only, Only-bind}
use vogel.Calendar.{
  Date, Dates, max_gap_days, Holidays, is_business_day, context_error, count_days, business_days,
}

module _ (t : Dates) (h : Option Holidays) (first : Date) where
  -- The date `k` days after the first.
  abbrev pub day_at : ℕ → Date
  day_at zero = first
  day_at (suc k) = t.next (day_at k)

  abbrev pub Opens : ℕ → Type 0
  Opens k = is_business_day t h (day_at k) ≡ ok true

  abbrev pub Closed : ℕ → Type 0
  Closed k = is_business_day t h (day_at k) ≡ ok false

  -- `k` days after the first, `c` business days have gone by, of which the last is the day `a`.
  pub data Passed : ℕ → ℕ → ℕ → Type 0 where
    none_yet : Passed zero zero zero
    opens : {k c a : ℕ} → Passed k c a → Opens (suc k) → Passed (suc k) (suc c) (suc k)
    closed : {k c a : ℕ} → Passed k c a → Closed (suc k) → Passed (suc k) c a

  -- The date of the `n`-th business day after the first.
  abbrev pub IsNth : ℕ → Date → Type 0
  IsNth n d = (k : ℕ) × (d ≡ day_at k) × Passed k n k

  -- One more closed day.
  Closed-more :
      (a gap : ℕ)
      → ((m : ℕ) → m < gap → Closed (a + suc m))
      → Closed (suc (a + gap))
      → (m : ℕ) → m < suc gap
      → Closed (a + suc m)
  Closed-more a gap old new m below = elim (Bool-cases (ltb m gap)) [
    | inl y ↦ old m (ground arith)
    | inr n ↦ let last : suc (a + gap) ≡ a + suc m = ground arith in subst Closed last new
  ]

  module _ (ctx : ℕ → Option Err) (n : ℕ) where
    -- Where the search for the `n`-th business day fails: the context has the error, or the holidays
    -- answer one of the days with it, or it is the error of a year without a business day, and 366
    -- closed days in a row have gone by before the `n`-th business day.
    abbrev pub Explained : Err → Type 0
    Explained x =
        ((k : ℕ) × (ctx k ≡ some x))
        ⊎ ((k : ℕ) × (is_business_day t h (day_at (suc k)) ≡ err x))
        ⊎ ((x ≡ Err.no_business_day)
            × (a : ℕ) × (c : ℕ) × (c < n)
            × Passed (a + max_gap_days) c a
            × ((m : ℕ) → m < max_gap_days → Closed (a + suc m)))

    context-Explained : (k : ℕ) → Only Explained (context_error (ctx k))
    context-Explained k = elim (Option-cases (ctx k)) [
      | inl fine ↦ rw fine tt
      | inr (x, over) ↦ rw over (inl (k, over))
    ]

    count_days-IsNth :
        (fuel k a counted gap : ℕ)
        → Passed k counted a
        → k ≡ a + gap
        → ((m : ℕ) → m < gap → Closed (a + suc m))
        → gap < max_gap_days
        → (counted < n) ⊎ ((gap ≡ 0) × (counted ≡ n))
        → max_gap_days * n < fuel + max_gap_days * counted + gap
        → Ensures Explained (IsNth n) (count_days t ctx h n fuel k (day_at k) counted gap)
    unfolding count_days
    count_days-IsNth zero k a counted gap passed at run few left enough = ground arith
    count_days-IsNth (suc fuel) k a counted gap passed at run few left enough =
        Ensures-if Explained (IsNth n) (ltb counted n) _ _
          (λ more.
            Only-bind Explained (IsNth n) (context_error (ctx k)) _ (context-Explained k) λ _ _.
              elim (cases-of_result (is_business_day t h (t.next (day_at k)))) [
                | inr (x, e) ↦ rw e (inr (inl (k, e)))
                | inl (true, e) ↦ rw e (
                    count_days-IsNth fuel (suc k) (suc k) (suc counted) 0 (opens passed e)
                      (omega arith) (λ m below. absurd (omega arith)) (omega arith) (ground arith)
                      (ground arith))
                | inl (false, e) ↦ rw e (
                    let closed_now : Closed (suc (a + gap)) =
                      subst (λ (x : ℕ). Closed (suc x)) at e in
                    let longer = Closed-more a gap run closed_now in
                    let further : Passed (suc k) counted a = closed passed e in
                    Ensures-if Explained (IsNth n) (leb max_gap_days (suc gap)) _ _
                      (λ full.
                        let year : suc k ≡ a + max_gap_days = ground arith in
                        inr (
                          inr (
                            refl,
                            a,
                            counted,
                            ground arith,
                            subst (λ (i : ℕ). Passed i counted a) year further,
                            λ m below. longer m (ground arith),
                          )))
                      (λ short.
                        count_days-IsNth fuel (suc k) a counted (suc gap) further (omega arith)
                          longer (ground arith) (ground arith) (ground arith)))
              ])
          (λ done.
            let stands : (gap ≡ 0) × (counted ≡ n) = ground arith in
            let here : a ≡ k = omega (arith, at, stands.0) in
            (
              k,
              refl,
              subst (λ (x : ℕ). Passed k x k) stands.1 (subst (Passed k counted) here passed),
            ))

-- The deadline of `n` business days, where `n` is at least 1 and there is a location, is the start of
-- the day after the n-th business day that follows the day of `from` there, whatever weekends and
-- holidays lie between. It fails only with an error that the context has or that the holidays answer
-- one of the days after the first with, or with the error of a year without a business day, where
-- fewer than n business days and then 366 closed days in a row have gone by; the loop always ends.
pub business_days-IsNth :
    (t : Dates) (h : Option Holidays) (ctx : ℕ → Option Err) (n loc from : ℕ)
    → Ensures
        (Explained t h (t.date_in loc from) ctx (suc n))
        (λ due.
          (last : Date) × (due ≡ t.start_in loc (t.next last))
          × IsNth t h (t.date_in loc from) (suc n) last)
        (business_days t (pos (suc n)) (some loc) h ctx from)
unfolding business_days
business_days-IsNth t h ctx n loc from =
    Ensures-bind (Explained t h (t.date_in loc from) ctx (suc n))
      (IsNth t h (t.date_in loc from) (suc n)) _ _ _
      (count_days-IsNth t h (t.date_in loc from) ctx (suc n) (suc (suc n * max_gap_days)) 0 0 0 0
        none_yet (omega arith) (λ m below. absurd (omega arith)) (omega arith) (inl (omega arith))
        (omega arith))
      (λ last _ nth. (last, refl, nth))

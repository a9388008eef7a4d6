-- ===== src/Calendar.antt =====
-- workflow/calendar/calendar.go: deadlines in business days. Civil dates and time zones are Go's
-- package time, a parameter; an instant is a number, as elsewhere.
pub mod Count
pub mod Tests
use vogel.Prelude.{
  ℕ, zero, suc, ◌+◌, ◌*◌, ltb, leb, String, Bool, true, false, not, ◌||◌, Option, none, some, List,
  [], ◌∷◌, ◌≡◌, ◌==◌, string_eq, nat_eq, if◌then◌else◌, ℤ, pos, negsuc,
}
use vogel.Errors.{Err, Result, ok, err, ◌>>=◌, ◌>>◌}
use vogel.Engine.{DueInput}

pub record Date : Type 0 where
  pub year : ℤ
  pub month : ℕ
  pub day : ℕ

-- What the package takes from package time: the date after a date, its weekday with Sunday as 0, the
-- date of an instant in a location, and the instant at which a date starts there.
pub record Dates : Type 0 where
  pub next : Date → Date
  pub weekday : Date → ℕ
  pub date_in : ℕ → ℕ → Date
  pub start_in : ℕ → Date → ℕ

abbrev pub max_gap_days : ℕ
max_gap_days = 366

abbrev pub Holidays : Type 0
Holidays = Date → Result Bool

abbrev pub context_error : Option Err → Result (Unit {0})
context_error none = ok tt
context_error (some x) = err x

-- The rest of a round, after the day has been asked about.
abbrev pub after_day : Bool → ℕ → Result Date → Result Date → Result Date
after_day business gap forward onward =
    if business
    then forward
    else if leb max_gap_days (suc gap)
    then err Err.no_business_day
    else onward

module _ (t : Dates) where
  abbrev weekend : Date → Bool
  weekend d = t.weekday d == 6 || t.weekday d == 0

  abbrev asked : Option Holidays → Date → Result Bool
  asked none d = ok true
  asked (some h) d = do holiday ← h d; ok (not holiday)

  -- isBusinessDay
  unfoldable pub is_business_day : Option Holidays → Date → Result Bool
  is_business_day h d = if weekend d then ok false else asked h d

  -- The loop of BusinessDays, in its round `k`; `ctx k` is the error of the context then.
  unfoldable pub count_days :
      (ctx : ℕ → Option Err) (h : Option Holidays) (n : ℕ) → ℕ → ℕ → Date → ℕ → ℕ → Result Date
  count_days ctx h n zero k day counted gap = err Err.out_of_fuel
  count_days ctx h n (suc fuel) k day counted gap =
      let forward = count_days ctx h n fuel (suc k) (t.next day) (suc counted) 0 in
      let onward = count_days ctx h n fuel (suc k) (t.next day) counted (suc gap) in
      let round =
        context_error (ctx k)
        >> (is_business_day h (t.next day) >>= λ business. after_day business gap forward onward) in
      if ltb counted n then round else ok day

  -- BusinessDays, applied to a context and an instant. No location is `none`.
  unfoldable pub business_days : ℤ → Option ℕ → Option Holidays → (ℕ → Option Err) → ℕ → Result ℕ
  business_days (pos (suc n)) (some loc) h ctx from = do
    last ← count_days ctx h (suc n) (suc (suc n * max_gap_days)) 0 (t.date_in loc from) 0 0
    ok (t.start_in loc (t.next last))
  business_days (pos (suc n)) none h ctx from = err Err.no_location
  business_days _ loc h ctx from = err Err.days_below_one

-- Rules.Due: a rule with no function, or a nil one, is unknown.
unfoldable pub due : List (String × Option (ℕ → Result ℕ)) → DueInput → Result ℕ
due [] i = err Err.unknown_deadline_rule
due ((name, fn) ∷ rules) i = elim (name == i.rule) [
  | false ↦ due rules i
  | true ↦ elim fn [ none ↦ err Err.unknown_deadline_rule | some f ↦ f i.from ]
]

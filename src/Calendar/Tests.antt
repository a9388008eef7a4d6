-- ===== src/Calendar/Tests.antt =====
-- Tests of the business calendar on a simple one, where dates are counted from a Sunday.
use vogel.Prelude.{ℕ, suc, ◌%◌, none, some, ◌≡◌, refl, ◌==◌, nat_eq, pos}
use vogel.Errors.{ok, Ensures}
use vogel.Calendar.{Date, Dates, Holidays, is_business_day, count_days, business_days}
use vogel.Calendar.Count.{Explained, IsNth, business_days-IsNth}

abbrev date : ℕ → Date
date n = record { year = pos 2026; month = 3; day = n }

abbrev plain : Dates
plain = record {
  next = λ d. date (suc d.day);
  weekday = λ d. d.day % 7;
  date_in = λ loc from. date from;
  start_in = λ loc d. d.day;
}

-- Tuesday the 9th.
abbrev holiday : Holidays
holiday d = ok (d.day == 9)

-- From Thursday the 4th, three business days are Friday, Monday and Wednesday the 10th.
three_days : business_days plain (pos 3) (some 0) (some holiday) (λ k. none) 4 ≡ ok 11
unfolding business_days count_days is_business_day
three_days = refl

business_days-IsNth_example :
    Ensures
      (Explained plain (some holiday) (date 4) (λ k. none) 3)
      (λ due.
        (last : Date) × (due ≡ plain.start_in 0 (plain.next last))
        × IsNth plain (some holiday) (date 4) 3 last)
      (business_days plain (pos 3) (some 0) (some holiday) (λ k. none) 4)
business_days-IsNth_example = business_days-IsNth plain (some holiday) (λ k. none) 2 0 4

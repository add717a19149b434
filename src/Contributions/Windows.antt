-- ===== src/Contributions/Windows.antt =====
-- The windows of periods in `contribution-period.ts`.
use financial_os.Base.{ℕ, Bool, false, leb, ◌≡◌, ◌≤◌, ◌<◌, refl, arith}
use financial_os.Calendar.{add_days, add_months, add_years}
use financial_os.Calendar.Laws.{
  IsLaterBy, add_days-IsLaterBy, add_month-IsLaterBy, add_quarter-IsLaterBy, add_year-IsLaterBy,
}
use financial_os.Profiles.Membership.{Instant}
use financial_os.Store.{PeriodLength, weekly, monthly, quarterly, yearly}

pub record PeriodWindow : Type 0 where
  pub start_date : Instant
  pub end_date : Instant

unfoldable pub period_end_date : Instant → PeriodLength → Instant
period_end_date start weekly = add_days start 7
period_end_date start monthly = add_months start 1
period_end_date start quarterly = add_months start 3
period_end_date start yearly = add_years start 1

abbrev pub first_period_window : Instant → PeriodLength → PeriodWindow
first_period_window start period_length = record {
  start_date = start;
  end_date = period_end_date start period_length;
}

abbrev pub next_period_window : Instant → PeriodLength → PeriodWindow
next_period_window previous_end period_length = record {
  start_date = previous_end;
  end_date = period_end_date previous_end period_length;
}

abbrev pub is_period_due : Instant → Instant → Bool
is_period_due end_date now = leb end_date now

-- The bounds of a period of some length, in days.
abbrev pub fewest_days : PeriodLength → ℕ
fewest_days weekly = 7
fewest_days monthly = 28
fewest_days quarterly = 89
fewest_days yearly = 365

abbrev pub most_days : PeriodLength → ℕ
most_days weekly = 7
most_days monthly = 31
most_days quarterly = 92
most_days yearly = 366

-- A period ends a whole number of days after its start, at the same time of day: 7 for a week, 28 to
-- 31 for a month, 89 to 92 for a quarter, and 365 or 366 for a year.
pub period_end_date-IsLaterBy :
    (start : Instant) (period_length : PeriodLength)
    → IsLaterBy start
        (fewest_days period_length)
        (most_days period_length)
        (period_end_date start period_length)
unfolding period_end_date
period_end_date-IsLaterBy start weekly = add_days-IsLaterBy start 7
period_end_date-IsLaterBy start monthly = add_month-IsLaterBy start
period_end_date-IsLaterBy start quarterly = add_quarter-IsLaterBy start
period_end_date-IsLaterBy start yearly = add_year-IsLaterBy start

-- Periods do not end before they begin: the next window starts where the last one ended and ends
-- later, so that it is not due when it opens.
pub next_window_lem :
    (end_date : Instant) (period_length : PeriodLength)
    → let w = next_period_window end_date period_length in
      (w.start_date ≡ end_date)
      × (w.start_date < w.end_date)
      × (is_period_due w.end_date w.start_date ≡ false)
next_window_lem end_date period_length =
    let (days, at, low, high) = period_end_date-IsLaterBy end_date period_length in
    let some_days : 1 ≤ days = positive period_length days low in
    let later : end_date < period_end_date end_date period_length = omega (arith, at, some_days) in
    (refl, later, ground arith)
  where
    positive : (l : PeriodLength) (days : ℕ) → fewest_days l ≤ days → 1 ≤ days
    positive weekly days h = omega arith
    positive monthly days h = omega arith
    positive quarterly days h = omega arith
    positive yearly days h = omega arith

-- ===== src/Calendar.antt =====
-- The UTC calendar behind JavaScript's `Date`: an instant is in milliseconds since 1970, and the
-- setters `setUTCDate`, `setUTCMonth` and `setUTCFullYear` carry what is out of range over into the
-- next month or year, as ECMAScript's `MakeDay` does. Months and days count from 0, and a year is
-- given by its distance from 1970.
pub mod Laws
use financial_os.Base.{
  ℕ, zero, suc, ◌+◌, ◌-◌, ◌*◌, ◌/◌, ◌%◌, Bool, true, false, not, ◌||◌, ◌&&◌, if◌then◌else◌, ltb,
  ◌==◌,
}
use financial_os.Profiles.Membership.{Instant}

abbrev pub ms_per_day : ℕ
ms_per_day = 86_400_000

unfoldable pub is_leap : ℕ → Bool
is_leap y = (y % 4 == 0 && not (y % 100 == 0)) || y % 400 == 0

unfoldable pub year_length : ℕ → ℕ
unfolding is_leap
year_length k = if is_leap (1970 + k) then 366 else 365

unfoldable pub month_length : ℕ → ℕ → ℕ
month_length k m =
    if m == 1
    then (if is_leap (1970 + k) then 29 else 28)
    else if m == 3 || m == 5 || m == 8 || m == 10
    then 30
    else 31

-- The days before a year, and before a month in its year.
unfoldable pub year_start : ℕ → ℕ
year_start zero = 0
year_start (suc k) = year_start k + year_length k

unfoldable pub month_start : ℕ → ℕ → ℕ
month_start k zero = 0
month_start k (suc m) = month_start k m + month_length k m

-- The day number of a month of a year, the month possibly beyond December, and a day of it.
unfoldable pub make_day : ℕ → ℕ → ℕ → ℕ
make_day k m d = let y = k + m / 12 in year_start y + month_start y (m % 12) + d

pub record Civil : Type 0 where
  pub year : ℕ
  pub month : ℕ
  pub day : ℕ

-- The month that the day `d` of a year falls in, from month `m` on; 12 of fuel is a year.
unfoldable pub find_month : ℕ → ℕ → ℕ → ℕ → Civil
find_month k zero m d = record { year = k; month = m; day = d }
find_month k (suc fuel) m d = elim (ltb d (month_length k m)) [
  | true ↦ record { year = k; month = m; day = d }
  | false ↦ find_month k fuel (suc m) (d - month_length k m)
]

-- The year that a day falls in, from year `k` on. Every round takes a year's days away, so the
-- number of the day is fuel enough.
unfoldable pub find_year : ℕ → ℕ → ℕ → Civil
find_year zero k d = find_month k 12 0 d
find_year (suc fuel) k d = elim (ltb d (year_length k)) [
  | true ↦ find_month k 12 0 d
  | false ↦ find_year fuel (suc k) (d - year_length k)
]

unfoldable pub civil_of : Instant → Civil
civil_of t = let days = t / ms_per_day in find_year days 0 days

-- The instant on another day, at the same time of day.
abbrev pub on_day : Instant → ℕ → Instant
on_day t day = day * ms_per_day + t % ms_per_day

unfoldable pub add_days : Instant → ℕ → Instant
add_days t n = let c = civil_of t in on_day t (make_day c.year c.month (c.day + n))

unfoldable pub add_months : Instant → ℕ → Instant
add_months t n = let c = civil_of t in on_day t (make_day c.year (c.month + n) c.day)

unfoldable pub add_years : Instant → ℕ → Instant
add_years t n = let c = civil_of t in on_day t (make_day (c.year + n) c.month c.day)

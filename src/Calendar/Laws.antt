-- ===== src/Calendar/Laws.antt =====
-- The day number of a date, and what days, months and years add to it.
use financial_os.Base.{
  ℕ, zero, suc, ◌+◌, ◌-◌, ◌*◌, ◌/◌, ◌%◌, ◌≤◌, ◌<◌, ◌≡◌, refl, sym, ap, subst, ◌∙◌, ltb, leb,
  if◌then◌else◌, arith, Bool-cases, inl, inr,
}
use financial_os.Profiles.Membership.{Instant}
use financial_os.Calendar.{
  ms_per_day, is_leap, year_length, month_length, year_start, month_start, make_day, Civil,
  find_month, find_year, civil_of, on_day, add_days, add_months, add_years,
}

pub month_length_bounds : (k m : ℕ) → (28 ≤ month_length k m) × (month_length k m ≤ 31)
unfolding month_length
month_length_bounds k m = ground arith

-- The months of a year.
months_of_year : (k : ℕ) → month_start k 12 ≡ year_length k
unfolding month_start month_length year_length
months_of_year k = ground arith

month_start-suc : (k m : ℕ) → month_start k (suc m) ≡ month_start k m + month_length k m
unfolding month_start
month_start-suc k m = refl

month_start-zero : (k : ℕ) → month_start k 0 ≡ 0
unfolding month_start
month_start-zero k = refl

year_start-suc : (k : ℕ) → year_start (suc k) ≡ year_start k + year_length k
unfolding year_start
year_start-suc k = refl

-- The next month starts when a month is over, December included.
make_day-month :
    (k m d : ℕ) → make_day k (m + 1) d ≡ make_day k m d + month_length (k + m / 12) (m % 12)
unfolding make_day
make_day-month k m d = elim (Bool-cases (ltb (m % 12) 11)) [
  | inl within ↦
      let same : (m + 1) / 12 ≡ m / 12 = ground arith in
      let next : (m + 1) % 12 ≡ suc (m % 12) = ground arith in
      rw (same, next, month_start-suc) (omega arith)
  | inr december ↦
      let last : m % 12 ≡ 11 = ground arith in
      let same : k + (m + 1) / 12 ≡ suc (k + m / 12) = ground arith in
      let next : (m + 1) % 12 ≡ 0 = ground arith in
      let year : month_start (k + m / 12) 11 + month_length (k + m / 12) 11
          ≡ year_length (k + m / 12) =
        sym (month_start-suc _ 11) ∙ months_of_year (k + m / 12) in
      let none : month_start (suc (k + m / 12)) 0 ≡ 0 = month_start-zero _ in
      rw (same, next, last, year_start-suc, none) (omega (arith, year))
]

find_month_lem :
    (k fuel m d : ℕ)
    → month_start k m + d < month_start k (m + fuel)
    → let c = find_month k fuel m d in
      (c.year ≡ k) × (month_start k c.month + c.day ≡ month_start k m + d) × (c.month < m + fuel)
unfolding find_month
find_month_lem k zero m d h =
    let same : m + 0 ≡ m = omega arith in let h' = rw same at h in absurd (omega arith)
find_month_lem k (suc fuel) m d h = elim (Bool-cases (ltb d (month_length k m))) [
  | inl here ↦ rw (find_month, here) (refl, refl, omega arith)
  | inr later ↦
      let same : m + suc fuel ≡ suc m + fuel = omega arith in
      let long : month_length k m ≤ d = ground arith in
      let there : month_start k (suc m) + (d - month_length k m) ≡ month_start k m + d =
        omega (arith, month_start-suc k m) in
      let rest = find_month_lem k fuel (suc m) (d - month_length k m) (rw (there, sym same) h) in
      rw (find_month, later, same) (rest.0, rest.1 ∙ there, rest.2)
]

abbrev pub IsDateOf : ℕ → Civil → Type 0
IsDateOf d c = (year_start c.year + month_start c.year c.month + c.day ≡ d) × (c.month < 12)

-- A day of the year `k` is found in it.
found_in_year : (k d : ℕ) → d < year_length k → IsDateOf (year_start k + d) (find_month k 12 0 d)
found_in_year k d h =
    let zeroth = month_start-zero k in
    let year = months_of_year k in
    let (e, at, low) = find_month_lem k 12 0 d (omega (arith, h, zeroth, year)) in
    rw e (omega (arith, at, zeroth), low)

pub year_length_bounds : (k : ℕ) → (365 ≤ year_length k) × (year_length k ≤ 366)
unfolding year_length
year_length_bounds k = ground arith

find_year_lem : (fuel k d : ℕ) → d ≤ fuel → IsDateOf (year_start k + d) (find_year fuel k d)
unfolding find_year
find_year_lem zero k d h = let (low, high) = year_length_bounds k in found_in_year k d (omega arith)
find_year_lem (suc fuel) k d h = elim (Bool-cases (ltb d (year_length k))) [
  | inl here ↦ rw (find_year, here) (found_in_year k d (ground arith))
  | inr later ↦
      let (low, high) = year_length_bounds k in
      let long : year_length k ≤ d = ground arith in
      let there : year_start k + d ≡ year_start (suc k) + (d - year_length k) =
        omega (arith, year_start-suc k) in
      rw (find_year, later, there) (find_year_lem fuel (suc k) (d - year_length k) (omega arith))
]

zero_add : (n : ℕ) → 0 + n ≡ n
zero_add n = omega arith

pub civil_of_lem : (t : Instant) → IsDateOf (t / ms_per_day) (civil_of t)
unfolding civil_of year_start
civil_of_lem t =
    subst (λ d. IsDateOf d (civil_of t)) (zero_add (t / ms_per_day))
      (find_year_lem (t / ms_per_day) 0 (t / ms_per_day) (omega arith))

-- The leap day that stands before the month `m` of a year.
abbrev leap_before : ℕ → ℕ → ℕ
leap_before k m = if leb 2 m then (if is_leap (1970 + k) then 1 else 0) else 0

month_length-next :
    (k m : ℕ)
    → month_length (suc k) m + leap_before k (suc m) + leap_before (suc k) m
      ≡ month_length k m + leap_before (suc k) (suc m) + leap_before k m
unfolding month_length
month_length-next k m = ground arith

month_start-next :
    (k m : ℕ) → month_start (suc k) m + leap_before k m ≡ month_start k m + leap_before (suc k) m
unfolding month_start
month_start-next k zero = refl
month_start-next k (suc m) =
    let before = month_start-next k m in
    let lengths = month_length-next k m in omega (arith, before, lengths)

-- Three months in a row have 89 to 92 days.
quarter_bounds :
    (k j l m : ℕ)
    → (89 ≤ month_length k (m % 12) + month_length j ((m + 1) % 12) + month_length l ((m + 2) % 12))
      × (month_length k (m % 12) + month_length j ((m + 1) % 12) + month_length l ((m + 2) % 12)
          ≤ 92)
unfolding month_length
quarter_bounds k j l m = ground arith

same_instant : (t : Instant) → t / ms_per_day * ms_per_day + t % ms_per_day ≡ t
same_instant t = omega arith

-- A setter that adds `n` days to the date adds them to the instant.
later_by : (t day n : ℕ) → day ≡ t / ms_per_day + n → on_day t day ≡ t + n * ms_per_day
later_by t day n h = rw h (omega arith)

make_day-civil :
    (t : Instant) → let c = civil_of t in make_day c.year c.month c.day ≡ t / ms_per_day
unfolding make_day
make_day-civil t =
    let (at, low) = civil_of_lem t in
    let none : (civil_of t).year + (civil_of t).month / 12 ≡ (civil_of t).year =
      omega (arith, low) in
    let same : (civil_of t).month % 12 ≡ (civil_of t).month = omega (arith, low) in
    rw (none, same) at

-- What is added to an instant: a number of days within bounds.
abbrev pub IsLaterBy : Instant → ℕ → ℕ → Instant → Type 0
IsLaterBy t low high t' = (days : ℕ) × (t' ≡ t + days * ms_per_day) × (low ≤ days) × (days ≤ high)

pub add_days-IsLaterBy : (t n : ℕ) → IsLaterBy t n n (add_days t n)
unfolding add_days make_day
add_days-IsLaterBy t n =
    let c = civil_of t in
    let add_day : make_day c.year c.month (c.day + n) ≡ t / ms_per_day + n =
      omega (arith, make_day-civil t) in
    (n, later_by t _ n (add_day), omega arith, omega arith)

pub add_month-IsLaterBy : (t : Instant) → IsLaterBy t 28 31 (add_months t 1)
unfolding add_months
add_month-IsLaterBy t =
    let c = civil_of t in
    let (low, high) = month_length_bounds (c.year + c.month / 12) (c.month % 12) in
    (
      month_length (c.year + c.month / 12) (c.month % 12),
      later_by t _ _ (
          make_day-month c.year c.month c.day
          ∙ ap (λ d. d + month_length (c.year + c.month / 12) (c.month % 12)) (make_day-civil t)),
      low,
      high,
    )

pub add_quarter-IsLaterBy : (t : Instant) → IsLaterBy t 89 92 (add_months t 3)
unfolding add_months
add_quarter-IsLaterBy t =
    let c = civil_of t in
    let k = c.year + c.month / 12 in
    let j = c.year + (c.month + 1) / 12 in
    let l = c.year + (c.month + 2) / 12 in
    let (low, high) = quarter_bounds k j l c.month in
    let first = make_day-month c.year c.month c.day in
    let two : c.month + 1 + 1 ≡ c.month + 2 = omega arith in
    let three : c.month + 2 + 1 ≡ c.month + 3 = omega arith in
    let second = rw two at (make_day-month c.year (c.month + 1) c.day) in
    let third = rw three at (make_day-month c.year (c.month + 2) c.day) in
    (
      month_length k (c.month % 12)
          + month_length j ((c.month + 1) % 12)
          + month_length l ((c.month + 2) % 12),
      later_by t _ _ (omega (arith, make_day-civil t, first, second, third)),
      low,
      high,
    )

abbrev year_step : ℕ → ℕ → ℕ
year_step k m = year_length k + leap_before (suc k) m - leap_before k m

year_step_bounds :
    (k m : ℕ)
    → (365 ≤ year_step k m)
      × (year_step k m ≤ 366)
      × (leap_before k m ≤ year_length k + leap_before (suc k) m)
unfolding year_length
year_step_bounds k m = ground arith

pub add_year-IsLaterBy : (t : Instant) → IsLaterBy t 365 366 (add_years t 1)
unfolding add_years make_day
add_year-IsLaterBy t =
    let c = civil_of t in
    let (at, in_year) = civil_of_lem t in
    let (low, high, less) = year_step_bounds c.year c.month in
    let zeroth : c.year + 1 + c.month / 12 ≡ suc c.year = omega (arith, in_year) in
    let same : c.month % 12 ≡ c.month = omega (arith, in_year) in
    let day : make_day (c.year + 1) c.month c.day ≡ t / ms_per_day + year_step c.year c.month =
      rw (zeroth, same)
        (omega (arith, at, less, month_start-next c.year c.month, year_start-suc c.year)) in
    (year_step c.year c.month, later_by t _ _ day, low, high)

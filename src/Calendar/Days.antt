-- ===== src/Calendar/Days.antt =====
-- The calendar date of a day number, which JavaScript's `Date` tells by `getUTCFullYear`,
-- `getUTCMonth` and `getUTCDate`.
use living_cost_manager.Prelude.{
  ℕ, zero, suc, ◌+◌, ◌-◌, ◌*◌, ◌/◌, ◌%◌, ◌≤◌, ◌<◌, ltb, if◌then◌else◌, ◌≡◌, refl, arith,
}
use living_cost_manager.Calendar.{
  CivilDate, civil, days_before_year, days_before_month, month_start, day_number,
}

-- the year is one of three near the mean
unfoldable pub year_of_day : ℕ → ℕ
year_of_day n =
    let guess = n * 400 / 146097 in
    if ltb (days_before_year (guess + 1)) n
    then guess + 1
    else if ltb (days_before_year guess) n
    then guess
    else guess - 1

-- the last of the first `m + 1` months, from 0, that begins before the day `r` of the year
unfoldable pub month_of_day : ℕ → ℕ → ℕ → ℕ
month_of_day y zero r = zero
month_of_day y (suc m) r =
    let rest = month_of_day y m r in if ltb (days_before_month y (suc m)) r then suc m else rest

unfoldable pub civil_of_day : ℕ → CivilDate
civil_of_day n =
    let y = year_of_day n in
    let r = n - days_before_year y in
    let m = month_of_day y 11 r in civil y (m + 1) (r - days_before_month y m)

-- a year has 365.2425 days in the mean
mean_year :
    (y : ℕ)
    → (y * 146097 < days_before_year y * 400 + 400) × (days_before_year y * 400 < y * 146097 + 800)
unfolding days_before_year
mean_year y = (omega arith, omega arith)

first_year : days_before_year 0 ≡ 0
unfolding days_before_year
first_year = refl

pub year_of_day-bounds :
    (n : ℕ)
    → 1 ≤ n
    → (days_before_year (year_of_day n) < n) × (n ≤ days_before_year (year_of_day n + 1))
unfolding year_of_day
year_of_day-bounds n h =
    let g = n * 400 / 146097 in
    let low : g * 146097 ≤ n * 400 = omega arith in
    let high : n * 400 < (g + 1) * 146097 = omega arith in
    ground (
      arith,
      low,
      high,
      mean_year g,
      mean_year (g + 1),
      mean_year (g + 2),
      mean_year (g - 1),
      first_year,
    )

pub month_of_day_le : (y m r : ℕ) → month_of_day y m r ≤ m
unfolding month_of_day
month_of_day_le y zero r = omega arith
month_of_day_le y (suc m) r = ground (arith, month_of_day_le y m r)

pub month_of_day-starts : (y m r : ℕ) → 1 ≤ r → days_before_month y (month_of_day y m r) < r
unfolding month_of_day days_before_month
month_of_day-starts y zero r h = omega arith
month_of_day-starts y (suc m) r h = ground (arith, month_of_day-starts y m r h)

month_start-civil :
    (y m d : ℕ)
    → m < 12
    → day_number (civil y (m + 1) d) ≡ days_before_year y + days_before_month y m + d
unfolding day_number month_start
month_start-civil y m d h =
    let year : (y * 12 + (m + 1 - 1)) / 12 ≡ y = omega arith in
    let month : (y * 12 + (m + 1 - 1)) % 12 ≡ m = omega arith in rw (year, month)

-- The date of a day number has that day number.
pub day_number-civil_of_day : (n : ℕ) → 1 ≤ n → day_number (civil_of_day n) ≡ n
unfolding civil_of_day
day_number-civil_of_day n h =
    let y = year_of_day n in
    let r = n - days_before_year y in
    let m = month_of_day y 11 r in
    omega (
      arith,
      year_of_day-bounds n h,
      month_of_day_le y 11 r,
      month_of_day-starts y 11 r,
      month_start-civil y m (r - days_before_month y m),
    )

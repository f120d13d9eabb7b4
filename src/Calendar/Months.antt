-- ===== src/Calendar/Months.antt =====
-- Months follow one another without gaps, so day numbers order the dates.
use native.Mathlib.Decide.{le_ind}
use native.Mathlib.Nat.{le_refl}
use living_cost_manager.Prelude.{
  ℕ, suc, ◌+◌, ◌/◌, ◌%◌, ◌≤◌, ◌<◌, ◌≡◌, refl, arith, inl, inr, ◌==◌, Bool-cases,
}
use living_cost_manager.Calendar.{
  last_day_of_month, days_before_year, days_before_month, month_length, month_start,
}

last_day_bounds : (y m : ℕ) → (28 ≤ last_day_of_month y m) × (last_day_of_month y m ≤ 31)
unfolding last_day_of_month
last_day_bounds y m = ground arith

pub month_length_bounds : (i : ℕ) → (28 ≤ month_length i) × (month_length i ≤ 31)
unfolding month_length
month_length_bounds i = last_day_bounds (i / 12) (i % 12 + 1)

pub days_before_year-suc :
    (y : ℕ) → days_before_year (suc y) ≡ days_before_year y + days_before_month y 12
unfolding days_before_year days_before_month last_day_of_month
days_before_year-suc y = ground arith

december : (y : ℕ) → days_before_month y 12 ≡ days_before_month y 11 + last_day_of_month y 12
unfolding days_before_month
december y = refl

next_month :
    (y m : ℕ) → days_before_month y (suc m) ≡ days_before_month y m + last_day_of_month y (suc m)
unfolding days_before_month
next_month y m = refl

no_days : (y : ℕ) → days_before_month y 0 ≡ 0
unfolding days_before_month
no_days y = refl

year_ends :
    (y m : ℕ)
    → m ≡ 11
    → days_before_year (suc y) + days_before_month (suc y) 0
      ≡ days_before_year y + days_before_month y m + last_day_of_month y (m + 1)
year_ends y m e = rw e (omega (arith, days_before_year-suc y, december y, no_days (suc y)))

-- the next month begins where this one ends
pub month_start-suc : (i : ℕ) → month_start (suc i) ≡ month_start i + month_length i
unfolding month_start month_length
month_start-suc i = elim (Bool-cases (i % 12 == 11)) [
  | inl last ↦
      let y : suc i / 12 ≡ suc (i / 12) = ground arith in
      let m : suc i % 12 ≡ 0 = ground arith in
      rw (y, m) (year_ends (i / 12) (i % 12) (ground arith))
  | inr more ↦
      let y : suc i / 12 ≡ i / 12 = ground arith in
      let m : suc i % 12 ≡ suc (i % 12) = ground arith in
      let n : i % 12 + 1 ≡ suc (i % 12) = omega arith in
      rw (y, m, n) (omega (arith, next_month (i / 12) (i % 12)))
]

pub month_start_mono : (i j : ℕ) → i ≤ j → month_start i ≤ month_start j
month_start_mono i j =
    le_ind (λ m. month_start i ≤ month_start m) (le_refl _)
      (λ m le ih. omega (arith, month_start-suc m)) j

-- a day of an earlier month comes before every day of a later one
pub month_start-lt :
    (i j a b : ℕ) → i < j → a ≤ month_length i → 1 ≤ b → month_start i + a < month_start j + b
month_start-lt i j a b lt ha hb = omega (arith, month_start-suc i, month_start_mono (suc i) j lt)

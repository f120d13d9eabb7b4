-- ===== src/Billing/Boundaries.antt =====
-- The boundaries of the billing periods (`serviceBillingPeriodBoundary`).
use living_cost_manager.Prelude.{
  ℕ, zero, suc, ◌+◌, ◌-◌, ◌*◌, ◌/◌, ◌%◌, ◌≤◌, ◌<◌, ◌⊎◌, ◌≡◌, arith, inl, inr,
}
use living_cost_manager.Calendar.{
  CivilDate, civil, month_index, month_length, day_number, days_before_year, days_before_month,
  last_day_of_month,
}
use living_cost_manager.Calendar.Months.{days_before_year-suc, month_length_bounds}
use living_cost_manager.Calendar.Days.{
  year_of_day, month_of_day, civil_of_day, year_of_day-bounds, month_of_day_le, month_of_day-starts,
  day_number-civil_of_day,
}
use living_cost_manager.Predictions.NextDue.{IsDay, day_number-lt}
use living_cost_manager.Subscription.{korean_midnight}
use living_cost_manager.Billing.Quotes.{korean_day, anchored_date, service_billing_period_boundary}

month_of_day-ends :
    (y m r : ℕ)
    → r ≤ days_before_month y (suc m)
    → r ≤ days_before_month y (suc (month_of_day y m r))
unfolding month_of_day
month_of_day-ends y zero r h = h
month_of_day-ends y (suc m) r h = ground (arith, h, month_of_day-ends y m r)

month_days :
    (y m : ℕ)
    → m < 12
    → days_before_month y (suc m) ≡ days_before_month y m + month_length (y * 12 + (m + 1 - 1))
unfolding days_before_month month_length
month_days y m h =
    let year : (y * 12 + (m + 1 - 1)) / 12 ≡ y = omega arith in
    let month : (y * 12 + (m + 1 - 1)) % 12 + 1 ≡ suc m = omega arith in rw (year, month)

-- the date of a day number exists
civil_of_day-IsDay : (n : ℕ) → 1 ≤ n → IsDay (civil_of_day n)
unfolding civil_of_day
civil_of_day-IsDay n h =
    let y = year_of_day n in
    let r = n - days_before_year y in
    let m = month_of_day y 11 r in
    let next : y + 1 ≡ suc y = omega arith in
    let year : days_before_year (y + 1) ≡ days_before_year y + days_before_month y 12 =
      rw next (days_before_year-suc y) in
    let in_year : r ≤ days_before_month y 12 = omega (arith, year_of_day-bounds n h, year) in
    let low = month_of_day_le y 11 r in
    let starts = month_of_day-starts y 11 r (omega (arith, year_of_day-bounds n h)) in
    let ends = month_of_day-ends y 11 r in_year in
    record {
      month_in = omega (arith, low);
      day_in = omega (arith, starts, ends, month_days y m (omega (arith, low)));
    }

anchored_date-month :
    (d : CivilDate) (months : ℕ) → month_index (anchored_date d months) ≡ month_index d + months
unfolding anchored_date
anchored_date-month d months = omega arith

anchored_date-IsDay : (d : CivilDate) (months : ℕ) → IsDay d → IsDay (anchored_date d months)
unfolding anchored_date
anchored_date-IsDay d months h =
    let i = month_index d + months in
    let same : i / 12 * 12 + (i % 12 + 1 - 1) ≡ i = omega arith in
    record {
      month_in = omega arith;
      day_in = rw same (ground (arith, month_length_bounds i, h.day_in));
    }

abbrev epoch : CivilDate
epoch = civil 1970 1 1

epoch-IsDay : IsDay epoch
unfolding month_length last_day_of_month
epoch-IsDay = record { month_in = omega arith; day_in = omega arith }

korean_day_positive : (t : ℕ) → 1 ≤ korean_day t
unfolding day_number
korean_day_positive t = omega arith

-- an instant since 1970 lies in a month of the Korean calendar since then
anchor_month : (t : ℕ) → month_index epoch ≤ month_index (civil_of_day (korean_day t))
anchor_month t =
    let n = korean_day t in
    let positive : 1 ≤ n = korean_day_positive t in
    elim (le-cases (month_index epoch) (month_index (civil_of_day n))) [
      | inl e ↦ e
      | inr e ↦
          let before =
            day_number-lt (civil_of_day n) epoch (civil_of_day-IsDay n positive) epoch-IsDay e in
          absurd (omega (arith, before, day_number-civil_of_day n positive))
    ]
  where
    le-cases : (a b : ℕ) → (a ≤ b) ⊎ (b < a)
    le-cases a b = ground arith

-- Of two boundaries of the periods of one anchor, the one more months later is later.
pub service_billing_period_boundary_mono :
    (anchor m n : ℕ)
    → 1 ≤ m
    → m < n
    → service_billing_period_boundary anchor m < service_billing_period_boundary anchor n
unfolding service_billing_period_boundary korean_midnight
service_billing_period_boundary_mono anchor m n h lt =
    let d = civil_of_day (korean_day anchor) in
    let day = civil_of_day-IsDay (korean_day anchor) (korean_day_positive anchor) in
    let since = anchor_month anchor in
    let first =
      day_number-lt epoch (anchored_date d m) epoch-IsDay (anchored_date-IsDay d m day)
        (rw (anchored_date-month d m) (omega (arith, since, h))) in
    let later =
      day_number-lt (anchored_date d m) (anchored_date d n) (anchored_date-IsDay d m day)
        (anchored_date-IsDay d n day)
        (rw (anchored_date-month d m, anchored_date-month d n) (omega (arith, lt))) in
    omega (arith, first, later)

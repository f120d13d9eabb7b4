-- ===== src/Predictions/Known.antt =====
-- A schedule that the tests of `computeNextDueDate` let through repeats real dates.
use living_cost_manager.Prelude.{
  ℕ, ◌+◌, ◌/◌, ◌%◌, ◌≤◌, ◌≡◌, Bool, true, Option, none, some, Text, refl, arith, Bool-cases, leb,
  leb→le, ◌&&◌, inl, inr,
}
use living_cost_manager.Calendar.{
  CivilDate, month_index, month_length, is_real, match_date, parse_billing_date, checked_sound,
}
use living_cost_manager.Predictions.{
  Schedule, PredictableFixedCost, schedule_of, is_whole_period, anchor_of, schedule_from,
}
use living_cost_manager.Predictions.NextDue.{IsDay, IsKnown}

pub is_real-IsDay : (d : CivilDate) → is_real d ≡ true → IsDay d
unfolding is_real month_length
is_real-IsDay d h =
    let m : (1 ≤ d.month) × (d.month ≤ 12) = (ground (arith, h), ground (arith, h)) in
    let y : month_index d / 12 ≡ d.year = omega arith in
    let n : month_index d % 12 + 1 ≡ d.month = omega arith in
    record { month_in = m; day_in = rw (y, n) (ground (arith, h), ground (arith, h)) }

and_parts : (a b : Bool) → a && b ≡ true → (a ≡ true) × (b ≡ true)
and_parts a b h = ground arith

-- A billing date is a real date, of the year 1900 or later.
pub parse_billing_date-IsDay :
    (text : Text) (d : CivilDate) → parse_billing_date text ≡ some d → IsDay d × (1900 ≤ d.year)
unfolding parse_billing_date
parse_billing_date-IsDay text d h =
    let (year, real) =
      and_parts (leb 1900 d.year) (is_real d) (checked_sound _ (match_date text) d h) in
    (is_real-IsDay d real, leb→le 1900 d.year year)

schedule_from-IsKnown :
    (tenths : ℕ) (eom : Bool) (o : Option CivilDate) (s : Schedule)
    → ((d : CivilDate) → o ≡ some d → IsDay d)
    → schedule_from tenths eom o ≡ some s
    → IsKnown s
schedule_from-IsKnown tenths eom none s real h = cc
schedule_from-IsKnown tenths eom (some d) s real h = elim (Bool-cases (is_whole_period tenths)) [
  | inr not_whole ↦ cc (rw not_whole at h)
  | inl whole ↦
      let e : s ≡ record { anchor = d; period = tenths / 10; is_end_of_month = eom } =
        ground (arith, h, whole) in
      rw e (record { anchored = real d refl; repeats = ground (arith, whole) })
]

anchor_of-IsDay : (o : Option Text) (d : CivilDate) → anchor_of o ≡ some d → IsDay d
anchor_of-IsDay none d h = cc
anchor_of-IsDay (some text) d h = (parse_billing_date-IsDay text d h).0

-- The schedule of an item has a real anchor and a period of a month at least.
pub schedule_of-IsKnown :
    (item : PredictableFixedCost) (s : Schedule) → schedule_of item ≡ some s → IsKnown s
unfolding schedule_of
schedule_of-IsKnown item s h =
    schedule_from-IsKnown item.period_tenths item.is_end_of_month
      (anchor_of item.billing_anchor_date) s (anchor_of-IsDay item.billing_anchor_date) h

-- ===== src/Predictions.antt =====
-- packages/shared/src/predictions.ts: the dates and amounts of recurring charges.
-- `from` is the local calendar date of the reference instant (`dateOnly`). A period is kept in
-- tenths of a month, as the schema admits multiples of 0.1.
pub mod NextDue
pub mod Known
use living_cost_manager.Prelude.{
  ℕ, zero, suc, ◌+◌, ◌-◌, ◌*◌, ◌/◌, ◌%◌, Bool, true, false, not, ◌&&◌, ◌||◌, Option, none, some,
  List, [], ◌∷◌, ◌++◌, Text, ltb, leb, ◌==◌, if◌then◌else◌, min, find, select, map, sort_on, sum_of,
}
use mathlib.Core.Option
use living_cost_manager.Calendar.{
  CivilDate, civil, month_index, month_length, day_number, parse_billing_date,
}

pub record PredictableFixedCost : Type 0 where
  pub id : ℕ
  pub name : Text
  pub category_id : ℕ
  pub amount : ℕ
  pub period_tenths : ℕ
  pub billing_day : ℕ
  pub is_end_of_month : Bool
  pub billing_anchor_date : Option Text

-- what a known schedule consists of
pub record Schedule : Type 0 where
  pub anchor : CivilDate
  pub period : ℕ
  pub is_end_of_month : Bool

-- `Number.isInteger(periodMonths)` and the range 1 to 120
abbrev pub is_whole_period : ℕ → Bool
is_whole_period tenths = (tenths % 10 == 0) && (leb 10 tenths && leb tenths 1200)

abbrev schedule_from : ℕ → Bool → Option CivilDate → Option Schedule
schedule_from tenths eom none = none
schedule_from tenths eom (some anchor) =
    if is_whole_period tenths
    then some (record { anchor = anchor; period = tenths / 10; is_end_of_month = eom })
    else none

abbrev anchor_of : Option Text → Option CivilDate
anchor_of none = none
anchor_of (some text) = parse_billing_date text

-- the tests at the head of `computeNextDueDate`
unfoldable pub schedule_of : PredictableFixedCost → Option Schedule
schedule_of item =
    schedule_from item.period_tenths item.is_end_of_month (anchor_of item.billing_anchor_date)

abbrev pub occurrence_index : Schedule → ℕ → ℕ
occurrence_index s n = month_index s.anchor + n * s.period

-- `occurrence(n)`
unfoldable pub occurrence : Schedule → ℕ → CivilDate
occurrence s n =
    let i = occurrence_index s n in
    civil (i / 12) (i % 12 + 1)
      (if s.is_end_of_month then month_length i else min s.anchor.day (month_length i))

-- `Math.max(0, Math.floor(elapsed / period))`: the truncated difference is 0 where `elapsed` is
-- negative
unfoldable pub first_step : Schedule → CivilDate → ℕ
first_step s base = (month_index base - month_index s.anchor) / s.period

abbrev pub is_before : CivilDate → CivilDate → Bool
is_before a b = ltb (day_number a) (day_number b)

unfoldable pub next_due : Schedule → CivilDate → CivilDate
unfolding first_step
next_due s base =
    let step = first_step s base in
    if is_before (occurrence s step) base then occurrence s (suc step) else occurrence s step

unfoldable pub compute_next_due_date : PredictableFixedCost → CivilDate → Option CivilDate
compute_next_due_date item from = elim (schedule_of item) [
  | none ↦ none
  | some s ↦ some (next_due s from)
]

-- the difference of two midnights in days
unfoldable pub get_days_until_due : PredictableFixedCost → CivilDate → Option ℕ
get_days_until_due item from = elim (compute_next_due_date item from) [
  | none ↦ none
  | some due ↦ some (day_number due - day_number from)
]

-- `Math.round(amount / periodMonths)`
unfoldable pub monthly_equivalent : PredictableFixedCost → ℕ
monthly_equivalent item =
    if item.period_tenths == 0
    then 0
    else (20 * item.amount + item.period_tenths) / (2 * item.period_tenths)

pub record RemovalSimulation : Type 0 where
  pub item_id : ℕ
  pub monthly_savings : ℕ
  pub annual_savings : ℕ

unfoldable pub simulate_removal : List PredictableFixedCost → ℕ → Option RemovalSimulation
unfolding monthly_equivalent
simulate_removal items k = elim (find (λ (i : PredictableFixedCost). i.id == k) items) [
  | none ↦ none
  | some target ↦ some (record {
    item_id = k;
    monthly_savings = monthly_equivalent target;
    annual_savings = monthly_equivalent target * 12;
  })
]

unfoldable pub next_day : CivilDate → CivilDate
next_day d =
    if ltb d.day (month_length (month_index d))
    then record d { day = d.day + 1 }
    else civil (suc (month_index d) / 12) (suc (month_index d) % 12 + 1) 1

pub record UpcomingDue : Type 0 where
  pub item : PredictableFixedCost
  pub due_date : CivilDate
  pub days_until : ℕ

abbrev upcoming : CivilDate → PredictableFixedCost → List UpcomingDue
upcoming from item = if item.amount == 0 then [] else elim (compute_next_due_date item from) [
  | none ↦ []
  | some due ↦
      record { item = item; due_date = due; days_until = day_number due - day_number from } ∷ []
]

all_upcoming : CivilDate → List PredictableFixedCost → List UpcomingDue
all_upcoming from [] = []
all_upcoming from (item ∷ items) = upcoming from item ++ all_upcoming from items

abbrev within : Option ℕ → UpcomingDue → Bool
within none d = true
within (some days) d = leb d.days_until days

unfoldable pub get_upcoming_dues :
    List PredictableFixedCost → CivilDate → Option ℕ → List UpcomingDue
unfolding all_upcoming compute_next_due_date
get_upcoming_dues items from within_days =
    sort_on (λ (d : UpcomingDue). d.days_until)
      (select (within within_days) (all_upcoming from items))

-- the loop `while (due < end)`; `none` where the fuel runs out
unfoldable pub due_loop : ℕ → Schedule → CivilDate → ℕ → Option (List CivilDate)
due_loop zero s due stop = none
due_loop (suc fuel) s due stop =
    let rest = due_loop fuel s (next_due s (next_day due)) stop in
    if ltb (day_number due) stop then Option.map (λ dates. due ∷ dates) rest else some []

pub record DueSummary : Type 0 where
  pub dues : List UpcomingDue
  pub unknown_count : ℕ

abbrev pub due_entry : CivilDate → PredictableFixedCost → CivilDate → UpcomingDue
due_entry from item date = record {
  item = item;
  due_date = date;
  days_until = day_number date - day_number from;
}

unfoldable pub add_dues :
    CivilDate → PredictableFixedCost → DueSummary → Option (List CivilDate) → Option DueSummary
add_dues from item t none = none
add_dues from item t (some dates) =
    some (record t { dues = t.dues ++ map (due_entry from item) dates })

-- the body of `for (const item of items)`
unfoldable pub add_item : CivilDate → PredictableFixedCost → DueSummary → Option DueSummary
add_item from item t = if item.amount == 0 then some t else elim (schedule_of item) [
  | none ↦ some (record t { unknown_count = t.unknown_count + 1 })
  | some s ↦ add_dues from item t (due_loop 4 s (next_due s from) (day_number from + 30))
]

unfoldable pub add_items : CivilDate → List PredictableFixedCost → DueSummary → Option DueSummary
add_items from [] t = some t
add_items from (item ∷ items) t = elim (add_item from item t) [
  | none ↦ none
  | some t' ↦ add_items from items t'
]

pub record ThirtyDayDueSummary : Type 0 where
  pub dues : List UpcomingDue
  pub total : ℕ
  pub unknown_count : ℕ
  pub monthly_normalized : ℕ

abbrev pub due_amount : UpcomingDue → ℕ
due_amount d = d.item.amount

-- the object that `buildThirtyDayDueSummary` returns
abbrev pub finish_due_summary : List PredictableFixedCost → DueSummary → ThirtyDayDueSummary
finish_due_summary items t = record {
  dues = sort_on (λ (d : UpcomingDue). d.days_until) t.dues;
  total = sum_of due_amount (sort_on (λ (d : UpcomingDue). d.days_until) t.dues);
  unknown_count = t.unknown_count;
  monthly_normalized = sum_of monthly_equivalent items;
}

unfoldable pub build_thirty_day_due_summary :
    List PredictableFixedCost → CivilDate → Option ThirtyDayDueSummary
unfolding add_dues add_item add_items due_loop monthly_equivalent next_day
build_thirty_day_due_summary items from =
    Option.map (finish_due_summary items)
      (add_items from items (record { dues = []; unknown_count = 0 }))

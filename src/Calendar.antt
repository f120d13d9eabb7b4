-- ===== src/Calendar.antt =====
-- Calendar dates: what packages/shared/src/billing.ts, predictions.ts, workspaceAggregation.ts and
-- apps/web/app/lib/planningTime.ts use of the proleptic Gregorian calendar of JavaScript's `Date`.
-- A month is its index `year * 12 + (month - 1)`; `Date` normalises a month out of range to such
-- an index. A day number counts the days from 0000-01-01, which is day 1.
pub mod Months
pub mod Days
use living_cost_manager.Prelude.{
  ℕ, zero, suc, ◌+◌, ◌-◌, ◌*◌, ◌/◌, ◌%◌, Bool, true, false, not, ◌&&◌, ◌||◌, Option, none, some,
  List, [], ◌∷◌, Text, ltb, leb, ◌==◌, if◌then◌else◌, min, ◌≡◌, arith,
}

unfoldable pub is_leap : ℕ → Bool
is_leap y = if not (y % 4 == 0) then false else if not (y % 100 == 0) then true else y % 400 == 0

-- the last day of month `m`, from 1 to 12, of year `y`: `new Date(Date.UTC(y, m, 0)).getUTCDate()`
unfoldable pub last_day_of_month : ℕ → ℕ → ℕ
unfolding is_leap
last_day_of_month y m =
    if m == 2
    then (if is_leap y then 29 else 28)
    else if (m == 4) || (m == 6) || (m == 9) || (m == 11)
    then 30
    else 31

pub record CivilDate : Type 0 where
  pub year : ℕ
  pub month : ℕ
  pub day : ℕ

abbrev pub civil : ℕ → ℕ → ℕ → CivilDate
civil y m d = record { year = y; month = m; day = d }

abbrev pub month_index : CivilDate → ℕ
month_index d = d.year * 12 + (d.month - 1)

-- the days before the year `y`, and before the month `m` (from 0) of it
unfoldable pub days_before_year : ℕ → ℕ
days_before_year y = y * 365 + (y + 3) / 4 - (y + 99) / 100 + (y + 399) / 400

unfoldable pub days_before_month : ℕ → ℕ → ℕ
days_before_month y zero = 0
days_before_month y (suc m) = days_before_month y m + last_day_of_month y (suc m)

unfoldable pub month_length : ℕ → ℕ
month_length i = last_day_of_month (i / 12) (i % 12 + 1)

-- the days before the month with index `i`
unfoldable pub month_start : ℕ → ℕ
month_start i = days_before_year (i / 12) + days_before_month (i / 12) (i % 12)

unfoldable pub day_number : CivilDate → ℕ
day_number d = month_start (month_index d) + d.day

abbrev digit? : ℕ → Bool
digit? c = leb b'0' c && leb c b'9'

abbrev digit : ℕ → ℕ
digit c = c - b'0'

-- /^(\d{4})-(\d{2})-(\d{2})$/
unfoldable pub match_date : Text → Option CivilDate
match_date (a ∷ b ∷ c ∷ d ∷ x ∷ e ∷ f ∷ y ∷ g ∷ h ∷ []) =
    if digit? a
      && (digit? b
          && (digit? c
              && (digit? d
                  && ((x == b'-')
                      && (digit? e && (digit? f && ((y == b'-') && (digit? g && digit? h))))))))
    then some (
        civil (((digit a * 10 + digit b) * 10 + digit c) * 10 + digit d) (digit e * 10 + digit f)
          (digit g * 10 + digit h))
    else none
match_date _ = none

-- a real day of the calendar, which `Date` does not roll over
unfoldable pub is_real : CivilDate → Bool
unfolding last_day_of_month
is_real d =
    (leb 1 d.month && leb d.month 12)
    && (leb 1 d.day && leb d.day (last_day_of_month d.year d.month))

abbrev pub checked : (CivilDate → Bool) → Option CivilDate → Option CivilDate
checked p none = none
checked p (some d) = if p d then some d else none

-- `billingDateSchema`: the date of a valid text
unfoldable pub parse_billing_date : Text → Option CivilDate
unfolding match_date is_real
parse_billing_date s = checked (λ d. leb 1900 d.year && is_real d) (match_date s)

-- `parseCivilDate` of planningTime.ts
unfoldable pub parse_civil_date : Text → Option CivilDate
unfolding match_date is_real
parse_civil_date s = checked (λ d. (leb 1 d.year && leb d.year 9999) && is_real d) (match_date s)

-- `clampDayToMonth`
unfoldable pub clamp_day_to_month : ℕ → ℕ → ℕ → ℕ
unfolding last_day_of_month
clamp_day_to_month y m day = min day (last_day_of_month y m)

abbrev two : ℕ → Text → Text
two n rest = (b'0' + n / 10 % 10) ∷ (b'0' + n % 10) ∷ rest

-- `civilToString`: four, two and two digits
unfoldable pub civil_to_string : CivilDate → Option Text
unfolding parse_civil_date
civil_to_string d =
    let text =
      (b'0' + d.year / 1000)
      ∷ (b'0' + d.year / 100 % 10)
      ∷ two d.year (b'-' ∷ two d.month (b'-' ∷ two d.day [])) in
    if ltb d.year 1 || ltb 9999 d.year
    then none
    else elim (parse_civil_date text) [ none ↦ none | some e ↦ some text ]

pub checked_sound :
    (p : CivilDate → Bool) (o : Option CivilDate) (d : CivilDate)
    → checked p o ≡ some d
    → p d ≡ true
checked_sound p none d h = cc
checked_sound p (some e) d h = ground arith

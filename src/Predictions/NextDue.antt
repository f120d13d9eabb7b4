-- ===== src/Predictions/NextDue.antt =====
-- The next due date is the first occurrence that is not before the reference date.
use native.Mathlib.Nat.{div-add-mod, mod-lt}
use living_cost_manager.Prelude.{
  ℕ, suc, ◌+◌, ◌-◌, ◌*◌, ◌/◌, ◌%◌, ◌≤◌, ◌<◌, ◌≡◌, arith, inl, inr, ltb, Bool-cases,
}
use living_cost_manager.Calendar.{CivilDate, month_index, month_length, day_number}
use living_cost_manager.Calendar.Months.{month_length_bounds, month_start-lt}
use living_cost_manager.Predictions.{
  Schedule, occurrence_index, occurrence, first_step, is_before, next_due,
}

-- a date that exists, by its month and day
pub record IsDay (d : CivilDate) : Type 0 where
  pub month_in : (1 ≤ d.month) × (d.month ≤ 12)
  pub day_in : (1 ≤ d.day) × (d.day ≤ month_length (month_index d))

pub record IsKnown (s : Schedule) : Type 0 where
  pub anchored : IsDay s.anchor
  pub repeats : 1 ≤ s.period

pub month_index-occurrence :
    (s : Schedule) (n : ℕ) → month_index (occurrence s n) ≡ occurrence_index s n
unfolding occurrence
month_index-occurrence s n = omega arith

pub occurrence-IsDay : (s : Schedule) (n : ℕ) → IsKnown s → IsDay (occurrence s n)
unfolding occurrence
occurrence-IsDay s n k = record {
  month_in = omega arith;
  day_in = rw same (ground (arith, month_length_bounds (occurrence_index s n), k.anchored.day_in));
}
  where
    same :
        (occurrence_index s n) / 12 * 12 + (occurrence_index s n % 12 + 1 - 1)
        ≡ occurrence_index s n
    same = omega arith

-- dates in different months compare as the months do
pub day_number-lt :
    (a b : CivilDate)
    → IsDay a
    → IsDay b
    → month_index a < month_index b
    → day_number a < day_number b
unfolding day_number
day_number-lt a b va vb lt =
    month_start-lt (month_index a) (month_index b) a.day b.day lt va.day_in.1 vb.day_in.0

module _ (s : Schedule) (k : IsKnown s) where
  -- later occurrences are later
  pub occurrence_mono :
      (m n : ℕ) → m < n → day_number (occurrence s m) < day_number (occurrence s n)
  occurrence_mono m n lt =
      day_number-lt (occurrence s m) (occurrence s n) (occurrence-IsDay s m k)
        (occurrence-IsDay s n k)
        (rw (month_index-occurrence s m, month_index-occurrence s n) (grind (arith, k.repeats)))

  quotient_bounds : (d : ℕ) → (d / s.period * s.period ≤ d) × (d < suc (d / s.period) * s.period)
  quotient_bounds d = grind (arith, k.repeats, div-add-mod d s.period, mod-lt d k.repeats)

  module _ (base : CivilDate) (real : IsDay base) where
    -- the step that the code begins with is in the month of `base` or before, its successor after
    after_base : month_index base < occurrence_index s (suc (first_step s base))
    unfolding first_step
    after_base = omega (arith, quotient_bounds (month_index base - month_index s.anchor))

    until_base : 1 ≤ first_step s base → occurrence_index s (first_step s base) ≤ month_index base
    unfolding first_step
    until_base h = grind (arith, quotient_bounds (month_index base - month_index s.anchor))

    pub earlier_steps :
        (m : ℕ) → m < first_step s base → day_number (occurrence s m) < day_number base
    earlier_steps m lt =
        day_number-lt (occurrence s m) base (occurrence-IsDay s m k) real
          (rw (month_index-occurrence s m) (grind (arith, k.repeats, until_base (omega arith))))

    pub later_step : day_number base < day_number (occurrence s (suc (first_step s base)))
    later_step =
        day_number-lt base (occurrence s (suc (first_step s base))) real
          (occurrence-IsDay s (suc (first_step s base)) k)
          (rw (month_index-occurrence s (suc (first_step s base))) after_base)

-- `n` is the first occurrence that is not before `base`.
pub record IsFirst (s : Schedule) (base : CivilDate) (n : ℕ) : Type 0 where
  pub reached : day_number base ≤ day_number (occurrence s n)
  pub first : (m : ℕ) → m < n → day_number (occurrence s m) < day_number base

-- The next due date of a known schedule is its first occurrence on or after the reference date:
-- it exists, and no occurrence on or after that date comes before it.
pub next_due-IsFirst :
    (s : Schedule) (base : CivilDate)
    → IsKnown s
    → IsDay base
    → (n : ℕ) × (next_due s base ≡ occurrence s n) × IsFirst s base n
unfolding next_due
next_due-IsFirst s base k real =
    elim (Bool-cases (is_before (occurrence s (first_step s base)) base)) [
      | inl before ↦ (
        suc (first_step s base),
        rw before,
        record {
          reached = omega (arith, later_step s k base real);
          first = λ m lt. up_to m (omega arith) (ground arith);
        },
      )
      | inr reached ↦ (
        first_step s base,
        rw reached,
        record { reached = ground arith; first = earlier_steps s k base real },
      )
    ]
  where
    up_to :
        (m : ℕ)
        → m ≤ first_step s base
        → day_number (occurrence s (first_step s base)) < day_number base
        → day_number (occurrence s m) < day_number base
    up_to m le h = elim (Bool-cases (ltb m (first_step s base))) [
      | inl lt ↦ earlier_steps s k base real m (ground arith)
      | inr ge ↦ let e : m ≡ first_step s base = ground arith in rw e h
    ]

-- There is only one first occurrence.
pub IsFirst-unique :
    (s : Schedule) (base : CivilDate) (m n : ℕ) → IsFirst s base m → IsFirst s base n → m ≡ n
IsFirst-unique s base m n f g = elim (Bool-cases (ltb m n)) [
  | inl lt ↦ absurd (omega (arith, f.reached, g.first m (ground arith)))
  | inr ge ↦ elim (Bool-cases (ltb n m)) [
    | inl gt ↦ absurd (omega (arith, g.reached, f.first n (ground arith)))
    | inr le ↦ ground arith
  ]
]

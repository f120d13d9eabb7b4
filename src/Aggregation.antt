-- ===== src/Aggregation.antt =====
-- packages/shared/src/workspaceAggregation.ts: the charges of the thirty days from today, and
-- their sums over ledgers. `today` is the Korean calendar date of the reference instant.
pub mod Window
pub mod Agreement
use living_cost_manager.Prelude.{
  ℕ, zero, suc, ◌+◌, ◌-◌, ◌*◌, ◌/◌, ◌%◌, Bool, true, false, not, ◌&&◌, ◌||◌, Option, none, some,
  List, [], ◌∷◌, ◌++◌, Text, ltb, leb, ◌==◌, if◌then◌else◌, min, length,
}
use mathlib.Core.Option
use living_cost_manager.Calendar.{CivilDate, day_number}
use living_cost_manager.Predictions.{
  Schedule, PredictableFixedCost, schedule_of, occurrence, first_step, next_due,
}

-- the length of the window `[start, end)` in days
abbrev pub window_days : ℕ
window_days = 30

-- What the loop over the occurrences has counted: the amount and the number of charges.
pub record Charged : Type 0 where
  pub due : ℕ
  pub occurrences : ℕ

-- The loop `for (;;)` over the occurrences; `none` where the fuel runs out.
pub charge_loop : ℕ → Schedule → ℕ → (start stop step : ℕ) → Charged → Option Charged
charge_loop zero s amount start stop step acc = none
charge_loop (suc fuel) s amount start stop step acc =
    let stamp = day_number (occurrence s step) in
    let next =
      if leb start stamp
      then record { due = acc.due + amount; occurrences = acc.occurrences + 1 }
      else acc in
    let rest = charge_loop fuel s amount start stop (suc step) next in
    if leb stop stamp then some acc else rest

-- The totals of `summarizeWorkspaceBudget`; `N` is the type of its floating-point sum.
pub record Summary (N : Type 0) : Type 0 where
  pub monthly_normalized_expense : N
  pub fixed_cost_count : ℕ
  pub known_schedule_count : ℕ
  pub unknown_schedule_count : ℕ
  pub due_occurrence_count : ℕ
  pub thirty_day_due : Option ℕ

-- The variables of the loop over the costs.
pub record Totals (N : Type 0) : Type 0 where
  pub monthly : N
  pub known : ℕ
  pub unknown : ℕ
  pub charged : Charged

abbrev pub nothing_charged : Charged
nothing_charged = record { due = 0; occurrences = 0 }

-- enough for the thirty days: `charge_loop_total`
abbrev pub loop_fuel : ℕ
loop_fuel = 4

-- `known === 0 && unknown > 0 ? null : due`
abbrev pub known_due : ℕ → ℕ → ℕ → Option ℕ
known_due known unknown due = if (known == 0) && ltb 0 unknown then none else some due

-- the object that `summarizeWorkspaceBudget` returns
abbrev pub finish_summary : {N : Type 0} → List PredictableFixedCost → Totals N → Summary N
finish_summary costs t = record {
  monthly_normalized_expense = t.monthly;
  fixed_cost_count = length costs;
  known_schedule_count = t.known;
  unknown_schedule_count = t.unknown;
  due_occurrence_count = t.charged.occurrences;
  thirty_day_due = known_due t.known t.unknown t.charged.due;
}

-- Floating-point numbers: zero, the sum, and the share `amount / periodMonths` of a cost.
module _ {N : Type 0} (nil : N) (add : N → N → N) (share : ℕ → ℕ → N) where
  add_share : PredictableFixedCost → N → N
  add_share cost monthly =
      if cost.period_tenths == 0
      then monthly
      else add monthly (share cost.amount cost.period_tenths)

  add_known : PredictableFixedCost → Totals N → Option Charged → Option (Totals N)
  add_known cost t none = none
  add_known cost t (some c) =
      some (record t { monthly = add_share cost t.monthly; known = t.known + 1; charged = c })

  -- the body of `for (const cost of costs)`
  add_cost : CivilDate → PredictableFixedCost → Totals N → Option (Totals N)
  add_cost today cost t =
      if cost.amount == 0
      then some (record t { monthly = add_share cost t.monthly })
      else elim (schedule_of cost) [
        | none ↦ some (record t { monthly = add_share cost t.monthly; unknown = t.unknown + 1 })
        | some s ↦ add_known cost t (
            charge_loop loop_fuel s cost.amount (day_number today) (day_number today + window_days)
              (first_step s today) t.charged)
      ]

  add_costs : CivilDate → List PredictableFixedCost → Totals N → Option (Totals N)
  add_costs today [] t = some t
  add_costs today (cost ∷ costs) t = elim (add_cost today cost t) [
    | none ↦ none
    | some t' ↦ add_costs today costs t'
  ]

  unfoldable pub summarize_workspace_budget :
      List PredictableFixedCost → CivilDate → Option (Summary N)
  unfolding add_share add_known add_cost add_costs charge_loop
  summarize_workspace_budget costs today = Option.map (finish_summary costs) (
      add_costs today costs
        (record { monthly = nil; known = 0; unknown = 0; charged = nothing_charged }))

  abbrev or_zero : Option ℕ → ℕ
  or_zero none = 0
  or_zero (some n) = n

  -- The loop of `sumWorkspaceBudgets`; the sum of the dues is a plain number until the end.
  sum_loop : List (Summary N) → Summary N → ℕ → Summary N
  sum_loop [] t due = record t {
    thirty_day_due = known_due t.known_schedule_count t.unknown_schedule_count due;
  }
  sum_loop (x ∷ xs) t due =
      sum_loop xs
        (record t {
          monthly_normalized_expense =
              add t.monthly_normalized_expense x.monthly_normalized_expense;
          fixed_cost_count = t.fixed_cost_count + x.fixed_cost_count;
          known_schedule_count = t.known_schedule_count + x.known_schedule_count;
          unknown_schedule_count = t.unknown_schedule_count + x.unknown_schedule_count;
          due_occurrence_count = t.due_occurrence_count + x.due_occurrence_count;
        })
        (due + or_zero x.thirty_day_due)

  unfoldable pub sum_workspace_budgets : List (Summary N) → Summary N
  unfolding sum_loop
  sum_workspace_budgets summaries =
      sum_loop summaries
        (record {
          monthly_normalized_expense = nil;
          fixed_cost_count = 0;
          known_schedule_count = 0;
          unknown_schedule_count = 0;
          due_occurrence_count = 0;
          thirty_day_due = some 0;
        })
        0

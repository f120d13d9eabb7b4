-- ===== src/Aggregation/Agreement.antt =====
-- The client's thirty-day list and the server's thirty-day sum count the same charges.
use living_cost_manager.Prelude.{
  ℕ, zero, suc, ◌+◌, ◌-◌, ◌*◌, ◌/◌, ◌%◌, ◌≤◌, ◌<◌, ◌≡◌, ◌⊎◌, none, some, List, [], ◌∷◌, ◌++◌, map,
  refl, ap, ◌∙◌, arith, Option-cases, ◌==◌, inl, inr, ltb, Bool-cases, length, sum_of,
  sum_of-sort_on, length-sort_on,
}
use living_cost_manager.Calendar.{CivilDate, day_number, month_index, month_length}
use living_cost_manager.Calendar.Months.{month_length_bounds, month_start-suc}
use living_cost_manager.Predictions.{
  Schedule, PredictableFixedCost, occurrence, first_step, next_due, next_day, due_loop, due_entry,
  due_amount, DueSummary, add_item, add_items, add_dues, schedule_of, UpcomingDue,
  ThirtyDayDueSummary, finish_due_summary, build_thirty_day_due_summary,
}
use living_cost_manager.Predictions.NextDue.{
  IsKnown, IsDay, IsFirst, IsFirst-unique, occurrence_mono, occurrence-IsDay, next_due-IsFirst,
}
use living_cost_manager.Predictions.Known.{schedule_of-IsKnown}
use living_cost_manager.Aggregation.{
  Totals, Summary, add_share, summarize_workspace_budget, known_due, nothing_charged,
  finish_summary, add_cost, add_costs, add_known, Charged, charge_loop, window_days, loop_fuel,
}
use living_cost_manager.Aggregation.Window.{
  charges, month_apart, charges_flat, charges_none, charge_loop_total, charges_agree,
}

-- the day after a date is a date, one day later
next_day-IsDay : (d : CivilDate) → IsDay d → IsDay (next_day d)
unfolding next_day
next_day-IsDay d v = elim (Bool-cases (ltb d.day (month_length (month_index d)))) [
  | inl within ↦ rw within (record { month_in = v.month_in; day_in = ground (arith, within) })
  | inr last ↦ rw last (record {
    month_in = omega arith;
    day_in = rw same (omega (arith, month_length_bounds (suc (month_index d))));
  })
]
  where
    same : suc (month_index d) / 12 * 12 + (suc (month_index d) % 12 + 1 - 1) ≡ suc (month_index d)
    same = omega arith

day_number-next_day : (d : CivilDate) → IsDay d → day_number (next_day d) ≡ day_number d + 1
unfolding next_day day_number
day_number-next_day d v = elim (Bool-cases (ltb d.day (month_length (month_index d)))) [
  | inl within ↦ rw within (omega arith)
  | inr last ↦ rw (last, same) (ground (arith, last, v.day_in, month_start-suc (month_index d)))
]
  where
    same : suc (month_index d) / 12 * 12 + (suc (month_index d) % 12 + 1 - 1) ≡ suc (month_index d)
    same = omega arith

-- The due date after an occurrence is the next occurrence.
pub next_due-next_day :
    (s : Schedule) (n : ℕ)
    → IsKnown s
    → next_due s (next_day (occurrence s n)) ≡ occurrence s (suc n)
next_due-next_day s n k =
    let (m, e, f) = next_due-IsFirst s (next_day (occurrence s n)) k (next_day-IsDay _ day) in
    e ∙ ap (occurrence s) (IsFirst-unique s (next_day (occurrence s n)) m (suc n) f first)
  where
    day : IsDay (occurrence s n)
    day = occurrence-IsDay s n k

    up_to : (m : ℕ) → m < suc n → day_number (occurrence s m) ≤ day_number (occurrence s n)
    up_to m lt = elim (Bool-cases (ltb m n)) [
      | inl before ↦ omega (arith, occurrence_mono s k m n (ground (arith, before)))
      | inr same ↦
          let e : m ≡ n = ground (arith, same) in
          omega (arith, ap (λ i. day_number (occurrence s i)) e)
    ]

    first : IsFirst s (next_day (occurrence s n)) (suc n)
    first = record {
      reached =
          omega (arith, day_number-next_day _ day, occurrence_mono s k n (suc n) (omega arith));
      first = λ m lt. omega (arith, day_number-next_day _ day, up_to m lt);
    }

-- The loop from the n-th occurrence lists the occurrences before the end.
due_loop_lem :
    (s : Schedule) (start stop f n bound : ℕ)
    → IsKnown s
    → f + n ≡ bound
    → start ≤ day_number (occurrence s n)
    → stop ≤ day_number (occurrence s bound)
    → (dates : List CivilDate) × (due_loop (suc f) s (occurrence s n) stop ≡ some dates)
      × (charges s start stop n + length dates ≡ charges s start stop bound)
unfolding due_loop charges
due_loop_lem s start stop zero n bound k e h end =
    let same : n ≡ bound = omega arith in ([], rw same (ground (arith, end)), rw same (omega arith))
due_loop_lem s start stop (suc f) n bound k e h end =
    elim (Bool-cases (ltb (day_number (occurrence s n)) stop)) [
      | inr done ↦ (
        [],
        rw done,
        rw (← e) (omega (arith, charges_flat s k start stop n (suc f) (ground (arith, done)))),
      )
      | inl more ↦
          let (dates, p, q) =
            due_loop_lem s start stop f (suc n) bound k (omega arith)
              (omega (arith, h, occurrence_mono s k n (suc n) (omega arith))) end in
          (
            occurrence s n ∷ dates,
            rw (more, next_due-next_day s n k, p),
            ground (arith, q, more, h),
          )
    ]

-- The two loops on one item: both end, and count the same.
loops_agree :
    (s : Schedule) (today : CivilDate) (amount : ℕ) (acc : Charged)
    → IsKnown s
    → IsDay today
    → (dates : List CivilDate) × (due_loop 4 s (next_due s today) (day_number today + 30)
        ≡ some dates)
      × (charge_loop loop_fuel s amount
            (day_number today)
            (day_number today + window_days)
            (first_step s today)
            acc
          ≡ some (record {
            due = acc.due + length dates * amount;
            occurrences = acc.occurrences + length dates;
          }))
loops_agree s today amount acc k real =
    let (n, first, f) = next_due-IsFirst s today k real in
    let (c, p, counted, past, few) = charge_loop_total s today amount acc k real in
    let ends = behind n f.reached in
    let (dates, q, e) = due_loop_lem s start stop 3 n (3 + n) k refl f.reached ends in
    let same : length dates ≡ c = omega (
      arith,
      e,
      counted,
      charges_agree s start stop (3 + n) (3 + first_step s today) k ends past,
      charges_none s k start stop n f.first,
    ) in
    (dates, rw first q, rw same p)
  where
    start : ℕ
    start = day_number today

    stop : ℕ
    stop = day_number today + window_days

    behind :
        (n : ℕ) → start ≤ day_number (occurrence s n) → stop ≤ day_number (occurrence s (3 + n))
    behind n h =
        let three : 3 + n ≡ suc (suc (suc n)) = omega arith in
        rw three (
          omega (
            arith,
            h,
            month_apart s n k,
            occurrence_mono s k (suc (suc n)) (suc (suc (suc n))) (omega arith),
          ))

sum_of-append {ℓ} :
    {A : Type ℓ} (f : A → ℕ) (xs ys : List A) → sum_of f (xs ++ ys) ≡ sum_of f xs + sum_of f ys
unfolding sum_of
sum_of-append f [] ys = omega arith
sum_of-append f (x ∷ xs) ys = omega (arith, sum_of-append f xs ys)

length-append {ℓ} : {A : Type ℓ} (xs ys : List A) → length (xs ++ ys) ≡ length xs + length ys
length-append [] ys = omega arith
length-append (x ∷ xs) ys = omega (arith, length-append xs ys)

entries_sum :
    (today : CivilDate) (item : PredictableFixedCost) (dates : List CivilDate)
    → (sum_of due_amount (map (due_entry today item) dates) ≡ length dates * item.amount)
      × (length (map (due_entry today item) dates) ≡ length dates)
unfolding sum_of
entries_sum today item [] = (omega arith, refl)
entries_sum today item (d ∷ dates) =
    let (a, b) = entries_sum today item dates in (grind (arith, a), omega (arith, b))

-- The sum is withheld where no schedule is known and one is missing.
withheld :
    (known unknown : ℕ) {due total : ℕ}
    → due ≡ total
    → ((known ≡ 0) × (1 ≤ unknown) × (known_due known unknown due ≡ none))
      ⊎ (((1 ≤ known) ⊎ (unknown ≡ 0)) × (known_due known unknown due ≡ some total))
withheld zero zero e = inr (inr refl, ground (arith, e))
withheld zero (suc n) e = inl (refl, omega arith, ground arith)
withheld (suc m) n e = inr (inl (omega arith), ground (arith, e))

-- The counters of the two loops over the items agree.
record IsSame {N : Type 0} (t : Totals N) (d : DueSummary) : Type 0 where
  unknown : t.unknown ≡ d.unknown_count
  occurrences : t.charged.occurrences ≡ length d.dues
  due : t.charged.due ≡ sum_of due_amount d.dues

module _ {N : Type 0} (nil : N) (add : N → N → N) (share : ℕ → ℕ → N) (today : CivilDate)
    (real : IsDay today) where
  item_agrees :
      (item : PredictableFixedCost) (t : Totals N) (d : DueSummary)
      → IsSame t d
      → (t' : Totals N) × (d' : DueSummary) × (add_cost nil add share today item t ≡ some t')
        × (add_item today item d ≡ some d')
        × IsSame t' d'
  unfolding add_cost add_item add_known add_dues
  item_agrees item t d same = elim (Bool-cases (item.amount == 0)) [
    | inl zero_amount ↦ (
      record t { monthly = add_share nil add share item t.monthly },
      d,
      rw zero_amount,
      rw zero_amount,
      record { unknown = same.unknown; occurrences = same.occurrences; due = same.due },
    )
    | inr charged ↦ elim (Option-cases (schedule_of item)) [
      | inl unscheduled ↦ (
        record t { monthly = add_share nil add share item t.monthly; unknown = t.unknown + 1 },
        record d { unknown_count = d.unknown_count + 1 },
        rw (charged, unscheduled),
        rw (charged, unscheduled),
        record {
          unknown = ap (λ n. n + 1) same.unknown;
          occurrences = same.occurrences;
          due = same.due;
        },
      )
      | inr (s, e) ↦
          let (dates, p, q) =
            loops_agree s today item.amount t.charged (schedule_of-IsKnown item s e) real in
          let (total, count) = entries_sum today item dates in
          (
            record t {
              monthly = add_share nil add share item t.monthly;
              known = t.known + 1;
              charged = record {
                due = t.charged.due + length dates * item.amount;
                occurrences = t.charged.occurrences + length dates;
              };
            },
            record d { dues = d.dues ++ map (due_entry today item) dates },
            rw (charged, e, q),
            rw (charged, e, p),
            record {
              unknown = same.unknown;
              occurrences = omega (
                arith,
                same.occurrences,
                count,
                length-append {0} d.dues (map (due_entry today item) dates),
              );
              due = omega (
                arith,
                same.due,
                total,
                sum_of-append due_amount d.dues (map (due_entry today item) dates),
              );
            },
          )
    ]
  ]

  items_agree :
      (items : List PredictableFixedCost) (t : Totals N) (d : DueSummary)
      → IsSame t d
      → (t' : Totals N) × (d' : DueSummary) × (add_costs nil add share today items t ≡ some t')
        × (add_items today items d ≡ some d')
        × IsSame t' d'
  unfolding add_costs add_items
  items_agree [] t d same = (t, d, refl, refl, same)
  items_agree (item ∷ items) t d same =
      let (t', d', p, q, same') = item_agrees item t d same in
      let (t'', d'', p', q', same'') = items_agree items t' d' same' in
      (t'', d'', rw (p, add_costs) p', rw (q, add_items) q', same'')

  -- On every list of costs and every day, the client's thirty-day list and the server's summary
  -- are both computed (no loop runs out of fuel), and they agree on the number of charges, on the
  -- number of items without a schedule, and on the total, which the server withholds exactly where
  -- no schedule is known and one is missing.
  pub thirty_days_agree :
      (items : List PredictableFixedCost)
      → (server : Summary N) × (client : ThirtyDayDueSummary) × (summarize_workspace_budget nil add
            share items today
          ≡ some server)
        × (build_thirty_day_due_summary items today ≡ some client)
        × (server.due_occurrence_count ≡ length client.dues)
        × (server.unknown_schedule_count ≡ client.unknown_count)
        × (((server.known_schedule_count ≡ 0)
              × (1 ≤ server.unknown_schedule_count)
              × (server.thirty_day_due ≡ none))
            ⊎ (((1 ≤ server.known_schedule_count) ⊎ (server.unknown_schedule_count ≡ 0))
                × (server.thirty_day_due ≡ some client.total)))
  unfolding summarize_workspace_budget build_thirty_day_due_summary
  thirty_days_agree items =
      let (t, d, p, q, same) =
        items_agree items start none_due
          (record { unknown = refl; occurrences = refl; due = unfold sum_of in refl }) in
      (
        finish_summary items t,
        finish_due_summary items d,
        rw p,
        rw q,
        omega (
          arith,
          same.occurrences,
          length-sort_on {0} (λ (e : UpcomingDue). e.days_until) d.dues,
        ),
        same.unknown,
        withheld t.known t.unknown (
            omega (
              arith,
              same.due,
              sum_of-sort_on {0} (λ (e : UpcomingDue). e.days_until) due_amount d.dues,
            )),
      )
    where
      start : Totals N
      start = record { monthly = nil; known = 0; unknown = 0; charged = nothing_charged }

      none_due : DueSummary
      none_due = record { dues = []; unknown_count = 0 }

-- ===== src/Aggregation/Window.antt =====
-- The loop over the occurrences counts every charge of the window, once.
use native.Mathlib.Nat.{zero-add, suc-add}
use living_cost_manager.Prelude.{
  ℕ, zero, suc, ◌+◌, ◌-◌, ◌*◌, ◌≤◌, ◌<◌, ◌≡◌, Bool, true, ◌&&◌, some, refl, sym, arith, ◌⊎◌, inl,
  inr, ltb, leb, Bool-cases, if◌then◌else◌, min, ◌/◌, ◌%◌,
}
use living_cost_manager.Calendar.{CivilDate, day_number, month_length, month_start}
use living_cost_manager.Calendar.Months.{month_length_bounds, month_start-suc, month_start_mono}
use living_cost_manager.Predictions.{Schedule, occurrence, occurrence_index, first_step}
use living_cost_manager.Predictions.NextDue.{
  IsKnown, IsDay, occurrence_mono, earlier_steps, later_step,
}
use living_cost_manager.Aggregation.{Charged, charge_loop, window_days, loop_fuel}

-- the number of the occurrences before the n-th that lie in `[start, stop)`
abbrev pub in_window : Schedule → ℕ → ℕ → ℕ → Bool
in_window s start stop n =
    leb start (day_number (occurrence s n)) && ltb (day_number (occurrence s n)) stop

unfoldable pub charges : Schedule → ℕ → ℕ → ℕ → ℕ
charges s start stop zero = 0
charges s start stop (suc n) = charges s start stop n + (if in_window s start stop n then 1 else 0)

module _ (s : Schedule) (k : IsKnown s) (start stop : ℕ) where
  -- nothing is charged from an occurrence at the end of the window on
  pub charges_flat :
      (m f : ℕ)
      → stop ≤ day_number (occurrence s m)
      → charges s start stop (f + m) ≡ charges s start stop m
  unfolding charges
  charges_flat m zero h = rw (zero-add m)
  charges_flat m (suc f) h =
      rw (suc-add f m) (ground (arith, charges_flat m f h, later (f + m) (omega arith)))
    where
      later : (n : ℕ) → m ≤ n → stop ≤ day_number (occurrence s n)
      later n le = elim (Bool-cases (ltb m n)) [
        | inl lt ↦ omega (arith, occurrence_mono s k m n (ground arith))
        | inr ge ↦ let e : n ≡ m = ground arith in rw e h
      ]

  -- nor before its start
  pub charges_none :
      (n : ℕ) → ((m : ℕ) → m < n → day_number (occurrence s m) < start) → charges s start stop n ≡ 0
  unfolding charges
  charges_none zero h = refl
  charges_none (suc n) h = ground (arith, h n, charges_none n (λ m lt. h m (omega arith)))

  -- the loop adds what lies between its step and the end
  charge_loop_lem :
      (amount f step bound : ℕ) (acc : Charged)
      → f + step ≡ bound
      → stop ≤ day_number (occurrence s bound)
      → (c : ℕ) × (charge_loop (suc f) s amount start stop step acc
          ≡ some (record { due = acc.due + c * amount; occurrences = acc.occurrences + c }))
        × (charges s start stop step + c ≡ charges s start stop bound)
  unfolding charge_loop charges
  charge_loop_lem amount zero step bound acc e h =
      let same : step ≡ bound = omega arith in
      (0, rw same (ground (arith, h)), rw same (omega arith))
  charge_loop_lem amount (suc f) step bound acc e h =
      elim (Bool-cases (leb stop (day_number (occurrence s step)))) [
        | inl done ↦ (
          0,
          rw done (ground arith),
          rw (← e) (omega (arith, charges_flat step (suc f) (ground arith))),
        )
        | inr more ↦ elim (Bool-cases (leb start (day_number (occurrence s step)))) [
          | inl reached ↦
              let (c, p, q) =
                charge_loop_lem amount f (suc step) bound
                  (record { due = acc.due + amount; occurrences = acc.occurrences + 1 })
                  (omega arith) h in
              (suc c, rw (more, reached, p) (ground arith), ground (arith, q))
          | inr before ↦
              let (c, p, q) = charge_loop_lem amount f (suc step) bound acc (omega arith) h in
              (c, rw (more, before, p), ground (arith, q))
        ]
      ]

-- the day on which a schedule charges in the month `i`
abbrev charge_day : Schedule → ℕ → ℕ
charge_day s i = if s.is_end_of_month then month_length i else min s.anchor.day (month_length i)

day_number-occurrence :
    (s : Schedule) (n : ℕ)
    → day_number (occurrence s n)
      ≡ month_start (occurrence_index s n) + charge_day s (occurrence_index s n)
unfolding day_number occurrence
day_number-occurrence s n =
    let same : (occurrence_index s n) / 12 * 12 + (occurrence_index s n % 12 + 1 - 1)
        ≡ occurrence_index s n =
      omega arith in
    rw same

charge_day_apart :
    (s : Schedule) (i j : ℕ)
    → 1 ≤ s.anchor.day
    → charge_day s i + 30 ≤ month_length i + month_length (suc i) + charge_day s j
charge_day_apart s i j h =
    ground (arith, month_length_bounds i, month_length_bounds (suc i), month_length_bounds j)

-- An occurrence and the next but one are thirty days apart at least.
pub month_apart :
    (s : Schedule) (n : ℕ)
    → IsKnown s
    → day_number (occurrence s n) + 30 ≤ day_number (occurrence s (suc (suc n)))
month_apart s n k =
    rw (day_number-occurrence s n, day_number-occurrence s (suc (suc n)))
      (omega (
        arith,
        charge_day_apart s i j k.anchored.day_in.0,
        month_start-suc i,
        month_start-suc (suc i),
        month_start_mono (suc (suc i)) j two_months,
      ))
  where
    i : ℕ
    i = occurrence_index s n

    j : ℕ
    j = occurrence_index s (suc (suc n))

    two_months : suc (suc i) ≤ j
    two_months = grind (arith, k.repeats)

-- where the charges that a window of thirty days holds begin
record IsRun (s : Schedule) (start n : ℕ) : Type 0 where
  from : ℕ
  below : from < n
  reached : start ≤ day_number (occurrence s from)
  short : charges s start (start + window_days) n + from ≤ n
  few : charges s start (start + window_days) n ≤ 2

charges-IsRun :
    (s : Schedule) (start n : ℕ)
    → IsKnown s
    → (charges s start (start + window_days) n ≡ 0) ⊎ IsRun s start n
unfolding charges
charges-IsRun s start zero k = inl refl
charges-IsRun s start (suc n) k = elim (Bool-cases (in_window s start (start + window_days) n)) [
  | inr out ↦ elim (charges-IsRun s start n k) [
    | inl none ↦ inl (rw out (omega (arith, none)))
    | inr r ↦ inr (record {
      from = r.from;
      below = omega (arith, r.below);
      reached = r.reached;
      short = rw out (omega (arith, r.short));
      few = rw out (omega (arith, r.few));
    })
  ]
  | inl within ↦ elim (charges-IsRun s start n k) [
    | inl none ↦ inr (record {
      from = n;
      below = omega arith;
      reached = ground (arith, within);
      short = rw within (omega (arith, none));
      few = rw within (omega (arith, none));
    })
    | inr r ↦
        let close : n < suc (suc r.from) = near r within in
        inr (record {
          from = r.from;
          below = omega (arith, r.below);
          reached = r.reached;
          short = rw within (omega (arith, r.short));
          few = rw within (omega (arith, r.short, close));
        })
  ]
]
  where
    near :
        (r : IsRun s start n)
        → in_window s start (start + window_days) n ≡ true
        → n < suc (suc r.from)
    near r within = elim (Bool-cases (ltb n (suc (suc r.from)))) [
      | inl lt ↦ ground (arith, lt)
      | inr ge ↦ elim (Bool-cases (ltb (suc (suc r.from)) n)) [
        | inl gt ↦ absurd (
            ground (
              arith,
              r.reached,
              month_apart s r.from k,
              occurrence_mono s k (suc (suc r.from)) n (ground (arith, gt)),
            ))
        | inr le ↦
            let e : suc (suc r.from) ≡ n = ground arith in
            absurd (ground (arith, r.reached, rw e at (month_apart s r.from k)))
      ]
    ]

-- At most two charges of a known schedule lie in thirty days.
pub charges-le-two :
    (s : Schedule) (start n : ℕ) → IsKnown s → charges s start (start + window_days) n ≤ 2
charges-le-two s start n k = elim (charges-IsRun s start n k) [
  | inl none ↦ omega (arith, none)
  | inr r ↦ r.few
]

-- the fourth occurrence from the first step on is behind the window
window_ends :
    (s : Schedule) (today : CivilDate)
    → IsKnown s
    → IsDay today
    → day_number today + window_days ≤ day_number (occurrence s (3 + first_step s today))
window_ends s today k real =
    let three : 3 + first_step s today ≡ suc (suc (suc (first_step s today))) = omega arith in
    rw three (omega (arith, later_step s k today real, month_apart s (suc (first_step s today)) k))

-- any two occurrences behind the window have the same number of charges before them
pub charges_agree :
    (s : Schedule) (start stop m n : ℕ)
    → IsKnown s
    → stop ≤ day_number (occurrence s m)
    → stop ≤ day_number (occurrence s n)
    → charges s start stop m ≡ charges s start stop n
charges_agree s start stop m n k hm hn = elim (Bool-cases (leb m n)) [
  | inl le ↦
      let e : n - m + m ≡ n = ground (arith, le) in
      sym (rw e at (charges_flat s k start stop m (n - m) hm))
  | inr gt ↦
      let e : m - n + n ≡ m = ground (arith, gt) in
      rw e at (charges_flat s k start stop n (m - n) hn)
]

-- The loop over the occurrences of a known schedule ends within its fuel; it adds as many charges,
-- each with the amount, as there are occurrences in the thirty days from the given real date up to
-- a step whose occurrence lies past them, and these are two at most.
pub charge_loop_total :
    (s : Schedule) (today : CivilDate) (amount : ℕ) (acc : Charged)
    → IsKnown s
    → IsDay today
    → (c : ℕ) × (charge_loop loop_fuel s amount
          (day_number today)
          (day_number today + window_days)
          (first_step s today)
          acc
        ≡ some (record { due = acc.due + c * amount; occurrences = acc.occurrences + c }))
      × (charges s (day_number today) (day_number today + window_days) (3 + first_step s today) ≡ c)
      × (day_number today + window_days ≤ day_number (occurrence s (3 + first_step s today)))
      × (c ≤ 2)
charge_loop_total s today amount acc k real =
    let (c, p, q) = charge_loop_lem s k start stop amount 3 step (3 + step) acc refl ends in
    let none_before = charges_none s k start stop step (earlier_steps s k today real) in
    let all_of : charges s start stop (3 + step) ≡ c = omega (arith, q, none_before) in
    (c, p, all_of, ends, omega (arith, all_of, charges-le-two s start (3 + step) k))
  where
    start : ℕ
    start = day_number today

    stop : ℕ
    stop = day_number today + window_days

    step : ℕ
    step = first_step s today

    ends : stop ≤ day_number (occurrence s (3 + step))
    ends = window_ends s today k real

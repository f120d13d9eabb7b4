-- ===== src/Subscription/Periods.antt =====
-- The boundaries of the paid periods (`periodBoundary`).
use living_cost_manager.Prelude.{ℕ, ◌+◌, ◌≤◌, ◌<◌, true, Option, none, some, Text, ◌≡◌, refl, arith}
use living_cost_manager.Calendar.{
  CivilDate, civil, day_number, month_length, last_day_of_month, match_date,
}
use living_cost_manager.Predictions.{occurrence}
use living_cost_manager.Predictions.NextDue.{
  IsDay, IsKnown, occurrence-IsDay, occurrence_mono, day_number-lt, month_index-occurrence,
}
use living_cost_manager.Predictions.Known.{is_real-IsDay}
use living_cost_manager.Subscription.{
  PlanId, preview_service_price, korean_midnight, plan_schedule, is_cycle_anchor, boundary_from,
  period_boundary, has_value, new_attempt, Attempt, AttemptState, ObservedStatus,
  VerifiedObservation, PaidPeriod, Reconciliation, settled, matches, create_sandbox_attempt,
  reconcile_attempt,
}

plan_repeats : (plan : PlanId) → 1 ≤ (preview_service_price plan).period_months
unfolding preview_service_price
plan_repeats PlanId.monthly = omega arith
plan_repeats PlanId.annual = omega arith

plan-IsKnown :
    (d : CivilDate) (plan : PlanId) → is_cycle_anchor d ≡ true → IsKnown (plan_schedule d plan)
plan-IsKnown d plan h = record {
  anchored = is_real-IsDay d (ground (arith, h));
  repeats = plan_repeats plan;
}

epoch-IsDay : IsDay (civil 1970 1 1)
unfolding month_length last_day_of_month
epoch-IsDay = record { month_in = omega arith; day_in = omega arith }

after_epoch :
    (d : CivilDate) (plan : PlanId) (m : ℕ)
    → is_cycle_anchor d ≡ true
    → day_number (civil 1970 1 1) < day_number (occurrence (plan_schedule d plan) m)
after_epoch d plan m h =
    day_number-lt (civil 1970 1 1) (occurrence (plan_schedule d plan) m) epoch-IsDay
      (occurrence-IsDay (plan_schedule d plan) m (plan-IsKnown d plan h))
      (rw (month_index-occurrence (plan_schedule d plan) m) (ground (arith, h)))

-- a later cycle begins at a later instant
boundary_from_mono :
    (o : Option CivilDate) (plan : PlanId) (m n : ℕ) {s t : ℕ}
    → m < n
    → boundary_from o plan m ≡ some s
    → boundary_from o plan n ≡ some t
    → s < t
unfolding korean_midnight
boundary_from_mono none plan m n lt h k = absurd (ground (arith, h))
boundary_from_mono (some d) plan m n {s} {t} lt h k =
    let anchored : is_cycle_anchor d ≡ true = ground (arith, h) in
    let known = plan-IsKnown d plan anchored in
    let from : s ≡ korean_midnight (occurrence (plan_schedule d plan) m) = ground (arith, h) in
    let until : t ≡ korean_midnight (occurrence (plan_schedule d plan) n) = ground (arith, k) in
    omega (
      arith,
      from,
      until,
      occurrence_mono (plan_schedule d plan) known m n lt,
      after_epoch d plan m anchored,
    )

-- Of two cycles of one anchor and plan that have a boundary, the later one begins at the later
-- instant.
pub period_boundary_mono :
    (anchor : Text) (plan : PlanId) (m n : ℕ) {s t : ℕ}
    → m < n
    → period_boundary anchor plan m ≡ some s
    → period_boundary anchor plan n ≡ some t
    → s < t
unfolding period_boundary
period_boundary_mono anchor plan m n lt h k = boundary_from_mono (match_date anchor) plan m n lt h k

has_value-some {ℓ} : {A : Type ℓ} (o : Option A) → has_value o ≡ true → (a : A) × (o ≡ some a)
has_value-some none h = absurd (ground arith)
has_value-some (some a) h = (a, refl)

settled_by :
    (a : Attempt) (o : VerifiedObservation) {from until : ℕ}
    → matches a o ≡ true
    → a.status ≡ AttemptState.pending
    → a.reconciled_at ≡ none
    → o.status ≡ ObservedStatus.paid
    → period_boundary a.anchor a.quote.plan_id a.cycle ≡ some from
    → period_boundary a.anchor a.quote.plan_id (a.cycle + 1) ≡ some until
    → reconcile_attempt a o
      ≡ some (record {
        attempt = record a { status = AttemptState.paid; reconciled_at = some o.fetched_at };
        outcome = settled;
        period = some (record {
          account_id = a.account_id;
          payment_id = a.payment_id;
          starts_at = from;
          ends_at = until;
        });
      })
unfolding reconcile_attempt
settled_by a o m s r p b₁ b₂ = rw (m, s, r, p, b₁, b₂)

plan_id_of : (plan : PlanId) → (preview_service_price plan).plan_id ≡ plan
unfolding preview_service_price
plan_id_of PlanId.monthly = refl
plan_id_of PlanId.annual = refl

create-result :
    (account_id payment_id merchant_id : Text) (plan : PlanId) (anchor : Text) (cycle : ℕ)
    {a : Attempt}
    → create_sandbox_attempt account_id payment_id merchant_id plan anchor cycle ≡ some a
    → (a ≡ new_attempt account_id payment_id merchant_id plan anchor cycle)
      × (has_value (period_boundary anchor plan cycle) ≡ true)
      × (has_value (period_boundary anchor plan (cycle + 1)) ≡ true)
unfolding create_sandbox_attempt
create-result account_id payment_id merchant_id plan anchor cycle h =
    (ground arith, ground arith, ground arith)

-- The first report on a new attempt, where it matches the attempt and reports a payment, settles
-- it: the attempt is paid, and gets a period that is not empty.
pub first_payment_settles :
    (account_id payment_id merchant_id : Text) (plan : PlanId) (anchor : Text) (cycle : ℕ)
    (o : VerifiedObservation) {a : Attempt}
    → create_sandbox_attempt account_id payment_id merchant_id plan anchor cycle ≡ some a
    → matches a o ≡ true
    → o.status ≡ ObservedStatus.paid
    → (r : Reconciliation) × (p : PaidPeriod) × (reconcile_attempt a o ≡ some r)
      × (r.outcome ≡ settled)
      × (r.attempt.status ≡ AttemptState.paid)
      × (r.period ≡ some p)
      × (p.starts_at < p.ends_at)
first_payment_settles account_id payment_id merchant_id plan anchor cycle o {a} h m paid =
    let (same, has_from, has_until) =
      create-result account_id payment_id merchant_id plan anchor cycle h in
    let (from, e) = has_value-some (period_boundary anchor plan cycle) has_from in
    let (until, f) = has_value-some (period_boundary anchor plan (cycle + 1)) has_until in
    (
      record {
        attempt = record a { status = AttemptState.paid; reconciled_at = some o.fetched_at };
        outcome = settled;
        period = some (record {
          account_id = a.account_id;
          payment_id = a.payment_id;
          starts_at = from;
          ends_at = until;
        });
      },
      record {
        account_id = a.account_id;
        payment_id = a.payment_id;
        starts_at = from;
        ends_at = until;
      },
      settled_by a o m (rw same refl) (rw same refl) paid (rw (same, plan_id_of plan) e)
          (rw (same, plan_id_of plan) f),
      refl,
      refl,
      refl,
      period_boundary_mono anchor plan cycle (cycle + 1) (omega arith) e f,
    )

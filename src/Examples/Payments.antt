-- ===== src/Examples/Payments.antt =====
-- A payment of the service's own monthly plan.
use living_cost_manager.Prelude.{
  none, some, [], ◌∷◌, Text, ◌≡◌, ◌≤◌, ◌<◌, refl, arith, text_eq, trim,
}
use living_cost_manager.Calendar.{
  is_real, month_length, last_day_of_month, day_number, month_start, days_before_year,
  days_before_month,
}
use living_cost_manager.Predictions.{occurrence}
use living_cost_manager.Subscription.{
  monthly, krw, sandbox, ObservedStatus, AttemptState, Attempt, VerifiedObservation, PaidPeriod,
  stale, settled, Reconciliation, preview_service_price, korean_midnight, period_boundary,
  create_sandbox_attempt, new_attempt, reconcile_attempt,
}
use living_cost_manager.Subscription.Reconciled.{periods_issued, settles_once, redelivery_is_stale}
use living_cost_manager.Subscription.Periods.{period_boundary_mono, first_payment_settles}

-- `2024-01-31`
abbrev anchor_day : Text
anchor_day = 50 ∷ 48 ∷ 50 ∷ 52 ∷ 45 ∷ 48 ∷ 49 ∷ 45 ∷ 51 ∷ 49 ∷ []

abbrev attempt : Attempt
attempt = new_attempt (97 ∷ []) (112 ∷ []) (109 ∷ []) monthly anchor_day 1

abbrev payment : VerifiedObservation
payment = record {
  payment_id = 112 ∷ [];
  merchant_id = 109 ∷ [];
  environment = sandbox;
  currency = krw;
  amount = 990;
  status = ObservedStatus.paid;
  fetched_at = 5;
}

settles_once_example : periods_issued attempt (payment ∷ payment ∷ []) ≤ 1
settles_once_example = settles_once (payment ∷ payment ∷ []) attempt

abbrev late : Attempt
late = record attempt { reconciled_at = some 9 }

redelivery_is_stale_example :
    reconcile_attempt late payment
    ≡ some (record { attempt = late; outcome = stale; period = none })
unfolding reconcile_attempt text_eq preview_service_price
redelivery_is_stale_example = redelivery_is_stale late payment refl

first_payment_settles_example :
    (r : Reconciliation) × (p : PaidPeriod) × (reconcile_attempt attempt payment ≡ some r)
    × (r.outcome ≡ settled)
    × (r.attempt.status ≡ AttemptState.paid)
    × (r.period ≡ some p)
    × (p.starts_at < p.ends_at)
unfolding create_sandbox_attempt period_boundary text_eq trim preview_service_price is_real
first_payment_settles_example =
    first_payment_settles (97 ∷ []) (112 ∷ []) (109 ∷ []) monthly anchor_day 1 payment refl refl
      refl

-- Koreans' midnights of `2024-02-29` and `2024-03-31`
period_boundary_mono_example : 1709132400000 < 1711810800000
unfolding period_boundary preview_service_price korean_midnight day_number month_start
    days_before_year days_before_month last_day_of_month month_length occurrence is_real
period_boundary_mono_example = period_boundary_mono anchor_day monthly 1 2 (omega arith) refl refl

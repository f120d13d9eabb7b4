-- ===== src/Subscription.antt =====
-- apps/api/src/services/service-subscription.ts with the catalog of
-- packages/shared/src/servicePricing.ts: the periods of the service's own subscription, and the
-- reconciliation of a payment attempt with what the provider reports. `none` stands for a TypeError.
pub mod Periods
pub mod Reconciled
use living_cost_manager.Prelude.{
  ℕ, ◌+◌, ◌-◌, ◌*◌, Bool, true, false, not, ◌&&◌, ◌||◌, Option, none, some, List, [], ◌∷◌, Text,
  ◌==◌, ltb, leb, if◌then◌else◌, any, text_eq, trim, length,
}
use living_cost_manager.Calendar.{CivilDate, civil, day_number, is_real, match_date}
use living_cost_manager.Predictions.{Schedule, occurrence, occurrence_index}

pub data PlanId : Type 0 where
  monthly annual : PlanId

pub record Quote : Type 0 where
  pub plan_id : PlanId
  pub currency : Text
  pub total_amount : ℕ
  pub period_months : ℕ

-- `KRW`
abbrev pub krw : Text
krw = 75 ∷ 82 ∷ 87 ∷ []

unfoldable pub preview_service_price : PlanId → Quote
preview_service_price monthly = record {
  plan_id = monthly;
  currency = krw;
  total_amount = 990;
  period_months = 1;
}
preview_service_price annual = record {
  plan_id = annual;
  currency = krw;
  total_amount = 9900;
  period_months = 12;
}

-- midnight in Korea, nine hours before that of UTC, in milliseconds since 1970
unfoldable pub korean_midnight : CivilDate → ℕ
korean_midnight d = (day_number d - day_number (civil 1970 1 1)) * 86400000 - 32400000

abbrev pub plan_schedule : CivilDate → PlanId → Schedule
plan_schedule anchor plan = record {
  anchor = anchor;
  period = (preview_service_price plan).period_months;
  is_end_of_month = false;
}

abbrev pub is_cycle_anchor : CivilDate → Bool
is_cycle_anchor d = leb 2000 d.year && (leb d.year 9999 && is_real d)

abbrev pub boundary_from : Option CivilDate → PlanId → ℕ → Option ℕ
boundary_from none plan cycle = none
boundary_from (some d) plan cycle =
    if is_cycle_anchor d && leb (occurrence_index (plan_schedule d plan) cycle) (9999 * 12 + 11)
    then some (korean_midnight (occurrence (plan_schedule d plan) cycle))
    else none

unfoldable pub period_boundary : Text → PlanId → ℕ → Option ℕ
unfolding match_date
period_boundary anchor plan cycle = boundary_from (match_date anchor) plan cycle

pub data AttemptState : Type 0 where
  pending failed paid refund_review : AttemptState

-- `reconciled_at` is `none` for -1; the environment is always the sandbox
pub record Attempt : Type 0 where
  pub account_id : Text
  pub payment_id : Text
  pub merchant_id : Text
  pub quote : Quote
  pub anchor : Text
  pub cycle : ℕ
  pub status : AttemptState
  pub reconciled_at : Option ℕ

pub data Environment : Type 0 where
  sandbox live : Environment

pub data ObservedStatus : Type 0 where
  pending failed paid refunded : ObservedStatus

pub record VerifiedObservation : Type 0 where
  pub payment_id : Text
  pub merchant_id : Text
  pub environment : Environment
  pub currency : Text
  pub amount : ℕ
  pub status : ObservedStatus
  pub fetched_at : ℕ

abbrev pub is_reference : Text → Bool
is_reference value = not (length (trim value) == 0) && leb (length value) 200

abbrev pub has_value {ℓ} : {A : Type ℓ} → Option A → Bool
has_value none = false
has_value (some a) = true

abbrev pub new_attempt :
    (account_id payment_id merchant_id : Text) → PlanId → (anchor : Text) → (cycle : ℕ) → Attempt
new_attempt account_id payment_id merchant_id plan anchor cycle = record {
  account_id = account_id;
  payment_id = payment_id;
  merchant_id = merchant_id;
  quote = preview_service_price plan;
  anchor = anchor;
  cycle = cycle;
  status = AttemptState.pending;
  reconciled_at = none;
}

unfoldable pub create_sandbox_attempt :
    (account_id payment_id merchant_id : Text)
    → PlanId
    → (anchor : Text) → (cycle : ℕ) → Option Attempt
create_sandbox_attempt account_id payment_id merchant_id plan anchor cycle =
    if is_reference account_id
      && (is_reference payment_id && is_reference merchant_id)
      && (has_value (period_boundary anchor plan cycle)
          && has_value (period_boundary anchor plan (cycle + 1)))
    then some (new_attempt account_id payment_id merchant_id plan anchor cycle)
    else none

pub record PaidPeriod : Type 0 where
  pub account_id : Text
  pub payment_id : Text
  pub starts_at : ℕ
  pub ends_at : ℕ

pub data Outcome : Type 0 where
  stale observed settled : Outcome

pub record Reconciliation : Type 0 where
  pub attempt : Attempt
  pub outcome : Outcome
  pub period : Option PaidPeriod

abbrev is_sandbox : Environment → Bool
is_sandbox sandbox = true
is_sandbox live = false

abbrev pub matches : Attempt → VerifiedObservation → Bool
matches a o =
    text_eq o.payment_id a.payment_id
    && (text_eq o.merchant_id a.merchant_id
        && (is_sandbox o.environment
            && (text_eq o.currency a.quote.currency && (o.amount == a.quote.total_amount))))

abbrev pub is_stale : ℕ → Option ℕ → Bool
is_stale fetched none = false
is_stale fetched (some t) = leb fetched t

abbrev pub next_status : AttemptState → ObservedStatus → AttemptState
next_status s ObservedStatus.refunded = AttemptState.refund_review
next_status AttemptState.refund_review o = AttemptState.refund_review
next_status AttemptState.paid o = AttemptState.paid
next_status s ObservedStatus.pending = AttemptState.pending
next_status s ObservedStatus.failed = AttemptState.failed
next_status s ObservedStatus.paid = AttemptState.paid

abbrev pub is_paid : AttemptState → Bool
is_paid AttemptState.paid = true
is_paid _ = false

abbrev pub period_of : Attempt → Option ℕ → Option ℕ → Option PaidPeriod
period_of a (some from) (some until) = some (record {
  account_id = a.account_id;
  payment_id = a.payment_id;
  starts_at = from;
  ends_at = until;
})
period_of a _ _ = none

abbrev pub settled_with : Attempt → Option PaidPeriod → Option Reconciliation
settled_with next none = none
settled_with next (some p) = some (record { attempt = next; outcome = settled; period = some p })

-- the boundaries are computed only where the attempt becomes paid
abbrev pub settle : Attempt → Attempt → Option Reconciliation
settle a next = settled_with next (
    period_of a (period_boundary a.anchor a.quote.plan_id a.cycle)
      (period_boundary a.anchor a.quote.plan_id (a.cycle + 1)))

unfoldable pub reconcile_attempt : Attempt → VerifiedObservation → Option Reconciliation
reconcile_attempt a o =
    let next = record a {
      status = next_status a.status o.status;
      reconciled_at = some o.fetched_at;
    } in
    if not (matches a o)
    then none
    else if is_stale o.fetched_at a.reconciled_at
    then some (record { attempt = a; outcome = stale; period = none })
    else if is_paid next.status && not (is_paid a.status)
    then settle a next
    else some (record { attempt = next; outcome = observed; period = none })

abbrev same_instant : Option ℕ → ℕ → Bool
same_instant none t = false
same_instant (some b) t = b == t

-- the test of `describeSandboxLifecycle` on the period that it is given
abbrev is_own_period : Attempt → Option PaidPeriod → Bool
is_own_period a none = true
is_own_period a (some p) =
    text_eq p.account_id a.account_id
    && (text_eq p.payment_id a.payment_id
        && (same_instant (period_boundary a.anchor a.quote.plan_id a.cycle) p.starts_at
            && same_instant (period_boundary a.anchor a.quote.plan_id (a.cycle + 1)) p.ends_at))

pub data LifecycleState : Type 0 where
  in_refund_review payment_failed not_paid scheduled expired ending paid_period : LifecycleState

abbrev state_in_period : PaidPeriod → Bool → ℕ → LifecycleState
state_in_period p cancel now =
    if ltb now p.starts_at
    then scheduled
    else if leb p.ends_at now
    then expired
    else if cancel
    then ending
    else paid_period

abbrev state_of : AttemptState → Option PaidPeriod → Bool → ℕ → LifecycleState
state_of AttemptState.refund_review p cancel now = in_refund_review
state_of AttemptState.failed p cancel now = payment_failed
state_of AttemptState.pending p cancel now = not_paid
state_of AttemptState.paid none cancel now = not_paid
state_of AttemptState.paid (some p) cancel now = state_in_period p cancel now

unfoldable pub describe_sandbox_lifecycle :
    Attempt → Option PaidPeriod → Bool → ℕ → Option LifecycleState
describe_sandbox_lifecycle a period cancel now =
    if is_own_period a period then some (state_of a.status period cancel now) else none

-- `sandboxPeriodCovered`; the answer's tier is free whatever it is
unfoldable pub resolve_service_entitlement : Text → List PaidPeriod → ℕ → Bool
resolve_service_entitlement account_id periods now =
    any (λ p. text_eq p.account_id account_id && (leb p.starts_at now && ltb now p.ends_at)) periods

-- ===== src/Billing/Reconcile.antt =====
-- apps/api/src/services/service-billing.ts, `reconcile`: the lease on an attempt that is looked up,
-- and the commit of what the provider reports on its payment.
use Prim.Native.Nat.{◌^◌}
use living_cost_manager.Prelude.{
  ℕ, ◌+◌, ◌*◌, Bool, true, false, not, ◌&&◌, ◌||◌, Option, none, some, List, [], ◌∷◌, Text, text_eq,
  leb, ◌==◌, if◌then◌else◌, any, find, update_where, min, max,
}
use living_cost_manager.Billing.{
  Scope, scope_eq, Contract, CancellationStatus, Quote, Attempt, AttemptStatus, reconciler, Period,
  Refund, RefundStatus, Store, Config, is_mock, is_after, lease_ms, lookup_limit,
}
use living_cost_manager.Billing.Tx.{
  billing_not_found, billing_scope_mismatch, unique_violation, Tx, ◌>>=◌, ◌>>◌, pure, gets, modify,
  require, query, find_contract, find_attempt, set_contract, set_attempt,
}
use living_cost_manager.Billing.Quotes.{require_ready}
use living_cost_manager.Billing.Renew.{has_attempt_id}
use living_cost_manager.Billing.Dispatch.{is_dispatched}

-- the attempts whose payment was verified, which keep that status but for a refund
abbrev pub is_settled : AttemptStatus → Bool
is_settled AttemptStatus.paid = true
is_settled AttemptStatus.refunded = true
is_settled _ = false

abbrev pub is_terminal : AttemptStatus → Bool
is_terminal AttemptStatus.created = false
is_terminal AttemptStatus.dispatch_unknown = false
is_terminal _ = true

abbrev pub is_claimable : Bool → Attempt → ℕ → Bool
is_claimable force a now =
    is_dispatched a
    && (not a.review_required
        && (not ((not force || not (is_settled a.status)) && is_terminal a.status)
            && (not (is_after a.lease_until now) && not (is_after a.next_lookup_at now))))

abbrev pub lease_to : ℕ → ℕ → Attempt → Attempt
lease_to owner now r = record r {
  lease_owner = some (reconciler owner);
  lease_until = some (now + lease_ms);
  fence = r.fence + 1;
  lookup_count = r.lookup_count + 1;
}

-- the first transaction of `reconcile`: the attempt as leased, with its new fence
unfoldable pub claim_lookup :
    Config → (attempt_id : ℕ) → Bool → (owner now : ℕ) → Tx (Option Attempt)
claim_lookup config attempt_id force owner now = do
  require_ready config true
  found ← gets (find_attempt attempt_id)
  elim found [
    | none ↦ pure none
    | some a ↦ (do
      require (scope_eq a.scope config.scope) billing_scope_mismatch
      c ← query (find_contract a.contract_id) billing_not_found
      if is_claimable force a now
          then (do
            modify (set_attempt a.id (lease_to owner now))
            pure (some (lease_to owner now a)))
          else pure none)
  ]

pub data PaymentStatus : Type 0 where
  is_paid has_failed is_pending : PaymentStatus

-- `reason_id` is the reason without the prefix `LCM refund `
pub record Cancellation : Type 0 where
  pub cancel_id : ℕ
  pub amount : ℕ
  pub reason_id : ℕ

pub record PaymentObservation : Type 0 where
  pub payment_id : ℕ
  pub subject_id : ℕ
  pub scope : Scope
  pub channel_id : Text
  pub status : PaymentStatus
  pub total_amount : ℕ
  pub currency : Text
  pub paid_at : Option ℕ
  pub cancelled_amount : ℕ
  pub cancellations : List Cancellation

-- what became of `getPayment`: `null` or an error, evidence that the adapter refuses, an observation
pub data Report : Type 0 where
  no_report : Report
  invalid_evidence : Report
  reported : PaymentObservation → Report

pub data ReconcileOutcome : Type 0 where
  skipped : ReconcileOutcome
  retry : ReconcileOutcome
  in_review : ReconcileOutcome
  committed : (fence initiated_at cancelled_amount total_amount : ℕ) → ReconcileOutcome

abbrev pub is_valid_observation : Contract → Quote → Attempt → PaymentObservation → Bool
is_valid_observation c q a o =
    (o.payment_id == a.payment_id)
    && ((o.subject_id == c.subject_id)
        && (scope_eq o.scope a.scope
            && (text_eq o.channel_id q.channel_id
                && ((o.total_amount == a.total_amount) && text_eq o.currency a.currency))))

abbrev pub released : Attempt → Attempt
released r = record r { lease_owner = none; lease_until = none }

abbrev pub to_review : Attempt → Attempt
to_review r =
    if is_settled r.status
    then record (released r) { review_required = true; next_lookup_at = none }
    else record (released r) { status = AttemptStatus.manual_review; next_lookup_at = none }

unfoldable pub reject_evidence : Attempt → Tx ReconcileOutcome
reject_evidence a = do modify (set_attempt a.id to_review); pure in_review

abbrev matches_refund : Attempt → Cancellation → Refund → Bool
matches_refund a n r =
    (r.attempt_id == a.id)
    && (elim r.provider_cancel_id [ none ↦ false | some k ↦ k == n.cancel_id ]
        || (r.id == n.reason_id))

abbrev is_approved : Config → Refund → Bool
is_approved config r =
    is_mock config.mode || elim r.approval_operation_id [ none ↦ false | some k ↦ true ]

abbrev pub has_refund_id : ℕ → Refund → Bool
has_refund_id k r = r.id == k

abbrev pub verify_refund : Cancellation → ℕ → Refund → Refund
verify_refund n now r = record r {
  status = RefundStatus.is_verified;
  provider_cancel_id = some n.cancel_id;
  verified_amount = some n.amount;
  verified_at = some now;
}

abbrev pub set_refund : ℕ → (Refund → Refund) → Store → Store
set_refund k f s = record s { refunds = update_where (has_refund_id k) f s.refunds }

-- the key of the table on the provider's id of a cancellation
abbrev pub is_bound_elsewhere : ℕ → Scope → ℕ → Refund → Bool
is_bound_elsewhere k scope cancel_id r =
    not (r.id == k)
    && (scope_eq r.scope scope
        && elim r.provider_cancel_id [ none ↦ false | some n ↦ n == cancel_id ])

-- whether no refund that was asked for accounts for a cancellation; the one that does is verified
abbrev pub match_cancellation : Config → Attempt → Cancellation → ℕ → Tx Bool
match_cancellation config a n now = do
  found ← gets (λ s. find (matches_refund a n) s.refunds)
  elim found [
    | none ↦ pure true
    | some r ↦
        if not (r.request_amount == n.amount) || not (is_approved config r) then pure true else (do
          taken ← gets (λ s. any (is_bound_elsewhere r.id r.scope n.cancel_id) s.refunds)
          require (not taken) unique_violation
          modify (set_refund r.id (verify_refund n now))
          pure false)
  ]

unfoldable pub match_cancellations : Config → Attempt → List Cancellation → ℕ → Tx Bool
match_cancellations config a [] now = pure false
match_cancellations config a (n ∷ ns) now = do
  unknown ← match_cancellation config a n now
  others ← match_cancellations config a ns now
  pure (unknown || others)

abbrev pub observe_cancellation : ℕ → Bool → Attempt → Attempt
observe_cancellation canceled unknown r = record (released r) {
  next_lookup_at = none;
  lookup_count = 0;
  status = if canceled == r.total_amount then AttemptStatus.refunded else r.status;
  review_required = unknown || r.review_required;
}

abbrev pub end_access : ℕ → Period → Period
end_access now p = record p { access_ends_at = max p.starts_at (min now p.access_ends_at) }

abbrev pub is_cancellation_verified : CancellationStatus → Bool
is_cancellation_verified CancellationStatus.cancellation_verified = true
is_cancellation_verified _ = false

abbrev pub stop_contract : Contract → Contract
stop_contract r = record r {
  renewal_stopped = true;
  cancel_requested = true;
  provider_cancellation_status =
      if is_cancellation_verified r.provider_cancellation_status
      then CancellationStatus.cancellation_verified
      else CancellationStatus.cancellation_pending;
  version = r.version + 1;
}

abbrev pub fresh : Attempt → ℕ → PaymentObservation → ReconcileOutcome
fresh a initiated_at o = committed a.fence initiated_at o.cancelled_amount a.total_amount

-- a payment that was verified before and is reported again
unfoldable pub observe_settled :
    Config → Contract → Attempt → PaymentObservation → (initiated_at now : ℕ) → Tx ReconcileOutcome
observe_settled config c a o initiated_at now = do
  unknown ← match_cancellations config a o.cancellations now
  modify (set_attempt a.id (observe_cancellation o.cancelled_amount unknown))
  if o.cancelled_amount == 0 then pure (fresh a initiated_at o) else (do
    modify
        (λ s. record s { periods = update_where (has_attempt_id a.id) (end_access now) s.periods })
    modify (set_contract c.id stop_contract)
    pure (fresh a initiated_at o))

abbrev is_exhausted : Attempt → Bool
is_exhausted a = leb lookup_limit a.lookup_count

abbrev pub wait_settled : ℕ → Attempt → Attempt
wait_settled now r =
    if is_exhausted r
    then record (released r) { review_required = true; next_lookup_at = none }
    else record (released r) { next_lookup_at = some (now + lease_ms) }

unfoldable pub retry_settled : Attempt → ℕ → Tx ReconcileOutcome
retry_settled a now = do
  modify (set_attempt a.id (wait_settled now))
  pure (if is_exhausted a then in_review else retry)

unfoldable pub lookup_delay : ℕ → ℕ
lookup_delay count = min 3600000 (1000 * 2 ^ count)

abbrev pub wait_unsettled : ℕ → Attempt → Attempt
wait_unsettled now r =
    if is_exhausted r
    then record (released r) { status = AttemptStatus.manual_review; next_lookup_at = none }
    else record (released r) {
      status = AttemptStatus.dispatch_unknown;
      next_lookup_at = some (now + lookup_delay r.lookup_count);
    }

unfoldable pub retry_unsettled : Attempt → ℕ → Tx ReconcileOutcome
retry_unsettled a now = do
  modify (set_attempt a.id (wait_unsettled now))
  pure (if is_exhausted a then in_review else retry)

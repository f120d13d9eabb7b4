-- ===== src/Billing/Refunds.antt =====
-- apps/api/src/services/service-billing.ts: the request of a refund (`requestRefund`), its approval
-- (`approveAndExecuteRefund`), and the claim and the commits of `executeRefund`.
use Prim.Native.Nat.{◌^◌}
use living_cost_manager.Prelude.{
  ℕ, ◌+◌, ◌-◌, ◌*◌, Bool, true, false, not, ◌&&◌, ◌||◌, Option, none, some, List, [], ◌∷◌, ◌++◌,
  Text, text_eq, ltb, leb, ◌==◌, if◌then◌else◌, any, find, update_where, min, max,
}
use living_cost_manager.Billing.{
  scope_eq, Contract, CancellationStatus, Attempt, AttemptStatus, attempt_status_eq, Period, Refund,
  RefundStatus, requested, in_dispatch, is_verified, is_rejected, needs_review, Store, Config,
  is_after, lease_ms, lookup_limit,
}
use living_cost_manager.Billing.Tx.{
  billing_not_found, idempotency_conflict, payment_not_refundable, refund_already_reserved,
  refund_approval_conflict, missing_row, unique_violation, Tx, ◌>>=◌, ◌>>◌, pure, gets, modify,
  require, query, find_attempt, set_contract, set_attempt,
}
use living_cost_manager.Billing.Quotes.{require_ready, owned_contract}
use living_cost_manager.Billing.Renew.{has_attempt_id}
use living_cost_manager.Billing.Reconcile.{has_refund_id, set_refund, is_bound_elsewhere}

abbrev pub counts : ℕ → Refund → Bool
counts attempt_id r =
    (r.attempt_id == attempt_id) && elim r.status [ is_rejected ↦ false | _ ↦ true ]

-- `_sum: { requestAmount: true }` over the refunds of an attempt that are not rejected
unfoldable pub amount_reserved : ℕ → List Refund → ℕ
amount_reserved attempt_id [] = 0
amount_reserved attempt_id (r ∷ refunds) =
    (if counts attempt_id r then r.request_amount else 0) + amount_reserved attempt_id refunds

abbrev has_refund_key : ℕ → Text → Refund → Bool
has_refund_key attempt_id key r = (r.attempt_id == attempt_id) && text_eq r.idempotency_key key

abbrev pub is_attempt_of : ℕ → ℕ → Attempt → Bool
is_attempt_of k contract_id a = (a.id == k) && (a.contract_id == contract_id)

abbrev pub new_refund : Attempt → (key reason : Text) → (amount k : ℕ) → Refund
new_refund a key reason amount k = record {
  id = k;
  attempt_id = a.id;
  scope = a.scope;
  idempotency_key = key;
  request_amount = amount;
  reason_code = reason;
  status = requested;
  provider_cancel_id = none;
  verified_amount = none;
  verified_at = none;
  approval_operation_id = none;
  approval_policy_version = none;
  lease_owner = none;
  lease_until = none;
  fence = 0;
  lookup_count = 0;
  next_lookup_at = none;
}

unfoldable pub insert_refund : Refund → Tx Refund
insert_refund r = do
  taken ←
      gets (λ s.
        any (λ x. (x.id == r.id) || has_refund_key r.attempt_id r.idempotency_key x) s.refunds)
  require (not taken) unique_violation
  modify (λ s. record s { refunds = s.refunds ++ r ∷ [] })
  pure r

abbrev pub is_refundable : Attempt → Bool
is_refundable a = attempt_status_eq a.status AttemptStatus.paid && not a.review_required

-- what is left of the payment is reserved for the new refund
unfoldable pub reserve_refund : Attempt → (key reason : Text) → ℕ → Tx Refund
unfolding amount_reserved
reserve_refund a key reason k = do
  require (is_refundable a) payment_not_refundable
  prior ← gets (λ s. amount_reserved a.id s.refunds)
  require (ltb prior a.total_amount) refund_already_reserved
  insert_refund (new_refund a key reason (a.total_amount - prior) k)

unfoldable pub request_refund : Config → (u attempt_id : ℕ) → (key reason : Text) → ℕ → Tx Refund
request_refund config u attempt_id key reason k = do
  c ← owned_contract config u
  a ← query (λ s. find (is_attempt_of attempt_id c.id) s.attempts) billing_not_found
  old ← gets (λ s. find (has_refund_key attempt_id key) s.refunds)
  elim old [
    | some r ↦ (do require (text_eq r.reason_code reason) idempotency_conflict; pure r)
    | none ↦ reserve_refund a key reason k
  ]

abbrev is_approval : Option Text → Text → Bool
is_approval none t = false
is_approval (some s) t = text_eq s t

abbrev pub approve : Text → Text → Refund → Refund
approve operation policy r = record r {
  approval_operation_id = some operation;
  approval_policy_version = some policy;
}

-- the key on `approvalOperationId`
abbrev has_approval : Text → Refund → Bool
has_approval operation r = is_approval r.approval_operation_id operation

-- the transaction of `approveAndExecuteRefund`
unfoldable pub approve_refund : (request_id : ℕ) → (operation policy : Text) → Tx (Unit {0})
approve_refund request_id operation policy = do
  r ← query (λ s. find (has_refund_id request_id) s.refunds) missing_row
  elim r.approval_operation_id [
    | some _ ↦
        require
          (is_approval r.approval_operation_id operation
            && is_approval r.approval_policy_version policy)
          refund_approval_conflict
    | none ↦ (do
      taken ← gets (λ s. any (has_approval operation) s.refunds)
      require (not taken) unique_violation
      modify (set_refund request_id (approve operation policy)))
  ]

abbrev is_requested : RefundStatus → Bool
is_requested requested = true
is_requested _ = false

abbrev pub is_in_dispatch : RefundStatus → Bool
is_in_dispatch in_dispatch = true
is_in_dispatch _ = false

abbrev is_executable : Refund → ℕ → Bool
is_executable r now =
    (is_requested r.status || is_in_dispatch r.status)
    && (ltb r.lookup_count lookup_limit
        && (not (is_after r.lease_until now) && not (is_after r.next_lookup_at now)))

abbrev pub lease_refund : ℕ → ℕ → Refund → Refund
lease_refund owner now r = record r {
  status = in_dispatch;
  lease_owner = some owner;
  lease_until = some (now + lease_ms);
  fence = r.fence + 1;
  lookup_count = r.lookup_count + 1;
}

-- the claim of `executeRefund`: the refund as leased, and whether the provider is to be asked for it
unfoldable pub claim_refund : Config → (request_id owner now : ℕ) → Tx (Option (Refund × Bool))
claim_refund config request_id owner now = do
  require_ready config config.refund
  r ← query (λ s. find (has_refund_id request_id) s.refunds) missing_row
  if not (is_executable r now) then pure none else (do
    a ← query (find_attempt r.attempt_id) missing_row
    require
        (not a.review_required
          && (not (is_requested r.status) || attempt_status_eq a.status AttemptStatus.paid))
        payment_not_refundable
    modify (set_refund request_id (lease_refund owner now))
    pure (some (lease_refund owner now r, is_requested r.status)))

abbrev is_leased_to : Option ℕ → ℕ → Bool
is_leased_to none owner = false
is_leased_to (some k) owner = k == owner

abbrev pub is_held : (request_id owner fence : ℕ) → Refund → Bool
is_held request_id owner fence r =
    (r.id == request_id) && (is_leased_to r.lease_owner owner && (r.fence == fence))

abbrev pub wait_refund : ℕ → Refund → Refund
wait_refund now r =
    if leb lookup_limit r.lookup_count
    then record r {
      lease_owner = none;
      lease_until = none;
      status = needs_review;
      next_lookup_at = none;
    }
    else record r {
      lease_owner = none;
      lease_until = none;
      status = in_dispatch;
      next_lookup_at = some (now + 1000 * 2 ^ r.lookup_count);
    }

-- the write of `executeRefund` where the provider tells nothing
unfoldable pub retry_refund : (request_id owner fence now : ℕ) → Store → Store
retry_refund request_id owner fence now s = record s {
  refunds = update_where (is_held request_id owner fence) (wait_refund now) s.refunds;
}

abbrev same_option : Option Text → Option Text → Bool
same_option none none = true
same_option (some s) (some t) = text_eq s t
same_option _ _ = false

abbrev pub same_reservation : Refund → Refund → Bool
same_reservation r p =
    (r.attempt_id == p.attempt_id)
    && ((r.request_amount == p.request_amount)
        && (scope_eq r.scope p.scope
            && (text_eq r.idempotency_key p.idempotency_key
                && (same_option r.approval_operation_id p.approval_operation_id
                    && same_option r.approval_policy_version p.approval_policy_version))))

abbrev pub hold_refund : Refund → Refund
hold_refund r = record r {
  status = needs_review;
  lease_owner = none;
  lease_until = none;
  next_lookup_at = none;
}

abbrev pub complete_refund : (cancel_id amount now : ℕ) → Refund → Refund
complete_refund cancel_id amount now r = record r {
  status = is_verified;
  provider_cancel_id = some cancel_id;
  verified_amount = some amount;
  verified_at = some now;
  lease_owner = none;
  lease_until = none;
  next_lookup_at = none;
}

abbrev pub mark_refunded : Attempt → Attempt
mark_refunded a = record a { status = AttemptStatus.refunded }

abbrev pub end_paid_access : ℕ → Period → Period
end_paid_access now p = record p { access_ends_at = max p.starts_at (min now p.ends_at) }

abbrev pub stop_refunded : Contract → Contract
stop_refunded c = record c {
  renewal_stopped = true;
  cancel_requested = true;
  provider_cancellation_status = CancellationStatus.cancellation_pending;
  version = c.version + 1;
}

-- `commitRefundObservation`, for the refund `p` as it was read before the provider was asked
unfoldable pub commit_refund :
    (p : Refund) → (contract_id owner fence cancel_id amount now : ℕ) → Tx (Unit {0})
commit_refund p contract_id owner fence cancel_id amount now = do
  r ← query (λ s. find (has_refund_id p.id) s.refunds) missing_row
  if not (is_in_dispatch r.status && (is_leased_to r.lease_owner owner && (r.fence == fence)))
      then pure tt
      else if not (same_reservation r p)
      then modify (set_refund p.id hold_refund)
      else (do
        taken ← gets (λ s. any (is_bound_elsewhere p.id p.scope cancel_id) s.refunds)
        require (not taken) unique_violation
        modify (set_refund p.id (complete_refund cancel_id amount now))
        modify (set_attempt p.attempt_id mark_refunded)
        modify (λ s. record s {
          periods = update_where (has_attempt_id p.attempt_id) (end_paid_access now) s.periods;
        })
        modify (set_contract contract_id stop_refunded))

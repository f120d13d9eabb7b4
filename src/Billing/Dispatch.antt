-- ===== src/Billing/Dispatch.antt =====
-- apps/api/src/services/service-billing.ts, `dispatch`: the claim of an attempt before its charge is
-- sent, and the release of the claim after it. The provider is called between the two.
use living_cost_manager.Prelude.{
  ℕ, ◌+◌, ◌*◌, Bool, true, false, not, ◌&&◌, ◌||◌, Option, none, some, Text, text_eq, ltb, ◌==◌,
  if◌then◌else◌, update_where,
}
use living_cost_manager.Billing.{
  Contract, Quote, Instrument, Attempt, AttemptStatus, attempt_status_eq, dispatcher, Store, Config,
  lease_ms, scope_eq,
}
use living_cost_manager.Billing.Tx.{
  Failure, billing_not_found, billing_scope_mismatch, renewal_stopped, reconsent_required,
  instrument_unavailable, instrument_decryption_failed, overdue_renewal_review, missing_row, Tx,
  ◌>>=◌, ◌>>◌, pure, gets, modify, require, or_fail, query, find_contract, find_quote,
  find_instrument, find_attempt, set_contract, set_attempt,
}
use living_cost_manager.Billing.Quotes.{
  require_ready, is_current_quote, service_billing_period_boundary, is_verified_instrument,
}
use living_cost_manager.Billing.Renew.{stop_for_review}

-- what the provider is asked to charge
pub record ChargeOrder : Type 0 where
  pub attempt_id : ℕ
  pub payment_id : ℕ
  pub subject_id : ℕ
  pub billing_key : Text
  pub total_amount : ℕ
  pub currency : Text

-- `null`, `{ blocked }` and the claim
pub data DispatchClaim : Type 0 where
  unclaimed : DispatchClaim
  blocked : Failure → DispatchClaim
  claimed : ChargeOrder → DispatchClaim

abbrev pub cancel_before_dispatch : Attempt → Attempt
cancel_before_dispatch r = record r { status = AttemptStatus.canceled_before_dispatch }

abbrev pub stop_renewal : Contract → Contract
stop_renewal r =
    if r.renewal_stopped then r else record r { renewal_stopped = true; version = r.version + 1 }

abbrev pub is_dispatched : Attempt → Bool
is_dispatched a = elim a.dispatch_at [ none ↦ false | some t ↦ true ]

-- the cycle that is charged is the contract's next one, and begins now
abbrev pub is_due : Contract → Quote → Attempt → ℕ → Bool
is_due c q a now = elim c.original_anchor [
  | none ↦ false
  | some anchor ↦
      (service_billing_period_boundary anchor (q.period_months * a.cycle) == now)
      && (ltb now (service_billing_period_boundary anchor (q.period_months * (a.cycle + 1)))
          && (a.cycle == c.next_cycle))
]

abbrev pub mark_dispatched : ℕ → Attempt → Attempt
mark_dispatched now r = record r {
  dispatch_at = some now;
  status = AttemptStatus.dispatch_unknown;
  next_lookup_at = some (now + lease_ms);
  lease_owner = some dispatcher;
  lease_until = some (now + lease_ms);
  fence = r.fence + 1;
}

-- the envelope is there, and sealed with the current key
abbrev pub is_usable : Config → Instrument → Bool
is_usable config i =
    is_verified_instrument i.status
    && elim i.envelope [ none ↦ false | some e ↦ text_eq e.key_version config.key_version ]

module _ (decrypt : Instrument → Option Text) where
  abbrev pub order : Contract → Attempt → Text → ChargeOrder
  order c a billing_key = record {
    attempt_id = a.id;
    payment_id = a.payment_id;
    subject_id = c.subject_id;
    billing_key = billing_key;
    total_amount = a.total_amount;
    currency = a.currency;
  }

  -- from the quote: the terms, the instrument and the instant are checked again
  unfoldable pub claim_dispatch : Config → Contract → Attempt → ℕ → Tx DispatchClaim
  claim_dispatch config c a now = do
    q ← query (find_quote a.quote_id) missing_row
    if c.cancel_requested
        then (do modify (set_attempt a.id cancel_before_dispatch); pure unclaimed)
        else if ltb 0 a.cycle && (c.renewal_stopped || c.renewal_review_required)
        then (do
          modify (set_attempt a.id cancel_before_dispatch)
          modify (set_contract c.id stop_renewal)
          pure (
              blocked
                (if c.renewal_review_required then overdue_renewal_review else renewal_stopped)))
        else (do
          require (is_current_quote config q) reconsent_required
          i ← query (find_instrument a.instrument_id) missing_row
          require (is_usable config i) instrument_unavailable
          billing_key ← or_fail (decrypt i) instrument_decryption_failed
          if ltb 0 a.cycle && not (is_due c q a now)
              then (do
                modify (set_attempt a.id cancel_before_dispatch)
                modify (set_contract c.id stop_for_review)
                pure (blocked overdue_renewal_review))
              else (do
                modify (set_attempt a.id (mark_dispatched now))
                pure (claimed (order c a billing_key))))

  -- the transaction of `dispatch`
  unfoldable pub dispatch : Config → (attempt_id now : ℕ) → Tx DispatchClaim
  dispatch config attempt_id now = do
    require_ready config config.charge
    found ← gets (find_attempt attempt_id)
    elim found [
      | none ↦ pure unclaimed
      | some a ↦ (do
        require (scope_eq a.scope config.scope) billing_scope_mismatch
        c ← query (find_contract a.contract_id) billing_not_found
        if is_dispatched a || not (attempt_status_eq a.status AttemptStatus.created)
            then pure unclaimed
            else claim_dispatch config c a now)
    ]

abbrev pub is_leased_by_dispatch : ℕ → Attempt → Bool
is_leased_by_dispatch k a = (a.id == k) && elim a.lease_owner [ some dispatcher ↦ true | _ ↦ false ]

abbrev pub release : ℕ → Attempt → Attempt
release now r = record r { lease_owner = none; lease_until = none; next_lookup_at = some now }

-- the write after the provider's answer, whatever it was
unfoldable pub release_dispatch : (attempt_id now : ℕ) → Store → Store
release_dispatch attempt_id now s = record s {
  attempts = update_where (is_leased_by_dispatch attempt_id) (release now) s.attempts;
}

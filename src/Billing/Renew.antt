-- ===== src/Billing/Renew.antt =====
-- apps/api/src/services/service-billing.ts: how the attempt of the next cycle is reserved (`renew`),
-- in one transaction before any dispatch.
use living_cost_manager.Prelude.{
  ℕ, ◌+◌, ◌*◌, Bool, true, false, not, ◌&&◌, ◌||◌, Option, none, some, List, [], ◌∷◌, text_eq, ltb,
  leb, ◌==◌, if◌then◌else◌, find,
}
use living_cost_manager.Subscription.{PlanId}
use living_cost_manager.Billing.{
  Contract, Instrument, renewal_key, renewal_binding, Attempt, AttemptStatus, attempt_status_eq,
  Period, Config,
}
use living_cost_manager.Billing.Tx.{
  renewal_stopped, missing_row, renewal_not_due, renewal_reconsent_required, reconsent_required, Tx,
  ◌>>=◌, ◌>>◌, pure, raise, gets, modify, require, query, find_quote, find_instrument, set_contract,
  set_attempt,
}
use living_cost_manager.Billing.Quotes.{
  require_ready, owned_contract, is_current_quote, quote_data, insert_quote, catalog_amount,
  catalog_months, service_billing_period_boundary, is_verified_instrument,
}
use living_cost_manager.Billing.Charge.{is_cycle, attempt_data, insert_attempt}

-- `orderBy: { cycle: "desc" }` of the paid attempts: the first of the highest cycle
abbrev higher_cycle : Attempt → Option Attempt → Option Attempt
higher_cycle a none = some a
higher_cycle a (some b) = if ltb a.cycle b.cycle then some b else some a

unfoldable pub last_paid : ℕ → List Attempt → Option Attempt
last_paid contract_id [] = none
last_paid contract_id (a ∷ attempts) =
    let rest = last_paid contract_id attempts in
    if (a.contract_id == contract_id) && attempt_status_eq a.status AttemptStatus.paid
    then higher_cycle a rest
    else rest

abbrev pub has_attempt_id : ℕ → Period → Bool
has_attempt_id k p = p.attempt_id == k

-- what `renew` reserves: an attempt to dispatch, or that the renewal is overdue
pub data Renewal : Type 0 where
  overdue : Renewal
  reserved : Attempt → Renewal

abbrev pub is_untouched : Attempt → Bool
is_untouched a = elim a.dispatch_at [
  | none ↦ attempt_status_eq a.status AttemptStatus.created
  | some t ↦ false
]

abbrev pub stop_for_review : Contract → Contract
stop_for_review r = record r {
  renewal_review_required = true;
  renewal_stopped = true;
  version = r.version + 1;
}

abbrev cancel_attempt : Attempt → Attempt
cancel_attempt r = record r { status = AttemptStatus.canceled_before_dispatch }

abbrev cancel_existing : Option Attempt → Tx (Unit {0})
cancel_existing none = pure tt
cancel_existing (some a) = modify (set_attempt a.id cancel_attempt)

-- the end of `renew`'s transaction, where the terms of the contract still hold
unfoldable pub reserve_cycle :
    Config
    → Contract
    → PlanId
    → (anchor : ℕ) → (previous : Attempt) → (existing : Option Attempt)
    → (k payment_id quote_id now : ℕ) → Tx Renewal
unfolding service_billing_period_boundary catalog_months
reserve_cycle config c plan anchor previous existing k payment_id quote_id now =
    let starts_at = service_billing_period_boundary anchor (catalog_months plan * c.next_cycle) in
    let ends_at =
      service_billing_period_boundary anchor (catalog_months plan * (c.next_cycle + 1)) in
    if leb ends_at now || ltb starts_at now
    then (do cancel_existing existing; modify (set_contract c.id stop_for_review); pure overdue)
    else elim existing [
      | some a ↦ pure (reserved a)
      | none ↦ (do
        let q = record (quote_data config c plan quote_id now) { consumed_at = some now }
        insert_quote q
        a ← insert_attempt (
            attempt_data c q previous.instrument_id (renewal_key c.next_cycle c.id)
              (renewal_binding previous.id) previous.accepted_at k payment_id)
        pure (reserved a))
    ]

abbrev terms_hold : Config → PlanId → Attempt → Instrument → Bool
terms_hold config plan previous i =
    (previous.total_amount == catalog_amount plan)
    && (text_eq previous.billing_version config.approved.billing
        && (text_eq previous.auto_renew_version config.approved.auto_renew
            && is_verified_instrument i.status))

-- the cycle is reserved under the terms that the user agreed to, which must still be the current ones
abbrev pub renew_cycle :
    Config
    → Contract
    → PlanId
    → (anchor : ℕ) → (previous : Attempt) → (existing : Option Attempt)
    → (k payment_id quote_id now : ℕ) → Tx Renewal
renew_cycle config c plan anchor previous existing k payment_id quote_id now = do
  i ← query (find_instrument previous.instrument_id) missing_row
  require (terms_hold config plan previous i) renewal_reconsent_required
  q ← query (find_quote previous.quote_id) missing_row
  require (is_current_quote config q) reconsent_required
  reserve_cycle config c plan anchor previous existing k payment_id quote_id now

abbrev pub renew_after :
    Config
    → Contract
    → PlanId
    → (anchor : ℕ) → (previous : Attempt) → (k payment_id quote_id now : ℕ) → Tx Renewal
renew_after config c plan anchor previous k payment_id quote_id now = do
  period ← query (λ s. find (has_attempt_id previous.id) s.periods) renewal_not_due
  require (leb period.ends_at now) renewal_not_due
  existing ← gets (λ s. find (is_cycle c.id c.next_cycle) s.attempts)
  elim existing [
    | some a ↦
        if is_untouched a
        then renew_cycle config c plan anchor previous (some a) k payment_id quote_id now
        else pure (reserved a)
    | none ↦ renew_cycle config c plan anchor previous none k payment_id quote_id now
  ]

abbrev pub renew_contract :
    Config → Contract → Option PlanId → Option ℕ → (k payment_id quote_id now : ℕ) → Tx Renewal
renew_contract config c (some plan) (some anchor) k payment_id quote_id now = do
  require (not (c.cancel_requested || c.renewal_stopped)) renewal_stopped
  previous ← query (λ s. last_paid c.id s.attempts) renewal_not_due
  renew_after config c plan anchor previous k payment_id quote_id now
renew_contract config c _ _ k payment_id quote_id now = raise renewal_stopped

-- the transaction of `renew`
unfoldable pub renew : Config → (u k payment_id quote_id now : ℕ) → Tx Renewal
renew config u k payment_id quote_id now = do
  require_ready config config.renew
  c ← owned_contract config u
  if c.renewal_review_required
      then pure overdue
      else renew_contract config c c.plan_id c.original_anchor k payment_id quote_id now

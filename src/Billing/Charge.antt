-- ===== src/Billing/Charge.antt =====
-- apps/api/src/services/service-billing.ts: how the payment attempt of the first checkout is reserved
-- (`charge`), in one transaction before any dispatch.
use living_cost_manager.Prelude.{
  ℕ, Bool, true, false, not, ◌&&◌, ◌||◌, none, some, [], ◌∷◌, ◌++◌, Text, text_eq, ◌==◌, any, find,
}
use living_cost_manager.Billing.{
  scope_eq, Contract, Quote, Instrument, Key, requested_key, renewal_key, Binding, request_binding,
  renewal_binding, Attempt, AttemptStatus, Config, is_mock,
}
use living_cost_manager.Billing.Tx.{
  renewal_stopped, idempotency_conflict, subscription_already_purchased, not_ready,
  instrument_unavailable, consent_version_mismatch, cycle_already_reserved, unique_violation, Tx,
  ◌>>=◌, ◌>>◌, pure, gets, modify, require, query, set_quote,
}
use living_cost_manager.Billing.Quotes.{
  require_ready, owned_contract, valid_quote, is_verified_instrument,
}

-- `ChargeInput`, with the digest of it that `binding` computes
pub record ChargeInput : Type 0 where
  pub quote_id : ℕ
  pub instrument_id : ℕ
  pub idempotency_key : Text
  pub billing_version : Text
  pub auto_renew_version : Text
  pub accepted : Bool
  pub binding : ℕ

abbrev pub key_eq : Key → Key → Bool
key_eq (requested_key s) (requested_key t) = text_eq s t
key_eq (renewal_key m c) (renewal_key n d) = (m == n) && (c == d)
key_eq _ _ = false

abbrev pub binding_eq : Binding → Binding → Bool
binding_eq (request_binding m) (request_binding n) = m == n
binding_eq (renewal_binding m) (renewal_binding n) = m == n
binding_eq _ _ = false

abbrev pub has_key : ℕ → Key → Attempt → Bool
has_key contract_id key a = (a.contract_id == contract_id) && key_eq a.idempotency_key key

abbrev pub is_cycle : ℕ → ℕ → Attempt → Bool
is_cycle contract_id cycle a = (a.contract_id == contract_id) && (a.cycle == cycle)

-- `attemptData` with the defaults of the table
abbrev pub attempt_data :
    Contract
    → Quote
    → (instrument_id : ℕ) → Key
    → Binding
    → (accepted_at k payment_id : ℕ) → Attempt
attempt_data c q instrument_id key binding accepted_at k payment_id = record {
  id = k;
  contract_id = c.id;
  scope = c.scope;
  quote_id = q.id;
  instrument_id = instrument_id;
  cycle = c.next_cycle;
  payment_id = payment_id;
  idempotency_key = key;
  request_binding = binding;
  total_amount = q.total_amount;
  currency = q.currency;
  billing_version = q.versions.billing;
  auto_renew_version = q.versions.auto_renew;
  accepted_at = accepted_at;
  status = AttemptStatus.created;
  dispatch_at = none;
  lease_owner = none;
  lease_until = none;
  fence = 0;
  lookup_count = 0;
  next_lookup_at = none;
  paid_at = none;
  review_required = false;
}

-- the keys of the table: `id`, `quoteId`, `paymentId` in its scope, and the cycle and the key of a
-- contract
abbrev pub clashes : Attempt → Attempt → Bool
clashes a r =
    (r.id == a.id)
    || ((r.quote_id == a.quote_id)
        || ((scope_eq r.scope a.scope && (r.payment_id == a.payment_id))
            || (is_cycle a.contract_id a.cycle r || has_key a.contract_id a.idempotency_key r)))

unfoldable pub insert_attempt : Attempt → Tx Attempt
insert_attempt a = do
  taken ← gets (λ s. any (clashes a) s.attempts)
  require (not taken) unique_violation
  modify (λ s. record s { attempts = s.attempts ++ a ∷ [] })
  pure a

abbrev is_instrument_of : (k contract_id quote_id : ℕ) → Instrument → Bool
is_instrument_of k contract_id quote_id i =
    (i.id == k)
    && ((i.contract_id == contract_id)
        && ((i.quote_id == quote_id) && is_verified_instrument i.status))

abbrev is_unrevoked : Instrument → Bool
is_unrevoked i = elim i.revoked_at [ none ↦ true | some t ↦ false ]

-- the part of `charge` that reserves a new attempt
unfoldable pub reserve_checkout :
    Config → Contract → ChargeInput → (k payment_id now : ℕ) → Tx Attempt
reserve_checkout config c input k payment_id now = do
  require (not (c.cancel_requested || c.renewal_stopped)) renewal_stopped
  require (c.next_cycle == 0) subscription_already_purchased
  q ← valid_quote config c.id input.quote_id now
  i ←
      query (λ s. find (is_instrument_of input.instrument_id c.id q.id) s.instruments)
        instrument_unavailable
  require (is_unrevoked i) instrument_unavailable
  require
      (text_eq input.billing_version q.versions.billing
        && (text_eq input.auto_renew_version q.versions.auto_renew && input.accepted))
      consent_version_mismatch
  reserved ← gets (λ s. any (is_cycle c.id c.next_cycle) s.attempts)
  require (not reserved) cycle_already_reserved
  modify (set_quote q.id (λ r. record r { consumed_at = some now }))
  insert_attempt (
      attempt_data c q i.id (requested_key input.idempotency_key) (request_binding input.binding)
        now k payment_id)

-- `readiness().checkoutEnabled`
abbrev pub checkout_enabled : Config → Bool
checkout_enabled config = config.issue_instrument && (config.charge && config.renew)

-- an attempt with this idempotency key is the answer, where it was made for the same request
abbrev pub charge_contract : Config → Contract → ChargeInput → (k payment_id now : ℕ) → Tx Attempt
charge_contract config c input k payment_id now = do
  old ← gets (λ s. find (has_key c.id (requested_key input.idempotency_key)) s.attempts)
  elim old [
    | some a ↦ (do
      require (binding_eq a.request_binding (request_binding input.binding)) idempotency_conflict
      pure a)
    | none ↦ reserve_checkout config c input k payment_id now
  ]

-- the transaction of `charge`
unfoldable pub charge : Config → ℕ → ChargeInput → (k payment_id now : ℕ) → Tx Attempt
charge config u input k payment_id now = do
  require_ready config config.charge
  require (is_mock config.mode || checkout_enabled config) not_ready
  c ← owned_contract config u
  charge_contract config c input k payment_id now

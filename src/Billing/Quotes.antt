-- ===== src/Billing/Quotes.antt =====
-- apps/api/src/services/service-billing.ts: the contract of a user, the quotes, and the card
-- instruments that are issued for them; with the catalog of packages/shared/src/serviceBilling.ts.
use living_cost_manager.Prelude.{
  ℕ, ◌+◌, ◌/◌, ◌%◌, Bool, true, false, not, ◌&&◌, ◌||◌, Option, none, some, List, [], ◌∷◌, ◌++◌,
  Text, text_eq, ltb, ◌==◌, if◌then◌else◌, any, all, find, min,
}
use living_cost_manager.Calendar.{CivilDate, civil, month_index, month_length, day_number}
use living_cost_manager.Calendar.Days.{civil_of_day}
use living_cost_manager.Subscription.{PlanId, monthly, annual, krw, korean_midnight}
use living_cost_manager.Billing.{
  Scope, scope_eq, ContractStatus, CancellationStatus, Contract, Versions, Quote, InstrumentStatus,
  Envelope, Instrument, Config, is_mock, has_quote_id,
}
use living_cost_manager.Billing.Tx.{
  account_not_found, billing_not_found, billing_scope_mismatch, not_ready, renewal_stopped,
  quote_expired_or_consumed, reconsent_required, instrument_unavailable,
  instrument_binding_mismatch, unique_violation, Tx, ◌>>=◌, ◌>>◌, pure, gets, modify, require,
  query, set_instrument,
}

-- the day of the Korean calendar at an instant: nine hours ahead, in days
abbrev pub korean_day : ℕ → ℕ
korean_day t = day_number (civil 1970 1 1) + (t + 32400000) / 86400000

-- the date `months` later, where a short month ends at its last day
unfoldable pub anchored_date : CivilDate → ℕ → CivilDate
anchored_date d months =
    let i = month_index d + months in civil (i / 12) (i % 12 + 1) (min d.day (month_length i))

unfoldable pub service_billing_period_boundary : ℕ → ℕ → ℕ
service_billing_period_boundary anchor months =
    korean_midnight (anchored_date (civil_of_day (korean_day anchor)) months)

unfoldable pub catalog_amount : PlanId → ℕ
catalog_amount monthly = 990
catalog_amount annual = 9900

unfoldable pub catalog_months : PlanId → ℕ
catalog_months monthly = 1
catalog_months annual = 12

-- `lcm-990-9900-v1`
abbrev pub catalog_version : Text
catalog_version = 108 ∷ 99 ∷ 109 ∷ 45 ∷ 57 ∷ 57 ∷ 48 ∷ 45 ∷ 57 ∷ 57 ∷ 48 ∷ 48 ∷ 45 ∷ 118 ∷ 49 ∷ []

-- `requireReady`
abbrev pub require_ready : Config → Bool → Tx (Unit {0})
require_ready config capability = require (config.enabled && capability) not_ready

abbrev pub lock_user : ℕ → Tx (Unit {0})
lock_user u s = require (any (λ k. k == u) s.users) account_not_found s

abbrev pub is_of_user : ℕ → Contract → Bool
is_of_user u c = elim c.user_id [ none ↦ false | some k ↦ k == u ]

abbrev pub new_contract : Config → (k u subject_id : ℕ) → Contract
new_contract config k u subject_id = record {
  id = k;
  user_id = some u;
  subject_id = subject_id;
  scope = config.scope;
  plan_id = none;
  status = ContractStatus.idle;
  original_anchor = none;
  next_cycle = 0;
  cancel_requested = false;
  renewal_stopped = false;
  provider_cancellation_status = CancellationStatus.no_cancellation;
  version = 0;
  cancellation_verified_version = none;
  renewal_review_required = false;
}

abbrev pub insert_contract : Contract → Tx (Unit {0})
insert_contract c = do
  taken ← gets (λ s. any (λ r. (r.id == c.id) || (r.subject_id == c.subject_id)) s.contracts)
  require (not taken) unique_violation
  modify (λ s. record s { contracts = s.contracts ++ c ∷ [] })

-- the checks at the end of `ownedContract`; without an enabled provider the scope is not compared
abbrev pub in_scope : Config → Contract → Tx Contract
in_scope config c = do
  require (not config.enabled || scope_eq c.scope config.scope) billing_scope_mismatch
  pure c

-- `ownedContract` without `create`
unfoldable pub owned_contract : Config → ℕ → Tx Contract
owned_contract config u = do
  lock_user u
  c ← query (λ s. find (is_of_user u) s.contracts) billing_not_found
  in_scope config c

-- `ownedContract` with `create`; the ids are random
unfoldable pub owned_or_new_contract : Config → (u k subject_id : ℕ) → Tx Contract
owned_or_new_contract config u k subject_id = do
  lock_user u
  found ← gets (λ s. find (is_of_user u) s.contracts)
  elim found [
    | some c ↦ in_scope config c
    | none ↦ (do
      require_ready config config.issue_instrument
      insert_contract (new_contract config k u subject_id)
      in_scope config (new_contract config k u subject_id))
  ]

unfoldable pub quote_data : Config → Contract → PlanId → (k now : ℕ) → Quote
quote_data config c plan k now = record {
  id = k;
  contract_id = c.id;
  scope = c.scope;
  channel_id = config.channel_id;
  catalog_version = catalog_version;
  plan_id = plan;
  total_amount = catalog_amount plan;
  currency = krw;
  period_months = catalog_months plan;
  versions = config.approved;
  materials_snapshot = if is_mock config.mode then none else some config.materials;
  expires_at = now + 900000;
  consumed_at = none;
}

abbrev pub insert_quote : Quote → Tx (Unit {0})
insert_quote q = do
  taken ← gets (λ s. any (has_quote_id q.id) s.quotes)
  require (not taken) unique_violation
  modify (λ s. record s { quotes = s.quotes ++ q ∷ [] })

unfoldable pub create_quote : Config → ℕ → PlanId → (k subject_id quote_id now : ℕ) → Tx Quote
create_quote config u plan k subject_id quote_id now = do
  require_ready config config.issue_instrument
  c ← owned_or_new_contract config u k subject_id
  require (not c.cancel_requested) renewal_stopped
  insert_quote (quote_data config c plan quote_id now)
  pure (quote_data config c plan quote_id now)

abbrev pub versions_eq : Versions → Versions → Bool
versions_eq v w =
    text_eq v.billing w.billing
    && (text_eq v.auto_renew w.auto_renew
        && (text_eq v.feature_scope w.feature_scope
            && (text_eq v.policy w.policy && text_eq v.seller w.seller)))

abbrev has_material : List (Text × Text) → Text × Text → Bool
has_material snapshot (k, v) = any (λ m. text_eq m.0 k && text_eq m.1 v) snapshot

abbrev pub materials_current : Config → Option (List (Text × Text)) → Bool
materials_current config none = is_mock config.mode
materials_current config (some snapshot) =
    is_mock config.mode || all (has_material snapshot) config.materials

-- the tests of `validateCurrentQuote`
unfoldable pub is_current_quote : Config → Quote → Bool
is_current_quote config q =
    (text_eq q.catalog_version catalog_version
      && ((q.total_amount == catalog_amount q.plan_id)
          && (q.period_months == catalog_months q.plan_id)))
    && (versions_eq q.versions config.approved
        && (text_eq q.channel_id config.channel_id
            && (text_eq q.currency krw && materials_current config q.materials_snapshot)))

abbrev pub is_quote_of : ℕ → ℕ → Quote → Bool
is_quote_of k contract_id q = (q.id == k) && (q.contract_id == contract_id)

abbrev pub is_open : ℕ → Quote → Bool
is_open now q = elim q.consumed_at [ some t ↦ false | none ↦ ltb now q.expires_at ]

unfoldable pub valid_quote : Config → (contract_id quote_id now : ℕ) → Tx Quote
valid_quote config contract_id quote_id now = do
  q ← query (λ s. find (is_quote_of quote_id contract_id) s.quotes) billing_not_found
  require (is_open now q) quote_expired_or_consumed
  require (is_current_quote config q) reconsent_required
  pure q

abbrev pub new_instrument : Contract → (k quote_id issuance_id : ℕ) → Instrument
new_instrument c k quote_id issuance_id = record {
  id = k;
  contract_id = c.id;
  quote_id = quote_id;
  scope = c.scope;
  issuance_id = issuance_id;
  status = InstrumentStatus.prepared;
  envelope = none;
  verified_at = none;
  revoked_at = none;
  version = 0;
  lease_owner = none;
  lease_until = none;
}

abbrev insert_instrument : Instrument → Tx (Unit {0})
insert_instrument i = do
  taken ← gets (λ s. any (λ r. (r.id == i.id) || (r.issuance_id == i.issuance_id)) s.instruments)
  require (not taken) unique_violation
  modify (λ s. record s { instruments = s.instruments ++ i ∷ [] })

-- the transaction of `prepare`, whose result the provider is asked to issue a card for
unfoldable pub prepare : Config → (u quote_id k issuance_id now : ℕ) → Tx (Instrument × ℕ)
prepare config u quote_id k issuance_id now = do
  require_ready config config.issue_instrument
  c ← owned_contract config u
  require (not c.cancel_requested) renewal_stopped
  q ← valid_quote config c.id quote_id now
  existing ← gets (λ s. find (λ i. i.quote_id == quote_id) s.instruments)
  elim existing [
    | some i ↦ pure (i, c.subject_id)
    | none ↦ (do
      insert_instrument (new_instrument c k quote_id issuance_id)
      pure (new_instrument c k quote_id issuance_id, c.subject_id))
  ]

-- what `getInstrument` reports on a billing key
pub record InstrumentObservation : Type 0 where
  pub issuance_id : ℕ
  pub subject_id : ℕ
  pub scope : Scope
  pub channel_id : Text

abbrev pub binds : Config → Contract → Instrument → InstrumentObservation → Bool
binds config c i o =
    (o.issuance_id == i.issuance_id)
    && ((o.subject_id == c.subject_id)
        && (scope_eq o.scope c.scope && text_eq o.channel_id config.channel_id))

abbrev pub is_confirmable : InstrumentStatus → Bool
is_confirmable InstrumentStatus.prepared = true
is_confirmable InstrumentStatus.verified = true
is_confirmable _ = false

abbrev pub is_verified_instrument : InstrumentStatus → Bool
is_verified_instrument InstrumentStatus.verified = true
is_verified_instrument _ = false

-- the transaction of `confirm`; `sealed` is the billing key, encrypted
unfoldable pub confirm :
    Config → (u instrument_id : ℕ) → InstrumentObservation → Envelope → (now : ℕ) → Tx (Unit {0})
confirm config u instrument_id observed sealed now = do
  require_ready config config.issue_instrument
  c ← owned_contract config u
  i ←
      query (λ s. find (λ i. (i.id == instrument_id) && (i.contract_id == c.id)) s.instruments)
        instrument_unavailable
  require (is_confirmable i.status && not c.cancel_requested) instrument_unavailable
  q ← valid_quote config c.id i.quote_id now
  require (binds config c i observed) instrument_binding_mismatch
  if is_verified_instrument i.status
      then pure tt
      else modify (
          set_instrument i.id (λ r. record r {
            envelope = some sealed;
            status = InstrumentStatus.verified;
            verified_at = some now;
          }))

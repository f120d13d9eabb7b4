-- ===== src/Billing/Cancel.antt =====
-- apps/api/src/services/service-billing.ts: `cancel`, which stops a contract before the provider is
-- asked to, `revokeInstrument`, and the commits of both once the provider has answered.
use living_cost_manager.Prelude.{
  ℕ, ◌+◌, Bool, true, false, not, ◌&&◌, ◌||◌, Option, none, some, ◌==◌, if◌then◌else◌, any, find,
  update_where,
}
use living_cost_manager.Billing.{
  Contract, ContractStatus, CancellationStatus, Instrument, InstrumentStatus, Attempt,
  AttemptStatus, attempt_status_eq, Store, Config, is_mock, is_after, lease_ms,
}
use living_cost_manager.Billing.Tx.{
  billing_not_found, missing_row, Tx, ◌>>=◌, ◌>>◌, pure, gets, modify, query, find_contract,
  find_instrument, set_contract, set_instrument,
}
use living_cost_manager.Billing.Quotes.{require_ready, owned_contract}
use living_cost_manager.Billing.Dispatch.{cancel_before_dispatch, is_dispatched}
use living_cost_manager.Billing.Reconcile.{is_cancellation_verified}

abbrev pub is_cancelled_status : ContractStatus → Bool
is_cancelled_status ContractStatus.cancel_at_period_end = true
is_cancelled_status _ = false

abbrev same_version : Option ℕ → ℕ → Bool
same_version none v = false
same_version (some n) v = n == v

abbrev pub is_revoked : InstrumentStatus → Bool
is_revoked InstrumentStatus.revoked = true
is_revoked _ = false

-- an instrument that is not revoked, or whose key is still there
abbrev is_unfinished : ℕ → Instrument → Bool
is_unfinished contract_id i =
    (i.contract_id == contract_id)
    && (not (is_revoked i.status) || elim i.envelope [ none ↦ false | some e ↦ true ])

abbrev pub is_created_of : ℕ → Attempt → Bool
is_created_of contract_id a =
    (a.contract_id == contract_id) && attempt_status_eq a.status AttemptStatus.created

abbrev pub is_open_of : ℕ → Attempt → Bool
is_open_of contract_id a = is_created_of contract_id a && not (is_dispatched a)

-- a cancellation that was already completed
abbrev pub is_replay : Contract → Store → Bool
is_replay c s =
    (c.cancel_requested
      && (c.renewal_stopped
          && (is_cancelled_status c.status
              && (is_cancellation_verified c.provider_cancellation_status
                  && same_version c.cancellation_verified_version c.version))))
    && (not (any (is_unfinished c.id) s.instruments) && not (any (is_created_of c.id) s.attempts))

abbrev pub request_cancellation : Contract → Contract
request_cancellation r = record r {
  cancel_requested = true;
  renewal_stopped = true;
  provider_cancellation_status = CancellationStatus.cancellation_pending;
  status = ContractStatus.cancel_at_period_end;
  version = r.version + 1;
}

abbrev pub stop_attempts : ℕ → Store → Store
stop_attempts contract_id s = record s {
  attempts = update_where (is_open_of contract_id) cancel_before_dispatch s.attempts;
}

-- the first transaction of `cancel`: the contract, and whether the cancellation was complete
unfoldable pub cancel : Config → ℕ → Tx (Contract × Bool)
cancel config u = do
  require_ready config config.cancel
  c ← owned_contract config u
  replay ← gets (is_replay c)
  if replay then pure (c, true) else (do
    modify (stop_attempts c.id)
    modify (set_contract c.id request_cancellation)
    pure (request_cancellation c, false))

abbrev is_unrevoked_of : ℕ → Instrument → Bool
is_unrevoked_of contract_id i = (i.contract_id == contract_id) && not (is_revoked i.status)

abbrev has_contract : ℕ → Instrument → Bool
has_contract contract_id i = i.contract_id == contract_id

abbrev revoke : ℕ → Instrument → Instrument
revoke now r = record r {
  status = InstrumentStatus.revoked;
  revoked_at = some now;
  envelope = none;
}

abbrev pub verify_cancellation : Contract → Contract
verify_cancellation r = record r {
  provider_cancellation_status = CancellationStatus.cancellation_verified;
  cancellation_verified_version = some r.version;
}

-- the last transaction of `cancel`, where the provider says that the schedule has stopped;
-- `version` is the contract's at the first one
unfoldable pub complete_cancel : Config → (contract_id version now : ℕ) → Tx (Unit {0})
complete_cancel config contract_id version now = do
  current ← query (find_contract contract_id) billing_not_found
  left ← gets (λ s. any (is_unrevoked_of contract_id) s.instruments)
  if not (current.version == version)
        || (not current.cancel_requested
            || (not current.renewal_stopped || (not (is_mock config.mode) && left)))
      then pure tt
      else (do
        modify (set_contract contract_id verify_cancellation)
        modify (λ s. record s {
          instruments = update_where (has_contract contract_id) (revoke now) s.instruments;
        }))

abbrev claim_instrument : ℕ → ℕ → Instrument → Instrument
claim_instrument owner now r = record r {
  status = InstrumentStatus.revocation_pending;
  version = r.version + 1;
  lease_owner = some owner;
  lease_until = some (now + lease_ms);
}

abbrev is_instrument_of : ℕ → ℕ → Instrument → Bool
is_instrument_of k contract_id i = (i.id == k) && (i.contract_id == contract_id)

-- the first transaction of `revokeInstrument`
unfoldable pub revoke_instrument : Config → (u instrument_id owner now : ℕ) → Tx (Option Instrument)
revoke_instrument config u instrument_id owner now = do
  require_ready config config.cancel
  c ← owned_contract config u
  i ← query (λ s. find (is_instrument_of instrument_id c.id) s.instruments) billing_not_found
  if is_revoked i.status || is_after i.lease_until now then pure none else (do
    modify (set_instrument i.id (claim_instrument owner now))
    pure (some (claim_instrument owner now i)))

abbrev is_leased_to : Option ℕ → ℕ → Bool
is_leased_to none owner = false
is_leased_to (some k) owner = k == owner

abbrev end_revocation : Bool → ℕ → Instrument → Instrument
end_revocation verified now r =
    if verified
    then record (revoke now r) { lease_owner = none; lease_until = none }
    else record r {
      status = InstrumentStatus.in_manual_review;
      lease_owner = none;
      lease_until = none;
    }

-- the last transaction of `revokeInstrument`; `verified` is whether the provider confirmed it
unfoldable pub complete_revocation :
    (instrument_id owner version : ℕ) → Bool → (now : ℕ) → Tx (Unit {0})
complete_revocation instrument_id owner version verified now = do
  current ← query (find_instrument instrument_id) missing_row
  if not (current.version == version) || not (is_leased_to current.lease_owner owner)
      then pure tt
      else modify (set_instrument instrument_id (end_revocation verified now))

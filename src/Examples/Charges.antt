-- ===== src/Examples/Charges.antt =====
-- A subscription of the monthly plan, from its checkout to a refund, against the mock provider.
use living_cost_manager.Prelude.{
  ℕ, ◌+◌, true, some, [], ◌∷◌, Text, ◌≡◌, ◌<◌, refl, arith, text_eq, find, any, all, count_if,
  update_where,
}
use living_cost_manager.Subscription.{monthly}
use living_cost_manager.Billing.{
  Mode, Scope, Contract, Quote, Instrument, InstrumentStatus, Attempt, requested_key,
  request_binding, Store, Config,
}
use living_cost_manager.Billing.Tx.{ok}
use living_cost_manager.Billing.Quotes.{
  new_contract, quote_data, new_instrument, owned_contract, valid_quote, is_current_quote,
  catalog_amount, catalog_months, service_billing_period_boundary,
}
use living_cost_manager.Billing.Charge.{
  ChargeInput, attempt_data, charge, reserve_checkout, insert_attempt,
}
use living_cost_manager.Billing.Sound.{IsSound, Keeps}
use living_cost_manager.Billing.Process.{World, Step, written, checked_out}
use living_cost_manager.Billing.Progress.{Step-Keeps}
use living_cost_manager.Billing.Replays.{charge_replay}
use living_cost_manager.Billing.Boundaries.{service_billing_period_boundary_mono}

abbrev pub text : Text
text = 109 ∷ []

abbrev pub scope : Scope
scope = record { provider = text; store_id = text; environment = Mode.mock }

abbrev pub config : Config
config = record {
  mode = Mode.mock;
  scope = scope;
  channel_id = text;
  key_version = text;
  enabled = true;
  issue_instrument = true;
  charge = true;
  renew = true;
  cancel = true;
  refund = true;
  recovers = true;
  approved = record {
    billing = text;
    auto_renew = text;
    feature_scope = text;
    policy = text;
    seller = text;
  };
  materials = [];
  policy_version = text;
}

-- in November 2023
abbrev pub now : ℕ
now = 1700000000000

abbrev pub contract : Contract
contract = new_contract config 5 1 6

abbrev pub quote : Quote
quote = quote_data config contract monthly 10 now

abbrev pub instrument : Instrument
instrument = record (new_instrument contract 20 10 21) {
  status = InstrumentStatus.verified;
  envelope = some (record { ciphertext = text; key_version = text });
}

abbrev pub prepared_store : Store
prepared_store = record {
  users = 1 ∷ [];
  contracts = contract ∷ [];
  quotes = quote ∷ [];
  instruments = instrument ∷ [];
  attempts = [];
  periods = [];
  refunds = [];
}

abbrev pub input : ChargeInput
input = record {
  quote_id = 10;
  instrument_id = 20;
  idempotency_key = text;
  billing_version = text;
  auto_renew_version = text;
  accepted = true;
  binding = 7;
}

abbrev pub attempt : Attempt
attempt = attempt_data contract quote 20 (requested_key text) (request_binding 7) now 30 40

abbrev pub charged_store : Store
charged_store = record prepared_store {
  quotes = record quote { consumed_at = some now } ∷ [];
  attempts = attempt ∷ [];
}

charged : charge config 1 input 30 40 now prepared_store ≡ ok (attempt, charged_store)
unfolding charge reserve_checkout insert_attempt owned_contract valid_quote is_current_quote
    quote_data catalog_amount catalog_months text_eq find any all update_where
charged = refl

pub prepared_store-IsSound : IsSound prepared_store
unfolding any all count_if
prepared_store-IsSound = record {
  ledger = record { ids = λ k. omega arith; payments = λ k. omega arith; rows = refl };
  targets = refl;
}

abbrev pub prepared_world : World
prepared_world = record { store = prepared_store; orders = []; sent = [] }

abbrev pub charged_world : World
charged_world = record { store = charged_store; orders = []; sent = [] }

pub checkout : Step (λ i. some text) prepared_world charged_world
checkout = written (checked_out config 1 input 30 40 now (unfold any in refl) charged)

Step-Keeps_example : Keeps prepared_store charged_store
Step-Keeps_example = Step-Keeps (λ i. some text) prepared_store-IsSound checkout

charge_replay_example :
    charge config 1 input 31 41 (now + 5) charged_store ≡ ok (attempt, charged_store)
charge_replay_example =
    charge_replay config 1 input 30 40 now 31 41 (now + 5) prepared_store charged

service_billing_period_boundary_mono_example :
    service_billing_period_boundary now 1 < service_billing_period_boundary now 2
service_billing_period_boundary_mono_example =
    service_billing_period_boundary_mono now 1 2 (omega arith) (omega arith)

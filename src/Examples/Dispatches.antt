-- ===== src/Examples/Dispatches.antt =====
-- The charge of a subscription is sent, looked up and refunded; another is canceled first.
use living_cost_manager.Prelude.{
  ◌+◌, true, false, Option, none, some, [], ◌∷◌, Text, ◌≡◌, ◌≤◌, refl, arith, text_eq, find, any,
  all, count_if, update_where,
}
use living_cost_manager.Subscription.{krw, korean_midnight}
use living_cost_manager.Calendar.{
  day_number, month_start, days_before_year, days_before_month, month_length, last_day_of_month,
  is_leap,
}
use living_cost_manager.Calendar.Days.{civil_of_day, year_of_day, month_of_day}
use living_cost_manager.Billing.{Instrument, Attempt, AttemptStatus, Store}
use living_cost_manager.Billing.Tx.{ok, commit}
use living_cost_manager.Billing.Quotes.{
  owned_contract, is_current_quote, quote_data, catalog_amount, catalog_months,
  service_billing_period_boundary, anchored_date,
}
use living_cost_manager.Billing.Dispatch.{
  claimed, unclaimed, order, mark_dispatched, cancel_before_dispatch, dispatch, claim_dispatch,
}
use living_cost_manager.Billing.Reconcile.{
  PaymentObservation, is_paid, no_report, reported, skipped, committed, lease_to, claim_lookup,
}
use living_cost_manager.Billing.Settle.{
  last_period, insert_period, pay, observe_unsettled, commit_lookup,
}
use living_cost_manager.Billing.Cancel.{request_cancellation, cancel}
use living_cost_manager.Billing.Refunds.{
  new_refund, amount_reserved, insert_refund, reserve_refund, request_refund,
}
use living_cost_manager.Billing.Sound.{IsSound}
use living_cost_manager.Billing.Writes.{orders_of}
use living_cost_manager.Billing.Process.{
  World, Step, written, sent, start, further, lookup_committed,
}
use living_cost_manager.Billing.Once.{is_id, charged_once}
use living_cost_manager.Billing.Fences.{overtaken_commit_skips}
use living_cost_manager.Billing.Periods.{is_chain}
use living_cost_manager.Billing.Coverage.{Reach-is_chain}
use living_cost_manager.Billing.Stopped.{canceled_not_charged}
use living_cost_manager.Billing.Reserved.{request_refund-bounds}
use living_cost_manager.Examples.Charges.{
  config, scope, text, now, contract, attempt, prepared_store, prepared_store-IsSound,
  prepared_world, charged_store, charged_world, checkout,
}

abbrev decrypt : Instrument → Option Text
decrypt i = some text

abbrev dispatched_store : Store
dispatched_store = record charged_store { attempts = mark_dispatched now attempt ∷ [] }

dispatched :
    dispatch decrypt config 30 now charged_store
    ≡ ok (claimed (order decrypt contract attempt text), dispatched_store)
unfolding dispatch claim_dispatch is_current_quote quote_data catalog_amount catalog_months text_eq
    find any all update_where
dispatched = refl

abbrev claimed_world : World
claimed_world = record { store = dispatched_store; orders = 40 ∷ []; sent = [] }

abbrev sent_world : World
sent_world = record { store = dispatched_store; orders = []; sent = 40 ∷ [] }

charged_once_example : count_if (is_id 40) (40 ∷ []) ≤ 1
charged_once_example =
    charged_once decrypt {s = prepared_store} {w = sent_world} 40 prepared_store-IsSound (
      further {v = claimed_world}
        (further {v = charged_world} (further {v = prepared_world} start checkout)
          (Step.claimed config 30 now dispatched))
        (sent [] 40 [] refl))

-- the charge was sent, and the claim of its dispatch released
abbrev released : Attempt
released = record (mark_dispatched now attempt) {
  lease_owner = none;
  lease_until = none;
  next_lookup_at = some now;
}

abbrev leased_store : Store
leased_store = record charged_store { attempts = lease_to 1 now released ∷ [] }

abbrev leased_world : World
leased_world = record { store = leased_store; orders = []; sent = 40 ∷ [] }

leased_store-IsSound : IsSound leased_store
unfolding any all count_if
leased_store-IsSound = record {
  ledger = record { ids = λ k. ground arith; payments = λ k. ground arith; rows = refl };
  targets = refl;
}

abbrev overtaken_store : Store
overtaken_store = record charged_store {
  attempts = lease_to 2 (now + 40000) (lease_to 1 now released) ∷ [];
}

overtaking :
    claim_lookup config 30 false 2 (now + 40000) leased_store
    ≡ ok (some (lease_to 2 (now + 40000) (lease_to 1 now released)), overtaken_store)
unfolding claim_lookup text_eq find update_where
overtaking = refl

late :
    commit_lookup config 30 1 2 no_report now (now + 50000) overtaken_store
    ≡ ok (skipped, overtaken_store)
unfolding commit_lookup find
late = refl

overtaken_commit_skips_example : (overtaken_store ≡ overtaken_store) × (skipped ≡ skipped)
unfolding find
overtaken_commit_skips_example =
    overtaken_commit_skips decrypt config 30 2 (now + 40000) false no_report now (now + 50000)
      {w = leased_world} {v = leased_world}
      {u = record { store = overtaken_store; orders = []; sent = 40 ∷ [] }} leased_store-IsSound
      refl start overtaking start 1 late

abbrev observation : PaymentObservation
observation = record {
  payment_id = 40;
  subject_id = 6;
  scope = scope;
  channel_id = text;
  status = is_paid;
  total_amount = 990;
  currency = krw;
  paid_at = some now;
  cancelled_amount = 0;
  cancellations = [];
}

abbrev paid_store : Store
paid_store =
    commit (commit_lookup config 30 1 2 (reported observation) now (now + 9) leased_store)
      leased_store

settled :
    commit_lookup config 30 1 2 (reported observation) now (now + 9) leased_store
    ≡ ok (committed 2 now 0 990, paid_store)
unfolding commit_lookup observe_unsettled pay insert_period last_period
    service_billing_period_boundary text_eq find any update_where quote_data catalog_amount
    catalog_months korean_midnight day_number month_start days_before_year days_before_month
    month_length last_day_of_month is_leap anchored_date civil_of_day year_of_day month_of_day
settled = refl

abbrev paid_world : World
paid_world = record { store = paid_store; orders = []; sent = 40 ∷ [] }

Reach-is_chain_example : is_chain 5 none paid_store.periods ≡ true
unfolding is_chain
Reach-is_chain_example = Reach-is_chain decrypt 5 {w = leased_world} {v = paid_world} refl (
    further {v = leased_world} start
      (written (lookup_committed config 30 1 2 (reported observation) now (now + 9) settled)))

abbrev paid : Attempt
paid = record released {
  status = AttemptStatus.paid;
  fence = 2;
  lookup_count = 1;
  next_lookup_at = none;
  paid_at = some now;
}

abbrev settled_store : Store
settled_store = record charged_store { attempts = paid ∷ [] }

settled_store-IsSound : IsSound settled_store
unfolding any all count_if
settled_store-IsSound = record {
  ledger = record { ids = λ k. ground arith; payments = λ k. ground arith; rows = refl };
  targets = refl;
}

abbrev refunded_store : Store
refunded_store = record settled_store { refunds = new_refund paid text text 990 50 ∷ [] }

refunding :
    request_refund config 1 30 text text 50 settled_store
    ≡ ok (new_refund paid text text 990 50, refunded_store)
unfolding request_refund reserve_refund insert_refund amount_reserved owned_contract text_eq find
    any quote_data catalog_amount
refunding = refl

request_refund-bounds_example : amount_reserved 30 refunded_store.refunds ≤ paid.total_amount
unfolding amount_reserved find quote_data catalog_amount
request_refund-bounds_example =
    request_refund-bounds config 1 30 text text 50 30 settled_store {a = paid} settled_store-IsSound
      refl (omega arith) refunding

abbrev canceled_store : Store
canceled_store = record charged_store {
  contracts = request_cancellation contract ∷ [];
  attempts = cancel_before_dispatch attempt ∷ [];
}

canceling :
    cancel config 1 charged_store ≡ ok ((request_cancellation contract, false), canceled_store)
unfolding cancel owned_contract text_eq find any update_where
canceling = refl

no_dispatch : dispatch decrypt config 30 (now + 1) canceled_store ≡ ok (unclaimed, canceled_store)
unfolding dispatch text_eq find
no_dispatch = refl

canceled_not_charged_example : orders_of unclaimed ≡ []
unfolding find
canceled_not_charged_example =
    canceled_not_charged decrypt config config 1 30 (now + 1) charged_world
      {v = record { store = canceled_store; orders = []; sent = [] }}
      {a = cancel_before_dispatch attempt} canceling start refl refl no_dispatch

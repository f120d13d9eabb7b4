-- ===== src/Billing/Settle.antt =====
-- apps/api/src/services/service-billing.ts, the second transaction of `reconcile`: a payment that
-- is reported for the first time becomes a paid period, and each report an outcome.
use living_cost_manager.Prelude.{
  ℕ, ◌+◌, ◌*◌, Bool, true, false, not, ◌&&◌, ◌||◌, Option, none, some, List, [], ◌∷◌, ◌++◌, ltb,
  leb, ◌==◌, if◌then◌else◌, any,
}
use living_cost_manager.Billing.{
  Contract, ContractStatus, Quote, Attempt, AttemptStatus, Owner, reconciler, Period, Config,
}
use living_cost_manager.Billing.Tx.{
  billing_not_found, missing_row, unique_violation, period_inconsistency, Tx, ◌>>=◌, ◌>>◌, pure,
  gets, modify, require, query, find_contract, find_quote, find_attempt, set_contract, set_attempt,
}
use living_cost_manager.Billing.Quotes.{service_billing_period_boundary}
use living_cost_manager.Billing.Reconcile.{
  PaymentStatus, is_paid, has_failed, is_pending, PaymentObservation, Report, no_report,
  invalid_evidence, reported, ReconcileOutcome, skipped, in_review, is_settled,
  is_valid_observation, released, fresh, reject_evidence, observe_settled, retry_settled,
  retry_unsettled,
}

abbrev later_period : Period → Option Period → Option Period
later_period p none = some p
later_period p (some q) = if ltb p.cycle q.cycle then some q else some p

-- `orderBy: { cycle: "desc" }`
unfoldable pub last_period : ℕ → List Period → Option Period
last_period contract_id [] = none
last_period contract_id (p ∷ periods) =
    let rest = last_period contract_id periods in
    if p.contract_id == contract_id then later_period p rest else rest

abbrev pub starts_after : Option Period → ℕ → ℕ
starts_after none paid_at = paid_at
starts_after (some p) paid_at = p.ends_at

abbrev pub follows : Option Period → ℕ → Bool
follows none cycle = true
follows (some p) cycle = p.cycle + 1 == cycle

abbrev pub anchor_of : Contract → ℕ → ℕ
anchor_of c paid_at = elim c.original_anchor [ none ↦ paid_at | some t ↦ t ]

abbrev clashes : Period → Period → Bool
clashes p r =
    (r.attempt_id == p.attempt_id) || ((r.contract_id == p.contract_id) && (r.cycle == p.cycle))

unfoldable pub insert_period : Period → Tx (Unit {0})
insert_period p = do
  taken ← gets (λ s. any (clashes p) s.periods)
  require (not taken) unique_violation
  modify (λ s. record s { periods = s.periods ++ p ∷ [] })

abbrev pub new_period : Attempt → (contract_id starts_at ends_at now : ℕ) → Period
new_period a contract_id starts_at ends_at now = record {
  attempt_id = a.id;
  contract_id = contract_id;
  cycle = a.cycle;
  environment = a.scope.environment;
  starts_at = starts_at;
  ends_at = ends_at;
  access_ends_at = ends_at;
  verified_at = now;
}

abbrev pub mark_paid : ℕ → Attempt → Attempt
mark_paid paid_at r = record (released r) {
  status = AttemptStatus.paid;
  paid_at = some paid_at;
  next_lookup_at = none;
}

abbrev pub activate : Quote → Attempt → ℕ → Contract → Contract
activate q a anchor r = record r {
  status =
      if r.cancel_requested then ContractStatus.cancel_at_period_end else ContractStatus.active;
  plan_id = some q.plan_id;
  original_anchor = some anchor;
  next_cycle = a.cycle + 1;
  version = r.version + 1;
}

unfoldable pub pay :
    Contract
    → Quote
    → Attempt
    → PaymentObservation
    → (paid_at initiated_at now : ℕ) → Tx ReconcileOutcome
unfolding last_period
pay c q a o paid_at initiated_at now = do
  previous ← gets (λ s. last_period c.id s.periods)
  let anchor = anchor_of c paid_at
  let starts_at = starts_after previous paid_at
  let ends_at = service_billing_period_boundary anchor (q.period_months * (a.cycle + 1))
  require (ltb starts_at ends_at && follows previous a.cycle) period_inconsistency
  insert_period (new_period a c.id starts_at ends_at now)
  modify (set_attempt a.id (mark_paid paid_at))
  modify (set_contract c.id (activate q a anchor))
  pure (fresh a initiated_at o)

abbrev pub mark_failed : Attempt → Attempt
mark_failed r = record (released r) { status = AttemptStatus.failed; next_lookup_at = none }

abbrev pub hold_cancelled : Attempt → Attempt
hold_cancelled r = record (released r) {
  status = AttemptStatus.manual_review;
  review_required = true;
  next_lookup_at = none;
}

-- a valid observation of a payment that was not yet verified
unfoldable pub observe_unsettled :
    Contract → Quote → Attempt → PaymentObservation → (initiated_at now : ℕ) → Tx ReconcileOutcome
observe_unsettled c q a o initiated_at now =
    if ltb 0 o.cancelled_amount
    then (do modify (set_attempt a.id hold_cancelled); pure in_review)
    else elim o.status [
      | is_paid ↦ elim o.paid_at [
        | none ↦ retry_unsettled a now
        | some t ↦ if leb t now then pay c q a o t initiated_at now else retry_unsettled a now
      ]
      | has_failed ↦ (do modify (set_attempt a.id mark_failed); pure (fresh a initiated_at o))
      | is_pending ↦ retry_unsettled a now
    ]

abbrev is_payment : PaymentStatus → Bool
is_payment is_paid = true
is_payment _ = false

abbrev observe :
    Config
    → Contract
    → Quote
    → Attempt
    → PaymentObservation
    → (initiated_at now : ℕ) → Tx ReconcileOutcome
observe config c q a o initiated_at now =
    if not (is_valid_observation c q a o)
    then reject_evidence a
    else if not (is_settled a.status)
    then observe_unsettled c q a o initiated_at now
    else if is_payment o.status
    then observe_settled config c a o initiated_at now
    else retry_settled a now

abbrev pub commit_report :
    Config → Contract → Quote → Attempt → Report → (initiated_at now : ℕ) → Tx ReconcileOutcome
commit_report config c q a invalid_evidence initiated_at now = reject_evidence a
commit_report config c q a no_report initiated_at now =
    if is_settled a.status then retry_settled a now else retry_unsettled a now
commit_report config c q a (reported o) initiated_at now = observe config c q a o initiated_at now

abbrev is_owner : ℕ → Option Owner → Bool
is_owner k (some (reconciler n)) = n == k
is_owner k _ = false

-- the lease of the claim, with its fence
abbrev pub is_held : ℕ → ℕ → Attempt → Bool
is_held owner fence a = is_owner owner a.lease_owner && (a.fence == fence)

-- the second transaction of `reconcile`, for the claim of `owner` with `fence`
unfoldable pub commit_lookup :
    Config → (attempt_id owner fence : ℕ) → Report → (initiated_at now : ℕ) → Tx ReconcileOutcome
commit_lookup config attempt_id owner fence report initiated_at now = do
  a ← query (find_attempt attempt_id) missing_row
  c ← query (find_contract a.contract_id) billing_not_found
  if not (is_held owner fence a) then pure skipped else (do
    q ← query (find_quote a.quote_id) missing_row
    commit_report config c q a report initiated_at now)

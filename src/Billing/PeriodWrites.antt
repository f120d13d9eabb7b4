-- ===== src/Billing/PeriodWrites.antt =====
-- Each transaction leaves the paid periods as they were, ends the access of some, or appends the
-- next one of a contract.
use living_cost_manager.Prelude.{
  ℕ, ◌+◌, ◌*◌, Bool, true, Option, List, [], ◌∷◌, ◌++◌, Text, ◌⊎◌, ◌≡◌, refl, ◌∙◌, arith, inl, inr,
  update_where,
}
use living_cost_manager.Billing.{
  Contract, Quote, Instrument, Attempt, Period, Refund, Store, Config,
}
use living_cost_manager.Billing.Tx.{ok, and_then-eq-ok}
use living_cost_manager.Billing.Quotes.{
  service_billing_period_boundary, create_quote, prepare, confirm, owned_contract,
  owned_or_new_contract, valid_quote,
}
use living_cost_manager.Billing.Charge.{charge, reserve_checkout, insert_attempt}
use living_cost_manager.Billing.Renew.{has_attempt_id, renew, reserve_cycle}
use living_cost_manager.Billing.Dispatch.{dispatch, claim_dispatch, release_dispatch, DispatchClaim}
use living_cost_manager.Billing.Reconcile.{
  PaymentObservation, Cancellation, Report, no_report, invalid_evidence, reported, ReconcileOutcome,
  claim_lookup, match_cancellation, match_cancellations, reject_evidence, retry_settled,
  retry_unsettled, observe_settled, end_access,
}
use living_cost_manager.Billing.Settle.{
  last_period, starts_after, anchor_of, new_period, insert_period, pay, observe_unsettled,
  commit_report, commit_lookup,
}
use living_cost_manager.Billing.Cancel.{
  cancel, complete_cancel, revoke_instrument, complete_revocation,
}
use living_cost_manager.Billing.Recovery.{claim_recovery, retry_recovery}
use living_cost_manager.Billing.Refunds.{
  request_refund, reserve_refund, insert_refund, approve_refund, claim_refund, retry_refund,
  commit_refund, end_paid_access,
}
use living_cost_manager.Billing.Lookups.{stale, current, commit_lookup-LookupCommit}
use living_cost_manager.Billing.Process.{
  Transaction, quoted, prepared, confirmed, checked_out, renewed, released, looked_up,
  lookup_committed, canceled, cancel_completed, revocation_claimed, revocation_completed,
  refund_requested, refund_approved, refund_claimed, refund_retried, refund_committed,
  recovery_claimed, recovery_retried,
}
use living_cost_manager.Billing.Periods.{continues, KeepsBounds}

pub data PeriodWrite (xs ys : List Period) : Type 0 where
  kept : ys ≡ xs → PeriodWrite xs ys
  ended :
      (q : Period → Bool) (f : Period → Period)
      → KeepsBounds f
      → ys ≡ update_where q f xs
      → PeriodWrite xs ys
  extended :
      (p : Period)
      → ys ≡ xs ++ p ∷ []
      → continues (last_period p.contract_id xs) p ≡ true
      → PeriodWrite xs ys

end_access-KeepsBounds : (now : ℕ) → KeepsBounds (end_access now)
end_access-KeepsBounds now = record {
  contract = λ p. refl;
  cycle = λ p. refl;
  starts = λ p. refl;
  ends = λ p. refl;
}

end_paid_access-KeepsBounds : (now : ℕ) → KeepsBounds (end_paid_access now)
end_paid_access-KeepsBounds now = record {
  contract = λ p. refl;
  cycle = λ p. refl;
  starts = λ p. refl;
  ends = λ p. refl;
}

pay-PeriodWrite :
    (c : Contract) (q : Quote) (a : Attempt) (o : PaymentObservation) (t i now : ℕ) (s : Store)
    {out : ReconcileOutcome} {after : Store}
    → pay c q a o t i now s ≡ ok (out, after)
    → PeriodWrite s.periods after.periods
unfolding pay insert_period
pay-PeriodWrite c q a o t i now s {after = u} h =
    let ends_at =
      service_billing_period_boundary (anchor_of c t) (q.period_months * (a.cycle + 1)) in
    let p = new_period a c.id (starts_after (last_period c.id s.periods) t) ends_at now in
    extended p (ground arith) (ground arith)

match_cancellations_periods :
    (config : Config) (a : Attempt) (ns : List Cancellation) (now : ℕ) (s : Store) {out : Bool}
    {after : Store}
    → match_cancellations config a ns now s ≡ ok (out, after)
    → after.periods ≡ s.periods
unfolding match_cancellations
match_cancellations_periods config a [] now s h = ground arith
match_cancellations_periods config a (n ∷ ns) now s {after = t} h =
    let (u, s₁, e₁, e₂) = and_then-eq-ok (match_cancellation config a n now s) _ h in
    let (v, s₂, e₃, e₄) = and_then-eq-ok (match_cancellations config a ns now s₁) _ e₂ in
    let first : s₁.periods ≡ s.periods = ground (arith, e₁) in
    let last : t.periods ≡ s₂.periods = ground (arith, e₄) in
    rw (last, match_cancellations_periods config a ns now s₁ e₃, first)

observe_settled-PeriodWrite :
    (config : Config) (c : Contract) (a : Attempt) (o : PaymentObservation) (i now : ℕ) (s : Store)
    {out : ReconcileOutcome} {after : Store}
    → observe_settled config c a o i now s ≡ ok (out, after)
    → PeriodWrite s.periods after.periods
unfolding observe_settled
observe_settled-PeriodWrite config c a o i now s {after = t} h =
    let (unknown, s₁, e₁, e₂) =
      and_then-eq-ok (match_cancellations config a o.cancellations now s) _ h in
    let same = match_cancellations_periods config a o.cancellations now s e₁ in
    let cases : (t.periods ≡ s₁.periods)
        ⊎ (t.periods ≡ update_where (has_attempt_id a.id) (end_access now) s₁.periods) =
      ground (arith, e₂) in
    elim cases [
      | inl e ↦ kept (e ∙ same)
      | inr e ↦
          ended (has_attempt_id a.id) (end_access now) (end_access-KeepsBounds now) (rw (e, same))
    ]

observe_unsettled-PeriodWrite :
    (c : Contract) (q : Quote) (a : Attempt) (o : PaymentObservation) (i now : ℕ) (s : Store)
    {out : ReconcileOutcome} {after : Store}
    → observe_unsettled c q a o i now s ≡ ok (out, after)
    → PeriodWrite s.periods after.periods
unfolding observe_unsettled retry_unsettled
observe_unsettled-PeriodWrite c q a o i now s {out} {after = t} h =
    let cases : (t.periods ≡ s.periods) ⊎ ((p : ℕ) × (pay c q a o p i now s ≡ ok (out, t))) =
      grind arith in
    elim cases [ inl e ↦ kept e | inr (p, e) ↦ pay-PeriodWrite c q a o p i now s e ]

commit_report-PeriodWrite :
    (config : Config) (c : Contract) (q : Quote) (a : Attempt) (report : Report) (i now : ℕ)
    (s : Store) {out : ReconcileOutcome} {after : Store}
    → commit_report config c q a report i now s ≡ ok (out, after)
    → PeriodWrite s.periods after.periods
unfolding reject_evidence retry_settled retry_unsettled
commit_report-PeriodWrite config c q a invalid_evidence i now s h = kept (ground arith)
commit_report-PeriodWrite config c q a no_report i now s h = kept (ground arith)
commit_report-PeriodWrite config c q a (reported o) i now s {out} {after = t} h =
    let cases : (t.periods ≡ s.periods)
        ⊎ ((observe_unsettled c q a o i now s ≡ ok (out, t))
            ⊎ (observe_settled config c a o i now s ≡ ok (out, t))) =
      ground arith in
    elim cases [
      | inl e ↦ kept e
      | inr (inl e) ↦ observe_unsettled-PeriodWrite c q a o i now s e
      | inr (inr e) ↦ observe_settled-PeriodWrite config c a o i now s e
    ]

pub commit_lookup-PeriodWrite :
    (config : Config) (k owner fence : ℕ) (report : Report) (i now : ℕ) (s : Store)
    {out : ReconcileOutcome} {after : Store}
    → commit_lookup config k owner fence report i now s ≡ ok (out, after)
    → PeriodWrite s.periods after.periods
commit_lookup-PeriodWrite config k owner fence report i now s h =
    elim (commit_lookup-LookupCommit config k owner fence report i now s h) [
      | stale a found held e o ↦ kept (rw e)
      | current a c q found held e ↦ commit_report-PeriodWrite config c q a report i now s e
    ]

pub commit_refund-PeriodWrite :
    (p : Refund) (c owner fence k amount now : ℕ) (s : Store) {after : Store}
    → commit_refund p c owner fence k amount now s ≡ ok (tt, after)
    → PeriodWrite s.periods after.periods
unfolding commit_refund
commit_refund-PeriodWrite p c owner fence k amount now s {after = t} h =
    let cases : (t.periods ≡ s.periods)
        ⊎ (t.periods ≡ update_where (has_attempt_id p.attempt_id) (end_paid_access now) s.periods) =
      ground arith in
    elim cases [
      | inl e ↦ kept e
      | inr e ↦
          ended (has_attempt_id p.attempt_id) (end_paid_access now)
            (end_paid_access-KeepsBounds now) e
    ]

-- the transactions that write no period
module _ (s : Store) where
  pub Transaction-PeriodWrite :
      {after : Store} → Transaction s after → PeriodWrite s.periods after.periods
  unfolding create_quote owned_or_new_contract prepare owned_contract valid_quote confirm charge
      reserve_checkout insert_attempt cancel complete_cancel revoke_instrument complete_revocation
      request_refund reserve_refund insert_refund approve_refund claim_refund retry_refund
      claim_recovery retry_recovery release_dispatch claim_lookup renew reserve_cycle
  Transaction-PeriodWrite (quoted config u plan k n q now h) = kept (ground arith)
  Transaction-PeriodWrite (prepared config u q k n now h) = kept (ground arith)
  Transaction-PeriodWrite (confirmed config u k o e now h) = kept (ground arith)
  Transaction-PeriodWrite (checked_out config u input k p now fresh h) = kept (ground arith)
  Transaction-PeriodWrite (renewed config u k p q now fresh h) = kept (ground arith)
  Transaction-PeriodWrite (released k now) = kept refl
  Transaction-PeriodWrite (looked_up config k force owner now h) = kept (ground arith)
  Transaction-PeriodWrite (lookup_committed config k owner fence report n now h) =
      commit_lookup-PeriodWrite config k owner fence report n now s h
  Transaction-PeriodWrite (canceled config u h) = kept (ground arith)
  Transaction-PeriodWrite (cancel_completed config c v now h) = kept (ground arith)
  Transaction-PeriodWrite (revocation_claimed config u k owner now h) = kept (ground arith)
  Transaction-PeriodWrite (revocation_completed k owner v verified now h) = kept (ground arith)
  Transaction-PeriodWrite (refund_requested config u k key reason n h) = kept (ground arith)
  Transaction-PeriodWrite (refund_approved k operation policy h) = kept (ground arith)
  Transaction-PeriodWrite (refund_claimed config k owner now h) = kept (ground arith)
  Transaction-PeriodWrite (refund_retried k owner fence now) = kept refl
  Transaction-PeriodWrite (recovery_claimed config k owner now h) = kept (ground arith)
  Transaction-PeriodWrite (recovery_retried k owner fence invalid now) = kept refl
  Transaction-PeriodWrite (refund_committed p c owner fence k amount now h) =
      commit_refund-PeriodWrite p c owner fence k amount now s h

  pub dispatch_periods :
      (decrypt : Instrument → Option Text) (config : Config) (k now : ℕ) {out : DispatchClaim}
      {after : Store}
      → dispatch decrypt config k now s ≡ ok (out, after)
      → after.periods ≡ s.periods
  unfolding dispatch claim_dispatch
  dispatch_periods decrypt config k now h = ground arith

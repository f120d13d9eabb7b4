-- ===== src/Billing/ContractWrites.antt =====
-- Each transaction leaves the contracts as they were, adds one, or updates some: no update takes a
-- request of cancellation back.
use living_cost_manager.Prelude.{
  ℕ, Bool, true, Option, List, [], ◌∷◌, ◌++◌, Text, ◌⊎◌, ◌≡◌, refl, ◌∙◌, arith, inl, inr,
  update_where,
}
use living_cost_manager.Subscription.{PlanId}
use living_cost_manager.Billing.{
  Contract, Quote, Instrument, Attempt, has_contract_id, Refund, Store, Config,
}
use living_cost_manager.Billing.Tx.{ok, and_then-eq-ok}
use living_cost_manager.Billing.Quotes.{
  new_contract, create_quote, prepare, confirm, owned_contract, owned_or_new_contract, valid_quote,
}
use living_cost_manager.Billing.Charge.{charge, reserve_checkout, insert_attempt}
use living_cost_manager.Billing.Renew.{renew, stop_for_review, Renewal, reserve_cycle}
use living_cost_manager.Billing.Dispatch.{
  dispatch, claim_dispatch, stop_renewal, release_dispatch, DispatchClaim,
}
use living_cost_manager.Billing.Reconcile.{
  PaymentObservation, Cancellation, Report, no_report, invalid_evidence, reported, ReconcileOutcome,
  claim_lookup, match_cancellation, match_cancellations, reject_evidence, retry_settled,
  retry_unsettled, observe_settled, stop_contract,
}
use living_cost_manager.Billing.Settle.{
  anchor_of, activate, insert_period, pay, observe_unsettled, commit_report, commit_lookup,
}
use living_cost_manager.Billing.Cancel.{
  request_cancellation, verify_cancellation, cancel, complete_cancel, revoke_instrument,
  complete_revocation,
}
use living_cost_manager.Billing.Recovery.{claim_recovery, retry_recovery}
use living_cost_manager.Billing.Refunds.{
  request_refund, reserve_refund, insert_refund, approve_refund, claim_refund, retry_refund,
  commit_refund, stop_refunded,
}
use living_cost_manager.Billing.Lookups.{stale, current, commit_lookup-LookupCommit}
use living_cost_manager.Billing.Process.{
  Transaction, quoted, prepared, confirmed, checked_out, renewed, released, looked_up,
  lookup_committed, canceled, cancel_completed, revocation_claimed, revocation_completed,
  refund_requested, refund_approved, refund_claimed, refund_retried, refund_committed,
  recovery_claimed, recovery_retried,
}

pub record KeepsCancellation (f : Contract → Contract) : Type 0 where
  pub same_id : (c : Contract) → (f c).id ≡ c.id
  pub stays : (c : Contract) → c.cancel_requested ≡ true → (f c).cancel_requested ≡ true

pub data ContractWrite (xs ys : List Contract) : Type 0 where
  kept : ys ≡ xs → ContractWrite xs ys
  updated :
      (q : Contract → Bool) (f : Contract → Contract)
      → KeepsCancellation f
      → ys ≡ update_where q f xs
      → ContractWrite xs ys
  added : (c : Contract) → ys ≡ xs ++ c ∷ [] → ContractWrite xs ys

create_quote-ContractWrite :
    (config : Config) (u : ℕ) (plan : PlanId) (k n q now : ℕ) (s : Store) {out : Quote}
    {after : Store}
    → create_quote config u plan k n q now s ≡ ok (out, after)
    → ContractWrite s.contracts after.contracts
unfolding create_quote owned_or_new_contract
create_quote-ContractWrite config u plan k n q now s {after = t} h =
    let cases : (t.contracts ≡ s.contracts)
        ⊎ (t.contracts ≡ s.contracts ++ new_contract config k u n ∷ []) =
      ground arith in
    elim cases [ inl e ↦ kept e | inr e ↦ added (new_contract config k u n) e ]

renew-ContractWrite :
    (config : Config) (u k p q now : ℕ) (s : Store) {out : Renewal} {after : Store}
    → renew config u k p q now s ≡ ok (out, after)
    → ContractWrite s.contracts after.contracts
unfolding renew owned_contract reserve_cycle insert_attempt
renew-ContractWrite config u k p q now s {after = t} h =
    let cases : (t.contracts ≡ s.contracts)
        ⊎ ((c : ℕ) × (t.contracts ≡ update_where (has_contract_id c) stop_for_review s.contracts)) =
      grind arith in
    elim cases [
      | inl e ↦ kept e
      | inr (c, e) ↦
          updated (has_contract_id c) stop_for_review
            (record { same_id = λ r. refl; stays = λ r g. g }) e
    ]

cancel-ContractWrite :
    (config : Config) (u : ℕ) (s : Store) {out : Contract × Bool} {after : Store}
    → cancel config u s ≡ ok (out, after)
    → ContractWrite s.contracts after.contracts
unfolding cancel owned_contract
cancel-ContractWrite config u s {out} {after = t} h =
    let cases : (t.contracts ≡ s.contracts)
        ⊎ (t.contracts ≡ update_where (has_contract_id out.0.id) request_cancellation s.contracts) =
      ground arith in
    elim cases [
      | inl e ↦ kept e
      | inr e ↦
          updated (has_contract_id out.0.id) request_cancellation
            (record { same_id = λ r. refl; stays = λ r g. refl }) e
    ]

complete_cancel-ContractWrite :
    (config : Config) (c v now : ℕ) (s : Store) {after : Store}
    → complete_cancel config c v now s ≡ ok (tt, after)
    → ContractWrite s.contracts after.contracts
unfolding complete_cancel
complete_cancel-ContractWrite config c v now s {after = t} h =
    let cases : (t.contracts ≡ s.contracts)
        ⊎ (t.contracts ≡ update_where (has_contract_id c) verify_cancellation s.contracts) =
      ground arith in
    elim cases [
      | inl e ↦ kept e
      | inr e ↦
          updated (has_contract_id c) verify_cancellation
            (record { same_id = λ r. refl; stays = λ r g. g }) e
    ]

pub dispatch-ContractWrite :
    (decrypt : Instrument → Option Text) (config : Config) (k now : ℕ) (s : Store)
    {out : DispatchClaim} {after : Store}
    → dispatch decrypt config k now s ≡ ok (out, after)
    → ContractWrite s.contracts after.contracts
unfolding dispatch claim_dispatch
dispatch-ContractWrite decrypt config k now s {after = t} h =
    let cases : (t.contracts ≡ s.contracts)
        ⊎ (((c : ℕ) × (t.contracts ≡ update_where (has_contract_id c) stop_renewal s.contracts))
            ⊎ ((c : ℕ) × (t.contracts
                  ≡ update_where (has_contract_id c) stop_for_review s.contracts))) =
      grind arith in
    elim cases [
      | inl e ↦ kept e
      | inr (inl (c, e)) ↦
          updated (has_contract_id c) stop_renewal
            (record { same_id = λ r. ground arith; stays = λ r g. ground (arith, g) }) e
      | inr (inr (c, e)) ↦
          updated (has_contract_id c) stop_for_review
            (record { same_id = λ r. refl; stays = λ r g. g }) e
    ]

pay-ContractWrite :
    (c : Contract) (q : Quote) (a : Attempt) (o : PaymentObservation) (t i now : ℕ) (s : Store)
    {out : ReconcileOutcome} {after : Store}
    → pay c q a o t i now s ≡ ok (out, after)
    → ContractWrite s.contracts after.contracts
unfolding pay insert_period
pay-ContractWrite c q a o t i now s h =
    updated (has_contract_id c.id) (activate q a (anchor_of c t))
      (record { same_id = λ r. refl; stays = λ r g. g }) (ground arith)

match_cancellations_contracts :
    (config : Config) (a : Attempt) (ns : List Cancellation) (now : ℕ) (s : Store) {out : Bool}
    {after : Store}
    → match_cancellations config a ns now s ≡ ok (out, after)
    → after.contracts ≡ s.contracts
unfolding match_cancellations
match_cancellations_contracts config a [] now s h = ground arith
match_cancellations_contracts config a (n ∷ ns) now s {after = t} h =
    let (u, s₁, e₁, e₂) = and_then-eq-ok (match_cancellation config a n now s) _ h in
    let (v, s₂, e₃, e₄) = and_then-eq-ok (match_cancellations config a ns now s₁) _ e₂ in
    let first : s₁.contracts ≡ s.contracts = ground (arith, e₁) in
    let last : t.contracts ≡ s₂.contracts = ground (arith, e₄) in
    rw (last, match_cancellations_contracts config a ns now s₁ e₃, first)

observe_settled-ContractWrite :
    (config : Config) (c : Contract) (a : Attempt) (o : PaymentObservation) (i now : ℕ) (s : Store)
    {out : ReconcileOutcome} {after : Store}
    → observe_settled config c a o i now s ≡ ok (out, after)
    → ContractWrite s.contracts after.contracts
unfolding observe_settled
observe_settled-ContractWrite config c a o i now s {after = t} h =
    let (unknown, s₁, e₁, e₂) =
      and_then-eq-ok (match_cancellations config a o.cancellations now s) _ h in
    let same = match_cancellations_contracts config a o.cancellations now s e₁ in
    let cases : (t.contracts ≡ s₁.contracts)
        ⊎ (t.contracts ≡ update_where (has_contract_id c.id) stop_contract s₁.contracts) =
      ground (arith, e₂) in
    elim cases [
      | inl e ↦ kept (e ∙ same)
      | inr e ↦
          updated (has_contract_id c.id) stop_contract
            (record { same_id = λ r. refl; stays = λ r g. refl }) (rw (e, same))
    ]

observe_unsettled-ContractWrite :
    (c : Contract) (q : Quote) (a : Attempt) (o : PaymentObservation) (i now : ℕ) (s : Store)
    {out : ReconcileOutcome} {after : Store}
    → observe_unsettled c q a o i now s ≡ ok (out, after)
    → ContractWrite s.contracts after.contracts
unfolding observe_unsettled retry_unsettled
observe_unsettled-ContractWrite c q a o i now s {out} {after = t} h =
    let cases : (t.contracts ≡ s.contracts) ⊎ ((p : ℕ) × (pay c q a o p i now s ≡ ok (out, t))) =
      grind arith in
    elim cases [ inl e ↦ kept e | inr (p, e) ↦ pay-ContractWrite c q a o p i now s e ]

commit_report-ContractWrite :
    (config : Config) (c : Contract) (q : Quote) (a : Attempt) (report : Report) (i now : ℕ)
    (s : Store) {out : ReconcileOutcome} {after : Store}
    → commit_report config c q a report i now s ≡ ok (out, after)
    → ContractWrite s.contracts after.contracts
unfolding reject_evidence retry_settled retry_unsettled
commit_report-ContractWrite config c q a invalid_evidence i now s h = kept (ground arith)
commit_report-ContractWrite config c q a no_report i now s h = kept (ground arith)
commit_report-ContractWrite config c q a (reported o) i now s {out} {after = t} h =
    let cases : (t.contracts ≡ s.contracts)
        ⊎ ((observe_unsettled c q a o i now s ≡ ok (out, t))
            ⊎ (observe_settled config c a o i now s ≡ ok (out, t))) =
      ground arith in
    elim cases [
      | inl e ↦ kept e
      | inr (inl e) ↦ observe_unsettled-ContractWrite c q a o i now s e
      | inr (inr e) ↦ observe_settled-ContractWrite config c a o i now s e
    ]

pub commit_lookup-ContractWrite :
    (config : Config) (k owner fence : ℕ) (report : Report) (i now : ℕ) (s : Store)
    {out : ReconcileOutcome} {after : Store}
    → commit_lookup config k owner fence report i now s ≡ ok (out, after)
    → ContractWrite s.contracts after.contracts
commit_lookup-ContractWrite config k owner fence report i now s h =
    elim (commit_lookup-LookupCommit config k owner fence report i now s h) [
      | stale a found held e o ↦ kept (rw e)
      | current a c q found held e ↦ commit_report-ContractWrite config c q a report i now s e
    ]

commit_refund-ContractWrite :
    (p : Refund) (c owner fence k amount now : ℕ) (s : Store) {after : Store}
    → commit_refund p c owner fence k amount now s ≡ ok (tt, after)
    → ContractWrite s.contracts after.contracts
unfolding commit_refund
commit_refund-ContractWrite p c owner fence k amount now s {after = t} h =
    let cases : (t.contracts ≡ s.contracts)
        ⊎ (t.contracts ≡ update_where (has_contract_id c) stop_refunded s.contracts) =
      ground arith in
    elim cases [
      | inl e ↦ kept e
      | inr e ↦
          updated (has_contract_id c) stop_refunded
            (record { same_id = λ r. refl; stays = λ r g. refl }) e
    ]

module _ (s : Store) where
  pub Transaction-ContractWrite :
      {after : Store} → Transaction s after → ContractWrite s.contracts after.contracts
  unfolding prepare owned_contract valid_quote confirm charge reserve_checkout insert_attempt
      revoke_instrument complete_revocation request_refund reserve_refund insert_refund
      approve_refund claim_refund retry_refund claim_recovery retry_recovery release_dispatch
      claim_lookup
  Transaction-ContractWrite (quoted config u plan k n q now h) =
      create_quote-ContractWrite config u plan k n q now s h
  Transaction-ContractWrite (prepared config u q k n now h) = kept (ground arith)
  Transaction-ContractWrite (confirmed config u k o e now h) = kept (ground arith)
  Transaction-ContractWrite (checked_out config u input k p now fresh h) = kept (ground arith)
  Transaction-ContractWrite (renewed config u k p q now fresh h) =
      renew-ContractWrite config u k p q now s h
  Transaction-ContractWrite (released k now) = kept refl
  Transaction-ContractWrite (looked_up config k force owner now h) = kept (ground arith)
  Transaction-ContractWrite (lookup_committed config k owner fence report n now h) =
      commit_lookup-ContractWrite config k owner fence report n now s h
  Transaction-ContractWrite (canceled config u h) = cancel-ContractWrite config u s h
  Transaction-ContractWrite (cancel_completed config c v now h) =
      complete_cancel-ContractWrite config c v now s h
  Transaction-ContractWrite (revocation_claimed config u k owner now h) = kept (ground arith)
  Transaction-ContractWrite (revocation_completed k owner v verified now h) = kept (ground arith)
  Transaction-ContractWrite (refund_requested config u k key reason n h) = kept (ground arith)
  Transaction-ContractWrite (refund_approved k operation policy h) = kept (ground arith)
  Transaction-ContractWrite (refund_claimed config k owner now h) = kept (ground arith)
  Transaction-ContractWrite (refund_retried k owner fence now) = kept refl
  Transaction-ContractWrite (recovery_claimed config k owner now h) = kept (ground arith)
  Transaction-ContractWrite (recovery_retried k owner fence invalid now) = kept refl
  Transaction-ContractWrite (refund_committed p c owner fence k amount now h) =
      commit_refund-ContractWrite p c owner fence k amount now s h

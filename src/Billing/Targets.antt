-- ===== src/Billing/Targets.antt =====
-- The attempts that refunds are for: no transaction moves a refund to another attempt, and a new
-- one is for a payment that was verified.
use living_cost_manager.Prelude.{
  ℕ, Bool, true, Option, List, [], ◌∷◌, Text, ◌⊎◌, ◌≡◌, refl, arith, inl, inr, all, update_where,
}
use living_cost_manager.Billing.{Contract, Quote, Instrument, Attempt, Refund, Store, Config}
use living_cost_manager.Billing.Tx.{ok, and_then-eq-ok}
use living_cost_manager.Billing.Quotes.{owned_contract, valid_quote}
use living_cost_manager.Billing.Charge.{ChargeInput, charge, insert_attempt, reserve_checkout}
use living_cost_manager.Billing.Renew.{Renewal, renew, reserve_cycle}
use living_cost_manager.Billing.Dispatch.{DispatchClaim, dispatch, claim_dispatch}
use living_cost_manager.Billing.Reconcile.{
  PaymentObservation, has_refund_id, verify_refund, Cancellation, no_report, invalid_evidence,
  reported, Report, ReconcileOutcome, claim_lookup, match_cancellation, match_cancellations,
  reject_evidence, observe_settled, retry_settled, retry_unsettled,
}
use living_cost_manager.Billing.Settle.{
  pay, insert_period, observe_unsettled, commit_report, commit_lookup,
}
use living_cost_manager.Billing.Cancel.{cancel}
use living_cost_manager.Billing.Lookups.{stale, current, commit_lookup-LookupCommit}
use living_cost_manager.Billing.Recovery.{
  lease_recovery, is_held_in_dispatch, wait_recovery, claim_recovery, retry_recovery,
}
use living_cost_manager.Billing.Refunds.{
  hold_refund, approve, lease_refund, is_held, wait_refund, approve_refund, claim_refund,
  retry_refund,
}

-- whatever holds of the attempts of all refunds still does
abbrev pub SameTargets : List Refund → List Refund → Type 0
SameTargets xs ys =
    (g : ℕ → Bool) → all (λ r. g r.attempt_id) xs ≡ true → all (λ r. g r.attempt_id) ys ≡ true

pub SameTargets-update :
    (q : Refund → Bool) (f : Refund → Refund) (xs : List Refund)
    → ((r : Refund) → (f r).attempt_id ≡ r.attempt_id)
    → SameTargets xs (update_where q f xs)
unfolding all update_where
SameTargets-update q f [] same g h = refl
SameTargets-update q f (x ∷ xs) same g h =
    ground (arith, same x, h, SameTargets-update q f xs same g)

pub charge_refunds :
    (config : Config) (u : ℕ) (input : ChargeInput) (k p now : ℕ) (s : Store) {out : Attempt}
    {after : Store}
    → charge config u input k p now s ≡ ok (out, after)
    → after.refunds ≡ s.refunds
unfolding charge reserve_checkout insert_attempt owned_contract valid_quote
charge_refunds config u input k p now s h = ground arith

pub renew_refunds :
    (config : Config) (u k p q now : ℕ) (s : Store) {out : Renewal} {after : Store}
    → renew config u k p q now s ≡ ok (out, after)
    → after.refunds ≡ s.refunds
unfolding renew owned_contract reserve_cycle insert_attempt
renew_refunds config u k p q now s h = ground arith

pub cancel_refunds :
    (config : Config) (u : ℕ) (s : Store) {out : Contract × Bool} {after : Store}
    → cancel config u s ≡ ok (out, after)
    → after.refunds ≡ s.refunds
unfolding cancel owned_contract
cancel_refunds config u s h = ground arith

pub dispatch_refunds :
    (decrypt : Instrument → Option Text) (config : Config) (k now : ℕ) (s : Store)
    {out : DispatchClaim} {after : Store}
    → dispatch decrypt config k now s ≡ ok (out, after)
    → after.refunds ≡ s.refunds
unfolding dispatch claim_dispatch
dispatch_refunds decrypt config k now s h = ground arith

pub claim_lookup_refunds :
    (config : Config) (k : ℕ) (force : Bool) (owner now : ℕ) (s : Store) {out : Option Attempt}
    {after : Store}
    → claim_lookup config k force owner now s ≡ ok (out, after)
    → after.refunds ≡ s.refunds
unfolding claim_lookup
claim_lookup_refunds config k force owner now s h = ground arith

match_cancellation-SameTargets :
    (config : Config) (a : Attempt) (n : Cancellation) (now : ℕ) (s : Store) {out : Bool}
    {after : Store}
    → match_cancellation config a n now s ≡ ok (out, after)
    → SameTargets s.refunds after.refunds
match_cancellation-SameTargets config a n now s {after = t} h =
    let cases : (t.refunds ≡ s.refunds)
        ⊎ ((k : ℕ) × (t.refunds ≡ update_where (has_refund_id k) (verify_refund n now) s.refunds)) =
      grind arith in
    elim cases [
      | inl e ↦ rw e (λ g p. p)
      | inr (k, e) ↦
          rw e (SameTargets-update (has_refund_id k) (verify_refund n now) s.refunds (λ r. refl))
    ]

match_cancellations-SameTargets :
    (config : Config) (a : Attempt) (ns : List Cancellation) (now : ℕ) (s : Store) {out : Bool}
    {after : Store}
    → match_cancellations config a ns now s ≡ ok (out, after)
    → SameTargets s.refunds after.refunds
unfolding match_cancellations
match_cancellations-SameTargets config a [] now s {after = t} h =
    let e : t.refunds ≡ s.refunds = ground arith in rw e (λ g p. p)
match_cancellations-SameTargets config a (n ∷ ns) now s {after = t} h =
    let (u, s₁, e₁, e₂) = and_then-eq-ok (match_cancellation config a n now s) _ h in
    let (v, s₂, e₃, e₄) = and_then-eq-ok (match_cancellations config a ns now s₁) _ e₂ in
    let last : t.refunds ≡ s₂.refunds = ground (arith, e₄) in
    rw last (λ g p.
      match_cancellations-SameTargets config a ns now s₁ e₃ g
        (match_cancellation-SameTargets config a n now s e₁ g p))

observe_settled-SameTargets :
    (config : Config) (c : Contract) (a : Attempt) (o : PaymentObservation) (i now : ℕ) (s : Store)
    {out : ReconcileOutcome} {after : Store}
    → observe_settled config c a o i now s ≡ ok (out, after)
    → SameTargets s.refunds after.refunds
unfolding observe_settled
observe_settled-SameTargets config c a o i now s {after = t} h =
    let (unknown, s₁, e₁, e₂) =
      and_then-eq-ok (match_cancellations config a o.cancellations now s) _ h in
    let last : t.refunds ≡ s₁.refunds = ground (arith, e₂) in
    rw last (match_cancellations-SameTargets config a o.cancellations now s e₁)

pay_refunds :
    (c : Contract) (q : Quote) (a : Attempt) (o : PaymentObservation) (t i now : ℕ) (s : Store)
    {out : ReconcileOutcome} {after : Store}
    → pay c q a o t i now s ≡ ok (out, after)
    → after.refunds ≡ s.refunds
unfolding pay insert_period
pay_refunds c q a o t i now s h = ground arith

observe_unsettled_refunds :
    (c : Contract) (q : Quote) (a : Attempt) (o : PaymentObservation) (i now : ℕ) (s : Store)
    {out : ReconcileOutcome} {after : Store}
    → observe_unsettled c q a o i now s ≡ ok (out, after)
    → after.refunds ≡ s.refunds
unfolding observe_unsettled retry_unsettled
observe_unsettled_refunds c q a o i now s {out} {after = t} h =
    let cases : (t.refunds ≡ s.refunds) ⊎ ((p : ℕ) × (pay c q a o p i now s ≡ ok (out, t))) =
      grind arith in
    elim cases [ inl e ↦ e | inr (p, e) ↦ pay_refunds c q a o p i now s e ]

commit_report-SameTargets :
    (config : Config) (c : Contract) (q : Quote) (a : Attempt) (report : Report) (i now : ℕ)
    (s : Store) {out : ReconcileOutcome} {after : Store}
    → commit_report config c q a report i now s ≡ ok (out, after)
    → SameTargets s.refunds after.refunds
unfolding reject_evidence retry_settled retry_unsettled
commit_report-SameTargets config c q a invalid_evidence i now s {after = t} h =
    let e : t.refunds ≡ s.refunds = ground arith in rw e (λ g p. p)
commit_report-SameTargets config c q a no_report i now s {after = t} h =
    let e : t.refunds ≡ s.refunds = ground arith in rw e (λ g p. p)
commit_report-SameTargets config c q a (reported o) i now s {out} {after = t} h =
    let cases : (t.refunds ≡ s.refunds)
        ⊎ ((observe_unsettled c q a o i now s ≡ ok (out, t))
            ⊎ (observe_settled config c a o i now s ≡ ok (out, t))) =
      ground arith in
    elim cases [
      | inl e ↦ rw e (λ g p. p)
      | inr (inl e) ↦ rw (observe_unsettled_refunds c q a o i now s e) (λ g p. p)
      | inr (inr e) ↦ observe_settled-SameTargets config c a o i now s e
    ]

pub commit_lookup-SameTargets :
    (config : Config) (k owner fence : ℕ) (report : Report) (i now : ℕ) (s : Store)
    {out : ReconcileOutcome} {after : Store}
    → commit_lookup config k owner fence report i now s ≡ ok (out, after)
    → SameTargets s.refunds after.refunds
commit_lookup-SameTargets config k owner fence report i now s h =
    elim (commit_lookup-LookupCommit config k owner fence report i now s h) [
      | stale a found held e o ↦ rw e (λ g p. p)
      | current a c q found held e ↦ commit_report-SameTargets config c q a report i now s e
    ]

pub approve_refund-SameTargets :
    (k : ℕ) (operation policy : Text) (s : Store) {after : Store}
    → approve_refund k operation policy s ≡ ok (tt, after)
    → (after.attempts ≡ s.attempts) × SameTargets s.refunds after.refunds
unfolding approve_refund
approve_refund-SameTargets k operation policy s {after = t} h =
    let cases : (t.refunds ≡ s.refunds)
        ⊎ (t.refunds ≡ update_where (has_refund_id k) (approve operation policy) s.refunds) =
      ground arith in
    (
      ground arith,
      elim cases [
        | inl e ↦ rw e (λ g p. p)
        | inr e ↦
            rw e (
              SameTargets-update (has_refund_id k) (approve operation policy) s.refunds (λ r. refl))
      ],
    )

pub claim_refund-SameTargets :
    (config : Config) (k owner now : ℕ) (s : Store) {out : Option (Refund × Bool)} {after : Store}
    → claim_refund config k owner now s ≡ ok (out, after)
    → (after.attempts ≡ s.attempts) × SameTargets s.refunds after.refunds
unfolding claim_refund
claim_refund-SameTargets config k owner now s {after = t} h =
    let cases : (t.refunds ≡ s.refunds)
        ⊎ (t.refunds ≡ update_where (has_refund_id k) (lease_refund owner now) s.refunds) =
      ground arith in
    (
      ground arith,
      elim cases [
        | inl e ↦ rw e (λ g p. p)
        | inr e ↦
            rw e
              (SameTargets-update (has_refund_id k) (lease_refund owner now) s.refunds (λ r. refl))
      ],
    )

pub claim_recovery-SameTargets :
    (config : Config) (k owner now : ℕ) (s : Store) {out : Option Refund} {after : Store}
    → claim_recovery config k owner now s ≡ ok (out, after)
    → (after.attempts ≡ s.attempts) × SameTargets s.refunds after.refunds
unfolding claim_recovery
claim_recovery-SameTargets config k owner now s {after = t} h =
    let cases : (t.refunds ≡ s.refunds)
        ⊎ ((t.refunds ≡ update_where (has_refund_id k) hold_refund s.refunds)
            ⊎ (t.refunds ≡ update_where (has_refund_id k) (lease_recovery owner now) s.refunds)) =
      ground arith in
    (
      ground arith,
      elim cases [
        | inl e ↦ rw e (λ g p. p)
        | inr (inl e) ↦
            rw e (SameTargets-update (has_refund_id k) hold_refund s.refunds (λ r. refl))
        | inr (inr e) ↦
            rw e (
              SameTargets-update (has_refund_id k) (lease_recovery owner now) s.refunds (λ r. refl))
      ],
    )

pub retry_recovery-SameTargets :
    (k owner fence : ℕ) (invalid : Bool) (now : ℕ) (s : Store)
    → SameTargets s.refunds (retry_recovery k owner fence invalid now s).refunds
unfolding retry_recovery
retry_recovery-SameTargets k owner fence invalid now s =
    SameTargets-update (is_held_in_dispatch k owner fence) (wait_recovery invalid now) s.refunds
      (λ r. ground arith)

pub retry_refund-SameTargets :
    (k owner fence now : ℕ) (s : Store)
    → SameTargets s.refunds (retry_refund k owner fence now s).refunds
unfolding retry_refund
retry_refund-SameTargets k owner fence now s =
    SameTargets-update (is_held k owner fence) (wait_refund now) s.refunds (λ r. ground arith)

-- ===== src/Billing/LookupWrites.antt =====
-- The writes of `reconcile` on the attempts: the lease, and one write for each report.
use living_cost_manager.Prelude.{
  ℕ, Bool, true, false, Option, some, List, [], ◌∷◌, ◌⊎◌, ◌≡◌, refl, arith, inl, inr, Option-cases,
  find, update_where,
}
use living_cost_manager.Billing.{Contract, Quote, Attempt, dispatch_unknown, Store, Config, has_id}
use living_cost_manager.Billing.Tx.{ok, and_then-eq-ok}
use living_cost_manager.Billing.Reconcile.{
  PaymentObservation, Cancellation, Report, no_report, invalid_evidence, reported, ReconcileOutcome,
  is_settled, lease_to, claim_lookup, match_cancellations, to_review, reject_evidence,
  match_cancellation, observe_settled, observe_cancellation, retry_settled, retry_unsettled,
  wait_settled, wait_unsettled,
}
use living_cost_manager.Billing.Settle.{
  insert_period, mark_paid, mark_failed, hold_cancelled, pay, observe_unsettled, commit_report,
  is_held,
}
use living_cost_manager.Billing.Lifecycle.{
  stay, settle, decline, give_up, pay_back, Advances, is_well_formed, is_looked_up, IsLedger,
  IsStep,
}
use living_cost_manager.Billing.Ledger.{IsStep-refl, IsStep-found, find-rows}

pub record IsWrite (a : Attempt) (xs ys : List Attempt) : Type 0 where
  pub f : Attempt → Attempt
  pub result : ys ≡ update_where (has_id a.id) f xs
  pub same_id : (r : Attempt) → (f r).id ≡ r.id
  pub same_payment : (r : Attempt) → (f r).payment_id ≡ r.payment_id
  pub advances : Advances a (f a)
  pub well_formed : is_well_formed (f a) ≡ true

pub IsWrite-IsStep :
    (k : ℕ) (a : Attempt) {xs ys : List Attempt}
    → IsLedger xs
    → find (has_id k) xs ≡ some a
    → IsWrite a xs ys
    → IsStep xs ys
IsWrite-IsStep k a {xs} l e w =
    rw (w.result) (IsStep-found k w.f a xs w.same_id w.same_payment l e w.advances w.well_formed)

pub claim_lookup-IsStep :
    (config : Config) (k : ℕ) (force : Bool) (owner now : ℕ) (s : Store) {out : Option Attempt}
    {after : Store}
    → IsLedger s.attempts
    → claim_lookup config k force owner now s ≡ ok (out, after)
    → IsStep s.attempts after.attempts
unfolding claim_lookup
claim_lookup-IsStep config k force owner now s {out} {after} l h =
    elim (Option-cases (find (has_id k) s.attempts)) [
      | inl e ↦
          let same : after.attempts ≡ s.attempts = ground (arith, e, h) in
          rw same (IsStep-refl s.attempts l)
      | inr (a, e) ↦
          let w : is_well_formed a ≡ true =
            find-rows is_well_formed (has_id k) s.attempts l.rows e in
          let cases : (after.attempts ≡ s.attempts)
              ⊎ ((is_well_formed (lease_to owner now a) ≡ true)
                  × (after.attempts ≡ update_where (has_id a.id) (lease_to owner now) s.attempts)) =
            ground (arith, e, h, w) in
          elim cases [
            | inl same ↦ rw same (IsStep-refl s.attempts l)
            | inr (v, r) ↦ IsWrite-IsStep k a l e (record {
              f = lease_to owner now;
              result = r;
              same_id = λ r. refl;
              same_payment = λ r. refl;
              advances = grind (arith, stay);
              well_formed = v;
            })
          ]
    ]

match_cancellations_same :
    (config : Config) (a : Attempt) (ns : List Cancellation) (now : ℕ) (s : Store) {out : Bool}
    {after : Store}
    → match_cancellations config a ns now s ≡ ok (out, after)
    → after.attempts ≡ s.attempts
unfolding match_cancellations
match_cancellations_same config a [] now s h = ground arith
match_cancellations_same config a (n ∷ ns) now s {after = t} h =
    let (u, s₁, e₁, e₂) = and_then-eq-ok (match_cancellation config a n now s) _ h in
    let (v, s₂, e₃, e₄) = and_then-eq-ok (match_cancellations config a ns now s₁) _ e₂ in
    let first : s₁.attempts ≡ s.attempts = ground (arith, e₁) in
    let last : t.attempts ≡ s₂.attempts = ground (arith, e₄) in
    rw (last, match_cancellations_same config a ns now s₁ e₃, first)

module _ (a : Attempt) (now : ℕ) (s : Store) where
  reject-IsWrite :
      {out : ReconcileOutcome} {after : Store}
      → is_well_formed a ≡ true
      → is_looked_up a.status ≡ true
      → reject_evidence a s ≡ ok (out, after)
      → IsWrite a s.attempts after.attempts
  unfolding reject_evidence
  reject-IsWrite w u h = record {
    f = to_review;
    result = ground arith;
    same_id = λ r. ground arith;
    same_payment = λ r. ground arith;
    advances = grind (arith, stay, give_up);
    well_formed = ground arith;
  }

  retry_settled-IsWrite :
      {out : ReconcileOutcome} {after : Store}
      → is_well_formed a ≡ true
      → is_settled a.status ≡ true
      → retry_settled a now s ≡ ok (out, after)
      → IsWrite a s.attempts after.attempts
  unfolding retry_settled
  retry_settled-IsWrite w u h = record {
    f = wait_settled now;
    result = ground arith;
    same_id = λ r. ground arith;
    same_payment = λ r. ground arith;
    advances = grind (arith, stay);
    well_formed = ground arith;
  }

  retry_unsettled-IsWrite :
      {out : ReconcileOutcome} {after : Store}
      → is_well_formed a ≡ true
      → a.status ≡ dispatch_unknown
      → retry_unsettled a now s ≡ ok (out, after)
      → IsWrite a s.attempts after.attempts
  unfolding retry_unsettled
  retry_unsettled-IsWrite w u h = record {
    f = wait_unsettled now;
    result = ground arith;
    same_id = λ r. ground arith;
    same_payment = λ r. ground arith;
    advances = grind (arith, stay, give_up);
    well_formed = ground arith;
  }

  pay-IsWrite :
      (c : Contract) (q : Quote) (o : PaymentObservation) (t i : ℕ) {out : ReconcileOutcome}
      {after : Store}
      → is_well_formed a ≡ true
      → a.status ≡ dispatch_unknown
      → pay c q a o t i now s ≡ ok (out, after)
      → IsWrite a s.attempts after.attempts
  unfolding pay insert_period
  pay-IsWrite c q o t i w u h = record {
    f = mark_paid t;
    result = ground arith;
    same_id = λ r. refl;
    same_payment = λ r. refl;
    advances = grind (arith, settle);
    well_formed = ground arith;
  }

  fail-IsWrite :
      is_well_formed a ≡ true
      → a.status ≡ dispatch_unknown
      → IsWrite a s.attempts (update_where (has_id a.id) mark_failed s.attempts)
  fail-IsWrite w u = record {
    f = mark_failed;
    result = refl;
    same_id = λ r. refl;
    same_payment = λ r. refl;
    advances = grind (arith, decline);
    well_formed = ground arith;
  }

  hold-IsWrite :
      is_well_formed a ≡ true
      → a.status ≡ dispatch_unknown
      → IsWrite a s.attempts (update_where (has_id a.id) hold_cancelled s.attempts)
  hold-IsWrite w u = record {
    f = hold_cancelled;
    result = refl;
    same_id = λ r. refl;
    same_payment = λ r. refl;
    advances = grind (arith, give_up);
    well_formed = ground arith;
  }

  observe_settled-IsWrite :
      (config : Config) (c : Contract) (o : PaymentObservation) (i : ℕ) {out : ReconcileOutcome}
      {after : Store}
      → is_well_formed a ≡ true
      → is_settled a.status ≡ true
      → observe_settled config c a o i now s ≡ ok (out, after)
      → IsWrite a s.attempts after.attempts
  unfolding observe_settled
  observe_settled-IsWrite config c o i {after = t} w u h =
      let (unknown, s₁, e₁, e₂) =
        and_then-eq-ok (match_cancellations config a o.cancellations now s) _ h in
      let same = match_cancellations_same config a o.cancellations now s e₁ in
      let written : t.attempts
          ≡ update_where (has_id a.id) (observe_cancellation o.cancelled_amount unknown)
              s₁.attempts =
        ground (arith, e₂) in
      record {
        f = observe_cancellation o.cancelled_amount unknown;
        result = rw (written, same);
        same_id = λ r. refl;
        same_payment = λ r. refl;
        advances = grind (arith, stay, pay_back);
        well_formed = ground arith;
      }

-- the state of an attempt that a reconciliation holds
pub held_status :
    (owner fence : ℕ) (a : Attempt)
    → is_well_formed a ≡ true
    → is_held owner fence a ≡ true
    → is_looked_up a.status ≡ true
held_status owner fence a w h = ground arith

unsettled_status :
    (a : Attempt)
    → is_looked_up a.status ≡ true
    → is_settled a.status ≡ false
    → a.status ≡ dispatch_unknown
unsettled_status a u h = ground arith

observe_unsettled-IsWrite :
    (c : Contract) (q : Quote) (a : Attempt) (o : PaymentObservation) (i now : ℕ) (s : Store)
    {out : ReconcileOutcome} {after : Store}
    → is_well_formed a ≡ true
    → a.status ≡ dispatch_unknown
    → observe_unsettled c q a o i now s ≡ ok (out, after)
    → IsWrite a s.attempts after.attempts
unfolding observe_unsettled
observe_unsettled-IsWrite c q a o i now s {out} {after = t} w u h =
    let cases : (t.attempts ≡ update_where (has_id a.id) hold_cancelled s.attempts)
        ⊎ ((t.attempts ≡ update_where (has_id a.id) mark_failed s.attempts)
            ⊎ ((retry_unsettled a now s ≡ ok (out, t))
                ⊎ ((p : ℕ) × (pay c q a o p i now s ≡ ok (out, t))))) =
      grind arith in
    elim cases [
      | inl e ↦ rw e (hold-IsWrite a now s w u)
      | inr (inl e) ↦ rw e (fail-IsWrite a now s w u)
      | inr (inr (inl e)) ↦ retry_unsettled-IsWrite a now s w u e
      | inr (inr (inr (p, e))) ↦ pay-IsWrite a now s c q o p i w u e
    ]

pub commit_report-IsWrite :
    (config : Config) (c : Contract) (q : Quote) (a : Attempt) (report : Report) (i now : ℕ)
    (s : Store) {out : ReconcileOutcome} {after : Store}
    → is_well_formed a ≡ true
    → is_looked_up a.status ≡ true
    → commit_report config c q a report i now s ≡ ok (out, after)
    → IsWrite a s.attempts after.attempts
commit_report-IsWrite config c q a invalid_evidence i now s w u h = reject-IsWrite a now s w u h
commit_report-IsWrite config c q a no_report i now s {out} {after = t} w u h =
    let cases : ((is_settled a.status ≡ true) × (retry_settled a now s ≡ ok (out, t)))
        ⊎ ((is_settled a.status ≡ false) × (retry_unsettled a now s ≡ ok (out, t))) =
      ground arith in
    elim cases [
      | inl (f, e) ↦ retry_settled-IsWrite a now s w f e
      | inr (f, e) ↦ retry_unsettled-IsWrite a now s w (unsettled_status a u f) e
    ]
commit_report-IsWrite config c q a (reported o) i now s {out} {after = t} w u h =
    let cases : (reject_evidence a s ≡ ok (out, t))
        ⊎ (((is_settled a.status ≡ false) × (observe_unsettled c q a o i now s ≡ ok (out, t)))
            ⊎ (((is_settled a.status ≡ true) × (observe_settled config c a o i now s ≡ ok (out, t)))
                ⊎ ((is_settled a.status ≡ true) × (retry_settled a now s ≡ ok (out, t))))) =
      ground arith in
    elim cases [
      | inl e ↦ reject-IsWrite a now s w u e
      | inr (inl (f, e)) ↦ observe_unsettled-IsWrite c q a o i now s w (unsettled_status a u f) e
      | inr (inr (inl (f, e))) ↦ observe_settled-IsWrite a now s config c o i w f e
      | inr (inr (inr (f, e))) ↦ retry_settled-IsWrite a now s w f e
    ]

-- ===== src/Billing/Writes.antt =====
-- Each transaction of service-billing.ts makes at most one write on the table of attempts, along an
-- edge of the diagram.
use living_cost_manager.Prelude.{
  ℕ, Bool, Option, none, some, List, [], ◌∷◌, Text, ◌⊎◌, ◌≡◌, refl, arith, inl, inr, Option-cases,
  find, update_where,
}
use living_cost_manager.Subscription.{PlanId}
use living_cost_manager.Billing.{
  Contract, Quote, Instrument, Envelope, Attempt, created, dispatch_unknown, Store, Config, has_id,
}
use living_cost_manager.Billing.Tx.{ok}
use living_cost_manager.Billing.Quotes.{
  InstrumentObservation, create_quote, prepare, confirm, owned_contract, owned_or_new_contract,
  valid_quote,
}
use living_cost_manager.Billing.Dispatch.{
  cancel_before_dispatch, mark_dispatched, release, is_leased_by_dispatch, claimed, DispatchClaim,
  dispatch, claim_dispatch, release_dispatch,
}
use living_cost_manager.Billing.Reconcile.{lease_to, wait_unsettled}
use living_cost_manager.Billing.Settle.{mark_paid}
use living_cost_manager.Billing.Cancel.{
  is_open_of, stop_attempts, cancel, complete_cancel, revoke_instrument, complete_revocation,
}
use living_cost_manager.Billing.Lifecycle.{
  stay, drop, send, settle, give_up, Advances, is_well_formed, IsLedger, IsStep,
}
use living_cost_manager.Billing.Ledger.{IsStep-refl, IsStep-update, IsStep-found, find-rows}

pub owned_contract_same :
    (config : Config) (u : ℕ) (s : Store) {c : Contract} {after : Store}
    → owned_contract config u s ≡ ok (c, after)
    → after ≡ s
unfolding owned_contract
owned_contract_same config u s h = ground arith

owned_or_new_contract_same :
    (config : Config) (u k n : ℕ) (s : Store) {c : Contract} {after : Store}
    → owned_or_new_contract config u k n s ≡ ok (c, after)
    → after.attempts ≡ s.attempts
unfolding owned_or_new_contract
owned_or_new_contract_same config u k n s h = ground arith

valid_quote_same :
    (config : Config) (c k now : ℕ) (s : Store) {q : Quote} {after : Store}
    → valid_quote config c k now s ≡ ok (q, after)
    → after ≡ s
unfolding valid_quote
valid_quote_same config c k now s h = ground arith

pub create_quote_same :
    (config : Config) (u : ℕ) (plan : PlanId) (k n q now : ℕ) (s : Store) {out : Quote}
    {after : Store}
    → create_quote config u plan k n q now s ≡ ok (out, after)
    → (after.attempts ≡ s.attempts) × (after.refunds ≡ s.refunds)
unfolding create_quote owned_or_new_contract
create_quote_same config u plan k n q now s h = (ground arith, ground arith)

pub prepare_same :
    (config : Config) (u q k n now : ℕ) (s : Store) {out : Instrument × ℕ} {after : Store}
    → prepare config u q k n now s ≡ ok (out, after)
    → (after.attempts ≡ s.attempts) × (after.refunds ≡ s.refunds)
unfolding prepare owned_contract valid_quote
prepare_same config u q k n now s h = (ground arith, ground arith)

pub confirm_same :
    (config : Config) (u k : ℕ) (o : InstrumentObservation) (e : Envelope) (now : ℕ) (s : Store)
    {after : Store}
    → confirm config u k o e now s ≡ ok (tt, after)
    → (after.attempts ≡ s.attempts) × (after.refunds ≡ s.refunds)
unfolding confirm owned_contract valid_quote
confirm_same config u k o e now s h = (ground arith, ground arith)

pub cancel-Advances : (a : Attempt) → a.status ≡ created → Advances a (cancel_before_dispatch a)
cancel-Advances a h = grind (arith, drop)

mark_dispatched-Advances :
    (now : ℕ) (a : Attempt)
    → a.status ≡ created
    → a.dispatch_at ≡ none
    → Advances a (mark_dispatched now a)
mark_dispatched-Advances now a h d = grind (arith, send)

release-Advances : (now : ℕ) (a : Attempt) → Advances a (release now a)
release-Advances now a = grind (arith, stay)

lease_to-Advances : (owner now : ℕ) (a : Attempt) → Advances a (lease_to owner now a)
lease_to-Advances owner now a = grind (arith, stay)

wait_unsettled-Advances :
    (now : ℕ) (a : Attempt) → a.status ≡ dispatch_unknown → Advances a (wait_unsettled now a)
wait_unsettled-Advances now a h = grind (arith, stay, give_up)

mark_paid-Advances :
    (t : ℕ) (a : Attempt) → a.status ≡ dispatch_unknown → Advances a (mark_paid t a)
mark_paid-Advances t a h = grind (arith, settle)

pub cancel_write :
    (config : Config) (u : ℕ) (s : Store) {out : Contract × Bool} {after : Store}
    → IsLedger s.attempts
    → cancel config u s ≡ ok (out, after)
    → IsStep s.attempts after.attempts
unfolding cancel owned_contract
cancel_write config u s {out} {after} l h =
    let either : (after.attempts ≡ s.attempts)
        ⊎ (after.attempts ≡ (stop_attempts out.0.id s).attempts) =
      ground arith in
    elim either [
      | inl e ↦ rw e (IsStep-refl s.attempts l)
      | inr e ↦ rw e (
          IsStep-update (is_open_of out.0.id) cancel_before_dispatch s.attempts (λ a. refl)
            (λ a. refl) (λ a q w. (cancel-Advances a (ground (arith, q)), ground (arith, q, w))) l)
    ]

pub complete_cancel_same :
    (config : Config) (c v now : ℕ) (s : Store) {after : Store}
    → complete_cancel config c v now s ≡ ok (tt, after)
    → (after.attempts ≡ s.attempts) × (after.refunds ≡ s.refunds)
unfolding complete_cancel
complete_cancel_same config c v now s h = (ground arith, ground arith)

pub revoke_instrument_same :
    (config : Config) (u k owner now : ℕ) (s : Store) {out : Option Instrument} {after : Store}
    → revoke_instrument config u k owner now s ≡ ok (out, after)
    → (after.attempts ≡ s.attempts) × (after.refunds ≡ s.refunds)
unfolding revoke_instrument owned_contract
revoke_instrument_same config u k owner now s h = (ground arith, ground arith)

pub complete_revocation_same :
    (k owner v : ℕ) (verified : Bool) (now : ℕ) (s : Store) {after : Store}
    → complete_revocation k owner v verified now s ≡ ok (tt, after)
    → (after.attempts ≡ s.attempts) × (after.refunds ≡ s.refunds)
unfolding complete_revocation
complete_revocation_same k owner v verified now s h = (ground arith, ground arith)

-- the payment that a claim of `dispatch` is to charge
abbrev pub orders_of : DispatchClaim → List ℕ
orders_of (claimed o) = o.payment_id ∷ []
orders_of _ = []

pub data DispatchWrite (s : Store) (out : DispatchClaim) (after : Store) : Type 0 where
  idle : after.attempts ≡ s.attempts → orders_of out ≡ [] → DispatchWrite s out after
  dropped :
      (k : ℕ) (a : Attempt)
      → find (has_id k) s.attempts ≡ some a
      → a.status ≡ created
      → after.attempts ≡ update_where (has_id a.id) cancel_before_dispatch s.attempts
      → orders_of out ≡ []
      → DispatchWrite s out after
  marked :
      (k now : ℕ) (a : Attempt)
      → find (has_id k) s.attempts ≡ some a
      → a.status ≡ created
      → a.dispatch_at ≡ none
      → after.attempts ≡ update_where (has_id a.id) (mark_dispatched now) s.attempts
      → orders_of out ≡ a.payment_id ∷ []
      → DispatchWrite s out after

module _ (decrypt : Instrument → Option Text) (config : Config) where
  pub dispatch-DispatchWrite :
      (k now : ℕ) (s : Store) {out : DispatchClaim} {after : Store}
      → dispatch decrypt config k now s ≡ ok (out, after)
      → DispatchWrite s out after
  unfolding dispatch claim_dispatch
  dispatch-DispatchWrite k now s {out} {after} h =
      elim (Option-cases (find (has_id k) s.attempts)) [
        | inl e ↦ idle (ground (arith, e, h)) (ground (arith, e, h))
        | inr (a, e) ↦
            let cases : ((after.attempts ≡ s.attempts) × (orders_of out ≡ []))
                ⊎ ((a.status ≡ created)
                    × (a.dispatch_at ≡ none)
                    × (((after.attempts
                            ≡ update_where (has_id a.id) cancel_before_dispatch s.attempts)
                          × (orders_of out ≡ []))
                        ⊎ ((after.attempts
                              ≡ update_where (has_id a.id) (mark_dispatched now) s.attempts)
                            × (orders_of out ≡ a.payment_id ∷ [])))) =
              ground (arith, e, h) in
            elim cases [
              | inl (f, o) ↦ idle f o
              | inr (c, d, inl (f, o)) ↦ dropped k a e c f o
              | inr (c, d, inr (f, o)) ↦ marked k now a e c d f o
            ]
      ]

  -- a claim of `dispatch` follows an edge of the diagram
  pub dispatch-IsStep :
      (k now : ℕ) (s : Store) {out : DispatchClaim} {after : Store}
      → IsLedger s.attempts
      → dispatch decrypt config k now s ≡ ok (out, after)
      → IsStep s.attempts after.attempts
  dispatch-IsStep k now s l h = elim (dispatch-DispatchWrite k now s h) [
    | idle e o ↦ rw e (IsStep-refl s.attempts l)
    | dropped n a found c e o ↦
        let w = find-rows is_well_formed (has_id n) s.attempts l.rows found in
        rw e (
          IsStep-found n cancel_before_dispatch a s.attempts (λ r. refl) (λ r. refl) l found
            (cancel-Advances a c) (ground (arith, w, c)))
    | marked n t a found c d e o ↦
        let w = find-rows is_well_formed (has_id n) s.attempts l.rows found in
        rw e (
          IsStep-found n (mark_dispatched t) a s.attempts (λ r. refl) (λ r. refl) l found
            (mark_dispatched-Advances t a c d) refl)
  ]

pub release-IsStep :
    (k now : ℕ) (s : Store)
    → IsLedger s.attempts
    → IsStep s.attempts (release_dispatch k now s).attempts
unfolding release_dispatch
release-IsStep k now s l =
    IsStep-update (is_leased_by_dispatch k) (release now) s.attempts (λ a. refl) (λ a. refl)
      (λ a q w. (release-Advances now a, ground (arith, q, w))) l

-- ===== src/Billing/Process.antt =====
-- The service beside its provider: the transactions of service-billing.ts on contracts, payments and
-- refunds, in any order and by any process, and the charges that are sent. A claimed charge is sent,
-- or lost with its process.
use living_cost_manager.Prelude.{ℕ, Bool, false, any, Option, List, ◌∷◌, ◌++◌, Text, ◌≡◌}
use living_cost_manager.Subscription.{PlanId}
use living_cost_manager.Billing.{
  Contract, Quote, Instrument, Envelope, Attempt, Refund, Store, Config,
}
use living_cost_manager.Billing.Tx.{ok}
use living_cost_manager.Billing.Quotes.{InstrumentObservation, create_quote, prepare, confirm}
use living_cost_manager.Billing.Charge.{ChargeInput, charge}
use living_cost_manager.Billing.Renew.{Renewal, renew}
use living_cost_manager.Billing.Dispatch.{DispatchClaim, dispatch, release_dispatch}
use living_cost_manager.Billing.Reconcile.{Report, ReconcileOutcome, claim_lookup}
use living_cost_manager.Billing.Settle.{commit_lookup}
use living_cost_manager.Billing.Cancel.{
  cancel, complete_cancel, revoke_instrument, complete_revocation,
}
use living_cost_manager.Billing.Lifecycle.{has_payment}
use living_cost_manager.Billing.Writes.{orders_of}
use living_cost_manager.Billing.Recovery.{claim_recovery, retry_recovery}
use living_cost_manager.Billing.Refunds.{
  request_refund, approve_refund, claim_refund, retry_refund, commit_refund,
}

-- one committed transaction, but for a claim of `dispatch`; a refused one changes nothing. The
-- id of a new payment is drawn by `randomUUID`: no attempt of any contract has it yet
pub data Transaction (s : Store) : Store → Type 0 where
  quoted :
      (config : Config) (u : ℕ) (plan : PlanId) (k n q now : ℕ) {out : Quote} {after : Store}
      → create_quote config u plan k n q now s ≡ ok (out, after)
      → Transaction s after
  prepared :
      (config : Config) (u q k n now : ℕ) {out : Instrument × ℕ} {after : Store}
      → prepare config u q k n now s ≡ ok (out, after)
      → Transaction s after
  confirmed :
      (config : Config) (u k : ℕ) (o : InstrumentObservation) (e : Envelope) (now : ℕ)
      {after : Store}
      → confirm config u k o e now s ≡ ok (tt, after)
      → Transaction s after
  checked_out :
      (config : Config) (u : ℕ) (input : ChargeInput) (k p now : ℕ) {out : Attempt} {after : Store}
      → any (has_payment p) s.attempts ≡ false
      → charge config u input k p now s ≡ ok (out, after)
      → Transaction s after
  renewed :
      (config : Config) (u k p q now : ℕ) {out : Renewal} {after : Store}
      → any (has_payment p) s.attempts ≡ false
      → renew config u k p q now s ≡ ok (out, after)
      → Transaction s after
  released : (k now : ℕ) → Transaction s (release_dispatch k now s)
  looked_up :
      (config : Config) (k : ℕ) (force : Bool) (owner now : ℕ) {out : Option Attempt}
      {after : Store}
      → claim_lookup config k force owner now s ≡ ok (out, after)
      → Transaction s after
  lookup_committed :
      (config : Config) (k owner fence : ℕ) (report : Report) (i now : ℕ) {out : ReconcileOutcome}
      {after : Store}
      → commit_lookup config k owner fence report i now s ≡ ok (out, after)
      → Transaction s after
  canceled :
      (config : Config) (u : ℕ) {out : Contract × Bool} {after : Store}
      → cancel config u s ≡ ok (out, after)
      → Transaction s after
  cancel_completed :
      (config : Config) (c v now : ℕ) {after : Store}
      → complete_cancel config c v now s ≡ ok (tt, after)
      → Transaction s after
  revocation_claimed :
      (config : Config) (u k owner now : ℕ) {out : Option Instrument} {after : Store}
      → revoke_instrument config u k owner now s ≡ ok (out, after)
      → Transaction s after
  revocation_completed :
      (k owner v : ℕ) (verified : Bool) (now : ℕ) {after : Store}
      → complete_revocation k owner v verified now s ≡ ok (tt, after)
      → Transaction s after
  refund_requested :
      (config : Config) (u k : ℕ) (key reason : Text) (n : ℕ) {out : Refund} {after : Store}
      → request_refund config u k key reason n s ≡ ok (out, after)
      → Transaction s after
  refund_approved :
      (k : ℕ) (operation policy : Text) {after : Store}
      → approve_refund k operation policy s ≡ ok (tt, after)
      → Transaction s after
  refund_claimed :
      (config : Config) (k owner now : ℕ) {out : Option (Refund × Bool)} {after : Store}
      → claim_refund config k owner now s ≡ ok (out, after)
      → Transaction s after
  refund_retried : (k owner fence now : ℕ) → Transaction s (retry_refund k owner fence now s)
  recovery_claimed :
      (config : Config) (k owner now : ℕ) {out : Option Refund} {after : Store}
      → claim_recovery config k owner now s ≡ ok (out, after)
      → Transaction s after
  recovery_retried :
      (k owner fence : ℕ) (invalid : Bool) (now : ℕ)
      → Transaction s (retry_recovery k owner fence invalid now s)
  refund_committed :
      (p : Refund) (c owner fence k amount now : ℕ) {after : Store}
      → commit_refund p c owner fence k amount now s ≡ ok (tt, after)
      → Transaction s after

-- the charges that are claimed and not yet sent, and those that were sent, by their payments
pub record World : Type 0 where
  pub store : Store
  pub orders : List ℕ
  pub sent : List ℕ

module _ (decrypt : Instrument → Option Text) where
  pub data Step (w : World) : World → Type 0 where
    written : {after : Store} → Transaction w.store after → Step w (record w { store = after })
    claimed :
        (config : Config) (k now : ℕ) {out : DispatchClaim} {after : Store}
        → dispatch decrypt config k now w.store ≡ ok (out, after)
        → Step w (record w { store = after; orders = orders_of out ++ w.orders })
    sent :
        (xs : List ℕ) (p : ℕ) (ys : List ℕ)
        → w.orders ≡ xs ++ p ∷ ys
        → Step w (record w { orders = xs ++ ys; sent = p ∷ w.sent })
    lost :
        (xs : List ℕ) (p : ℕ) (ys : List ℕ)
        → w.orders ≡ xs ++ p ∷ ys
        → Step w (record w { orders = xs ++ ys })

  pub data Reach : World → World → Type 0 where
    start : {w : World} → Reach w w
    further : {u v w : World} → Reach u v → Step v w → Reach u w

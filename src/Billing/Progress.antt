-- ===== src/Billing/Progress.antt =====
-- Every step of the service keeps its tables sound, and moves the attempts along the diagram.
use living_cost_manager.Prelude.{Option, List, Text, ◌≡◌, refl}
use living_cost_manager.Billing.{Refund, Instrument, Store}
use living_cost_manager.Billing.Recovery.{retry_recovery}
use living_cost_manager.Billing.Refunds.{retry_refund}
use living_cost_manager.Billing.Dispatch.{release_dispatch}
use living_cost_manager.Billing.Ledger.{IsStep-refl}
use living_cost_manager.Billing.Writes.{
  dispatch-IsStep, create_quote_same, prepare_same, confirm_same, cancel_write,
  complete_cancel_same, revoke_instrument_same, complete_revocation_same, release-IsStep,
}
use living_cost_manager.Billing.Reservations.{
  Reservation-IsStep, charge-Reservation, renew-Reservation,
}
use living_cost_manager.Billing.LookupWrites.{claim_lookup-IsStep}
use living_cost_manager.Billing.Lookups.{commit_lookup-IsStep}
use living_cost_manager.Billing.Targets.{
  SameTargets, charge_refunds, renew_refunds, cancel_refunds, dispatch_refunds,
  claim_lookup_refunds, commit_lookup-SameTargets, approve_refund-SameTargets,
  claim_refund-SameTargets, retry_refund-SameTargets, claim_recovery-SameTargets,
  retry_recovery-SameTargets,
}
use living_cost_manager.Billing.Sound.{
  IsSound, Keeps, IsStep-Keeps, Keeps-same, request_refund-Keeps, commit_refund-Keeps,
}
use living_cost_manager.Billing.Process.{
  Transaction, quoted, prepared, confirmed, checked_out, renewed, released, looked_up,
  lookup_committed, canceled, cancel_completed, revocation_claimed, revocation_completed,
  refund_requested, refund_approved, refund_claimed, refund_retried, refund_committed,
  recovery_claimed, recovery_retried, World, Step, written, claimed, sent, lost,
}

same_refunds : {xs ys : List Refund} → ys ≡ xs → SameTargets xs ys
same_refunds e = rw e (λ g p. p)

pub Transaction-Keeps :
    {s : Store} {after : Store} → IsSound s → Transaction s after → Keeps s after
unfolding release_dispatch retry_refund retry_recovery
Transaction-Keeps {s} i (quoted config u plan k n q now h) =
    let (e, f) = create_quote_same config u plan k n q now s h in Keeps-same i e f
Transaction-Keeps {s} i (prepared config u q k n now h) =
    let (e, f) = prepare_same config u q k n now s h in Keeps-same i e f
Transaction-Keeps {s} i (confirmed config u k o e now h) =
    let (e, f) = confirm_same config u k o e now s h in Keeps-same i e f
Transaction-Keeps {s} {after = t} i (checked_out config u input k p now fresh h) =
    IsStep-Keeps i
      (Reservation-IsStep s p t i.ledger fresh (charge-Reservation config u input k p now s h))
      (same_refunds (charge_refunds config u input k p now s h))
Transaction-Keeps {s} {after = t} i (renewed config u k p q now fresh h) =
    IsStep-Keeps i
      (Reservation-IsStep s p t i.ledger fresh (renew-Reservation config u k p q now s i.ledger h))
      (same_refunds (renew_refunds config u k p q now s h))
Transaction-Keeps {s} i (released k now) =
    IsStep-Keeps i (release-IsStep k now s i.ledger) (λ g p. p)
Transaction-Keeps {s} i (looked_up config k force owner now h) =
    IsStep-Keeps i (claim_lookup-IsStep config k force owner now s i.ledger h)
      (same_refunds (claim_lookup_refunds config k force owner now s h))
Transaction-Keeps {s} i (lookup_committed config k owner fence report n now h) =
    IsStep-Keeps i (commit_lookup-IsStep config k owner fence report n now s i.ledger h)
      (commit_lookup-SameTargets config k owner fence report n now s h)
Transaction-Keeps {s} i (canceled config u h) =
    IsStep-Keeps i (cancel_write config u s i.ledger h) (same_refunds (cancel_refunds config u s h))
Transaction-Keeps {s} i (cancel_completed config c v now h) =
    let (e, f) = complete_cancel_same config c v now s h in Keeps-same i e f
Transaction-Keeps {s} i (revocation_claimed config u k owner now h) =
    let (e, f) = revoke_instrument_same config u k owner now s h in Keeps-same i e f
Transaction-Keeps {s} i (revocation_completed k owner v verified now h) =
    let (e, f) = complete_revocation_same k owner v verified now s h in Keeps-same i e f
Transaction-Keeps {s} i (refund_requested config u k key reason n h) =
    request_refund-Keeps config u k key reason n s i h
Transaction-Keeps {s} i (refund_approved k operation policy h) =
    let (e, f) = approve_refund-SameTargets k operation policy s h in
    IsStep-Keeps i (rw e (IsStep-refl s.attempts i.ledger)) f
Transaction-Keeps {s} i (refund_claimed config k owner now h) =
    let (e, f) = claim_refund-SameTargets config k owner now s h in
    IsStep-Keeps i (rw e (IsStep-refl s.attempts i.ledger)) f
Transaction-Keeps {s} i (refund_retried k owner fence now) =
    IsStep-Keeps i (IsStep-refl s.attempts i.ledger) (retry_refund-SameTargets k owner fence now s)
Transaction-Keeps {s} i (recovery_claimed config k owner now h) =
    let (e, f) = claim_recovery-SameTargets config k owner now s h in
    IsStep-Keeps i (rw e (IsStep-refl s.attempts i.ledger)) f
Transaction-Keeps {s} i (recovery_retried k owner fence invalid now) =
    IsStep-Keeps i (IsStep-refl s.attempts i.ledger)
      (retry_recovery-SameTargets k owner fence invalid now s)
Transaction-Keeps {s} i (refund_committed p c owner fence k amount now h) =
    commit_refund-Keeps p c owner fence k amount now s i h

module _ (decrypt : Instrument → Option Text) where
  -- A step of the service keeps its tables sound, and moves each payment attempt along at most one
  -- edge of the diagram; it adds at most one, which is created and not dispatched.
  pub Step-Keeps : {w v : World} → IsSound w.store → Step decrypt w v → Keeps w.store v.store
  Step-Keeps i (written h) = Transaction-Keeps i h
  Step-Keeps {w} i (claimed config k now h) =
      IsStep-Keeps i (dispatch-IsStep decrypt config k now w.store i.ledger h)
        (same_refunds (dispatch_refunds decrypt config k now w.store h))
  Step-Keeps i (sent xs p ys e) = Keeps-same i refl refl
  Step-Keeps i (lost xs p ys e) = Keeps-same i refl refl

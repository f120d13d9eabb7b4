-- ===== src/Subscription/Reconciled.antt =====
-- A payment attempt over any sequence of the provider's reports (`reconcileAttempt`).
use living_cost_manager.Prelude.{
  ℕ, ◌+◌, ◌≤◌, Bool, true, false, not, ◌&&◌, Option, none, some, List, [], ◌∷◌, ◌≡◌, refl, arith,
  Bool-cases, ◌⊎◌, inl, inr,
}
use living_cost_manager.Subscription.{
  AttemptState, ObservedStatus, Attempt, VerifiedObservation, PaidPeriod, stale, Reconciliation,
  matches, is_stale, next_status, is_paid, settled_with, reconcile_attempt,
}

abbrev kept_attempt : Attempt → Option Reconciliation → Attempt
kept_attempt a none = a
kept_attempt a (some r) = r.attempt

abbrev issued : Option Reconciliation → ℕ
issued none = 0
issued (some r) = elim r.period [ none ↦ 0 | some p ↦ 1 ]

-- the number of periods that a sequence of reports gets an attempt; a refused report changes nothing
abbrev pub periods_issued : Attempt → List VerifiedObservation → ℕ
periods_issued a [] = 0
periods_issued a (o ∷ os) =
    let r = reconcile_attempt a o in issued r + periods_issued (kept_attempt a r) os

-- whether the attempt has been paid, now or before a refund
abbrev was_paid : AttemptState → Bool
was_paid AttemptState.paid = true
was_paid AttemptState.refund_review = true
was_paid _ = false

next-was_paid :
    (s : AttemptState) (o : ObservedStatus) → was_paid s ≡ true → was_paid (next_status s o) ≡ true
next-was_paid AttemptState.pending o h = absurd (ground arith)
next-was_paid AttemptState.failed o h = absurd (ground arith)
next-was_paid AttemptState.paid ObservedStatus.pending h = refl
next-was_paid AttemptState.paid ObservedStatus.failed h = refl
next-was_paid AttemptState.paid ObservedStatus.paid h = refl
next-was_paid AttemptState.paid ObservedStatus.refunded h = refl
next-was_paid AttemptState.refund_review ObservedStatus.pending h = refl
next-was_paid AttemptState.refund_review ObservedStatus.failed h = refl
next-was_paid AttemptState.refund_review ObservedStatus.paid h = refl
next-was_paid AttemptState.refund_review ObservedStatus.refunded h = refl

-- an attempt that was paid gets no period
paid_again :
    (s : AttemptState) (o : ObservedStatus)
    → was_paid s ≡ true
    → is_paid (next_status s o) && not (is_paid s) ≡ false
paid_again AttemptState.pending o h = absurd (ground arith)
paid_again AttemptState.failed o h = absurd (ground arith)
paid_again AttemptState.paid ObservedStatus.pending h = refl
paid_again AttemptState.paid ObservedStatus.failed h = refl
paid_again AttemptState.paid ObservedStatus.paid h = refl
paid_again AttemptState.paid ObservedStatus.refunded h = refl
paid_again AttemptState.refund_review ObservedStatus.pending h = refl
paid_again AttemptState.refund_review ObservedStatus.failed h = refl
paid_again AttemptState.refund_review ObservedStatus.paid h = refl
paid_again AttemptState.refund_review ObservedStatus.refunded h = refl

-- a report on an attempt that was paid
reconcile_paid :
    (a : Attempt) (o : VerifiedObservation)
    → was_paid a.status ≡ true
    → (issued (reconcile_attempt a o) ≡ 0)
      × (was_paid (kept_attempt a (reconcile_attempt a o)).status ≡ true)
unfolding reconcile_attempt
reconcile_paid a o h = (
  ground (arith, paid_again a.status o.status h),
  ground (arith, h, paid_again a.status o.status h, next-was_paid a.status o.status h),
)

none_issued :
    (os : List VerifiedObservation) (a : Attempt)
    → was_paid a.status ≡ true
    → periods_issued a os ≡ 0
none_issued [] a h = refl
none_issued (o ∷ os) a h =
    let (zero, still) = reconcile_paid a o h in
    omega (arith, zero, none_issued os (kept_attempt a (reconcile_attempt a o)) still)

paid-was_paid : (s : AttemptState) → is_paid s ≡ true → was_paid s ≡ true
paid-was_paid AttemptState.pending h = absurd (ground arith)
paid-was_paid AttemptState.failed h = absurd (ground arith)
paid-was_paid AttemptState.paid h = refl
paid-was_paid AttemptState.refund_review h = refl

-- a report that gets a period leaves the attempt paid
settle_paid :
    (a next : Attempt) (o : Option PaidPeriod)
    → was_paid next.status ≡ true
    → (issued (settled_with next o) ≡ 0)
      ⊎ ((issued (settled_with next o) ≡ 1)
          × (was_paid (kept_attempt a (settled_with next o)).status ≡ true))
settle_paid a next none h = inl refl
settle_paid a next (some p) h = inr (refl, h)

reconcile_settles :
    (a : Attempt) (o : VerifiedObservation)
    → (issued (reconcile_attempt a o) ≡ 0)
      ⊎ ((issued (reconcile_attempt a o) ≡ 1)
          × (was_paid (kept_attempt a (reconcile_attempt a o)).status ≡ true))
unfolding reconcile_attempt
reconcile_settles a o = elim (Bool-cases (matches a o)) [
  | inr e ↦ inl (rw e)
  | inl e ↦ elim (Bool-cases (is_stale o.fetched_at a.reconciled_at)) [
    | inl old ↦ inl (rw (e, old))
    | inr fresh ↦
        elim (Bool-cases (is_paid (next_status a.status o.status) && not (is_paid a.status))) [
          | inr same ↦ inl (rw (e, fresh, same))
          | inl newly ↦
              rw (e, fresh, newly)
                (settle_paid a
                  (record a {
                    status = next_status a.status o.status;
                    reconciled_at = some o.fetched_at;
                  })
                  _ (paid-was_paid (next_status a.status o.status) (ground (arith, newly))))
        ]
  ]
]

-- Whatever the provider reports, in whatever order and however often, an attempt gets one paid
-- period at most.
pub settles_once : (os : List VerifiedObservation) (a : Attempt) → periods_issued a os ≤ 1
settles_once [] a = omega arith
settles_once (o ∷ os) a = elim (reconcile_settles a o) [
  | inl zero ↦ omega (arith, zero, settles_once os (kept_attempt a (reconcile_attempt a o)))
  | inr (one, paid) ↦
      omega (arith, one, none_issued os (kept_attempt a (reconcile_attempt a o)) paid)
]

stale_again :
    (a : Attempt) (o : VerifiedObservation)
    → matches a o ≡ true
    → is_stale o.fetched_at a.reconciled_at ≡ true
    → reconcile_attempt a o ≡ some (record { attempt = a; outcome = stale; period = none })
unfolding reconcile_attempt
stale_again a o m old = rw (m, old)

settled_with-attempt :
    (next : Attempt) (o : Option PaidPeriod) {r : Reconciliation}
    → settled_with next o ≡ some r
    → r.attempt ≡ next
settled_with-attempt next none h = absurd (ground arith)
settled_with-attempt next (some p) h = ground arith

-- a report that is taken in leaves an attempt for which it is stale
taken_in :
    (a : Attempt) (o : VerifiedObservation) {r : Reconciliation}
    → reconcile_attempt a o ≡ some r
    → (matches r.attempt o ≡ true) × (is_stale o.fetched_at r.attempt.reconciled_at ≡ true)
unfolding reconcile_attempt
taken_in a o {r} h = elim (Bool-cases (matches a o)) [
  | inr e ↦ absurd (ground (arith, rw e at h))
  | inl e ↦ elim (Bool-cases (is_stale o.fetched_at a.reconciled_at)) [
    | inl old ↦
        let same : r.attempt ≡ a = ground (arith, rw (e, old) at h) in
        (rw (same, e), rw (same, old))
    | inr fresh ↦
        let next : Attempt = record a {
          status = next_status a.status o.status;
          reconciled_at = some o.fetched_at;
        } in
        let same : r.attempt ≡ next =
          elim (Bool-cases (is_paid (next_status a.status o.status) && not (is_paid a.status))) [
            | inr b ↦ ground (arith, rw (e, fresh, b) at h)
            | inl b ↦ settled_with-attempt next _ (rw (e, fresh, b) at h)
          ] in
        (rw (same, e), rw same (ground arith))
  ]
]

-- A report that is delivered again after it has been taken in changes nothing: it counts as stale,
-- and gets no period.
pub redelivery_is_stale :
    (a : Attempt) (o : VerifiedObservation) {r : Reconciliation}
    → reconcile_attempt a o ≡ some r
    → reconcile_attempt r.attempt o
      ≡ some (record { attempt = r.attempt; outcome = stale; period = none })
redelivery_is_stale a o {r} h = let (m, old) = taken_in a o h in stale_again r.attempt o m old

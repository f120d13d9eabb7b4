-- ===== src/Billing/Sound.antt =====
-- What holds of the tables between two transactions of service-billing.ts, and that the
-- transactions of a refund keep it.
use living_cost_manager.Prelude.{
  ℕ, Bool, true, ◌&&◌, some, List, [], ◌∷◌, ◌++◌, Text, ◌≤◌, ◌⊎◌, ◌≡◌, refl, subst, arith, inl, inr,
  Bool-cases, all, any, find, count_if, update_where, ◌==◌,
}
use living_cost_manager.Billing.{Contract, Attempt, AttemptStatus, Refund, Store, Config, has_id}
use living_cost_manager.Billing.Tx.{ok, missing_row, or_fail, and_then-eq-ok, or_fail-result}
use living_cost_manager.Billing.Quotes.{owned_contract}
use living_cost_manager.Billing.Reconcile.{is_settled, has_refund_id}
use living_cost_manager.Billing.Refunds.{
  hold_refund, complete_refund, mark_refunded, is_attempt_of, insert_refund, reserve_refund,
  request_refund, commit_refund,
}
use living_cost_manager.Billing.Lifecycle.{
  Edge, stay, drop, send, settle, decline, give_up, pay_back, is_well_formed, Evolves, unchanged,
  added, moved, IsLedger, IsStep,
}
use living_cost_manager.Billing.Ledger.{IsStep-refl, IsStep-set, find-rows}
use living_cost_manager.Billing.Targets.{SameTargets, SameTargets-update}

-- an attempt with this id whose payment was verified
abbrev pub is_target : ℕ → Attempt → Bool
is_target k a = (a.id == k) && is_settled a.status

pub record IsSound (s : Store) : Type 0 where
  pub ledger : IsLedger s.attempts
  pub targets : all (λ r. any (is_target r.attempt_id) s.attempts) s.refunds ≡ true

-- a transaction that keeps the tables sound, and moves each attempt along the diagram
pub record Keeps (s after : Store) : Type 0 where
  pub sound : IsSound after
  pub evolves : Evolves s.attempts after.attempts

settled_stays : {x y : AttemptStatus} → Edge x y → is_settled x ≡ true → is_settled y ≡ true
settled_stays stay h = h
settled_stays drop h = absurd (ground arith)
settled_stays send h = absurd (ground arith)
settled_stays settle h = refl
settled_stays decline h = absurd (ground arith)
settled_stays give_up h = absurd (ground arith)
settled_stays pay_back h = refl

pub target_stays :
    (k : ℕ) {xs ys : List Attempt}
    → Evolves xs ys
    → any (is_target k) xs ≡ true
    → any (is_target k) ys ≡ true
unfolding any
target_stays k unchanged h = h
target_stays k (added a c d) h = absurd (ground (arith, h))
target_stays k (moved {a} {b} m rest) h =
    ground (arith, h, m.same_id, settled_stays m.follows, target_stays k rest)

all_mono :
    (p q : Refund → Bool) (xs : List Refund)
    → ((r : Refund) → p r ≡ true → q r ≡ true)
    → all p xs ≡ true
    → all q xs ≡ true
unfolding all
all_mono p q [] f h = refl
all_mono p q (x ∷ xs) f h = ground (arith, f x, h, all_mono p q xs f)

pub IsStep-Keeps :
    {s : Store} {after : Store}
    → IsSound s
    → IsStep s.attempts after.attempts
    → SameTargets s.refunds after.refunds
    → Keeps s after
IsStep-Keeps {s} {after} sound step same = record {
  sound = record {
    ledger = step.is_ledger;
    targets =
        all_mono (λ r. any (is_target r.attempt_id) s.attempts)
          (λ r. any (is_target r.attempt_id) after.attempts) after.refunds
          (λ r h. target_stays r.attempt_id step.evolves h)
          (same (λ k. any (is_target k) s.attempts) sound.targets);
  };
  evolves = step.evolves;
}

-- a transaction that writes neither of the two tables
pub Keeps-same :
    {s : Store} {after : Store}
    → IsSound s
    → after.attempts ≡ s.attempts
    → after.refunds ≡ s.refunds
    → Keeps s after
Keeps-same {s} {after} sound e f =
    IsStep-Keeps sound (rw e (IsStep-refl s.attempts sound.ledger)) (rw f (λ g p. p))

target-count :
    (k : ℕ) (xs : List Attempt) → any (is_target k) xs ≡ true → 1 ≤ count_if (has_id k) xs
unfolding any count_if
target-count k [] h = absurd (ground arith)
target-count k (x ∷ xs) h = ground (arith, h, target-count k xs)

target_found :
    (k : ℕ) (xs : List Attempt)
    → count_if (has_id k) xs ≤ 1
    → any (is_target k) xs ≡ true
    → (a : Attempt) × (find (has_id k) xs ≡ some a) × (is_settled a.status ≡ true)
unfolding any count_if find
target_found k [] u h = absurd (ground arith)
target_found k (x ∷ xs) u h = elim (Bool-cases (has_id k x)) [
  | inl e ↦ (x, rw e, ground (arith, e, u, h, target-count k xs))
  | inr e ↦
      let (a, f, g) = target_found k xs (ground (arith, e, u)) (ground (arith, e, h)) in
      (a, rw (e, f), g)
]

all-append :
    (p : Refund → Bool) (xs : List Refund) (r : Refund)
    → all p xs ≡ true
    → p r ≡ true
    → all p (xs ++ r ∷ []) ≡ true
unfolding all
all-append p [] r h k = ground arith
all-append p (x ∷ xs) r h k = ground (arith, h, all-append p xs r)

all-find :
    (p q : Refund → Bool) (xs : List Refund) {r : Refund}
    → all p xs ≡ true
    → find q xs ≡ some r
    → p r ≡ true
unfolding all find
all-find p q [] h e = absurd (ground (arith, e))
all-find p q (x ∷ xs) {r} h e = ground (arith, h, e, all-find p q xs {r = r})

found_target :
    (q : Attempt → Bool) (xs : List Attempt) {a : Attempt}
    → find q xs ≡ some a
    → is_settled a.status ≡ true
    → any (is_target a.id) xs ≡ true
unfolding find any
found_target q [] h e = absurd (ground (arith, h))
found_target q (x ∷ xs) {a} h e = ground (arith, h, e, found_target q xs {a = a})

reserve_refund-Keeps :
    (a : Attempt) (q : Attempt → Bool) (key reason : Text) (n : ℕ) (s : Store) {out : Refund}
    {after : Store}
    → IsSound s
    → find q s.attempts ≡ some a
    → reserve_refund a key reason n s ≡ ok (out, after)
    → Keeps s after
unfolding reserve_refund insert_refund
reserve_refund-Keeps a q key reason n s {out} {after = t} sound found h =
    let same : t.attempts ≡ s.attempts = ground arith in
    let grown : t.refunds ≡ s.refunds ++ out ∷ [] = ground arith in
    let paid : is_settled a.status ≡ true = ground arith in
    let target : out.attempt_id ≡ a.id = ground arith in
    record {
      sound = record {
        ledger = rw same sound.ledger;
        targets =
            rw (same, grown)
              (all-append (λ r. any (is_target r.attempt_id) s.attempts) s.refunds out sound.targets
                (rw target (found_target q s.attempts found paid)));
      };
      evolves = rw same unchanged;
    }

-- the refund that is requested is for a payment that was verified
pub request_refund-Keeps :
    (config : Config) (u k : ℕ) (key reason : Text) (n : ℕ) (s : Store) {out : Refund}
    {after : Store}
    → IsSound s
    → request_refund config u k key reason n s ≡ ok (out, after)
    → Keeps s after
unfolding request_refund owned_contract
request_refund-Keeps config u k key reason n s {out} {after = t} sound h =
    let cases : ((t.refunds ≡ s.refunds) × (t.attempts ≡ s.attempts))
        ⊎ ((a : Attempt) × (c : Contract) × (find (is_attempt_of k c.id) s.attempts ≡ some a)
            × (reserve_refund a key reason n s ≡ ok (out, t))) =
      grind arith in
    elim cases [
      | inl (e, f) ↦ Keeps-same sound f e
      | inr (a, c, found, e) ↦
          reserve_refund-Keeps a (is_attempt_of k c.id) key reason n s sound found e
    ]

-- the refund that is committed is for a payment that was verified
pub commit_refund-Keeps :
    (p : Refund) (c owner fence k amount now : ℕ) (s : Store) {after : Store}
    → IsSound s
    → commit_refund p c owner fence k amount now s ≡ ok (tt, after)
    → Keeps s after
unfolding commit_refund
commit_refund-Keeps p c owner fence k amount now s {after = t} sound h =
    let (r, s₁, e₁, e₂) =
      and_then-eq-ok (or_fail (find (has_refund_id p.id) s.refunds) missing_row s) _ h in
    let (found, same) = or_fail-result (find (has_refund_id p.id) s.refunds) missing_row s e₁ in
    let cases : ((t.attempts ≡ s.attempts) × (t.refunds ≡ s.refunds))
        ⊎ (((t.attempts ≡ s.attempts)
              × (t.refunds ≡ update_where (has_refund_id p.id) hold_refund s.refunds))
            ⊎ ((r.attempt_id ≡ p.attempt_id)
                × (t.attempts ≡ update_where (has_id p.attempt_id) mark_refunded s.attempts)
                × (t.refunds
                    ≡ update_where (has_refund_id p.id) (complete_refund k amount now)
                        s.refunds))) =
      ground (arith, e₂, same) in
    elim cases [
      | inl (e, f) ↦ Keeps-same sound e f
      | inr (inl (e, f)) ↦
          IsStep-Keeps sound (rw e (IsStep-refl s.attempts sound.ledger))
            (rw f (SameTargets-update (has_refund_id p.id) hold_refund s.refunds (λ r. refl)))
      | inr (inr (of_attempt, e, f)) ↦
          let targeted : any (is_target r.attempt_id) s.attempts ≡ true =
            all-find (λ r. any (is_target r.attempt_id) s.attempts) (has_refund_id p.id) s.refunds
              sound.targets found in
          let (a, there, settled) =
            target_found p.attempt_id s.attempts (sound.ledger.ids p.attempt_id)
              (subst (λ z. any (is_target z) s.attempts ≡ true) of_attempt targeted) in
          let w =
            find-rows is_well_formed (has_id p.attempt_id) s.attempts sound.ledger.rows there in
          IsStep-Keeps sound
            (rw e (
              IsStep-set p.attempt_id mark_refunded a s.attempts (λ x. refl) (λ x. refl)
                sound.ledger there (grind (arith, stay, pay_back)) (ground (arith, w, settled))))
            (rw f (
              SameTargets-update (has_refund_id p.id) (complete_refund k amount now) s.refunds
                (λ r. refl)))
    ]

-- ===== src/Billing/Reserved.antt =====
-- The refunds of a payment never reserve more than it.
use living_cost_manager.Prelude.{
  ℕ, ◌+◌, ◌-◌, ◌≤◌, some, List, [], ◌∷◌, ◌++◌, Text, ◌==◌, ◌⊎◌, ◌≡◌, sym, subst, arith, inl, inr,
  Bool-cases, if◌then◌else◌, ==_iff, find,
}
use living_cost_manager.Billing.{Contract, Attempt, Refund, Store, Config, has_id}
use living_cost_manager.Billing.Tx.{ok}
use living_cost_manager.Billing.Quotes.{owned_contract}
use living_cost_manager.Billing.Refunds.{
  amount_reserved, counts, is_attempt_of, new_refund, insert_refund, reserve_refund, request_refund,
}
use living_cost_manager.Billing.Sound.{IsSound}
use living_cost_manager.Billing.Reservations.{find_by_id}

amount_reserved-append :
    (n : ℕ) (xs : List Refund) (r : Refund)
    → amount_reserved n (xs ++ r ∷ []) ≡ amount_reserved n xs + amount_reserved n (r ∷ [])
unfolding amount_reserved
amount_reserved-append n [] r = omega arith
amount_reserved-append n (x ∷ xs) r = omega (arith, amount_reserved-append n xs r)

amount_reserved-one :
    (n : ℕ) (r : Refund) → amount_reserved n (r ∷ []) ≡ (if counts n r then r.request_amount else 0)
unfolding amount_reserved
amount_reserved-one n r = omega arith

-- a new refund reserves what its payment has left, and nothing of another payment
reserve_refund-bounds :
    (a : Attempt) (key reason : Text) (k n : ℕ) (s : Store) {out : Refund} {after : Store}
    → reserve_refund a key reason k s ≡ ok (out, after)
    → ((n ≡ a.id) × (amount_reserved n after.refunds ≡ a.total_amount))
      ⊎ (amount_reserved n after.refunds ≡ amount_reserved n s.refunds)
unfolding reserve_refund insert_refund
reserve_refund-bounds a key reason k n s {out} {after = t} h =
    let left : amount_reserved a.id s.refunds ≤ a.total_amount = ground arith in
    let grown : t.refunds ≡ s.refunds ++ out ∷ [] = ground arith in
    let new : out ≡ new_refund a key reason (a.total_amount - amount_reserved a.id s.refunds) k =
      ground arith in
    let total : amount_reserved n t.refunds
        ≡ amount_reserved n s.refunds + amount_reserved n (out ∷ []) =
      rw grown (amount_reserved-append n s.refunds out) in
    let one = amount_reserved-one n out in
    elim (Bool-cases (a.id == n)) [
      | inl e ↦
          let same : a.id ≡ n = (==_iff a.id n).0 e in
          let amount : amount_reserved n (out ∷ []) ≡ a.total_amount - amount_reserved n s.refunds =
            ground (arith, one, new, same, e) in
          let left_of : amount_reserved n s.refunds ≤ a.total_amount =
            subst (λ z. amount_reserved z s.refunds ≤ a.total_amount) same left in
          inl (sym same, omega (arith, total, amount, left_of))
      | inr e ↦
          let nothing : amount_reserved n (out ∷ []) ≡ 0 = ground (arith, one, new, e) in
          inr (omega (arith, total, nothing))
    ]

-- Where the refunds of a payment that are not rejected reserve no more than its amount, they still
-- do after any refund is requested, whether of this payment or of another.
pub request_refund-bounds :
    (config : Config) (u k : ℕ) (key reason : Text) (m n : ℕ) (s : Store) {a : Attempt}
    {out : Refund} {after : Store}
    → IsSound s
    → find (has_id n) s.attempts ≡ some a
    → amount_reserved n s.refunds ≤ a.total_amount
    → request_refund config u k key reason m s ≡ ok (out, after)
    → amount_reserved n after.refunds ≤ a.total_amount
unfolding request_refund owned_contract
request_refund-bounds config u k key reason m n s {a} {out} {after = t} sound found b h =
    let cases : (t.refunds ≡ s.refunds)
        ⊎ ((r : Attempt) × (c : Contract) × (find (is_attempt_of k c.id) s.attempts ≡ some r)
            × (reserve_refund r key reason m s ≡ ok (out, t))) =
      grind arith in
    elim cases [
      | inl e ↦ rw e b
      | inr (r, c, there, e) ↦ elim (reserve_refund-bounds r key reason m n s e) [
        | inl (own, total) ↦
            let by_id : find (has_id n) s.attempts ≡ some r =
              rw own
                (find_by_id (is_attempt_of k c.id) s.attempts r (sound.ledger.ids r.id) there) in
            let same : r ≡ a = ground (arith, by_id, found) in rw (total, same) (omega arith)
        | inr unchanged ↦ rw unchanged b
      ]
    ]

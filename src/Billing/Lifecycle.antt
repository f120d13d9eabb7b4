-- ===== src/Billing/Lifecycle.antt =====
-- What a payment attempt goes through: the diagram of its status, and how the table of attempts
-- changes when one write follows it.
use living_cost_manager.Prelude.{
  ℕ, ◌≤◌, Bool, true, false, not, ◌&&◌, Option, none, some, List, [], ◌∷◌, ◌==◌, ◌≡◌, all, count_if,
}
use living_cost_manager.Billing.{
  Attempt, AttemptStatus, created, canceled_before_dispatch, dispatch_unknown, paid, failed,
  refunded, manual_review, Owner, reconciler, has_id,
}
use living_cost_manager.Billing.Dispatch.{is_dispatched}

-- The diagram. Nothing leads back to `created`, and nothing out of `canceled_before_dispatch`,
-- `failed` and `manual_review`.
pub data Edge : AttemptStatus → AttemptStatus → Type 0 where
  stay : {s : AttemptStatus} → Edge s s
  drop : Edge created canceled_before_dispatch
  send : Edge created dispatch_unknown
  settle : Edge dispatch_unknown paid
  decline : Edge dispatch_unknown failed
  give_up : Edge dispatch_unknown manual_review
  pay_back : Edge paid refunded

-- One write on an attempt follows an edge. What was agreed on stays, an instant of dispatch is
-- never taken back, and the fence never decreases.
pub record Advances (a b : Attempt) : Type 0 where
  pub same_id : b.id ≡ a.id
  pub same_payment : b.payment_id ≡ a.payment_id
  pub same_contract : b.contract_id ≡ a.contract_id
  pub same_cycle : b.cycle ≡ a.cycle
  pub same_amount : b.total_amount ≡ a.total_amount
  pub follows : Edge a.status b.status
  pub stays_dispatched : is_dispatched a ≡ true → b.dispatch_at ≡ a.dispatch_at
  pub fence_grows : a.fence ≤ b.fence

abbrev pub was_sent : AttemptStatus → Bool
was_sent created = false
was_sent canceled_before_dispatch = false
was_sent _ = true

abbrev pub is_looked_up : AttemptStatus → Bool
is_looked_up dispatch_unknown = true
is_looked_up paid = true
is_looked_up refunded = true
is_looked_up _ = false

abbrev pub is_lease : Option Owner → AttemptStatus → Bool
is_lease (some (reconciler k)) s = is_looked_up s
is_lease _ s = true

abbrev pub agrees : Option ℕ → AttemptStatus → Bool
agrees none s = not (was_sent s)
agrees (some t) s = was_sent s

-- the status says whether the attempt was dispatched, and a reconciliation holds only an attempt
-- that has an answer to wait for, or was paid
abbrev pub is_well_formed : Attempt → Bool
is_well_formed a = agrees a.dispatch_at a.status && is_lease a.lease_owner a.status

pub data Evolves : List Attempt → List Attempt → Type 0 where
  unchanged : {xs : List Attempt} → Evolves xs xs
  added : (a : Attempt) → a.status ≡ created → a.dispatch_at ≡ none → Evolves [] (a ∷ [])
  moved :
      {a b : Attempt} {xs ys : List Attempt}
      → Advances a b
      → Evolves xs ys
      → Evolves (a ∷ xs) (b ∷ ys)

abbrev pub has_payment : ℕ → Attempt → Bool
has_payment k a = a.payment_id == k

pub record IsLedger (xs : List Attempt) : Type 0 where
  pub ids : (k : ℕ) → count_if (has_id k) xs ≤ 1
  pub payments : (k : ℕ) → count_if (has_payment k) xs ≤ 1
  pub rows : all is_well_formed xs ≡ true

-- the table after a committed transaction
pub record IsStep (xs ys : List Attempt) : Type 0 where
  pub evolves : Evolves xs ys
  pub is_ledger : IsLedger ys

-- ===== src/Billing/Tx.antt =====
-- The transactions of service-billing.ts. An error rolls every write back, so it carries no store.
use living_cost_manager.Prelude.{
  ℕ, Bool, true, false, Option, none, some, ◌≡◌, refl, arith, find, update_where,
}
use living_cost_manager.Billing.{
  Store, Contract, Quote, Instrument, Attempt, has_id, has_contract_id, has_quote_id,
  has_instrument_id,
}

-- the codes that the service fails with, and Prisma's errors on a missing row or a taken key
pub data Failure : Type 0 where
  account_not_found billing_not_found billing_scope_mismatch not_ready renewal_stopped : Failure
  quote_expired_or_consumed reconsent_required idempotency_conflict : Failure
  subscription_already_purchased instrument_unavailable consent_version_mismatch : Failure
  cycle_already_reserved instrument_decryption_failed overdue_renewal_review : Failure
  period_inconsistency renewal_not_due renewal_reconsent_required : Failure
  instrument_binding_mismatch payment_not_refundable refund_already_reserved : Failure
  refund_approval_conflict missing_row unique_violation : Failure

pub data Result {ℓ} (A : Type ℓ) : Type ℓ where
  ok : A → Result A
  err : Failure → Result A

abbrev pub Tx {ℓ} : Type ℓ → Type ℓ
Tx A = Store → Result (A × Store)

abbrev pub and_then {ℓ κ} :
    {A : Type ℓ} {B : Type κ} → Result (A × Store) → (A → Tx B) → Result (B × Store)
and_then (ok (a, s)) f = f a s
and_then (err e) f = err e

infixl 5 ◌>>=◌ ◌>>◌
abbrev pub ◌>>=◌ {ℓ κ} : {A : Type ℓ} {B : Type κ} → Tx A → (A → Tx B) → Tx B
◌>>=◌ m f s = and_then (m s) f

abbrev pub ◌>>◌ {ℓ} : {B : Type ℓ} → Tx (Unit {0}) → Tx B → Tx B
m >> k = m >>= λ _. k

abbrev pub pure {ℓ} : {A : Type ℓ} → A → Tx A
pure a s = ok (a, s)

abbrev pub raise {ℓ} : {A : Type ℓ} → Failure → Tx A
raise e s = err e

abbrev pub gets {ℓ} : {A : Type ℓ} → (Store → A) → Tx A
gets f s = ok (f s, s)

abbrev pub modify : (Store → Store) → Tx (Unit {0})
modify f s = ok (tt, f s)

abbrev pub require : Bool → Failure → Tx (Unit {0})
require true e s = ok (tt, s)
require false e s = err e

abbrev pub or_fail {ℓ} : {A : Type ℓ} → Option A → Failure → Tx A
or_fail none e s = err e
or_fail (some a) e s = ok (a, s)

abbrev pub query {ℓ} : {A : Type ℓ} → (Store → Option A) → Failure → Tx A
query f e s = or_fail (f s) e s

abbrev pub find_contract : ℕ → Store → Option Contract
find_contract k s = find (has_contract_id k) s.contracts

abbrev pub find_quote : ℕ → Store → Option Quote
find_quote k s = find (has_quote_id k) s.quotes

abbrev pub find_instrument : ℕ → Store → Option Instrument
find_instrument k s = find (has_instrument_id k) s.instruments

abbrev pub find_attempt : ℕ → Store → Option Attempt
find_attempt k s = find (has_id k) s.attempts

abbrev pub set_contract : ℕ → (Contract → Contract) → Store → Store
set_contract k f s = record s { contracts = update_where (has_contract_id k) f s.contracts }

abbrev pub set_quote : ℕ → (Quote → Quote) → Store → Store
set_quote k f s = record s { quotes = update_where (has_quote_id k) f s.quotes }

abbrev pub set_instrument : ℕ → (Instrument → Instrument) → Store → Store
set_instrument k f s = record s { instruments = update_where (has_instrument_id k) f s.instruments }

abbrev pub set_attempt : ℕ → (Attempt → Attempt) → Store → Store
set_attempt k f s = record s { attempts = update_where (has_id k) f s.attempts }

-- the state after `$transaction(f)`
abbrev pub commit {ℓ} : {A : Type ℓ} → Result (A × Store) → Store → Store
commit (ok (a, after)) s = after
commit (err e) s = s

-- inversion of a successful step
pub and_then-eq-ok {ℓ κ} :
    {A : Type ℓ} {B : Type κ} (r : Result (A × Store)) (f : A → Tx B) {q : B × Store}
    → and_then r f ≡ ok q
    → (a : A) × (s : Store) × (r ≡ ok (a, s)) × (f a s ≡ ok q)
and_then-eq-ok (ok (a, s)) f h = (a, s, refl, h)
and_then-eq-ok (err e) f h = cc

pub require-result :
    (b : Bool) (e : Failure) (s : Store) {after : Store}
    → require b e s ≡ ok (tt, after)
    → (b ≡ true) × (after ≡ s)
require-result true e s h = (refl, ground arith)
require-result false e s h = cc

pub or_fail-result {ℓ} :
    {A : Type ℓ} (o : Option A) (e : Failure) (s : Store) {a : A} {after : Store}
    → or_fail o e s ≡ ok (a, after)
    → (o ≡ some a) × (after ≡ s)
or_fail-result none e s h = cc
or_fail-result (some b) e s h = (ground arith, ground arith)

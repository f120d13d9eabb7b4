-- ===== src/Billing/Reservations.antt =====
-- The reservations of `charge` and `renew` append one attempt to the table, or cancel the one that
-- was reserved for an overdue cycle.
use living_cost_manager.Prelude.{
  ℕ, Bool, true, false, Option, none, some, List, [], ◌∷◌, ◌++◌, ◌⊎◌, ◌≤◌, ◌≡◌, refl, arith, inl,
  inr, Bool-cases, Option-cases, find, find-count_of, any, count_if, count_mono, update_where,
  any-count, sym,
}
use living_cost_manager.Subscription.{PlanId}
use living_cost_manager.Billing.{
  Contract, Attempt, created, Store, Config, renewal_key, renewal_binding, has_id,
}
use living_cost_manager.Billing.Tx.{ok}
use living_cost_manager.Billing.Quotes.{quote_data, owned_contract, valid_quote}
use living_cost_manager.Billing.Charge.{
  ChargeInput, is_cycle, attempt_data, charge, clashes, insert_attempt, reserve_checkout,
}
use living_cost_manager.Billing.Renew.{
  Renewal, is_untouched, renew_after, renew_contract, renew, reserve_cycle,
}
use living_cost_manager.Billing.Dispatch.{cancel_before_dispatch}
use living_cost_manager.Billing.Lifecycle.{is_well_formed, IsLedger, IsStep, has_payment}
use living_cost_manager.Billing.Ledger.{IsStep-refl, IsStep-append, IsStep-found, find-rows}
use living_cost_manager.Billing.Writes.{cancel-Advances}

-- a reservation appends one attempt, of the payment `p`, or leaves the table as it was
pub data Reservation (s : Store) (p : ℕ) (after : Store) : Type 0 where
  kept : after.attempts ≡ s.attempts → Reservation s p after
  appended :
      (a : Attempt)
      → after.attempts ≡ s.attempts ++ a ∷ []
      → any (clashes a) s.attempts ≡ false
      → a.payment_id ≡ p
      → a.status ≡ created
      → a.dispatch_at ≡ none
      → a.lease_owner ≡ none
      → Reservation s p after
  canceled :
      (a : Attempt)
      → find (has_id a.id) s.attempts ≡ some a
      → a.status ≡ created
      → after.attempts ≡ update_where (has_id a.id) cancel_before_dispatch s.attempts
      → Reservation s p after

clashes_count :
    (a : Attempt) (xs : List Attempt) → any (clashes a) xs ≡ false → count_if (has_id a.id) xs ≡ 0
clashes_count a xs h = omega (
  arith,
  any-count (clashes a) xs h,
  count_mono (has_id a.id) (clashes a) xs (λ x e. ground (arith, e)),
)

pub Reservation-IsStep :
    (s : Store) (p : ℕ) (after : Store)
    → IsLedger s.attempts
    → any (has_payment p) s.attempts ≡ false
    → Reservation s p after
    → IsStep s.attempts after.attempts
Reservation-IsStep s p after l fresh (kept e) = rw e (IsStep-refl s.attempts l)
Reservation-IsStep s p after l fresh (appended a e free payment c d o) =
    let payment_free : count_if (has_payment a.payment_id) s.attempts ≡ 0 =
      rw payment (any-count (has_payment p) s.attempts fresh) in
    rw e (IsStep-append s.attempts a l (clashes_count a s.attempts free) payment_free c d o)
Reservation-IsStep s p after l fresh (canceled a found c e) =
    let w = find-rows is_well_formed (has_id a.id) s.attempts l.rows found in
    rw e (
      IsStep-found a.id cancel_before_dispatch a s.attempts (λ r. refl) (λ r. refl) l found
        (cancel-Advances a c) (ground (arith, w, c)))

pub charge-Reservation :
    (config : Config) (u : ℕ) (input : ChargeInput) (k p now : ℕ) (s : Store) {out : Attempt}
    {after : Store}
    → charge config u input k p now s ≡ ok (out, after)
    → Reservation s p after
unfolding charge reserve_checkout insert_attempt owned_contract valid_quote
charge-Reservation config u input k p now s {out} {after = t} h =
    let cases : (t.attempts ≡ s.attempts)
        ⊎ ((t.attempts ≡ s.attempts ++ out ∷ [])
            × (any (clashes out) s.attempts ≡ false)
            × (out.payment_id ≡ p)
            × (out.status ≡ created)
            × (out.dispatch_at ≡ none)
            × (out.lease_owner ≡ none)) =
      ground arith in
    elim cases [ inl e ↦ kept e | inr (e, free, i, c, d, o) ↦ appended out e free i c d o ]

-- a row that any query finds is the one with its id
pub find_by_id :
    (q : Attempt → Bool) (xs : List Attempt) (a : Attempt)
    → count_if (has_id a.id) xs ≤ 1
    → find q xs ≡ some a
    → find (has_id a.id) xs ≡ some a
unfolding find count_if
find_by_id q [] a u h = ground arith
find_by_id q (x ∷ xs) a u h = elim (Bool-cases (q x)) [
  | inl e ↦ let same : x ≡ a = ground (arith, e, h) in rw same (ground arith)
  | inr e ↦
      let later : find q xs ≡ some a = ground (arith, e, h) in
      let there : 1 ≤ count_if (has_id a.id) xs =
        find-count_of q (has_id a.id) xs later (ground arith) in
      let differs : has_id a.id x ≡ false = ground (arith, u, there) in
      let rest = find_by_id q xs a (ground (arith, u)) later in rw (differs, rest)
]

reserve_cycle-Reservation :
    (config : Config) (c : Contract) (plan : PlanId) (anchor : ℕ) (previous : Attempt)
    (existing : Option Attempt) (k p q now : ℕ) (s : Store) {out : Renewal} {after : Store}
    → ((a : Attempt)
        → existing ≡ some a
        → (a.status ≡ created) × (find (has_id a.id) s.attempts ≡ some a))
    → reserve_cycle config c plan anchor previous existing k p q now s ≡ ok (out, after)
    → Reservation s p after
unfolding reserve_cycle insert_attempt
reserve_cycle-Reservation config c plan anchor previous (some a) k p q now s {out} {after = t} f h =
    let cases : (t.attempts ≡ s.attempts)
        ⊎ (t.attempts ≡ update_where (has_id a.id) cancel_before_dispatch s.attempts) =
      ground arith in
    elim cases [ inl e ↦ kept e | inr e ↦ canceled a (f a refl).1 (f a refl).0 e ]
reserve_cycle-Reservation config c plan anchor previous none k p q now s {out} {after = t} f h =
    let a =
      attempt_data c (record (quote_data config c plan q now) { consumed_at = some now })
        previous.instrument_id (renewal_key c.next_cycle c.id) (renewal_binding previous.id)
        previous.accepted_at k p in
    let cases : (t.attempts ≡ s.attempts)
        ⊎ ((t.attempts ≡ s.attempts ++ a ∷ []) × (any (clashes a) s.attempts ≡ false)) =
      ground arith in
    elim cases [ inl e ↦ kept e | inr (e, free) ↦ appended a e free refl refl refl refl ]

untouched_status : (a : Attempt) → is_untouched a ≡ true → a.status ≡ created
untouched_status a h = ground arith

renew_after-Reservation :
    (config : Config) (c : Contract) (plan : PlanId) (anchor : ℕ) (previous : Attempt)
    (k p q now : ℕ) (s : Store) {out : Renewal} {after : Store}
    → IsLedger s.attempts
    → renew_after config c plan anchor previous k p q now s ≡ ok (out, after)
    → Reservation s p after
renew_after-Reservation config c plan anchor previous k p q now s {out} {after = t} l h =
    elim (Option-cases (find (is_cycle c.id c.next_cycle) s.attempts)) [
      | inl e ↦
          reserve_cycle-Reservation config c plan anchor previous none k p q now s {out = out}
            {after = t} (λ a f. absurd (ground (arith, f))) (ground (arith, e, h))
      | inr (a, e) ↦
          let cases : (t.attempts ≡ s.attempts)
              ⊎ ((is_untouched a ≡ true)
                  × (reserve_cycle config c plan anchor previous (some a) k p q now s
                      ≡ ok (out, t))) =
            ground (arith, e, h) in
          elim cases [
            | inl same ↦ kept same
            | inr (u, r) ↦
                let found = find_by_id (is_cycle c.id c.next_cycle) s.attempts a (l.ids a.id) e in
                reserve_cycle-Reservation config c plan anchor previous (some a) k p q now s
                  (λ b f.
                    let same : a ≡ b = ground (arith, f) in
                    rw (sym same) (untouched_status a u, found))
                  r
          ]
    ]

renew_contract-Reservation :
    (config : Config) (c : Contract) (plan : Option PlanId) (anchor : Option ℕ) (k p q now : ℕ)
    (s : Store) {out : Renewal} {after : Store}
    → IsLedger s.attempts
    → renew_contract config c plan anchor k p q now s ≡ ok (out, after)
    → Reservation s p after
renew_contract-Reservation config c (some plan) (some anchor) k p q now s {out} {after = t} l h =
    let (previous, e) : (previous : Attempt) × (renew_after config c plan anchor previous k p q now
            s
          ≡ ok (out, t)) =
      grind arith in
    renew_after-Reservation config c plan anchor previous k p q now s l e
renew_contract-Reservation config c (some plan) none k p q now s l h = absurd (ground arith)
renew_contract-Reservation config c none anchor k p q now s l h = absurd (ground arith)

pub renew-Reservation :
    (config : Config) (u k p q now : ℕ) (s : Store) {out : Renewal} {after : Store}
    → IsLedger s.attempts
    → renew config u k p q now s ≡ ok (out, after)
    → Reservation s p after
unfolding renew owned_contract
renew-Reservation config u k p q now s {out} {after = t} l h =
    let cases : (t.attempts ≡ s.attempts)
        ⊎ ((c : Contract) × (renew_contract config c c.plan_id c.original_anchor k p q now s
              ≡ ok (out, t))) =
      grind arith in
    elim cases [
      | inl e ↦ kept e
      | inr (c, e) ↦ renew_contract-Reservation config c c.plan_id c.original_anchor k p q now s l e
    ]

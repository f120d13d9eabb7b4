-- ===== src/Billing/Replays.antt =====
-- A checkout that is sent again with its idempotency key is answered from the table.
use living_cost_manager.Prelude.{
  ℕ, true, sym, subst, Option-cases, not, any, ◌||◌, ◌&&◌, none, some, [], ◌∷◌, ◌++◌, text_eq_iff,
  ◌==◌, ◌≡◌, refl, arith, inl, inr, find, find-none, find-append_new,
}
use living_cost_manager.Billing.{
  scope_eq, Contract, Attempt, requested_key, request_binding, Store, Config, is_mock,
}
use living_cost_manager.Billing.Tx.{ok}
use living_cost_manager.Billing.Quotes.{owned_contract, is_of_user, valid_quote}
use living_cost_manager.Billing.Writes.{owned_contract_same}
use living_cost_manager.Billing.Charge.{
  ChargeInput, charge, charge_contract, reserve_checkout, insert_attempt, checkout_enabled, has_key,
  binding_eq,
}

owned_again :
    (config : Config) (u : ℕ) (s t : Store) {c : Contract} {after : Store}
    → owned_contract config u s ≡ ok (c, after)
    → t.users ≡ s.users
    → t.contracts ≡ s.contracts
    → owned_contract config u t ≡ ok (c, t)
unfolding owned_contract
owned_again config u s t {c} h e f =
    let known : any (λ k. k == u) s.users ≡ true = ground arith in
    let there : find (is_of_user u) s.contracts ≡ some c = ground arith in
    let scoped : (not config.enabled || scope_eq c.scope config.scope) ≡ true = ground arith in
    rw (e, f, known, there, scoped)

-- what a checkout that was answered leaves in the table
record IsAnswered (config : Config) (u : ℕ) (input : ChargeInput) (a : Attempt) (t : Store)
    : Type 0 where
  c : Contract
  owned : owned_contract config u t ≡ ok (c, t)
  found : find (has_key c.id (requested_key input.idempotency_key)) t.attempts ≡ some a
  bound : binding_eq a.request_binding (request_binding input.binding) ≡ true

reserved_answer :
    (config : Config) (u : ℕ) (c : Contract) (input : ChargeInput) (k p now : ℕ) (s : Store)
    {a : Attempt} {after : Store}
    → owned_contract config u s ≡ ok (c, s)
    → find (has_key c.id (requested_key input.idempotency_key)) s.attempts ≡ none
    → reserve_checkout config c input k p now s ≡ ok (a, after)
    → IsAnswered config u input a after
unfolding reserve_checkout insert_attempt valid_quote
reserved_answer config u c input k p now s {a} {after = t} o n h =
    let users : t.users ≡ s.users = ground arith in
    let contracts : t.contracts ≡ s.contracts = ground arith in
    let grown : t.attempts ≡ s.attempts ++ a ∷ [] = ground arith in
    let keyed : has_key c.id (requested_key input.idempotency_key) a ≡ true =
      ground (arith, (text_eq_iff input.idempotency_key input.idempotency_key).1 refl) in
    record {
      c = c;
      owned = owned_again config u s t o users contracts;
      found = rw grown (
          find-append_new (has_key c.id (requested_key input.idempotency_key)) s.attempts a
            (find-none (has_key c.id (requested_key input.idempotency_key)) s.attempts n) keyed);
      bound = ground arith;
    }

charge-IsAnswered :
    (config : Config) (u : ℕ) (input : ChargeInput) (k p now : ℕ) (s : Store) {a : Attempt}
    {after : Store}
    → charge config u input k p now s ≡ ok (a, after)
    → IsAnswered config u input a after
unfolding charge
charge-IsAnswered config u input k p now s {a} {after = t} h =
    let (c, s₁, o, e) : (c : Contract) × (s₁ : Store) × (owned_contract config u s ≡ ok (c, s₁))
        × (charge_contract config c input k p now s₁ ≡ ok (a, t)) =
      grind arith in
    let same = owned_contract_same config u s o in
    let o₂ : owned_contract config u s ≡ ok (c, s) =
      subst (λ z. owned_contract config u s ≡ ok (c, z)) {x = s₁} {y = s} same o in
    let e₂ : charge_contract config c input k p now s ≡ ok (a, t) =
      subst (λ z. charge_contract config c input k p now z ≡ ok (a, t)) {x = s₁} {y = s} same e in
    elim (Option-cases (find (has_key c.id (requested_key input.idempotency_key)) s.attempts)) [
      | inl n ↦ reserved_answer config u c input k p now s o₂ n (ground (arith, n, e₂))
      | inr (b, f) ↦
          let bound : binding_eq b.request_binding (request_binding input.binding) ≡ true =
            ground (arith, f, e₂) in
          let answer : b ≡ a = ground (arith, f, e₂) in
          let unchanged : t ≡ s = ground (arith, f, e₂) in
          rw (unchanged, sym answer) (record { c = c; owned = o₂; found = f; bound = bound })
    ]

-- A checkout that succeeded, sent again with the same input, is answered with the same attempt and
-- changes nothing, whatever the ids and the instant of the second call are.
pub charge_replay :
    (config : Config) (u : ℕ) (input : ChargeInput) (k p now l q later : ℕ) (s : Store)
    {a : Attempt} {after : Store}
    → charge config u input k p now s ≡ ok (a, after)
    → charge config u input l q later after ≡ ok (a, after)
unfolding charge
charge_replay config u input k p now l q later s {a} {after = t} h =
    let done = charge-IsAnswered config u input k p now s h in
    let ready : (config.enabled && config.charge) ≡ true = ground arith in
    let opened : (is_mock config.mode || checkout_enabled config) ≡ true = ground arith in
    rw (ready, opened, done.owned, done.found, done.bound)

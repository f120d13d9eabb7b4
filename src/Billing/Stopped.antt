-- ===== src/Billing/Stopped.antt =====
-- A contract that was canceled is not charged again.
use living_cost_manager.Prelude.{
  ℕ, Bool, true, false, Option, some, List, [], ◌∷◌, ◌++◌, Text, ◌≡◌, refl, sym, arith, inl, inr,
  Bool-cases, find, update_where,
}
use living_cost_manager.Billing.{
  Contract, Instrument, Attempt, Store, Config, has_id, has_contract_id,
}
use living_cost_manager.Billing.Tx.{ok}
use living_cost_manager.Billing.Quotes.{owned_contract, is_of_user}
use living_cost_manager.Billing.Dispatch.{DispatchClaim, dispatch, claim_dispatch}
use living_cost_manager.Billing.Cancel.{cancel, request_cancellation}
use living_cost_manager.Billing.Writes.{orders_of}
use living_cost_manager.Billing.ContractWrites.{
  KeepsCancellation, ContractWrite, kept, updated, added, Transaction-ContractWrite,
  dispatch-ContractWrite,
}
use living_cost_manager.Billing.Process.{World, written, claimed, sent, lost, Reach, start, further}

-- the contract of this id is there, and its cancellation was requested
abbrev pub IsCanceled : ℕ → List Contract → Type 0
IsCanceled k xs =
    (c : Contract) × (find (has_contract_id k) xs ≡ some c) × (c.cancel_requested ≡ true)

IsCanceled-update :
    (k : ℕ) (q : Contract → Bool) (f : Contract → Contract) (xs : List Contract)
    → KeepsCancellation f
    → IsCanceled k xs
    → IsCanceled k (update_where q f xs)
unfolding find update_where
IsCanceled-update k q f [] keeps (c, e, h) = absurd (ground (arith, e))
IsCanceled-update k q f (x ∷ xs) keeps (c, e, h) = elim (Bool-cases (has_contract_id k x)) [
  | inl b ↦
      let same : x ≡ c = ground (arith, b, e) in
      elim (Bool-cases (q x)) [
        | inl p ↦ (f x, rw (p, keeps.same_id x, b), keeps.stays x (ground (arith, same, h)))
        | inr p ↦ (x, rw (p, b), ground (arith, same, h))
      ]
  | inr b ↦
      let (d, e₂, h₂) = IsCanceled-update k q f xs keeps (c, ground (arith, b, e), h) in
      elim (Bool-cases (q x)) [
        | inl p ↦ (d, rw (p, keeps.same_id x, b, e₂), h₂)
        | inr p ↦ (d, rw (p, b, e₂), h₂)
      ]
]

IsCanceled-append :
    (k : ℕ) (xs : List Contract) (d : Contract) → IsCanceled k xs → IsCanceled k (xs ++ d ∷ [])
unfolding find
IsCanceled-append k [] d (c, e, h) = absurd (ground (arith, e))
IsCanceled-append k (x ∷ xs) d (c, e, h) = elim (Bool-cases (has_contract_id k x)) [
  | inl b ↦ (c, rw b (ground (arith, b, e)), h)
  | inr b ↦
      let (r, e₂, h₂) = IsCanceled-append k xs d (c, ground (arith, b, e), h) in (r, rw (b, e₂), h₂)
]

write-IsCanceled :
    (k : ℕ) {xs ys : List Contract} → ContractWrite xs ys → IsCanceled k xs → IsCanceled k ys
write-IsCanceled k (kept e) h = rw e h
write-IsCanceled k {xs} (updated q f keeps e) h = rw e (IsCanceled-update k q f xs keeps h)
write-IsCanceled k {xs} (added c e) h = rw e (IsCanceled-append k xs c h)

request-IsCanceled :
    (q : Contract → Bool) (xs : List Contract) (c : Contract)
    → find q xs ≡ some c
    → IsCanceled c.id (update_where (has_contract_id c.id) request_cancellation xs)
unfolding find update_where
request-IsCanceled q [] c h = absurd (ground (arith, h))
request-IsCanceled q (x ∷ xs) c h = elim (Bool-cases (has_contract_id c.id x)) [
  | inl b ↦ (request_cancellation x, rw (b, b), refl)
  | inr b ↦
      let later : find q xs ≡ some c = ground (arith, b, h) in
      let (d, e, g) = request-IsCanceled q xs c later in (d, rw (b, b, e), g)
]

-- the first transaction of `cancel`, where the cancellation was not complete before
cancel_requests :
    (config : Config) (u : ℕ) (s : Store) {c : Contract} {after : Store}
    → cancel config u s ≡ ok ((c, false), after)
    → IsCanceled c.id after.contracts
unfolding cancel owned_contract
cancel_requests config u s {c} {after = t} h =
    let (d, found, same, updates) : (d : Contract) × (find (is_of_user u) s.contracts ≡ some d)
        × (d.id ≡ c.id)
        × (t.contracts ≡ update_where (has_contract_id d.id) request_cancellation s.contracts) =
      grind arith in
    rw (updates, sym same) (request-IsCanceled (is_of_user u) s.contracts d found)

module _ (decrypt : Instrument → Option Text) where
  Reach-IsCanceled :
      (k : ℕ) {w v : World}
      → IsCanceled k w.store.contracts
      → Reach decrypt w v
      → IsCanceled k v.store.contracts
  Reach-IsCanceled k h start = h
  Reach-IsCanceled k h (further {v = u} r (written t)) =
      write-IsCanceled k (Transaction-ContractWrite u.store t) (Reach-IsCanceled k h r)
  Reach-IsCanceled k h (further {v = u} r (claimed config n now d)) =
      write-IsCanceled k (dispatch-ContractWrite decrypt config n now u.store d)
        (Reach-IsCanceled k h r)
  Reach-IsCanceled k h (further r (sent xs p ys e)) = Reach-IsCanceled k h r
  Reach-IsCanceled k h (further r (lost xs p ys e)) = Reach-IsCanceled k h r

  canceled-dispatch :
      (config : Config) (n now : ℕ) (s : Store) {a : Attempt} {out : DispatchClaim} {after : Store}
      → IsCanceled a.contract_id s.contracts
      → find (has_id n) s.attempts ≡ some a
      → dispatch decrypt config n now s ≡ ok (out, after)
      → orders_of out ≡ []
  unfolding dispatch claim_dispatch
  canceled-dispatch config n now s (c, e, g) found h = ground (arith, e, g, found, h)

  -- After a user has canceled, in any later state of the service, a dispatch of an attempt of that
  -- contract claims no charge.
  pub canceled_not_charged :
      (cancelling config : Config) (u n now : ℕ) (w : World) {v : World} {c : Contract}
      {after : Store} {a : Attempt} {out : DispatchClaim} {last : Store}
      → cancel cancelling u w.store ≡ ok ((c, false), after)
      → Reach decrypt (record w { store = after }) v
      → find (has_id n) v.store.attempts ≡ some a
      → a.contract_id ≡ c.id
      → dispatch decrypt config n now v.store ≡ ok (out, last)
      → orders_of out ≡ []
  canceled_not_charged cancelling config u n now w {v} {c} {a = a} h r found own d =
      let there = Reach-IsCanceled c.id (cancel_requests cancelling u w.store h) r in
      canceled-dispatch config n now v.store (rw own there) found d

-- ===== src/Billing/Periods.antt =====
-- The paid periods of a contract: each begins where the one before it ends.
use living_cost_manager.Prelude.{
  ℕ, ◌+◌, ◌<◌, Bool, true, false, ◌&&◌, Option, none, some, List, [], ◌∷◌, ◌++◌, ltb, ◌==◌, ◌⊎◌,
  ◌≡◌, refl, arith, inl, inr, Bool-cases, if◌then◌else◌, update_where,
}
use living_cost_manager.Billing.{Period}
use living_cost_manager.Billing.Settle.{last_period}

-- a period that is not empty, and after the one before it of the next cycle and from where that ends
abbrev pub continues : Option Period → Period → Bool
continues none p = ltb p.starts_at p.ends_at
continues (some q) p =
    ltb p.starts_at p.ends_at && ((q.cycle + 1 == p.cycle) && (q.ends_at == p.starts_at))

-- the periods of a contract, in the order of the table, after a period `prev` of it
unfoldable pub is_chain : ℕ → Option Period → List Period → Bool
is_chain c prev [] = true
is_chain c prev (p ∷ ps) =
    if p.contract_id == c then continues prev p && is_chain c (some p) ps else is_chain c prev ps

unfoldable pub last_of : ℕ → Option Period → List Period → Option Period
last_of c prev [] = prev
last_of c prev (p ∷ ps) = if p.contract_id == c then last_of c (some p) ps else last_of c prev ps

-- the latest period is the last one, of a higher cycle than any before it
latest-last :
    (c : ℕ) (q : Period) (ps : List Period)
    → is_chain c (some q) ps ≡ true
    → ((last_period c ps ≡ none) × (last_of c (some q) ps ≡ some q))
      ⊎ ((r : Period) × (last_period c ps ≡ some r)
          × (last_of c (some q) ps ≡ some r)
          × (q.cycle < r.cycle))
unfolding is_chain last_of last_period
latest-last c q [] h = inl (refl, refl)
latest-last c q (p ∷ ps) h = elim (Bool-cases (p.contract_id == c)) [
  | inl e ↦
      let next : q.cycle + 1 ≡ p.cycle = ground (arith, e, h) in
      elim (latest-last c p ps (ground (arith, e, h))) [
        | inl (f, g) ↦ inr (p, rw (e, f), rw (e, g), omega (arith, next))
        | inr (r, f, g, l) ↦
            inr (r, rw (e, f) (ground (arith, l)), rw (e, g), omega (arith, next, l))
      ]
  | inr e ↦ elim (latest-last c q ps (ground (arith, e, h))) [
    | inl (f, g) ↦ inl (rw (e, f), rw (e, g))
    | inr (r, f, g, l) ↦ inr (r, rw (e, f), rw (e, g), l)
  ]
]

pub last_period-last :
    (c : ℕ) (ps : List Period) → is_chain c none ps ≡ true → last_period c ps ≡ last_of c none ps
unfolding is_chain last_of last_period
last_period-last c [] h = refl
last_period-last c (p ∷ ps) h = elim (Bool-cases (p.contract_id == c)) [
  | inl e ↦ elim (latest-last c p ps (ground (arith, e, h))) [
    | inl (f, g) ↦ rw (e, f, g)
    | inr (r, f, g, l) ↦ rw (e, f, g) (ground (arith, l))
  ]
  | inr e ↦ rw (e, last_period-last c ps (ground (arith, e, h)))
]

pub chain-append :
    (c : ℕ) (prev : Option Period) (ps : List Period) (p : Period)
    → is_chain c prev ps ≡ true
    → ((p.contract_id == c) ≡ true → continues (last_of c prev ps) p ≡ true)
    → is_chain c prev (ps ++ p ∷ []) ≡ true
unfolding is_chain last_of
chain-append c prev [] p h f = ground (arith, f)
chain-append c prev (x ∷ ps) p h f = elim (Bool-cases (x.contract_id == c)) [
  | inl e ↦
      let rest =
        chain-append c (some x) ps p (ground (arith, e, h)) (λ g. ground (arith, e, f g)) in
      rw (e, rest) (ground (arith, e, h))
  | inr e ↦
      let rest = chain-append c prev ps p (ground (arith, e, h)) (λ g. ground (arith, e, f g)) in
      rw (e, rest)
]

-- a write that ends the access of periods, and leaves their bounds
pub record KeepsBounds (f : Period → Period) : Type 0 where
  pub contract : (p : Period) → (f p).contract_id ≡ p.contract_id
  pub cycle : (p : Period) → (f p).cycle ≡ p.cycle
  pub starts : (p : Period) → (f p).starts_at ≡ p.starts_at
  pub ends : (p : Period) → (f p).ends_at ≡ p.ends_at

abbrev pub same_bounds : Option Period → Option Period → Bool
same_bounds none none = true
same_bounds (some p) (some q) = (p.cycle == q.cycle) && (p.ends_at == q.ends_at)
same_bounds _ _ = false

pub chain-update :
    (c : ℕ) (t : Period → Bool) (f : Period → Period)
    → KeepsBounds f
    → (prev next : Option Period) (ps : List Period) → same_bounds prev next ≡ true
    → is_chain c prev ps ≡ true
    → is_chain c next (update_where t f ps) ≡ true
unfolding is_chain update_where
chain-update c t f k prev next [] b h = refl
chain-update c t f k prev next (x ∷ ps) b h =
    let y = if t x then f x else x in
    let same : same_bounds (some x) (some y) ≡ true = ground (arith, k.cycle x, k.ends x) in
    let of_contract : y.contract_id ≡ x.contract_id = ground (arith, k.contract x) in
    let onward : continues prev x ≡ true → continues next y ≡ true =
      λ g. ground (arith, b, g, k.cycle x, k.starts x, k.ends x) in
    elim (Bool-cases (x.contract_id == c)) [
      | inl e ↦
          let rest = chain-update c t f k (some x) (some y) ps same (ground (arith, e, h)) in
          rw (of_contract, e, rest, onward (ground (arith, e, h)))
      | inr e ↦
          let rest = chain-update c t f k prev next ps b (ground (arith, e, h)) in
          rw (of_contract, e, rest)
    ]

-- ===== src/Billing/Ledger.antt =====
-- One write on the table of attempts, by an update or an insert, that follows an edge of the diagram.
use living_cost_manager.Prelude.{
  inl, inr, find_sound, sym, ==_iff, ℕ, ◌≤◌, Bool, true, none, some, List, [], ◌∷◌, ◌++◌, ◌≡◌, refl,
  arith, if◌then◌else◌, all, find, count_if, update_where, count-append, Bool-cases,
  count-update_same,
}
use living_cost_manager.Billing.{Attempt, created, has_id}
use living_cost_manager.Billing.Lifecycle.{
  stay, Advances, is_well_formed, Evolves, unchanged, added, moved, has_payment, IsLedger, IsStep,
}

pub IsStep-refl : (xs : List Attempt) → IsLedger xs → IsStep xs xs
IsStep-refl xs h = record { evolves = unchanged; is_ledger = h }

pub Advances-refl : (a : Attempt) → Advances a a
Advances-refl a = record {
  same_id = refl;
  same_payment = refl;
  same_contract = refl;
  same_cycle = refl;
  same_amount = refl;
  follows = stay;
  stays_dispatched = λ h. refl;
  fence_grows = omega arith;
}

-- an update of the rows that pass a test
module _ (q : Attempt → Bool) (f : Attempt → Attempt) where
  pub Evolves-update :
      (xs : List Attempt)
      → ((a : Attempt) → q a ≡ true → is_well_formed a ≡ true → Advances a (f a))
      → all is_well_formed xs ≡ true
      → Evolves xs (update_where q f xs)
  unfolding update_where all
  Evolves-update [] h w = unchanged
  Evolves-update (x ∷ xs) h w =
      let rest = Evolves-update xs h (ground (arith, w)) in
      elim (Bool-cases (q x)) [
        | inl e ↦ rw e (moved (h x e (ground (arith, w))) rest)
        | inr e ↦ rw e (moved (Advances-refl x) rest)
      ]

  rows-update :
      (xs : List Attempt)
      → ((a : Attempt) → q a ≡ true → is_well_formed a ≡ true → is_well_formed (f a) ≡ true)
      → all is_well_formed xs ≡ true
      → all is_well_formed (update_where q f xs) ≡ true
  unfolding update_where all
  rows-update [] h w = refl
  rows-update (x ∷ xs) h w = ground (arith, h x, rows-update xs h)

  -- an update that keeps the keys, where each row that it changes advances
  pub IsStep-update :
      (xs : List Attempt)
      → ((a : Attempt) → (f a).id ≡ a.id)
      → ((a : Attempt) → (f a).payment_id ≡ a.payment_id)
      → ((a : Attempt)
          → q a ≡ true
          → is_well_formed a ≡ true
          → Advances a (f a) × (is_well_formed (f a) ≡ true))
      → IsLedger xs
      → IsStep xs (update_where q f xs)
  IsStep-update xs same_id same_payment h ledger = record {
    evolves = Evolves-update xs (λ a u w. (h a u w).0) ledger.rows;
    is_ledger = record {
      ids = λ k. rw (count-update_same (has_id k) q f xs (λ a. rw (same_id a))) (ledger.ids k);
      payments = λ k.
          rw (count-update_same (has_payment k) q f xs (λ a. rw (same_payment a)))
            (ledger.payments k);
      rows = rows-update xs (λ a u w. (h a u w).1) ledger.rows;
    };
  }

-- where the ids are unique, an update by an id meets the one row that is found
module _ (k : ℕ) (f : Attempt → Attempt) (a : Attempt) where
  update-absent :
      (xs : List Attempt) → count_if (has_id k) xs ≡ 0 → update_where (has_id k) f xs ≡ xs
  unfolding update_where count_if
  update-absent [] h = refl
  update-absent (x ∷ xs) h = ground (arith, h, update-absent xs)

  Evolves-set :
      (xs : List Attempt)
      → Advances a (f a)
      → count_if (has_id k) xs ≤ 1
      → find (has_id k) xs ≡ some a
      → Evolves xs (update_where (has_id k) f xs)
  unfolding update_where count_if find
  Evolves-set [] h u e = unchanged
  Evolves-set (x ∷ xs) h u e = elim (Bool-cases (has_id k x)) [
    | inl b ↦
        let same : x ≡ a = ground (arith, b, e) in
        let absent : count_if (has_id k) xs ≡ 0 = ground (arith, b, u) in
        rw (b, update-absent xs absent, same) (moved h unchanged)
    | inr b ↦
        rw b
          (moved (Advances-refl x) (Evolves-set xs h (ground (arith, b, u)) (ground (arith, b, e))))
  ]

  rows-set :
      (xs : List Attempt)
      → is_well_formed (f a) ≡ true
      → count_if (has_id k) xs ≤ 1
      → find (has_id k) xs ≡ some a
      → all is_well_formed xs ≡ true
      → all is_well_formed (update_where (has_id k) f xs) ≡ true
  unfolding update_where count_if find all
  rows-set [] h u e w = refl
  rows-set (x ∷ xs) h u e w = elim (Bool-cases (has_id k x)) [
    | inl b ↦
        let same : x ≡ a = ground (arith, b, e) in
        let absent : count_if (has_id k) xs ≡ 0 = ground (arith, b, u) in
        rw (b, update-absent xs absent, same, h) (ground (arith, w))
    | inr b ↦
        let rest =
          rows-set xs h (ground (arith, b, u)) (ground (arith, b, e)) (ground (arith, w)) in
        rw (b, rest) (ground (arith, w))
  ]

  pub IsStep-set :
      (xs : List Attempt)
      → ((r : Attempt) → (f r).id ≡ r.id)
      → ((r : Attempt) → (f r).payment_id ≡ r.payment_id)
      → IsLedger xs
      → find (has_id k) xs ≡ some a
      → Advances a (f a)
      → is_well_formed (f a) ≡ true
      → IsStep xs (update_where (has_id k) f xs)
  IsStep-set xs same_id same_payment ledger e h w = record {
    evolves = Evolves-set xs h (ledger.ids k) e;
    is_ledger = record {
      ids = λ n.
          rw (count-update_same (has_id n) (has_id k) f xs (λ r. rw (same_id r))) (ledger.ids n);
      payments = λ n.
          rw (count-update_same (has_payment n) (has_id k) f xs (λ r. rw (same_payment r)))
            (ledger.payments n);
      rows = rows-set xs w (ledger.ids k) e ledger.rows;
    };
  }

pub IsStep-found :
    (k : ℕ) (f : Attempt → Attempt) (a : Attempt) (xs : List Attempt)
    → ((r : Attempt) → (f r).id ≡ r.id)
    → ((r : Attempt) → (f r).payment_id ≡ r.payment_id)
    → IsLedger xs
    → find (has_id k) xs ≡ some a
    → Advances a (f a)
    → is_well_formed (f a) ≡ true
    → IsStep xs (update_where (has_id a.id) f xs)
IsStep-found k f a xs same_id same_payment ledger e h w =
    let same : a.id ≡ k = (==_iff a.id k).0 (find_sound (has_id k) xs e) in
    rw same (IsStep-set k f a xs same_id same_payment ledger e h w)

pub find-rows :
    (p q : Attempt → Bool) (xs : List Attempt) {a : Attempt}
    → all p xs ≡ true
    → find q xs ≡ some a
    → p a ≡ true
unfolding all find
find-rows p q [] h e = absurd (ground (arith, e))
find-rows p q (x ∷ xs) {a} h e = ground (arith, h, e, find-rows p q xs {a = a})

-- a new attempt, with an id and a payment of its own
pub Evolves-append :
    (xs : List Attempt) (a : Attempt)
    → a.status ≡ created
    → a.dispatch_at ≡ none
    → Evolves xs (xs ++ a ∷ [])
Evolves-append [] a h d = added a h d
Evolves-append (x ∷ xs) a h d = moved (Advances-refl x) (Evolves-append xs a h d)

rows-append :
    (xs : List Attempt) (a : Attempt)
    → all is_well_formed xs ≡ true
    → is_well_formed a ≡ true
    → all is_well_formed (xs ++ a ∷ []) ≡ true
unfolding all
rows-append [] a w h = ground (arith, h)
rows-append (x ∷ xs) a w h = ground (arith, w, rows-append xs a)

count-one : (p : Attempt → Bool) (a : Attempt) → count_if p (a ∷ []) ≡ (if p a then 1 else 0)
unfolding count_if
count-one p a = omega arith

count-fresh :
    (p : Attempt → Bool) (xs : List Attempt) (a : Attempt)
    → count_if p xs ≤ 1
    → (p a ≡ true → count_if p xs ≡ 0)
    → count_if p (xs ++ a ∷ []) ≤ 1
count-fresh p xs a h f = ground (arith, count-append p xs (a ∷ []), count-one p a)

pub IsStep-append :
    (xs : List Attempt) (a : Attempt)
    → IsLedger xs
    → count_if (has_id a.id) xs ≡ 0
    → count_if (has_payment a.payment_id) xs ≡ 0
    → a.status ≡ created
    → a.dispatch_at ≡ none
    → a.lease_owner ≡ none
    → IsStep xs (xs ++ a ∷ [])
IsStep-append xs a ledger fresh_id fresh_payment h d l = record {
  evolves = Evolves-append xs a h d;
  is_ledger = record {
    ids = λ k.
        count-fresh (has_id k) xs a (ledger.ids k) (λ e. rw (sym ((==_iff a.id k).0 e)) fresh_id);
    payments = λ k.
        count-fresh (has_payment k) xs a (ledger.payments k)
          (λ e. rw (sym ((==_iff a.payment_id k).0 e)) fresh_payment);
    rows = rows-append xs a ledger.rows (rw (h, d, l));
  };
}

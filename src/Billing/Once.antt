-- ===== src/Billing/Once.antt =====
-- No payment is charged twice: a charge is sent only under a claim, and an attempt is claimed once.
use living_cost_manager.Prelude.{
  ℕ, ◌+◌, ◌≤◌, Bool, true, ◌&&◌, Option, none, some, List, [], ◌∷◌, ◌++◌, Text, ◌≡◌, sym, arith,
  inl, inr, Bool-cases, ==_iff, count_if, count_mono, count-append, find, find_sound, update_where,
  ◌==◌, if◌then◌else◌,
}
use living_cost_manager.Billing.{Instrument, Attempt, Store, Config, has_id}
use living_cost_manager.Billing.Tx.{ok}
use living_cost_manager.Billing.Dispatch.{DispatchClaim, dispatch, is_dispatched, mark_dispatched}
use living_cost_manager.Billing.Lifecycle.{Evolves, unchanged, added, moved, has_payment}
use living_cost_manager.Billing.Writes.{
  orders_of, idle, dropped, marked, dispatch-DispatchWrite, dispatch-IsStep,
}
use living_cost_manager.Billing.Sound.{IsSound}
use living_cost_manager.Billing.Process.{
  World, Step, written, claimed, sent, lost, Reach, start, further,
}
use living_cost_manager.Billing.Progress.{Transaction-Keeps, Step-Keeps}

abbrev pub is_id : ℕ → ℕ → Bool
is_id p k = k == p

-- the attempts of a payment that were dispatched
abbrev is_sent : ℕ → Attempt → Bool
is_sent p a = has_payment p a && is_dispatched a

sent_stays :
    (p : ℕ) {xs ys : List Attempt}
    → Evolves xs ys
    → count_if (is_sent p) xs ≤ count_if (is_sent p) ys
unfolding count_if
sent_stays p unchanged = omega arith
sent_stays p (added a c d) = omega arith
sent_stays p (moved {a} {b} {xs} {ys} m rest) =
    let same : is_dispatched a ≡ true → b.dispatch_at ≡ a.dispatch_at = m.stays_dispatched in
    ground (arith, m.same_payment, same, sent_stays p rest)

-- the update of a claim counts one more
mark_mono :
    (p k now : ℕ) (xs : List Attempt)
    → count_if (is_sent p) xs
      ≤ count_if (is_sent p) (update_where (has_id k) (mark_dispatched now) xs)
unfolding count_if update_where
mark_mono p k now [] = omega arith
mark_mono p k now (x ∷ xs) = ground (arith, mark_mono p k now xs)

mark-count :
    (k now : ℕ) (a : Attempt) (xs : List Attempt)
    → find (has_id k) xs ≡ some a
    → a.dispatch_at ≡ none
    → count_if (is_sent a.payment_id) xs + 1
      ≤ count_if (is_sent a.payment_id) (update_where (has_id k) (mark_dispatched now) xs)
unfolding count_if update_where find
mark-count k now a [] h d = absurd (ground (arith, h))
mark-count k now a (x ∷ xs) h d = elim (Bool-cases (has_id k x)) [
  | inl e ↦
      let same : x ≡ a = ground (arith, e, h) in
      rw (same) (ground (arith, d, mark_mono a.payment_id k now xs, e, same))
  | inr e ↦ let rest = mark-count k now a xs (ground (arith, e, h)) d in rw e (ground (arith, rest))
]

-- the charges of a payment that are claimed or sent are no more than its dispatched attempts
record IsCounted (w : World) : Type 0 where
  sound : IsSound w.store
  counted :
      (p : ℕ)
      → count_if (is_id p) w.orders + count_if (is_id p) w.sent
        ≤ count_if (is_sent p) w.store.attempts

split_count :
    (p q : ℕ) (xs ys zs : List ℕ)
    → zs ≡ xs ++ q ∷ ys
    → count_if (is_id p) zs ≡ count_if (is_id p) (xs ++ ys) + (if is_id p q then 1 else 0)
unfolding count_if
split_count p q xs ys zs h =
    rw h (omega (arith, count-append (is_id p) xs (q ∷ ys), count-append (is_id p) xs ys))

claim-counted :
    (decrypt : Instrument → Option Text) (config : Config) (k now : ℕ) (s : Store)
    {out : DispatchClaim} {after : Store} (p : ℕ)
    → IsSound s
    → dispatch decrypt config k now s ≡ ok (out, after)
    → count_if (is_id p) (orders_of out) + count_if (is_sent p) s.attempts
      ≤ count_if (is_sent p) after.attempts
unfolding count_if
claim-counted decrypt config k now s {out} {after = t} p i h =
    let grown = sent_stays p (dispatch-IsStep decrypt config k now s i.ledger h).evolves in
    elim (dispatch-DispatchWrite decrypt config k now s h) [
      | idle e o ↦ rw o (omega (arith, grown))
      | dropped n a found c e o ↦ rw o (omega (arith, grown))
      | marked n m a found c d e o ↦
          let same : a.id ≡ n = (==_iff a.id n).0 (find_sound (has_id n) s.attempts found) in
          let more = mark-count n m a s.attempts found d in
          elim (Bool-cases (is_id p a.payment_id)) [
            | inl b ↦
                let q : a.payment_id ≡ p = (==_iff a.payment_id p).0 b in
                rw (o, e, same, sym q) (ground (arith, more))
            | inr b ↦ rw (o, b) (omega (arith, grown))
          ]
    ]

module _ (decrypt : Instrument → Option Text) where
  step_counted :
      {w v : World} (p : ℕ)
      → IsCounted w
      → Step decrypt w v
      → count_if (is_id p) v.orders + count_if (is_id p) v.sent
        ≤ count_if (is_sent p) v.store.attempts
  unfolding count_if
  step_counted p i (written h) =
      omega (arith, i.counted p, sent_stays p (Transaction-Keeps i.sound h).evolves)
  step_counted {w} p i (claimed config k now {out} h) = omega (
    arith,
    i.counted p,
    count-append (is_id p) (orders_of out) w.orders,
    claim-counted decrypt config k now w.store p i.sound h,
  )
  step_counted {w} p i (sent xs q ys e) =
      omega (arith, i.counted p, split_count p q xs ys w.orders e)
  step_counted {w} p i (lost xs q ys e) =
      ground (arith, i.counted p, split_count p q xs ys w.orders e)

  Reach-IsCounted : {w v : World} → IsCounted w → Reach decrypt w v → IsCounted v
  Reach-IsCounted i start = i
  Reach-IsCounted i (further r h) =
      let j = Reach-IsCounted i r in
      record { sound = (Step-Keeps decrypt j.sound h).sound; counted = λ p. step_counted p j h }

  -- From a sound store with no charge claimed or sent, no run of the service sends the provider two
  -- charges of one payment.
  pub charged_once :
      {s : Store} {w : World} (p : ℕ)
      → IsSound s
      → Reach decrypt (record { store = s; orders = []; sent = [] }) w
      → count_if (is_id p) w.sent ≤ 1
  unfolding count_if
  charged_once {s} {w} p i r =
      let j = Reach-IsCounted (record { sound = i; counted = λ q. omega arith }) r in
      omega (
        arith,
        j.counted p,
        j.sound.ledger.payments p,
        count_mono (is_sent p) (has_payment p) w.store.attempts (λ a h. ground (arith, h)),
      )

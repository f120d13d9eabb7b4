-- ===== src/Billing/Fences.antt =====
-- The fence of an attempt: a reconciliation whose lease was overtaken commits nothing, and neither
-- is an attempt of a canceled contract dispatched.
use living_cost_manager.Prelude.{
  ℕ, ◌+◌, ◌≤◌, Bool, true, false, Option, some, List, [], ◌∷◌, Text, ◌≡◌, arith, inl, inr,
  Bool-cases, Option-cases, ==_iff, find, find_sound, update_where, ◌==◌,
}
use living_cost_manager.Billing.{Instrument, Attempt, Store, Config, has_id}
use living_cost_manager.Billing.Tx.{ok}
use living_cost_manager.Billing.Reconcile.{
  Report, ReconcileOutcome, skipped, claim_lookup, lease_to,
}
use living_cost_manager.Billing.Settle.{commit_lookup}
use living_cost_manager.Billing.Lifecycle.{Evolves, unchanged, added, moved}
use living_cost_manager.Billing.Lookups.{stale, current, commit_lookup-LookupCommit}
use living_cost_manager.Billing.Sound.{IsSound}
use living_cost_manager.Billing.Process.{looked_up, World, Reach, start, further}
use living_cost_manager.Billing.Progress.{Transaction-Keeps, Step-Keeps}

-- an attempt of the table is still there later, with a fence as high
Evolves-fence :
    (k : ℕ) {xs ys : List Attempt} {a : Attempt}
    → Evolves xs ys
    → find (has_id k) xs ≡ some a
    → (b : Attempt) × (find (has_id k) ys ≡ some b) × (a.fence ≤ b.fence)
unfolding find
Evolves-fence k {a = r} unchanged h = (r, h, omega arith)
Evolves-fence k (added a c d) h = absurd (ground (arith, h))
Evolves-fence k {a = r} (moved {a} {b} {xs} {ys} m rest) h = elim (Bool-cases (has_id k a)) [
  | inl e ↦
      let same : a ≡ r = ground (arith, e, h) in
      let here : has_id k b ≡ true = ground (arith, e, m.same_id) in
      (b, rw here, ground (arith, same, m.fence_grows))
  | inr e ↦
      let (c, f, g) = Evolves-fence k {a = r} rest (ground (arith, e, h)) in
      let elsewhere : has_id k b ≡ false = ground (arith, e, m.same_id) in (c, rw (elsewhere, f), g)
]

find-lease :
    (k owner now : ℕ) (xs : List Attempt) {a : Attempt}
    → find (has_id k) xs ≡ some a
    → find (has_id k) (update_where (has_id k) (lease_to owner now) xs)
      ≡ some (lease_to owner now a)
unfolding find update_where
find-lease k owner now [] h = absurd (ground (arith, h))
find-lease k owner now (x ∷ xs) {a} h = elim (Bool-cases (has_id k x)) [
  | inl e ↦
      let same : x ≡ a = ground (arith, e, h) in
      let here : a.id == k ≡ true = ground (arith, e, same) in rw (e, same, here)
  | inr e ↦ ground (arith, e, find-lease k owner now xs {a = a} (ground (arith, e, h)))
]

claim_fence :
    (config : Config) (k : ℕ) (force : Bool) (owner now : ℕ) (s : Store) {b : Attempt}
    {after : Store}
    → claim_lookup config k force owner now s ≡ ok (some b, after)
    → (a : Attempt) × (find (has_id k) s.attempts ≡ some a)
      × (find (has_id k) after.attempts ≡ some b)
      × (b.fence ≡ a.fence + 1)
unfolding claim_lookup
claim_fence config k force owner now s {b} {after = t} h =
    elim (Option-cases (find (has_id k) s.attempts)) [
      | inl e ↦ absurd (ground (arith, e, h))
      | inr (a, e) ↦
          let written : t.attempts ≡ update_where (has_id a.id) (lease_to owner now) s.attempts =
            ground (arith, e, h) in
          let leased : b ≡ lease_to owner now a = ground (arith, e, h) in
          let same : a.id ≡ k = (==_iff a.id k).0 (find_sound (has_id k) s.attempts e) in
          (a, e, rw (written, same, leased) (find-lease k owner now s.attempts e), rw leased)
    ]

module _ (decrypt : Instrument → Option Text) where
  Reach-fence :
      (k : ℕ) {w v : World} {a : Attempt}
      → IsSound w.store
      → Reach decrypt w v
      → find (has_id k) w.store.attempts ≡ some a
      → IsSound v.store
        × ((b : Attempt) × (find (has_id k) v.store.attempts ≡ some b) × (a.fence ≤ b.fence))
  Reach-fence k {a} i start h = (i, (a, h, omega arith))
  Reach-fence k i (further r st) h =
      let (j, (b, f, g)) = Reach-fence k i r h in
      let kept = Step-Keeps decrypt j st in
      let (c, f₂, g₂) = Evolves-fence k kept.evolves f in
      (kept.sound, (c, f₂, omega (arith, g, g₂)))

  -- Where the lease of a reconciliation on an attempt was overtaken by another claim of that
  -- attempt, the commit of the first is skipped and changes nothing, whatever happened between the
  -- two claims and after the second, and whatever it has to report.
  pub overtaken_commit_skips :
      (config : Config) (k owner now : ℕ) (force : Bool) (report : Report) (i t : ℕ) {w v u : World}
      {a b : Attempt} {after : Store} {out : ReconcileOutcome} {last : Store}
      → IsSound w.store
      → find (has_id k) w.store.attempts ≡ some a
      → Reach decrypt w v
      → claim_lookup config k force owner now v.store ≡ ok (some b, after)
      → Reach decrypt (record v { store = after }) u
      → (n : ℕ) → commit_lookup config k n a.fence report i t u.store ≡ ok (out, last)
      → (last ≡ u.store) × (out ≡ skipped)
  overtaken_commit_skips config k owner now force report i t {v = v} {u = u} {a = a} sound h r c r₂
        n l =
      let (j, (x, f, g)) = Reach-fence k sound r h in
      let (y, e, e₂, grown) = claim_fence config k force owner now v.store c in
      let claimed = (Transaction-Keeps j (looked_up config k force owner now c)).sound in
      let (j₂, (z, f₂, g₂)) = Reach-fence k claimed r₂ e₂ in
      elim (commit_lookup-LookupCommit config k n a.fence report i t u.store l) [
        | stale d there held same o ↦ (same, o)
        | current d m q there held done ↦
            let one : x.fence ≡ y.fence = ground (arith, f, e) in
            let two : z.fence ≡ d.fence = ground (arith, f₂, there) in
            absurd (ground (arith, held, one, two, g, g₂, grown))
      ]

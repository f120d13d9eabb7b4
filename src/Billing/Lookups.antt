-- ===== src/Billing/Lookups.antt =====
-- The second transaction of `reconcile`: nothing where the lease was lost, else the commit of the
-- report.
use living_cost_manager.Prelude.{
  ℕ, Bool, subst, not, if◌then◌else◌, ◌∙◌, true, false, some, ◌≡◌, arith, inl, inr, Bool-cases,
  find,
}
use living_cost_manager.Billing.{Contract, Quote, Attempt, Store, Config, has_id}
use living_cost_manager.Billing.Tx.{
  ok, Tx, pure, missing_row, billing_not_found, or_fail, query, find_quote, find_contract, ◌>>=◌,
  and_then-eq-ok, or_fail-result,
}
use living_cost_manager.Billing.Reconcile.{Report, ReconcileOutcome, skipped}
use living_cost_manager.Billing.Settle.{commit_report, commit_lookup, is_held}
use living_cost_manager.Billing.Lifecycle.{is_well_formed, IsLedger, IsStep}
use living_cost_manager.Billing.Ledger.{IsStep-refl, find-rows}
use living_cost_manager.Billing.LookupWrites.{IsWrite-IsStep, held_status, commit_report-IsWrite}

-- what the second transaction of `reconcile` does: nothing, or the commit of the report
pub data LookupCommit (config : Config) (k owner fence : ℕ) (report : Report) (i now : ℕ)
    (s : Store) (out : ReconcileOutcome) (after : Store) : Type 0 where
  stale :
      (a : Attempt)
      → find (has_id k) s.attempts ≡ some a
      → is_held owner fence a ≡ false
      → after ≡ s
      → out ≡ skipped
      → LookupCommit config k owner fence report i now s out after
  current :
      (a : Attempt) (c : Contract) (q : Quote)
      → find (has_id k) s.attempts ≡ some a
      → is_held owner fence a ≡ true
      → commit_report config c q a report i now s ≡ ok (out, after)
      → LookupCommit config k owner fence report i now s out after

not_held :
    (b : Bool) (m : Tx ReconcileOutcome) (s : Store) {out : ReconcileOutcome} {after : Store}
    → b ≡ false
    → (if not b then pure skipped else m) s ≡ ok (out, after)
    → (after ≡ s) × (out ≡ skipped)
not_held true m s e h = absurd (ground arith)
not_held false m s e h = (ground arith, ground arith)

pub commit_lookup-LookupCommit :
    (config : Config) (k owner fence : ℕ) (report : Report) (i now : ℕ) (s : Store)
    {out : ReconcileOutcome} {after : Store}
    → commit_lookup config k owner fence report i now s ≡ ok (out, after)
    → LookupCommit config k owner fence report i now s out after
unfolding commit_lookup
commit_lookup-LookupCommit config k owner fence report i now s {out} {after = t} h =
    let (a, s₁, e₁, e₂) = and_then-eq-ok (or_fail (find (has_id k) s.attempts) missing_row s) _ h in
    let (found, same₁) = or_fail-result (find (has_id k) s.attempts) missing_row s e₁ in
    let (c, s₂, e₃, e₄) =
      and_then-eq-ok (or_fail (find_contract a.contract_id s₁) billing_not_found s₁) _ e₂ in
    let same₂ : s₂ ≡ s =
      ground (
        arith,
        same₁,
        (or_fail-result (find_contract a.contract_id s₁) billing_not_found s₁ e₃).1,
      ) in
    elim (Bool-cases (is_held owner fence a)) [
      | inl held ↦
          let rest : (query (find_quote a.quote_id) missing_row >>= λ q.
          commit_report config c q a report i now)
                s
              ≡ ok (out, t) =
            ground (arith, e₄, same₂, held) in
          let (q, s₃, e₅, e₆) =
            and_then-eq-ok (or_fail (find_quote a.quote_id s) missing_row s) _ rest in
          let same₃ = (or_fail-result (find_quote a.quote_id s) missing_row s e₅).1 in
          current a c q found held (
            subst (λ z. commit_report config c q a report i now z ≡ ok (out, t)) {x = s₃} {y = s}
              same₃ e₆)
      | inr held ↦
          let (unchanged, o) = not_held (is_held owner fence a) _ s₂ held e₄ in
          stale a found held (unchanged ∙ same₂) o
    ]

pub commit_lookup-IsStep :
    (config : Config) (k owner fence : ℕ) (report : Report) (i now : ℕ) (s : Store)
    {out : ReconcileOutcome} {after : Store}
    → IsLedger s.attempts
    → commit_lookup config k owner fence report i now s ≡ ok (out, after)
    → IsStep s.attempts after.attempts
commit_lookup-IsStep config k owner fence report i now s l h =
    elim (commit_lookup-LookupCommit config k owner fence report i now s h) [
      | stale a found held e o ↦ rw e (IsStep-refl s.attempts l)
      | current a c q found held e ↦
          let w = find-rows is_well_formed (has_id k) s.attempts l.rows found in
          IsWrite-IsStep k a l found (
            commit_report-IsWrite config c q a report i now s w (held_status owner fence a w held)
              e)
    ]

-- ===== src/Billing/Coverage.antt =====
-- The paid periods of every contract stay contiguous in any run of the service.
use living_cost_manager.Prelude.{ℕ, true, Option, none, List, Text, ◌≡◌, refl, sym, ==_iff}
use living_cost_manager.Billing.{Instrument, Period}
use living_cost_manager.Billing.Periods.{is_chain, last_period-last, chain-append, chain-update}
use living_cost_manager.Billing.Process.{World, written, claimed, sent, lost, Reach, start, further}
use living_cost_manager.Billing.PeriodWrites.{
  PeriodWrite, kept, ended, extended, Transaction-PeriodWrite, dispatch_periods,
}

PeriodWrite-is_chain :
    (c : ℕ) {xs ys : List Period}
    → PeriodWrite xs ys
    → is_chain c none xs ≡ true
    → is_chain c none ys ≡ true
PeriodWrite-is_chain c (kept e) h = rw e h
PeriodWrite-is_chain c {xs} (ended q f k e) h = rw e (chain-update c q f k none none xs refl h)
PeriodWrite-is_chain c {xs} (extended p e f) h = rw e (
    chain-append c none xs p h (λ g.
      let same : p.contract_id ≡ c = (==_iff p.contract_id c).0 g in
      rw (sym (last_period-last c xs h), sym same) f))

module _ (decrypt : Instrument → Option Text) where
  -- In any run of the service that starts where the paid periods of a contract are contiguous, they
  -- still are at its end: each is not empty, has the cycle after that of the period before it, and
  -- starts where that one ends.
  pub Reach-is_chain :
      (c : ℕ) {w v : World}
      → is_chain c none w.store.periods ≡ true
      → Reach decrypt w v
      → is_chain c none v.store.periods ≡ true
  Reach-is_chain c h start = h
  Reach-is_chain c h (further {v = u} r (written t)) =
      PeriodWrite-is_chain c (Transaction-PeriodWrite u.store t) (Reach-is_chain c h r)
  Reach-is_chain c h (further {v = u} r (claimed config k now d)) =
      rw (dispatch_periods u.store decrypt config k now d) (Reach-is_chain c h r)
  Reach-is_chain c h (further r (sent xs p ys e)) = Reach-is_chain c h r
  Reach-is_chain c h (further r (lost xs p ys e)) = Reach-is_chain c h r

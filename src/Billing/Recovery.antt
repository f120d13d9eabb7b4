-- ===== src/Billing/Recovery.antt =====
-- apps/api/src/services/service-billing.ts, `reconcileRefundUnknown`: the lookup of a refund whose
-- dispatch was claimed before and whose outcome is unknown. It never asks for a refund again.
use Prim.Native.Nat.{◌^◌}
use living_cost_manager.Prelude.{
  ℕ, ◌+◌, ◌*◌, Bool, true, false, not, ◌&&◌, ◌||◌, Option, none, some, Text, text_eq, ltb, leb,
  ◌==◌, if◌then◌else◌, all, find, update_where, length,
}
use living_cost_manager.Subscription.{krw}
use living_cost_manager.Billing.{
  scope_eq, Contract, Quote, Attempt, Refund, in_dispatch, Store, Config, is_mock, is_after,
  lease_ms, lookup_limit,
}
use living_cost_manager.Billing.Tx.{
  billing_not_found, missing_row, Tx, ◌>>=◌, ◌>>◌, pure, gets, modify, query, find_contract,
  find_quote, find_attempt,
}
use living_cost_manager.Billing.Quotes.{require_ready}
use living_cost_manager.Billing.Reconcile.{has_refund_id, set_refund, is_settled}
use living_cost_manager.Billing.Refunds.{hold_refund, is_held, is_in_dispatch}

-- /[A-Za-z0-9_-]/
abbrev is_id_character : ℕ → Bool
is_id_character c =
    (leb b'A' c && leb c b'Z')
    || ((leb b'a' c && leb c b'z') || ((leb b'0' c && leb c b'9') || ((c == b'_') || (c == b'-'))))

abbrev is_operation_id : Text → Bool
is_operation_id s = leb 16 (length s) && (leb (length s) 128 && all is_id_character s)

abbrev is_approved_under : Config → Quote → Refund → Bool
is_approved_under config q r =
    elim r.approval_operation_id [ none ↦ false | some s ↦ is_operation_id s ]
    && elim r.approval_policy_version [
      | none ↦ false
      | some p ↦ text_eq p config.policy_version && text_eq q.versions.policy p
    ]

abbrev has_user : Contract → Bool
has_user c = elim c.user_id [ none ↦ false | some u ↦ true ]

-- the evidence that the refund was approved, claimed, and belongs to a payment of this scope
unfoldable pub is_recoverable : Config → Contract → Quote → Attempt → Refund → Bool
is_recoverable config c q a r =
    (ltb 0 r.fence && (ltb 0 r.lookup_count && ltb r.lookup_count lookup_limit))
    && (is_approved_under config q r
        && (has_user c
            && ((scope_eq r.scope config.scope
                  && (scope_eq a.scope r.scope
                      && (scope_eq c.scope r.scope && scope_eq q.scope r.scope)))
                && (text_eq q.channel_id config.channel_id
                    && ((ltb 0 r.request_amount && leb r.request_amount a.total_amount)
                        && (text_eq a.currency krw
                            && (is_settled a.status && not a.review_required)))))))

abbrev pub lease_recovery : ℕ → ℕ → Refund → Refund
lease_recovery owner now r = record r {
  lease_owner = some owner;
  lease_until = some (now + lease_ms);
  fence = r.fence + 1;
  lookup_count = r.lookup_count + 1;
}

abbrev is_waiting : Refund → ℕ → Bool
is_waiting r now = is_after r.lease_until now || is_after r.next_lookup_at now

-- the first transaction: the refund as leased; one without the evidence goes to manual review
unfoldable pub claim_recovery : Config → (request_id owner now : ℕ) → Tx (Option Refund)
claim_recovery config request_id owner now = do
  require_ready config true
  found ← gets (λ s. find (has_refund_id request_id) s.refunds)
  if is_mock config.mode || not config.recovers then pure none else elim found [
    | none ↦ pure none
    | some r ↦ (do
      a ← query (find_attempt r.attempt_id) missing_row
      c ← query (find_contract a.contract_id) billing_not_found
      q ← query (find_quote a.quote_id) missing_row
      if not (is_in_dispatch r.status) || is_waiting r now
          then pure none
          else if not (is_recoverable config c q a r)
          then (do modify (set_refund request_id hold_refund); pure none)
          else (do
            modify (set_refund request_id (lease_recovery owner now))
            pure (some (lease_recovery owner now r))))
  ]

abbrev pub is_held_in_dispatch : (request_id owner fence : ℕ) → Refund → Bool
is_held_in_dispatch request_id owner fence r =
    is_held request_id owner fence r && is_in_dispatch r.status

abbrev pub wait_recovery : Bool → ℕ → Refund → Refund
wait_recovery invalid now r =
    if invalid || leb lookup_limit r.lookup_count then hold_refund r else record r {
      lease_owner = none;
      lease_until = none;
      status = in_dispatch;
      next_lookup_at = some (now + 1000 * 2 ^ r.lookup_count);
    }

-- the last write, where nothing was observed, or `invalid` evidence
unfoldable pub retry_recovery : (request_id owner fence : ℕ) → Bool → (now : ℕ) → Store → Store
retry_recovery request_id owner fence invalid now s = record s {
  refunds =
      update_where (is_held_in_dispatch request_id owner fence) (wait_recovery invalid now)
        s.refunds;
}

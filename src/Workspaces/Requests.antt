-- ===== src/Workspaces/Requests.antt =====
-- packages/shared/src/workspace.ts, with the rows of packages/shared/src/budget.ts: what a request to
-- create or to rename a workspace is parsed to.
use living_cost_manager.Prelude.{
  ℕ, Bool, true, false, not, ◌&&◌, ◌||◌, Option, none, some, List, [], ◌∷◌, Text, ◌==◌, leb,
  if◌then◌else◌, any, all, length, text_eq, trim,
}
use living_cost_manager.Database.{Category, PaymentCard, FixedCostDto, WorkspaceSnapshot, no_option}
use living_cost_manager.PlanningData.{max_int}
use living_cost_manager.Snapshot.{is_credit_card, billing_is_valid, merged_is_valid}

-- `z.string().min(1).max(100)` of a trimmed text
abbrev named_or_none : Text → Option Text
named_or_none name = if leb 1 (length name) && leb (length name) 100 then some name else none

-- `workspaceNameSchema`
unfoldable pub parse_name : Text → Option Text
parse_name name = named_or_none (trim name)

-- `idSchema`: `no_option` is the empty text
abbrev is_row_id : ℕ → Bool
is_row_id k = not (k == no_option)

abbrev is_billing_day : ℕ → Bool
is_billing_day d = leb 1 d && leb d 31

abbrev is_category : Category → Bool
is_category c = is_row_id c.id && leb 1 (length c.label)

abbrev is_card : PaymentCard → Bool
is_card c = is_row_id c.id && (leb 1 (length c.label) && is_billing_day c.billing_day)

abbrev is_cost : FixedCostDto → Bool
is_cost c =
    (is_row_id c.id && is_row_id c.category_id)
    && (leb 1 (length c.name)
        && (leb c.period_tenths 1200 && (is_billing_day c.billing_day && merged_is_valid c)))

-- `new Set(keys).size === keys.length`
distinct {ℓ} : {A : Type ℓ} → (A → A → Bool) → List A → Bool
distinct same [] = true
distinct same (x ∷ xs) = let rest = distinct same xs in if any (same x) xs then false else rest

-- the category and the card of a cost are rows of the request
abbrev has_rows : WorkspaceSnapshot → FixedCostDto → Bool
has_rows b c =
    leb c.amount max_int
    && (any (λ (r : Category). r.id == c.category_id) b.categories
        && (not (is_credit_card c.payment_method_id && not (c.payment_option_id == no_option))
            || any (λ (r : PaymentCard). r.id == c.payment_option_id) b.cards))

-- `initialWorkspaceBudgetSchema`
unfoldable pub is_valid_budget : WorkspaceSnapshot → Bool
unfolding distinct billing_is_valid
is_valid_budget b =
    (leb b.monthly_income max_int
      && (leb (length b.categories) 200
          && (leb (length b.cards) 200 && leb (length b.fixed_costs) 2000)))
    && ((all is_category b.categories && (all is_card b.cards && all is_cost b.fixed_costs))
        && ((distinct (λ (r t : Category). r.id == t.id) b.categories
              && (distinct (λ (r t : PaymentCard). r.id == t.id) b.cards
                  && distinct (λ (r t : FixedCostDto). r.id == t.id) b.fixed_costs))
            && (distinct (λ (r t : Category). text_eq r.label t.label) b.categories
                && all (has_rows b) b.fixed_costs)))

-- `createWorkspaceRequestSchema`: the name of a request that is accepted
unfoldable pub parse_create : Text → WorkspaceSnapshot → Option Text
unfolding parse_name is_valid_budget
parse_create name budget = if is_valid_budget budget then parse_name name else none

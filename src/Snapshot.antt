-- ===== src/Snapshot.antt =====
-- apps/api/src/services/snapshot.ts: the synchronised budget of a workspace, replaced as a whole
-- under an optimistic lock, and the summaries of its history.
pub mod Costs
pub mod Lock
pub mod Writes
pub mod Contents
use living_cost_manager.Prelude.{
  ℕ, zero, suc, ◌+◌, ◌*◌, ◌/◌, Bool, true, false, not, ◌&&◌, ◌||◌, Option, none, some, List, [],
  ◌∷◌, ◌++◌, Text, ◌==◌, leb, if◌then◌else◌, map, find, any, all, count_if, select, update_where,
  delete_where, sort_on, length, sum_of, text_eq, take, reverse,
}
use living_cost_manager.Calendar.{parse_billing_date}
use living_cost_manager.Database.{
  RenewalStatus, PaymentMethod, Workspace, Category, PaymentCard, FixedCost, FixedCostDto,
  WorkspaceSnapshot, PlanningState, Archive, Backup, Database, no_option, credit_card, unreviewed,
  completed, has_workspace_id,
}
use living_cost_manager.Database.Tx.{
  snapshot_conflict, snapshot_invalid, unique_violation, foreign_key_violation, missing_row, Tx,
  pure, raise, gets, modify, require, or_fail, ◌>>=◌, ◌>>◌,
}
use living_cost_manager.PlanningData.{max_int}
use living_cost_manager.PlanningStorage.{planning_archive}

abbrev pub or_else {ℓ} : {A : Type ℓ} → Option A → A → A
or_else none d = d
or_else (some a) d = a

abbrev pub is_credit_card : PaymentMethod → Bool
is_credit_card credit_card = true
is_credit_card _ = false

unfoldable pub to_fixed_cost_dto : FixedCost → FixedCostDto
to_fixed_cost_dto c = record {
  id = c.id;
  workspace_id = c.workspace_id;
  name = c.name;
  category_id = c.category_id;
  payment_method_id = c.payment_method_id;
  payment_option_id =
      if is_credit_card c.payment_method_id
      then or_else c.payment_card_id no_option
      else or_else c.payment_option_key no_option;
  amount = c.amount;
  period_tenths = c.period_tenths;
  billing_day = c.billing_day;
  is_end_of_month = c.is_end_of_month;
  billing_anchor_date = some c.billing_anchor_date;
  renewal_status = some c.renewal_status;
  potential_monthly_savings = some c.potential_monthly_savings;
  confirmed_monthly_savings = some c.confirmed_monthly_savings;
}

-- `paymentOptionId || null`
abbrev non_empty : ℕ → Option ℕ
non_empty k = if k == no_option then none else some k

unfoldable pub to_fixed_cost_create_data : FixedCostDto → FixedCost
to_fixed_cost_create_data c = record {
  id = c.id;
  workspace_id = c.workspace_id;
  name = c.name;
  category_id = c.category_id;
  payment_method_id = c.payment_method_id;
  payment_card_id =
      if is_credit_card c.payment_method_id then non_empty c.payment_option_id else none;
  payment_option_key =
      if is_credit_card c.payment_method_id then none else non_empty c.payment_option_id;
  amount = c.amount;
  period_tenths = c.period_tenths;
  billing_day = c.billing_day;
  is_end_of_month = c.is_end_of_month;
  billing_anchor_date = or_else c.billing_anchor_date none;
  renewal_status = or_else c.renewal_status unreviewed;
  potential_monthly_savings = or_else c.potential_monthly_savings 0;
  confirmed_monthly_savings = or_else c.confirmed_monthly_savings 0;
}

abbrev pub in_workspace : ℕ → FixedCost → Bool
in_workspace w c = c.workspace_id == w

-- `getWorkspaceSnapshot`: each list ordered by id
unfoldable pub snapshot_of : Database → Workspace → WorkspaceSnapshot
unfolding to_fixed_cost_dto
snapshot_of db row = record {
  workspace_id = row.id;
  sync_version = row.sync_version;
  monthly_income = row.monthly_income;
  categories =
      sort_on (λ (c : Category). c.id) (select (λ c. c.workspace_id == row.id) db.categories);
  cards = sort_on (λ (c : PaymentCard). c.id) (select (λ c. c.workspace_id == row.id) db.cards);
  fixed_costs =
      map to_fixed_cost_dto
        (sort_on (λ (c : FixedCost). c.id) (select (in_workspace row.id) db.fixed_costs));
}

unfoldable pub get_workspace_snapshot : ℕ → Tx WorkspaceSnapshot
get_workspace_snapshot w = do
  found ← gets (λ db. find (has_workspace_id w) db.workspaces)
  row ← or_fail found missing_row
  gets (λ db. snapshot_of db row)

abbrev is_completed : RenewalStatus → Bool
is_completed completed = true
is_completed _ = false

abbrev is_anchor : Option Text → Bool
is_anchor none = true
is_anchor (some text) = elim (parse_billing_date text) [ none ↦ false | some d ↦ true ]

-- `billingFieldsSchema` on the four merged values
unfoldable pub billing_is_valid : Option Text → RenewalStatus → ℕ → ℕ → Bool
billing_is_valid anchor status potential confirmed =
    is_anchor anchor
    && ((leb potential max_int && leb confirmed max_int) && (confirmed == 0 || is_completed status))

abbrev pub existing_anchor : Option FixedCost → Option Text
existing_anchor none = none
existing_anchor (some e) = e.billing_anchor_date

abbrev pub existing_status : Option FixedCost → RenewalStatus
existing_status none = unreviewed
existing_status (some e) = e.renewal_status

abbrev pub existing_potential : Option FixedCost → ℕ
existing_potential none = 0
existing_potential (some e) = e.potential_monthly_savings

abbrev pub existing_confirmed : Option FixedCost → ℕ
existing_confirmed none = 0
existing_confirmed (some e) = e.confirmed_monthly_savings

-- A field that an older client leaves out keeps its stored value.
unfoldable pub merge_cost : Option FixedCost → FixedCostDto → FixedCostDto
merge_cost old c = record c {
  billing_anchor_date = some (or_else c.billing_anchor_date (existing_anchor old));
  renewal_status = some (or_else c.renewal_status (existing_status old));
  potential_monthly_savings = some (or_else c.potential_monthly_savings (existing_potential old));
  confirmed_monthly_savings = some (or_else c.confirmed_monthly_savings (existing_confirmed old));
}

abbrev pub merged_is_valid : FixedCostDto → Bool
merged_is_valid c =
    billing_is_valid (or_else c.billing_anchor_date none) (or_else c.renewal_status unreviewed)
      (or_else c.potential_monthly_savings 0) (or_else c.confirmed_monthly_savings 0)

-- `existingById.get(cost.id)`: an id is unique within a workspace
abbrev pub existing_cost : Database → ℕ → ℕ → Option FixedCost
existing_cost db w k = find (λ (c : FixedCost). (c.workspace_id == w) && (c.id == k)) db.fixed_costs

abbrev pub merge_costs : Database → WorkspaceSnapshot → List FixedCostDto
merge_costs db s =
    map (λ (c : FixedCostDto). merge_cost (existing_cost db s.workspace_id c.id) c) s.fixed_costs

-- `createMany`: rows are added one after another, unless a unique key is taken
abbrev pub append_new {ℓ} : {A : Type ℓ} → (A → A → Bool) → List A → List A → Option (List A)
append_new clash table [] = some table
append_new clash table (row ∷ rows) =
    let rest = append_new clash (table ++ row ∷ []) rows in
    if any (clash row) table then none else rest

abbrev pub same_category : Category → Category → Bool
same_category a b = (a.workspace_id == b.workspace_id) && (a.id == b.id || text_eq a.label b.label)

abbrev pub same_card : PaymentCard → PaymentCard → Bool
same_card a b = (a.workspace_id == b.workspace_id) && (a.id == b.id)

abbrev pub same_cost : FixedCost → FixedCost → Bool
same_cost a b = (a.workspace_id == b.workspace_id) && (a.id == b.id)

-- the foreign keys of a cost: its category, and its card where it has one
abbrev pub is_linked : Database → FixedCost → Bool
is_linked db c =
    any (λ (r : Category). (r.workspace_id == c.workspace_id) && (r.id == c.category_id))
      db.categories
    && elim c.payment_card_id [
      | none ↦ true
      | some k ↦
          any (λ (r : PaymentCard). (r.workspace_id == c.workspace_id) && (r.id == k)) db.cards
    ]

unfoldable pub create_categories : List Category → Tx (Unit {0})
create_categories rows = do
  table ← gets (λ db. append_new same_category db.categories rows)
  categories ← or_fail table unique_violation
  modify (λ db. record db { categories = categories })

unfoldable pub create_cards : List PaymentCard → Tx (Unit {0})
create_cards rows = do
  table ← gets (λ db. append_new same_card db.cards rows)
  cards ← or_fail table unique_violation
  modify (λ db. record db { cards = cards })

unfoldable pub create_costs : List FixedCost → Tx (Unit {0})
create_costs rows = do
  table ← gets (λ db. append_new same_cost db.fixed_costs rows)
  costs ← or_fail table unique_violation
  linked ← gets (λ db. all (is_linked db) rows)
  require linked foreign_key_violation
  modify (λ db. record db { fixed_costs = costs })

abbrev pub is_version_of : ℕ → ℕ → Workspace → Bool
is_version_of w v row = (row.id == w) && (row.sync_version == v)

abbrev pub advanced : ℕ → Workspace → Workspace
advanced income row = record row { monthly_income = income; sync_version = row.sync_version + 1 }

abbrev refuse_version : ℕ → Tx (Unit {0})
refuse_version w = do
  found ← gets (λ db. find (has_workspace_id w) db.workspaces)
  current ← or_fail found missing_row
  raise (snapshot_conflict current.sync_version)

-- the optimistic lock: one conditional update
unfoldable pub lock_version : ℕ → ℕ → ℕ → Tx (Unit {0})
lock_version w v income = do
  count ← gets (λ db. count_if (is_version_of w v) db.workspaces)
  modify (λ db. record db {
    workspaces = update_where (is_version_of w v) (advanced income) db.workspaces;
  })
  if count == 0 then refuse_version w else pure tt

-- the three `deleteMany`
unfoldable pub clear_budget : ℕ → Database → Database
clear_budget w db = record db {
  fixed_costs = delete_where (in_workspace w) db.fixed_costs;
  cards = delete_where (λ c. c.workspace_id == w) db.cards;
  categories = delete_where (λ c. c.workspace_id == w) db.categories;
}

-- the budget of `s` in place of the stored one, with the merged costs `costs`
unfoldable pub write_budget : WorkspaceSnapshot → List FixedCostDto → Tx (Unit {0})
write_budget s costs = do
  modify (clear_budget s.workspace_id)
  create_categories s.categories
  create_cards s.cards
  create_costs (map to_fixed_cost_create_data costs)

abbrev pub new_backup : ℕ → ℕ → WorkspaceSnapshot → Option Archive → Backup
new_backup k now s planning = record {
  id = k;
  workspace_id = s.workspace_id;
  created_at = now;
  snapshot = s;
  planning = planning;
}

-- a backup of `s`, with the archived planning
unfoldable pub create_backup : ℕ → ℕ → WorkspaceSnapshot → Tx (Unit {0})
create_backup k now s = do
  row ← gets (λ db. find (λ (p : PlanningState). p.workspace_id == s.workspace_id) db.planning)
  planning ← planning_archive row
  modify (λ db. record db { backups = db.backups ++ new_backup k now s planning ∷ [] })

-- `backup_id` and `now` are the id and the time that the database gives to the backup
unfoldable pub replace_workspace_snapshot :
    WorkspaceSnapshot → (backup_id now : ℕ) → Tx WorkspaceSnapshot
replace_workspace_snapshot s backup_id now = do
  lock_version s.workspace_id s.sync_version s.monthly_income
  costs ← gets (λ db. merge_costs db s)
  require (all merged_is_valid costs) snapshot_invalid
  write_budget s costs
  create_backup backup_id now (record s { fixed_costs = costs; sync_version = s.sync_version + 1 })
  get_workspace_snapshot s.workspace_id

-- `Math.round(amount / periodMonths)`
unfoldable pub monthly_equivalent_amount : ℕ → ℕ → ℕ
monthly_equivalent_amount amount tenths =
    if tenths == 0 then 0 else (20 * amount + tenths) / (2 * tenths)

pub record HistoryEntry : Type 0 where
  pub id : ℕ
  pub created_at : ℕ
  pub monthly_income : ℕ
  pub fixed_cost_monthly_total : ℕ
  pub fixed_cost_count : ℕ

unfoldable pub summarize_backup_payload : Backup → HistoryEntry
unfolding monthly_equivalent_amount
summarize_backup_payload b = record {
  id = b.id;
  created_at = b.created_at;
  monthly_income = b.snapshot.monthly_income;
  fixed_cost_monthly_total =
      sum_of (λ (c : FixedCostDto). monthly_equivalent_amount c.amount c.period_tenths)
        b.snapshot.fixed_costs;
  fixed_cost_count = length b.snapshot.fixed_costs;
}

-- newest first: rows come in the order of `createdAt`
unfoldable pub get_snapshot_history : ℕ → ℕ → Tx (List HistoryEntry)
unfolding summarize_backup_payload
get_snapshot_history w limit = gets (λ db.
    map summarize_backup_payload
      (take limit (reverse (select (λ (b : Backup). b.workspace_id == w) db.backups))))

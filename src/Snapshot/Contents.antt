-- ===== src/Snapshot/Contents.antt =====
-- The budget that a write leaves and returns is the one that was sent.
use living_cost_manager.Prelude.{
  ℕ, ◌+◌, ◌≤◌, Bool, true, ◌==◌, Option, some, List, [], ◌∷◌, ◌++◌, ◌≡◌, refl, arith, ap, ◌∙◌, map,
  find_sound, any, all, select, count_if, delete_where, sort_on, map-sort_on, select-replaced,
  Bool-cases, Option-cases, inl, inr,
}
use living_cost_manager.Database.{
  Workspace, WorkspaceSnapshot, Category, PaymentCard, FixedCost, FixedCostDto, Database,
  has_workspace_id,
}
use living_cost_manager.Database.Tx.{ok, and_then-eq-ok}
use living_cost_manager.Snapshot.{
  to_fixed_cost_dto, to_fixed_cost_create_data, merge_cost, merge_costs, existing_cost, append_new,
  same_category, same_card, same_cost, in_workspace, advanced, snapshot_of, get_workspace_snapshot,
  create_categories, create_cards, create_costs, clear_budget, write_budget,
  replace_workspace_snapshot,
}
use living_cost_manager.Snapshot.Costs.{dto-create_data}
use living_cost_manager.Snapshot.Lock.{version_of, replace-IsReplaced}
use living_cost_manager.Snapshot.Writes.{replace_advances}

append_nil {ℓ} : {A : Type ℓ} (xs : List A) → xs ++ [] ≡ xs
append_nil [] = refl
append_nil (x ∷ xs) = ap (λ t. x ∷ t) (append_nil xs)

append_assoc {ℓ} : {A : Type ℓ} (xs ys zs : List A) → (xs ++ ys) ++ zs ≡ xs ++ (ys ++ zs)
append_assoc [] ys zs = refl
append_assoc (x ∷ xs) ys zs = ap (λ t. x ∷ t) (append_assoc xs ys zs)

append_new-result {ℓ} :
    {A : Type ℓ} (clash : A → A → Bool) (table rows : List A) {after : List A}
    → append_new clash table rows ≡ some after
    → after ≡ table ++ rows
append_new-result clash table [] h = ground (arith, append_nil table)
append_new-result clash table (r ∷ rows) {after = l} h = elim (Bool-cases (any (clash r) table)) [
  | inl e ↦ absurd (ground (arith, h, e))
  | inr e ↦
      append_new-result clash (table ++ r ∷ []) rows (rw e at h) ∙ append_assoc table (r ∷ []) rows
]

create_categories-result :
    (rows : List Category) (db : Database) {after : Database}
    → create_categories rows db ≡ ok (tt, after)
    → after ≡ record db { categories = db.categories ++ rows }
unfolding create_categories
create_categories-result rows db h =
    elim (Option-cases (append_new same_category db.categories rows)) [
      | inl e ↦ absurd (ground (arith, h, e))
      | inr (table, e) ↦ ground (arith, h, e, append_new-result same_category db.categories rows e)
    ]

create_cards-result :
    (rows : List PaymentCard) (db : Database) {after : Database}
    → create_cards rows db ≡ ok (tt, after)
    → after ≡ record db { cards = db.cards ++ rows }
unfolding create_cards
create_cards-result rows db h = elim (Option-cases (append_new same_card db.cards rows)) [
  | inl e ↦ absurd (ground (arith, h, e))
  | inr (table, e) ↦ ground (arith, h, e, append_new-result same_card db.cards rows e)
]

create_costs-result :
    (rows : List FixedCost) (db : Database) {after : Database}
    → create_costs rows db ≡ ok (tt, after)
    → after ≡ record db { fixed_costs = db.fixed_costs ++ rows }
unfolding create_costs
create_costs-result rows db h = elim (Option-cases (append_new same_cost db.fixed_costs rows)) [
  | inl e ↦ absurd (ground (arith, h, e))
  | inr (table, e) ↦ ground (arith, h, e, append_new-result same_cost db.fixed_costs rows e)
]

abbrev is_category_of : ℕ → Category → Bool
is_category_of w c = c.workspace_id == w

abbrev is_card_of : ℕ → PaymentCard → Bool
is_card_of w c = c.workspace_id == w

abbrev pub is_cost_of : ℕ → FixedCostDto → Bool
is_cost_of w c = c.workspace_id == w

write_budget-result :
    (s : WorkspaceSnapshot) (costs : List FixedCostDto) (db : Database) {after : Database}
    → write_budget s costs db ≡ ok (tt, after)
    → (after.categories
        ≡ delete_where (is_category_of s.workspace_id) db.categories ++ s.categories)
      × (after.cards ≡ delete_where (is_card_of s.workspace_id) db.cards ++ s.cards)
      × (after.fixed_costs
          ≡ delete_where (in_workspace s.workspace_id) db.fixed_costs
            ++ map to_fixed_cost_create_data costs)
unfolding write_budget clear_budget
write_budget-result s costs db h =
    let cleared = clear_budget s.workspace_id db in
    let (u, one, p, rest) = and_then-eq-ok (create_categories s.categories cleared) _ h in
    let (v, two, q, last) = and_then-eq-ok (create_cards s.cards one) _ rest in
    let first = create_categories-result s.categories cleared p in
    let second = create_cards-result s.cards one q in
    let third = create_costs-result (map to_fixed_cost_create_data costs) two last in
    (
      ground (arith, first, second, third),
      ground (arith, first, second, third),
      ground (arith, first, second, third),
    )

all-created :
    (w : ℕ) (old : FixedCostDto → Option FixedCost) (costs : List FixedCostDto)
    → all (is_cost_of w) costs ≡ true
    → all
        (in_workspace w)
        (map to_fixed_cost_create_data (map (λ (c : FixedCostDto). merge_cost (old c) c) costs))
      ≡ true
unfolding all to_fixed_cost_create_data merge_cost
all-created w old [] h = refl
all-created w old (c ∷ costs) h = ground (arith, all-created w old costs)

dto-created :
    (old : FixedCostDto → Option FixedCost) (costs : List FixedCostDto)
    → map to_fixed_cost_dto
        (map to_fixed_cost_create_data (map (λ (c : FixedCostDto). merge_cost (old c) c) costs))
      ≡ map (λ (c : FixedCostDto). merge_cost (old c) c) costs
dto-created old [] = refl
dto-created old (c ∷ costs) = rw (dto-create_data (old c) c, dto-created old costs)

-- each part of the sent budget lies in the workspace that it names
pub record IsOwnBudget (s : WorkspaceSnapshot) : Type 0 where
  pub categories : all (λ (c : Category). c.workspace_id == s.workspace_id) s.categories ≡ true
  pub cards : all (λ (c : PaymentCard). c.workspace_id == s.workspace_id) s.cards ≡ true
  pub costs : all (is_cost_of s.workspace_id) s.fixed_costs ≡ true

-- the answer to a write
abbrev pub sent_budget : Database → WorkspaceSnapshot → WorkspaceSnapshot
sent_budget db s = record {
  workspace_id = s.workspace_id;
  sync_version = s.sync_version + 1;
  monthly_income = s.monthly_income;
  categories = sort_on (λ (c : Category). c.id) s.categories;
  cards = sort_on (λ (c : PaymentCard). c.id) s.cards;
  fixed_costs = sort_on (λ (c : FixedCostDto). c.id) (merge_costs db s);
}

get-result :
    (db : Database) (w : ℕ) (row : Workspace) {out : WorkspaceSnapshot} {after : Database}
    → version_of db w ≡ some row
    → get_workspace_snapshot w db ≡ ok (out, after)
    → out ≡ snapshot_of db row
unfolding get_workspace_snapshot
get-result db w row found h = ground (arith, found, h)

dto_id : (c : FixedCost) → (to_fixed_cost_dto c).id ≡ c.id
unfolding to_fixed_cost_dto
dto_id c = refl

snapshot-sent :
    (db after : Database) (s : WorkspaceSnapshot) (row : Workspace)
    → row.id ≡ s.workspace_id
    → select (is_category_of s.workspace_id) after.categories ≡ s.categories
    → select (is_card_of s.workspace_id) after.cards ≡ s.cards
    → select (in_workspace s.workspace_id) after.fixed_costs
      ≡ map to_fixed_cost_create_data (merge_costs db s)
    → row.sync_version ≡ s.sync_version
    → snapshot_of after (advanced s.monthly_income row) ≡ sent_budget db s
unfolding snapshot_of
snapshot-sent db after s row same cats cards costs version = rw (
  same,
  version,
  cats,
  cards,
  costs,
  map-sort_on (λ (c : FixedCost). c.id) (λ (c : FixedCostDto). c.id) to_fixed_cost_dto
      (λ c. dto_id c) (map to_fixed_cost_create_data (merge_costs db s)),
  dto-created (λ (c : FixedCostDto). existing_cost db s.workspace_id c.id) s.fixed_costs,
)

-- A write that succeeds answers with the budget that was sent: its categories, its cards and its
-- merged costs, each in the order of the ids, with the sent income and the next version.
pub replace_returns :
    (db : Database) (s : WorkspaceSnapshot) (k now : ℕ) (row : Workspace) {out : WorkspaceSnapshot}
    {after : Database}
    → version_of db s.workspace_id ≡ some row
    → count_if (has_workspace_id s.workspace_id) db.workspaces ≤ 1
    → IsOwnBudget s
    → replace_workspace_snapshot s k now db ≡ ok (out, after)
    → out ≡ sent_budget db s
replace_returns db s k now row {out} {after} found unique own h =
    let r = replace-IsReplaced db s k now h in
    let (same, next) = replace_advances db s k now row found unique h in
    let (cats, cards, costs) = write_budget-result s (merge_costs r.locked s) r.locked r.write in
    let (cats₂, cards₂, costs₂) = r.budget in
    let merged : merge_costs r.locked s ≡ merge_costs db s = rw r.lock in
    get-result after s.workspace_id (advanced s.monthly_income row) next r.read
    ∙ snapshot-sent db after s row
        (ground (arith, find_sound (has_workspace_id s.workspace_id) db.workspaces found))
        (rw (cats₂, cats)
          (select-replaced (is_category_of s.workspace_id) r.locked.categories s.categories
            own.categories))
        (rw (cards₂, cards)
          (select-replaced (is_card_of s.workspace_id) r.locked.cards s.cards own.cards))
        (rw (costs₂, costs, merged)
          (select-replaced (in_workspace s.workspace_id) r.locked.fixed_costs _ (
            all-created s.workspace_id (λ (c : FixedCostDto). existing_cost db s.workspace_id c.id)
              s.fixed_costs own.costs)))
        same

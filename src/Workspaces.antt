-- ===== src/Workspaces.antt =====
-- apps/api/src/services/workspaces.ts, the limits of services/paid-feature-policy.ts, and the
-- transaction of the registration in routes/auth.ts. `paid` is the answer of `hasPaidAccess`.
pub mod Requests
pub mod Sound
pub mod Registration
use living_cost_manager.Prelude.{
  ℕ, ◌+◌, Bool, true, false, not, ◌&&◌, Option, none, some, List, [], ◌∷◌, ◌++◌, Text, ◌==◌, leb,
  if◌then◌else◌, map, find, any, count_if, select, update_where, text_eq, length,
}
use living_cost_manager.Calendar.{CivilDate}
use living_cost_manager.Database.{
  WorkspaceRole, owner, viewer, User, Workspace, Member, Category, PaymentCard, FixedCost,
  FixedCostDto, WorkspaceSnapshot, Backup, Database, has_user_id, has_workspace_id, is_membership,
  is_owner,
}
use living_cost_manager.Database.Tx.{
  Failure, Result, ok, err, Tx, pure, raise, gets, modify, require, or_fail, ◌>>=◌, ◌>>◌,
  unique_violation, email_conflict, user_not_found, workspace_forbidden, free_workspace_limit,
  feature_not_available, missing_row, invalid_request,
}
use living_cost_manager.Database.Inserts.{insert_member}
use living_cost_manager.Membership.{WorkspaceDto, owner_row}
use living_cost_manager.Workspaces.Requests.{parse_name, parse_create}
use living_cost_manager.Predictions.{PredictableFixedCost}
use living_cost_manager.Aggregation.{Summary, summarize_workspace_budget, sum_workspace_budgets}
use living_cost_manager.Snapshot.{
  to_fixed_cost_create_data, create_categories, create_cards, create_costs, get_workspace_snapshot,
}

abbrev pub has_email : Text → User → Bool
has_email email u = text_eq u.email email

-- the primary key and the key on the address
unfoldable pub insert_user : User → Tx (Unit {0})
insert_user u = do
  taken ← gets (λ db. any (λ (r : User). r.id == u.id) db.users)
  require (not taken) unique_violation
  used ← gets (λ db. any (has_email u.email) db.users)
  require (not used) unique_violation
  modify (λ db. record db { users = db.users ++ u ∷ [] })

-- the primary key
unfoldable pub insert_workspace : Workspace → Tx (Unit {0})
insert_workspace row = do
  taken ← gets (λ db. any (has_workspace_id row.id) db.workspaces)
  require (not taken) unique_violation
  modify (λ db. record db { workspaces = db.workspaces ++ row ∷ [] })

-- where: { userId, role: "owner" }
abbrev pub is_owned_role : ℕ → Member → Bool
is_owned_role u m = (m.user_id == u) && is_owner m.role

unfoldable pub assert_can_create_workspace : (paid : ℕ → Database → Bool) → ℕ → Tx (Unit {0})
assert_can_create_workspace paid u = do
  known ← gets (λ db. any (has_user_id u) db.users)
  require known user_not_found
  owned ← gets (λ db. count_if (is_owned_role u) db.members)
  access ← gets (paid u)
  require (not (leb 1 owned && not access)) free_workspace_limit

unfoldable pub assert_can_aggregate : (paid : ℕ → Database → Bool) → ℕ → Tx (Unit {0})
assert_can_aggregate paid u = do access ← gets (paid u); require access feature_not_available

abbrev pub owner_row_of : ℕ → ℕ → ℕ → Member
owner_row_of k w u = record { id = k; workspace_id = w; user_id = u; role = owner }

abbrev pub new_workspace : ℕ → Text → ℕ → Workspace
new_workspace w name income = record {
  id = w;
  name = name;
  monthly_income = income;
  sync_version = 0;
}

-- a workspace and its first owner
unfoldable pub found_workspace : (workspace : Workspace) → (member_id user : ℕ) → Tx (Unit {0})
unfolding insert_workspace
found_workspace row k u = do insert_workspace row; insert_member (owner_row_of k row.id u)

abbrev initial_backup : ℕ → ℕ → WorkspaceSnapshot → Backup
initial_backup k now s = record {
  id = k;
  workspace_id = s.workspace_id;
  created_at = now;
  snapshot = s;
  planning = none;
}

-- the rows of `initialBudget` under the new workspace
unfoldable pub fill_workspace : ℕ → WorkspaceSnapshot → (backup_id now : ℕ) → Tx WorkspaceSnapshot
fill_workspace w budget backup_id now = do
  create_categories (map (λ (c : Category). record c { workspace_id = w }) budget.categories)
  create_cards (map (λ (c : PaymentCard). record c { workspace_id = w }) budget.cards)
  create_costs (
      map (λ (c : FixedCostDto). to_fixed_cost_create_data (record c { workspace_id = w }))
        budget.fixed_costs)
  snapshot ← get_workspace_snapshot w
  modify (λ db. record db { backups = db.backups ++ initial_backup backup_id now snapshot ∷ [] })
  pure snapshot

-- The ids and the time that the database gives to the new rows.
pub record NewIds : Type 0 where
  pub workspace : ℕ
  pub member : ℕ
  pub backup : ℕ
  pub now : ℕ

-- the transaction on a parsed request
unfoldable pub write_workspace :
    (paid : ℕ → Database → Bool)
    → ℕ
    → Text
    → WorkspaceSnapshot
    → NewIds
    → Tx (WorkspaceDto × WorkspaceSnapshot)
write_workspace paid u name budget ids = do
  assert_can_create_workspace paid u
  found_workspace (new_workspace ids.workspace name budget.monthly_income) ids.member u
  snapshot ← fill_workspace ids.workspace budget ids.backup ids.now
  pure (record { id = ids.workspace; name = name; role = owner }, snapshot)

unfoldable pub create_user_workspace :
    (paid : ℕ → Database → Bool)
    → ℕ
    → Text
    → WorkspaceSnapshot
    → NewIds
    → Tx (WorkspaceDto × WorkspaceSnapshot)
unfolding parse_create write_workspace
create_user_workspace paid u name budget ids = do
  parsed ← or_fail (parse_create name budget) invalid_request
  write_workspace paid u parsed budget ids

-- the transaction on a parsed name
unfoldable pub write_name : ℕ → ℕ → Text → Tx WorkspaceDto
write_name u w name = do
  member ← gets (λ db. find (is_membership w u) db.members)
  require (owner_row member) workspace_forbidden
  known ← gets (λ db. any (has_workspace_id w) db.workspaces)
  require known missing_row
  modify (λ db. record db {
    workspaces =
        update_where (has_workspace_id w) (λ row. record row { name = name }) db.workspaces;
  })
  pure (record { id = w; name = name; role = owner })

unfoldable pub rename_user_workspace : ℕ → ℕ → Text → Tx WorkspaceDto
unfolding parse_name write_name
rename_user_workspace u w name = do
  parsed ← or_fail (parse_name name) invalid_request
  write_name u w parsed

-- `의 생활비`
abbrev pub living_cost_suffix : Text
living_cost_suffix = 51032 ∷ 32 ∷ 49373 ∷ 54876 ∷ 48708 ∷ []

abbrev pub new_user : ℕ → Text → Text → ℕ → User
new_user u email name password_hash = record {
  id = u;
  email = email;
  name = name;
  password_hash = password_hash;
  token_version = 0;
  email_verified_at = none;
}

-- the transaction of `POST /auth/register`
unfoldable pub register_user :
    (paid : ℕ → Database → Bool) → User → (workspace_id member_id : ℕ) → Tx (User × WorkspaceDto)
unfolding insert_user
register_user paid user w k = do
  insert_user user
  assert_can_create_workspace paid user.id
  found_workspace (new_workspace w (user.name ++ living_cost_suffix) 0) k user.id
  pure (user, record { id = w; name = user.name ++ living_cost_suffix; role = owner })

-- `error.code === "P2002"`
abbrev conflict_of : Failure → Failure
conflict_of unique_violation = email_conflict
conflict_of e = e

abbrev pub as_email_conflict {ℓ} : {A : Type ℓ} → Result A → Result A
as_email_conflict (ok a) = ok a
as_email_conflict (err e) = err (conflict_of e)

-- `POST /auth/register`, with the ids that the database gives to the three rows
unfoldable pub register :
    (paid : ℕ → Database → Bool)
    → (email name : Text) → (password_hash u w k : ℕ) → Tx (User × WorkspaceDto)
register paid email name password_hash u w k = do
  existing ← gets (λ db. any (has_email email) db.users)
  require (not existing) email_conflict
  λ db. as_email_conflict (register_user paid (new_user u email name password_hash) w k db)

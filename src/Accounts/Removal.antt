-- ===== src/Accounts/Removal.antt =====
-- Who may delete a workspace, and what goes with it (`deleteWorkspace`).
use living_cost_manager.Prelude.{
  ℕ, List, [], ◌∷◌, ◌==◌, ◌≡◌, ◌≢◌, refl, arith, select, delete_where,
}
use living_cost_manager.Database.{
  Workspace, Member, Invitation, Category, PaymentCard, FixedCost, PlanningState, Backup, Database,
}
use living_cost_manager.Database.Tx.{ok}
use living_cost_manager.Accounts.{delete_workspaces, delete_workspace}
use living_cost_manager.Membership.Managers.{IsOwnerBy, owner_row-IsOwnerBy}

-- What a database holds of a workspace.
pub record Holding : Type 0 where
  pub workspaces : List Workspace
  pub members : List Member
  pub invitations : List Invitation
  pub categories : List Category
  pub cards : List PaymentCard
  pub fixed_costs : List FixedCost
  pub planning : List PlanningState
  pub backups : List Backup

abbrev pub holding : Database → ℕ → Holding
holding db w = record {
  workspaces = select (λ r. r.id == w) db.workspaces;
  members = select (λ r. r.workspace_id == w) db.members;
  invitations = select (λ r. r.workspace_id == w) db.invitations;
  categories = select (λ r. r.workspace_id == w) db.categories;
  cards = select (λ r. r.workspace_id == w) db.cards;
  fixed_costs = select (λ r. r.workspace_id == w) db.fixed_costs;
  planning = select (λ r. r.workspace_id == w) db.planning;
  backups = select (λ r. r.workspace_id == w) db.backups;
}

abbrev pub nothing_held : Holding
nothing_held = record {
  workspaces = [];
  members = [];
  invitations = [];
  categories = [];
  cards = [];
  fixed_costs = [];
  planning = [];
  backups = [];
}

-- rows of a table that belong to a workspace, by `of`
module _ {A : Type 0} (of : A → ℕ) (v w : ℕ) where
  select-gone : (rows : List A) → select (λ r. of r == w) (delete_where (λ r. of r == w) rows) ≡ []
  unfolding select delete_where
  select-gone [] = refl
  select-gone (r ∷ rows) = ground (arith, select-gone rows)

  select-kept :
      (rows : List A)
      → v ≢ w
      → select (λ r. of r == v) (delete_where (λ r. of r == w) rows) ≡ select (λ r. of r == v) rows
  unfolding select delete_where
  select-kept [] n = refl
  select-kept (r ∷ rows) n = ground (arith, n, select-kept rows)

holding-gone :
    (db : Database) (w : ℕ) → holding (delete_workspaces (λ v. v == w) db) w ≡ nothing_held
unfolding delete_workspaces
holding-gone db w = rw (
  select-gone (λ (r : Workspace). r.id) w w db.workspaces,
  select-gone (λ (r : Member). r.workspace_id) w w db.members,
  select-gone (λ (r : Invitation). r.workspace_id) w w db.invitations,
  select-gone (λ (r : Category). r.workspace_id) w w db.categories,
  select-gone (λ (r : PaymentCard). r.workspace_id) w w db.cards,
  select-gone (λ (r : FixedCost). r.workspace_id) w w db.fixed_costs,
  select-gone (λ (r : PlanningState). r.workspace_id) w w db.planning,
  select-gone (λ (r : Backup). r.workspace_id) w w db.backups,
)

holding-kept :
    (db : Database) (w v : ℕ)
    → v ≢ w
    → holding (delete_workspaces (λ x. x == w) db) v ≡ holding db v
unfolding delete_workspaces
holding-kept db w v n = rw (
  select-kept (λ (r : Workspace). r.id) v w db.workspaces n,
  select-kept (λ (r : Member). r.workspace_id) v w db.members n,
  select-kept (λ (r : Invitation). r.workspace_id) v w db.invitations n,
  select-kept (λ (r : Category). r.workspace_id) v w db.categories n,
  select-kept (λ (r : PaymentCard). r.workspace_id) v w db.cards n,
  select-kept (λ (r : FixedCost). r.workspace_id) v w db.fixed_costs n,
  select-kept (λ (r : PlanningState). r.workspace_id) v w db.planning n,
  select-kept (λ (r : Backup). r.workspace_id) v w db.backups n,
)

-- A deletion that succeeds was made by an owner of the workspace; nothing is then held of it,
-- every other workspace keeps all its rows, and users and contracts stay.
pub delete_workspace_needs_owner :
    (db : Database) (u w v : ℕ) {after : Database}
    → v ≢ w
    → delete_workspace u w db ≡ ok (tt, after)
    → IsOwnerBy db w u
      × (holding after w ≡ nothing_held)
      × (holding after v ≡ holding db v)
      × (after.users ≡ db.users)
      × (after.contracts ≡ db.contracts)
unfolding delete_workspace delete_workspaces
delete_workspace_needs_owner db u w v {after} n h =
    let e : after ≡ delete_workspaces (λ x. x == w) db = ground arith in
    (
      owner_row-IsOwnerBy db w u (ground arith),
      rw e (holding-gone db w),
      rw e (holding-kept db w v n),
      rw e,
      rw e,
    )

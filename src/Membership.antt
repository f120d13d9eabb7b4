-- ===== src/Membership.antt =====
-- apps/api/src/services/membership.ts: who belongs to a workspace and in which role.
pub mod Managers
pub mod Owners
pub mod LastOwner
pub mod Outcomes
use living_cost_manager.Prelude.{
  ℕ, Bool, true, false, not, ◌&&◌, Option, none, some, List, [], ◌∷◌, Text, ◌==◌, ltb, leb,
  if◌then◌else◌, find, count_if, select, update_where, delete_where,
}
use living_cost_manager.Database.{
  WorkspaceRole, owner, editor, viewer, User, Member, Workspace, Database, is_owner, is_membership,
  is_owner_of, has_member_id, has_workspace_id, has_user_id, owner_count,
}
use living_cost_manager.Database.Tx.{
  Failure, member_forbidden, member_not_found, last_owner, missing_row, Tx, pure, raise, gets,
  modify, require, or_fail, ◌>>=◌, ◌>>◌,
}

pub record MemberDto : Type 0 where
  pub id : ℕ
  pub workspace_id : ℕ
  pub user_id : ℕ
  pub email : Text
  pub name : Text
  pub role : WorkspaceRole

pub record WorkspaceDto : Type 0 where
  pub id : ℕ
  pub name : Text
  pub role : WorkspaceRole

abbrev pub to_workspace_member_dto : Member → User → MemberDto
to_workspace_member_dto m u = record {
  id = m.id;
  workspace_id = m.workspace_id;
  user_id = m.user_id;
  email = u.email;
  name = u.name;
  role = m.role;
}

-- `include: { user }`
abbrev pub include_user : Member → Tx MemberDto
include_user m = do
  found ← gets (λ db. find (has_user_id m.user_id) db.users)
  user ← or_fail found missing_row
  pure (to_workspace_member_dto m user)

-- where: { id, workspaceId }
abbrev pub is_row_of : ℕ → ℕ → Member → Bool
is_row_of w k m = (m.id == k) && (m.workspace_id == w)

abbrev pub same_role : WorkspaceRole → WorkspaceRole → Bool
same_role owner owner = true
same_role editor editor = true
same_role viewer viewer = true
same_role _ _ = false

pub includes_role : List WorkspaceRole → WorkspaceRole → Bool
includes_role [] r = false
includes_role (x ∷ xs) r = if same_role x r then true else includes_role xs r

-- `member?.role === "owner"`
abbrev pub owner_row : Option Member → Bool
owner_row none = false
owner_row (some m) = is_owner m.role

abbrev allowed : Option Member → List WorkspaceRole → Tx Member
allowed none roles = raise member_forbidden
allowed (some m) roles = if includes_role roles m.role then pure m else raise member_forbidden

unfoldable pub require_workspace_role : ℕ → ℕ → List WorkspaceRole → Tx Member
unfolding includes_role
require_workspace_role user w roles = do
  member ← gets (λ db. find (is_membership w user) db.members)
  allowed member roles

unfoldable pub require_workspace_owner : ℕ → ℕ → Tx Member
unfolding require_workspace_role
require_workspace_owner user w = require_workspace_role user w (owner ∷ [])

map_tx : {A B : Type 0} → (A → Tx B) → List A → Tx (List B)
map_tx f [] = pure []
map_tx f (x ∷ xs) = do y ← f x; ys ← map_tx f xs; pure (y ∷ ys)

-- rows come in the order of `createdAt`, that of insertion
unfoldable pub list_workspace_members : ℕ → Tx (List MemberDto)
unfolding map_tx
list_workspace_members w = do
  rows ← gets (λ db. select (λ m. m.workspace_id == w) db.members)
  map_tx include_user rows

abbrev include_workspace : Member → Tx WorkspaceDto
include_workspace m = do
  found ← gets (λ db. find (has_workspace_id m.workspace_id) db.workspaces)
  row ← or_fail found missing_row
  pure (record { id = row.id; name = row.name; role = m.role })

unfoldable pub list_user_workspaces : ℕ → Tx (List WorkspaceDto)
unfolding map_tx
list_user_workspaces user = do
  rows ← gets (λ db. select (λ m. m.user_id == user) db.members)
  map_tx include_workspace rows

abbrev optional_dto : Option Member → Tx (Option MemberDto)
optional_dto none = pure none
optional_dto (some m) = do dto ← include_user m; pure (some dto)

unfoldable pub find_workspace_member_dto : ℕ → ℕ → Tx (Option MemberDto)
find_workspace_member_dto w k = do
  member ← gets (λ db. find (is_row_of w k) db.members)
  optional_dto member

unfoldable pub is_last_workspace_owner : Database → ℕ → ℕ → Bool
is_last_workspace_owner db w k =
    if owner_row (find (is_row_of w k) db.members) then leb (owner_count db w) 1 else false

abbrev pub with_role : WorkspaceRole → Member → Member
with_role r m = record m { role = r }

-- the guard on the last owner, inside the transaction
abbrev guard_last_owner : Bool → ℕ → Tx (Unit {0})
guard_last_owner true w = do
  owners ← gets (λ db. owner_count db w)
  require (not (leb owners 1)) last_owner
guard_last_owner false w = pure tt

-- the steps that both transactions begin with: the actor owns the workspace, the row is in it
unfoldable pub find_managed : ℕ → ℕ → ℕ → Tx Member
find_managed w k actor = do
  actor_membership ← gets (λ db. find (is_membership w actor) db.members)
  require (owner_row actor_membership) member_forbidden
  found ← gets (λ db. find (is_row_of w k) db.members)
  or_fail found member_not_found

unfoldable pub update_workspace_member_role : ℕ → ℕ → WorkspaceRole → ℕ → Tx MemberDto
update_workspace_member_role w k role actor = do
  member ← find_managed w k actor
  guard_last_owner (is_owner member.role && not (is_owner role)) w
  modify (λ db. record db { members = update_where (has_member_id k) (with_role role) db.members })
  include_user (with_role role member)

unfoldable pub delete_workspace_member : ℕ → ℕ → ℕ → Tx (Unit {0})
delete_workspace_member w k actor = do
  member ← find_managed w k actor
  guard_last_owner (is_owner member.role) w
  modify (λ db. record db { members = delete_where (has_member_id k) db.members })

-- ===== src/Membership/Managers.antt =====
-- Who manages a workspace: the user whose membership row has the role of an owner.
use living_cost_manager.Prelude.{ℕ, true, some, ◌≡◌, arith, find, Option-cases, inl, inr}
use living_cost_manager.Database.{WorkspaceRole, Member, Database, is_membership}
use living_cost_manager.Membership.{owner_row}

-- The user is an owner of the workspace.
pub record IsOwnerBy (db : Database) (w u : ℕ) : Type 0 where
  pub row : Member
  pub found : find (is_membership w u) db.members ≡ some row
  pub role : row.role ≡ WorkspaceRole.owner

pub owner_row-IsOwnerBy :
    (db : Database) (w u : ℕ)
    → owner_row (find (is_membership w u) db.members) ≡ true
    → IsOwnerBy db w u
owner_row-IsOwnerBy db w u h = elim (Option-cases (find (is_membership w u) db.members)) [
  | inl missing ↦ absurd (ground (arith, h, missing))
  | inr (m, found) ↦ record { row = m; found = found; role = ground (arith, h, found) }
]

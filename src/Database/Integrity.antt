-- ===== src/Database/Integrity.antt =====
-- Integrity of the shared tables: the unique keys of prisma/schema.prisma, the partial unique
-- index of the first migration, and an owner for every workspace.
use living_cost_manager.Prelude.{
  ℕ, ◌≤◌, Bool, Text, List, count_if, arith, delete_where, count-delete_le,
}
use living_cost_manager.Database.{
  Member, Invitation, Database, empty, has_member_id, has_workspace_id, has_invitation_id,
  is_membership, is_pending_for, owner_count,
}

pub record HasKeys (members : List Member) : Type 0 where
  pub ids : (k : ℕ) → count_if (has_member_id k) members ≤ 1
  pub pairs : (w u : ℕ) → count_if (is_membership w u) members ≤ 1

-- every workspace has an owner
abbrev pub HasOwners : Database → Type 0
HasOwners db = (w : ℕ) → 1 ≤ count_if (has_workspace_id w) db.workspaces → 1 ≤ owner_count db w

-- at most one pending invitation for an address in a workspace
abbrev pub HasOnePending : List Invitation → Type 0
HasOnePending rows = (w : ℕ) (email : Text) → count_if (is_pending_for w email) rows ≤ 1

abbrev pub HasInvitationIds : List Invitation → Type 0
HasInvitationIds rows = (k : ℕ) → count_if (has_invitation_id k) rows ≤ 1

pub record IsSound (db : Database) : Type 0 where
  pub keys : HasKeys db.members
  pub owners : HasOwners db
  pub invitation_ids : HasInvitationIds db.invitations
  pub one_pending : HasOnePending db.invitations

pub IsSound-empty : IsSound empty
unfolding count_if
IsSound-empty = record {
  keys = record { ids = λ k. omega arith; pairs = λ w u. omega arith };
  owners = λ w h. h;
  invitation_ids = λ k. omega arith;
  one_pending = λ w e. omega arith;
}

pub delete-HasKeys :
    (q : Member → Bool) (rows : List Member) → HasKeys rows → HasKeys (delete_where q rows)
delete-HasKeys q rows h = record {
  ids = λ k. omega (arith, h.ids k, count-delete_le (has_member_id k) q rows);
  pairs = λ w u. omega (arith, h.pairs w u, count-delete_le (is_membership w u) q rows);
}

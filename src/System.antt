-- ===== src/System.antt =====
-- The transactions of the API as steps of one shared database: every request that changes a
-- membership, an invitation, a workspace or an account, in any order and by anyone.
use living_cost_manager.Prelude.{ℕ, Bool, Text, ◌≡◌, ◌≤◌, count_if}
use living_cost_manager.Database.{
  WorkspaceRole, InvitationRole, User, Database, WorkspaceSnapshot, empty, has_workspace_id,
  owner_count,
}
use living_cost_manager.Database.Tx.{ok}
use living_cost_manager.Database.Integrity.{IsSound, IsSound-empty}
use living_cost_manager.Membership.{
  MemberDto, WorkspaceDto, delete_workspace_member, update_workspace_member_role,
}
use living_cost_manager.Membership.Owners.{
  delete_workspace_member-IsSound, update_workspace_member_role-IsSound,
}
use living_cost_manager.Invitations.{
  InvitationDto, create_workspace_invitation, revoke_workspace_invitation,
  accept_workspace_invitation,
}
use living_cost_manager.Invitations.Sound.{create-IsSound, revoke-IsSound, accept-IsSound}
use living_cost_manager.Accounts.{delete_workspace, erase_account}
use living_cost_manager.Accounts.Sound.{delete_workspace-IsSound, erase_account-IsSound}
use living_cost_manager.Snapshot.{replace_workspace_snapshot}
use living_cost_manager.Snapshot.Writes.{replace-IsSound}
use living_cost_manager.Planning.{PutPlanning, WorkspacePlanning, put_workspace_planning}
use living_cost_manager.Planning.Revisions.{put-IsSound}
use living_cost_manager.Workspaces.{NewIds, create_user_workspace, rename_user_workspace, register}
use living_cost_manager.Workspaces.Registration.{register-IsSound}
use living_cost_manager.Workspaces.Sound.{
  create_user_workspace-IsSound, rename_user_workspace-IsSound,
}

module _ (hash : ℕ → ℕ) (paid : ℕ → Database → Bool) where
  -- One committed request. A refused one changes nothing and is no step.
  pub data Step (db : Database) : Database → Type 0 where
    registered :
        (email name : Text) (password_hash u w k : ℕ) {out : User × WorkspaceDto} {after : Database}
        → register paid email name password_hash u w k db ≡ ok (out, after)
        → Step db after
    created :
        (u : ℕ) (name : Text) (budget : WorkspaceSnapshot) (ids : NewIds)
        {out : WorkspaceDto × WorkspaceSnapshot} {after : Database}
        → create_user_workspace paid u name budget ids db ≡ ok (out, after)
        → Step db after
    renamed :
        (u w : ℕ) (name : Text) {out : WorkspaceDto} {after : Database}
        → rename_user_workspace u w name db ≡ ok (out, after)
        → Step db after
    replaced :
        (s : WorkspaceSnapshot) (k now : ℕ) {out : WorkspaceSnapshot} {after : Database}
        → replace_workspace_snapshot s k now db ≡ ok (out, after)
        → Step db after
    planned :
        (u w : ℕ) (input : PutPlanning) (k now : ℕ) {out : WorkspacePlanning} {after : Database}
        → put_workspace_planning u w input k now db ≡ ok (out, after)
        → Step db after
    role_changed :
        (w k actor : ℕ) (role : WorkspaceRole) {dto : MemberDto} {after : Database}
        → update_workspace_member_role w k role actor db ≡ ok (dto, after)
        → Step db after
    member_removed :
        (w k actor : ℕ) {after : Database}
        → delete_workspace_member w k actor db ≡ ok (tt, after)
        → Step db after
    invited :
        (w : ℕ) (email : Text) (role : InvitationRole) (actor now later new_id token : ℕ)
        {result : InvitationDto × ℕ} {after : Database}
        → create_workspace_invitation hash w email role actor now later new_id token db
          ≡ ok (result, after)
        → Step db after
    invitation_revoked :
        (w k actor : ℕ) {after : Database}
        → revoke_workspace_invitation w k actor db ≡ ok (tt, after)
        → Step db after
    invitation_accepted :
        (k token : ℕ) (user : User) (now new_id : ℕ) {result : WorkspaceDto × MemberDto}
        {after : Database}
        → accept_workspace_invitation hash k token user now new_id db ≡ ok (result, after)
        → Step db after
    account_erased :
        (u : ℕ) {after : Database} → erase_account u db ≡ ok (tt, after) → Step db after
    workspace_deleted :
        (u w : ℕ) {after : Database} → delete_workspace u w db ≡ ok (tt, after) → Step db after

  -- The databases that some sequence of requests leads to, from the empty one.
  pub data Reach : Database → Type 0 where
    start : Reach empty
    then : {db after : Database} → Reach db → Step db after → Reach after

  pub Step-IsSound : {db after : Database} → IsSound db → Step db after → IsSound after
  Step-IsSound {db} s (registered email name h u w k e) =
      register-IsSound paid email name h u w k db s e
  Step-IsSound {db} s (created u name budget ids e) =
      create_user_workspace-IsSound paid u name budget ids db s e
  Step-IsSound {db} s (renamed u w name e) = rename_user_workspace-IsSound db u w name s e
  Step-IsSound {db} s (replaced t k now e) = replace-IsSound db t k now s e
  Step-IsSound {db} s (planned u w input k now e) = put-IsSound u w input k now db s e
  Step-IsSound {db} s (role_changed w k actor role e) =
      update_workspace_member_role-IsSound db w k actor role s e
  Step-IsSound {db} s (member_removed w k actor e) =
      delete_workspace_member-IsSound db w k actor s e
  Step-IsSound {db} s (invited w email role actor now later new_id token e) =
      create-IsSound hash db w email role actor now later new_id token s e
  Step-IsSound {db} s (invitation_revoked w k actor e) = revoke-IsSound db w k actor s e
  Step-IsSound {db} s (invitation_accepted k token user now new_id e) =
      accept-IsSound hash db k token user now new_id s e
  Step-IsSound {db} s (account_erased u e) = erase_account-IsSound db u s e
  Step-IsSound {db} s (workspace_deleted u w e) = delete_workspace-IsSound db u w s e

  -- Whatever requests come, in whatever order, the database is sound.
  pub Reach-IsSound : {db : Database} → Reach db → IsSound db
  Reach-IsSound start = IsSound-empty
  Reach-IsSound (then r step) = Step-IsSound (Reach-IsSound r) step

  -- In every database that requests lead to, every workspace has an owner.
  pub Reach-has_owner :
      {db : Database} (w : ℕ)
      → Reach db
      → 1 ≤ count_if (has_workspace_id w) db.workspaces
      → 1 ≤ owner_count db w
  Reach-has_owner w r has = (Reach-IsSound r).owners w has

-- ===== src/Examples.antt =====
-- The theorems at work on a small household: two users register, and one invites the other.
mod Budgets
mod Plans
mod Payments
mod Charges
mod Dispatches
mod Owners
use living_cost_manager.Prelude.{
  any, all, count_if, find, select, text_eq, update_where, delete_where, trim, to_lower_case,
  sort_on, ℕ, Bool, true, false, Option, none, some, List, [], ◌∷◌, Text, ◌+◌, ◌==◌, ◌≡◌, ◌≢◌, ◌≤◌,
  ◌<◌, refl, arith,
}
use living_cost_manager.Calendar.{CivilDate, civil}
use living_cost_manager.Database.{
  is_owner, has_invitation_id, is_pending_for, has_member_id, Member, Invitation, InvitationStatus,
  pending, accepted, revoked, User, WorkspaceRole, InvitationRole, Category, FixedCostDto,
  PaymentMethod, Workspace, Database, WorkspaceSnapshot, empty, owner_count, has_workspace_id,
  has_user_id, has_member_id, is_membership,
}
use living_cost_manager.Database.Tx.{last_owner, ok, err, invalid_invitation, snapshot_conflict}
use living_cost_manager.Database.Integrity.{IsSound, IsSound-empty}
use living_cost_manager.Database.Inserts.{insert_member, insert_invitation}
use living_cost_manager.Membership.{
  include_user, with_role, is_last_workspace_owner, delete_workspace_member,
  update_workspace_member_role, find_managed,
}
use living_cost_manager.Membership.Owners.{
  delete_workspace_member-IsSound, update_workspace_member_role-IsSound,
}
use living_cost_manager.Invitations.{
  invitation_ttl_ms, normalize_email, create_workspace_invitation, revoke_workspace_invitation,
  accept_workspace_invitation, prepare_invitation, claim_invitation, new_member, to_workspace_role,
}
use living_cost_manager.Invitations.Once.{accept_once, revoke_blocks_accept, IsOpenFor}
use living_cost_manager.Invitations.Journey.{create_then_accept}
use living_cost_manager.Invitations.Senders.{IsStranger, create_needs_owner, revoke_needs_owner}
use living_cost_manager.Membership.Managers.{IsOwnerBy}
use living_cost_manager.Accounts.Removal.{holding, nothing_held, delete_workspace_needs_owner}
use living_cost_manager.Accounts.{
  erase, erase_account, delete_workspaces, delete_user, delete_workspace,
}
use living_cost_manager.Accounts.Erasure.{erase_account_only_self}
use living_cost_manager.Accounts.Sound.{erase_account-IsSound}
use living_cost_manager.PlanningStorage.{planning_archive}
use living_cost_manager.Snapshot.{
  replace_workspace_snapshot, lock_version, merge_cost, merge_costs, billing_is_valid, write_budget,
  clear_budget, create_categories, create_cards, create_costs, create_backup,
  get_workspace_snapshot, snapshot_of, to_fixed_cost_dto, to_fixed_cost_create_data, advanced,
}
use living_cost_manager.Snapshot.Lock.{version_of, stale_write_refused}
use living_cost_manager.Snapshot.Writes.{replace_advances, lost_update_refused}
use living_cost_manager.Snapshot.Contents.{sent_budget, replace_returns}
use living_cost_manager.Snapshot.Costs.{dto-create_data}
use living_cost_manager.Workspaces.{
  has_email, NewIds, create_user_workspace, fill_workspace, is_owned_role, register, register_user,
  insert_user, assert_can_create_workspace, found_workspace, insert_workspace,
}
use living_cost_manager.Workspaces.Registration.{register_owns}
use living_cost_manager.Workspaces.Sound.{create_user_workspace-IsSound, free_limit}
use living_cost_manager.System.{
  Reach, start, then, registered, invited, invitation_accepted, role_changed, Reach-IsSound,
  Reach-has_owner,
}

-- nobody has paid
abbrev pub unpaid : ℕ → Database → Bool
unpaid u db = false

abbrev pub hash_of : ℕ → ℕ
hash_of token = token + 1000

-- `a@x` and `b@x`
abbrev ann_email : Text
ann_email = 97 ∷ 64 ∷ 120 ∷ []

abbrev pub ben_email : Text
ben_email = 98 ∷ 64 ∷ 120 ∷ []

abbrev pub ann : User
ann = record {
  id = 1;
  email = ann_email;
  name = 97 ∷ [];
  password_hash = 7;
  token_version = 0;
  email_verified_at = none;
}

abbrev pub ben : User
ben = record {
  id = 2;
  email = ben_email;
  name = 98 ∷ [];
  password_hash = 8;
  token_version = 0;
  email_verified_at = none;
}

abbrev pub ann_ledger : Workspace
ann_ledger = record {
  id = 10;
  name = 97 ∷ 51032 ∷ 32 ∷ 49373 ∷ 54876 ∷ 48708 ∷ [];
  monthly_income = 0;
  sync_version = 0;
}

abbrev pub ben_ledger : Workspace
ben_ledger = record {
  id = 20;
  name = 98 ∷ 51032 ∷ 32 ∷ 49373 ∷ 54876 ∷ 48708 ∷ [];
  monthly_income = 0;
  sync_version = 0;
}

abbrev pub member : ℕ → ℕ → ℕ → WorkspaceRole → Member
member k w u role = record { id = k; workspace_id = w; user_id = u; role = role }

abbrev pub invitation : InvitationStatus → Option ℕ → Invitation
invitation status accepted_at = record {
  id = 500;
  workspace_id = 10;
  email = ben_email;
  role = InvitationRole.editor;
  status = status;
  token_hash = 1077;
  expires_at = 604800005;
  accepted_at = accepted_at;
}

abbrev ann_home : Database
ann_home = record empty {
  users = ann ∷ [];
  workspaces = ann_ledger ∷ [];
  members = member 100 10 1 WorkspaceRole.owner ∷ [];
}

abbrev pub both_home : Database
both_home = record empty {
  users = ann ∷ ben ∷ [];
  workspaces = ann_ledger ∷ ben_ledger ∷ [];
  members = member 100 10 1 WorkspaceRole.owner ∷ member 200 20 2 WorkspaceRole.owner ∷ [];
}

abbrev pub invited_home : Database
invited_home = record both_home { invitations = invitation pending none ∷ [] }

abbrev revoked_home : Database
revoked_home = record both_home { invitations = invitation revoked none ∷ [] }

abbrev pub shared_home : Database
shared_home = record both_home {
  members =
      member 100 10 1 WorkspaceRole.owner
      ∷ member 200 20 2 WorkspaceRole.owner
      ∷ member 101 10 2 WorkspaceRole.editor
      ∷ [];
  invitations = invitation accepted (some 6) ∷ [];
}

abbrev co_owned_home : Database
co_owned_home = record shared_home {
  members =
      member 100 10 1 WorkspaceRole.owner
      ∷ member 200 20 2 WorkspaceRole.owner
      ∷ member 101 10 2 WorkspaceRole.owner
      ∷ [];
}

abbrev left_home : Database
left_home = record shared_home {
  members = member 200 20 2 WorkspaceRole.owner ∷ member 101 10 2 WorkspaceRole.owner ∷ [];
}

pub Reach-both : Reach hash_of unpaid both_home
unfolding register register_user insert_user assert_can_create_workspace found_workspace
    insert_workspace insert_member any all count_if find select text_eq update_where delete_where
    normalize_email trim to_lower_case
Reach-both =
    then (then start (registered ann_email (97 ∷ []) 7 1 10 100 refl))
      (registered ben_email (98 ∷ []) 8 2 20 200 refl)

Reach-invited : Reach hash_of unpaid invited_home
unfolding create_workspace_invitation prepare_invitation insert_invitation register register_user
    insert_user assert_can_create_workspace found_workspace insert_workspace insert_member any all
    count_if find select text_eq update_where delete_where normalize_email trim to_lower_case
Reach-invited = then Reach-both (invited 10 ben_email InvitationRole.editor 1 5 5 500 77 refl)

Reach-shared : Reach hash_of unpaid shared_home
unfolding accept_workspace_invitation claim_invitation create_workspace_invitation
    prepare_invitation insert_invitation register register_user insert_user
    assert_can_create_workspace found_workspace insert_workspace insert_member any all count_if find
    select text_eq update_where delete_where normalize_email trim to_lower_case
Reach-shared = then Reach-invited (invitation_accepted 500 77 ben 6 101 refl)

Reach-co_owned : Reach hash_of unpaid co_owned_home
unfolding update_workspace_member_role find_managed delete_workspace_member
    accept_workspace_invitation claim_invitation create_workspace_invitation prepare_invitation
    insert_invitation register register_user insert_user assert_can_create_workspace found_workspace
    insert_workspace insert_member any all count_if find select text_eq update_where delete_where
    normalize_email trim to_lower_case
Reach-co_owned = then Reach-shared (role_changed 10 101 1 WorkspaceRole.owner refl)

Reach-has_owner_example : 1 ≤ owner_count co_owned_home 10
unfolding update_workspace_member_role find_managed delete_workspace_member
    accept_workspace_invitation claim_invitation create_workspace_invitation prepare_invitation
    insert_invitation register register_user insert_user assert_can_create_workspace found_workspace
    insert_workspace insert_member any all count_if find select text_eq update_where delete_where
    normalize_email trim to_lower_case
Reach-has_owner_example = Reach-has_owner hash_of unpaid 10 Reach-co_owned (omega arith)

delete_workspace_member-IsSound_example : IsSound left_home
unfolding update_workspace_member_role find_managed delete_workspace_member
    accept_workspace_invitation claim_invitation create_workspace_invitation prepare_invitation
    insert_invitation register register_user insert_user assert_can_create_workspace found_workspace
    insert_workspace insert_member any all count_if find select text_eq update_where delete_where
    normalize_email trim to_lower_case
delete_workspace_member-IsSound_example =
    delete_workspace_member-IsSound co_owned_home 10 100 2
      (Reach-IsSound hash_of unpaid Reach-co_owned) refl

update_workspace_member_role-IsSound_example : IsSound co_owned_home
unfolding update_workspace_member_role find_managed delete_workspace_member
    accept_workspace_invitation claim_invitation create_workspace_invitation prepare_invitation
    insert_invitation register register_user insert_user assert_can_create_workspace found_workspace
    insert_workspace insert_member any all count_if find select text_eq update_where delete_where
    normalize_email trim to_lower_case
update_workspace_member_role-IsSound_example =
    update_workspace_member_role-IsSound shared_home 10 101 1 WorkspaceRole.owner
      (Reach-IsSound hash_of unpaid Reach-shared) refl

accept_once_example :
    ((token : ℕ) (user : User) (now new_id : ℕ)
      → accept_workspace_invitation hash_of 500 token user now new_id shared_home
        ≡ err invalid_invitation)
    × ((w actor : ℕ) (r : Database)
        → revoke_workspace_invitation w 500 actor shared_home ≢ ok (tt, r))
unfolding accept_workspace_invitation claim_invitation create_workspace_invitation
    prepare_invitation insert_invitation register register_user insert_user
    assert_can_create_workspace found_workspace insert_workspace insert_member any all count_if find
    select text_eq update_where delete_where normalize_email trim to_lower_case
accept_once_example =
    accept_once hash_of invited_home 500 77 ben 6 101
      ((Reach-IsSound hash_of unpaid Reach-invited).invitation_ids) refl

revoke_blocks_accept_example :
    accept_workspace_invitation hash_of 500 77 ben 6 101 revoked_home ≡ err invalid_invitation
unfolding revoke_workspace_invitation accept_workspace_invitation claim_invitation
    create_workspace_invitation prepare_invitation insert_invitation register register_user
    insert_user assert_can_create_workspace found_workspace insert_workspace insert_member any all
    count_if find select text_eq update_where delete_where normalize_email trim to_lower_case
revoke_blocks_accept_example =
    revoke_blocks_accept hash_of invited_home 10 500 1
      ((Reach-IsSound hash_of unpaid Reach-invited).invitation_ids) refl 77 ben 6 101

create_needs_owner_example :
    IsOwnerBy both_home 10 1
    × IsStranger both_home 10 ben_email
    × (find (has_invitation_id 500) invited_home.invitations
        ≡ some (record {
          id = 500;
          workspace_id = 10;
          email = ben_email;
          role = InvitationRole.editor;
          status = pending;
          token_hash = 1077;
          expires_at = 604800005;
          accepted_at = none;
        }))
    × (count_if (is_pending_for 10 ben_email) invited_home.invitations ≡ 1)
    × (invited_home.members ≡ both_home.members)
unfolding revoke_workspace_invitation accept_workspace_invitation claim_invitation
    create_workspace_invitation prepare_invitation insert_invitation register register_user
    insert_user assert_can_create_workspace found_workspace insert_workspace insert_member any all
    count_if find select text_eq update_where delete_where normalize_email trim to_lower_case
create_needs_owner_example =
    create_needs_owner hash_of both_home 10 ben_email InvitationRole.editor 1 5 5 500 77 refl

revoke_needs_owner_example :
    IsOwnerBy invited_home 10 1
    × ((row : Invitation) × (find (has_invitation_id 500) invited_home.invitations ≡ some row)
        × (row.workspace_id ≡ 10)
        × (row.status ≡ pending)
        × (find (has_invitation_id 500) revoked_home.invitations
            ≡ some (record row { status = revoked })))
    × (revoked_home.members ≡ invited_home.members)
unfolding revoke_workspace_invitation accept_workspace_invitation claim_invitation
    create_workspace_invitation prepare_invitation insert_invitation register register_user
    insert_user assert_can_create_workspace found_workspace insert_workspace insert_member any all
    count_if find select text_eq update_where delete_where normalize_email trim to_lower_case
revoke_needs_owner_example =
    revoke_needs_owner invited_home 10 500 1
      ((Reach-IsSound hash_of unpaid Reach-invited).invitation_ids) refl

erase_account-IsSound_example : IsSound (erase 2 shared_home)
unfolding erase_account erase delete_workspaces delete_user accept_workspace_invitation
    claim_invitation create_workspace_invitation prepare_invitation insert_invitation register
    register_user insert_user assert_can_create_workspace found_workspace insert_workspace
    insert_member any all count_if find select text_eq update_where delete_where normalize_email
    trim to_lower_case
erase_account-IsSound_example =
    erase_account-IsSound shared_home 2 (Reach-IsSound hash_of unpaid Reach-shared) refl

delete_workspace_needs_owner_example :
    IsOwnerBy shared_home 10 1
    × (holding (delete_workspaces (λ v. v == 10) shared_home) 10 ≡ nothing_held)
    × (holding (delete_workspaces (λ v. v == 10) shared_home) 20 ≡ holding shared_home 20)
    × ((delete_workspaces (λ v. v == 10) shared_home).users ≡ shared_home.users)
    × ((delete_workspaces (λ v. v == 10) shared_home).contracts ≡ shared_home.contracts)
unfolding delete_workspace delete_workspaces find any all count_if select delete_where
delete_workspace_needs_owner_example =
    delete_workspace_needs_owner shared_home 1 10 20 (omega arith) refl

register_owns_example :
    (find (is_membership 10 1) ann_home.members ≡ some (member 100 10 1 WorkspaceRole.owner))
    × (find (has_workspace_id 10) ann_home.workspaces ≡ some ann_ledger)
    × (find (has_user_id 1) ann_home.users ≡ some ann)
    × (count_if (has_email ann_email) empty.users ≡ 0)
unfolding register register_user insert_user assert_can_create_workspace found_workspace
    insert_workspace insert_member any all count_if find select text_eq update_where delete_where
    normalize_email trim to_lower_case
register_owns_example = register_owns unpaid ann_email (97 ∷ []) 7 1 10 100 empty refl

-- ===== src/Invitations.antt =====
-- apps/api/src/services/invitations.ts: sharing a workspace by invitation.
-- Random bytes and new row ids are arguments, SHA-256 (`hash`) is a parameter, and so are the
-- readings of the clock, in milliseconds.
pub mod Transitions
pub mod Once
pub mod Sound
pub mod Senders
pub mod Journey
use living_cost_manager.Prelude.{
  ℕ, ◌+◌, ◌*◌, Bool, true, false, not, ◌&&◌, Option, none, some, List, Text, ◌==◌, ltb, leb,
  text_eq, trim, to_lower_case, map, find, count_if, select, update_where,
}
use living_cost_manager.Database.{
  WorkspaceRole, InvitationRole, InvitationStatus, User, Member, Invitation, Database, pending,
  accepted, revoked, expired, is_membership, is_pending, has_invitation_id, has_workspace_id,
}
use living_cost_manager.Database.Tx.{
  invitation_forbidden, invitation_conflict, invalid_invitation, missing_row, Tx, pure, raise, gets,
  modify, require, or_fail, ◌>>=◌, ◌>>◌,
}
use living_cost_manager.Database.Inserts.{insert_member, insert_invitation}
use living_cost_manager.Membership.{MemberDto, WorkspaceDto, include_user, owner_row}

abbrev pub invitation_ttl_ms : ℕ
invitation_ttl_ms = 7 * 24 * 60 * 60 * 1000

-- apps/api/src/services/email.ts
unfoldable pub normalize_email : Text → Text
normalize_email email = to_lower_case (trim email)

pub record InvitationDto : Type 0 where
  pub id : ℕ
  pub workspace_id : ℕ
  pub email : Text
  pub role : InvitationRole
  pub status : InvitationStatus
  pub expires_at : ℕ
  pub accepted_at : Option ℕ

abbrev pub to_workspace_invitation_dto : Invitation → InvitationDto
to_workspace_invitation_dto row = record {
  id = row.id;
  workspace_id = row.workspace_id;
  email = row.email;
  role = row.role;
  status = row.status;
  expires_at = row.expires_at;
  accepted_at = row.accepted_at;
}

abbrev pub to_workspace_role : InvitationRole → WorkspaceRole
to_workspace_role InvitationRole.editor = WorkspaceRole.editor
to_workspace_role InvitationRole.viewer = WorkspaceRole.viewer

abbrev is_none {ℓ} : {A : Type ℓ} → Option A → Bool
is_none none = true
is_none (some a) = false

-- where: { workspaceId, email, status: "pending", expiresAt: { lte: now } }
abbrev pub is_lapsed : ℕ → Text → ℕ → Invitation → Bool
is_lapsed w email now row =
    (row.workspace_id == w)
    && (text_eq row.email email && (is_pending row.status && leb row.expires_at now))

abbrev pub with_status : InvitationStatus → Invitation → Invitation
with_status s row = record row { status = s }

-- the invitee may be no user yet, and must be no member
abbrev refuse_member : ℕ → Option User → Tx (Unit {0})
refuse_member w none = pure tt
refuse_member w (some u) = do
  existing ← gets (λ db. find (is_membership w u.id) db.members)
  require (is_none existing) invitation_conflict

abbrev expire_lapsed : ℕ → Text → ℕ → Option Invitation → Tx (Unit {0})
expire_lapsed w email now none = pure tt
expire_lapsed w email now (some row) = modify (λ db. record db {
  invitations = update_where (is_lapsed w email now) (with_status expired) db.invitations;
})

-- the checks before the new row is written
unfoldable pub prepare_invitation : ℕ → Text → ℕ → ℕ → Tx (Unit {0})
prepare_invitation w email actor now = do
  actor_membership ← gets (λ db. find (is_membership w actor) db.members)
  require (owner_row actor_membership) invitation_forbidden
  invitee ← gets (λ db. find (λ (u : User). text_eq u.email email) db.users)
  refuse_member w invitee
  lapsed ← gets (λ db. find (is_lapsed w email now) db.invitations)
  expire_lapsed w email now lapsed

abbrev pub new_invitation : ℕ → Text → InvitationRole → ℕ → ℕ → ℕ → Invitation
new_invitation w email role later new_id token_hash = record {
  id = new_id;
  workspace_id = w;
  email = email;
  role = role;
  status = pending;
  token_hash = token_hash;
  expires_at = later + invitation_ttl_ms;
  accepted_at = none;
}

module _ (hash : ℕ → ℕ) where
  -- `now` is read before the transaction, `later` when the row is written
  unfoldable pub create_workspace_invitation :
      ℕ → Text → InvitationRole → ℕ → (now later new_id token : ℕ) → Tx (InvitationDto × ℕ)
  create_workspace_invitation w email role actor now later new_id token = do
    prepare_invitation w (normalize_email email) actor now
    let row = new_invitation w (normalize_email email) role later new_id (hash token)
    insert_invitation row
    pure (to_workspace_invitation_dto row, token)

unfoldable pub list_pending_invitations_for_email : Text → ℕ → Tx (List InvitationDto)
list_pending_invitations_for_email email now = gets (λ db. map to_workspace_invitation_dto (
    select
      (λ row.
        text_eq row.email (normalize_email email)
        && (is_none row.accepted_at && (is_pending row.status && ltb now row.expires_at)))
      db.invitations))

unfoldable pub list_pending_invitations_for_workspace : ℕ → ℕ → Tx (List InvitationDto)
list_pending_invitations_for_workspace w now = gets (λ db. map to_workspace_invitation_dto (
    select (λ row. (row.workspace_id == w) && (is_pending row.status && ltb now row.expires_at))
      db.invitations))

abbrev pub is_revocable : ℕ → ℕ → Invitation → Bool
is_revocable w k row = (row.id == k) && ((row.workspace_id == w) && is_pending row.status)

unfoldable pub revoke_workspace_invitation : ℕ → ℕ → ℕ → Tx (Unit {0})
revoke_workspace_invitation w k actor = do
  actor_membership ← gets (λ db. find (is_membership w actor) db.members)
  require (owner_row actor_membership) invitation_forbidden
  count ← gets (λ db. count_if (is_revocable w k) db.invitations)
  modify (λ db. record db {
    invitations = update_where (is_revocable w k) (with_status revoked) db.invitations;
  })
  require (count == 1) invalid_invitation

-- `invitationWhere`
abbrev pub is_acceptable : ℕ → Text → ℕ → ℕ → Invitation → Bool
is_acceptable k email now token_hash row =
    (row.id == k)
    && (text_eq row.email email
        && (is_pending row.status
            && (is_none row.accepted_at
                && (ltb now row.expires_at && (row.token_hash == token_hash)))))

abbrev pub claimed : ℕ → Invitation → Invitation
claimed now row = record row { status = accepted; accepted_at = some now }

-- the invitation that the token opens, marked as accepted
unfoldable pub claim_invitation : ℕ → Text → ℕ → ℕ → Tx (Invitation × Text)
claim_invitation k email now token_hash = do
  found ← gets (λ db. find (is_acceptable k email now token_hash) db.invitations)
  invitation ← or_fail found invalid_invitation
  row ← gets (λ db. find (has_workspace_id invitation.workspace_id) db.workspaces)
  workspace ← or_fail row missing_row
  count ← gets (λ db. count_if (is_acceptable k email now token_hash) db.invitations)
  modify (λ db. record db {
    invitations = update_where (is_acceptable k email now token_hash) (claimed now) db.invitations;
  })
  require (count == 1) invalid_invitation
  pure (invitation, workspace.name)

abbrev pub new_member : ℕ → Invitation → User → Member
new_member k invitation user = record {
  id = k;
  workspace_id = invitation.workspace_id;
  user_id = user.id;
  role = to_workspace_role invitation.role;
}

abbrev join : ℕ → User → Invitation × Text → Tx (WorkspaceDto × MemberDto)
join new_id user (invitation, name) = do
  insert_member (new_member new_id invitation user)
  dto ← include_user (new_member new_id invitation user)
  pure (
    record { id = invitation.workspace_id; name = name; role = to_workspace_role invitation.role },
    dto,
  )

module _ (hash : ℕ → ℕ) where
  unfoldable pub accept_workspace_invitation :
      (k token : ℕ) (user : User) (now new_id : ℕ) → Tx (WorkspaceDto × MemberDto)
  accept_workspace_invitation k token user now new_id = do
    opened ← claim_invitation k (normalize_email user.email) now (hash token)
    join new_id user opened

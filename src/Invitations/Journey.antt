-- ===== src/Invitations/Journey.antt =====
-- From an invitation to a membership.
use living_cost_manager.Prelude.{
  ℕ, ◌<◌, ◌+◌, Bool, true, false, none, some, Text, [], ◌∷◌, ◌++◌, ◌≡◌, refl, arith, find, any,
  count_if, update_where, count_mono, count-append, find-append_new, any-find, find-any,
  text_eq_iff,
}
use living_cost_manager.Database.{
  InvitationRole, User, Invitation, Workspace, Database, is_pending, has_invitation_id,
  has_workspace_id, has_user_id, has_member_id, is_membership,
}
use living_cost_manager.Database.Tx.{ok, and_then-eq-ok}
use living_cost_manager.Database.Inserts.{
  IsInvited, insert_member, insert_invitation, insert_invitation-IsInvited,
}
use living_cost_manager.Membership.{MemberDto, WorkspaceDto, to_workspace_member_dto}
use living_cost_manager.Invitations.{
  InvitationDto, normalize_email, invitation_ttl_ms, is_acceptable, claimed, new_member,
  new_invitation, to_workspace_role, prepare_invitation, create_workspace_invitation,
  claim_invitation, accept_workspace_invitation,
}

-- The acceptance that follows the creation of `row` for `user`.
module _ (hash : ℕ → ℕ) (mid : Database) (row : Invitation) (token : ℕ) (user : User)
    (now new_id : ℕ) {after : Database} (i : IsInvited mid row after)
    (addressee : row.email ≡ normalize_email user.email) (fresh : is_pending row.status ≡ true)
    (unaccepted : row.accepted_at ≡ none) (in_time : now < row.expires_at)
    (opened : row.token_hash ≡ hash token) where
  abbrev test : Invitation → Bool
  test = is_acceptable row.id (normalize_email user.email) now (hash token)

  passes : test row ≡ true
  passes = ground (arith, text_eq_iff row.email (normalize_email user.email))

  count_before : count_if test mid.invitations ≡ 0
  count_before = omega (
    arith,
    i.free_id,
    count_mono test (has_invitation_id row.id) mid.invitations (λ r p. ground arith),
  )

  found_after : find test after.invitations ≡ some row
  found_after = rw i.result (find-append_new test mid.invitations row count_before passes)

  count_after : count_if test after.invitations ≡ 1
  unfolding count_if
  count_after =
      rw i.result
        (ground (arith, count_before, passes, count-append test mid.invitations (row ∷ [])))

  -- the database after the acceptance
  abbrev joined : Database
  joined = record after {
    invitations = update_where test (claimed now) after.invitations;
    members = after.members ++ new_member new_id row user ∷ [];
  }

  abbrev member_dto : MemberDto
  member_dto = to_workspace_member_dto (new_member new_id row user) user

  abbrev workspace_dto : Workspace → WorkspaceDto
  workspace_dto space = record {
    id = row.workspace_id;
    name = space.name;
    role = to_workspace_role row.role;
  }

  accept_lem :
      (space : Workspace)
      → find (has_workspace_id row.workspace_id) after.workspaces ≡ some space
      → any (has_member_id new_id) after.members ≡ false
      → any (is_membership row.workspace_id user.id) after.members ≡ false
      → find (has_user_id user.id) after.users ≡ some user
      → accept_workspace_invitation hash row.id token user now new_id after
        ≡ ok ((workspace_dto space, member_dto), joined)
  unfolding accept_workspace_invitation claim_invitation insert_member
  accept_lem space sp a b c = ground (
    arith,
    found_after,
    count_after,
    find-any (has_workspace_id row.workspace_id) after.workspaces sp,
    find-any (has_user_id user.id) after.users c,
  )

create-IsInvited :
    (hash : ℕ → ℕ) (db : Database) (w : ℕ) (email : Text) (role : InvitationRole)
    (actor now later new_id token : ℕ) {result : InvitationDto × ℕ} {after : Database}
    → create_workspace_invitation hash w email role actor now later new_id token db
      ≡ ok (result, after)
    → (mid : Database) × IsInvited mid
        (new_invitation w (normalize_email email) role later new_id (hash token))
        after
unfolding create_workspace_invitation
create-IsInvited hash db w email role actor now later new_id token {after} h =
    let row = new_invitation w (normalize_email email) role later new_id (hash token) in
    let (u, mid, prepared, rest) =
      and_then-eq-ok (prepare_invitation w (normalize_email email) actor now db) _ h in
    let (v, last, inserted, more) = and_then-eq-ok (insert_invitation row mid) _ rest in
    (mid, insert_invitation-IsInvited mid row {after = after} (ground arith))

-- After an invitation has been created, its acceptance with its token, before seven days have
-- passed since the time that its expiry is counted from, by a stored user with the invited address
-- who is no member yet and under a free member id, succeeds and answers with the workspace and the
-- role of the invitation.
pub create_then_accept :
    (hash : ℕ → ℕ) (db : Database) (w : ℕ) (email : Text) (role : InvitationRole)
    (actor now later new_id token : ℕ) {result : InvitationDto × ℕ} {after : Database}
    → create_workspace_invitation hash w email role actor now later new_id token db
      ≡ ok (result, after)
    → (user : User) (then member_id : ℕ) → normalize_email email ≡ normalize_email user.email
    → then < later + invitation_ttl_ms
    → any (has_member_id member_id) after.members ≡ false
    → any (is_membership w user.id) after.members ≡ false
    → find (has_user_id user.id) after.users ≡ some user
    → (out : WorkspaceDto × MemberDto) × (final : Database) × (accept_workspace_invitation hash
          new_id token user then member_id after
        ≡ ok (out, final))
      × (out.0.id ≡ w)
      × (out.0.role ≡ to_workspace_role role)
create_then_accept hash db w email role actor now later new_id token {after} h user then member_id
      same soon free_id free_pair known =
    let row = new_invitation w (normalize_email email) role later new_id (hash token) in
    let (mid, i) = create-IsInvited hash db w email role actor now later new_id token h in
    let (space, sp) = any-find (has_workspace_id w) mid.workspaces i.linked in
    (
      (
        workspace_dto hash mid row token user then member_id i same refl refl soon refl space,
        member_dto hash mid row token user then member_id i same refl refl soon refl,
      ),
      joined hash mid row token user then member_id i same refl refl soon refl,
      accept_lem hash mid row token user then member_id i same refl refl soon refl space
          (rw i.result sp) free_id free_pair known,
      refl,
      refl,
    )

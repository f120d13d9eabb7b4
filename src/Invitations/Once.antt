-- ===== src/Invitations/Once.antt =====
-- An invitation is used at most once, and only by its addressee, in time and with its token.
use living_cost_manager.Prelude.{
  ℕ, ◌<◌, ◌&&◌, none, ◌≡◌, ◌≢◌, refl, arith, find, find-eq-none, count_mono, count_none,
  count-update,
}
use living_cost_manager.Database.{
  User, Invitation, Database, pending, revoked, is_pending, has_invitation_id,
}
use living_cost_manager.Database.Tx.{ok, err, invalid_invitation}
use living_cost_manager.Database.Integrity.{HasInvitationIds}
use living_cost_manager.Membership.{MemberDto, WorkspaceDto}
use living_cost_manager.Invitations.{
  normalize_email, is_acceptable, is_revocable, with_status, claim_invitation,
  accept_workspace_invitation, revoke_workspace_invitation,
}
use living_cost_manager.Invitations.Transitions.{
  IsSettled, IsAccepted, accept-IsAccepted, claim-IsSettled,
}

settled_accept :
    (hash : ℕ → ℕ) (db : Database) (k token : ℕ) (user : User) (now new_id : ℕ)
    → IsSettled k db.invitations
    → accept_workspace_invitation hash k token user now new_id db ≡ err invalid_invitation
unfolding accept_workspace_invitation claim_invitation
settled_accept hash db k token user now new_id s = rw (none_left) refl
  where
    none_left :
        find (is_acceptable k (normalize_email user.email) now (hash token)) db.invitations ≡ none
    none_left = find-eq-none _ db.invitations (
        omega (
          arith,
          s,
          count_mono (is_acceptable k (normalize_email user.email) now (hash token))
              (λ row. has_invitation_id k row && is_pending row.status) db.invitations
              (λ row p. ground arith),
        ))

settled_revoke :
    (db : Database) (w k actor : ℕ)
    → IsSettled k db.invitations
    → (r : Database) → revoke_workspace_invitation w k actor db ≢ ok (tt, r)
unfolding revoke_workspace_invitation
settled_revoke db w k actor s r h = ground (
  arith,
  s,
  count_mono (is_revocable w k) (λ row. has_invitation_id k row && is_pending row.status)
      db.invitations (λ row p. ground arith),
)

revoke-IsSettled :
    (db : Database) (w k actor : ℕ) {after : Database}
    → HasInvitationIds db.invitations
    → revoke_workspace_invitation w k actor db ≡ ok (tt, after)
    → IsSettled k after.invitations
unfolding revoke_workspace_invitation
revoke-IsSettled db w k actor {after} ids h = ground (
  arith,
  ids k,
  count-update (λ row. has_invitation_id k row && is_pending row.status) (is_revocable w k)
      (with_status revoked) db.invitations,
  count_mono (λ row. has_invitation_id k row && is_pending row.status) (has_invitation_id k)
      db.invitations (λ row p. ground arith),
  count_mono (is_revocable w k)
      (λ row. (has_invitation_id k row && is_pending row.status) && is_revocable w k row)
      db.invitations (λ row p. ground arith),
  count_none
      (λ row.
        is_revocable w k row
        && (has_invitation_id k (with_status revoked row)
            && is_pending (with_status revoked row).status))
      db.invitations (λ row. ground arith),
)

-- Once an invitation has been accepted, no later acceptance of it succeeds, whoever presents
-- whatever token whenever, and no owner can revoke it any more.
pub accept_once :
    (hash : ℕ → ℕ) (db : Database) (k token : ℕ) (user : User) (now new_id : ℕ)
    {result : WorkspaceDto × MemberDto} {after : Database}
    → HasInvitationIds db.invitations
    → accept_workspace_invitation hash k token user now new_id db ≡ ok (result, after)
    → ((token' : ℕ) (user' : User) (now' new_id' : ℕ)
        → accept_workspace_invitation hash k token' user' now' new_id' after
          ≡ err invalid_invitation)
      × ((w actor : ℕ) (r : Database) → revoke_workspace_invitation w k actor after ≢ ok (tt, r))
accept_once hash db k token user now new_id {after} ids h = (
  λ token' user' now' new_id'. settled_accept hash after k token' user' now' new_id' settled,
  λ w actor r. settled_revoke after w k actor settled r,
)
  where
    a : IsAccepted hash db k token user now new_id after
    a = accept-IsAccepted hash db k token user now new_id h

    settled : IsSettled k after.invitations
    settled =
        rw a.joined.result
          (claim-IsSettled db k (normalize_email user.email) now (hash token) ids a.claim)

-- After a revocation no acceptance of the invitation succeeds.
pub revoke_blocks_accept :
    (hash : ℕ → ℕ) (db : Database) (w k actor : ℕ) {after : Database}
    → HasInvitationIds db.invitations
    → revoke_workspace_invitation w k actor db ≡ ok (tt, after)
    → (token : ℕ) (user : User) (now new_id : ℕ)
    → accept_workspace_invitation hash k token user now new_id after ≡ err invalid_invitation
revoke_blocks_accept hash db w k actor {after} ids h token user now new_id =
    settled_accept hash after k token user now new_id (revoke-IsSettled db w k actor ids h)

-- A row that an acceptance may use.
pub record IsOpenFor (hash : ℕ → ℕ) (k token : ℕ) (user : User) (now : ℕ) (row : Invitation)
    : Type 0 where
  pub id : row.id ≡ k
  pub addressee : row.email ≡ normalize_email user.email
  pub status : row.status ≡ pending
  pub in_time : now < row.expires_at
  pub opened : row.token_hash ≡ hash token

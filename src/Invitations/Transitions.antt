-- ===== src/Invitations/Transitions.antt =====
-- What the operations on invitations do: an invitation leaves the pending state once.
use living_cost_manager.Prelude.{
  ℕ, ◌&&◌, some, List, Text, ◌≡◌, arith, find, count_if, update_where, find-count, count_none,
  count_mono, count-update, Option-cases, inl, inr,
}
use living_cost_manager.Database.{
  User, Invitation, Database, is_pending, has_invitation_id, has_workspace_id,
}
use living_cost_manager.Database.Tx.{ok, and_then-eq-ok}
use living_cost_manager.Database.Integrity.{HasInvitationIds}
use living_cost_manager.Database.Inserts.{insert_member, IsInserted, insert_member-IsInserted}
use living_cost_manager.Membership.{MemberDto, WorkspaceDto}
use living_cost_manager.Invitations.{
  normalize_email, is_acceptable, claimed, new_member, claim_invitation,
  accept_workspace_invitation,
}

-- No row with this id is pending.
abbrev pub IsSettled : ℕ → List Invitation → Type 0
IsSettled k rows = count_if (λ row. has_invitation_id k row && is_pending row.status) rows ≡ 0

-- What a successful claim has found and written.
pub record IsClaimed (db : Database) (k : ℕ) (email : Text) (now token_hash : ℕ) (row : Invitation)
    (after : Database) : Type 0 where
  pub found : find (is_acceptable k email now token_hash) db.invitations ≡ some row
  pub result : after ≡ record db {
    invitations = update_where (is_acceptable k email now token_hash) (claimed now) db.invitations;
  }

pub claim-IsClaimed :
    (db : Database) (k : ℕ) (email : Text) (now token_hash : ℕ) {opened : Invitation × Text}
    {after : Database}
    → claim_invitation k email now token_hash db ≡ ok (opened, after)
    → IsClaimed db k email now token_hash opened.0 after
unfolding claim_invitation
claim-IsClaimed db k email now token_hash {opened} {after} h =
    elim (Option-cases (find (is_acceptable k email now token_hash) db.invitations)) [
      | inl e ↦ absurd (ground arith)
      | inr (row, e) ↦
          elim (Option-cases (find (has_workspace_id row.workspace_id) db.workspaces)) [
            | inl f ↦ absurd (ground arith)
            | inr (w, f) ↦ record { found = ground arith; result = ground arith }
          ]
    ]

pub claim-IsSettled :
    (db : Database) (k : ℕ) (email : Text) (now token_hash : ℕ) {row : Invitation}
    {after : Database}
    → HasInvitationIds db.invitations
    → IsClaimed db k email now token_hash row after
    → IsSettled k after.invitations
claim-IsSettled db k email now token_hash ids c = rw c.result (
    omega (
      arith,
      ids k,
      find-count (is_acceptable k email now token_hash) db.invitations c.found,
      count-update (λ row. has_invitation_id k row && is_pending row.status)
          (is_acceptable k email now token_hash) (claimed now) db.invitations,
      count_mono (λ row. has_invitation_id k row && is_pending row.status) (has_invitation_id k)
          db.invitations (λ row p. ground arith),
      count_mono (is_acceptable k email now token_hash)
          (λ row.
            (has_invitation_id k row && is_pending row.status)
            && is_acceptable k email now token_hash row)
          db.invitations (λ row p. ground arith),
      count_none
          (λ row.
            is_acceptable k email now token_hash row
            && (has_invitation_id k (claimed now row) && is_pending (claimed now row).status))
          db.invitations (λ row. ground arith),
    ))

-- The rows that a successful acceptance goes through.
pub record IsAccepted (hash : ℕ → ℕ) (db : Database) (k token : ℕ) (user : User) (now new_id : ℕ)
    (after : Database) : Type 0 where
  pub invitation : Invitation
  pub between : Database
  pub claim : IsClaimed db k (normalize_email user.email) now (hash token) invitation between
  pub joined : IsInserted between (new_member new_id invitation user) after

module _ (hash : ℕ → ℕ) (db : Database) (k token : ℕ) (user : User) (now new_id : ℕ)
    {result : WorkspaceDto × MemberDto} {after : Database} where
  pub accept-IsAccepted :
      accept_workspace_invitation hash k token user now new_id db ≡ ok (result, after)
      → IsAccepted hash db k token user now new_id after
  unfolding accept_workspace_invitation
  accept-IsAccepted h =
      let ((row, name), mid, claim, rest) =
        and_then-eq-ok (claim_invitation k (normalize_email user.email) now (hash token) db) _ h in
      let (u, last, inserted, more) =
        and_then-eq-ok (insert_member (new_member new_id row user) mid) _ rest in
      let c = claim-IsClaimed db k (normalize_email user.email) now (hash token) claim in
      record {
        invitation = row;
        between = mid;
        claim = c;
        joined = insert_member-IsInserted mid _ (ground arith);
      }

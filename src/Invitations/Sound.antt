-- ===== src/Invitations/Sound.antt =====
-- The operations on invitations keep the database sound.
use living_cost_manager.Prelude.{
  ℕ, Bool, false, ◌&&◌, List, Text, [], ◌∷◌, ◌≡◌, refl, arith, find, update_where, count_none,
  count-update, count-update_same, count-append, Option-cases, inl, inr,
}
use living_cost_manager.Database.{
  InvitationRole, User, Member, Invitation, Database, revoked, expired, is_pending, is_pending_for,
  has_invitation_id, is_owner_of,
}
use living_cost_manager.Database.Tx.{ok, and_then-eq-ok}
use living_cost_manager.Database.Integrity.{HasInvitationIds, HasOnePending, IsSound}
use living_cost_manager.Database.Inserts.{
  IsInserted, insert_invitation, insert_invitation-IsInvited, IsInserted-HasKeys,
  IsInvited-HasOnePending, IsInvited-HasInvitationIds,
}
use living_cost_manager.Membership.{MemberDto, WorkspaceDto}
use living_cost_manager.Invitations.{
  InvitationDto, normalize_email, is_lapsed, is_revocable, claimed, with_status, new_invitation,
  prepare_invitation, create_workspace_invitation, accept_workspace_invitation,
  revoke_workspace_invitation,
}
use living_cost_manager.Invitations.Transitions.{accept-IsAccepted}

-- A change of rows that leaves them where they are and makes none pending.
record IsClosing (f : Invitation → Invitation) : Type 0 where
  same_id : (row : Invitation) → (f row).id ≡ row.id
  closed : (row : Invitation) → is_pending (f row).status ≡ false

module _ (f : Invitation → Invitation) (c : IsClosing f) (q : Invitation → Bool) where
  update-HasOnePending :
      (rows : List Invitation) → HasOnePending rows → HasOnePending (update_where q f rows)
  update-HasOnePending rows one w email = omega (
    arith,
    one w email,
    count-update (is_pending_for w email) q f rows,
    count_none (λ row. q row && is_pending_for w email (f row)) rows
        (λ row. ground (arith, c.closed row)),
  )

  update-HasInvitationIds :
      (rows : List Invitation) → HasInvitationIds rows → HasInvitationIds (update_where q f rows)
  update-HasInvitationIds rows ids k =
      omega
        (arith, ids k, count-update_same (has_invitation_id k) q f rows (λ row. rw (c.same_id row)))

  update-IsSound :
      (db : Database)
      → IsSound db
      → IsSound (record db { invitations = update_where q f db.invitations })
  update-IsSound db s = record {
    keys = s.keys;
    owners = s.owners;
    invitation_ids = update-HasInvitationIds db.invitations s.invitation_ids;
    one_pending = update-HasOnePending db.invitations s.one_pending;
  }

-- Revoking keeps the database sound.
pub revoke-IsSound :
    (db : Database) (w k actor : ℕ) {after : Database}
    → IsSound db
    → revoke_workspace_invitation w k actor db ≡ ok (tt, after)
    → IsSound after
unfolding revoke_workspace_invitation
revoke-IsSound db w k actor {after} s h =
    let e : after ≡ record db {
      invitations = update_where (is_revocable w k) (with_status revoked) db.invitations;
    } =
      ground arith in
    rw e (
      update-IsSound (with_status revoked) (record { same_id = λ row. refl; closed = λ row. refl })
        _ db s)

IsInserted-IsSound :
    (db : Database) (m : Member) {after : Database}
    → IsSound db
    → IsInserted db m after
    → IsSound after
IsInserted-IsSound db m {after} s i = record {
  keys = IsInserted-HasKeys db m s.keys i;
  owners =
      rw i.result
        (λ w has. omega (arith, s.owners w has, count-append (is_owner_of w) db.members (m ∷ [])));
  invitation_ids = rw i.result s.invitation_ids;
  one_pending = rw i.result s.one_pending;
}

-- Accepting keeps the database sound.
pub accept-IsSound :
    (hash : ℕ → ℕ) (db : Database) (k token : ℕ) (user : User) (now new_id : ℕ)
    {result : WorkspaceDto × MemberDto} {after : Database}
    → IsSound db
    → accept_workspace_invitation hash k token user now new_id db ≡ ok (result, after)
    → IsSound after
accept-IsSound hash db k token user now new_id s h =
    let a = accept-IsAccepted hash db k token user now new_id h in
    IsInserted-IsSound a.between _
      (rw a.claim.result (
        update-IsSound (claimed now) (record { same_id = λ row. refl; closed = λ row. refl }) _ db
          s))
      a.joined

prepare-IsSound :
    (db : Database) (w : ℕ) (email : Text) (actor now : ℕ) {after : Database}
    → IsSound db
    → prepare_invitation w email actor now db ≡ ok (tt, after)
    → IsSound after
unfolding prepare_invitation
prepare-IsSound db w email actor now {after} s h =
    elim (Option-cases (find (is_lapsed w email now) db.invitations)) [
      | inl e ↦ let same : after ≡ db = ground arith in rw same s
      | inr (row, e) ↦
          let same : after ≡ record db {
            invitations = update_where (is_lapsed w email now) (with_status expired) db.invitations;
          } =
            ground arith in
          rw same (
            update-IsSound (with_status expired)
              (record { same_id = λ r. refl; closed = λ r. refl }) _ db s)
    ]

-- Creating keeps the database sound: there is still one pending invitation at most for an address.
pub create-IsSound :
    (hash : ℕ → ℕ) (db : Database) (w : ℕ) (email : Text) (role : InvitationRole)
    (actor now later new_id token : ℕ) {result : InvitationDto × ℕ} {after : Database}
    → IsSound db
    → create_workspace_invitation hash w email role actor now later new_id token db
      ≡ ok (result, after)
    → IsSound after
unfolding create_workspace_invitation
create-IsSound hash db w email role actor now later new_id token {after} s h =
    let row = new_invitation w (normalize_email email) role later new_id (hash token) in
    let (u, mid, prepared, rest) =
      and_then-eq-ok (prepare_invitation w (normalize_email email) actor now db) _ h in
    let (v, last, inserted, more) = and_then-eq-ok (insert_invitation row mid) _ rest in
    let ready = prepare-IsSound db w (normalize_email email) actor now s prepared in
    let i = insert_invitation-IsInvited mid row {after = after} (ground arith) in
    record {
      keys = rw i.result ready.keys;
      owners = rw i.result ready.owners;
      invitation_ids = IsInvited-HasInvitationIds mid row ready.invitation_ids i;
      one_pending = IsInvited-HasOnePending mid row ready.one_pending i;
    }

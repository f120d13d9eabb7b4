-- ===== src/Invitations/Senders.antt =====
-- Who may invite and who may revoke, and the rows that are left (`createWorkspaceInvitation`,
-- `revokeWorkspaceInvitation`).
use living_cost_manager.Prelude.{
  ℕ, ◌+◌, ◌≤◌, true, none, some, List, [], ◌∷◌, Text, text_eq, text_eq_iff, ◌≡◌, ◌⊎◌, ◌==◌, refl,
  arith, find, count_if, update_where, count-append, find-append_new, Option-cases, Bool-cases, inl,
  inr,
}
use living_cost_manager.Database.{
  InvitationRole, User, Invitation, Database, pending, revoked, is_membership, is_pending_for,
  has_invitation_id,
}
use living_cost_manager.Database.Tx.{ok, and_then-eq-ok}
use living_cost_manager.Database.Integrity.{HasInvitationIds}
use living_cost_manager.Database.Inserts.{insert_invitation-IsInvited}
use living_cost_manager.Membership.{owner_row}
use living_cost_manager.Membership.Managers.{IsOwnerBy, owner_row-IsOwnerBy}
use living_cost_manager.Invitations.{
  InvitationDto, normalize_email, is_revocable, with_status, new_invitation, prepare_invitation,
  create_workspace_invitation, revoke_workspace_invitation,
}

-- No user with the address is a member of the workspace.
abbrev pub IsStranger : Database → ℕ → Text → Type 0
IsStranger db w email =
    (find (λ (u : User). text_eq u.email email) db.users ≡ none)
    ⊎ ((u : User) × (find (λ (r : User). text_eq r.email email) db.users ≡ some u)
        × (find (is_membership w u.id) db.members ≡ none))

prepare_needs :
    (db : Database) (w : ℕ) (email : Text) (actor now : ℕ) {after : Database}
    → prepare_invitation w email actor now db ≡ ok (tt, after)
    → (owner_row (find (is_membership w actor) db.members) ≡ true)
      × IsStranger db w email
      × (after.members ≡ db.members)
unfolding prepare_invitation
prepare_needs db w email actor now h = (
  ground arith,
  elim (Option-cases (find (λ (u : User). text_eq u.email email) db.users)) [
    | inl unknown ↦ inl unknown
    | inr (u, known) ↦ elim (Option-cases (find (is_membership w u.id) db.members)) [
      | inl e ↦ inr (u, known, e)
      | inr (m, e) ↦ absurd (ground (arith, h, known, e))
    ]
  ],
  ground arith,
)

-- An invitation that is created was sent by an owner of the workspace, to an address of none of
-- its members; it is stored as the only pending one for this address, under its new id, with the
-- hash of the token and seven days to run, and no member changes.
pub create_needs_owner :
    (hash : ℕ → ℕ) (db : Database) (w : ℕ) (email : Text) (role : InvitationRole)
    (actor now later new_id token : ℕ) {result : InvitationDto × ℕ} {after : Database}
    → create_workspace_invitation hash w email role actor now later new_id token db
      ≡ ok (result, after)
    → IsOwnerBy db w actor
      × IsStranger db w (normalize_email email)
      × (find (has_invitation_id new_id) after.invitations
          ≡ some (record {
            id = new_id;
            workspace_id = w;
            email = normalize_email email;
            role = role;
            status = pending;
            token_hash = hash token;
            expires_at = later + 604800000;
            accepted_at = none;
          }))
      × (count_if (is_pending_for w (normalize_email email)) after.invitations ≡ 1)
      × (after.members ≡ db.members)
unfolding create_workspace_invitation count_if
create_needs_owner hash db w email role actor now later new_id token {after} h =
    let row = new_invitation w (normalize_email email) role later new_id (hash token) in
    let (u, mid, prepared, rest) =
      and_then-eq-ok (prepare_invitation w (normalize_email email) actor now db) _ h in
    let (owned, stranger, same) =
      prepare_needs db w (normalize_email email) actor now {after = mid} prepared in
    let i = insert_invitation-IsInvited mid row {after = after} (ground arith) in
    (
      owner_row-IsOwnerBy db w actor owned,
      stranger,
      rw i.result
          (find-append_new (has_invitation_id new_id) mid.invitations row i.free_id (ground arith)),
      rw i.result (
          ground (
            arith,
            i.free_pending refl,
            text_eq_iff (normalize_email email) (normalize_email email),
            count-append (is_pending_for w (normalize_email email)) mid.invitations (row ∷ []),
          )),
      rw i.result same,
    )

module _ (w k : ℕ) where
  none_revocable :
      (rows : List Invitation)
      → count_if (has_invitation_id k) rows ≡ 0
      → count_if (is_revocable w k) rows ≡ 0
  unfolding count_if
  none_revocable [] h = refl
  none_revocable (r ∷ rows) h = ground (arith, none_revocable rows)

  find-revoked :
      (rows : List Invitation)
      → count_if (has_invitation_id k) rows ≤ 1
      → 1 ≤ count_if (is_revocable w k) rows
      → (row : Invitation) × (find (has_invitation_id k) rows ≡ some row)
        × (row.workspace_id ≡ w)
        × (row.status ≡ pending)
        × (find (has_invitation_id k) (update_where (is_revocable w k) (with_status revoked) rows)
            ≡ some (record row { status = revoked }))
  unfolding find count_if update_where
  find-revoked [] u g = absurd (omega arith)
  find-revoked (r ∷ rows) u g = elim (Bool-cases (r.id == k)) [
    | inl e ↦
        let passes : is_revocable w k r ≡ true = ground (arith, none_revocable rows) in
        (r, rw e, ground (arith, passes), ground (arith, passes), rw (passes, e))
    | inr e ↦
        let (row, found, there, waits, gone) =
          find-revoked rows (ground (arith, e)) (ground (arith, e)) in
        (row, ground (arith, e, found), there, waits, ground (arith, e, gone))
  ]

-- A revocation that succeeds was made by an owner of the workspace, and found the invitation in
-- this workspace and pending; it is then revoked, and no member changes.
pub revoke_needs_owner :
    (db : Database) (w k actor : ℕ) {after : Database}
    → HasInvitationIds db.invitations
    → revoke_workspace_invitation w k actor db ≡ ok (tt, after)
    → IsOwnerBy db w actor
      × ((row : Invitation) × (find (has_invitation_id k) db.invitations ≡ some row)
          × (row.workspace_id ≡ w)
          × (row.status ≡ pending)
          × (find (has_invitation_id k) after.invitations ≡ some (record row { status = revoked })))
      × (after.members ≡ db.members)
unfolding revoke_workspace_invitation
revoke_needs_owner db w k actor {after} ids h =
    let e : after ≡ record db {
      invitations = update_where (is_revocable w k) (with_status revoked) db.invitations;
    } =
      ground arith in
    (
      owner_row-IsOwnerBy db w actor (ground arith),
      rw e (find-revoked w k db.invitations (ids k) (ground arith)),
      rw e,
    )

-- ===== src/Database/Inserts.antt =====
-- Inserts, refused where a unique key of the tables is taken or a foreign key leads nowhere.
use living_cost_manager.Prelude.{
  true, not, ◌&&◌, ◌||◌, [], ◌∷◌, ◌++◌, ◌≡◌, arith, any, count_if, count-append, any-count,
  text_eq_iff,
}
use living_cost_manager.Database.{
  Member, Invitation, Database, has_member_id, has_user_id, has_workspace_id, is_membership,
  has_invitation_id, has_token_hash, is_pending, is_pending_for,
}
use living_cost_manager.Database.Tx.{
  ok, Tx, gets, modify, require, unique_violation, foreign_key_violation, ◌>>=◌, ◌>>◌,
}
use living_cost_manager.Database.Integrity.{HasKeys, HasOnePending, HasInvitationIds}

-- the primary key, the key (workspaceId, userId), and the two foreign keys
unfoldable pub insert_member : Member → Tx (Unit {0})
insert_member m = do
  taken ← gets (λ db.
      any (has_member_id m.id) db.members
      || any (is_membership m.workspace_id m.user_id) db.members)
  require (not taken) unique_violation
  linked ← gets (λ db.
      any (has_workspace_id m.workspace_id) db.workspaces && any (has_user_id m.user_id) db.users)
  require linked foreign_key_violation
  modify (λ db. record db { members = db.members ++ m ∷ [] })

-- the primary key, `tokenHash`, the index on pending invitations, and the foreign key
unfoldable pub insert_invitation : Invitation → Tx (Unit {0})
insert_invitation row = do
  taken ← gets (λ db.
      any (has_invitation_id row.id) db.invitations
      || any (has_token_hash row.token_hash) db.invitations
      || (is_pending row.status && any (is_pending_for row.workspace_id row.email) db.invitations))
  require (not taken) unique_violation
  linked ← gets (λ db. any (has_workspace_id row.workspace_id) db.workspaces)
  require linked foreign_key_violation
  modify (λ db. record db { invitations = db.invitations ++ row ∷ [] })

-- A successful insert appends the row, and its keys were free.
pub record IsInserted (db : Database) (m : Member) (after : Database) : Type 0 where
  pub result : after ≡ record db { members = db.members ++ m ∷ [] }
  pub free_id : count_if (has_member_id m.id) db.members ≡ 0
  pub free_pair : count_if (is_membership m.workspace_id m.user_id) db.members ≡ 0

pub insert_member-IsInserted :
    (db : Database) (m : Member) {after : Database}
    → insert_member m db ≡ ok (tt, after)
    → IsInserted db m after
unfolding insert_member
insert_member-IsInserted db m h = record {
  result = ground arith;
  free_id = any-count _ db.members (ground arith);
  free_pair = any-count _ db.members (ground arith);
}

pub IsInserted-HasKeys :
    (db : Database) (m : Member) {after : Database}
    → HasKeys db.members
    → IsInserted db m after
    → HasKeys after.members
unfolding count_if
IsInserted-HasKeys db m keys i = rw i.result (record {
  ids = λ k.
      ground (arith, keys.ids k, i.free_id, count-append (has_member_id k) db.members (m ∷ []));
  pairs = λ w u.
      ground
        (arith, keys.pairs w u, i.free_pair, count-append (is_membership w u) db.members (m ∷ []));
})

pub record IsInvited (db : Database) (row : Invitation) (after : Database) : Type 0 where
  pub result : after ≡ record db { invitations = db.invitations ++ row ∷ [] }
  pub free_id : count_if (has_invitation_id row.id) db.invitations ≡ 0
  pub free_hash : count_if (has_token_hash row.token_hash) db.invitations ≡ 0
  pub linked : any (has_workspace_id row.workspace_id) db.workspaces ≡ true
  pub free_pending :
      is_pending row.status ≡ true
      → count_if (is_pending_for row.workspace_id row.email) db.invitations ≡ 0

pub insert_invitation-IsInvited :
    (db : Database) (row : Invitation) {after : Database}
    → insert_invitation row db ≡ ok (tt, after)
    → IsInvited db row after
unfolding insert_invitation
insert_invitation-IsInvited db row h = record {
  result = ground arith;
  free_id = any-count _ db.invitations (ground arith);
  free_hash = any-count _ db.invitations (ground arith);
  linked = ground arith;
  free_pending = λ p. any-count _ db.invitations (ground arith);
}

pub IsInvited-HasOnePending :
    (db : Database) (row : Invitation) {after : Database}
    → HasOnePending db.invitations
    → IsInvited db row after
    → HasOnePending after.invitations
unfolding count_if
IsInvited-HasOnePending db row one i = rw i.result (λ w e. ground (
  arith,
  one w e,
  text_eq_iff row.email e,
  i.free_pending,
  count-append (is_pending_for w e) db.invitations (row ∷ []),
))

pub IsInvited-HasInvitationIds :
    (db : Database) (row : Invitation) {after : Database}
    → HasInvitationIds db.invitations
    → IsInvited db row after
    → HasInvitationIds after.invitations
unfolding count_if
IsInvited-HasInvitationIds db row ids i = rw i.result (λ k.
    ground (arith, ids k, i.free_id, count-append (has_invitation_id k) db.invitations (row ∷ [])))

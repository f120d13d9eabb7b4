-- ===== src/Workspaces/Registration.antt =====
-- What a registration leaves: the new user, a workspace and its owner.
use living_cost_manager.Prelude.{
  none, some, find, find-append_new, any-count, ℕ, Bool, [], ◌∷◌, ◌++◌, Text, ◌≡◌, arith, count_if,
}
use living_cost_manager.Database.{
  WorkspaceRole, is_membership, has_user_id, User, Database, has_workspace_id,
}
use living_cost_manager.Database.Tx.{Result, ok, err, and_then-eq-ok}
use living_cost_manager.Database.Inserts.{insert_member-IsInserted}
use living_cost_manager.Database.Integrity.{IsSound}
use living_cost_manager.Membership.{WorkspaceDto}
use living_cost_manager.Workspaces.{
  has_email, living_cost_suffix, insert_user, insert_workspace, assert_can_create_workspace,
  found_workspace, register_user, register, as_email_conflict, new_user, new_workspace,
  owner_row_of,
}
use living_cost_manager.Workspaces.Sound.{
  insert_workspace-result, assert-state, found_workspace-IsSound,
}

as_email_conflict-ok {ℓ} :
    {A : Type ℓ} (r : Result A) {a : A} → as_email_conflict r ≡ ok a → r ≡ ok a
as_email_conflict-ok (ok b) h = h
as_email_conflict-ok (err e) h = absurd (ground arith)

insert_user-KeepsAccess :
    (user : User) (db : Database) {after : Database}
    → insert_user user db ≡ ok (tt, after)
    → after ≡ record db { users = db.users ++ user ∷ [] }
unfolding insert_user
insert_user-KeepsAccess user db h = ground arith

register_user-IsSound :
    (paid : ℕ → Database → Bool) (user : User) (w k : ℕ) (db : Database) {out : User × WorkspaceDto}
    {after : Database}
    → IsSound db
    → register_user paid user w k db ≡ ok (out, after)
    → IsSound after
unfolding register_user
register_user-IsSound paid user w k db {out} {after} s h =
    let (a, one, p, rest) = and_then-eq-ok (insert_user user db) _ h in
    let (b, two, q, rest₂) = and_then-eq-ok (assert_can_create_workspace paid user.id one) _ rest in
    let (c, three, r, last) = and_then-eq-ok (found_workspace _ k user.id two) _ rest₂ in
    let end : after ≡ three = ground arith in
    let added = insert_user-KeepsAccess user db p in
    let (same, free) = assert-state paid user.id one q in
    let ready : IsSound one = rw added (record {
      keys = s.keys;
      owners = s.owners;
      invitation_ids = s.invitation_ids;
      one_pending = s.one_pending;
    }) in
    rw end (found_workspace-IsSound _ k user.id two (rw same ready) r)

pub register-user :
    (paid : ℕ → Database → Bool) (email name : Text) (password_hash u w k : ℕ) (db : Database)
    {out : User × WorkspaceDto} {after : Database}
    → register paid email name password_hash u w k db ≡ ok (out, after)
    → register_user paid (new_user u email name password_hash) w k db ≡ ok (out, after)
unfolding register
register-user paid email name password_hash u w k db h =
    as_email_conflict-ok (register_user paid (new_user u email name password_hash) w k db)
      (ground arith)

-- A registration keeps the database sound.
pub register-IsSound :
    (paid : ℕ → Database → Bool) (email name : Text) (password_hash u w k : ℕ) (db : Database)
    {out : User × WorkspaceDto} {after : Database}
    → IsSound db
    → register paid email name password_hash u w k db ≡ ok (out, after)
    → IsSound after
register-IsSound paid email name password_hash u w k db {out} {after} s h =
    register_user-IsSound paid (new_user u email name password_hash) w k db {out = out}
      {after = after} s (register-user paid email name password_hash u w k db h)

-- A registration that succeeds adds three rows: the new user, with the given address and name and
-- no verified address; the new workspace, at version 0 without income; and the new user as its
-- owner. No other user had the address.
pub register_owns :
    (paid : ℕ → Database → Bool) (email name : Text) (password_hash u w k : ℕ) (db : Database)
    {out : User × WorkspaceDto} {after : Database}
    → register paid email name password_hash u w k db ≡ ok (out, after)
    → (find (is_membership w u) after.members
        ≡ some (record { id = k; workspace_id = w; user_id = u; role = WorkspaceRole.owner }))
      × (find (has_workspace_id w) after.workspaces
          ≡ some (record {
            id = w;
            name = name ++ living_cost_suffix;
            monthly_income = 0;
            sync_version = 0;
          }))
      × (find (has_user_id u) after.users
          ≡ some (record {
            id = u;
            email = email;
            name = name;
            password_hash = password_hash;
            token_version = 0;
            email_verified_at = none;
          }))
      × (count_if (has_email email) db.users ≡ 0)
unfolding register_user found_workspace insert_workspace insert_user
register_owns paid email name password_hash u w k db {out} {after} h =
    let user = new_user u email name password_hash in
    let g = register-user paid email name password_hash u w k db h in
    let (a, one, p, rest) = and_then-eq-ok (insert_user user db) _ g in
    let (b, two, q, rest₂) = and_then-eq-ok (assert_can_create_workspace paid u one) _ rest in
    let (c, three, r, last) =
      and_then-eq-ok (found_workspace (new_workspace w (name ++ living_cost_suffix) 0) k u two) _
        rest₂ in
    let (t, mid, f, member) =
      and_then-eq-ok (insert_workspace (new_workspace w (name ++ living_cost_suffix) 0) two) _ r in
    let end : after ≡ three = ground arith in
    let added = insert_user-KeepsAccess user db p in
    let (same, free) = assert-state paid u one q in
    let placed = insert_workspace-result (new_workspace w (name ++ living_cost_suffix) 0) two f in
    let i = insert_member-IsInserted mid (owner_row_of k w u) member in
    let new_id : count_if (has_workspace_id w) two.workspaces ≡ 0 =
      any-count (has_workspace_id w) two.workspaces (ground (arith, f)) in
    let new_user_id : count_if (has_user_id u) db.users ≡ 0 =
      any-count (has_user_id u) db.users (ground (arith, p)) in
    (
      rw (end, i.result)
          (find-append_new (is_membership w u) mid.members (owner_row_of k w u) i.free_pair
            (ground arith)),
      rw (end, i.result, placed)
          (find-append_new (has_workspace_id w) two.workspaces
            (new_workspace w (name ++ living_cost_suffix) 0) new_id (ground arith)),
      rw (end, i.result, placed, same, added)
          (find-append_new (has_user_id u) db.users user new_user_id (ground arith)),
      any-count (has_email email) db.users (ground (arith, p)),
    )

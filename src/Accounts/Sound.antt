-- ===== src/Accounts/Sound.antt =====
-- Deleting an account or a workspace keeps the database sound.
use living_cost_manager.Prelude.{
  ℕ, ◌≤◌, Bool, true, false, ◌&&◌, List, ◌==◌, ◌≡◌, arith, count_if, delete_where, any-count,
  count_mono, count_none, count-delete, count-delete_le, Bool-cases, inl, inr,
}
use living_cost_manager.Database.{
  Member, Workspace, Database, is_owner_of, has_workspace_id, has_invitation_id, is_pending_for,
}
use living_cost_manager.Database.Tx.{ok}
use living_cost_manager.Database.Integrity.{IsSound, delete-HasKeys}
use living_cost_manager.Accounts.{
  is_owned_by, erase, erase_account, delete_workspaces, delete_workspace,
}
use living_cost_manager.Accounts.Erasure.{erase_account-result}

module _ (gone : ℕ → Bool) (db : Database) (s : IsSound db) (w : ℕ)
    (has : 1
      ≤ count_if
          (has_workspace_id w)
          (delete_where (λ (r : Workspace). gone r.id) db.workspaces)) where
  -- a workspace that is left was not asked to go
  not_gone : gone w ≡ false
  not_gone = elim (Bool-cases (gone w)) [
    | inr e ↦ e
    | inl e ↦ absurd (
        omega (
          arith,
          has,
          count-delete (has_workspace_id w) (λ (r : Workspace). gone r.id) db.workspaces,
          count_mono (has_workspace_id w) (λ r. has_workspace_id w r && gone r.id) db.workspaces
              (λ r p. all_gone e r p),
        ))
  ]
    where
      all_gone :
          gone w ≡ true → (r : Workspace) → (r.id == w) ≡ true → (r.id == w) && gone r.id ≡ true
      all_gone e r p = let same : r.id ≡ w = ground arith in rw (p, same, e)

  owners_left :
      1 ≤ count_if (is_owner_of w) (delete_where (λ (m : Member). gone m.workspace_id) db.members)
  owners_left = omega (
    arith,
    s.owners w (
        omega (
          arith,
          has,
          count-delete_le (has_workspace_id w) (λ (r : Workspace). gone r.id) db.workspaces,
        )),
    count-delete (is_owner_of w) (λ (m : Member). gone m.workspace_id) db.members,
    count_none (λ m. is_owner_of w m && gone m.workspace_id) db.members away,
  )
    where
      away : (m : Member) → is_owner_of w m && gone m.workspace_id ≡ false
      away m = elim (Bool-cases (m.workspace_id == w)) [
        | inl e ↦ let same : m.workspace_id ≡ w = ground arith in rw (same, not_gone) (ground arith)
        | inr e ↦ rw e
      ]

pub delete_workspaces-IsSound :
    (gone : ℕ → Bool) (db : Database) → IsSound db → IsSound (delete_workspaces gone db)
unfolding delete_workspaces
delete_workspaces-IsSound gone db s = record {
  keys = delete-HasKeys _ db.members s.keys;
  owners = λ w has. owners_left gone db s w has;
  invitation_ids = λ k. omega (
    arith,
    s.invitation_ids k,
    count-delete_le (has_invitation_id k) (λ i. gone i.workspace_id) db.invitations,
  );
  one_pending = λ w e. omega (
    arith,
    s.one_pending w e,
    count-delete_le (is_pending_for w e) (λ i. gone i.workspace_id) db.invitations,
  );
}

-- Deleting a workspace keeps the database sound.
pub delete_workspace-IsSound :
    (db : Database) (u w : ℕ) {after : Database}
    → IsSound db
    → delete_workspace u w db ≡ ok (tt, after)
    → IsSound after
unfolding delete_workspace
delete_workspace-IsSound db u w {after} s h =
    let e : after ≡ delete_workspaces (λ v. v == w) db = ground arith in
    rw e (delete_workspaces-IsSound (λ v. v == w) db s)

-- Deleting an account keeps the database sound: no workspace of others is left without an owner.
pub erase_account-IsSound :
    (db : Database) (u : ℕ) {after : Database}
    → IsSound db
    → erase_account u db ≡ ok (tt, after)
    → IsSound after
unfolding erase
erase_account-IsSound db u {after} s h = rw ((erase_account-result db u h).1) (record {
  keys = delete-HasKeys _ _ (delete-HasKeys _ _ cut.keys);
  owners = λ w has. omega (
    arith,
    cut.owners w has,
    count-delete (is_owner_of w) by_user kept,
    count-delete (is_owner_of w) by_user (delete_where by_user kept),
    count-delete_le (λ m. is_owner_of w m && by_user m) by_user kept,
    count-delete_le (λ m. is_owner_of w m && by_user m) (λ m. is_owned_by db u m.workspace_id)
        db.members,
    count_mono (λ m. is_owner_of w m && by_user m) (λ m. by_user m && is_owner_of w m) db.members
        (λ m p. ground arith),
    any-count (λ m. by_user m && is_owner_of w m) db.members
        (not_gone (is_owned_by db u) db s w has),
  );
  invitation_ids = cut.invitation_ids;
  one_pending = cut.one_pending;
})
  where
    by_user : Member → Bool
    by_user m = m.user_id == u

    kept : List Member
    kept = delete_where (λ m. is_owned_by db u m.workspace_id) db.members

    cut : IsSound (delete_workspaces (is_owned_by db u) db)
    cut = delete_workspaces-IsSound (is_owned_by db u) db s

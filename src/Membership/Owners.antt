-- ===== src/Membership/Owners.antt =====
-- Membership writes keep an owner in every workspace.
use living_cost_manager.Prelude.{
  ℕ, ◌≤◌, Bool, true, false, not, ◌&&◌, some, List, ◌≡◌, refl, arith, find, count_if, update_where,
  delete_where, find_sound, find-count_of, count_disjoint, count-delete, count-update, count_mono,
  count-update_same, ◌==◌, Bool-cases, inl, inr,
}
use living_cost_manager.Database.{
  WorkspaceRole, owner, Member, Database, is_owner, is_membership, is_owner_of, has_member_id,
}
use living_cost_manager.Database.Integrity.{HasKeys, IsSound, delete-HasKeys}
use living_cost_manager.Database.Tx.{ok}
use living_cost_manager.Membership.{
  MemberDto, is_row_of, with_role, update_workspace_member_role, delete_workspace_member,
}
use living_cost_manager.Membership.Outcomes.{delete-IsWritten, update-IsWritten}

-- The only row with the id of a row of `w` is in `w`: other workspaces lose nothing.
module _ (members : List Member) (keys : HasKeys members) (w k : ℕ) {target : Member}
    (found : find (is_row_of w k) members ≡ some target) where
  -- in another workspace no row has this id
  other_workspace :
      (v : ℕ) → (v == w) ≡ false → count_if (λ m. is_owner_of v m && has_member_id k m) members ≡ 0
  other_workspace v ne = omega (
    arith,
    keys.ids k,
    find-count_of (is_row_of w k) (is_row_of w k) members found
        (find_sound (is_row_of w k) members found),
    count_disjoint (λ m. is_owner_of v m && has_member_id k m) (is_row_of w k) (has_member_id k)
        members (λ m p. ground arith) (λ m p. ground arith) (λ m p. ground arith),
  )

  lost_le : (v : ℕ) → count_if (λ m. is_owner_of v m && has_member_id k m) members ≤ 1
  lost_le v = omega (
    arith,
    keys.ids k,
    count_mono (λ m. is_owner_of v m && has_member_id k m) (has_member_id k) members
        (λ m p. ground arith),
  )

  -- a row that is no owner takes no owner away
  no_owner_lost :
      is_owner target.role ≡ false
      → count_if (λ m. is_owner_of w m && has_member_id k m) members ≡ 0
  no_owner_lost plain = omega (
    arith,
    keys.ids k,
    find-count_of (is_row_of w k) (λ m. is_row_of w k m && not (is_owner m.role)) members found
        (ground (arith, find_sound (is_row_of w k) members found)),
    count_disjoint (λ m. is_owner_of w m && has_member_id k m)
        (λ m. is_row_of w k m && not (is_owner m.role)) (has_member_id k) members
        (λ m p. ground arith) (λ m p. ground arith) (λ m p. ground arith),
  )

  -- the owners that a delete leaves
  owners_after_delete :
      (v : ℕ)
      → (is_owner target.role ≡ true → 2 ≤ count_if (is_owner_of w) members)
      → 1 ≤ count_if (is_owner_of v) members
      → 1 ≤ count_if (is_owner_of v) (delete_where (has_member_id k) members)
  owners_after_delete v spare h = elim (Bool-cases (v == w)) [
    | inl same ↦ elim (Bool-cases (is_owner target.role)) [
      | inl o ↦
          ground (arith, spare o, lost_le v, count-delete (is_owner_of v) (has_member_id k) members)
      | inr o ↦
          ground (arith, no_owner_lost o, count-delete (is_owner_of v) (has_member_id k) members)
    ]
    | inr ne ↦
        omega (arith, other_workspace v ne, count-delete (is_owner_of v) (has_member_id k) members)
  ]

  -- the owners that a change of role leaves
  owners_after_update :
      (v : ℕ) (role : WorkspaceRole)
      → (is_owner target.role && not (is_owner role) ≡ true → 2 ≤ count_if (is_owner_of w) members)
      → 1 ≤ count_if (is_owner_of v) members
      → 1 ≤ count_if (is_owner_of v) (update_where (has_member_id k) (with_role role) members)
  owners_after_update v owner spare h = omega (
    arith,
    count-update (is_owner_of v) (has_member_id k) (with_role owner) members,
    count_mono (λ m. is_owner_of v m && has_member_id k m)
        (λ m. has_member_id k m && is_owner_of v (with_role owner m)) members (λ m p. ground arith),
  )
  owners_after_update v role spare h = elim (Bool-cases (v == w)) [
    | inl same ↦ elim (Bool-cases (is_owner target.role)) [
      | inl o ↦ ground (
        arith,
        spare (ground arith),
        lost_le v,
        count-update (is_owner_of v) (has_member_id k) (with_role role) members,
      )
      | inr o ↦ ground (
        arith,
        no_owner_lost o,
        count-update (is_owner_of v) (has_member_id k) (with_role role) members,
      )
    ]
    | inr ne ↦ omega (
      arith,
      other_workspace v ne,
      count-update (is_owner_of v) (has_member_id k) (with_role role) members,
    )
  ]

with_role-HasKeys :
    (q : Member → Bool) (role : WorkspaceRole) (rows : List Member)
    → HasKeys rows
    → HasKeys (update_where q (with_role role) rows)
with_role-HasKeys q role rows h = record {
  ids = λ k.
      omega
        (arith, h.ids k, count-update_same (has_member_id k) q (with_role role) rows (λ m. refl));
  pairs = λ w u. omega (
    arith,
    h.pairs w u,
    count-update_same (is_membership w u) q (with_role role) rows (λ m. refl),
  );
}

-- A member's removal keeps the database sound: unique keys, and an owner in every workspace.
pub delete_workspace_member-IsSound :
    (db : Database) (w k actor : ℕ) {after : Database}
    → IsSound db
    → delete_workspace_member w k actor db ≡ ok (tt, after)
    → IsSound after
delete_workspace_member-IsSound db w k actor s h =
    let (d, e) = delete-IsWritten db w k actor h in
    rw e (record {
      keys = delete-HasKeys (has_member_id k) db.members s.keys;
      owners = λ v has.
          owners_after_delete db.members s.keys w k d.managed.found v d.spare_owner
            (s.owners v has);
      invitation_ids = s.invitation_ids;
      one_pending = s.one_pending;
    })

-- A change of role that succeeds keeps a sound database sound.
pub update_workspace_member_role-IsSound :
    (db : Database) (w k actor : ℕ) (role : WorkspaceRole) {dto : MemberDto} {after : Database}
    → IsSound db
    → update_workspace_member_role w k role actor db ≡ ok (dto, after)
    → IsSound after
update_workspace_member_role-IsSound db w k actor role s h =
    let (d, e) = update-IsWritten db w k actor role h in
    rw e (record {
      keys = with_role-HasKeys (has_member_id k) role db.members s.keys;
      owners = λ v has.
          owners_after_update db.members s.keys w k d.managed.found v role d.spare_owner
            (s.owners v has);
      invitation_ids = s.invitation_ids;
      one_pending = s.one_pending;
    })

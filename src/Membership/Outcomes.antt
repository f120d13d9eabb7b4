-- ===== src/Membership/Outcomes.antt =====
-- What the membership writes return on each branch.
use living_cost_manager.Prelude.{
  ℕ, ◌≤◌, Bool, true, not, ◌&&◌, some, ◌≡◌, inl, inr, arith, find, update_where, delete_where,
  Option-cases,
}
use living_cost_manager.Database.{
  WorkspaceRole, owner, Member, Database, is_owner, is_membership, has_member_id, owner_count,
}
use living_cost_manager.Database.Tx.{ok, and_then-eq-ok}
use living_cost_manager.Membership.{
  MemberDto, is_row_of, with_role, find_managed, update_workspace_member_role,
  delete_workspace_member,
}

-- What a successful write by `actor` on the row `k` of workspace `w` has found.
pub record IsManaged (db : Database) (w k actor : ℕ) (target : Member) : Type 0 where
  pub actor_row : Member
  pub acts : find (is_membership w actor) db.members ≡ some actor_row
  pub actor_owns : actor_row.role ≡ owner
  pub found : find (is_row_of w k) db.members ≡ some target

pub find_managed-IsManaged :
    (db : Database) (w k actor : ℕ) {target : Member} {after : Database}
    → find_managed w k actor db ≡ ok (target, after)
    → (after ≡ db) × IsManaged db w k actor target
unfolding find_managed
find_managed-IsManaged db w k actor {target} {after} h =
    elim (Option-cases (find (is_membership w actor) db.members)) [
      | inl e ↦ absurd (ground arith)
      | inr (a, e) ↦ (
        ground arith,
        record { actor_row = a; acts = e; actor_owns = ground arith; found = ground arith },
      )
    ]

-- `removed` says whether the write takes an owner away.
pub record IsWritten (db : Database) (w k actor : ℕ) (removes : WorkspaceRole → Bool) : Type 0 where
  pub target : Member
  pub managed : IsManaged db w k actor target
  pub spare_owner : removes target.role ≡ true → 2 ≤ owner_count db w

pub delete-IsWritten :
    (db : Database) (w k actor : ℕ) {after : Database}
    → delete_workspace_member w k actor db ≡ ok (tt, after)
    → IsWritten db w k actor is_owner
      × (after ≡ record db { members = delete_where (has_member_id k) db.members })
unfolding delete_workspace_member
delete-IsWritten db w k actor {after} h =
    let (target, db', e, rest) = and_then-eq-ok (find_managed w k actor db) _ h in
    let (same, m) = find_managed-IsManaged db w k actor e in
    (record { target = target; managed = m; spare_owner = λ o. ground arith }, ground arith)

pub update-IsWritten :
    (db : Database) (w k actor : ℕ) (role : WorkspaceRole) {dto : MemberDto} {after : Database}
    → update_workspace_member_role w k role actor db ≡ ok (dto, after)
    → IsWritten db w k actor (λ r. is_owner r && not (is_owner role))
      × (after ≡ record db { members = update_where (has_member_id k) (with_role role) db.members })
unfolding update_workspace_member_role
update-IsWritten db w k actor role {dto} {after} h =
    let (target, db', e, rest) = and_then-eq-ok (find_managed w k actor db) _ h in
    let (same, m) = find_managed-IsManaged db w k actor e in
    (record { target = target; managed = m; spare_owner = λ o. ground arith }, ground arith)

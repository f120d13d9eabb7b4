-- ===== src/Snapshot/Lock.antt =====
-- The optimistic lock of `replaceWorkspaceSnapshot`.
use living_cost_manager.Prelude.{
  ℕ, ◌+◌, ◌≤◌, true, not, ◌&&◌, ◌==◌, Option, some, List, ◌≡◌, ◌≢◌, ◌∙◌, refl, sym, subst, arith,
  find, count_if, update_where, all, map, count_disjoint, find_sound, find-count_of, update-none,
  Option-cases, Bool-cases, inl, inr,
}
use living_cost_manager.Database.{
  Category, PaymentCard, FixedCost, FixedCostDto, PlanningState, Workspace, WorkspaceSnapshot,
  Database, has_workspace_id,
}
use living_cost_manager.Database.Tx.{
  ok, err, snapshot_conflict, snapshot_invalid, require, require-result, ◌>>◌, and_then-eq-ok,
}
use living_cost_manager.PlanningStorage.{planning_archive, planning_archive-state}
use living_cost_manager.Snapshot.{
  is_version_of, advanced, lock_version, create_categories, create_cards, create_costs,
  write_budget, create_backup, clear_budget, get_workspace_snapshot, merge_costs, merged_is_valid,
  to_fixed_cost_create_data, replace_workspace_snapshot,
}

abbrev pub version_of : Database → ℕ → Option Workspace
version_of db w = find (has_workspace_id w) db.workspaces

module _ (db : Database) (w v income : ℕ) where
  -- no row has the version of a stale write
  count_stale :
      (row : Workspace)
      → version_of db w ≡ some row
      → count_if (has_workspace_id w) db.workspaces ≤ 1
      → row.sync_version ≢ v
      → count_if (is_version_of w v) db.workspaces ≡ 0
  count_stale row found unique stale = omega (
    arith,
    unique,
    find-count_of (has_workspace_id w) (λ r. has_workspace_id w r && not (r.sync_version == v))
        db.workspaces found
        (ground (arith, find_sound (has_workspace_id w) db.workspaces found, stale)),
    count_disjoint (is_version_of w v) (λ r. has_workspace_id w r && not (r.sync_version == v))
        (has_workspace_id w) db.workspaces (λ r p. ground arith) (λ r p. ground arith)
        (λ r p. ground arith),
  )

  lock_stale :
      (row : Workspace)
      → version_of db w ≡ some row
      → count_if (is_version_of w v) db.workspaces ≡ 0
      → lock_version w v income db ≡ err (snapshot_conflict row.sync_version)
  unfolding lock_version
  lock_stale row found none_left =
      rw (
        none_left,
        update-none (is_version_of w v) (advanced income) db.workspaces none_left,
        found,
      )

  pub lock-result :
      {after : Database}
      → lock_version w v income db ≡ ok (tt, after)
      → (1 ≤ count_if (is_version_of w v) db.workspaces)
        × (after ≡ record db {
          workspaces = update_where (is_version_of w v) (advanced income) db.workspaces;
        })
  unfolding lock_version
  lock-result {after} h = elim (Bool-cases (count_if (is_version_of w v) db.workspaces == 0)) [
    | inr granted ↦ (ground arith, ground arith)
    | inl refused ↦
        elim (Option-cases (
          find (has_workspace_id w)
            (update_where (is_version_of w v) (advanced income) db.workspaces))) [
              | inl e ↦ absurd (ground (arith, h, refused, e))
              | inr (row, e) ↦ absurd (ground (arith, h, refused, e))
            ]
  ]

-- A write that carries another version than the stored one is refused, and told the stored one.
pub stale_write_refused :
    (db : Database) (s : WorkspaceSnapshot) (backup_id now : ℕ) (row : Workspace)
    → version_of db s.workspace_id ≡ some row
    → count_if (has_workspace_id s.workspace_id) db.workspaces ≤ 1
    → row.sync_version ≢ s.sync_version
    → replace_workspace_snapshot s backup_id now db ≡ err (snapshot_conflict row.sync_version)
unfolding replace_workspace_snapshot
stale_write_refused db s backup_id now row found unique stale = rw (
    lock_stale db s.workspace_id s.sync_version s.monthly_income row found
      (count_stale db s.workspace_id s.sync_version s.monthly_income row found unique stale))

-- The tables that a write of the budget leaves alone.
pub record KeepsAccess (db after : Database) : Type 0 where
  pub users : after.users ≡ db.users
  pub workspaces : after.workspaces ≡ db.workspaces
  pub members : after.members ≡ db.members
  pub invitations : after.invitations ≡ db.invitations

pub create_categories-KeepsAccess :
    (rows : List Category) (db : Database) {after : Database}
    → create_categories rows db ≡ ok (tt, after)
    → KeepsAccess db after
unfolding create_categories
create_categories-KeepsAccess rows db h = ground arith

pub create_cards-KeepsAccess :
    (rows : List PaymentCard) (db : Database) {after : Database}
    → create_cards rows db ≡ ok (tt, after)
    → KeepsAccess db after
unfolding create_cards
create_cards-KeepsAccess rows db h = ground arith

pub create_costs-KeepsAccess :
    (rows : List FixedCost) (db : Database) {after : Database}
    → create_costs rows db ≡ ok (tt, after)
    → KeepsAccess db after
unfolding create_costs
create_costs-KeepsAccess rows db h = ground arith

pub KeepsAccess-trans : {a b c : Database} → KeepsAccess a b → KeepsAccess b c → KeepsAccess a c
KeepsAccess-trans h k = record {
  users = k.users ∙ h.users;
  workspaces = k.workspaces ∙ h.workspaces;
  members = k.members ∙ h.members;
  invitations = k.invitations ∙ h.invitations;
}

clear-KeepsAccess : (w : ℕ) (db : Database) → KeepsAccess db (clear_budget w db)
unfolding clear_budget
clear-KeepsAccess w db = record {
  users = refl;
  workspaces = refl;
  members = refl;
  invitations = refl;
}

write_budget-KeepsAccess :
    (s : WorkspaceSnapshot) (costs : List FixedCostDto) (db : Database) {after : Database}
    → write_budget s costs db ≡ ok (tt, after)
    → KeepsAccess db after
unfolding write_budget
write_budget-KeepsAccess s costs db h =
    let cleared = clear_budget s.workspace_id db in
    let (u, one, p, rest) = and_then-eq-ok (create_categories s.categories cleared) _ h in
    let (v, two, q, last) = and_then-eq-ok (create_cards s.cards one) _ rest in
    KeepsAccess-trans (clear-KeepsAccess s.workspace_id db) (
      KeepsAccess-trans (create_categories-KeepsAccess s.categories cleared p) (
        KeepsAccess-trans (create_cards-KeepsAccess s.cards one q)
          (create_costs-KeepsAccess (map to_fixed_cost_create_data costs) two last)))

-- The tables of the budget.
abbrev pub IsSameBudget : Database → Database → Type 0
IsSameBudget a b =
    (b.categories ≡ a.categories) × (b.cards ≡ a.cards) × (b.fixed_costs ≡ a.fixed_costs)

create_backup-KeepsAccess :
    (k now : ℕ) (s : WorkspaceSnapshot) (db : Database) {after : Database}
    → create_backup k now s db ≡ ok (tt, after)
    → KeepsAccess db after × IsSameBudget db after
unfolding create_backup
create_backup-KeepsAccess k now s db h =
    let (a, mid, p, rest) =
      and_then-eq-ok
        (planning_archive
          (find (λ (r : PlanningState). r.workspace_id == s.workspace_id) db.planning) db)
        _ h in
    let same =
      planning_archive-state
        (find (λ (r : PlanningState). r.workspace_id == s.workspace_id) db.planning) db p in
    (ground (arith, rest, same), ground (arith, rest, same))

pub get-state :
    (w : ℕ) (db : Database) {out : WorkspaceSnapshot} {after : Database}
    → get_workspace_snapshot w db ≡ ok (out, after)
    → after ≡ db
unfolding get_workspace_snapshot
get-state w db h = ground arith

-- The states that a successful write goes through.
pub record IsReplaced (db : Database) (s : WorkspaceSnapshot) (out : WorkspaceSnapshot)
    (after : Database) : Type 0 where
  pub locked : Database
  pub written : Database
  pub granted : 1 ≤ count_if (is_version_of s.workspace_id s.sync_version) db.workspaces
  pub lock : locked ≡ record db {
    workspaces =
        update_where
          (is_version_of s.workspace_id s.sync_version)
          (advanced s.monthly_income)
          db.workspaces;
  }
  pub valid : all merged_is_valid (merge_costs locked s) ≡ true
  pub write : write_budget s (merge_costs locked s) locked ≡ ok (tt, written)
  pub keeps : KeepsAccess locked after
  pub budget : IsSameBudget written after
  pub read : get_workspace_snapshot s.workspace_id after ≡ ok (out, after)

-- what follows the lock and the check of the merged costs
replace_rest :
    (s : WorkspaceSnapshot) (t : WorkspaceSnapshot) (costs : List FixedCostDto) (k now : ℕ)
    (locked : Database) {out : WorkspaceSnapshot} {after : Database}
    → (write_budget s costs >> (create_backup k now t >> get_workspace_snapshot s.workspace_id))
        locked
      ≡ ok (out, after)
    → (written : Database) × (write_budget s costs locked ≡ ok (tt, written))
      × KeepsAccess locked after
      × IsSameBudget written after
      × (get_workspace_snapshot s.workspace_id after ≡ ok (out, after))
replace_rest s t costs k now locked {out} {after} h =
    let (u, written, p, rest) = and_then-eq-ok (write_budget s costs locked) _ h in
    let (v, mid, q, last) = and_then-eq-ok (create_backup k now t written) _ rest in
    let (keeps, budget) = create_backup-KeepsAccess k now t written q in
    let same = get-state s.workspace_id mid last in
    subst
      (λ x.
        (w : Database) × (write_budget s costs locked ≡ ok (tt, w))
        × KeepsAccess locked x
        × IsSameBudget w x
        × (get_workspace_snapshot s.workspace_id x ≡ ok (out, after)))
      (sym same)
      (
        written,
        p,
        KeepsAccess-trans (write_budget-KeepsAccess s costs locked p) keeps,
        budget,
        last,
      )

pub replace-IsReplaced :
    (db : Database) (s : WorkspaceSnapshot) (k now : ℕ) {out : WorkspaceSnapshot} {after : Database}
    → replace_workspace_snapshot s k now db ≡ ok (out, after)
    → IsReplaced db s out after
unfolding replace_workspace_snapshot
replace-IsReplaced db s k now {out} {after} h =
    let (u, locked, p, rest) =
      and_then-eq-ok (lock_version s.workspace_id s.sync_version s.monthly_income db) _ h in
    let (granted, lock) = lock-result db s.workspace_id s.sync_version s.monthly_income p in
    let costs = merge_costs locked s in
    let (v, same, valid, rest₂) =
      and_then-eq-ok (require (all merged_is_valid costs) snapshot_invalid locked) _ rest in
    let (ok_costs, unchanged) =
      require-result (all merged_is_valid costs) snapshot_invalid locked valid in
    let (written, write, keeps, budget, read) =
      replace_rest s (record s { fixed_costs = costs; sync_version = s.sync_version + 1 }) costs k
        now locked
        (subst
          (λ x.
            (write_budget s costs
                >> (create_backup k now
                      (record s { fixed_costs = costs; sync_version = s.sync_version + 1 })
                    >> get_workspace_snapshot s.workspace_id))
              x
            ≡ ok (out, after))
          unchanged rest₂) in
    record {
      locked = locked;
      written = written;
      granted = granted;
      lock = lock;
      valid = ok_costs;
      write = write;
      keeps = keeps;
      budget = budget;
      read = read;
    }

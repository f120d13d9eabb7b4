-- ===== src/Snapshot/Writes.antt =====
-- What a successful write of a workspace's budget has done (`replaceWorkspaceSnapshot`).
use living_cost_manager.Prelude.{
  ℕ, ◌+◌, ◌≤◌, ◌==◌, some, List, [], ◌∷◌, ◌≡◌, refl, arith, ap, ◌∙◌, find, count_if, update_where,
  count-update_same, Bool-cases, inl, inr,
}
use living_cost_manager.Database.{Workspace, WorkspaceSnapshot, Database, has_workspace_id}
use living_cost_manager.Database.Tx.{ok, err, snapshot_conflict}
use living_cost_manager.Database.Integrity.{IsSound}
use living_cost_manager.Snapshot.{is_version_of, advanced, replace_workspace_snapshot}
use living_cost_manager.Snapshot.Lock.{
  version_of, KeepsAccess, replace-IsReplaced, stale_write_refused,
}

-- the update of the lock, on a table where the id is unique
module _ (w v income : ℕ) where
  none_advanced :
      (rows : List Workspace)
      → count_if (has_workspace_id w) rows ≡ 0
      → count_if (is_version_of w v) rows ≡ 0
  unfolding count_if
  none_advanced [] h = refl
  none_advanced (r ∷ rows) h = ground (arith, none_advanced rows)

  find-advanced :
      (rows : List Workspace) (row : Workspace)
      → find (has_workspace_id w) rows ≡ some row
      → count_if (has_workspace_id w) rows ≤ 1
      → 1 ≤ count_if (is_version_of w v) rows
      → (row.sync_version ≡ v)
        × (find (has_workspace_id w) (update_where (is_version_of w v) (advanced income) rows)
            ≡ some (advanced income row))
  unfolding find count_if update_where
  find-advanced [] row f u g = absurd (omega arith)
  find-advanced (r ∷ rows) row f u g = elim (Bool-cases (r.id == w)) [
    | inl e ↦ (ground (arith, none_advanced rows), ground (arith, none_advanced rows))
    | inr e ↦ (ground (arith, find-advanced rows row), ground (arith, find-advanced rows row))
  ]

keeps_version :
    (db after : Database) (w : ℕ) → KeepsAccess db after → version_of after w ≡ version_of db w
keeps_version db after w k = rw (k.workspaces)

-- A write that succeeds carried the stored version, and leaves the workspace with its name, the
-- income of the write, and the version that follows the stored one.
pub replace_advances :
    (db : Database) (s : WorkspaceSnapshot) (k now : ℕ) (row : Workspace) {out : WorkspaceSnapshot}
    {after : Database}
    → version_of db s.workspace_id ≡ some row
    → count_if (has_workspace_id s.workspace_id) db.workspaces ≤ 1
    → replace_workspace_snapshot s k now db ≡ ok (out, after)
    → (row.sync_version ≡ s.sync_version)
      × (version_of after s.workspace_id
          ≡ some (record {
            id = row.id;
            name = row.name;
            monthly_income = s.monthly_income;
            sync_version = row.sync_version + 1;
          }))
replace_advances db s k now row {after} found unique h =
    let r = replace-IsReplaced db s k now h in
    let (same, next) =
      find-advanced s.workspace_id s.sync_version s.monthly_income db.workspaces row found unique
        r.granted in
    (
      same,
      keeps_version r.locked after s.workspace_id r.keeps
          ∙ ap (λ d. version_of d s.workspace_id) r.lock
          ∙ next,
    )

replace_unique :
    (db : Database) (s : WorkspaceSnapshot) (k now w : ℕ) {out : WorkspaceSnapshot}
    {after : Database}
    → replace_workspace_snapshot s k now db ≡ ok (out, after)
    → count_if (has_workspace_id w) after.workspaces ≡ count_if (has_workspace_id w) db.workspaces
replace_unique db s k now w {after} h =
    let r = replace-IsReplaced db s k now h in
    ap (count_if (has_workspace_id w))
      (r.keeps.workspaces ∙ ap (λ (d : Database). d.workspaces) r.lock)
    ∙ count-update_same (has_workspace_id w) (is_version_of s.workspace_id s.sync_version)
        (advanced s.monthly_income) db.workspaces (λ row. refl)

-- Of two writes that were prepared from the same version, only the first to come succeeds: the
-- second is refused and told the version that the first one left.
pub lost_update_refused :
    (db : Database) (first second : WorkspaceSnapshot) (k now k₂ later : ℕ) (row : Workspace)
    {out : WorkspaceSnapshot} {after : Database}
    → version_of db first.workspace_id ≡ some row
    → count_if (has_workspace_id first.workspace_id) db.workspaces ≤ 1
    → second.workspace_id ≡ first.workspace_id
    → second.sync_version ≡ first.sync_version
    → replace_workspace_snapshot first k now db ≡ ok (out, after)
    → replace_workspace_snapshot second k₂ later after
      ≡ err (snapshot_conflict (first.sync_version + 1))
lost_update_refused db first second k now k₂ later row {after} found unique same_id same_version h =
    let (same, next) = replace_advances db first k now row found unique h in
    stale_write_refused after second k₂ later (advanced first.monthly_income row)
      (rw (same_id, next))
      (rw same_id (omega (arith, unique, replace_unique db first k now first.workspace_id h)))
      (ground arith)
    ∙ rw same

-- A write of the budget keeps the database sound.
pub replace-IsSound :
    (db : Database) (s : WorkspaceSnapshot) (k now : ℕ) {out : WorkspaceSnapshot} {after : Database}
    → IsSound db
    → replace_workspace_snapshot s k now db ≡ ok (out, after)
    → IsSound after
replace-IsSound db s k now {after} sound h =
    let r = replace-IsReplaced db s k now h in
    let members : after.members ≡ db.members =
      r.keeps.members ∙ ap (λ (d : Database). d.members) r.lock in
    let invitations : after.invitations ≡ db.invitations =
      r.keeps.invitations ∙ ap (λ (d : Database). d.invitations) r.lock in
    record {
      keys = rw members sound.keys;
      owners =
          λ w has. rw members (sound.owners w (omega (arith, has, replace_unique db s k now w h)));
      invitation_ids = rw invitations sound.invitation_ids;
      one_pending = rw invitations sound.one_pending;
    }

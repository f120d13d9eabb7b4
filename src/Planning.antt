-- ===== src/Planning.antt =====
-- apps/api/src/services/planning.ts: the planning of a workspace, read and written under two
-- version numbers, that of the budget and its own.
pub mod Stored
pub mod Revisions
use living_cost_manager.Prelude.{
  ℕ, ◌+◌, ◌-◌, Bool, true, false, not, ◌&&◌, ◌||◌, Option, none, some, List, [], ◌∷◌, ◌++◌, ◌==◌,
  leb, if◌then◌else◌, find, any, count_if, update_where,
}
use living_cost_manager.Database.{
  WorkspaceRole, owner, editor, viewer, User, Member, Workspace, PlanningState, Archive, Database,
  is_membership, has_user_id, has_workspace_id,
}
use living_cost_manager.Database.Tx.{
  Tx, pure, gets, modify, require, or_fail, ◌>>=◌, ◌>>◌, planning_forbidden, planning_conflict,
  foreign_key_violation, missing_row, invalid_request,
}
use living_cost_manager.PlanningData.{PlanningData, max_int, parse_planning, default_planning}
use living_cost_manager.PlanningStorage.{planning_archive}
use living_cost_manager.Snapshot.{get_workspace_snapshot, new_backup}

pub record PutPlanning : Type 0 where
  pub expected_revision : ℕ
  pub expected_snapshot_version : ℕ
  pub content : PlanningData

pub record WorkspacePlanning : Type 0 where
  pub workspace_id : ℕ
  pub revision : ℕ
  pub current_snapshot_version : ℕ
  pub content : PlanningData

abbrev pub are_versions : PutPlanning → Bool
are_versions input =
    leb input.expected_revision (max_int - 1) && leb input.expected_snapshot_version max_int

abbrev pub put_of : Bool → PutPlanning → Option PlanningData → Option PutPlanning
put_of true input (some content) = some (record input { content = content })
put_of true input none = none
put_of false input content = none

-- `putWorkspacePlanningSchema`: the request with its parsed planning
unfoldable pub parse_put : PutPlanning → Option PutPlanning
unfolding parse_planning
parse_put input = put_of (are_versions input) input (parse_planning input.content)

-- `role === "owner"` or `role === "editor"`
abbrev is_writer : WorkspaceRole → Bool
is_writer WorkspaceRole.owner = true
is_writer WorkspaceRole.editor = true
is_writer WorkspaceRole.viewer = false

abbrev pub may_access : Bool → Option Member → Bool
may_access write none = false
may_access write (some m) = not write || is_writer m.role

-- `user?.emailVerifiedAt`
abbrev pub is_verified : Option User → Bool
is_verified none = false
is_verified (some u) = elim u.email_verified_at [ none ↦ false | some t ↦ true ]

unfoldable pub authorize : (user w : ℕ) → (write : Bool) → Tx (Unit {0})
authorize u w write = do
  member ← gets (λ db. find (is_membership w u) db.members)
  require (may_access write member) planning_forbidden
  user ← gets (λ db. find (has_user_id u) db.users)
  require (not write || is_verified user) planning_forbidden

abbrev pub is_planning_of : ℕ → PlanningState → Bool
is_planning_of w row = row.workspace_id == w

abbrev pub planning_row : Database → ℕ → Option PlanningState
planning_row db w = find (is_planning_of w) db.planning

-- `existing?.revision ?? 0`, and `stored?.revision ?? 0`
abbrev pub revision_of : Option PlanningState → ℕ
revision_of none = 0
revision_of (some row) = row.revision

abbrev archived_revision : Option Archive → ℕ
archived_revision none = 0
archived_revision (some a) = a.revision

abbrev archived_content : Option Archive → PlanningData
archived_content none = default_planning
archived_content (some a) = a.content

unfoldable pub get_workspace_planning : (user w : ℕ) → Tx WorkspacePlanning
get_workspace_planning u w = do
  authorize u w false
  found ← gets (λ db. find (has_workspace_id w) db.workspaces)
  workspace ← or_fail found missing_row
  row ← gets (λ db. planning_row db w)
  stored ← planning_archive row
  pure (record {
    workspace_id = w;
    revision = archived_revision stored;
    current_snapshot_version = workspace.sync_version;
    content = archived_content stored;
  })

abbrev pub is_revision_of : ℕ → ℕ → PlanningState → Bool
is_revision_of w revision row = (row.workspace_id == w) && (row.revision == revision)

abbrev pub rewritten : ℕ → PlanningData → PlanningState → PlanningState
rewritten revision content row = record row { revision = revision; payload = some content }

-- the update of the row of `expected`, or the first row of the workspace; a taken key is a conflict
unfoldable pub store_planning : ℕ → Option PlanningState → ℕ → PlanningData → Tx (Unit {0})
store_planning w (some row) expected content = do
  count ← gets (λ db. count_if (is_revision_of w expected) db.planning)
  modify (λ db. record db {
    planning =
        update_where (is_revision_of w expected) (rewritten (expected + 1) content) db.planning;
  })
  require (count == 1) planning_conflict
store_planning w none expected content = do
  taken ← gets (λ db. any (is_planning_of w) db.planning)
  require (not taken) planning_conflict
  linked ← gets (λ db. any (has_workspace_id w) db.workspaces)
  require linked foreign_key_violation
  modify (λ db. record db {
    planning =
        db.planning
        ++ record { workspace_id = w; revision = expected + 1; payload = some content } ∷ [];
  })

abbrev pub is_at_version : ℕ → Option Workspace → Bool
is_at_version v none = false
is_at_version v (some row) = row.sync_version == v

-- the snapshot with the new planning
abbrev pub archive_planning : ℕ → (backup_id now : ℕ) → Archive → Tx (Unit {0})
archive_planning w k now archive = do
  snapshot ← get_workspace_snapshot w
  modify (λ db. record db { backups = db.backups ++ new_backup k now snapshot (some archive) ∷ [] })

-- the transaction on a parsed request
unfoldable pub write_planning :
    (user w : ℕ) → PutPlanning → (backup_id now : ℕ) → Tx WorkspacePlanning
write_planning u w parsed k now = do
  authorize u w true
  workspace ← gets (λ db. find (has_workspace_id w) db.workspaces)
  require (is_at_version parsed.expected_snapshot_version workspace) planning_conflict
  existing ← gets (λ db. planning_row db w)
  checked ← planning_archive existing
  require (revision_of existing == parsed.expected_revision) planning_conflict
  store_planning w existing parsed.expected_revision parsed.content
  archive_planning w k now
      (record { revision = parsed.expected_revision + 1; content = parsed.content })
  pure (record {
    workspace_id = w;
    revision = parsed.expected_revision + 1;
    current_snapshot_version = parsed.expected_snapshot_version;
    content = parsed.content;
  })

unfoldable pub put_workspace_planning :
    (user w : ℕ) → PutPlanning → (backup_id now : ℕ) → Tx WorkspacePlanning
unfolding parse_put write_planning
put_workspace_planning u w input k now = do
  parsed ← or_fail (parse_put input) invalid_request
  write_planning u w parsed k now

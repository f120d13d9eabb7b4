-- ===== src/Planning/Revisions.antt =====
-- What a write of a workspace's planning needs and leaves (`putWorkspacePlanning`).
use living_cost_manager.Prelude.{
  ℕ, ◌+◌, map, all, trim, Option, none, leb, refl, Bool, true, false, some, ◌≡◌, ◌≢◌, ◌∙◌, ap,
  arith, find, Option-cases, inl, inr,
}
use living_cost_manager.Database.{
  WorkspaceRole, Member, Database, has_workspace_id, has_user_id, is_membership,
}
use living_cost_manager.Database.Tx.{or_fail, ok, and_then-eq-ok, or_fail-ok, invalid_request}
use living_cost_manager.PlanningData.{
  PlanningData, Reserve, has_ids, parse_planning-trimmed, max_int, parse_planning,
  parse_planning_idem,
}
use living_cost_manager.PlanningStorage.{planning_archive}
use living_cost_manager.Database.Integrity.{IsSound}
use living_cost_manager.Planning.{
  PutPlanning, WorkspacePlanning, is_verified, authorize, planning_row, revision_of, are_versions,
  put_of, parse_put, get_workspace_planning, put_workspace_planning,
}
use living_cost_manager.Planning.Stored.{new_row, IsStored, write-IsStored}

-- what the request has been parsed to
put_of-some :
    (b : Bool) (input : PutPlanning) (content : Option PlanningData) {q : PutPlanning}
    → put_of b input content ≡ some q
    → (b ≡ true)
      × (content ≡ some q.content)
      × (q.expected_revision ≡ input.expected_revision)
      × (q.expected_snapshot_version ≡ input.expected_snapshot_version)
put_of-some true input (some content) h = (refl, ground arith, ground arith, ground arith)
put_of-some true input none h = cc
put_of-some false input content h = cc

record IsAnswered (u w : ℕ) (input : PutPlanning) (db : Database) (out : WorkspacePlanning)
    (after : Database) : Type 0 where
  request : PutPlanning
  versions : are_versions input ≡ true
  content : parse_planning input.content ≡ some request.content
  revision : request.expected_revision ≡ input.expected_revision
  snapshot_version : request.expected_snapshot_version ≡ input.expected_snapshot_version
  stored : IsStored u w request db out after

put-IsAnswered :
    (u w : ℕ) (input : PutPlanning) (k now : ℕ) (db : Database) {out : WorkspacePlanning}
    {after : Database}
    → put_workspace_planning u w input k now db ≡ ok (out, after)
    → IsAnswered u w input db out after
unfolding put_workspace_planning parse_put
put-IsAnswered u w input k now db {out} {after} h =
    let (q, mid, p, rest) = and_then-eq-ok (or_fail (parse_put input) invalid_request db) _ h in
    let (parses, same) = or_fail-ok (parse_put input) invalid_request db p in
    let (versions, content, revision, version) =
      put_of-some (are_versions input) input (parse_planning input.content) parses in
    record {
      request = q;
      versions = versions;
      content = content;
      revision = revision;
      snapshot_version = version;
      stored = write-IsStored u w q k now db (rw same at rest);
    }

-- A write that succeeds was made by an owner or editor of the workspace with a verified address.
pub put_needs_writer :
    (u w : ℕ) (input : PutPlanning) (k now : ℕ) (db : Database) {out : WorkspacePlanning}
    {after : Database}
    → put_workspace_planning u w input k now db ≡ ok (out, after)
    → (m : Member) × (find (is_membership w u) db.members ≡ some m)
      × (m.role ≢ WorkspaceRole.viewer)
      × (is_verified (find (has_user_id u) db.users) ≡ true)
put_needs_writer u w input k now db h =
    let p = put-IsAnswered u w input k now db h in
    elim (Option-cases (find (is_membership w u) db.members)) [
      | inl missing ↦ absurd (ground (arith, p.stored.access, missing))
      | inr (m, found) ↦
          (m, found, λ e. ground (arith, p.stored.access, found, e), p.stored.verified)
    ]

-- Of two writes of a workspace's planning that were prepared from the same revision, the second
-- cannot succeed after the first, whoever sends it.
pub planning_lost_update :
    (u u' w : ℕ) (first second : PutPlanning) (k now k₂ later : ℕ) (db : Database)
    {out out' : WorkspacePlanning} {after last : Database}
    → second.expected_revision ≡ first.expected_revision
    → put_workspace_planning u w first k now db ≡ ok (out, after)
    → put_workspace_planning u' w second k₂ later after ≢ ok (out', last)
planning_lost_update u u' w first second k now k₂ later db {after = after} same h g =
    let p = put-IsAnswered u w first k now db h in
    let q = put-IsAnswered u' w second k₂ later after g in
    let e : revision_of (planning_row after w) ≡ first.expected_revision + 1 =
      rw (p.stored.stored, p.revision) in
    omega (arith, q.stored.revision, q.revision, e, same)

archive-new_row :
    (w : ℕ) (input : PutPlanning) (db : Database)
    → leb (input.expected_revision + 1) max_int ≡ true
    → parse_planning input.content ≡ some input.content
    → planning_archive (some (new_row w input)) db
      ≡ ok (some (record { revision = input.expected_revision + 1; content = input.content }), db)
unfolding planning_archive
archive-new_row w input db bound e =
    let low : leb 1 (input.expected_revision + 1) ≡ true = ground arith in rw (low, bound, e)

-- A write that succeeds answers the planning of the request with its ids trimmed, none of them
-- blank or longer than 200, under the revision after the expected one and the version of the budget
-- that it expected; and this is what every member of the workspace then reads.
pub put_then_get :
    (u w : ℕ) (input : PutPlanning) (k now : ℕ) (db : Database) {out : WorkspacePlanning}
    {after : Database}
    → put_workspace_planning u w input k now db ≡ ok (out, after)
    → (reader : ℕ) {m : Member} → find (is_membership w reader) after.members ≡ some m
    → (out.content ≡ record input.content {
      reserves =
          map
            (λ (r : Reserve). record r { id = trim r.id; cost_id = trim r.cost_id })
            input.content.reserves;
    })
      × (all has_ids out.content.reserves ≡ true)
      × (out.revision ≡ input.expected_revision + 1)
      × (out.current_snapshot_version ≡ input.expected_snapshot_version)
      × (get_workspace_planning reader w after ≡ ok (out, after))
unfolding get_workspace_planning authorize
put_then_get u w input k now db {out} {after = after} h reader found =
    let p = put-IsAnswered u w input k now db h in
    let q = p.request in
    let s = p.stored in
    let bound : leb (q.expected_revision + 1) max_int ≡ true =
      ground (arith, p.versions, p.revision) in
    elim (Option-cases (find (has_workspace_id w) db.workspaces)) [
      | inl missing ↦ absurd (ground (arith, s.version, missing))
      | inr (row, known) ↦
          let version : row.sync_version ≡ q.expected_snapshot_version =
            ground (arith, rw known at s.version) in
          let there : find (has_workspace_id w) after.workspaces ≡ some row =
            ap (find (has_workspace_id w)) s.workspaces ∙ known in
          let parsed = parse_planning_idem input.content p.content in
          let (trims, ids) = parse_planning-trimmed input.content p.content in
          (
            rw s.answer trims,
            rw s.answer ids,
            rw s.answer (ap (λ n. n + 1) p.revision),
            rw s.answer p.snapshot_version,
            rw (found, there, s.stored, archive-new_row w q after bound parsed, version, s.answer),
          )
    ]

-- A write of the planning keeps the database sound.
pub put-IsSound :
    (u w : ℕ) (input : PutPlanning) (k now : ℕ) (db : Database) {out : WorkspacePlanning}
    {after : Database}
    → IsSound db
    → put_workspace_planning u w input k now db ≡ ok (out, after)
    → IsSound after
put-IsSound u w input k now db s h =
    let p = put-IsAnswered u w input k now db h in
    record {
      keys = rw p.stored.members s.keys;
      owners = rw (p.stored.members, p.stored.workspaces) s.owners;
      invitation_ids = rw p.stored.invitations s.invitation_ids;
      one_pending = rw p.stored.invitations s.one_pending;
    }

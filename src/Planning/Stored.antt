-- ===== src/Planning/Stored.antt =====
-- What the transaction of `putWorkspacePlanning` has found and left.
use living_cost_manager.Prelude.{
  ℕ, ◌+◌, refl, Bool, true, not, ◌||◌, some, List, [], ◌∷◌, ◌++◌, ◌==◌, ◌≡◌, ◌∙◌, ap, arith, find,
  update_where, find_sound, find-none, find-append_new, Option-cases, Bool-cases, inl, inr,
}
use living_cost_manager.Database.{
  PlanningState, Archive, Database, has_workspace_id, has_user_id, is_membership,
}
use living_cost_manager.Database.Tx.{
  Result, ok, require, require-result, and_then-eq-ok, planning_conflict,
}
use living_cost_manager.PlanningData.{PlanningData}
use living_cost_manager.PlanningStorage.{planning_archive, planning_archive-state}
use living_cost_manager.Snapshot.{get_workspace_snapshot}
use living_cost_manager.Snapshot.Lock.{get-state}
use living_cost_manager.Planning.{
  PutPlanning, WorkspacePlanning, may_access, is_verified, authorize, is_planning_of, planning_row,
  revision_of, write_planning, is_revision_of, rewritten, store_planning, is_at_version,
  archive_planning,
}

authorize-result :
    (u w : ℕ) (write : Bool) (db : Database) {after : Database}
    → authorize u w write db ≡ ok (tt, after)
    → (after ≡ db)
      × (may_access write (find (is_membership w u) db.members) ≡ true)
      × (not write || is_verified (find (has_user_id u) db.users) ≡ true)
unfolding authorize
authorize-result u w write db h = (ground arith, ground arith, ground arith)

archive-state :
    (w k now : ℕ) (a : Archive) (db : Database) {after : Database}
    → archive_planning w k now a db ≡ ok (tt, after)
    → (after.planning ≡ db.planning)
      × (after.workspaces ≡ db.workspaces)
      × (after.members ≡ db.members)
      × (after.invitations ≡ db.invitations)
      × (after.users ≡ db.users)
archive-state w k now a db h =
    let (s, mid, p, rest) = and_then-eq-ok (get_workspace_snapshot w db) _ h in
    let same = get-state w db p in
    (
      ground (arith, same, rest),
      ground (arith, same, rest),
      ground (arith, same, rest),
      ground (arith, same, rest),
      ground (arith, same, rest),
    )

-- the row that a write leaves
abbrev pub new_row : ℕ → PutPlanning → PlanningState
new_row w input = record {
  workspace_id = w;
  revision = input.expected_revision + 1;
  payload = some input.content;
}

find-rewritten :
    (w expected : ℕ) (content : PlanningData) (rows : List PlanningState) {row : PlanningState}
    → find (is_planning_of w) rows ≡ some row
    → row.revision ≡ expected
    → find
        (is_planning_of w)
        (update_where (is_revision_of w expected) (rewritten (expected + 1) content) rows)
      ≡ some (rewritten (expected + 1) content row)
unfolding find update_where
find-rewritten w expected content [] h e = absurd (ground arith)
find-rewritten w expected content (r ∷ rows) {row = row} h e =
    elim (Bool-cases (r.workspace_id == w)) [
      | inl p ↦ ground (arith, h, e, p)
      | inr p ↦ ground (arith, h, e, p, find-rewritten w expected content rows {row = row})
    ]

store-result :
    (w : ℕ) (input : PutPlanning) (db : Database) {after : Database}
    → revision_of (planning_row db w) ≡ input.expected_revision
    → store_planning w (planning_row db w) input.expected_revision input.content db ≡ ok (tt, after)
    → (planning_row after w ≡ some (new_row w input))
      × (after.workspaces ≡ db.workspaces)
      × (after.members ≡ db.members)
      × (after.invitations ≡ db.invitations)
      × (after.users ≡ db.users)
unfolding store_planning
store-result w input db {after} e h = elim (Option-cases (planning_row db w)) [
  | inl missing ↦
      let e₂ : after ≡ record db { planning = db.planning ++ new_row w input ∷ [] } =
        ground (arith, h, missing) in
      (
        rw e₂ (
            find-append_new (is_planning_of w) db.planning (new_row w input)
              (find-none (is_planning_of w) db.planning missing) (ground arith)),
        rw e₂,
        rw e₂,
        rw e₂,
        rw e₂,
      )
  | inr (row, found) ↦
      let e₂ : after ≡ record db {
        planning =
            update_where (is_revision_of w input.expected_revision)
              (rewritten (input.expected_revision + 1) input.content) db.planning;
      } =
        ground (arith, h, found) in
      let id : row.workspace_id ≡ w =
        ground (arith, find_sound (is_planning_of w) db.planning found) in
      (
        rw e₂ (
            find-rewritten w input.expected_revision input.content db.planning found
              (ground (arith, e, found))
            ∙ rw id),
        rw e₂,
        rw e₂,
        rw e₂,
        rw e₂,
      )
]

-- What a write that succeeds has found and left.
pub record IsStored (u w : ℕ) (input : PutPlanning) (db : Database) (out : WorkspacePlanning)
    (after : Database) : Type 0 where
  pub access : may_access true (find (is_membership w u) db.members) ≡ true
  pub verified : is_verified (find (has_user_id u) db.users) ≡ true
  pub version :
      is_at_version input.expected_snapshot_version (find (has_workspace_id w) db.workspaces) ≡ true
  pub revision : revision_of (planning_row db w) ≡ input.expected_revision
  pub stored : planning_row after w ≡ some (new_row w input)
  pub workspaces : after.workspaces ≡ db.workspaces
  pub members : after.members ≡ db.members
  pub invitations : after.invitations ≡ db.invitations
  pub users : after.users ≡ db.users
  pub answer : out ≡ record {
    workspace_id = w;
    revision = input.expected_revision + 1;
    current_snapshot_version = input.expected_snapshot_version;
    content = input.content;
  }

ok_inj {ℓ} :
    {A : Type ℓ} {a b : A} {d e : Database}
    → ◌≡◌ {A = Result (A × Database)} (ok (a, d)) (ok (b, e))
    → (b ≡ a) × (e ≡ d)
ok_inj h = (ground arith, ground arith)

-- the databases between the steps, up to the write, are the first
put_parts :
    (u w : ℕ) (input : PutPlanning) (db d₁ d₂ d₃ d₅ d₆ after : Database) {out : WorkspacePlanning}
    → d₁ ≡ db
    → d₂ ≡ db
    → d₃ ≡ db
    → d₅ ≡ db
    → may_access true (find (is_membership w u) d₁.members) ≡ true
    → is_verified (find (has_user_id u) d₁.users) ≡ true
    → is_at_version input.expected_snapshot_version (find (has_workspace_id w) d₂.workspaces) ≡ true
    → (revision_of (planning_row d₃ w) == input.expected_revision) ≡ true
    → store_planning w (planning_row d₃ w) input.expected_revision input.content d₅ ≡ ok (tt, d₆)
    → (after.planning ≡ d₆.planning)
      × (after.workspaces ≡ d₆.workspaces)
      × (after.members ≡ d₆.members)
      × (after.invitations ≡ d₆.invitations)
      × (after.users ≡ d₆.users)
    → out ≡ record {
      workspace_id = w;
      revision = input.expected_revision + 1;
      current_snapshot_version = input.expected_snapshot_version;
      content = input.content;
    }
    → IsStored u w input db out after
put_parts u w input db d₁ d₂ d₃ d₅ d₆ after e₁ e₂ e₃ e₅ access verified version revision p kept
      answer =
    let same : revision_of (planning_row db w) ≡ input.expected_revision =
      ground (arith, rw e₃ at revision) in
    let (stored, workspaces, members, invitations, users) =
      store-result w input db same (rw (e₃, e₅) at p) in
    record {
      access = rw e₁ at access;
      verified = rw e₁ at verified;
      version = rw e₂ at version;
      revision = same;
      stored = ap (find (is_planning_of w)) kept.0 ∙ stored;
      workspaces = kept.1 ∙ workspaces;
      members = kept.2 ∙ members;
      invitations = kept.3 ∙ invitations;
      users = kept.4 ∙ users;
      answer = answer;
    }

pub write-IsStored :
    (u w : ℕ) (input : PutPlanning) (k now : ℕ) (db : Database) {out : WorkspacePlanning}
    {after : Database}
    → write_planning u w input k now db ≡ ok (out, after)
    → IsStored u w input db out after
unfolding write_planning
write-IsStored u w input k now db {out} {after} h =
    let (a₂, d₂, p₂, h₂) = and_then-eq-ok (authorize u w true db) _ h in
    let (same₂, access, verified) = authorize-result u w true db p₂ in
    let at =
      is_at_version input.expected_snapshot_version (find (has_workspace_id w) d₂.workspaces) in
    let (a₃, d₃, p₃, h₃) = and_then-eq-ok (require at planning_conflict d₂) _ h₂ in
    let (version, same₃) = require-result at planning_conflict d₂ p₃ in
    let row = planning_row d₃ w in
    let (a₄, d₄, p₄, h₄) = and_then-eq-ok (planning_archive row d₃) _ h₃ in
    let same₄ = planning_archive-state row d₃ p₄ in
    let (a₅, d₅, p₅, h₅) =
      and_then-eq-ok (require (revision_of row == input.expected_revision) planning_conflict d₄) _
        h₄ in
    let (revision, same₅) =
      require-result (revision_of row == input.expected_revision) planning_conflict d₄ p₅ in
    let (a₆, d₆, p₆, h₆) =
      and_then-eq-ok (store_planning w row input.expected_revision input.content d₅) _ h₅ in
    let (a₇, d₇, p₇, h₇) =
      and_then-eq-ok
        (archive_planning w k now
          (record { revision = input.expected_revision + 1; content = input.content }) d₆)
        _ h₆ in
    let (kept, spaces, members, invitations, users) = archive-state w k now _ d₆ p₇ in
    let e₂ : d₂ ≡ db = same₂ in
    let e₃ : d₃ ≡ db = same₃ ∙ e₂ in
    let e₅ : d₅ ≡ db = same₅ ∙ same₄ ∙ e₃ in
    let (answer, end) = ok_inj h₇ in
    put_parts u w input db db d₂ d₃ d₅ d₆ after refl e₂ e₃ e₅ access verified version revision p₆
      (
        ap (λ (d : Database). d.planning) end ∙ kept,
        ap (λ (d : Database). d.workspaces) end ∙ spaces,
        ap (λ (d : Database). d.members) end ∙ members,
        ap (λ (d : Database). d.invitations) end ∙ invitations,
        ap (λ (d : Database). d.users) end ∙ users,
      )
      answer

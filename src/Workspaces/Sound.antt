-- ===== src/Workspaces/Sound.antt =====
-- A new workspace has an owner: creation and renaming keep the database sound.
use living_cost_manager.Prelude.{
  ℕ, ◌≤◌, Bool, false, [], ◌∷◌, ◌++◌, Text, ◌≡◌, refl, arith, update_where, count_if, count-append,
  count-update_same,
}
use living_cost_manager.Database.{
  Workspace, Database, WorkspaceSnapshot, has_workspace_id, is_owner_of,
}
use living_cost_manager.Database.Tx.{ok, and_then-eq-ok, or_fail, or_fail-ok, invalid_request}
use living_cost_manager.Database.Inserts.{insert_member-IsInserted, IsInserted-HasKeys}
use living_cost_manager.Database.Integrity.{IsSound, HasKeys}
use living_cost_manager.Membership.{WorkspaceDto}
use living_cost_manager.Snapshot.{
  create_categories, create_cards, create_costs, get_workspace_snapshot,
}
use living_cost_manager.Snapshot.Lock.{
  KeepsAccess, KeepsAccess-trans, create_categories-KeepsAccess, create_cards-KeepsAccess,
  create_costs-KeepsAccess, get-state,
}
use living_cost_manager.Workspaces.Requests.{parse_name, parse_create}
use living_cost_manager.Workspaces.{
  write_workspace, write_name, NewIds, insert_workspace, assert_can_create_workspace,
  found_workspace, fill_workspace, create_user_workspace, rename_user_workspace, new_workspace,
  owner_row_of, is_owned_role,
}

pub insert_workspace-result :
    (row : Workspace) (db : Database) {after : Database}
    → insert_workspace row db ≡ ok (tt, after)
    → after ≡ record db { workspaces = db.workspaces ++ row ∷ [] }
unfolding insert_workspace
insert_workspace-result row db h = ground arith

pub assert-state :
    (paid : ℕ → Database → Bool) (u : ℕ) (db : Database) {after : Database}
    → assert_can_create_workspace paid u db ≡ ok (tt, after)
    → (after ≡ db) × (paid u db ≡ false → count_if (is_owned_role u) db.members ≡ 0)
unfolding assert_can_create_workspace
assert-state paid u db h = (ground arith, λ unpaid. ground arith)

-- the new row's workspace gets its owner
new_owner :
    (row : Workspace) (k u : ℕ) (db : Database) (w : ℕ)
    → IsSound db
    → 1 ≤ count_if (has_workspace_id w) (db.workspaces ++ row ∷ [])
    → 1 ≤ count_if (is_owner_of w) (db.members ++ owner_row_of k row.id u ∷ [])
unfolding count_if
new_owner row k u db w s has = ground (
  arith,
  s.owners w,
  count-append (has_workspace_id w) db.workspaces (row ∷ []),
  count-append (is_owner_of w) db.members (owner_row_of k row.id u ∷ []),
)

pub found_workspace-IsSound :
    (row : Workspace) (k u : ℕ) (db : Database) {after : Database}
    → IsSound db
    → found_workspace row k u db ≡ ok (tt, after)
    → IsSound after
unfolding found_workspace
found_workspace-IsSound row k u db s h =
    let (t, mid, p, rest) = and_then-eq-ok (insert_workspace row db) _ h in
    let same = insert_workspace-result row db p in
    let i = insert_member-IsInserted mid (owner_row_of k row.id u) rest in
    let keys : HasKeys mid.members = rw same s.keys in
    record {
      keys = IsInserted-HasKeys mid (owner_row_of k row.id u) keys i;
      owners = rw (i.result, same) (λ w has. new_owner row k u db w s has);
      invitation_ids = rw (i.result, same) s.invitation_ids;
      one_pending = rw (i.result, same) s.one_pending;
    }

pub KeepsAccess-IsSound : {db after : Database} → KeepsAccess db after → IsSound db → IsSound after
KeepsAccess-IsSound k s = record {
  keys = rw k.members s.keys;
  owners = rw (k.members, k.workspaces) s.owners;
  invitation_ids = rw k.invitations s.invitation_ids;
  one_pending = rw k.invitations s.one_pending;
}

fill_workspace-KeepsAccess :
    (w : ℕ) (budget : WorkspaceSnapshot) (k now : ℕ) (db : Database) {out : WorkspaceSnapshot}
    {after : Database}
    → fill_workspace w budget k now db ≡ ok (out, after)
    → KeepsAccess db after
unfolding fill_workspace
fill_workspace-KeepsAccess w budget k now db {out} {after} h =
    let (a, one, p, rest) = and_then-eq-ok (create_categories _ db) _ h in
    let (b, two, q, rest₂) = and_then-eq-ok (create_cards _ one) _ rest in
    let (c, three, r, rest₃) = and_then-eq-ok (create_costs _ two) _ rest₂ in
    let (d, four, t, last) = and_then-eq-ok (get_workspace_snapshot w three) _ rest₃ in
    let same = get-state w three t in
    let kept : KeepsAccess three after = record {
      users = ground (arith, last, same);
      workspaces = ground (arith, last, same);
      members = ground (arith, last, same);
      invitations = ground (arith, last, same);
    } in
    KeepsAccess-trans (create_categories-KeepsAccess _ db p) (
      KeepsAccess-trans (create_cards-KeepsAccess _ one q)
        (KeepsAccess-trans (create_costs-KeepsAccess _ two r) kept))

-- what a creation goes through
record IsCreated (paid : ℕ → Database → Bool) (u : ℕ) (name : Text) (budget : WorkspaceSnapshot)
    (ids : NewIds) (db after : Database) : Type 0 where
  founded : Database
  allowed : assert_can_create_workspace paid u db ≡ ok (tt, db)
  found :
      found_workspace (new_workspace ids.workspace name budget.monthly_income) ids.member u db
      ≡ ok (tt, founded)
  kept : KeepsAccess founded after

create-IsCreated :
    (paid : ℕ → Database → Bool) (u : ℕ) (name : Text) (budget : WorkspaceSnapshot) (ids : NewIds)
    (db : Database) {out : WorkspaceDto × WorkspaceSnapshot} {after : Database}
    → write_workspace paid u name budget ids db ≡ ok (out, after)
    → IsCreated paid u name budget ids db after
unfolding write_workspace
create-IsCreated paid u name budget ids db {out} {after} h =
    let (a, one, p, rest) = and_then-eq-ok (assert_can_create_workspace paid u db) _ h in
    let (same, free) = assert-state paid u db p in
    let (b, two, q, rest₂) = and_then-eq-ok (found_workspace _ ids.member u one) _ rest in
    let (c, three, r, last) =
      and_then-eq-ok (fill_workspace ids.workspace budget ids.backup ids.now two) _ rest₂ in
    let end : after ≡ three = ground arith in
    record {
      founded = two;
      allowed = rw same at p;
      found = rw same at q;
      kept = rw end (fill_workspace-KeepsAccess ids.workspace budget ids.backup ids.now two r);
    }

-- a parsed request, and the transaction on it
create-parsed :
    (paid : ℕ → Database → Bool) (u : ℕ) (name : Text) (budget : WorkspaceSnapshot) (ids : NewIds)
    (db : Database) {out : WorkspaceDto × WorkspaceSnapshot} {after : Database}
    → create_user_workspace paid u name budget ids db ≡ ok (out, after)
    → (parsed : Text) × (write_workspace paid u parsed budget ids db ≡ ok (out, after))
unfolding create_user_workspace
create-parsed paid u name budget ids db h =
    let (parsed, one, p, rest) =
      and_then-eq-ok (or_fail (parse_create name budget) invalid_request db) _ h in
    let (known, same) = or_fail-ok (parse_create name budget) invalid_request db p in
    (parsed, rw same at rest)

-- A new workspace has an owner, and every other one keeps its own.
pub create_user_workspace-IsSound :
    (paid : ℕ → Database → Bool) (u : ℕ) (name : Text) (budget : WorkspaceSnapshot) (ids : NewIds)
    (db : Database) {out : WorkspaceDto × WorkspaceSnapshot} {after : Database}
    → IsSound db
    → create_user_workspace paid u name budget ids db ≡ ok (out, after)
    → IsSound after
create_user_workspace-IsSound paid u name budget ids db s h =
    let (parsed, g) = create-parsed paid u name budget ids db h in
    let c = create-IsCreated paid u parsed budget ids db g in
    KeepsAccess-IsSound c.kept (found_workspace-IsSound _ ids.member u db s c.found)

-- A creation by a user without paid access succeeds only if the user owned no workspace, and
-- leaves the user the owner of exactly one.
pub free_limit :
    (paid : ℕ → Database → Bool) (u : ℕ) (name : Text) (budget : WorkspaceSnapshot) (ids : NewIds)
    (db : Database) {out : WorkspaceDto × WorkspaceSnapshot} {after : Database}
    → paid u db ≡ false
    → create_user_workspace paid u name budget ids db ≡ ok (out, after)
    → (count_if (is_owned_role u) db.members ≡ 0) × (count_if (is_owned_role u) after.members ≡ 1)
unfolding found_workspace count_if
free_limit paid u name budget ids db unpaid h =
    let (parsed, g) = create-parsed paid u name budget ids db h in
    let c = create-IsCreated paid u parsed budget ids db g in
    let row = new_workspace ids.workspace parsed budget.monthly_income in
    let none_owned = (assert-state paid u db c.allowed).1 unpaid in
    let (t, mid, p, rest) = and_then-eq-ok (insert_workspace row db) _ c.found in
    let same = insert_workspace-result row db p in
    let i = insert_member-IsInserted mid (owner_row_of ids.member row.id u) rest in
    (
      none_owned,
      rw (c.kept.members, i.result, same)
          (ground (
            arith,
            none_owned,
            count-append (is_owned_role u) db.members (owner_row_of ids.member row.id u ∷ []),
          )),
    )

write_name-IsSound :
    (db : Database) (u w : ℕ) (name : Text) {out : WorkspaceDto} {after : Database}
    → IsSound db
    → write_name u w name db ≡ ok (out, after)
    → IsSound after
unfolding write_name
write_name-IsSound db u w name {out} {after} s h =
    let e : after ≡ record db {
      workspaces =
          update_where (has_workspace_id w) (λ (row : Workspace). record row { name = name })
            db.workspaces;
    } =
      ground arith in
    rw e (record {
      keys = s.keys;
      owners = λ v has. s.owners v (
          omega (
            arith,
            has,
            count-update_same (has_workspace_id v) (has_workspace_id w)
                (λ (row : Workspace). record row { name = name }) db.workspaces (λ row. refl),
          ));
      invitation_ids = s.invitation_ids;
      one_pending = s.one_pending;
    })

-- A change of name keeps the database sound.
pub rename_user_workspace-IsSound :
    (db : Database) (u w : ℕ) (name : Text) {out : WorkspaceDto} {after : Database}
    → IsSound db
    → rename_user_workspace u w name db ≡ ok (out, after)
    → IsSound after
unfolding rename_user_workspace
rename_user_workspace-IsSound db u w name s h =
    let (parsed, one, p, rest) =
      and_then-eq-ok (or_fail (parse_name name) invalid_request db) _ h in
    let (known, same) = or_fail-ok (parse_name name) invalid_request db p in
    write_name-IsSound db u w parsed s (rw same at rest)

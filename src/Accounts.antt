-- ===== src/Accounts.antt =====
-- apps/api/src/services/account.ts: deleting an account or a workspace for good.
-- `verify` stands for argon2's check of a password against a hash.
pub mod Erasure
pub mod Sound
pub mod Removal
use living_cost_manager.Prelude.{
  ℕ, Bool, true, false, not, ◌&&◌, ◌||◌, Option, none, some, List, [], ◌∷◌, Text, ◌==◌, ltb, leb,
  if◌then◌else◌, map, find, any, count_if, select, update_where, delete_where,
}
use living_cost_manager.Database.{
  User, Workspace, Member, Contract, PaymentAttempt, AttemptStatus, RefundStatus, Instrument,
  Database, is_owner, is_owner_of, is_membership, has_workspace_id, has_user_id,
}
use living_cost_manager.Database.Tx.{
  user_not_found, invalid_credentials, workspace_conflict, workspace_forbidden, billing_blocked, Tx,
  pure, raise, gets, modify, require, or_fail, ◌>>=◌, ◌>>◌,
}
use living_cost_manager.Membership.{owner_row}

abbrev is_unresolved : PaymentAttempt → Bool
is_unresolved a =
    elim a.status [
      | AttemptStatus.created ↦ true
      | AttemptStatus.dispatch_unknown ↦ true
      | AttemptStatus.manual_review ↦ true
      | AttemptStatus.another ↦ false
    ]
    || a.review_required

abbrev is_open_refund : RefundStatus → Bool
is_open_refund RefundStatus.verified = false
is_open_refund RefundStatus.rejected = false
is_open_refund RefundStatus.another = true

abbrev is_live_instrument : Instrument → Bool
is_live_instrument i = not i.is_revoked || i.has_secrets

abbrev is_unprocessed : Option ℕ → Bool
is_unprocessed none = true
is_unprocessed (some t) = false

abbrev is_version : Option ℕ → ℕ → Bool
is_version none v = false
is_version (some k) v = k == v

abbrev is_wound_up : Contract → Bool
is_wound_up c =
    c.is_idle
    || (c.cancel_requested
        && (c.renewal_stopped
            && (c.cancellation_verified && is_version c.cancellation_verified_version c.version)))

-- the billing test of `deleteAccount`
unfoldable pub blocks_deletion : Contract → Bool
blocks_deletion c =
    any is_unresolved c.attempts
    || any is_open_refund c.refunds
    || any is_live_instrument c.instruments
    || any is_unprocessed c.events_processed_at
    || not (is_wound_up c)

abbrev pub is_contract_of : ℕ → Contract → Bool
is_contract_of u c = elim c.user_id [ none ↦ false | some v ↦ v == u ]

abbrev guard_billing : Option Contract → Tx (Unit {0})
guard_billing none = pure tt
guard_billing (some c) = require (not (blocks_deletion c)) billing_blocked

abbrev pub member_count : Database → ℕ → ℕ
member_count db w = count_if (λ m. m.workspace_id == w) db.members

-- an owned workspace that still has other members
abbrev pub is_blocking : Database → ℕ → Member → Bool
is_blocking db u m = (m.user_id == u) && (is_owner m.role && ltb 1 (member_count db m.workspace_id))

abbrev name_of : Option Workspace → Text
name_of none = []
name_of (some w) = w.name

abbrev blocking_workspace : Database → Member → ℕ × Text
blocking_workspace db m =
    (m.workspace_id, name_of (find (has_workspace_id m.workspace_id) db.workspaces))

-- `blocking`
abbrev blocking_workspaces : Database → ℕ → List (ℕ × Text)
blocking_workspaces db u = map (blocking_workspace db) (select (is_blocking db u) db.members)

-- whether `w` is in `ownedIds`
abbrev pub is_owned_by : Database → ℕ → ℕ → Bool
is_owned_by db u w = any (λ m. (m.user_id == u) && is_owner_of w m) db.members

-- `workspace.deleteMany` with the cascades to the rows of the workspace
unfoldable pub delete_workspaces : (ℕ → Bool) → Database → Database
delete_workspaces gone db = record db {
  workspaces = delete_where (λ w. gone w.id) db.workspaces;
  members = delete_where (λ m. gone m.workspace_id) db.members;
  invitations = delete_where (λ i. gone i.workspace_id) db.invitations;
  categories = delete_where (λ c. gone c.workspace_id) db.categories;
  cards = delete_where (λ c. gone c.workspace_id) db.cards;
  fixed_costs = delete_where (λ c. gone c.workspace_id) db.fixed_costs;
  planning = delete_where (λ p. gone p.workspace_id) db.planning;
  backups = delete_where (λ b. gone b.workspace_id) db.backups;
}

abbrev detached : Contract → Contract
detached c = record c { user_id = none }

-- `user.delete`: memberships go with the user, and contracts stay without one
unfoldable pub delete_user : ℕ → Database → Database
delete_user u db = record db {
  users = delete_where (has_user_id u) db.users;
  members = delete_where (λ m. m.user_id == u) db.members;
  contracts = update_where (is_contract_of u) detached db.contracts;
}

-- `workspaceMember.deleteMany({ where: { userId } })`
abbrev delete_memberships : ℕ → Database → Database
delete_memberships u db = record db { members = delete_where (λ m. m.user_id == u) db.members }

-- the writes of the transaction
unfoldable pub erase : ℕ → Database → Database
unfolding delete_workspaces delete_user
erase u db = delete_user u (delete_memberships u (delete_workspaces (is_owned_by db u) db))

-- the transaction, after the password has been verified
unfoldable pub erase_account : ℕ → Tx (Unit {0})
erase_account u = do
  contract ← gets (λ db. find (is_contract_of u) db.contracts)
  guard_billing contract
  shared ← gets (λ db. any (is_blocking db u) db.members)
  names ← gets (λ db. blocking_workspaces db u)
  require (not shared) (workspace_conflict names)
  modify (erase u)

module _ (verify : ℕ → ℕ → Bool) where
  -- the check outside the transaction
  unfoldable pub check_password : ℕ → ℕ → Tx (Unit {0})
  check_password u password = do
    row ← gets (λ db. find (has_user_id u) db.users)
    user ← or_fail row user_not_found
    require (verify user.password_hash password) invalid_credentials

  unfoldable pub delete_account : ℕ → ℕ → Tx (Unit {0})
  unfolding check_password erase_account
  delete_account u password = do check_password u password; erase_account u

unfoldable pub delete_workspace : ℕ → ℕ → Tx (Unit {0})
delete_workspace u w = do
  membership ← gets (λ db. find (is_membership w u) db.members)
  require (owner_row membership) workspace_forbidden
  modify (delete_workspaces (λ v. v == w))

-- ===== src/Lib.antt =====
-- Verification of the living-cost manager, a ledger of fixed costs that households share.
--
-- The program is an API (apps/api) over one PostgreSQL database (prisma/schema.prisma), a web
-- client (apps/web) and a package of rules that both use (packages/shared). The services of the
-- API work on the shared tables in transactions; the client works on a snapshot of a workspace's
-- budget, which it writes back as a whole under a version number.
--
-- Files and what they model:
-- - Database: the tables as lists of rows in the order of insertion (prisma/schema.prisma).
--   Database.Tx has transactions: a function from a database to a result, where an error carries
--   no database, as it rolls every write back. Database.Inserts has the inserts with the unique
--   and foreign keys; Database.Integrity has what every database is to satisfy (IsSound).
-- - Membership: apps/api/src/services/membership.ts (requireWorkspaceRole, listWorkspaceMembers,
--   updateWorkspaceMemberRole, deleteWorkspaceMember and the others, under the same names).
-- - Invitations: apps/api/src/services/invitations.ts (createWorkspaceInvitation,
--   acceptWorkspaceInvitation, revokeWorkspaceInvitation and the lists).
-- - Accounts: apps/api/src/services/account.ts (deleteAccount, whose transaction is
--   erase_account, and deleteWorkspace).
-- - Workspaces: apps/api/src/services/workspaces.ts (createUserWorkspace, renameUserWorkspace),
--   Workspaces.Requests has the schemas of their requests (packages/shared/src/workspace.ts);
--   the limits of paid-feature-policy.ts, and the transaction of the registration in
--   apps/api/src/routes/auth.ts.
-- - Snapshot: apps/api/src/services/snapshot.ts (getWorkspaceSnapshot, replaceWorkspaceSnapshot,
--   getSnapshotHistory). PlanningData and PlanningStorage: packages/shared/src/planning.ts and
--   apps/api/src/services/planning-storage.ts, for the planning that a backup carries. Planning:
--   apps/api/src/services/planning.ts (getWorkspacePlanning, putWorkspacePlanning).
-- - Calendar: civil dates (apps/web/app/lib/planningTime.ts, packages/shared/src/billing.ts).
--   Predictions: packages/shared/src/predictions.ts. Aggregation:
--   packages/shared/src/workspaceAggregation.ts.
-- - Subscription: apps/api/src/services/service-subscription.ts and the catalog of
--   packages/shared/src/servicePricing.ts; `none` stands for a TypeError there.
-- - Billing: apps/api/src/services/service-billing.ts over tables of its own (Billing.Store), with
--   transactions as in Database.Tx. Billing.Quotes has createQuote, prepare and confirm;
--   Billing.Charge and Billing.Renew the reservations of charge and renew; Billing.Dispatch the claim
--   and the release of dispatch; Billing.Reconcile and Billing.Settle the two transactions of reconcile;
--   Billing.Cancel those of cancel and revokeInstrument; Billing.Refunds those of the refunds.
--   Billing.Recovery is reconcileRefundUnknown.
--   Billing.Process has the service beside its provider: the transactions in any order, and the
--   charges that are claimed, sent or lost. The other children hold the proofs.
-- - ProductTour: apps/api/src/services/product-tour.ts.
-- - System: the transactions of Membership to Planning as steps of one database, in any order.
-- - Examples: the theorems at concrete inputs.
--
-- How the model stands to the source:
-- - Ids (cuid), token hashes and password hashes are compared for equality only and are numbers;
--   the empty payment option is 0. Instants are milliseconds. A period of months is kept in tenths, as
--   the schema admits multiples of 0.1. Texts are lists of UTF-16 code units; lower case is that of
--   the ASCII letters.
-- - SHA-256, argon2 and whether a user has paid access are parameters; random tokens, new ids and
--   the clock are arguments. A committed transaction is one step, and steps come in any
--   order. The source asks for it by serializable transactions in some services; in others
--   (acceptWorkspaceInvitation, replaceWorkspaceSnapshot, createUserWorkspace, registration and the
--   billing), which run at a weaker level, it relies on row locks, conditional updates and unique keys.
--   What two such transactions can do between each other's statements is not modelled.
-- - `randomUUID` draws a payment id that no attempt has yet: the steps of Billing.Process that reserve
--   an attempt say so.
-- - A request is parsed first where the service does: Workspaces.Requests and PlanningData.parse_planning
--   trim what the schemas trim. The schemas that only routes apply are not modelled.
-- - Sums of floating-point numbers are a parameter of the aggregation. Its income is handed through
--   and left out.
-- - The loop over occurrences in the aggregation and the loop of the thirty-day list run on fuel 4
--   for each cost; at most two charges fall into thirty days, so that this is enough.
-- - The provider of payments, the encryption of card keys and the digest of a checkout are not code
--   of the model: what the provider observed, an unsealed key and a digest are arguments, `decrypt`
--   is a parameter. Each transaction of the billing reads the clock once. `provider`, `storeId` and
--   `environment` are compared as one scope, and the four columns of a sealed key are one.
-- - A stored backup is taken to have the shape of a snapshot.
--
-- Not modelled: routes and their HTTP statuses, tokens and login, the webhook events of the
-- billing and its workers' batches, push, mail, marketing, templates, coaching preferences,
-- and the state of the web client.

pub mod Prelude
pub mod Database
pub mod Membership
pub mod Invitations
pub mod Accounts
pub mod Billing
pub mod Calendar
pub mod Predictions
pub mod Aggregation
pub mod PlanningData
pub mod PlanningStorage
pub mod Snapshot
pub mod Workspaces
pub mod Planning
pub mod Subscription
pub mod ProductTour
pub mod System
pub mod Examples

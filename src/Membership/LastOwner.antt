-- ===== src/Membership/LastOwner.antt =====
-- The check of the last owner, and the transactions that make it again (`isLastWorkspaceOwner`).
use living_cost_manager.Database.{Database}

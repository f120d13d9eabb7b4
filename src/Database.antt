-- ===== src/Database.antt =====
-- The PostgreSQL tables that the services of apps/api share (prisma/schema.prisma), one list of
-- rows for each table in the order of insertion, and transactions over them.
-- Row ids (cuid), user ids and cost ids are opaque: the services compare them for equality, so
-- they are numbers here. Instants are milliseconds.
pub mod Tx
pub mod Inserts
pub mod Integrity
use living_cost_manager.Prelude.{
  ℕ, ◌+◌, Bool, true, false, ◌&&◌, Option, none, some, List, [], Text, ◌==◌, text_eq, count_if,
}
use living_cost_manager.PlanningData.{PlanningData}

pub data WorkspaceRole : Type 0 where
  owner editor viewer : WorkspaceRole

pub data InvitationRole : Type 0 where
  editor viewer : InvitationRole

pub data InvitationStatus : Type 0 where
  pending accepted revoked expired : InvitationStatus

pub data PaymentMethod : Type 0 where
  cash bank_transfer debit_card credit_card other : PaymentMethod

pub data RenewalStatus : Type 0 where
  unreviewed keep cancel_planned change_review completed : RenewalStatus

pub record User : Type 0 where
  pub id : ℕ
  pub email : Text
  pub name : Text
  pub password_hash : ℕ
  pub token_version : ℕ
  pub email_verified_at : Option ℕ

pub record Workspace : Type 0 where
  pub id : ℕ
  pub name : Text
  pub monthly_income : ℕ
  pub sync_version : ℕ

pub record Member : Type 0 where
  pub id : ℕ
  pub workspace_id : ℕ
  pub user_id : ℕ
  pub role : WorkspaceRole

pub record Invitation : Type 0 where
  pub id : ℕ
  pub workspace_id : ℕ
  pub email : Text
  pub role : InvitationRole
  pub status : InvitationStatus
  pub token_hash : ℕ
  pub expires_at : ℕ
  pub accepted_at : Option ℕ

pub record Category : Type 0 where
  pub id : ℕ
  pub workspace_id : ℕ
  pub label : Text

pub record PaymentCard : Type 0 where
  pub id : ℕ
  pub workspace_id : ℕ
  pub label : Text
  pub billing_day : ℕ
  pub is_end_of_month : Bool

-- `period_tenths` is ten times `periodMonths`: the schema admits multiples of 0.1 only.
pub record FixedCost : Type 0 where
  pub id : ℕ
  pub workspace_id : ℕ
  pub name : Text
  pub category_id : ℕ
  pub payment_method_id : PaymentMethod
  pub payment_card_id : Option ℕ
  pub payment_option_key : Option ℕ
  pub amount : ℕ
  pub period_tenths : ℕ
  pub billing_day : ℕ
  pub is_end_of_month : Bool
  pub billing_anchor_date : Option Text
  pub renewal_status : RenewalStatus
  pub potential_monthly_savings : ℕ
  pub confirmed_monthly_savings : ℕ

-- `FixedCostDto` of packages/shared/src/budget.ts. The key of a payment option is opaque, and
-- `no_option` is the empty text. The anchor may be absent, null or a text, and the other three
-- billing fields absent or a value.
pub record FixedCostDto : Type 0 where
  pub id : ℕ
  pub workspace_id : ℕ
  pub name : Text
  pub category_id : ℕ
  pub payment_method_id : PaymentMethod
  pub payment_option_id : ℕ
  pub amount : ℕ
  pub period_tenths : ℕ
  pub billing_day : ℕ
  pub is_end_of_month : Bool
  pub billing_anchor_date : Option (Option Text)
  pub renewal_status : Option RenewalStatus
  pub potential_monthly_savings : Option ℕ
  pub confirmed_monthly_savings : Option ℕ

abbrev pub no_option : ℕ
no_option = 0

pub record WorkspaceSnapshot : Type 0 where
  pub workspace_id : ℕ
  pub sync_version : ℕ
  pub monthly_income : ℕ
  pub categories : List Category
  pub cards : List PaymentCard
  pub fixed_costs : List FixedCostDto

-- The planning payload is `none` where the stored JSON has not the shape of the schema.
pub record PlanningState : Type 0 where
  pub workspace_id : ℕ
  pub revision : ℕ
  pub payload : Option PlanningData

pub record Archive : Type 0 where
  pub revision : ℕ
  pub content : PlanningData

-- The payload of a backup is a snapshot with the planning of that moment.
pub record Backup : Type 0 where
  pub id : ℕ
  pub workspace_id : ℕ
  pub created_at : ℕ
  pub snapshot : WorkspaceSnapshot
  pub planning : Option Archive

-- The billing rows that account deletion reads. `another` stands for the statuses that it does
-- not tell apart.
pub data AttemptStatus : Type 0 where
  created dispatch_unknown manual_review another : AttemptStatus

pub data RefundStatus : Type 0 where
  verified rejected another : RefundStatus

pub record PaymentAttempt : Type 0 where
  pub status : AttemptStatus
  pub review_required : Bool

-- `has_secrets`: one of ciphertext, nonce, authTag and keyVersion is not null
pub record Instrument : Type 0 where
  pub is_revoked : Bool
  pub has_secrets : Bool

pub record Contract : Type 0 where
  pub user_id : Option ℕ
  pub is_idle : Bool
  pub cancel_requested : Bool
  pub renewal_stopped : Bool
  pub cancellation_verified : Bool
  pub version : ℕ
  pub cancellation_verified_version : Option ℕ
  pub attempts : List PaymentAttempt
  pub refunds : List RefundStatus
  pub instruments : List Instrument
  pub events_processed_at : List (Option ℕ)

pub record Database : Type 0 where
  pub users : List User
  pub workspaces : List Workspace
  pub members : List Member
  pub invitations : List Invitation
  pub categories : List Category
  pub cards : List PaymentCard
  pub fixed_costs : List FixedCost
  pub planning : List PlanningState
  pub contracts : List Contract
  pub backups : List Backup

abbrev pub empty : Database
empty = record {
  users = [];
  workspaces = [];
  members = [];
  invitations = [];
  categories = [];
  cards = [];
  fixed_costs = [];
  planning = [];
  contracts = [];
  backups = [];
}

abbrev pub is_owner : WorkspaceRole → Bool
is_owner owner = true
is_owner _ = false

abbrev pub is_pending : InvitationStatus → Bool
is_pending pending = true
is_pending _ = false

-- where: { workspaceId, userId }
abbrev pub is_membership : ℕ → ℕ → Member → Bool
is_membership w u m = (m.workspace_id == w) && (m.user_id == u)

-- where: { workspaceId, role: "owner" }
abbrev pub is_owner_of : ℕ → Member → Bool
is_owner_of w m = (m.workspace_id == w) && is_owner m.role

abbrev pub has_member_id : ℕ → Member → Bool
has_member_id k m = m.id == k

abbrev pub has_workspace_id : ℕ → Workspace → Bool
has_workspace_id w row = row.id == w

abbrev pub has_user_id : ℕ → User → Bool
has_user_id u row = row.id == u

abbrev pub has_invitation_id : ℕ → Invitation → Bool
has_invitation_id k row = row.id == k

abbrev pub has_token_hash : ℕ → Invitation → Bool
has_token_hash k row = row.token_hash == k

-- the rows of the partial unique index on pending invitations
abbrev pub is_pending_for : ℕ → Text → Invitation → Bool
is_pending_for w email row =
    (row.workspace_id == w) && (text_eq row.email email && is_pending row.status)

abbrev pub owner_count : Database → ℕ → ℕ
owner_count db w = count_if (is_owner_of w) db.members
